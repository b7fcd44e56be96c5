-- ===== src/Persistence/Users.antt =====
-- SqlUserRepository
use wol_monkey.Common.{
  ℕ, String, not, Option, none, some, [], ◌∷◌, ◌++◌, ◌==◌, length, find, select, any, update_where,
}
use wol_monkey.Domain.Records.{User}
use wol_monkey.Host.{Host}
use wol_monkey.Exec.{
  Exec, pure, query, modify, guard, call, now, as_uuid, ◌>>=◌, ◌>>◌, integrity_error, one_or_none,
}

module _ (h : Host) where
  unfoldable pub get_by_id : String → Exec (Option User)
  get_by_id user_id = elim (h.canonical user_id) [
    | none ↦ pure none
    | some key ↦ query (λ db. find (λ u. u.id == key) db.users)
  ]

  unfoldable pub get_by_username : String → Exec (Option User)
  get_by_username name = do
    rows ← query (λ db. select (λ u. u.username == name) db.users)
    one_or_none rows

  -- The unique constraint on the name is checked by the flush.
  unfoldable pub create : String → String → String → Exec User
  create name hash role = do
    n ← call
    created ← now h
    taken ← query (λ db. any (λ u. u.username == name) db.users)
    guard (not taken) integrity_error "uq_users_username"
    let user : User = record {
      id = h.uuid n;
      username = name;
      password_hash = hash;
      role = role;
      created_at = created;
      last_login_at = none;
    }
    modify (λ db. record db { users = db.users ++ user ∷ [] })
    pure user

  unfoldable pub update_last_login : String → Exec (Unit {0})
  update_last_login user_id = do
    at ← now h
    key ← as_uuid h user_id
    modify (λ db. record db {
      users = update_where (λ u. u.id == key) (λ u. record u { last_login_at = some at }) db.users;
    })

  unfoldable pub update_password_hash : String → String → Exec (Unit {0})
  update_password_hash user_id hash = do
    key ← as_uuid h user_id
    modify (λ db. record db {
      users = update_where (λ u. u.id == key) (λ u. record u { password_hash = hash }) db.users;
    })

unfoldable pub count : Exec ℕ
count = query (λ db. length db.users)
