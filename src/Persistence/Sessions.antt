-- ===== src/Persistence/Sessions.antt =====
-- SqlSessionRepository
use wol_monkey.Common.{
  ℕ, ◌-◌, String, true, false, not, Option, none, some, [], ◌∷◌, ◌++◌, ◌==◌, ltb, length, find,
  select, any, update_where,
}
use wol_monkey.Domain.Records.{Session}
use wol_monkey.Host.{Host}
use wol_monkey.Persistence.Machines.{optional_inet}
use wol_monkey.Exec.{
  Exec, pure, query, modify, guard, call, now, as_uuid, ◌>>=◌, ◌>>◌, integrity_error,
}

-- The arguments of `create`.
pub record NewSession : Type 0 where
  pub user_id : String
  pub csrf_secret : String
  pub expires_at : ℕ
  pub ip : Option String
  pub user_agent : Option String

module _ (h : Host) where
  -- The columns' types are checked by the flush, then the foreign key.
  unfoldable pub create : NewSession → Exec Session
  create args = do
    n ← call
    at ← now h
    user ← as_uuid h args.user_id
    ip ← optional_inet h args.ip "ip"
    known ← query (λ db. any (λ u. u.id == user) db.users)
    guard known integrity_error "sessions.user_id"
    let session : Session = record {
      id = h.uuid n;
      user_id = user;
      csrf_secret = args.csrf_secret;
      ip = ip;
      user_agent = args.user_agent;
      expires_at = args.expires_at;
      revoked = false;
      created_at = at;
    }
    modify (λ db. record db { sessions = db.sessions ++ session ∷ [] })
    pure session

  unfoldable pub get_by_id : String → Exec (Option Session)
  get_by_id session_id = elim (h.canonical session_id) [
    | none ↦ pure none
    | some key ↦ query (λ db. find (λ s. s.id == key) db.sessions)
  ]

  unfoldable pub revoke : String → Exec (Unit {0})
  revoke session_id = do
    key ← as_uuid h session_id
    modify (λ db. record db {
      sessions = update_where (λ s. s.id == key) (λ s. record s { revoked = true }) db.sessions;
    })

  unfoldable pub revoke_all_for_user : String → Exec (Unit {0})
  revoke_all_for_user user_id = do
    key ← as_uuid h user_id
    modify (λ db. record db {
      sessions =
          update_where (λ s. s.user_id == key) (λ s. record s { revoked = true }) db.sessions;
    })

  unfoldable pub delete_expired : Exec ℕ
  delete_expired = do
    at ← now h
    before ← query (λ db. length db.sessions)
    modify (λ db. record db { sessions = select (λ s. not (ltb s.expires_at at)) db.sessions })
    after ← query (λ db. length db.sessions)
    pure (before - after)
