-- ===== src/Persistence/Tokens.antt =====
-- SqlApiTokenRepository
use wol_monkey.Common.{
  String, Bool, false, not, Option, none, some, List, [], ◌∷◌, ◌++◌, ◌==◌, ◌&&◌, is_some, select,
  any, update_where,
}
use wol_monkey.Domain.Records.{ApiToken, Dict, Value}
use wol_monkey.Host.{Host}
use wol_monkey.Exec.{
  Exec, pure, query, modify, guard, call, now, as_uuid, one_or_none, ◌>>=◌, ◌>>◌, integrity_error,
}

-- The arguments of `create`.
pub record NewToken : Type 0 where
  pub name : String
  pub token_hash : String
  pub prefix : String
  pub scopes : Dict Value
  pub user_id : String
  pub machine_id : Option String

-- `revoked_at IS NULL`
abbrev pub is_active : ApiToken → Bool
is_active t = not (is_some t.revoked_at)

abbrev pub is_for : String → ApiToken → Bool
is_for key t = elim t.machine_id [ none ↦ false | some m ↦ m == key ]

module _ (h : Host) where
  -- The foreign key on the machine, where there is one.
  unfoldable pub machine_key : Option String → Exec (Option String)
  machine_key none = pure none
  machine_key (some machine_id) = do
    key ← as_uuid h machine_id
    known ← query (λ db. any (λ m. m.id == key) db.machines)
    guard known integrity_error "api_tokens.machine_id"
    pure (some key)

  unfoldable pub create : NewToken → Exec ApiToken
  unfolding machine_key
  create args = do
    n ← call
    at ← now h
    user ← as_uuid h args.user_id
    machine ← machine_key args.machine_id
    known ← query (λ db. any (λ u. u.id == user) db.users)
    guard known integrity_error "api_tokens.user_id"
    taken ← query (λ db. any (λ t. t.token_hash == args.token_hash) db.tokens)
    guard (not taken) integrity_error "uq_api_tokens_hash"
    let token : ApiToken = record {
      id = h.uuid n;
      user_id = user;
      machine_id = machine;
      name = args.name;
      token_hash = args.token_hash;
      prefix = args.prefix;
      scopes = args.scopes;
      last_used_at = none;
      revoked_at = none;
      created_at = at;
    }
    modify (λ db. record db { tokens = db.tokens ++ token ∷ [] })
    pure token

  unfoldable pub list_for_machine : String → Exec (List ApiToken)
  list_for_machine machine_id = elim (h.canonical machine_id) [
    | none ↦ pure []
    | some key ↦ query (λ db. select (λ t. is_for key t && is_active t) db.tokens)
  ]

  unfoldable pub revoke : String → Exec (Unit {0})
  revoke token_id = do
    at ← now h
    key ← as_uuid h token_id
    modify (λ db. record db {
      tokens = update_where (λ t. t.id == key) (λ t. record t { revoked_at = some at }) db.tokens;
    })

  unfoldable pub touch_last_used : String → Exec (Unit {0})
  touch_last_used token_id = do
    at ← now h
    key ← as_uuid h token_id
    modify (λ db. record db {
      tokens = update_where (λ t. t.id == key) (λ t. record t { last_used_at = some at }) db.tokens;
    })

unfoldable pub get_by_hash : String → Exec (Option ApiToken)
get_by_hash hash = do
  rows ← query (λ db. select (λ t. t.token_hash == hash && is_active t) db.tokens)
  one_or_none rows

unfoldable pub list_active : Exec (List ApiToken)
list_active = query (λ db. select is_active db.tokens)
