-- ===== src/Services/Auth.antt =====
-- AuthService of app/services/auth.py, with the password, token and CSRF helpers of app/security.
pub mod Laws
pub mod SessionLife
use wol_monkey.Common.{
  ℕ, zero, suc, ◌+◌, ◌*◌, String, ◌<>◌, Bool, true, false, not, Option, none, some, List, ltb,
  is_some, if◌then◌else◌,
}
use wol_monkey.Domain.Records.{User, Session, ApiToken, Dict, Value}
use wol_monkey.Host.{Host, Verdict, verified, mismatch, broken}
use wol_monkey.Exec.{
  Exec, pure, raise, guard, call, now, second, ◌>>=◌, ◌>>◌, authentication, other,
}
use wol_monkey.Persistence.Users
use wol_monkey.Persistence.Sessions
use wol_monkey.Persistence.Sessions.{NewSession}
use wol_monkey.Persistence.Tokens
use wol_monkey.Persistence.Tokens.{NewToken}

abbrev pub session_lifetime_hours : ℕ
session_lifetime_hours = 12

abbrev pub session_lifetime : ℕ
session_lifetime = session_lifetime_hours * 3600 * second

-- The raw token, its prefix and its hash.
pub record NewSecret : Type 0 where
  pub raw : String
  pub prefix : String
  pub token_hash : String

module _ (h : Host) where
  unfoldable pub answer : Verdict → Exec Bool
  answer verified = pure true
  answer mismatch = pure false
  answer (broken message) = raise other message

  -- Only a mismatch is caught.
  unfoldable pub verify_password : String → String → Exec Bool
  unfolding answer
  verify_password plain hashed = answer (h.argon2_verify hashed plain)

  unfoldable pub hash_password : String → Exec String
  hash_password plain = do n ← call; pure (h.argon2_hash n plain)

  unfoldable pub generate_token : Exec NewSecret
  generate_token = do
    n ← call
    m ← call
    let prefix : String = h.token_hex n 4
    let raw : String = "wm_" <> prefix <> "_" <> h.token_hex m 20
    pure (record { raw = raw; prefix = prefix; token_hash = h.sha256_hex raw })

  unfoldable pub admin_exists : Exec Bool
  admin_exists = do n ← Users.count; pure (ltb 0 n)

  unfoldable pub create_admin : String → String → Exec User
  create_admin username password = do
    exists ← admin_exists
    guard (not exists) authentication "Admin account already exists"
    hash ← hash_password password
    Users.create h username hash "admin"

  unfoldable pub check_password : String → Option User → Exec User
  check_password password none = raise authentication "Invalid credentials"
  check_password password (some user) = do
    matches ← verify_password password user.password_hash
    guard matches authentication "Invalid credentials"
    pure user

  unfoldable pub rehash : String → User → Bool → Exec (Unit {0})
  rehash password user false = pure tt
  rehash password user true = do
    hash ← hash_password password
    Users.update_password_hash h user.id hash

  unfoldable pub start_session : User → Option String → Option String → Exec Session
  start_session user ip user_agent = do
    at ← now h
    n ← call
    session ← Sessions.create h (record {
      user_id = user.id;
      csrf_secret = h.token_hex n 32;
      expires_at = at + session_lifetime;
      ip = ip;
      user_agent = user_agent;
    })
    Users.update_last_login h user.id
    pure session

  unfoldable pub login : String → String → Option String → Option String → Exec Session
  unfolding check_password rehash
  login username password ip user_agent = do
    found ← Users.get_by_username h username
    user ← check_password password found
    rehash password user (h.argon2_needs_rehash user.password_hash)
    start_session user ip user_agent

  unfoldable pub logout : String → Exec (Unit {0})
  logout session_id = Sessions.revoke h session_id

  unfoldable pub live : Option Session → Exec Session
  live none = raise authentication "Invalid or revoked session"
  live (some s) = do
    guard (not s.revoked) authentication "Invalid or revoked session"
    at ← now h
    guard (not (ltb s.expires_at at)) authentication "Session expired"
    pure s

  unfoldable pub with_user : Session → Option User → Exec (Session × User)
  with_user s none = raise authentication "User not found"
  with_user s (some u) = pure (s, u)

  unfoldable pub validate_session : String → Exec (Session × User)
  unfolding live with_user
  validate_session session_id = do
    found ← Sessions.get_by_id h session_id
    session ← live found
    user ← Users.get_by_id h session.user_id
    with_user session user

  -- The raw token, and the record that is stored.
  unfoldable pub create_api_token :
      String → Dict Value → String → Option String → Exec (String × ApiToken)
  create_api_token name scopes user_id machine_id = do
    secret ← generate_token
    token ← Tokens.create h (record {
      name = name;
      token_hash = secret.token_hash;
      prefix = secret.prefix;
      scopes = scopes;
      user_id = user_id;
      machine_id = machine_id;
    })
    pure (secret.raw, token)

  unfoldable pub usable : Option ApiToken → Exec ApiToken
  usable none = raise authentication "Invalid API token"
  usable (some t) = do
    guard (not (is_some t.revoked_at)) authentication "API token has been revoked"
    Tokens.touch_last_used h t.id
    pure t

  unfoldable pub validate_api_token : String → Exec ApiToken
  unfolding usable
  validate_api_token raw = do found ← Tokens.get_by_hash (h.sha256_hex raw); usable found

  unfoldable pub revoke_api_token : String → Exec (Unit {0})
  revoke_api_token token_id = Tokens.revoke h token_id

  unfoldable pub list_api_tokens : Exec (List ApiToken)
  list_api_tokens = Tokens.list_active

  unfoldable pub list_api_tokens_for_machine : String → Exec (List ApiToken)
  list_api_tokens_for_machine machine_id = Tokens.list_for_machine h machine_id
