-- ===== src/Api/Auth.antt =====
-- The endpoints of app/api/auth.py.
use wol_monkey.Common.{ℕ, suc, String, Bool, ◌&&◌, Option, none, some, List, leb}
use wol_monkey.Domain.Records.{User, ApiToken, Dict, Value}
use wol_monkey.Host.{Host}
use wol_monkey.Exec.{
  Exec, Error, pure, raise, guard, catch, ◌>>=◌, ◌>>◌, authentication, wake_error, value_error,
  runtime_error, integrity_error, data_error, multiple_results, other, http,
}
use wol_monkey.Services.Auth
use wol_monkey.Api.RateLimit.{check_login_rate}
use wol_monkey.Api.Security.{
  Request, generate_csrf_token, get_current_session_and_user, get_current_user,
  get_csrf_protected_user, get_user_from_session_or_token,
}

-- `len` of a text, in code points.
abbrev pub text_length : String → ℕ
text_length String.[] = 0
text_length (String.◌∷◌ c s) = suc (text_length s)

-- `Field(min_length=…, max_length=…)`
abbrev pub fits : ℕ → ℕ → String → Bool
fits least most s = leb least (text_length s) && leb (text_length s) most

pub record Login : Type 0 where
  pub session_cookie : String
  pub csrf_token : String

abbrev pub or_unknown : Option String → String
or_unknown none = "unknown"
or_unknown (some host) = host

-- `except AuthenticationError`: any other exception goes on.
unfoldable pub except_authentication : {A : Type 0} → ℕ → String → Error → Exec A
except_authentication status message e = elim e.kind [
  | authentication ↦ raise (http status) message
  | wake_error ↦ raise e.kind e.detail
  | value_error ↦ raise e.kind e.detail
  | runtime_error ↦ raise e.kind e.detail
  | integrity_error ↦ raise e.kind e.detail
  | data_error ↦ raise e.kind e.detail
  | multiple_results ↦ raise e.kind e.detail
  | other ↦ raise e.kind e.detail
  | http n ↦ raise e.kind e.detail
]

module _ (h : Host) where
  unfoldable pub login : Request → String → String → Exec Login
  login r username password = do
    guard (fits 1 150 username && fits 1 1024 password) (http 422) "validation"
    let ip : String = or_unknown r.client_host
    check_login_rate h ip
    session ←
        catch (Auth.login h username password (some ip) r.user_agent)
          (except_authentication 401 "Invalid credentials")
    token ← generate_csrf_token h session.id session.csrf_secret
    pure (record { session_cookie = session.id; csrf_token = token })

  unfoldable pub logout : Request → Exec (Unit {0})
  logout r = do (s, u) ← get_current_session_and_user h r; Auth.logout h s.id

  unfoldable pub me : Request → Exec User
  me r = get_user_from_session_or_token h r

  unfoldable pub create_token :
      Request → String → Dict Value → Option String → Exec (String × ApiToken)
  create_token r name scopes machine_id = do
    user ← get_csrf_protected_user h r
    guard (fits 1 255 name) (http 422) "validation"
    Auth.create_api_token h name scopes user.id machine_id

  unfoldable pub tokens_of : Option String → Exec (List ApiToken)
  tokens_of none = Auth.list_api_tokens h
  tokens_of (some machine_id) = Auth.list_api_tokens_for_machine h machine_id

  unfoldable pub list_tokens : Request → Option String → Exec (List ApiToken)
  unfolding tokens_of
  list_tokens r machine_id = do user ← get_current_user h r; tokens_of machine_id

  unfoldable pub revoke_token : Request → String → Exec (Unit {0})
  revoke_token r token_id = do user ← get_csrf_protected_user h r; Auth.revoke_api_token h token_id
