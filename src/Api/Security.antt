-- ===== src/Api/Security.antt =====
-- The dependencies of app/security/dependencies.py, and the CSRF tokens of app/security/csrf.py.
pub mod Laws
use Prim.Native.Char.{code}
use wol_monkey.Common.{
  String, Bool, false, ◌&&◌, Option, none, some, ◌==◌, text_or, leb, if◌then◌else◌,
}
use wol_monkey.Common.Text.{strip_prefix}
use wol_monkey.Domain.Records.{User, Session, ApiToken}
use wol_monkey.Host.{Host}
use wol_monkey.Exec.{Exec, pure, raise, guard, now, catch, ◌>>=◌, ◌>>◌, http}
use wol_monkey.Persistence.Users
use wol_monkey.Services.Auth

-- What the dependencies read of a request.
pub record Request : Type 0 where
  pub cookie : Option String
  pub authorization : Option String
  pub csrf_header : Option String
  pub csrf_form : Option String
  pub client_host : Option String
  pub user_agent : Option String

-- The raw token of an Authorization header.
unfoldable pub bearer : Option String → Option String
bearer none = none
bearer (some header) = strip_prefix "Bearer " header

-- The header, or else the form's field.
unfoldable pub csrf_token : Request → String
csrf_token r = text_or r.csrf_header (text_or r.csrf_form "")

module _ (h : Host) where
  unfoldable pub generate_csrf_token : String → String → Exec String
  generate_csrf_token session_id secret = do at ← now h; pure (h.csrf_dumps at session_id secret)

  abbrev same_claims : String → String → Option (String × String) → Bool
  same_claims session_id secret none = false
  same_claims session_id secret (some (sid, sec)) = sid == session_id && sec == secret

  unfoldable pub validate_csrf_token : String → String → String → Exec Bool
  validate_csrf_token token session_id secret = do
    at ← now h
    pure (same_claims session_id secret (h.csrf_loads at token))

  unfoldable pub from_cookie : Option String → Exec (Session × User)
  from_cookie none = raise (http 401) "Not authenticated"
  from_cookie (some session_id) =
      catch (Auth.validate_session h session_id) (λ e. raise (http 401) "Not authenticated")

  unfoldable pub get_current_session_and_user : Request → Exec (Session × User)
  unfolding from_cookie
  get_current_session_and_user r = from_cookie r.cookie

  unfoldable pub get_current_user : Request → Exec User
  get_current_user r = do (s, u) ← get_current_session_and_user r; pure u

  unfoldable pub checked : Session → String → Exec Bool
  checked s token = if token == "" then pure false else validate_csrf_token token s.id s.csrf_secret

  -- The session is that of `get_current_session_and_user`, which a request evaluates once.
  unfoldable pub require_csrf : Request → Session → Exec (Unit {0})
  unfolding checked
  require_csrf r s = do
    fine ← checked s (csrf_token r)
    guard fine (http 403) "CSRF validation failed"

  -- The dependencies `CurrentUser` and `CsrfProtected` of an endpoint.
  unfoldable pub get_csrf_protected_user : Request → Exec User
  get_csrf_protected_user r = do (s, u) ← get_current_session_and_user r; require_csrf r s; pure u

  unfoldable pub from_bearer : Option String → Exec ApiToken
  from_bearer none = raise (http 401) "Bearer token required"
  from_bearer (some raw) =
      catch (Auth.validate_api_token h raw) (λ e. raise (http 401) "Invalid or revoked API token")

  unfoldable pub get_api_token : Request → Exec ApiToken
  unfolding from_bearer
  get_api_token r = from_bearer (bearer r.authorization)

  -- The two attempts of the combined dependency: `none` where the source goes on.
  unfoldable pub try_cookie : Option String → Exec (Option User)
  try_cookie none = pure none
  try_cookie (some session_id) =
      catch (do (s, u) ← Auth.validate_session h session_id; pure (some u)) (λ e. pure none)

  unfoldable pub try_bearer : Option String → Exec (Option User)
  try_bearer none = pure none
  try_bearer (some raw) =
      catch (do t ← Auth.validate_api_token h raw; Users.get_by_id h t.user_id) (λ e. pure none)

  unfoldable pub or_unauthenticated : Option User → Exec User
  or_unauthenticated none = raise (http 401) "Not authenticated"
  or_unauthenticated (some u) = pure u

  unfoldable pub or_bearer : Request → Option User → Exec User
  or_bearer r (some u) = pure u
  or_bearer r none = do u ← try_bearer (bearer r.authorization); or_unauthenticated u

  unfoldable pub get_user_from_session_or_token : Request → Exec User
  unfolding try_cookie try_bearer or_unauthenticated or_bearer
  get_user_from_session_or_token r = do u ← try_cookie r.cookie; or_bearer r u
