-- ===== src/Api/Atomic.antt =====
-- The endpoints of app/api that answer a request in one database session: all those that change
-- state, but for `wake_machine`, which commits half way.
pub mod Services
pub mod Anonymous
use Services.{
  login as service_login, validate_session, validate_api_token, create_admin, create_api_token,
  advance, is_complete, revoke_token_row, revoke_session_row, wake, new_machine,
  update_machine as update_row, delete_machine as delete_row, set_setting, get_machine,
}
use wol_monkey.Common.{ℕ, ◌≡◌, refl, String, Bool, Option, none, some, List, [], ◌∷◌, arith}
use wol_monkey.Domain.Records.{User, Machine, Session, Dict, Value}
use wol_monkey.Host.{Host}
use wol_monkey.World.{World}
use wol_monkey.Exec.{
  Exec, Kind, Error, err, pure, with_session, authentication, wake_error, value_error,
  runtime_error, integrity_error, data_error, multiple_results, other, http, ◌>>=◌, ◌>>◌,
}
use wol_monkey.Exec.Saved.{KeepsSaved, saved_rules, with_session-err}
use wol_monkey.Persistence.Machines as MachineTable
use wol_monkey.Services.Auth as AuthService
use wol_monkey.Services.Wake as WakeService
use wol_monkey.Api.RateLimit.{check_login_rate}
use wol_monkey.Api.Security.{
  Request, from_cookie, checked, get_current_session_and_user, require_csrf,
  get_csrf_protected_user, from_bearer, get_api_token, bearer, validate_csrf_token,
  generate_csrf_token, csrf_token,
}
use wol_monkey.Api.Auth as Auth
use wol_monkey.Api.Setup as Setup
use wol_monkey.Api.Machines as Machines
use wol_monkey.Api.Wake as Wake

pub data Endpoint : Type 0 where
  login : Request → String → String → Endpoint
  logout : Request → Endpoint
  create_token : Request → String → Dict Value → Option String → Endpoint
  revoke_token : Request → String → Endpoint
  setup_admin : String → String → Endpoint
  setup_network : String → String → ℕ → Endpoint
  setup_complete : Endpoint
  create_machine : Request → Machines.MachineCreate → Endpoint
  update_machine : Request → String → Machines.MachineUpdate → Endpoint
  delete_machine : Request → String → Endpoint
  wake_machine_direct : Request → String → Wake.WakeRequest → Endpoint

-- The request's handler, without the value that it answers.
unfoldable pub serve : Host → Endpoint → Exec (Unit {0})
serve h (login r u p) = do x ← Auth.login h r u p; pure tt
serve h (logout r) = Auth.logout h r
serve h (create_token r n s m) = do x ← Auth.create_token h r n s m; pure tt
serve h (revoke_token r t) = Auth.revoke_token h r t
serve h (setup_admin u p) = do x ← Setup.setup_admin h u p; pure tt
serve h (setup_network i s t) = Setup.setup_network h i s t
serve h setup_complete = Setup.setup_complete h
serve h (create_machine r b) = do x ← Machines.create_machine h r b; pure tt
serve h (update_machine r i b) = do x ← Machines.update_machine h r i b; pure tt
serve h (delete_machine r i) = Machines.delete_machine h r i
serve h (wake_machine_direct r i b) = do x ← Wake.wake_machine_direct h r i b; pure tt

module _ (h : Host) where
  cookie : (o : Option String) → KeepsSaved (from_cookie h o)
  unfolding from_cookie
  cookie none = search saved_rules
  cookie (some id) = search (saved_rules, validate_session)

  session : (r : Request) → KeepsSaved (get_current_session_and_user h r)
  unfolding get_current_session_and_user
  session r = cookie r.cookie

  csrf_checked : (s : Session) (t : String) → KeepsSaved (checked h s t)
  unfolding checked validate_csrf_token
  csrf_checked s t = record { at = λ w. ground arith }

  protected : (r : Request) → KeepsSaved (get_csrf_protected_user h r)
  unfolding get_csrf_protected_user require_csrf
  protected r = search (saved_rules, session, csrf_checked) depth 8

  token_of : (o : Option String) → KeepsSaved (from_bearer h o)
  unfolding from_bearer
  token_of none = search saved_rules
  token_of (some raw) = search (saved_rules, validate_api_token)

  rate : (ip : String) → KeepsSaved (check_login_rate h ip)
  unfolding check_login_rate
  rate ip = record { at = λ w. ground arith }

  csrf : (id secret : String) → KeepsSaved (generate_csrf_token h id secret)
  unfolding generate_csrf_token
  csrf id secret = search saved_rules

  not_authenticated :
      {A : Type 0} (n : ℕ) (m : String) (e : Error)
      → KeepsSaved (Auth.except_authentication {A = A} n m e)
  unfolding Auth.except_authentication
  not_authenticated n m e = record { at = λ w. ground arith }

  not_woken : (e : Error) → KeepsSaved (Wake.except_wake_error e)
  unfolding Wake.except_wake_error
  not_woken e = record { at = λ w. ground arith }

  incomplete : KeepsSaved (Setup.require_incomplete h)
  unfolding Setup.require_incomplete
  incomplete = search (saved_rules, is_complete)

  found : (o : Option Machine) → KeepsSaved (Machines.found_or_404 h o)
  unfolding Machines.found_or_404
  found none = search saved_rules
  found (some m) = search saved_rules

  applied : (id : String) (cs : List MachineTable.Change) → KeepsSaved (Machines.apply h id cs)
  unfolding Machines.apply
  applied id [] = get_machine h id
  applied id (c ∷ cs) = update_row h id (c ∷ cs)

  serve-KeepsSaved : (e : Endpoint) → KeepsSaved (serve h e)
  unfolding serve Auth.login Auth.logout Auth.create_token Auth.revoke_token Setup.setup_admin
      Setup.setup_network Setup.setup_complete Machines.create_machine Machines.update_machine
      Machines.delete_machine Wake.wake_machine_direct get_api_token AuthService.logout
      AuthService.revoke_api_token
  serve-KeepsSaved (login r u p) =
      search (saved_rules, rate, service_login, not_authenticated, csrf) depth 9
  serve-KeepsSaved (logout r) = search (saved_rules, session, revoke_session_row)
  serve-KeepsSaved (create_token r n s m) =
      search (saved_rules, protected, create_api_token) depth 7
  serve-KeepsSaved (revoke_token r t) = search (saved_rules, protected, revoke_token_row)
  serve-KeepsSaved (setup_admin u p) =
      search (saved_rules, incomplete, create_admin, not_authenticated, advance) depth 8
  serve-KeepsSaved (setup_network i s t) =
      search (saved_rules, incomplete, set_setting, advance) depth 9
  serve-KeepsSaved setup_complete = search (saved_rules, incomplete, advance)
  serve-KeepsSaved (create_machine r b) = search (saved_rules, protected, new_machine) depth 7
  serve-KeepsSaved (update_machine r i b) = search (saved_rules, protected, applied, found) depth 8
  serve-KeepsSaved (delete_machine r i) = search (saved_rules, protected, delete_row) depth 7
  serve-KeepsSaved (wake_machine_direct r i b) =
      search (saved_rules, token_of, wake, not_woken) depth 8

  -- A request to one of these endpoints that raises, an HTTPException or any other, leaves every
  -- table as it was committed before; so a direct wake whose packet fails keeps no record of it.
  pub serve_atomic :
      (e : Endpoint) (w : World) (x : Error)
      → (with_session (serve h e) w).0 ≡ err x
      → ((with_session (serve h e) w).1.db ≡ w.saved)
        × ((with_session (serve h e) w).1.saved ≡ w.saved)
  serve_atomic e w x failed = with_session-err (serve h e) w x (serve-KeepsSaved e) failed
