-- ===== src/Api/Atomic/Anonymous.antt =====
-- Requests without credentials, to every endpoint of app/api that asks for them.
use wol_monkey.Common.{◌≡◌, refl, String, Bool, Option, none}
use wol_monkey.Domain.Records.{Dict, Value}
use wol_monkey.Host.{Host}
use wol_monkey.World.{World}
use wol_monkey.Exec.{Exec, Error, err, http, pure, ◌>>=◌}
use wol_monkey.Api.Security.{
  Request, from_cookie, get_current_session_and_user, get_current_user, get_csrf_protected_user,
  from_bearer, get_api_token, try_cookie, try_bearer, or_bearer, or_unauthenticated,
  get_user_from_session_or_token, bearer,
}
use wol_monkey.Api.Auth as Auth
use wol_monkey.Api.Machines as Machines
use wol_monkey.Api.Wake as Wake
use wol_monkey.Api.System as System

-- The endpoints of auth.py, machines.py, wake.py and system.py, but for the login.
pub data Call : Type 0 where
  logout me : Call
  create_token : String → Dict Value → Option String → Call
  list_tokens : Option String → Call
  revoke_token : String → Call
  list_machines : Bool → Call
  create_machine : Machines.MachineCreate → Call
  get_machine : String → Call
  update_machine : String → Machines.MachineUpdate → Call
  delete_machine : String → Call
  wake_machine wake_machine_direct : String → Wake.WakeRequest → Call
  get_attempt_status : String → String → Call
  machine_status : String → Call
  list_interfaces discover_hosts : Call

-- The request's handler, without the value that it answers.
unfoldable pub run_call : Host → Request → Call → Exec (Unit {0})
run_call h r logout = Auth.logout h r
run_call h r me = do x ← Auth.me h r; pure tt
run_call h r (create_token n s m) = do x ← Auth.create_token h r n s m; pure tt
run_call h r (list_tokens m) = do x ← Auth.list_tokens h r m; pure tt
run_call h r (revoke_token t) = Auth.revoke_token h r t
run_call h r (list_machines b) = do x ← Machines.list_machines h r b; pure tt
run_call h r (create_machine b) = do x ← Machines.create_machine h r b; pure tt
run_call h r (get_machine i) = do x ← Machines.get_machine h r i; pure tt
run_call h r (update_machine i b) = do x ← Machines.update_machine h r i b; pure tt
run_call h r (delete_machine i) = Machines.delete_machine h r i
run_call h r (wake_machine i b) = do x ← Wake.wake_machine h r i b; pure tt
run_call h r (wake_machine_direct i b) = do x ← Wake.wake_machine_direct h r i b; pure tt
run_call h r (get_attempt_status i a) = do x ← Wake.get_attempt_status h r i a; pure tt
run_call h r (machine_status i) = do x ← Wake.machine_status h r i; pure tt
run_call h r list_interfaces = do x ← System.list_interfaces h r; pure tt
run_call h r discover_hosts = do x ← System.discover_hosts h r; pure tt

abbrev NoCookie : Request → Type 0
NoCookie r = r.cookie ≡ none

abbrev NoToken : Request → Type 0
NoToken r = bearer r.authorization ≡ none

-- What a request to the endpoint lacks: the session cookie, and where a bearer token would do as
-- well, this too; the direct wake takes nothing but a bearer token.
abbrev pub IsAnonymous : Request → Call → Type 0
IsAnonymous r me = NoCookie r × NoToken r
IsAnonymous r (list_machines b) = NoCookie r × NoToken r
IsAnonymous r (get_machine i) = NoCookie r × NoToken r
IsAnonymous r (get_attempt_status i a) = NoCookie r × NoToken r
IsAnonymous r (machine_status i) = NoCookie r × NoToken r
IsAnonymous r (wake_machine_direct i b) = NoToken r
IsAnonymous r _ = NoCookie r

abbrev pub unauthorized : String → Error
unauthorized detail = record { kind = http 401; detail = detail }

module _ (h : Host) where
  no_session :
      (r : Request) (w : World)
      → NoCookie r
      → get_current_session_and_user h r w ≡ (err (unauthorized "Not authenticated"), w)
  unfolding get_current_session_and_user from_cookie
  no_session r w e = rw e refl

  no_current_user :
      (r : Request) (w : World)
      → NoCookie r
      → get_current_user h r w ≡ (err (unauthorized "Not authenticated"), w)
  unfolding get_current_user
  no_current_user r w e = rw (no_session r w e) refl

  no_user :
      (r : Request) (w : World)
      → NoCookie r
      → get_csrf_protected_user h r w ≡ (err (unauthorized "Not authenticated"), w)
  unfolding get_csrf_protected_user
  no_user r w e = rw (no_session r w e) refl

  no_token :
      (r : Request) (w : World)
      → NoToken r
      → get_api_token h r w ≡ (err (unauthorized "Bearer token required"), w)
  unfolding get_api_token from_bearer
  no_token r w e = rw e refl

  no_credentials :
      (r : Request) (w : World)
      → NoCookie r × NoToken r
      → get_user_from_session_or_token h r w ≡ (err (unauthorized "Not authenticated"), w)
  unfolding get_user_from_session_or_token try_cookie try_bearer or_bearer or_unauthenticated
  no_credentials r w (c, t) = rw c (rw t refl)

  -- A request to one of these endpoints without the credentials that the endpoint asks for is answered
  -- with status 401, and nothing at all has changed: no table, no packet sent, no clock read.
  pub run_call-IsAnonymous :
      (r : Request) (c : Call) (w : World)
      → IsAnonymous r c
      → (detail : String) × (run_call h r c w ≡ (err (unauthorized detail), w))
  unfolding run_call Auth.logout Auth.me Auth.create_token Auth.list_tokens Auth.revoke_token
      Machines.list_machines Machines.create_machine Machines.get_machine Machines.update_machine
      Machines.delete_machine Wake.wake_machine Wake.wake_machine_direct Wake.get_attempt_status
      Wake.machine_status System.list_interfaces System.discover_hosts
  run_call-IsAnonymous r logout w a = ("Not authenticated", rw (no_session r w a) refl)
  run_call-IsAnonymous r me w a = ("Not authenticated", rw (no_credentials r w a) refl)
  run_call-IsAnonymous r (create_token n s m) w a = ("Not authenticated", rw (no_user r w a) refl)
  run_call-IsAnonymous r (list_tokens m) w a =
      ("Not authenticated", rw (no_current_user r w a) refl)
  run_call-IsAnonymous r (revoke_token t) w a = ("Not authenticated", rw (no_user r w a) refl)
  run_call-IsAnonymous r (list_machines b) w a =
      ("Not authenticated", rw (no_credentials r w a) refl)
  run_call-IsAnonymous r (create_machine b) w a = ("Not authenticated", rw (no_user r w a) refl)
  run_call-IsAnonymous r (get_machine i) w a = ("Not authenticated", rw (no_credentials r w a) refl)
  run_call-IsAnonymous r (update_machine i b) w a = ("Not authenticated", rw (no_user r w a) refl)
  run_call-IsAnonymous r (delete_machine i) w a = ("Not authenticated", rw (no_user r w a) refl)
  run_call-IsAnonymous r (wake_machine i b) w a = ("Not authenticated", rw (no_user r w a) refl)
  run_call-IsAnonymous r (wake_machine_direct i b) w a =
      ("Bearer token required", rw (no_token r w a) refl)
  run_call-IsAnonymous r (get_attempt_status i a) w b =
      ("Not authenticated", rw (no_credentials r w b) refl)
  run_call-IsAnonymous r (machine_status i) w a =
      ("Not authenticated", rw (no_credentials r w a) refl)
  run_call-IsAnonymous r list_interfaces w a =
      ("Not authenticated", rw (no_current_user r w a) refl)
  run_call-IsAnonymous r discover_hosts w a = ("Not authenticated", rw (no_current_user r w a) refl)
