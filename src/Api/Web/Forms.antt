-- ===== src/Api/Web/Forms.antt =====
-- The pages of app/api/web.py behind a login: machines, tokens, settings; and the login itself.
use wol_monkey.Common.{
  ℕ, String, Bool, true, false, ◌||◌, Option, none, some, List, [], ◌∷◌, ◌++◌, ◌==◌, length,
  if◌then◌else◌,
}
use wol_monkey.Common.Text.{strip}
use wol_monkey.Domain.Records.{User, Machine, Session, ApiToken, flag, number}
use wol_monkey.Host.{Host}
use wol_monkey.Exec.{Exec, Result, ok, err, pure, catch, rollback, ◌>>=◌, ◌>>◌}
use wol_monkey.Persistence.Machines
use wol_monkey.Persistence.Machines.{
  NewMachine, Change, name, ip_address, mac_address, wake_strategy, ssh_port, hostname,
  wake_interface, broadcast_address, enabled,
}
use wol_monkey.Services.Setup.{advance}
use wol_monkey.Persistence.Ports.{sql_settings}
use wol_monkey.Services.Settings
use wol_monkey.Services.Auth
use wol_monkey.Api.Security.{Request, generate_csrf_token}
use wol_monkey.Api.Web.{
  Reply, redirect, cookie, no_cookie, page, login_form, machine_list, machine_form, machine_error,
  token_list, ssh_guide, settings_form, attempt, on_authentication, save_network,
}

-- The fields of the machine form.
pub record MachineForm : Type 0 where
  pub name : String
  pub ip_address : String
  pub mac_address : String
  pub ssh_port : ℕ
  pub hostname : String
  pub wake_interface : String
  pub wake_strategy : String
  pub broadcast_address : String
  pub enabled : String

-- `v or None`
abbrev pub or_none : String → Option String
or_none s = if s == "" then none else some s

-- `v.strip() or None if v.strip() not in ("", "None") else None`
unfoldable pub clean : String → Option String
clean v = if strip v == "" || strip v == "None" then none else or_none (strip v)

unfoldable pub form_machine : MachineForm → NewMachine
form_machine f = record {
  name = f.name;
  hostname = or_none f.hostname;
  ip_address = f.ip_address;
  mac_address = f.mac_address;
  ssh_port = f.ssh_port;
  wake_interface = or_none f.wake_interface;
  wake_strategy = f.wake_strategy;
  broadcast_address = or_none f.broadcast_address;
  enabled = f.enabled == "1";
}

-- The keyword arguments of the update, in their order.
unfoldable pub form_changes : MachineForm → List Change
unfolding clean
form_changes f =
    name f.name
    ∷ ip_address f.ip_address
    ∷ mac_address f.mac_address
    ∷ ssh_port f.ssh_port
    ∷ hostname (clean f.hostname)
    ∷ wake_interface (clean f.wake_interface)
    ∷ wake_strategy f.wake_strategy
    ∷ broadcast_address (clean f.broadcast_address)
    ∷ enabled (f.enabled == "1")
    ∷ []

abbrev pub same_machine : Option String → Option String → Bool
same_machine none none = true
same_machine (some a) (some b) = a == b
same_machine _ _ = false

-- `d.setdefault(t.machine_id, []).append(t)`
unfoldable pub put_token :
    ApiToken → List (Option String × List ApiToken) → List (Option String × List ApiToken)
put_token t [] = (t.machine_id, t ∷ []) ∷ []
put_token t ((k, ts) ∷ groups) =
    let rest = put_token t groups in
    if same_machine k t.machine_id then (k, ts ++ t ∷ []) ∷ groups else (k, ts) ∷ rest

unfoldable pub group_tokens :
    List ApiToken → List (Option String × List ApiToken) → List (Option String × List ApiToken)
unfolding put_token
group_tokens [] groups = groups
group_tokens (t ∷ ts) groups = group_tokens ts (put_token t groups)

-- `request.query_params.get("from") == "setup"`
abbrev from_setup : Option String → Bool
from_setup none = false
from_setup (some s) = s == "setup"

module _ (h : Host) where
  -- `_require_web_auth`: the user of the cookie's session, if that is valid.
  unfoldable pub web_session : Option String → Exec (Option User)
  web_session none = pure none
  web_session (some id) =
      if id == ""
      then pure none
      else catch (do (s, u) ← Auth.validate_session h id; pure (some u)) (λ e. pure none)

  -- `_get_csrf`
  unfoldable pub get_csrf : Option String → Exec String
  get_csrf none = pure ""
  get_csrf (some id) =
      if id == ""
      then pure ""
      else catch (do (s, u) ← Auth.validate_session h id; generate_csrf_token h s.id s.csrf_secret)
          (λ e. pure "")

  abbrev pub or_login : Option User → (User → Exec Reply) → Exec Reply
  or_login none handler = pure (redirect "/login")
  or_login (some user) handler = handler user

  -- The handlers that first ask for a session.
  unfoldable pub with_user : Request → (User → Exec Reply) → Exec Reply
  unfolding web_session
  with_user r handler = do user ← web_session r.cookie; or_login user handler

  unfoldable pub login_page : Exec Reply
  login_page = pure (page "login.html" 200)

  unfoldable pub after_login : String → Result Session → Exec Reply
  after_login username (ok session) = pure (cookie "/machines" session.id)
  after_login username (err e) = on_authentication e (login_form username)

  -- The login limiter is not asked.
  unfoldable pub login_post : Request → String → String → Exec Reply
  unfolding after_login
  login_post r username password = do
    result ← attempt (Auth.login h username password r.client_host r.user_agent)
    after_login username result

  -- `suppress(Exception)`
  unfoldable pub log_out : Option String → Exec (Unit {0})
  log_out none = pure tt
  log_out (some id) = if id == "" then pure tt else catch (Auth.logout h id) (λ e. pure tt)

  unfoldable pub logout_post : Request → Exec Reply
  unfolding log_out
  logout_post r = do log_out r.cookie; pure (no_cookie "/login")

  unfoldable pub machines_page : Request → Exec Reply
  machines_page r = with_user r λ user. do
    machines ← Machines.list_all false
    csrf ← get_csrf r.cookie
    pure (machine_list machines user csrf)

  unfoldable pub machine_new_page : Request → Exec Reply
  machine_new_page r =
      with_user r λ user. do csrf ← get_csrf r.cookie; pure (machine_form none csrf)

  unfoldable pub after_new : String → Bool → Result Machine → Exec Reply
  after_new csrf at_setup (err e) = pure (machine_error none csrf e.detail)
  after_new csrf false (ok m) = pure (redirect "/machines")
  after_new csrf true (ok m) = do
    advance h "first_machine"
    advance h "complete"
    pure (redirect "/setup/complete")

  -- The token in the form is not looked at. The commit that follows a failed insert is not modelled:
  -- nothing was written before it.
  unfoldable pub machine_new_post : Request → MachineForm → Option String → Exec Reply
  unfolding form_machine after_new
  machine_new_post r form from_page = with_user r λ user. do
    csrf ← get_csrf r.cookie
    created ← attempt (Machines.create h (form_machine form))
    after_new csrf (from_setup from_page) created

  unfoldable pub edit_form : Request → Option Machine → Exec Reply
  edit_form r none = pure (redirect "/machines")
  edit_form r (some m) = do csrf ← get_csrf r.cookie; pure (machine_form (some m) csrf)

  unfoldable pub machine_edit_page : String → Request → Exec Reply
  unfolding edit_form
  machine_edit_page machine_id r =
      with_user r λ user. do machine ← Machines.get_by_id h machine_id; edit_form r machine

  unfoldable pub after_edit : String → String → Result (Option Machine) → Exec Reply
  after_edit machine_id csrf (ok updated) = pure (redirect "/machines")
  after_edit machine_id csrf (err e) = do
    rollback
    machine ← Machines.get_by_id h machine_id
    pure (machine_error machine csrf e.detail)

  unfoldable pub machine_edit_post : String → Request → MachineForm → Exec Reply
  unfolding form_changes after_edit
  machine_edit_post machine_id r form = with_user r λ user. do
    csrf ← get_csrf r.cookie
    result ← attempt (Machines.update h machine_id (form_changes form))
    after_edit machine_id csrf result

  unfoldable pub tokens_page : Request → Exec Reply
  unfolding group_tokens
  tokens_page r = with_user r λ user. do
    machines ← Machines.list_all false
    csrf ← get_csrf r.cookie
    tokens ← Auth.list_api_tokens h
    pure (token_list machines (group_tokens tokens []) csrf)

  unfoldable pub ssh_setup_page : Request → Exec Reply
  ssh_setup_page r = with_user r λ user. do
    machines ← Machines.list_all false
    csrf ← get_csrf r.cookie
    tokens ← Auth.list_api_tokens h
    pure (ssh_guide machines csrf (length tokens))

  unfoldable pub settings_page : Request → Exec Reply
  settings_page r = with_user r λ user. do
    settings ← Settings.get_all sql_settings
    csrf ← get_csrf r.cookie
    pure (settings_form settings csrf false)

  unfoldable pub settings_post : Request → String → String → ℕ → String → ℕ → Exec Reply
  settings_post r interface strategy poll_timeout_s allow_api_tokens lifetime = with_user r λ user.
      do
        save_network h interface strategy poll_timeout_s
        Settings.set sql_settings "allow_api_tokens" (flag (allow_api_tokens == "1"))
        Settings.set sql_settings "session_lifetime_hours" (number lifetime)
        settings ← Settings.get_all sql_settings
        csrf ← get_csrf r.cookie
        pure (settings_form settings csrf true)
