-- ===== src/Api/Web.antt =====
-- app/api/web.py: the setup wizard; the other pages are in the module Forms. The templates' text is
-- not modelled.
pub mod Wizard
pub mod Forms
pub mod Reading
pub mod Gate
pub mod Views
pub mod NewMachine
pub mod Edit
pub mod FirstAdmin
pub mod Groups
use wol_monkey.Common.{
  ℕ, zero, suc, String, ◌<>◌, Bool, true, false, Option, none, some, List, ◌==◌, leb, ltb,
  if◌then◌else◌,
}
use wol_monkey.Domain.Records.{User, Machine, Session, ApiToken, Dict, Value, number, text}
use wol_monkey.Host.{Host}
use wol_monkey.Exec.{
  Exec, Result, Error, ok, err, pure, raise, ◌>>=◌, ◌>>◌, authentication, value_error,
}
use wol_monkey.Persistence.Setup.{Progress}
use wol_monkey.Services.Setup.{wizard_steps, index, is_complete, get_state, advance, go_back}
use wol_monkey.Persistence.Ports.{sql_settings}
use wol_monkey.Services.Settings
use wol_monkey.Services.Auth
use wol_monkey.Api.Security.{Request}

-- `redirect` is a 303; `cookie` is one that also sets the session cookie, and `no_cookie` one that
-- deletes it. The other answers are templates: `page` has a name and a status code, the rest have
-- what the handler gives to the template.
pub data Reply : Type 0 where
  redirect : String → Reply
  cookie : String → String → Reply
  no_cookie : String → Reply
  page : String → ℕ → Reply
  -- setup_wizard.html at the admin's step, with the name and an error; 422.
  admin_form : String → String → Reply
  -- login.html with the name and an error; 401.
  login_form : String → Reply
  -- machines.html
  machine_list : List Machine → User → String → Reply
  -- machine_form.html, and with an error and 422.
  machine_form : Option Machine → String → Reply
  machine_error : Option Machine → String → String → Reply
  -- tokens.html
  token_list : List Machine → List (Option String × List ApiToken) → String → Reply
  -- ssh_setup.html without the base URL, with the number of tokens.
  ssh_guide : List Machine → String → ℕ → Reply
  -- settings.html
  settings_form : Dict Value → String → Bool → Reply

-- What an action returned or raised, as a value: the `try` of a handler.
abbrev pub attempt : {A : Type 0} → Exec A → Exec (Result A)
attempt m w = let (r, w') = m w in (ok r, w')

-- `except AuthenticationError`: any other exception goes on.
unfoldable pub on_authentication : Error → Reply → Exec Reply
on_authentication e reply = elim e.kind [ authentication ↦ pure reply | _ ↦ raise e.kind e.detail ]

module _ (h : Host) where
  root_page : Bool → Exec Reply
  root_page true = pure (redirect "/machines")
  root_page false = do state ← get_state h; pure (redirect ("/setup/" <> state.current_step))

  unfoldable pub root : Exec Reply
  unfolding root_page
  root = do complete ← is_complete h; root_page complete

  -- `WIZARD_STEPS.index(step) > WIZARD_STEPS.index(current_step)`, for the first index known; an
  -- unknown current step is a ValueError.
  compare_steps : String → String → ℕ → Option ℕ → Exec Reply
  compare_steps step current_step i none = raise value_error "not in list"
  compare_steps step current_step i (some j) =
      pure (if ltb j i then redirect ("/setup/" <> current_step) else page step 200)

  step_page : String → String → Option ℕ → Exec Reply
  step_page step current_step none = pure (redirect ("/setup/" <> current_step))
  step_page step current_step (some i) =
      compare_steps step current_step i (index wizard_steps current_step)

  wizard_page : String → Bool → Exec Reply
  wizard_page step true = pure (redirect "/machines")
  wizard_page step false = do
    state ← get_state h
    step_page step state.current_step (index wizard_steps step)

  -- The wizard's page for a step: never one that lies ahead of the current step. A page stands
  -- here for the template of the wizard at that step.
  unfoldable pub setup_page : String → Exec Reply
  unfolding wizard_page step_page compare_steps
  setup_page step = do complete ← is_complete h; wizard_page step complete

  unfoldable pub setup_welcome_post : Exec Reply
  setup_welcome_post = do advance h "welcome"; pure (redirect "/setup/admin_account")

  unfoldable pub save_network : String → String → ℕ → Exec (Unit {0})
  save_network wake_interface strategy poll_timeout_s = do
    Settings.set sql_settings "wake_interface" (text wake_interface)
    Settings.set sql_settings "default_wake_strategy" (text strategy)
    Settings.set sql_settings "default_poll_timeout_s" (number poll_timeout_s)

  unfoldable pub setup_network_post : String → String → ℕ → Exec Reply
  setup_network_post wake_interface strategy poll_timeout_s = do
    save_network wake_interface strategy poll_timeout_s
    advance h "network"
    pure (redirect "/setup/first_machine")

  unfoldable pub setup_back : String → Exec Reply
  setup_back step = do prev ← go_back h step; pure (redirect ("/setup/" <> prev))

  unfoldable pub setup_skip_machine : Exec Reply
  setup_skip_machine = do
    advance h "first_machine"
    advance h "complete"
    pure (redirect "/setup/complete")

  -- The wizard's page again, with the error.
  unfoldable pub after_admin : Request → String → String → Result User → Exec Reply
  after_admin r username password (err e) = on_authentication e (admin_form username e.detail)
  after_admin r username password (ok user) = do
    advance h "admin_account"
    session ← Auth.login h username password r.client_host r.user_agent
    pure (cookie "/setup/network" session.id)

  -- The form's fields have no validation of their own.
  unfoldable pub setup_admin_post : Request → String → String → Exec Reply
  unfolding after_admin
  setup_admin_post r username password = do
    created ← attempt (Auth.create_admin h username password)
    after_admin r username password created
