-- ===== src/Api/Setup.antt =====
-- The wizard's endpoints of app/api/setup.py.
use wol_monkey.Common.{ℕ, String, not, ◌&&◌, leb}
use wol_monkey.Domain.Records.{User, number, text}
use wol_monkey.Host.{Host}
use wol_monkey.Exec.{Exec, pure, guard, catch, ◌>>=◌, ◌>>◌, http}
use wol_monkey.Persistence.Setup.{Progress}
use wol_monkey.Services.Setup.{is_complete, get_state, advance}
use wol_monkey.Persistence.Ports.{sql_settings}
use wol_monkey.Services.Settings
use wol_monkey.Services.Auth
use wol_monkey.Api.Auth.{fits, except_authentication}

module _ (h : Host) where
  unfoldable pub require_incomplete : Exec (Unit {0})
  require_incomplete = do
    complete ← is_complete h
    guard (not complete) (http 410) "Setup already completed"

  unfoldable pub setup_status : Exec Progress
  setup_status = get_state h

  -- `str(exc)` of the AuthenticationError is the detail.
  unfoldable pub setup_admin : String → String → Exec User
  setup_admin username password = do
    guard (fits 3 150 username && fits 12 1024 password) (http 422) "validation"
    require_incomplete
    user ← catch (Auth.create_admin h username password) (λ e. except_authentication 409 e.detail e)
    advance h "admin_account"
    pure user

  unfoldable pub setup_network : String → String → ℕ → Exec (Unit {0})
  setup_network wake_interface strategy poll_timeout_s = do
    guard (fits 0 32 wake_interface && fits 0 20 strategy) (http 422) "validation"
    guard (leb 10 poll_timeout_s && leb poll_timeout_s 600) (http 422) "validation"
    require_incomplete
    Settings.set sql_settings "wake_interface" (text wake_interface)
    Settings.set sql_settings "default_wake_strategy" (text strategy)
    Settings.set sql_settings "default_poll_timeout_s" (number poll_timeout_s)
    advance h "network"

  unfoldable pub setup_complete : Exec (Unit {0})
  setup_complete = do require_incomplete; advance h "complete"
