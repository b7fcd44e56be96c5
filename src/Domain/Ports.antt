-- ===== src/Domain/Ports.antt =====
-- The repository interfaces of app/domain/ports.py: one record of operations for each abstract class.
-- Keyword arguments stand in the records that app/persistence/repositories.py reads them from.
use wol_monkey.Common.{ℕ, String, Bool, Option, List}
use wol_monkey.Domain.Attempt.{AttemptStatus}
use wol_monkey.Domain.Records.{User, Machine, Attempt, Session, ApiToken, SetupState, Value, Dict}
use wol_monkey.Exec.{Exec}
use wol_monkey.Persistence.Machines.{NewMachine, Change}
use wol_monkey.Persistence.Attempts.{NewAttempt}
use wol_monkey.Persistence.Sessions.{NewSession}
use wol_monkey.Persistence.Tokens.{NewToken}
use wol_monkey.Persistence.Setup.{Progress}

pub record UserRepository : Type 0 where
  pub get_by_id : String → Exec (Option User)
  pub get_by_username : String → Exec (Option User)
  -- The username, the password hash and the role.
  pub create : String → String → String → Exec User
  pub update_last_login : String → Exec (Unit {0})
  pub update_password_hash : String → String → Exec (Unit {0})
  pub count : Exec ℕ

pub record MachineRepository : Type 0 where
  pub get_by_id : String → Exec (Option Machine)
  pub list_all : Bool → Exec (List Machine)
  pub create : NewMachine → Exec Machine
  pub update : String → List Change → Exec (Option Machine)
  pub delete : String → Exec Bool
  pub count : Exec ℕ

pub record WakeAttemptRepository : Type 0 where
  pub create : NewAttempt → Exec Attempt
  pub get_by_id : String → Exec (Option Attempt)
  pub update_status : String → AttemptStatus → Option String → Option ℕ → Exec (Unit {0})
  pub list_for_machine : String → ℕ → Exec (List Attempt)
  pub get_active_for_machine : String → Exec (Option Attempt)

pub record SessionRepository : Type 0 where
  pub create : NewSession → Exec Session
  pub get_by_id : String → Exec (Option Session)
  pub revoke : String → Exec (Unit {0})
  pub revoke_all_for_user : String → Exec (Unit {0})
  pub delete_expired : Exec ℕ

pub record ApiTokenRepository : Type 0 where
  pub create : NewToken → Exec ApiToken
  pub get_by_hash : String → Exec (Option ApiToken)
  pub list_active : Exec (List ApiToken)
  pub list_for_machine : String → Exec (List ApiToken)
  pub revoke : String → Exec (Unit {0})
  pub touch_last_used : String → Exec (Unit {0})

pub record SetupStateRepository : Type 0 where
  pub get : Exec SetupState
  pub update : Progress → Exec SetupState

pub record SettingsRepository : Type 0 where
  pub get : String → Exec Value
  pub set : String → Value → Exec (Unit {0})
  pub get_all : Exec (Dict Value)
