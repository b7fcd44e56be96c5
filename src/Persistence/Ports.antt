-- ===== src/Persistence/Ports.antt =====
-- Each port of app/domain/ports.py as app/persistence/repositories.py implements it: the constructor
-- of a repository is given the session, which is the world's.
use wol_monkey.Domain.Ports.{
  UserRepository, MachineRepository, WakeAttemptRepository, SessionRepository, ApiTokenRepository,
  SetupStateRepository, SettingsRepository,
}
use wol_monkey.Host.{Host}
use wol_monkey.Persistence.Users
use wol_monkey.Persistence.Machines
use wol_monkey.Persistence.Attempts
use wol_monkey.Persistence.Sessions
use wol_monkey.Persistence.Tokens
use wol_monkey.Persistence.Setup
use wol_monkey.Persistence.Settings

module _ (h : Host) where
  abbrev pub sql_users : UserRepository
  sql_users = record {
    get_by_id = Users.get_by_id h;
    get_by_username = Users.get_by_username h;
    create = Users.create h;
    update_last_login = Users.update_last_login h;
    update_password_hash = Users.update_password_hash h;
    count = Users.count;
  }

  abbrev pub sql_machines : MachineRepository
  sql_machines = record {
    get_by_id = Machines.get_by_id h;
    list_all = Machines.list_all;
    create = Machines.create h;
    update = Machines.update h;
    delete = Machines.delete h;
    count = Machines.count;
  }

  abbrev pub sql_attempts : WakeAttemptRepository
  sql_attempts = record {
    create = Attempts.create h;
    get_by_id = Attempts.get_by_id h;
    update_status = Attempts.update_status h;
    list_for_machine = Attempts.list_for_machine h;
    get_active_for_machine = Attempts.get_active_for_machine h;
  }

  abbrev pub sql_sessions : SessionRepository
  sql_sessions = record {
    create = Sessions.create h;
    get_by_id = Sessions.get_by_id h;
    revoke = Sessions.revoke h;
    revoke_all_for_user = Sessions.revoke_all_for_user h;
    delete_expired = Sessions.delete_expired h;
  }

  abbrev pub sql_tokens : ApiTokenRepository
  sql_tokens = record {
    create = Tokens.create h;
    get_by_hash = Tokens.get_by_hash;
    list_active = Tokens.list_active;
    list_for_machine = Tokens.list_for_machine h;
    revoke = Tokens.revoke h;
    touch_last_used = Tokens.touch_last_used h;
  }

  abbrev pub sql_setup : SetupStateRepository
  sql_setup = record { get = Setup.get h; update = Setup.update h }

abbrev pub sql_settings : SettingsRepository
sql_settings = record { get = Settings.get; set = Settings.set; get_all = Settings.get_all }
