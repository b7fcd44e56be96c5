-- ===== src/Api/Atomic/Services.antt =====
-- The repositories and services write through the session alone: none commits.
use wol_monkey.Common.{ℕ, String, Bool, true, false, Option, none, some, List, arith}
use wol_monkey.Domain.Machine.{WakeStrategy}
use wol_monkey.Domain.Records.{User, Machine, Attempt, Session, ApiToken, SetupState, Dict, Value}
use wol_monkey.Host.{Host, Verdict, verified, mismatch, broken}
use wol_monkey.Exec.Saved.{KeepsSaved, saved_rules}
use wol_monkey.Persistence.Users
use wol_monkey.Persistence.Machines
use wol_monkey.Persistence.Attempts
use wol_monkey.Persistence.Sessions
use wol_monkey.Persistence.Tokens
use wol_monkey.Persistence.Setup
use wol_monkey.Infra.Strategy
use wol_monkey.Infra.Strategy.Laws.{wake_by_tables}
use wol_monkey.Services.Auth
use wol_monkey.Services.Setup as Wizard
use wol_monkey.Services.Wake as WakeService
use wol_monkey.Persistence.Ports.{sql_settings}
use wol_monkey.Services.Settings
use wol_monkey.Persistence.Settings as SettingsTable
use wol_monkey.Domain.Attempt.{AttemptStatus}

module _ (h : Host) where
  pub get_user : (id : String) → KeepsSaved (Users.get_by_id h id)
  unfolding Users.get_by_id
  get_user id = record { at = λ w. ground arith }

  pub get_machine : (id : String) → KeepsSaved (Machines.get_by_id h id)
  unfolding Machines.get_by_id
  get_machine id = record { at = λ w. ground arith }

  pub get_session : (id : String) → KeepsSaved (Sessions.get_by_id h id)
  unfolding Sessions.get_by_id
  get_session id = record { at = λ w. ground arith }

  pub by_username : (name : String) → KeepsSaved (Users.get_by_username h name)
  unfolding Users.get_by_username
  by_username name = search saved_rules

  pub new_user : (name hash role : String) → KeepsSaved (Users.create h name hash role)
  unfolding Users.create
  new_user name hash role = search saved_rules depth 9

  pub last_login : (id : String) → KeepsSaved (Users.update_last_login h id)
  unfolding Users.update_last_login
  last_login id = search saved_rules

  pub password_hash : (id hash : String) → KeepsSaved (Users.update_password_hash h id hash)
  unfolding Users.update_password_hash
  password_hash id hash = search saved_rules

  flush_column : (o : Option String) (what : String) → KeepsSaved (Machines.column h o what)
  unfolding Machines.column
  flush_column none what = search saved_rules
  flush_column (some v) what = search saved_rules

  optional_inet : (o : Option String) (what : String) → KeepsSaved (Machines.optional_inet h o what)
  unfolding Machines.optional_inet
  optional_inet none what = search saved_rules
  optional_inet (some a) what = search (saved_rules, flush_column)

  pub new_session : (args : Sessions.NewSession) → KeepsSaved (Sessions.create h args)
  unfolding Sessions.create
  new_session args = search (saved_rules, optional_inet) depth 10

  pub machine_key : (o : Option String) → KeepsSaved (Tokens.machine_key h o)
  unfolding Tokens.machine_key
  machine_key none = search saved_rules
  machine_key (some id) = search saved_rules depth 9

  pub new_token : (args : Tokens.NewToken) → KeepsSaved (Tokens.create h args)
  unfolding Tokens.create
  new_token args = search (saved_rules, machine_key) depth 12

  pub by_hash : (hash : String) → KeepsSaved (Tokens.get_by_hash hash)
  unfolding Tokens.get_by_hash
  by_hash hash = search saved_rules

  pub touch : (id : String) → KeepsSaved (Tokens.touch_last_used h id)
  unfolding Tokens.touch_last_used
  touch id = search saved_rules

  pub revoke_token_row : (id : String) → KeepsSaved (Tokens.revoke h id)
  unfolding Tokens.revoke
  revoke_token_row id = search saved_rules

  pub revoke_session_row : (id : String) → KeepsSaved (Sessions.revoke h id)
  unfolding Sessions.revoke
  revoke_session_row id = search saved_rules

  pub put_setup : (p : Setup.Progress) → KeepsSaved (Setup.update h p)
  unfolding Setup.update Setup.put
  put_setup p = search saved_rules

  pub get_or_create : (o : Option SetupState) → KeepsSaved (Setup.get_or_create h o)
  unfolding Setup.get_or_create Setup.put
  get_or_create none = search saved_rules
  get_or_create (some row) = search saved_rules

  pub get_setup : KeepsSaved (Setup.get h)
  unfolding Setup.get
  get_setup = search (saved_rules, get_or_create)

  pub hash_password : (p : String) → KeepsSaved (Auth.hash_password h p)
  unfolding Auth.hash_password
  hash_password p = search saved_rules

  pub answer : (v : Verdict) → KeepsSaved (Auth.answer h v)
  unfolding Auth.answer
  answer verified = search saved_rules
  answer mismatch = search saved_rules
  answer (broken m) = search saved_rules

  pub check_password : (p : String) (o : Option User) → KeepsSaved (Auth.check_password h p o)
  unfolding Auth.check_password Auth.verify_password
  check_password p none = search saved_rules
  check_password p (some u) = search (saved_rules, answer)

  pub rehash : (p : String) (u : User) (b : Bool) → KeepsSaved (Auth.rehash h p u b)
  unfolding Auth.rehash
  rehash p u false = search saved_rules
  rehash p u true = search (saved_rules, hash_password, password_hash)

  pub start_session :
      (u : User) (ip agent : Option String) → KeepsSaved (Auth.start_session h u ip agent)
  unfolding Auth.start_session
  start_session u ip agent = search (saved_rules, new_session, last_login) depth 7

  pub login :
      (name password : String) (ip agent : Option String)
      → KeepsSaved (Auth.login h name password ip agent)
  unfolding Auth.login
  login name password ip agent =
      search (saved_rules, by_username, check_password, rehash, start_session) depth 7

  pub live : (o : Option Session) → KeepsSaved (Auth.live h o)
  unfolding Auth.live
  live none = search saved_rules
  live (some s) = search saved_rules depth 7

  pub with_user : (s : Session) (o : Option User) → KeepsSaved (Auth.with_user h s o)
  unfolding Auth.with_user
  with_user s none = search saved_rules
  with_user s (some u) = search saved_rules

  pub validate_session : (id : String) → KeepsSaved (Auth.validate_session h id)
  unfolding Auth.validate_session
  validate_session id = search (saved_rules, get_session, live, get_user, with_user) depth 7

  pub usable : (o : Option ApiToken) → KeepsSaved (Auth.usable h o)
  unfolding Auth.usable
  usable none = search saved_rules
  usable (some t) = search (saved_rules, touch)

  pub validate_api_token : (raw : String) → KeepsSaved (Auth.validate_api_token h raw)
  unfolding Auth.validate_api_token
  validate_api_token raw = search (saved_rules, by_hash, usable)

  pub create_admin : (name password : String) → KeepsSaved (Auth.create_admin h name password)
  unfolding Auth.create_admin Auth.admin_exists Users.count
  create_admin name password = search (saved_rules, hash_password, new_user) depth 7

  pub generate_token : KeepsSaved (Auth.generate_token h)
  unfolding Auth.generate_token
  generate_token = search saved_rules

  pub create_api_token :
      (name : String) (scopes : Dict Value) (user : String) (machine : Option String)
      → KeepsSaved (Auth.create_api_token h name scopes user machine)
  unfolding Auth.create_api_token
  create_api_token name scopes user machine = search (saved_rules, generate_token, new_token)

  pub advance : (step : String) → KeepsSaved (Wizard.advance h step)
  unfolding Wizard.advance
  advance step = search (saved_rules, get_setup, put_setup)

  pub is_complete : KeepsSaved (Wizard.is_complete h)
  unfolding Wizard.is_complete
  is_complete = search (saved_rules, get_setup)

  found_or_raise :
      (id : String) (o : Option Machine) → KeepsSaved (WakeService.found_or_raise h id o)
  unfolding WakeService.found_or_raise
  found_or_raise id none = search saved_rules
  found_or_raise id (some m) = search saved_rules

  new_attempt : (args : Attempts.NewAttempt) → KeepsSaved (Attempts.create h args)
  unfolding Attempts.create
  new_attempt args = search saved_rules depth 9

  status :
      (id : String) (s : AttemptStatus) (e : Option String) (f : Option ℕ)
      → KeepsSaved (Attempts.update_status h id s e f)
  unfolding Attempts.update_status
  status id s e f = search saved_rules

  strategy : (name : String) → KeepsSaved (Strategy.get_strategy h name)
  unfolding Strategy.get_strategy
  strategy name = record { at = λ w. ground arith }

  send_packet :
      (s : WakeStrategy) (mac : String) (i b : Option String)
      → KeepsSaved (Strategy.wake_by h s mac i b)
  send_packet s mac i b = record { at = λ w. (wake_by_tables h s mac i b w).1 }

  attempt_wake :
      (a : Attempt) (m : Machine) (name : String) → KeepsSaved (WakeService.attempt_wake h a m name)
  unfolding WakeService.attempt_wake WakeService.send WakeService.record_failure
  attempt_wake a m name = search (saved_rules, strategy, send_packet, status) depth 9

  pub wake : (args : WakeService.WakeArgs) → KeepsSaved (WakeService.wake h args)
  unfolding WakeService.wake
  wake args = search (saved_rules, get_machine, found_or_raise, new_attempt, attempt_wake) depth 7

  flush_row : (m : Machine) → KeepsSaved (Machines.flush_row h m)
  unfolding Machines.flush_row
  flush_row m = search (saved_rules, flush_column, optional_inet) depth 9

  pub new_machine : (args : Machines.NewMachine) → KeepsSaved (Machines.create h args)
  unfolding Machines.create
  new_machine args = search (saved_rules, flush_row) depth 7

  update_found :
      (cs : List Machines.Change) (o : Option Machine) → KeepsSaved (Machines.update_found h cs o)
  unfolding Machines.update_found Machines.store_changes
  update_found cs none = search saved_rules
  update_found cs (some m) = search (saved_rules, flush_row) depth 7

  pub update_machine :
      (id : String) (cs : List Machines.Change) → KeepsSaved (Machines.update h id cs)
  unfolding Machines.update
  update_machine id cs = search (saved_rules, get_machine, update_found)

  delete_found : (o : Option Machine) → KeepsSaved (Machines.delete_found h o)
  unfolding Machines.delete_found
  delete_found none = search saved_rules
  delete_found (some m) = search saved_rules depth 7

  pub delete_machine : (id : String) → KeepsSaved (Machines.delete h id)
  unfolding Machines.delete
  delete_machine id = search (saved_rules, get_machine, delete_found)

  pub set_setting : (key : String) (v : Value) → KeepsSaved (Settings.set sql_settings key v)
  unfolding Settings.set SettingsTable.set
  set_setting key v = search saved_rules
