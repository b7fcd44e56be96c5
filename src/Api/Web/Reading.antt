-- ===== src/Api/Web/Reading.antt =====
-- What a page reads before it answers changes nothing.
use wol_monkey.Common.{String, Bool, Option, none, some, ◌==◌, Bool-cases, find, inl, inr}
use wol_monkey.Domain.Records.{User, Session}
use wol_monkey.Host.{Host}
use wol_monkey.Exec.Reads.{Reads, Reads-keyed, reads_rules}
use wol_monkey.Persistence.Machines
use wol_monkey.Persistence.Sessions
use wol_monkey.Persistence.Users
use wol_monkey.Persistence.Tokens
use wol_monkey.Persistence.Settings as SettingsTable
use wol_monkey.Persistence.Ports.{sql_settings}
use wol_monkey.Services.Settings
use wol_monkey.Services.Auth
use wol_monkey.Services.Auth.{validate_session, live, with_user as session_user}
use wol_monkey.Api.Security.{generate_csrf_token}
use wol_monkey.Api.Web.Forms.{web_session, get_csrf}

module _ (h : Host) where
  pub found_machine : (id : String) → Reads (Machines.get_by_id h id)
  unfolding Machines.get_by_id
  found_machine id =
      Reads-keyed (h.canonical id) (λ key db. find (λ m. m.id == key) db.machines) none

  found_session : (id : String) → Reads (Sessions.get_by_id h id)
  unfolding Sessions.get_by_id
  found_session id =
      Reads-keyed (h.canonical id) (λ key db. find (λ s. s.id == key) db.sessions) none

  found_user : (id : String) → Reads (Users.get_by_id h id)
  unfolding Users.get_by_id
  found_user id = Reads-keyed (h.canonical id) (λ key db. find (λ u. u.id == key) db.users) none

  is_live : (o : Option Session) → Reads (live h o)
  unfolding live
  is_live none = search reads_rules
  is_live (some s) = search reads_rules depth 8

  its_user : (s : Session) (o : Option User) → Reads (session_user h s o)
  unfolding session_user
  its_user s none = search reads_rules
  its_user s (some u) = search reads_rules

  validated : (id : String) → Reads (validate_session h id)
  unfolding validate_session
  validated id = search (reads_rules, found_session, is_live, found_user, its_user) depth 8

  pub gate : (o : Option String) → Reads (web_session h o)
  unfolding web_session
  gate none = search reads_rules
  gate (some id) = elim (Bool-cases (id == "")) [
    | inl e ↦ rw e (search reads_rules)
    | inr e ↦ rw e (search (reads_rules, validated) depth 8)
  ]

  signed : (id secret : String) → Reads (generate_csrf_token h id secret)
  unfolding generate_csrf_token
  signed id secret = search reads_rules

  pub csrf : (o : Option String) → Reads (get_csrf h o)
  unfolding get_csrf
  csrf none = search reads_rules
  csrf (some id) = elim (Bool-cases (id == "")) [
    | inl e ↦ rw e (search reads_rules)
    | inr e ↦ rw e (search (reads_rules, validated, signed) depth 8)
  ]

  pub all_tokens : Reads (Auth.list_api_tokens h)
  unfolding Auth.list_api_tokens Tokens.list_active
  all_tokens = search reads_rules

pub all_machines : (enabled_only : Bool) → Reads (Machines.list_all enabled_only)
unfolding Machines.list_all
all_machines enabled_only = search reads_rules

pub all_settings : Reads (Settings.get_all sql_settings)
unfolding Settings.get_all SettingsTable.get_all
all_settings = search reads_rules
