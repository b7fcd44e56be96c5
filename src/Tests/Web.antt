-- ===== src/Tests/Web.antt =====
-- The pages of app/api/web.py and the typed settings at concrete inputs.
use wol_monkey.Common.{
  String, ◌≡◌, refl, true, any, Option, none, some, List, [], ◌∷◌, ◌⊎◌, select, find,
}
use wol_monkey.Common.Text.{strip}
use wol_monkey.Common.Text.Number.{pos, parse_int}
use wol_monkey.Domain.Records.{ApiToken, number}
use wol_monkey.Host.{Host}
use wol_monkey.World.{empty_world}
use wol_monkey.Exec.{ok}
use wol_monkey.Exec.Reads.{Same, Reads}
use wol_monkey.Persistence.Machines
use wol_monkey.Persistence.Machines.{flush_row, set_attrs, passes_checks}
use wol_monkey.Persistence.Sessions
use wol_monkey.Persistence.Users
use wol_monkey.Common.Dict.{lookup}
use wol_monkey.Persistence.Ports.{sql_settings}
use wol_monkey.Services.Settings.Laws.{
  Call, set_value, ask_int, ask_str, ask_bool, ask_all, answers, replay, stored,
  sql_settings-IsStore, answers-replay,
}
use wol_monkey.Services.Auth.{validate_session}
use wol_monkey.Api.Security.{generate_csrf_token}
use wol_monkey.Api.App.{Response, content}
use wol_monkey.Exec.{Exec, pure}
use wol_monkey.Api.Web.{redirect, machine_error, setup_admin_post}
use wol_monkey.Api.Web.Forms.{
  MachineForm, with_user, get_csrf, machine_new_post, machine_edit_post, same_machine, group_tokens,
}
use wol_monkey.Api.Web.Gate.{change_machine, serve_page, LoggedIn, serve_page-LoggedIn}
use wol_monkey.Api.Web.NewMachine.{IsStored, machine_new_post-IsStored}
use wol_monkey.Api.Web.Edit.{IsRefused, machine_edit_post-IsRefused}
use wol_monkey.Api.Web.FirstAdmin.{IsAdmin, setup_admin_post-IsAdmin}
use wol_monkey.Api.Web.Groups.{group_of, group_of-group_tokens}
use wol_monkey.Tests.Fixtures.{quiet_host, quiet_host-IsLawful, nas, signing_host, form, in_session}

-- Port 0 is refused by the table.
abbrev port_zero : MachineForm
port_zero = record {
  name = "storage";
  ip_address = "192.168.1.5";
  mac_address = "aa:bb:cc:dd:ee:0f";
  ssh_port = 0;
  hostname = " None ";
  wake_interface = "";
  wake_strategy = "etherwake";
  broadcast_address = "";
  enabled = "1";
}

serve_page-LoggedIn_example :
    LoggedIn signing_host form in_session
    ⊎ (((serve_page signing_host form (change_machine "nas" port_zero) in_session).0
          ≡ ok (redirect "/login"))
        × Same in_session
            (serve_page signing_host form (change_machine "nas" port_zero) in_session).1)
serve_page-LoggedIn_example =
    serve_page-LoggedIn signing_host form (change_machine "nas" port_zero) in_session

-- A second machine, with another MAC address.
abbrev desktop : MachineForm
desktop = record port_zero { name = "desktop"; mac_address = "aa:bb:cc:dd:ee:10"; ssh_port = 22 }

accepted :
    (machine_new_post signing_host form desktop none in_session).0 ≡ ok (redirect "/machines")
unfolding machine_new_post with_user validate_session Sessions.get_by_id find Users.get_by_id
    get_csrf generate_csrf_token Machines.create flush_row passes_checks any
accepted = refl

machine_new_post-IsStored_example :
    IsStored signing_host desktop in_session.db
      (machine_new_post signing_host form desktop none in_session).1.db
machine_new_post-IsStored_example =
    machine_new_post-IsStored signing_host form desktop in_session accepted

refused :
    (machine_edit_post signing_host "nas" form port_zero in_session).0
    ≡ ok (machine_error (some nas) "secret" "ck_machines")
unfolding machine_edit_post with_user validate_session Sessions.get_by_id find Users.get_by_id
    get_csrf generate_csrf_token Machines.update Machines.get_by_id flush_row set_attrs strip
    passes_checks
refused = refl

machine_edit_post-IsRefused_example :
    IsRefused signing_host "nas"
      (some nas)
      in_session.saved
      (machine_edit_post signing_host "nas" form port_zero in_session).1
machine_edit_post-IsRefused_example =
    machine_edit_post-IsRefused signing_host "nas" form port_zero in_session (some nas) "secret"
      "ck_machines" refused

setup_admin_post-IsAdmin_example :
    IsAdmin quiet_host "admin" ""
      (setup_admin_post quiet_host form "admin" "" empty_world).0
      empty_world
      (setup_admin_post quiet_host form "admin" "" empty_world).1
setup_admin_post-IsAdmin_example =
    setup_admin_post-IsAdmin quiet_host quiet_host-IsLawful form "admin" "" none empty_world refl
      refl refl refl

abbrev token_for : Option String → String → ApiToken
token_for machine name = record {
  id = name;
  user_id = "alice";
  machine_id = machine;
  name = name;
  token_hash = name;
  prefix = "";
  scopes = [];
  last_used_at = none;
  revoked_at = none;
  created_at = 0;
}

abbrev three_tokens : List ApiToken
three_tokens = token_for (some "nas") "a" ∷ token_for none "b" ∷ token_for (some "nas") "c" ∷ []

group_of-group_tokens_example :
    group_of (some "nas") (group_tokens three_tokens [])
    ≡ select (λ t. same_machine t.machine_id (some "nas")) three_tokens
group_of-group_tokens_example = group_of-group_tokens (some "nas") three_tokens

-- Prints the number ninety as Python does; no other is printed below.
abbrev printing_host : Host
printing_host = record quiet_host { str = λ n. "90" }

ninety : parse_int "90" ≡ some (pos 90)
unfolding parse_int strip
ninety = refl

abbrev settings_calls : List Call
settings_calls =
    set_value "poll" (number 90)
    ∷ ask_int "poll" 90
    ∷ ask_str "title" "none"
    ∷ ask_bool "poll" true
    ∷ ask_all "poll"
    ∷ []

answers-replay_example :
    answers printing_host sql_settings settings_calls in_session
    ≡ replay printing_host settings_calls (λ k. stored k in_session)
unfolding lookup
answers-replay_example =
    answers-replay printing_host sql_settings stored sql_settings-IsStore settings_calls in_session
      (λ k. stored k in_session) (ninety, (ninety, (tt, (tt, (tt, tt))))) (λ k. tt) (λ k. refl)

-- A response that sets one of the headers itself.
abbrev framed : Exec Response
framed = pure (record {
  status_code = 200;
  headers = ("x-frame-options", "SAMEORIGIN") ∷ ("etag", "1") ∷ [];
  body = content "";
})
