-- ===== src/Tests/Accounts.antt =====
-- Accounts, tokens, settings, machines, requests, packets and the wizard at concrete inputs.
use wol_monkey.Common.{
  ℕ, ◌≤◌, String, ◌≡◌, refl, true, false, none, some, List, [], ◌∷◌, ◌++◌, any, select, is_some,
  map, length, if◌then◌else◌, arith,
}
use wol_monkey.Domain.Records.{Session, SetupState}
use wol_monkey.World.{World}
use wol_monkey.Host.{Host}
use wol_monkey.Exec.{Error, ok, err, with_session, http, data_error}
use wol_monkey.Persistence.Machines.{NewMachine, passes_checks}
use wol_monkey.Persistence.Machines as MachineTable
use wol_monkey.Persistence.Machines.Table.{
  IsTable, Operation, creation, change, deletion, perform_all, perform_all-IsTable,
}
use wol_monkey.Infra.Packet.{same_code, repeat, build_magic_packet}
use wol_monkey.Infra.Packet.Laws.{Byte, byte_value, spell, colon, build_magic_packet-spell}
use wol_monkey.Services.Auth.{
  create_admin, create_api_token, validate_api_token, revoke_api_token, login,
}
use wol_monkey.Services.Auth.Laws.{
  refusal, create_admin_lem, raw_token, token_row, with_token, token_life,
}
use wol_monkey.Services.Auth.SessionLife.{session_row, login_without_address}
use wol_monkey.Persistence.Setup.{get}
use wol_monkey.Services.Setup.{is_complete, get_state, index, wizard_steps}
use wol_monkey.Services.Setup.Laws.{
  shown, Move, forward, back, restart, moves, IsSound, moves-IsSound,
}
use wol_monkey.Api.RateLimit.Window.{decisions, allowed, decisions-eq-allowed}
use wol_monkey.Api.Security.{
  Request, get_csrf_protected_user, get_current_session_and_user, from_cookie, bearer,
}
use wol_monkey.Api.Machines.{delete_machine}
use wol_monkey.Api.Atomic.{Endpoint, serve, serve_atomic}
use wol_monkey.Api.Atomic as Endpoints
use wol_monkey.Api.Atomic.Anonymous.{get_machine, run_call, unauthorized, run_call-IsAnonymous}
use wol_monkey.Api.Setup.{setup_admin, setup_network, setup_complete}
use wol_monkey.Api.Web.{Reply, page, redirect, setup_page, setup_welcome_post}
use wol_monkey.Api.Web.Wizard.{
  setup_page_total, setup_page_in_order, setup_welcome_reopens, setup_api_closed,
}
use wol_monkey.Tests.Fixtures.{
  quiet_host, quiet_host-IsLawful, alice, small_db, small_world, small_world-IsTable,
}

-- Six attempts in a minute, and one later: the sixth is refused.
decisions-eq-allowed_example :
    decisions [] (1 ∷ 2 ∷ 3 ∷ 4 ∷ 5 ∷ 6 ∷ 70000000 ∷ [])
    ≡ allowed [] (1 ∷ 2 ∷ 3 ∷ 4 ∷ 5 ∷ 6 ∷ 70000000 ∷ [])
decisions-eq-allowed_example = decisions-eq-allowed (1 ∷ 2 ∷ 3 ∷ 4 ∷ 5 ∷ 6 ∷ 70000000 ∷ []) (
  omega arith,
  (omega arith, (omega arith, (omega arith, (omega arith, (omega arith, (omega arith, tt)))))),
)

abbrev alice_session : Session
alice_session = session_row quiet_host alice (some "10.0.0.7") none small_world

abbrev after_login : World
after_login =
    record (login quiet_host "alice" "correct horse" (some "10.0.0.7") none small_world).1 {
      calls = 9;
      slept = 0;
    }

-- A host that takes no address.
abbrev addressless_host : Host
addressless_host = record quiet_host { inet = λ s. none }

login_without_address_run :
    login addressless_host "alice" "correct horse" (some "unknown") none small_world
    ≡ (err (record { kind = data_error; detail = "ip" }), record small_world { calls = 4 })
unfolding select
login_without_address_run =
    login_without_address addressless_host alice "correct horse" "unknown" none small_world refl
      refl refl refl refl

token_life_example :
    (create_api_token quiet_host "cli" [] "alice" none small_world ≡ (
      ok (raw_token quiet_host small_world, token_row quiet_host "cli" [] "alice" small_world),
      with_token quiet_host "cli" [] "alice" small_world,
    ))
    × ((validate_api_token quiet_host
          (raw_token quiet_host small_world)
          (with_token quiet_host "cli" [] "alice" small_world)).0
        ≡ ok (token_row quiet_host "cli" [] "alice" small_world))
    × ((revoke_api_token quiet_host "||" (with_token quiet_host "cli" [] "alice" small_world)).0
        ≡ ok tt)
    × ((validate_api_token quiet_host
          (raw_token quiet_host small_world)
          (revoke_api_token quiet_host "||"
            (with_token quiet_host "cli" [] "alice" small_world)).1).0
        ≡ err (refusal "Invalid API token"))
unfolding any
token_life_example =
    token_life quiet_host quiet_host-IsLawful "cli" [] "alice" "alice" small_world refl refl refl

create_admin_lem_run :
    create_admin quiet_host "bob" "long password" small_world
    ≡ (err (refusal "Admin account already exists"), small_world)
create_admin_lem_run = create_admin_lem quiet_host "bob" "long password" small_world

abbrev new_machine : NewMachine
new_machine = record {
  name = "tv";
  hostname = none;
  ip_address = "192.168.1.6";
  mac_address = "aa:bb:cc:dd:ee:01";
  ssh_port = 22;
  wake_interface = none;
  wake_strategy = "etherwake";
  broadcast_address = none;
  enabled = true;
}

abbrev operations : List Operation
operations =
    creation new_machine ∷ change "nas" (MachineTable.ssh_port 2222 ∷ []) ∷ deletion "nas" ∷ []

perform_all-IsTable_example : IsTable (perform_all quiet_host operations small_world).db.machines
perform_all-IsTable_example =
    perform_all-IsTable quiet_host operations small_world small_world-IsTable

abbrev bare_request : Request
bare_request = record {
  cookie = none;
  authorization = none;
  csrf_header = none;
  csrf_form = none;
  client_host = none;
  user_agent = none;
}

failed_delete :
    (with_session (serve quiet_host (Endpoints.delete_machine bare_request "nas")) small_world).0
    ≡ err (unauthorized "Not authenticated")
unfolding serve with_session delete_machine get_csrf_protected_user get_current_session_and_user
    from_cookie
failed_delete = refl

serve_atomic_example :
    ((with_session
        (serve quiet_host (Endpoints.delete_machine bare_request "nas"))
        small_world).1.db
      ≡ small_db)
    × ((with_session
          (serve quiet_host (Endpoints.delete_machine bare_request "nas"))
          small_world).1.saved
        ≡ small_db)
serve_atomic_example =
    serve_atomic quiet_host (Endpoints.delete_machine bare_request "nas") small_world
      (unauthorized "Not authenticated") failed_delete

run_call-IsAnonymous_example :
    (detail : String) × (run_call quiet_host bare_request (get_machine "nas") small_world
      ≡ (err (unauthorized detail), small_world))
unfolding bearer
run_call-IsAnonymous_example =
    run_call-IsAnonymous quiet_host bare_request (get_machine "nas") small_world (refl, refl)

-- Six bytes in lower case with colons.
abbrev address : List Byte
address = (10, 10) ∷ (11, 11) ∷ (12, 12) ∷ (13, 13) ∷ (14, 14) ∷ (0, 15) ∷ []

build_magic_packet-spell_example : build_magic_packet (spell true (58 ∷ []) address) ≡ (
    if same_code (length address) 6
    then some (repeat 6 (255 ∷ []) ++ repeat 16 (map byte_value address))
    else none)
build_magic_packet-spell_example = build_magic_packet-spell true (58 ∷ []) address colon (
  (omega arith, omega arith),
  (
    (omega arith, omega arith),
    (
      (omega arith, omega arith),
      ((omega arith, omega arith), ((omega arith, omega arith), ((omega arith, omega arith), tt))),
    ),
  ),
)

abbrev progress : SetupState
progress = record {
  completed = false;
  current_step = "network";
  completed_steps = [];
  updated_at = 0;
}

-- A wizard that waits for the network's settings, and one that is over.
abbrev started : World
started = record small_world { db = record small_db { setup = some progress } }

abbrev over : SetupState
over = record progress { completed = true; current_step = "complete" }

abbrev ended : World
ended = record small_world { db = record small_db { setup = some over } }

started-IsSound : IsSound (shown started)
unfolding index
started-IsSound = record { known = refl; completed_last = λ e. cc }

known_step : is_some (index wizard_steps "network") ≡ true
unfolding index
known_step = refl

abbrev path : List Move
path = forward "network" known_step ∷ back "complete" ∷ back "nowhere" ∷ restart ∷ []

moves-IsSound_example : IsSound (shown (moves quiet_host path started))
moves-IsSound_example = moves-IsSound quiet_host path started started-IsSound

setup_page_total_run : (p : Reply) × ((setup_page quiet_host "welcome" started).0 ≡ ok p)
setup_page_total_run = setup_page_total quiet_host "welcome" started started-IsSound

welcome_shown : (setup_page quiet_host "welcome" started).0 ≡ ok (page "welcome" 200)
unfolding setup_page is_complete get_state index get
welcome_shown = refl

abbrev welcome : String
welcome = "welcome"

setup_page_in_order_example :
    ((shown started).completed ≡ false)
    × (welcome ≡ "welcome")
    × (a : ℕ) × (b : ℕ) × (index wizard_steps "welcome" ≡ some a)
    × (index wizard_steps (shown started).current_step ≡ some b)
    × (a ≤ b)
setup_page_in_order_example =
    setup_page_in_order quiet_host "welcome" "welcome" 200 started welcome_shown

setup_welcome_reopens_example :
    ((shown (setup_welcome_post quiet_host ended).1).completed ≡ false)
    × ((shown (setup_welcome_post quiet_host ended).1).current_step ≡ "admin_account")
    × ((setup_welcome_post quiet_host ended).0 ≡ ok (redirect "/setup/admin_account"))
setup_welcome_reopens_example = setup_welcome_reopens quiet_host ended

abbrev closed : Error
closed = record { kind = http 410; detail = "Setup already completed" }

setup_api_closed_run :
    (setup_admin quiet_host "bob" "a long password" ended ≡ (err closed, ended))
    × (setup_network quiet_host "eth0" "etherwake" 60 ended ≡ (err closed, ended))
    × (setup_complete quiet_host ended ≡ (err closed, ended))
setup_api_closed_run =
    setup_api_closed quiet_host over ended "bob" "a long password" "eth0" "etherwake" 60 refl refl
      refl refl refl
