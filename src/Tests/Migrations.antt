-- ===== src/Tests/Migrations.antt =====
-- The theorems on the migrations at concrete databases.
use wol_monkey.Common.{
  ℕ, ◌≡◌, refl, none, some, String, List, [], ◌∷◌, ◌++◌, All, any, min_by, ◌==◌,
}
use mathlib.Core.Bool.{cond}
use wol_monkey.Common.Dict.{lookup}
use wol_monkey.Domain.Records.{Value}
use wol_monkey.Migrations.Schema.{
  Row, Table, text_cell, number_cell, object_cell, varchar, column, new_table, with_rows, holds,
  all, cell, text_passes, number_passes,
}
use wol_monkey.Migrations.Database.{
  Database, get, perform_all, has_relation, is_referenced, creation_time,
}
use wol_monkey.Migrations.Initial
use wol_monkey.Migrations.Models.{metadata, api_token_model, machine_model, wake_attempt_model}
use wol_monkey.Migrations.Installed.{unassigned, head_tokens, upgrade_installed}
use wol_monkey.Migrations.Revisions.{
  upgrade_head, add_user_id, rename_strategy, add_machine_id, revert_strategy,
}
use wol_monkey.Migrations.Head.{
  IsFresh, SameTable, Declares, initial, filled, upgrade-downgrade, upgrade_head-metadata,
}
use wol_monkey.Migrations.Owners.{owned_by, add_user_id_fails}
use wol_monkey.Migrations.Strategies.{
  renamed, strategy_check, other_constraints, machines_with, attempts_with,
}
use wol_monkey.Migrations.Strategies.Laws.{is_object, rename_strategy-revert_strategy}

-- The table in which Alembic keeps the revision.
abbrev versions : Table
versions = new_table "alembic_version" (column "version_num" (varchar 32) ∷ []) [] []

versions-IsFresh : IsFresh (versions ∷ [])
unfolding has_relation is_referenced any
versions-IsFresh = (
  (refl, refl),
  (
    (refl, refl),
    (
      (refl, refl),
      (
        (refl, refl),
        (
          (refl, refl),
          (
            (refl, refl),
            (
              (refl, refl),
              (
                (refl, refl),
                (
                  (refl, refl),
                  (
                    (refl, refl),
                    (
                      (refl, refl),
                      (
                        (refl, refl),
                        ((refl, refl), ((refl, refl), ((refl, refl), ((refl, refl), tt)))),
                      ),
                    ),
                  ),
                ),
              ),
            ),
          ),
        ),
      ),
    ),
  ),
)

upgrade_head-metadata_example :
    (new : Database) × (perform_all upgrade_head (versions ∷ []) ≡ some (new ++ versions ∷ []))
    × All (Declares new) metadata
    × All (Declares metadata) new
upgrade_head-metadata_example = upgrade_head-metadata (versions ∷ []) versions-IsFresh

abbrev same_row : String → List Row
same_row name = (("id", text_cell name) ∷ []) ∷ []

upgrade-downgrade_example :
    (perform_all Initial.upgrade (versions ∷ []) ≡ some (initial ++ versions ∷ []))
    × (perform_all Initial.downgrade (filled same_row initial ++ versions ∷ [])
        ≡ some (versions ∷ []))
upgrade-downgrade_example = upgrade-downgrade (versions ∷ []) same_row versions-IsFresh

abbrev machine : String → Row
machine strategy =
    ("id", text_cell "nas")
    ∷ ("ssh_port", number_cell 22)
    ∷ ("wake_strategy", text_cell strategy)
    ∷ []

abbrev attempt : String → Row
attempt strategy = ("status", text_cell "online") ∷ ("strategy", text_cell strategy) ∷ []

abbrev default_strategy : Row
default_strategy =
    ("key", text_cell "default_wake_strategy")
    ∷ ("value", object_cell (("v", Value.text "udp") ∷ []))
    ∷ []

abbrev token : Row
token = ("id", text_cell "t") ∷ ("name", text_cell "script") ∷ []

abbrev user : String → ℕ → Row
user id at = ("id", text_cell id) ∷ ("created_at", number_cell at) ∷ []

abbrev old_rows : Database
old_rows =
    with_rows (machine "udp" ∷ machine "etherwake" ∷ []) Initial.machines
    ∷ attempts_with (attempt "udp" ∷ [])
    ∷ with_rows (default_strategy ∷ []) Initial.settings
    ∷ with_rows (token ∷ []) Initial.api_tokens
    ∷ with_rows (user "guest" 9 ∷ user "admin" 7 ∷ []) Initial.users
    ∷ []

rename_strategy-revert_strategy_example :
    (after : Database) × (perform_all (rename_strategy ++ revert_strategy) old_rows ≡ some after)
    × ((name : String)
        → get name after
          ≡ cond
              ("machines" == name)
              (some (
                machines_with
                  (other_constraints ++ strategy_check "udp" ∷ [])
                  (machine "udp" ∷ machine "etherwake" ∷ [])))
              (get name old_rows))
unfolding get all holds lookup cell text_passes number_passes is_object any
rename_strategy-revert_strategy_example =
    rename_strategy-revert_strategy old_rows (machine "udp" ∷ machine "etherwake" ∷ [])
      (attempt "udp" ∷ []) (default_strategy ∷ []) refl refl refl refl refl refl refl refl

-- A token, and nobody to own it.
abbrev no_users : Database
no_users = with_rows (token ∷ []) Initial.api_tokens ∷ Initial.users ∷ []

add_user_id_fails_example : perform_all add_user_id no_users ≡ none
unfolding get
add_user_id_fails_example = add_user_id_fails no_users token [] refl refl

upgrade_installed_example :
    let ms : List Row = machine "udp" ∷ machine "etherwake" ∷ [] in
    let tokens : Table = head_tokens (unassigned (owned_by (text_cell "admin") (token ∷ []))) in
    let machines : Table =
      machines_with
        (other_constraints ++ strategy_check "udp_broadcast" ∷ [])
        (renamed "wake_strategy" "udp" "udp_broadcast" ms) in
    let attempts : Table =
      attempts_with (renamed "strategy" "udp" "udp_broadcast" (attempt "udp" ∷ [])) in
    (new : Database) × (perform_all (add_user_id ++ rename_strategy ++ add_machine_id) old_rows
      ≡ some new)
    × ((name : String)
        → get name new
          ≡ cond ("api_tokens" == name) (some tokens) (
              cond
                ("machines" == name)
                (some machines)
                (cond ("wake_attempts" == name) (some attempts) (get name old_rows))))
    × SameTable api_token_model tokens
    × SameTable machine_model machines
    × SameTable wake_attempt_model attempts
unfolding get all holds lookup cell text_passes number_passes is_object any creation_time min_by
    has_relation
upgrade_installed_example =
    upgrade_installed old_rows (machine "udp" ∷ machine "etherwake" ∷ []) (attempt "udp" ∷ [])
      (default_strategy ∷ []) (token ∷ []) (user "guest" 9 ∷ user "admin" 7 ∷ []) (user "admin" 7)
      "admin" refl refl refl refl refl refl refl refl refl refl refl refl
