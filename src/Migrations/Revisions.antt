-- ===== src/Migrations/Revisions.antt =====
-- The three revisions after the first: 09d75b0dfde5_add_user_id_to_api_tokens.py,
-- 7da1313001d6_rename_udp_to_udp_broadcast_strategy.py and 1409d10906fb_add_machine_id_to_api_tokens.py;
-- and the order that their down_revision gives.
use wol_monkey.Common.{String, none, some, List, [], ◌∷◌, ◌++◌}
use wol_monkey.Migrations.Schema.{uuid, one_of, cascade, set_null, optional}
use wol_monkey.Migrations.Database.{
  Operation, rename_text, rename_setting, own_by_first_user, create_index, drop_index, add_column,
  drop_column, set_not_null, create_foreign_key, create_check_constraint, drop_constraint, execute,
}
use wol_monkey.Migrations.Initial

abbrev pub add_user_id : List Operation
add_user_id =
    add_column "api_tokens" (optional "user_id" uuid)
    ∷ execute own_by_first_user
    ∷ set_not_null "api_tokens" "user_id"
    ∷ create_foreign_key none "api_tokens" "users" "user_id" "id" cascade
    ∷ []

abbrev pub remove_user_id : List Operation
remove_user_id = drop_constraint none "api_tokens" ∷ drop_column "api_tokens" "user_id" ∷ []

-- Both directions of the second revision.
abbrev pub change_strategy : String → String → List Operation
change_strategy old new =
    drop_constraint (some "ck_machines_wake_strategy") "machines"
    ∷ execute (rename_text "machines" "wake_strategy" old new)
    ∷ execute (rename_text "wake_attempts" "strategy" old new)
    ∷ execute (rename_setting "default_wake_strategy" old new)
    ∷ create_check_constraint "ck_machines_wake_strategy" "machines"
        (one_of "wake_strategy" ("etherwake" ∷ new ∷ []))
    ∷ []

abbrev pub rename_strategy : List Operation
rename_strategy = change_strategy "udp" "udp_broadcast"

abbrev pub revert_strategy : List Operation
revert_strategy = change_strategy "udp_broadcast" "udp"

abbrev pub add_machine_id : List Operation
add_machine_id =
    add_column "api_tokens" (optional "machine_id" uuid)
    ∷ create_index "ix_api_tokens_machine_id" "api_tokens" ("machine_id" ∷ [])
    ∷ create_foreign_key none "api_tokens" "machines" "machine_id" "id" set_null
    ∷ []

abbrev pub remove_machine_id : List Operation
remove_machine_id =
    drop_constraint none "api_tokens"
    ∷ drop_index "ix_api_tokens_machine_id" "api_tokens"
    ∷ drop_column "api_tokens" "machine_id"
    ∷ []

-- alembic upgrade head
abbrev pub upgrade_head : List Operation
upgrade_head = Initial.upgrade ++ add_user_id ++ rename_strategy ++ add_machine_id
