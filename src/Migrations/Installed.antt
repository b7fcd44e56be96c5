-- ===== src/Migrations/Installed.antt =====
-- The revisions after the first, on an installation that has rows: migrations/versions from
-- 09d75b0dfde5 to 1409d10906fb.
use mathlib.Core.Bool.{cond}
use wol_monkey.Common.{
  arith, ◌≡◌, refl, ◌∙◌, String, true, false, Option, none, some, List, [], ◌∷◌, ◌++◌, ◌==◌, any,
  map, select,
}
use wol_monkey.Common.Dict.{insert}
use wol_monkey.Migrations.Schema.{
  Row, Table, Constraint, with_rows, text_cell, null_cell, cell, one_of, within, holds, all, index,
  optional, uuid, foreign_key, set_null,
}
use wol_monkey.Migrations.Database.{
  Database, get, put, alter, has_relation, has_name, is_held, perform, perform_all,
}
use wol_monkey.Migrations.Tables.{get-put, has_relation-put, cell-insert, perform_all-append}
use wol_monkey.Migrations.Initial
use wol_monkey.Migrations.Models.{api_token_model, machine_model, wake_attempt_model}
use wol_monkey.Migrations.Revisions.{add_user_id, rename_strategy, add_machine_id}
use wol_monkey.Migrations.Head.{SameTable}
use wol_monkey.Migrations.Owners.{oldest, owned_by, owned_tokens, add_user_id_lem}
use wol_monkey.Migrations.Strategies.{
  renamed, strategy_check, other_constraints, machines_with, attempts_with, status_condition,
}
use wol_monkey.Migrations.Strategies.Laws.{is_object, change_strategy_lem}

-- Every token without a machine.
abbrev pub unassigned : List Row → List Row
unassigned = map (insert "machine_id" null_cell)

-- The table of tokens after the last revision.
abbrev pub head_tokens : List Row → Table
head_tokens rows =
    let t : Table = owned_tokens rows in
    record t {
      columns = t.columns ++ optional "machine_id" uuid ∷ [];
      constraints = t.constraints ++ foreign_key none "machine_id" "machines" "id" set_null ∷ [];
      indexes = index "ix_api_tokens_machine_id" ("machine_id" ∷ []) ∷ [];
    }

unassigned_held :
    (rows ms : List Row)
    → all (λ row. is_held (cell "machine_id" row) "id" ms) (unassigned rows) ≡ true
unfolding all is_held
unassigned_held [] ms = refl
unassigned_held (row ∷ rows) ms =
    rw (cell-insert "machine_id" "machine_id" null_cell row) (unassigned_held rows ms)

module _ (db : Database) (ts ms : List Row) (cs : List Constraint)
    (t_there : get "api_tokens" db ≡ some (owned_tokens ts))
    (m_there : get "machines" db ≡ some (machines_with cs ms)) where
  -- The tokens with the column, with its index, and with its foreign key.
  abbrev k1 : Table
  k1 =
      let t : Table = owned_tokens (unassigned ts) in
      record t { columns = t.columns ++ optional "machine_id" uuid ∷ [] }

  abbrev k2 : Table
  k2 = record k1 { indexes = index "ix_api_tokens_machine_id" ("machine_id" ∷ []) ∷ [] }

  abbrev with_machines : Database
  with_machines = put (head_tokens (unassigned ts)) (put k2 (put k1 db))

  get-k1 :
      (name : String) → get name (put k1 db) ≡ cond ("api_tokens" == name) (some k1) (get name db)
  get-k1 name = get-put k1 (owned_tokens ts) name db t_there

  get-k2 :
      (name : String)
      → get name (put k2 (put k1 db)) ≡ cond ("api_tokens" == name) (some k2) (get name db)
  get-k2 name = ground (arith, get-put k2 k1 name (put k1 db) (get-k1 "api_tokens"), get-k1 name)

  get-with_machines :
      (name : String)
      → get name with_machines
        ≡ cond ("api_tokens" == name) (some (head_tokens (unassigned ts))) (get name db)
  get-with_machines name = ground (
    arith,
    get-put (head_tokens (unassigned ts)) k2 name (put k2 (put k1 db)) (get-k2 "api_tokens"),
    get-k2 name,
  )

  add_machine_id_lem :
      has_relation "ix_api_tokens_machine_id" db ≡ false
      → perform_all add_machine_id db ≡ some with_machines
  unfolding perform_all perform alter any
  add_machine_id_lem free =
      let still =
        has_relation-put k1 (owned_tokens ts) "ix_api_tokens_machine_id" db t_there refl ∙ free in
      rw t_there (
        rw (still, get-k1 "api_tokens")
          (rw (get-k2 "machines", m_there, get-k2 "api_tokens", unassigned_held ts ms) refl))

-- Of the tables of tokens, the last one counts.
last_tokens :
    (name : String) (t old m a other : Option Table)
    → cond ("api_tokens" == name) t (
        cond
          ("machines" == name)
          m
          (cond ("wake_attempts" == name) a (cond ("api_tokens" == name) old other)))
      ≡ cond
          ("api_tokens" == name)
          t
          (cond ("machines" == name) m (cond ("wake_attempts" == name) a other))
last_tokens name t old m a other = ground arith

-- Let an installation be at the first revision: its tables of machines, attempts, settings, tokens and
-- users are those of that revision, with rows that keep their checks, known strategies ('udp' among
-- them), settings stored as objects, and a user; and let no index have the name of the new one. Then the
-- three later revisions succeed. The tokens belong to the user created first and to no machine, 'udp'
-- is renamed in machines and attempts, and all other tables are as they were. The three tables that
-- change have the columns, constraints and indexes that the models declare.
pub upgrade_installed :
    (db : Database) (ms attempts ss ts us : List Row) (u : Row) (id : String)
    → get "machines" db ≡ some (with_rows ms Initial.machines)
    → get "wake_attempts" db ≡ some (attempts_with attempts)
    → get "settings" db ≡ some (with_rows ss Initial.settings)
    → get "api_tokens" db ≡ some (with_rows ts Initial.api_tokens)
    → get "users" db ≡ some (with_rows us Initial.users)
    → all (holds status_condition) attempts ≡ true
    → all (holds (within "ssh_port" 1 65535)) ms ≡ true
    → all (λ row. is_object (cell "value" row)) ss ≡ true
    → all (holds (one_of "wake_strategy" ("etherwake" ∷ "udp" ∷ "udp_broadcast" ∷ []))) ms ≡ true
    → oldest us ≡ some u
    → cell "id" u ≡ text_cell id
    → has_relation "ix_api_tokens_machine_id" db ≡ false
    → let tokens : Table = head_tokens (unassigned (owned_by (text_cell id) ts)) in
      let machines : Table =
        machines_with
          (other_constraints ++ strategy_check "udp_broadcast" ∷ [])
          (renamed "wake_strategy" "udp" "udp_broadcast" ms) in
      let attempts' : Table = attempts_with (renamed "strategy" "udp" "udp_broadcast" attempts) in
      (new : Database) × (perform_all (add_user_id ++ rename_strategy ++ add_machine_id) db
        ≡ some new)
      × ((name : String)
          → get name new
            ≡ cond ("api_tokens" == name) (some tokens) (
                cond
                  ("machines" == name)
                  (some machines)
                  (cond ("wake_attempts" == name) (some attempts') (get name db))))
      × SameTable api_token_model tokens
      × SameTable machine_model machines
      × SameTable wake_attempt_model attempts'
unfolding any select has_name
upgrade_installed db ms attempts ss ts us u id m_there a_there s_there t_there u_there statuses
      ports objects known first named free =
    let (db1, owned, tables1, names1) = add_user_id_lem db id ts us t_there u_there u first named in
    let (db2, renames, tables2, names2) =
      change_strategy_lem db1 ms attempts ss (tables1 "wake_attempts" ∙ a_there)
        (tables1 "settings" ∙ s_there) statuses ports objects "udp" "udp_broadcast"
        Initial.machines.constraints (tables1 "machines" ∙ m_there) refl refl known in
    let rows : List Row = owned_by (text_cell id) ts in
    let ms' : List Row = renamed "wake_strategy" "udp" "udp_broadcast" ms in
    let cs : List Constraint = other_constraints ++ strategy_check "udp_broadcast" ∷ [] in
    let tokens_there : get "api_tokens" db2 ≡ some (owned_tokens rows) =
      tables2 "api_tokens" ∙ tables1 "api_tokens" in
    let index_free = names2 "ix_api_tokens_machine_id" ∙ names1 "ix_api_tokens_machine_id" ∙ free in
    let links = add_machine_id_lem db2 rows ms' cs tokens_there (tables2 "machines") index_free in
    (
      with_machines db2 rows ms' cs tokens_there (tables2 "machines"),
      perform_all-append add_user_id (rename_strategy ++ add_machine_id) db
          ∙ rw owned (perform_all-append rename_strategy add_machine_id db1 ∙ rw renames links),
      λ name.
          get-with_machines db2 rows ms' cs tokens_there (tables2 "machines") name
          ∙ rw (tables2 name, tables1 name) (last_tokens name _ _ _ _ _),
      ground arith,
      ground arith,
      ground arith,
    )
