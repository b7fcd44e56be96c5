-- ===== src/Migrations/Strategies.antt =====
-- The data that migrations/versions/7da1313001d6_rename_udp_to_udp_broadcast_strategy.py changes.
pub mod Laws
use mathlib.Core.Bool.{cond}
use wol_monkey.Common.{
  leb, arith, ◌≡◌, refl, ap, sym, ◌∙◌, ◌≢◌, String, Bool, true, false, Option, none, some, List, [],
  ◌∷◌, ◌++◌, ◌==◌, not, ◌&&◌, any, select, eq_iff, eq_refl, update_where, update_where_none,
}
use wol_monkey.Common.Dict.{insert}
use wol_monkey.Domain.Records.{Value}
use wol_monkey.Migrations.Schema.{
  Row, Table, Condition, index, Constraint, check, primary_key, unique, with_rows, Cell, text_cell,
  json_cell, object_cell, cell, one_of, within, holds, all, checks_pass, same_text, same_json,
  text_passes, number_passes,
}
use wol_monkey.Migrations.Database.{
  Database, get, has_relation, put, alter, has_name, perform, perform_all, run_statement,
}
use wol_monkey.Migrations.Tables.{
  get-put, has_relation-put, alter-put, all-update_where, cell-insert, insert-insert, insert-cell,
  all-update_cell, perform_all-step,
}
use wol_monkey.Migrations.Initial
use wol_monkey.Migrations.Head.{initial}
use wol_monkey.Migrations.Revisions.{change_strategy, rename_strategy, revert_strategy}

-- UPDATE ... SET key = new WHERE key = old
abbrev pub renamed : String → String → String → List Row → List Row
renamed key old new =
    update_where (λ row. same_text old (cell key row)) (insert key (text_cell new))

abbrev pub strategy_check : String → Constraint
strategy_check udp =
    check "ck_machines_wake_strategy" (one_of "wake_strategy" ("etherwake" ∷ udp ∷ []))

-- The table of machines with its check on the strategies, and the other constraints around it.
abbrev pub other_constraints : List Constraint
other_constraints =
    check "ck_machines_ssh_port" (within "ssh_port" 1 65535)
    ∷ primary_key "id"
    ∷ unique (some "uq_machines_mac_address") "mac_address"
    ∷ []

abbrev pub machines_with : List Constraint → List Row → Table
machines_with cs rows = record Initial.machines { constraints = cs; rows = rows }

abbrev pub status_names : List String
status_names = "pending" ∷ "sent" ∷ "waking" ∷ "online" ∷ "failed" ∷ "timeout" ∷ []

abbrev pub status_condition : Condition
status_condition = one_of "status" status_names

abbrev pub attempts_with : List Row → Table
attempts_with rows = record Initial.wake_attempts {
  indexes = index "ix_wake_attempts_machine_started" ("machine_id" ∷ "started_at" ∷ []) ∷ [];
  rows = rows;
}

module _ (old new : String) where
  -- A strategy that is allowed or is the old one, once the old one has its new name.
  text_passes-renamed :
      (c : Cell)
      → text_passes ("etherwake" ∷ old ∷ new ∷ []) c ≡ true
      → text_passes ("etherwake" ∷ new ∷ []) (cond (same_text old c) (text_cell new) c) ≡ true
  unfolding text_passes same_text any
  text_passes-renamed (text_cell t) h =
      ground (arith, eq_iff t old, eq_iff old t, eq_iff new t, eq_refl new)
  text_passes-renamed Cell.null_cell h = refl
  text_passes-renamed (Cell.number_cell n) h = cc
  text_passes-renamed (Cell.json_cell v) h = cc
  text_passes-renamed (Cell.object_cell d) h = cc

  allowed-renamed :
      (rows : List Row)
      → all (holds (one_of "wake_strategy" ("etherwake" ∷ old ∷ new ∷ []))) rows ≡ true
      → all
          (holds (one_of "wake_strategy" ("etherwake" ∷ new ∷ [])))
          (renamed "wake_strategy" old new rows)
        ≡ true
  unfolding holds
  allowed-renamed rows h =
      all-update_where _ _ _ _ rows
        (λ row k. ground (
          arith,
          text_passes-renamed (cell "wake_strategy" row),
          cell-insert "wake_strategy" "wake_strategy" (text_cell new) row,
        ))
        h

  abbrev pub swapped_settings : List Row → List Row
  swapped_settings =
      update_where
        (λ row.
          same_text "default_wake_strategy" (cell "key" row) && same_json old (cell "value" row))
        (insert "value" (json_cell (Value.text new)))

  module _ (db : Database) (cs : List Constraint) (ms attempts ss : List Row)
      (m_there : get "machines" db ≡ some (machines_with cs ms))
      (a_there : get "wake_attempts" db ≡ some (attempts_with attempts))
      (s_there : get "settings" db ≡ some (with_rows ss Initial.settings)) where
    -- The machines without their check, with new strategies, and with the new check.
    abbrev m1 : Table
    m1 = machines_with other_constraints ms

    abbrev m2 : Table
    m2 = machines_with other_constraints (renamed "wake_strategy" old new ms)

    abbrev m3 : Table
    m3 =
        machines_with (other_constraints ++ strategy_check new ∷ [])
          (renamed "wake_strategy" old new ms)

    abbrev a1 : Table
    a1 = attempts_with (renamed "strategy" old new attempts)

    abbrev s1 : Table
    s1 = with_rows (swapped_settings ss) Initial.settings

    abbrev pub changed : Database
    changed = put m3 (put s1 (put a1 (put m2 (put m1 db))))

    get-m1 :
        (name : String) → get name (put m1 db) ≡ cond ("machines" == name) (some m1) (get name db)
    get-m1 name = get-put m1 (machines_with cs ms) name db m_there

    get-m2 :
        (name : String)
        → get name (put m2 (put m1 db)) ≡ cond ("machines" == name) (some m2) (get name db)
    get-m2 name = ground (arith, get-put m2 m1 name (put m1 db) (get-m1 "machines"), get-m1 name)

    get-a1 :
        (name : String)
        → get name (put a1 (put m2 (put m1 db)))
          ≡ cond
              ("wake_attempts" == name)
              (some a1)
              (cond ("machines" == name) (some m2) (get name db))
    get-a1 name =
        get-put a1 (attempts_with attempts) name (put m2 (put m1 db))
          (get-m2 "wake_attempts" ∙ a_there)
        ∙ ap (λ t. cond ("wake_attempts" == name) (some a1) t) (get-m2 name)

    get-s1 :
        (name : String)
        → get name (put s1 (put a1 (put m2 (put m1 db))))
          ≡ cond ("settings" == name) (some s1) (
              cond
                ("wake_attempts" == name)
                (some a1)
                (cond ("machines" == name) (some m2) (get name db)))
    get-s1 name =
        get-put s1 (with_rows ss Initial.settings) name (put a1 (put m2 (put m1 db)))
          (get-a1 "settings" ∙ s_there)
        ∙ ap (λ t. cond ("settings" == name) (some s1) t) (get-a1 name)

    pub get-changed :
        (name : String)
        → get name changed
          ≡ cond ("machines" == name) (some m3) (
              cond
                ("settings" == name)
                (some s1)
                (cond ("wake_attempts" == name) (some a1) (get name db)))
    get-changed name =
        get-put m3 m2 name (put s1 (put a1 (put m2 (put m1 db)))) (get-s1 "machines")
        ∙ ground (arith, get-s1 name, eq_iff "machines" name)

    pub has_relation-changed : (name : String) → has_relation name changed ≡ has_relation name db
    has_relation-changed name =
        has_relation-put m3 m2 name (put s1 (put a1 (put m2 (put m1 db)))) (get-s1 "machines") refl
        ∙ has_relation-put s1 (with_rows ss Initial.settings) name (put a1 (put m2 (put m1 db)))
            (get-a1 "settings" ∙ s_there) refl
        ∙ has_relation-put a1 (attempts_with attempts) name (put m2 (put m1 db))
            (get-m2 "wake_attempts" ∙ a_there) refl
        ∙ has_relation-put m2 m1 name (put m1 db) (get-m1 "machines") refl
        ∙ has_relation-put m1 (machines_with cs ms) name db m_there refl

    pub change_strategy-changed :
        any (has_name "ck_machines_wake_strategy") cs ≡ true
        → select (λ c. not (has_name "ck_machines_wake_strategy" c)) cs ≡ other_constraints
        → all (holds status_condition) attempts ≡ true
        → all (holds (within "ssh_port" 1 65535)) ms ≡ true
        → all (holds (one_of "wake_strategy" ("etherwake" ∷ old ∷ new ∷ []))) ms ≡ true
        → perform_all (change_strategy old new) db ≡ some changed
    unfolding perform_all perform run_statement checks_pass alter holds any
    change_strategy-changed named others statuses ports known =
        let ports_hold =
          all-update_cell "wake_strategy" "ssh_port" (text_cell new)
            (λ row. same_text old (cell "wake_strategy" row))
            (number_passes (λ n. leb 1 n && leb n 65535)) ms refl ports in
        let statuses_hold =
          all-update_cell "strategy" "status" (text_cell new)
            (λ row. same_text old (cell "strategy" row)) (text_passes status_names) attempts refl
            statuses in
        rw (m_there, named, others)
          (rw (get-m1 "machines", ports_hold)
            (rw (get-m2 "wake_attempts", a_there, statuses_hold)
              (rw (get-a1 "settings", s_there)
                (rw (get-s1 "machines", allowed-renamed ms known) refl))))
