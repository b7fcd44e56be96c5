-- ===== src/Migrations/Strategies/Laws.antt =====
-- What migrations/versions/7da1313001d6_rename_udp_to_udp_broadcast_strategy.py makes of the rows that
-- the program has written, upwards and back.
use mathlib.Core.Bool.{cond}
use wol_monkey.Common.{
  leb, arith, ◌≡◌, refl, ap, sym, ◌∙◌, String, Bool, true, false, Option, some, List, [], ◌∷◌, ◌++◌,
  ◌==◌, not, ◌&&◌, any, select, eq_iff, eq_refl, update_where,
}
use wol_monkey.Common.Dict.{insert}
use wol_monkey.Migrations.Schema.{
  Row, Table, Constraint, with_rows, Cell, text_cell, null_cell, object_cell, cell, one_of, within,
  holds, all, same_text, same_json, text_passes, number_passes,
}
use wol_monkey.Migrations.Database.{Database, get, has_relation, has_name, perform_all}
use wol_monkey.Migrations.Tables.{
  cell-insert, insert-insert, insert-cell, all-update_cell, perform_all-append,
}
use wol_monkey.Migrations.Initial
use wol_monkey.Migrations.Revisions.{change_strategy, rename_strategy, revert_strategy}
use wol_monkey.Migrations.Strategies.{
  renamed, strategy_check, other_constraints, machines_with, attempts_with, status_condition,
  status_names, swapped_settings, allowed-renamed, changed, get-changed, has_relation-changed,
  change_strategy-changed,
}

-- SqlSettingsRepository.set stores a JSON object, never a bare text.
unfoldable pub is_object : Cell → Bool
is_object (object_cell d) = true
is_object c = false

same_json-is_object : (old : String) (c : Cell) → is_object c ≡ true → same_json old c ≡ false
unfolding is_object same_json
same_json-is_object old (object_cell d) h = refl
same_json-is_object old null_cell h = cc
same_json-is_object old (text_cell t) h = cc
same_json-is_object old (Cell.number_cell n) h = cc
same_json-is_object old (Cell.json_cell v) h = cc

-- So the statement on the settings finds no row.
swapped_settings_none :
    (old new : String) (ss : List Row)
    → all (λ row. is_object (cell "value" row)) ss ≡ true
    → swapped_settings old new ss ≡ ss
unfolding update_where all
swapped_settings_none old new [] h = refl
swapped_settings_none old new (row ∷ ss) h =
    ground (arith, same_json-is_object old (cell "value" row), swapped_settings_none old new ss)

module _ (key old new : String) (distinct : (old == new) ≡ false)
    (apart : ("etherwake" == new) ≡ false) where
  -- A row, once the old name has become the new one and then the old one again.
  abbrev there_and_back : Row → Row
  there_and_back row =
      let there : Row = cond (same_text old (cell key row)) (insert key (text_cell new) row) row in
      cond (same_text new (cell key there)) (insert key (text_cell old) there) there

  there_and_back-text :
      (t : String) (row : Row) (b : Bool)
      → (t == old) ≡ b
      → cell key row ≡ text_cell t
      → any (λ s. s == t) ("etherwake" ∷ old ∷ []) ≡ true
      → there_and_back row ≡ row
  unfolding same_text any
  there_and_back-text t row true same e h =
      rw (e, same, cell-insert key key (text_cell new) row, eq_refl key, eq_refl new)
        (insert-insert key (text_cell old) (text_cell new) row
          ∙ insert-cell key old row (e ∙ ground (arith, eq_iff t old)))
  there_and_back-text t row false other e h =
      rw (e, other, e)
        (ground (
          arith,
          eq_iff t new,
          eq_iff "etherwake" new,
          eq_iff "etherwake" t,
          eq_iff old t,
          eq_iff t old,
        ))

  there_and_back_lem :
      (row : Row) (c : Cell)
      → cell key row ≡ c
      → text_passes ("etherwake" ∷ old ∷ []) c ≡ true
      → there_and_back row ≡ row
  unfolding text_passes same_text
  there_and_back_lem row (text_cell t) e h = there_and_back-text t row (t == old) refl e h
  there_and_back_lem row null_cell e h = rw (e, e) refl
  there_and_back_lem row (Cell.number_cell n) e h = cc
  there_and_back_lem row (Cell.json_cell v) e h = cc
  there_and_back_lem row (object_cell d) e h = cc

  renamed-renamed :
      (rows : List Row)
      → all (holds (one_of key ("etherwake" ∷ old ∷ []))) rows ≡ true
      → renamed key new old (renamed key old new rows) ≡ rows
  unfolding all holds update_where
  renamed-renamed [] h = refl
  renamed-renamed (row ∷ rows) h =
      ground (arith, there_and_back_lem row (cell key row) refl, renamed-renamed rows)

module _ (db : Database) (ms attempts ss : List Row)
    (a_there : get "wake_attempts" db ≡ some (attempts_with attempts))
    (s_there : get "settings" db ≡ some (with_rows ss Initial.settings))
    (statuses : all (holds status_condition) attempts ≡ true)
    (ports : all (holds (within "ssh_port" 1 65535)) ms ≡ true)
    (objects : all (λ row. is_object (cell "value" row)) ss ≡ true) where
  -- The database after a change of the name, from the constraints that are there.
  pub change_strategy_lem :
      (old new : String) (cs : List Constraint)
      → get "machines" db ≡ some (machines_with cs ms)
      → any (has_name "ck_machines_wake_strategy") cs ≡ true
      → select (λ c. not (has_name "ck_machines_wake_strategy" c)) cs ≡ other_constraints
      → all (holds (one_of "wake_strategy" ("etherwake" ∷ old ∷ new ∷ []))) ms ≡ true
      → (after : Database) × (perform_all (change_strategy old new) db ≡ some after)
        × ((name : String)
            → get name after
              ≡ cond
                  ("machines" == name)
                  (some (
                    machines_with
                      (other_constraints ++ strategy_check new ∷ [])
                      (renamed "wake_strategy" old new ms)))
                  (cond
                    ("wake_attempts" == name)
                    (some (attempts_with (renamed "strategy" old new attempts)))
                    (get name db)))
        × ((name : String) → has_relation name after ≡ has_relation name db)
  change_strategy_lem old new cs m_there named others known =
      let settings_stay : some (with_rows (swapped_settings old new ss) Initial.settings)
          ≡ get "settings" db =
        ap (λ rows. some (with_rows rows Initial.settings))
          (swapped_settings_none old new ss objects)
        ∙ sym s_there in
      (
        changed old new db cs ms attempts ss m_there a_there s_there,
        change_strategy-changed old new db cs ms attempts ss m_there a_there s_there named others
            statuses ports known,
        λ name.
            get-changed old new db cs ms attempts ss m_there a_there s_there name
            ∙ ground (arith, settings_stay, eq_iff "settings" name, eq_iff "wake_attempts" name),
        has_relation-changed old new db cs ms attempts ss m_there a_there s_there,
      )

text_passes_more :
    (a b c : String) (x : Cell)
    → text_passes (a ∷ b ∷ []) x ≡ true
    → text_passes (a ∷ b ∷ c ∷ []) x ≡ true
unfolding text_passes any
text_passes_more a b c (text_cell t) h = ground arith
text_passes_more a b c null_cell h = refl
text_passes_more a b c (Cell.number_cell n) h = cc
text_passes_more a b c (Cell.json_cell v) h = cc
text_passes_more a b c (object_cell d) h = cc

allows_more :
    (key a b c : String) (rows : List Row)
    → all (holds (one_of key (a ∷ b ∷ []))) rows ≡ true
    → all (holds (one_of key (a ∷ b ∷ c ∷ []))) rows ≡ true
unfolding all holds
allows_more key a b c [] h = refl
allows_more key a b c (row ∷ rows) h =
    ground (arith, text_passes_more a b c (cell key row), allows_more key a b c rows)

-- The two tables that changed, where the second is back.
restored :
    (name : String) (db : Database) (x y z : Option Table) (attempts : Table)
    → get "wake_attempts" db ≡ some attempts
    → cond ("machines" == name) x (
        cond
          ("wake_attempts" == name)
          (some attempts)
          (cond ("machines" == name) y (cond ("wake_attempts" == name) z (get name db))))
      ≡ cond ("machines" == name) x (get name db)
restored name db x y z attempts h = ground (arith, eq_iff "wake_attempts" name)

module _ (db : Database) (ms attempts ss : List Row)
    (a_there : get "wake_attempts" db ≡ some (attempts_with attempts))
    (s_there : get "settings" db ≡ some (with_rows ss Initial.settings))
    (statuses : all (holds status_condition) attempts ≡ true)
    (ports : all (holds (within "ssh_port" 1 65535)) ms ≡ true)
    (objects : all (λ row. is_object (cell "value" row)) ss ≡ true) where
  -- Take the same tables, with strategies 'etherwake' and 'udp' alone, in the machines and in the
  -- attempts. The revision's upgrade and downgrade, one after the other, succeed; all rows and all other
  -- tables are then as they were; and the check of the machines, which the first revision made for
  -- 'udp_broadcast', allows 'udp' in its place.
  pub rename_strategy-revert_strategy :
      get "machines" db ≡ some (with_rows ms Initial.machines)
      → all (holds (one_of "wake_strategy" ("etherwake" ∷ "udp" ∷ []))) ms ≡ true
      → all (holds (one_of "strategy" ("etherwake" ∷ "udp" ∷ []))) attempts ≡ true
      → (after : Database) × (perform_all (rename_strategy ++ revert_strategy) db ≡ some after)
        × ((name : String)
            → get name after
              ≡ cond
                  ("machines" == name)
                  (some (machines_with (other_constraints ++ strategy_check "udp" ∷ []) ms))
                  (get name db))
  unfolding any select has_name holds
  rename_strategy-revert_strategy m_there known used =
      let ms' : List Row = renamed "wake_strategy" "udp" "udp_broadcast" ms in
      let attempts' : List Row = renamed "strategy" "udp" "udp_broadcast" attempts in
      let known' = allows_more "wake_strategy" "etherwake" "udp" "udp_broadcast" ms known in
      let (middle, up, tables, names) =
        change_strategy_lem db ms attempts ss a_there s_there statuses ports objects "udp"
          "udp_broadcast" Initial.machines.constraints m_there refl refl known' in
      let (after, down, tables', names') =
        change_strategy_lem middle ms' attempts' ss (tables "wake_attempts")
          (tables "settings" ∙ s_there)
          (all-update_cell "strategy" "status" (text_cell "udp_broadcast") _
            (text_passes status_names) attempts refl statuses)
          (all-update_cell "wake_strategy" "ssh_port" (text_cell "udp_broadcast") _
            (number_passes (λ n. leb 1 n && leb n 65535)) ms refl ports)
          objects "udp_broadcast" "udp" (other_constraints ++ strategy_check "udp_broadcast" ∷ [])
          (tables "machines") refl refl
          (allows_more "wake_strategy" "etherwake" "udp_broadcast" "udp" ms'
            (allowed-renamed "udp" "udp_broadcast" ms known')) in
      let ms_back = renamed-renamed "wake_strategy" "udp" "udp_broadcast" refl refl ms known in
      let attempts_back =
        renamed-renamed "strategy" "udp" "udp_broadcast" refl refl attempts used in
      (
        after,
        perform_all-append rename_strategy revert_strategy db ∙ rw up down,
        λ name.
            rw (tables' name, ms_back, attempts_back, tables name)
              (restored name db _ _ _ _ a_there),
      )
