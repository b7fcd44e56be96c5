-- ===== src/Migrations/Database.antt =====
-- The operations of Alembic that migrations/versions calls, on a database, as Alembic and PostgreSQL
-- document them. An operation that is refused answers none.
use mathlib.Core.Bool.{cond}
use wol_monkey.Common.{
  ℕ, String, Bool, true, false, Option, none, some, List, [], ◌∷◌, ◌++◌, map, not, ◌&&◌, ◌||◌, ◌==◌,
  any, select, update_where, if◌then◌else◌, min_by,
}
use wol_monkey.Common.Dict.{insert, pop}
use wol_monkey.Domain.Records.{Value}
use wol_monkey.Migrations.Schema.{
  Column, Condition, OnDelete, Constraint, primary_key, unique, check, foreign_key, index, Cell,
  null_cell, text_cell, number_cell, json_cell, Row, Table, with_rows, cell, is_null, same_text,
  same_json, holds, all, checks_pass,
}

abbrev pub Database : Type 0
Database = List Table

-- op.execute of the UPDATE statements of the revisions: of a text column that has a given text; of
-- the value of a setting with a given key and a given JSON text; and of the empty user ids, by the
-- user who was created first.
pub data Statement : Type 0 where
  rename_text : (table key old new : String) → Statement
  rename_setting : (key old new : String) → Statement
  own_by_first_user : Statement

pub data Operation : Type 0 where
  create_table : Table → Operation
  drop_table : String → Operation
  create_index : (name table : String) → List String → Operation
  drop_index : (name table : String) → Operation
  add_column : String → Column → Operation
  drop_column : (table name : String) → Operation
  set_not_null : (table name : String) → Operation
  create_foreign_key : Option String → (source referent key target : String) → OnDelete → Operation
  create_check_constraint : (name table : String) → Condition → Operation
  drop_constraint : Option String → String → Operation
  execute : Statement → Operation

infixl 1 ◌>>=◌
abbrev pub ◌>>=◌ {ℓ κ} : {A : Type ℓ} {B : Type κ} → Option A → (A → Option B) → Option B
none >>= f = none
some x >>= f = f x

-- `some` where the test holds.
abbrev pub guard {ℓ} : {A : Type ℓ} → Bool → A → Option A
guard true x = some x
guard false x = none

-- The table with this name.
unfoldable pub get : String → Database → Option Table
get name [] = none
get name (t ∷ db) = cond (t.name == name) (some t) (get name db)

-- The first table with the name of `new` becomes `new`.
unfoldable pub put : Table → Database → Database
put new [] = []
put new (t ∷ db) = cond (t.name == new.name) (new ∷ db) (t ∷ put new db)

unfoldable pub remove : String → Database → Database
remove name [] = []
remove name (t ∷ db) = cond (t.name == name) db (t ∷ remove name db)

unfoldable pub alter : String → (Table → Option Table) → Database → Option Database
alter name f db = do t ← get name db; new ← f t; some (put new db)

-- A table or an index has this name.
unfoldable pub has_relation : String → Database → Bool
has_relation name [] = false
has_relation name (t ∷ db) =
    t.name == name || any (λ i. i.name == name) t.indexes || has_relation name db

unfoldable pub points_to : String → Constraint → Bool
points_to name (foreign_key _ _ target _ _) = target == name
points_to name c = false

-- A table with another name has a foreign key to this one.
unfoldable pub is_referenced : String → Database → Bool
is_referenced name [] = false
is_referenced name (t ∷ db) =
    not (t.name == name) && any (points_to name) t.constraints || is_referenced name db

has_column : String → Table → Bool
has_column name t = any (λ c. c.name == name) t.columns

has_columns : List String → Table → Bool
unfolding has_column
has_columns [] t = true
has_columns (name ∷ names) t = has_column name t && has_columns names t

-- Every foreign key points to a column that is there.
targets_exist : List Constraint → Database → Bool
unfolding has_column
targets_exist [] db = true
targets_exist (foreign_key _ _ target key _ ∷ cs) db =
    elim (get target db) [ none ↦ false | some t ↦ has_column key t ] && targets_exist cs db
targets_exist (c ∷ cs) db = targets_exist cs db

unfoldable pub has_name : String → Constraint → Bool
has_name name (primary_key _) = false
has_name name (unique (some n) _) = n == name
has_name name (unique none _) = false
has_name name (check n _) = n == name
has_name name (foreign_key (some n) _ _ _ _) = n == name
has_name name (foreign_key none _ _ _ _) = false

is_about : String → Condition → Bool
is_about name (Condition.one_of key _) = key == name
is_about name (Condition.within key _ _) = key == name
is_about name (Condition.equals key _) = key == name

mentions : String → Constraint → Bool
unfolding is_about
mentions name (primary_key key) = key == name
mentions name (unique _ key) = key == name
mentions name (check _ condition) = is_about name condition
mentions name (foreign_key _ key _ _ _) = key == name

-- A new column is NULL in the rows that are there, so it must be nullable unless there are none.
add_to : Column → Table → Option Table
unfolding has_column
add_to c t =
    guard (not (has_column c.name t) && (c.nullable || elim t.rows [ [] ↦ true | _ ↦ false ]))
      (record t { columns = t.columns ++ c ∷ []; rows = map (insert c.name null_cell) t.rows })

-- The constraints and the indexes of a column go with it.
drop_from : String → Table → Option Table
unfolding has_column mentions
drop_from name t = guard (has_column name t) (record t {
  columns = select (λ c. not (c.name == name)) t.columns;
  constraints = select (λ c. not (mentions name c)) t.constraints;
  indexes = select (λ i. not (any (λ k. k == name) i.columns)) t.indexes;
  rows = map (pop name) t.rows;
})

require : String → Table → Option Table
unfolding has_column
require name t =
    guard (has_column name t && all (λ row. not (is_null (cell name row))) t.rows) (record t {
      columns = update_where (λ c. c.name == name) (λ c. record c { nullable = false }) t.columns;
    })

-- Every value of the column is NULL or stands in the column that it points to.
unfoldable pub is_held : Cell → String → List Row → Bool
is_held (text_cell s) key rows = any (λ row. same_text s (cell key row)) rows
is_held null_cell key rows = true
is_held c key rows = false

link : Constraint → String → Table → String → Table → Option Table
unfolding has_column
link c key target target_key t =
    guard
      (has_column key t
        && has_column target_key target
        && all (λ row. is_held (cell key row) target_key target.rows) t.rows)
      (record t { constraints = t.constraints ++ c ∷ [] })

restrict : String → Condition → Table → Option Table
unfolding has_name
restrict name condition t =
    guard (not (any (has_name name) t.constraints) && all (holds condition) t.rows)
      (record t { constraints = t.constraints ++ check name condition ∷ [] })

-- A constraint without a name cannot be dropped.
release : Option String → Table → Option Table
unfolding has_name
release none t = none
release (some name) t =
    guard (any (has_name name) t.constraints)
      (record t { constraints = select (λ c. not (has_name name c)) t.constraints })

-- An UPDATE is refused when a changed row breaks a check.
update_rows : (Row → Bool) → (Row → Row) → Table → Option Table
update_rows p f t =
    let rows = update_where p f t.rows in guard (checks_pass t.constraints rows) (with_rows rows t)

unfoldable pub creation_time : Cell → ℕ
creation_time (number_cell n) = n
creation_time c = 0

-- SELECT id FROM users ORDER BY created_at LIMIT 1
unfoldable pub first_user : List Row → Cell
unfolding creation_time
first_user users = elim (min_by (λ row. creation_time (cell "created_at" row)) users) [
  | none ↦ null_cell
  | some row ↦ cell "id" row
]

unfoldable pub run_statement : Statement → Database → Option Database
unfolding update_rows
run_statement (Statement.rename_text table key old new) db =
    alter table (update_rows (λ row. same_text old (cell key row)) (insert key (text_cell new))) db
run_statement (Statement.rename_setting key old new) db =
    alter "settings"
      (update_rows (λ row. same_text key (cell "key" row) && same_json old (cell "value" row))
        (insert "value" (json_cell (Value.text new))))
      db
run_statement Statement.own_by_first_user db = do
  users ← get "users" db
  alter "api_tokens"
      (update_rows (λ row. is_null (cell "user_id" row)) (insert "user_id" (first_user users.rows)))
      db

unfoldable pub perform : Operation → Database → Option Database
unfolding targets_exist has_columns add_to drop_from require link restrict release
perform (Operation.create_table t) db =
    guard (not (has_relation t.name db) && targets_exist t.constraints (t ∷ db)) (t ∷ db)
perform (Operation.drop_table name) db = do
  t ← get name db
  guard (not (is_referenced name db)) (remove name db)
perform (Operation.create_index name table columns) db =
    if has_relation name db
    then none
    else alter table
        (λ t.
          guard (has_columns columns t)
            (record t { indexes = t.indexes ++ index name columns ∷ [] }))
        db
perform (Operation.drop_index name table) db =
    alter table
      (λ t.
        guard (any (λ i. i.name == name) t.indexes)
          (record t { indexes = select (λ i. not (i.name == name)) t.indexes }))
      db
perform (Operation.add_column table c) db = alter table (add_to c) db
perform (Operation.drop_column table name) db = alter table (drop_from name) db
perform (Operation.set_not_null table name) db = alter table (require name) db
perform (Operation.create_foreign_key name source referent key target on_delete) db = do
  t ← get referent db
  alter source (link (foreign_key name key referent target on_delete) key t target) db
perform (Operation.create_check_constraint name table condition) db =
    alter table (restrict name condition) db
perform (Operation.drop_constraint name table) db = alter table (release name) db
perform (Operation.execute statement) db = run_statement statement db

-- The operations of a revision, one after the other.
unfoldable pub perform_all : List Operation → Database → Option Database
perform_all [] db = some db
perform_all (o ∷ os) db = do next ← perform o db; perform_all os next
