-- ===== src/Migrations/Schema.antt =====
-- What migrations/versions and app/persistence/models.py say of a table: its columns, constraints
-- and indexes; and its rows, as a database holds them.
use wol_monkey.Common.{
  ℕ, String, Bool, true, false, Option, none, some, List, [], ◌∷◌, ◌&&◌, leb, ◌==◌, any,
}
use wol_monkey.Common.Dict.{lookup}
use wol_monkey.Domain.Records.{Value, Dict}

pub data ColumnType : Type 0 where
  uuid : ColumnType
  varchar : ℕ → ColumnType
  plain_text : ColumnType
  jsonb : ColumnType
  timestamp : ColumnType
  boolean : ColumnType
  integer : ColumnType
  big_integer : ColumnType
  inet : ColumnType
  macaddr : ColumnType

pub record Column : Type 0 where
  pub name : String
  pub type : ColumnType
  pub nullable : Bool
  pub server_default : Option String

-- The conditions that the check constraints use.
pub data Condition : Type 0 where
  one_of : String → List String → Condition
  within : String → ℕ → ℕ → Condition
  equals : String → ℕ → Condition

pub data OnDelete : Type 0 where
  cascade set_null : OnDelete

-- A foreign key names its column, and the table and the column that it points to.
pub data Constraint : Type 0 where
  primary_key : String → Constraint
  unique : Option String → String → Constraint
  check : String → Condition → Constraint
  foreign_key : Option String → String → String → String → OnDelete → Constraint

pub record Index : Type 0 where
  pub name : String
  pub columns : List String

-- A value of a row: for a JSONB column a JSON value, or an object of JSON values.
pub data Cell : Type 0 where
  null_cell : Cell
  text_cell : String → Cell
  number_cell : ℕ → Cell
  json_cell : Value → Cell
  object_cell : Dict Value → Cell

abbrev pub Row : Type 0
Row = List (String × Cell)

pub record Table : Type 0 where
  pub name : String
  pub columns : List Column
  pub constraints : List Constraint
  pub indexes : List Index
  pub rows : List Row

abbrev pub with_rows : List Row → Table → Table
with_rows rows t = record t { rows = rows }

-- nullable=False and nullable=True.
abbrev pub column : String → ColumnType → Column
column name type = record { name = name; type = type; nullable = false; server_default = none }

abbrev pub optional : String → ColumnType → Column
optional name type = record { name = name; type = type; nullable = true; server_default = none }

-- A new table has no rows.
abbrev pub new_table : String → List Column → List Constraint → List Index → Table
new_table name columns constraints indexes = record {
  name = name;
  columns = columns;
  constraints = constraints;
  indexes = indexes;
  rows = [];
}

abbrev pub index : String → List String → Index
index name columns = record { name = name; columns = columns }

abbrev or_null : Option Cell → Cell
or_null none = null_cell
or_null (some c) = c

unfoldable pub cell : String → Row → Cell
cell key row = or_null (lookup key row)

unfoldable pub is_null : Cell → Bool
is_null null_cell = true
is_null c = false

-- SQL's `=` between a column and a literal; with NULL it is not true.
unfoldable pub same_text : String → Cell → Bool
same_text s (text_cell t) = t == s
same_text s c = false

-- A JSONB value equals the JSON text '"s"'.
unfoldable pub same_json : String → Cell → Bool
same_json s (json_cell (Value.text t)) = t == s
same_json s c = false

unfoldable pub number_passes : (ℕ → Bool) → Cell → Bool
number_passes p (number_cell n) = p n
number_passes p null_cell = true
number_passes p c = false

-- NULL passes every check.
unfoldable pub text_passes : List String → Cell → Bool
text_passes allowed (text_cell t) = any (λ s. s == t) allowed
text_passes allowed null_cell = true
text_passes allowed c = false

unfoldable pub holds : Condition → Row → Bool
unfolding cell text_passes number_passes
holds (one_of key allowed) row = text_passes allowed (cell key row)
holds (within key low high) row = number_passes (λ n. leb low n && leb n high) (cell key row)
holds (equals key value) row = number_passes (λ n. leb value n && leb n value) (cell key row)

unfoldable pub all : (Row → Bool) → List Row → Bool
all p [] = true
all p (row ∷ rows) = p row && all p rows

-- The check constraints of a table hold of all rows.
unfoldable pub checks_pass : List Constraint → List Row → Bool
checks_pass [] rows = true
checks_pass (check name condition ∷ cs) rows = all (holds condition) rows && checks_pass cs rows
checks_pass (c ∷ cs) rows = checks_pass cs rows
