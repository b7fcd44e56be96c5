-- ===== src/Migrations/Tables.antt =====
-- How a table is found after an operation has put another in its place, and what an update of rows
-- keeps true of them.
use wol_monkey.Common.{
  arith, ◌≡◌, refl, sym, String, Bool, true, false, Option, some, List, [], ◌∷◌, ◌++◌, ◌==◌, eq_iff,
  eq_refl, update_where, Option-cases, Bool-cases, inl, inr,
}
use mathlib.Core.Bool.{cond}
use mathlib.Core.Option.{some-injective}
use wol_monkey.Common.Dict.{lookup, insert, lookup-insert}
use wol_monkey.Migrations.Schema.{Row, Table, Cell, cell, all, text_cell}
use wol_monkey.Migrations.Database.{
  Database, Operation, get, put, alter, has_relation, perform, perform_all, ◌>>=◌,
}

-- A table that is there is replaced, and every other table stays.
pub get-put :
    (t old : Table) (name : String) (db : Database)
    → get t.name db ≡ some old
    → get name (put t db) ≡ cond (t.name == name) (some t) (get name db)
unfolding get put
get-put t old name [] h = cc
get-put t old name (u ∷ db) h =
    ground
      (arith, eq_iff t.name name, eq_iff u.name t.name, eq_iff u.name name, get-put t old name db)

-- A table in the place of one with the same indexes takes no new name.
pub has_relation-put :
    (t old : Table) (name : String) (db : Database)
    → get t.name db ≡ some old
    → old.indexes ≡ t.indexes
    → has_relation name (put t db) ≡ has_relation name db
unfolding get put has_relation
has_relation-put t old name [] h same = cc
has_relation-put t old name (u ∷ db) h same = elim (Bool-cases (u.name == t.name)) [
  | inl here ↦
      let found : u ≡ old = some-injective _ _ (rw here at h) in
      rw (here, sym ((eq_iff u.name t.name).0 here), found, same) refl
  | inr other ↦ rw other (rw (has_relation-put t old name db (rw other at h) same) refl)
]

pub alter-put :
    (name : String) (f : Table → Option Table) (t new : Table) (db : Database)
    → get name db ≡ some t
    → f t ≡ some new
    → alter name f db ≡ some (put new db)
unfolding alter
alter-put name f t new db h k = rw h (rw k refl)

-- A test that the new rows pass where the old ones passed a test of their own.
pub all-update_where :
    (p q r : Row → Bool) (f : Row → Row) (rows : List Row)
    → ((row : Row) → q row ≡ true → r (cond (p row) (f row) row) ≡ true)
    → all q rows ≡ true
    → all r (update_where p f rows) ≡ true
unfolding all update_where
all-update_where p q r f [] keeps h = refl
all-update_where p q r f (row ∷ rows) keeps h =
    ground (arith, keeps row, all-update_where p q r f rows keeps)

pub cell-insert :
    (k j : String) (c : Cell) (row : Row) → cell j (insert k c row) ≡ cond (k == j) c (cell j row)
unfolding cell
cell-insert k j c row = ground (arith, lookup-insert k j c row)

pub insert-insert :
    (k : String) (c d : Cell) (row : Row) → insert k c (insert k d row) ≡ insert k c row
unfolding insert
insert-insert k c d [] = ground (arith, eq_refl k)
insert-insert k c d ((j, e) ∷ row) = ground (arith, eq_refl k, insert-insert k c d row)

pub insert-cell :
    (k s : String) (row : Row) → cell k row ≡ text_cell s → insert k (text_cell s) row ≡ row
unfolding cell insert lookup
insert-cell k s [] h = cc
insert-cell k s ((j, e) ∷ row) h = ground (arith, eq_iff j k, insert-cell k s row)

-- A test of another column is not affected.
pub all-update_cell :
    (k j : String) (c : Cell) (p : Row → Bool) (q : Cell → Bool) (rows : List Row)
    → (k == j) ≡ false
    → all (λ row. q (cell j row)) rows ≡ true
    → all (λ row. q (cell j row)) (update_where p (insert k c) rows) ≡ true
all-update_cell k j c p q rows other =
    all-update_where p (λ row. q (cell j row)) (λ row. q (cell j row)) (insert k c) rows
      (λ row h. ground (arith, cell-insert k j c row))

pub perform_all-step :
    (o : Operation) (os : List Operation) (db next : Database) {end : Database}
    → perform o db ≡ some next
    → perform_all os next ≡ some end
    → perform_all (o ∷ os) db ≡ some end
unfolding perform_all
perform_all-step o os db next h k = rw h k

-- Two lists of operations, one after the other.
pub perform_all-append :
    (os ps : List Operation) (db : Database)
    → perform_all (os ++ ps) db ≡ (perform_all os db >>= perform_all ps)
unfolding perform_all
perform_all-append [] ps db = refl
perform_all-append (o ∷ os) ps db = elim (Option-cases (perform o db)) [
  | inl e ↦ rw e refl
  | inr (d, e) ↦ rw e (perform_all-append os ps d)
]
