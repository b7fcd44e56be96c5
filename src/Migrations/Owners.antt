-- ===== src/Migrations/Owners.antt =====
-- migrations/versions/09d75b0dfde5_add_user_id_to_api_tokens.py on the tokens that are there.
use mathlib.Core.Bool.{cond}
use wol_monkey.Common.{
  arith, ◌≡◌, refl, ap, ◌∙◌, inl, inr, String, Bool, true, Option, none, some, List, [], ◌∷◌, ◌++◌,
  ◌==◌, not, any, map, In, eq_refl, update_where, min_by, min_by-In,
}
use wol_monkey.Common.Dict.{insert}
use wol_monkey.Migrations.Schema.{
  Row, Table, Column, with_rows, Cell, text_cell, null_cell, cell, is_null, all, same_text,
  checks_pass, column, optional, uuid, foreign_key, cascade,
}
use wol_monkey.Migrations.Database.{
  Database, set_not_null, create_foreign_key, get, has_relation, put, alter, creation_time,
  first_user, is_held, run_statement, perform, perform_all,
}
use wol_monkey.Migrations.Tables.{get-put, has_relation-put, cell-insert, insert-insert}
use wol_monkey.Migrations.Initial
use wol_monkey.Migrations.Revisions.{add_user_id}

-- The user who was created first.
abbrev pub oldest : List Row → Option Row
oldest = min_by (λ row. creation_time (cell "created_at" row))

-- Every token with the same owner.
abbrev pub owned_by : Cell → List Row → List Row
owned_by c = map (insert "user_id" c)

abbrev columns_with : Column → List Column
columns_with c = Initial.api_tokens.columns ++ c ∷ []

-- The table of tokens after the revision.
abbrev pub owned_tokens : List Row → Table
owned_tokens rows = record Initial.api_tokens {
  columns = columns_with (column "user_id" uuid);
  constraints =
      Initial.api_tokens.constraints ++ foreign_key none "user_id" "users" "id" cascade ∷ [];
  rows = rows;
}

-- The new column is empty in every row, so every row gets the owner.
backfilled :
    (c : Cell) (ts : List Row)
    → update_where
        (λ row. is_null (cell "user_id" row))
        (insert "user_id" c)
        (map (insert "user_id" null_cell) ts)
      ≡ map (insert "user_id" c) ts
unfolding update_where is_null
backfilled c [] = refl
backfilled c (row ∷ ts) =
    rw (cell-insert "user_id" "user_id" null_cell row, insert-insert "user_id" c null_cell row)
      (ap (insert "user_id" c row ∷◌) (backfilled c ts))

owned_not_null :
    (id : String) (ts : List Row)
    → all (λ row. not (is_null (cell "user_id" row))) (owned_by (text_cell id) ts) ≡ true
unfolding all is_null
owned_not_null id [] = refl
owned_not_null id (row ∷ ts) =
    rw (cell-insert "user_id" "user_id" (text_cell id) row) (owned_not_null id ts)

owned_held :
    (id : String) (us ts : List Row)
    → any (λ row. same_text id (cell "id" row)) us ≡ true
    → all (λ row. is_held (cell "user_id" row) "id" us) (owned_by (text_cell id) ts) ≡ true
unfolding all is_held
owned_held id us [] h = refl
owned_held id us (row ∷ ts) h =
    rw (cell-insert "user_id" "user_id" (text_cell id) row, h) (owned_held id us ts h)

any-In :
    (p : Row → Bool) (rows : List Row) (row : Row) → In row rows → p row ≡ true → any p rows ≡ true
unfolding any
any-In p [] row m h = absurd m.1
any-In p (r ∷ rows) row (inl e) h = rw (ap p e ∙ h) refl
any-In p (r ∷ rows) row (inr m) h = ground (arith, any-In p rows row m h)

module _ (db : Database) (c : Cell) (ts us : List Row)
    (t_there : get "api_tokens" db ≡ some (with_rows ts Initial.api_tokens))
    (u_there : get "users" db ≡ some (with_rows us Initial.users)) where
  -- The tokens with the new column, with owners, and with the column NOT NULL.
  abbrev t1 : Table
  t1 = record Initial.api_tokens {
    columns = columns_with (optional "user_id" uuid);
    rows = map (insert "user_id" null_cell) ts;
  }

  abbrev t2 : Table
  t2 = with_rows (owned_by c ts) t1

  abbrev t3 : Table
  t3 = record t2 { columns = columns_with (column "user_id" uuid) }

  abbrev owned : Database
  owned = put (owned_tokens (owned_by c ts)) (put t3 (put t2 (put t1 db)))

  get-t1 :
      (name : String) → get name (put t1 db) ≡ cond ("api_tokens" == name) (some t1) (get name db)
  get-t1 name = get-put t1 (with_rows ts Initial.api_tokens) name db t_there

  get-t2 :
      (name : String)
      → get name (put t2 (put t1 db)) ≡ cond ("api_tokens" == name) (some t2) (get name db)
  get-t2 name = ground (arith, get-put t2 t1 name (put t1 db) (get-t1 "api_tokens"), get-t1 name)

  get-t3 :
      (name : String)
      → get name (put t3 (put t2 (put t1 db))) ≡ cond ("api_tokens" == name) (some t3) (get name db)
  get-t3 name =
      ground (arith, get-put t3 t2 name (put t2 (put t1 db)) (get-t2 "api_tokens"), get-t2 name)

  get-owned :
      (name : String)
      → get name owned
        ≡ cond ("api_tokens" == name) (some (owned_tokens (owned_by c ts))) (get name db)
  get-owned name = ground (
    arith,
    get-put (owned_tokens (owned_by c ts)) t3 name (put t3 (put t2 (put t1 db)))
        (get-t3 "api_tokens"),
    get-t3 name,
  )

  has_relation-owned : (name : String) → has_relation name owned ≡ has_relation name db
  has_relation-owned name =
      has_relation-put (owned_tokens (owned_by c ts)) t3 name (put t3 (put t2 (put t1 db)))
        (get-t3 "api_tokens") refl
      ∙ has_relation-put t3 t2 name (put t2 (put t1 db)) (get-t2 "api_tokens") refl
      ∙ has_relation-put t2 t1 name (put t1 db) (get-t1 "api_tokens") refl
      ∙ has_relation-put t1 (with_rows ts Initial.api_tokens) name db t_there refl

  -- The column is added and filled; what is left makes it NOT NULL and links it.
  filled_first :
      first_user us ≡ c
      → perform_all add_user_id db
        ≡ perform_all
            (set_not_null "api_tokens" "user_id"
              ∷ create_foreign_key none "api_tokens" "users" "user_id" "id" cascade
              ∷ [])
            (put t2 (put t1 db))
  unfolding perform_all perform run_statement alter any checks_pass
  filled_first owner =
      rw t_there (rw (get-t1 "users", u_there, get-t1 "api_tokens", owner, backfilled c ts) refl)

module _ (db : Database) (id : String) (ts us : List Row)
    (t_there : get "api_tokens" db ≡ some (with_rows ts Initial.api_tokens))
    (u_there : get "users" db ≡ some (with_rows us Initial.users)) where
  add_user_id-owned :
      first_user us ≡ text_cell id
      → any (λ row. same_text id (cell "id" row)) us ≡ true
      → perform_all add_user_id db ≡ some (owned db (text_cell id) ts us t_there u_there)
  unfolding perform_all perform alter any update_where
  add_user_id-owned owner there =
      let c : Cell = text_cell id in
      filled_first db c ts us t_there u_there owner
      ∙ rw (get-t2 db c ts us t_there u_there "api_tokens", owned_not_null id ts)
          (rw
            (
              get-t3 db c ts us t_there u_there "users",
              u_there,
              get-t3 db c ts us t_there u_there "api_tokens",
              owned_held id us ts there,
            )
            refl)

  -- Where the tables of tokens and of users are those of the first revision, and the user created
  -- first has a text as id: the revision succeeds, every token then belongs to that user and is
  -- otherwise as it was, no other table changes, and no table or index gets a new name.
  pub add_user_id_lem :
      (u : Row)
      → oldest us ≡ some u
      → cell "id" u ≡ text_cell id
      → (new : Database) × (perform_all add_user_id db ≡ some new)
        × ((name : String)
            → get name new
              ≡ cond
                  ("api_tokens" == name)
                  (some (owned_tokens (owned_by (text_cell id) ts)))
                  (get name db))
        × ((name : String) → has_relation name new ≡ has_relation name db)
  unfolding same_text first_user
  add_user_id_lem u first named = (
    owned db (text_cell id) ts us t_there u_there,
    add_user_id-owned (rw (first_user, first) named)
        (any-In _ us u (min_by-In _ us u first) (rw named (eq_refl id))),
    get-owned db (text_cell id) ts us t_there u_there,
    has_relation-owned db (text_cell id) ts us t_there u_there,
  )

-- With tokens but without a user, nobody can own them: the column cannot be made NOT NULL, and the
-- revision fails.
pub add_user_id_fails :
    (db : Database) (t : Row) (ts : List Row)
    → get "api_tokens" db ≡ some (with_rows (t ∷ ts) Initial.api_tokens)
    → get "users" db ≡ some Initial.users
    → perform_all add_user_id db ≡ none
unfolding perform_all perform alter any all is_null first_user min_by
add_user_id_fails db t ts t_there u_there =
    filled_first db null_cell (t ∷ ts) [] t_there u_there refl
    ∙ rw
        (
          get-t2 db null_cell (t ∷ ts) [] t_there u_there "api_tokens",
          cell-insert "user_id" "user_id" null_cell t,
        )
        refl
