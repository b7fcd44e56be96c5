-- ===== src/Migrations/Head.antt =====
-- The history beside the models: migrations/versions from the first revision to the last, on a
-- database that may hold other tables, and app/persistence/models.py.
use wol_monkey.Common.{
  arith, ◌≡◌, refl, String, false, none, some, List, [], ◌∷◌, ◌++◌, map, All, In, any, update_where,
  select,
}
use wol_monkey.Migrations.Schema.{Row, Table, with_rows, checks_pass, all}
use wol_monkey.Migrations.Database.{
  Database, get, put, alter, remove, has_relation, is_referenced, points_to, perform, perform_all,
  run_statement,
}
use wol_monkey.Migrations.Initial
use wol_monkey.Migrations.Models.{metadata}
use wol_monkey.Migrations.Revisions.{upgrade_head}

-- The tables and the indexes that the revisions create.
abbrev pub relations : List String
relations =
    "api_tokens" ∷ "audit_events" ∷ "ix_audit_events_created" ∷ "machines" ∷ "settings"
    ∷ "setup_state" ∷ "users" ∷ "probe_results" ∷ "ix_probe_results_machine_observed" ∷ "sessions"
    ∷ "ix_sessions_user_expires" ∷ "wake_attempts" ∷ "ix_wake_attempts_machine_started"
    ∷ "wake_jobs" ∷ "ix_wake_jobs_status_created" ∷ "ix_api_tokens_machine_id" ∷ []

-- No table and no index of the database has one of these names, and no foreign key points to one.
abbrev pub IsFresh : Database → Type 0
IsFresh db =
    All (λ name. (has_relation name db ≡ false) × (is_referenced name db ≡ false)) relations

abbrev pub added : Database
unfolding perform_all
added = elim (perform_all upgrade_head []) [ none ↦ [] | some db ↦ db ]

pub upgrade_head-added :
    (db : Database) → IsFresh db → perform_all upgrade_head db ≡ some (added ++ db)
unfolding perform perform_all has_relation alter get put run_statement any checks_pass all
    update_where select
upgrade_head-added db
      (a, (b, (c, (d, (e, (f, (g, (h, (i, (j, (k, (l, (m, (n, (o, (p, q)))))))))))))))) =
    rw (a.0, b.0, c.0, d.0, e.0, f.0, g.0, h.0, i.0, j.0, k.0, l.0, m.0, n.0, o.0, p.0) refl

-- The tables of the first revision.
abbrev pub initial : Database
unfolding perform_all
initial = elim (perform_all Initial.upgrade []) [ none ↦ [] | some db ↦ db ]

-- The same tables, with these rows.
abbrev pub filled : (String → List Row) → Database → Database
filled rows db = map (λ t. with_rows (rows t.name) t) db

-- In a database where none of these names is taken, the first revision's upgrade adds its tables; and
-- its downgrade, whatever rows they hold by then, gives back the database as it was: each table is
-- dropped after its index and after the tables that point to it.
pub upgrade-downgrade :
    (db : Database) (rows : String → List Row)
    → IsFresh db
    → (perform_all Initial.upgrade db ≡ some (initial ++ db))
      × (perform_all Initial.downgrade (filled rows initial ++ db) ≡ some db)
unfolding perform perform_all has_relation is_referenced remove alter get put any select points_to
upgrade-downgrade db rows
      (a, (b, (c, (d, (e, (f, (g, (h, (i, (j, (k, (l, (m, (n, (o, (p, q)))))))))))))))) =
    (
      rw (a.0, b.0, c.0, d.0, e.0, f.0, g.0, h.0, i.0, j.0, k.0, l.0, m.0, n.0, o.0) refl,
      rw (n.1, l.1, j.1, h.1, g.1, f.1, e.1, d.1, b.1, a.1) refl,
    )

abbrev pub Same {ℓ} : {A : Type ℓ} → List A → List A → Type ℓ
Same xs ys = All (λ x. In x ys) xs × All (λ y. In y xs) ys

-- The same columns, constraints and indexes, in any order.
pub record SameTable (t u : Table) : Type 0 where
  pub columns : Same t.columns u.columns
  pub constraints : Same t.constraints u.constraints
  pub indexes : Same t.indexes u.indexes

abbrev pub Declares : Database → Table → Type 0
Declares db t = (u : Table) × (get t.name db ≡ some u) × SameTable t u

metadata-added : All (Declares added) metadata
unfolding added get perform perform_all has_relation any alter put run_statement checks_pass all
    update_where select
metadata-added = (
  (_, refl, ground arith),
  (
    (_, refl, ground arith),
    (
      (_, refl, ground arith),
      (
        (_, refl, ground arith),
        (
          (_, refl, ground arith),
          (
            (_, refl, ground arith),
            (
              (_, refl, ground arith),
              ((_, refl, ground arith), ((_, refl, ground arith), ((_, refl, ground arith), tt))),
            ),
          ),
        ),
      ),
    ),
  ),
)

added-metadata : All (Declares metadata) added
unfolding added get perform perform_all has_relation any alter put run_statement checks_pass all
    update_where select
added-metadata = (
  (_, refl, ground arith),
  (
    (_, refl, ground arith),
    (
      (_, refl, ground arith),
      (
        (_, refl, ground arith),
        (
          (_, refl, ground arith),
          (
            (_, refl, ground arith),
            (
              (_, refl, ground arith),
              ((_, refl, ground arith), ((_, refl, ground arith), ((_, refl, ground arith), tt))),
            ),
          ),
        ),
      ),
    ),
  ),
)

-- In a database where none of these names is taken, the four revisions succeed. They add tables and
-- leave the others as they are; and the tables that they add are those that the models declare, with
-- the same columns (their types, their nullability and their server defaults), constraints and indexes.
pub upgrade_head-metadata :
    (db : Database)
    → IsFresh db
    → (new : Database) × (perform_all upgrade_head db ≡ some (new ++ db))
      × All (Declares new) metadata
      × All (Declares metadata) new
upgrade_head-metadata db fresh =
    (added, upgrade_head-added db fresh, metadata-added, added-metadata)
