-- ===== src/Persistence/Links.antt =====
-- The foreign keys that name a machine or an attempt, over the methods of the repositories in one
-- session (app/persistence/models.py, app/persistence/repositories.py).
pub mod Rows
pub mod Changes
pub mod Removal
pub mod MachineRows
pub mod Laws
use wol_monkey.Common.{String, ◌≡◌, true, Bool, some, List, any, ◌==◌, In}
use wol_monkey.Domain.Records.{Attempt, Job, ApiToken}
use wol_monkey.World.{Db}

abbrev pub has_machine : String → Db → Bool
has_machine key db = any (λ m. m.id == key) db.machines

-- Every attempt and job, and every token that is bound to a machine, names a machine that is there;
-- and every job an attempt that is there.
pub record IsLinked (db : Db) : Type 0 where
  pub attempts : (a : Attempt) → In a db.attempts → has_machine a.machine_id db ≡ true
  pub jobs :
      (j : Job)
      → In j db.jobs
      → (has_machine j.machine_id db ≡ true) × (any (λ a. a.id == j.attempt_id) db.attempts ≡ true)
  pub tokens :
      (t : ApiToken) (key : String)
      → In t db.tokens
      → t.machine_id ≡ some key
      → has_machine key db ≡ true
