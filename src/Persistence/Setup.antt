-- ===== src/Persistence/Setup.antt =====
-- SqlSetupStateRepository: the table has one row, with id 1.
use wol_monkey.Common.{String, Bool, false, Option, none, some, []}
use wol_monkey.Domain.Records.{SetupState, Dict}
use wol_monkey.Host.{Host}
use wol_monkey.Exec.{Exec, pure, query, modify, now, ◌>>=◌, ◌>>◌}

-- The keyword arguments that the service gives to `update`.
pub record Progress : Type 0 where
  pub completed : Bool
  pub current_step : String
  pub completed_steps : Dict Bool

module _ (h : Host) where
  unfoldable pub put : Progress → Exec SetupState
  put p = do
    at ← now h
    let row : SetupState = record {
      completed = p.completed;
      current_step = p.current_step;
      completed_steps = p.completed_steps;
      updated_at = at;
    }
    modify (λ db. record db { setup = some row })
    pure row

  -- The defaults of the columns.
  abbrev pub defaults : Progress
  defaults = record { completed = false; current_step = "welcome"; completed_steps = [] }

  unfoldable pub get_or_create : Option SetupState → Exec SetupState
  get_or_create none = put defaults
  get_or_create (some row) = pure row

  -- A row that is missing is created.
  unfoldable pub get : Exec SetupState
  unfolding get_or_create put
  get = do row ← query (λ db. db.setup); get_or_create row

  -- All columns but the id are given, so a new row and a changed row are written alike.
  unfoldable pub update : Progress → Exec SetupState
  unfolding put
  update p = put p
