-- ===== src/Services/Setup.antt =====
-- SetupStateService of app/services/setup_state.py.
pub mod Laws
use wol_monkey.Common.{
  ℕ, zero, suc, String, Bool, true, false, Option, none, some, List, [], ◌∷◌, ◌==◌, if◌then◌else◌,
}
use wol_monkey.Common.Dict.{insert, pop}
use wol_monkey.Domain.Records.{SetupState, Dict}
use wol_monkey.Host.{Host}
use wol_monkey.Exec.{Exec, pure, ◌>>=◌}
use wol_monkey.Persistence.Setup
use wol_monkey.Persistence.Setup.{Progress}

abbrev pub wizard_steps : List String
wizard_steps = "welcome" ∷ "admin_account" ∷ "network" ∷ "first_machine" ∷ "complete" ∷ []

-- `xs[i]`, without negative indices; `none` where it raises IndexError.
abbrev pub item : List String → ℕ → Option String
item [] i = none
item (x ∷ xs) zero = some x
item (x ∷ xs) (suc i) = item xs i

abbrev next_index : Option ℕ → Option ℕ
next_index none = none
next_index (some i) = some (suc i)

-- `xs.index(x)`; `none` where it raises ValueError.
unfoldable pub index : List String → String → Option ℕ
index [] x = none
index (y ∷ ys) x = if y == x then some zero else next_index (index ys x)

abbrev or_same : Option String → String → String
or_same none s = s
or_same (some t) s = t

abbrev after_index : Option ℕ → Option String
after_index none = none
after_index (some i) = item wizard_steps (suc i)

-- The step after this one; the step itself if there is none, or if it is unknown.
unfoldable pub next_step : String → String
next_step step = or_same (after_index (index wizard_steps step)) step

-- `step == WIZARD_STEPS[-1]`
abbrev pub is_last : String → Bool
is_last step = "complete" == step

unfoldable pub advanced : String → Dict Bool → Progress
advanced step done =
    if is_last step
    then record { completed = true; current_step = step; completed_steps = insert step true done }
    else record {
      completed = false;
      current_step = next_step step;
      completed_steps = insert step true done;
    }

-- What going back from a step does: `none` if the step is unknown or the first, and nothing is
-- written; or the previous step.
abbrev before_index : Option ℕ → Option String
before_index none = none
before_index (some zero) = none
before_index (some (suc i)) = item wizard_steps i

unfoldable pub previous_step : String → Option String
previous_step step = before_index (index wizard_steps step)

module _ (h : Host) where
  unfoldable pub is_complete : Exec Bool
  is_complete = do record_ ← Setup.get h; pure record_.completed

  -- `get_state`; the dictionary has the record's fields but its id and date.
  unfoldable pub get_state : Exec Progress
  get_state = do
    state ← Setup.get h
    pure (record {
      completed = state.completed;
      current_step = state.current_step;
      completed_steps = state.completed_steps;
    })

  unfoldable pub advance : String → Exec (Unit {0})
  advance step = do
    state ← Setup.get h
    updated ← Setup.update h (advanced step state.completed_steps)
    pure tt

  unfoldable pub retreat : String → Option String → SetupState → Exec String
  retreat from_step none state = pure from_step
  retreat from_step (some prev) state = do
    updated ← Setup.update h (record {
      completed = false;
      current_step = prev;
      completed_steps = pop prev (pop from_step state.completed_steps);
    })
    pure prev

  -- An unknown step is returned as it is, and so is the first, which is WIZARD_STEPS[0].
  unfoldable pub go_back : String → Exec String
  unfolding retreat
  go_back from_step = do state ← Setup.get h; retreat from_step (previous_step from_step) state

  unfoldable pub reset : Exec (Unit {0})
  reset = do updated ← Setup.update h (Setup.defaults h); pure tt
