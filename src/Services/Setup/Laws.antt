-- ===== src/Services/Setup/Laws.antt =====
-- The progress of the wizard.
use wol_monkey.Common.{
  ℕ, zero, suc, String, ◌≡◌, refl, sym, inl, inr, Bool, true, false, Option, none, some, List, [],
  ◌∷◌, eq_iff, is_some, Option-cases, Bool-cases,
}
use mathlib.Core.Option.{some-injective}
use mathlib.Core.Path.{subst}
use wol_monkey.Common.Dict.{pop}
use wol_monkey.Domain.Records.{SetupState, Dict}
use wol_monkey.Host.{Host}
use wol_monkey.World.{World}
use wol_monkey.Exec.{ok}
use wol_monkey.Persistence.Setup
use wol_monkey.Persistence.Setup.{Progress, put, get_or_create}
use wol_monkey.Services.Setup.{
  wizard_steps, item, index, is_last, next_step, advanced, previous_step, is_complete, get_state,
  advance, go_back, reset, or_same, after_index, before_index,
}

abbrev row_progress : SetupState → Progress
row_progress r = record {
  completed = r.completed;
  current_step = r.current_step;
  completed_steps = r.completed_steps;
}

abbrev shown_row : Option SetupState → Progress
shown_row none = record { completed = false; current_step = "welcome"; completed_steps = [] }
shown_row (some r) = row_progress r

-- What the wizard shows: the row, or the defaults where there is none yet.
abbrev pub shown : World → Progress
shown w = shown_row w.db.setup

abbrev retreated : String → Option String → Progress → Progress
retreated step none p = p
retreated step (some prev) p = record {
  completed = false;
  current_step = prev;
  completed_steps = pop prev (pop step p.completed_steps);
}

abbrev or_step : Option String → String → String
or_step none s = s
or_step (some t) s = t

module _ (h : Host) where
  -- Advancing never fails. It marks the step as done, keeps what was done, and shows the next step;
  -- the wizard is complete afterwards exactly if the step was the last.
  pub advance_lem :
      (step : String) (w : World)
      → ((advance h step w).0 ≡ ok tt)
        × (shown (advance h step w).1 ≡ advanced step (shown w).completed_steps)
  unfolding advance Setup.get Setup.update
  advance_lem step w = elim (Option-cases w.db.setup) [
    | inl e ↦ rw (e, advance) (refl, refl)
    | inr (r, e) ↦ rw (e, advance) (refl, refl)
  ]

  pub get_state_lem :
      (w : World) → ((get_state h w).0 ≡ ok (shown w)) × (shown (get_state h w).1 ≡ shown w)
  unfolding get_state Setup.get
  get_state_lem w = elim (Option-cases w.db.setup) [
    | inl e ↦ rw (e, get_state) (refl, refl)
    | inr (r, e) ↦ rw (e, get_state) (refl, refl)
  ]

  pub is_complete_lem :
      (w : World)
      → ((is_complete h w).0 ≡ ok (shown w).completed) × (shown (is_complete h w).1 ≡ shown w)
  unfolding is_complete Setup.get
  is_complete_lem w = elim (Option-cases w.db.setup) [
    | inl e ↦ rw (e, is_complete) (refl, refl)
    | inr (r, e) ↦ rw (e, is_complete) (refl, refl)
  ]

  pub reset_lem :
      (w : World)
      → shown (reset h w).1
        ≡ record { completed = false; current_step = "welcome"; completed_steps = [] }
  unfolding reset Setup.update
  reset_lem w = refl

  -- Going back never fails. From an unknown step, or from the first, nothing changes and the step
  -- itself is returned; else the step before it is returned and shown, and both are undone.
  pub go_back_lem :
      (step : String) (w : World)
      → ((go_back h step w).0 ≡ ok (or_step (previous_step step) step))
        × (shown (go_back h step w).1 ≡ retreated step (previous_step step) (shown w))
  unfolding go_back Setup.get Setup.update
  go_back_lem step w = elim (Option-cases (previous_step step)) [
    | inl n ↦ elim (Option-cases w.db.setup) [
      | inl e ↦ rw (n, go_back) (rw (e, go_back) (refl, refl))
      | inr (r, e) ↦ rw (n, go_back) (rw (e, go_back) (refl, refl))
    ]
    | inr (p, n) ↦ elim (Option-cases w.db.setup) [
      | inl e ↦ rw (n, go_back) (rw (e, go_back) (refl, refl))
      | inr (r, e) ↦ rw (n, go_back) (rw (e, go_back) (refl, refl))
    ]
  ]

-- What the program does to the wizard: the handlers advance from known steps, and go back from any
-- text that stands in a URL.
pub data Move : Type 0 where
  forward : (step : String) → is_some (index wizard_steps step) ≡ true → Move
  back : String → Move
  restart : Move

unfoldable pub moved : Host → Move → World → World
moved h (forward step known) w = (advance h step w).1
moved h (back step) w = (go_back h step w).1
moved h restart w = (reset h w).1

unfoldable pub moves : Host → List Move → World → World
moves h [] w = w
moves h (m ∷ ms) w = moves h ms (moved h m w)

-- The step that is shown is one of the wizard's, and a completed wizard shows the last.
pub record IsSound (p : Progress) : Type 0 where
  pub known : is_some (index wizard_steps p.current_step) ≡ true
  pub completed_last : p.completed ≡ true → p.current_step ≡ "complete"

item_known :
    (i : ℕ) (s : String) → item wizard_steps i ≡ some s → is_some (index wizard_steps s) ≡ true
unfolding index
item_known zero s h = subst (λ t. is_some (index wizard_steps t) ≡ true) (some-injective _ _ h) refl
item_known (suc zero) s h =
    subst (λ t. is_some (index wizard_steps t) ≡ true) (some-injective _ _ h) refl
item_known (suc (suc zero)) s h =
    subst (λ t. is_some (index wizard_steps t) ≡ true) (some-injective _ _ h) refl
item_known (suc (suc (suc zero))) s h =
    subst (λ t. is_some (index wizard_steps t) ≡ true) (some-injective _ _ h) refl
item_known (suc (suc (suc (suc zero)))) s h =
    subst (λ t. is_some (index wizard_steps t) ≡ true) (some-injective _ _ h) refl
item_known (suc (suc (suc (suc (suc i))))) s h = cc

or_same_known :
    (o : Option String) (step : String)
    → ((s : String) → o ≡ some s → is_some (index wizard_steps s) ≡ true)
    → is_some (index wizard_steps step) ≡ true
    → is_some (index wizard_steps (or_same o step)) ≡ true
or_same_known none step h k = k
or_same_known (some s) step h k = h s refl

after_known :
    (o : Option ℕ) (s : String) → after_index o ≡ some s → is_some (index wizard_steps s) ≡ true
after_known none s h = cc
after_known (some i) s h = item_known (suc i) s h

next_known :
    (step : String)
    → is_some (index wizard_steps step) ≡ true
    → is_some (index wizard_steps (next_step step)) ≡ true
unfolding next_step
next_known step h =
    or_same_known (after_index (index wizard_steps step)) step
      (after_known (index wizard_steps step)) h

before_known :
    (o : Option ℕ) (s : String) → before_index o ≡ some s → is_some (index wizard_steps s) ≡ true
before_known none s h = cc
before_known (some zero) s h = cc
before_known (some (suc i)) s h = item_known i s h

previous_known :
    (step prev : String) → previous_step step ≡ some prev → is_some (index wizard_steps prev) ≡ true
unfolding previous_step
previous_known step prev h = before_known (index wizard_steps step) prev h

advanced-IsSound :
    (step : String) (d : Dict Bool)
    → is_some (index wizard_steps step) ≡ true
    → IsSound (advanced step d)
unfolding advanced
advanced-IsSound step d h = elim (Bool-cases (is_last step)) [
  | inl last ↦ rw last (record { known = h; completed_last = λ _. sym ((eq_iff _ step).0 last) })
  | inr other ↦ rw other (record { known = next_known step h; completed_last = λ e. cc })
]

retreated-IsSound :
    (step : String) (o : Option String) (p : Progress)
    → ((s : String) → o ≡ some s → is_some (index wizard_steps s) ≡ true)
    → IsSound p
    → IsSound (retreated step o p)
retreated-IsSound step none p k s = s
retreated-IsSound step (some prev) p k s = record { known = k prev refl; completed_last = λ e. cc }

moved-IsSound :
    (h : Host) (m : Move) (w : World) → IsSound (shown w) → IsSound (shown (moved h m w))
unfolding moved
moved-IsSound h (forward step known) w s =
    rw ((advance_lem h step w).1) (advanced-IsSound step (shown w).completed_steps known)
moved-IsSound h (back step) w s =
    rw ((go_back_lem h step w).1)
      (retreated-IsSound step (previous_step step) (shown w) (previous_known step) s)
moved-IsSound h restart w s =
    rw (reset_lem h w) (record { known = unfold index in refl; completed_last = λ e. cc })

-- After any sequence of advances from known steps, of going back from any texts and of resets, the
-- wizard shows one of its steps, and shows the last one if it is completed.
pub moves-IsSound :
    (h : Host) (ms : List Move) (w : World) → IsSound (shown w) → IsSound (shown (moves h ms w))
unfolding moves
moves-IsSound h [] w s = s
moves-IsSound h (m ∷ ms) w s = moves-IsSound h ms (moved h m w) (moved-IsSound h m w s)
