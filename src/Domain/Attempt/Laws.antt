-- ===== src/Domain/Attempt/Laws.antt =====
-- The life of a wake attempt, as its transition table allows it.
use wol_monkey.Common.{ℕ, zero, suc, ◌+◌, ◌≤◌, ◌<◌, ◌≡◌, ◌↔◌, true, false, arith}
use wol_monkey.Domain.Attempt.{
  AttemptStatus, pending, sent, waking, failed, can_transition_to, is_terminal,
}

-- `Lives s n t`: n allowed transitions lead from s to t.
pub data Lives : AttemptStatus → ℕ → AttemptStatus → Type 0 where
  here : {s : AttemptStatus} → Lives s zero s
  step :
      {s t u : AttemptStatus} {n : ℕ}
      → can_transition_to s t ≡ true
      → Lives t n u
      → Lives s (suc n) u

-- How many transitions can still come.
abbrev pub left : AttemptStatus → ℕ
left pending = 3
left sent = 2
left waking = 1
left _ = 0

left_falls : (s t : AttemptStatus) → can_transition_to s t ≡ true → left t < left s
unfolding can_transition_to
left_falls s t h = ground arith

-- No run of allowed transitions is longer than its start permits: three steps from pending, two
-- from sent, one from waking, none from online, failed and timeout.
pub Lives-bounded : {s t : AttemptStatus} {n : ℕ} → Lives s n t → n + left t ≤ left s
Lives-bounded here = omega arith
Lives-bounded (step {s = s} {t = t} h r) = omega (arith, left_falls s t h, Lives-bounded r)

stuck : (s t : AttemptStatus) → is_terminal s ≡ true → can_transition_to s t ≡ false
unfolding is_terminal can_transition_to
stuck s t h = ground arith

moves : (s : AttemptStatus) → is_terminal s ≡ false → can_transition_to s failed ≡ true
unfolding is_terminal can_transition_to
moves s h = ground arith

-- A status is terminal exactly when the table allows no transition out of it.
pub is_terminal_iff :
    (s : AttemptStatus)
    → (is_terminal s ≡ true) ↔ ((t : AttemptStatus) → can_transition_to s t ≡ false)
unfolding is_terminal can_transition_to
is_terminal_iff s = (λ h t. stuck s t h, λ all. ground (arith, all failed))
