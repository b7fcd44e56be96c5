-- ===== src/Domain/Attempt.antt =====
-- app/domain/wake_attempt.py: the status of a wake attempt and its transition table.
pub mod Laws
use wol_monkey.Common.{Bool, true, false, List, [], ◌∷◌, ◌||◌}

pub data AttemptStatus : Type 0 where
  pending sent waking online failed timeout : AttemptStatus

abbrev pub same_status : AttemptStatus → AttemptStatus → Bool
same_status pending pending = true
same_status sent sent = true
same_status waking waking = true
same_status online online = true
same_status failed failed = true
same_status timeout timeout = true
same_status _ _ = false

-- `s in (…)` and `s in {…}`
abbrev pub contains : AttemptStatus → List AttemptStatus → Bool
contains s [] = false
contains s (t ∷ ts) = same_status s t || contains s ts

pub transitions : AttemptStatus → List AttemptStatus
transitions pending = sent ∷ failed ∷ []
transitions sent = waking ∷ online ∷ failed ∷ timeout ∷ []
transitions waking = online ∷ failed ∷ timeout ∷ []
transitions online = []
transitions failed = []
transitions timeout = []

unfoldable pub can_transition_to : AttemptStatus → AttemptStatus → Bool
unfolding transitions
can_transition_to s next = contains next (transitions s)

unfoldable pub is_terminal : AttemptStatus → Bool
is_terminal s = contains s (online ∷ failed ∷ timeout ∷ [])
