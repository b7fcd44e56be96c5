-- ===== src/Api/RateLimit/Window.antt =====
-- The login limiter against its specification: a sliding window over every admitted attempt.
use wol_monkey.Common.{
  ℕ, ◌≤◌, ◌≡◌, refl, ◌∙◌, inl, inr, Bool, List, [], ◌∷◌, ◌++◌, ltb, leb, length, select,
  select-append, Bool-cases, if◌then◌else◌, arith,
}
use wol_monkey.Api.RateLimit.{login_max_attempts, in_window, check_bucket}

-- The decisions on attempts from one address at the given times.
unfoldable pub decisions : List ℕ → List ℕ → List Bool
decisions bucket [] = []
decisions bucket (t ∷ ts) =
    let (bucket', admitted) = check_bucket t bucket in admitted ∷ decisions bucket' ts

-- The specification forgets nothing: an attempt is admitted if fewer than five admitted ones lie in
-- the 60 seconds before it.
unfoldable pub is_allowed : List ℕ → ℕ → Bool
is_allowed history t = ltb (length (select (in_window t) history)) login_max_attempts

unfoldable pub allowed : List ℕ → List ℕ → List Bool
allowed history [] = []
allowed history (t ∷ ts) =
    is_allowed history t ∷ allowed (if is_allowed history t then history ++ t ∷ [] else history) ts

abbrev pub Ascending : ℕ → List ℕ → Type 0
Ascending s [] = Unit
Ascending s (t ∷ ts) = (s ≤ t) × Ascending t ts

-- An attempt that has left the window does not come back into it.
select-select :
    (s t : ℕ)
    → s ≤ t
    → (xs : List ℕ) → select (in_window t) (select (in_window s) xs) ≡ select (in_window t) xs
unfolding select
select-select s t h [] = refl
select-select s t h (x ∷ xs) = ground (arith, select-select s t h xs)

-- From time s on, the bucket and the history show the same window.
abbrev Agree : ℕ → List ℕ → List ℕ → Type 0
Agree s bucket history =
    (t : ℕ) → s ≤ t → select (in_window t) bucket ≡ select (in_window t) history

Agree-step :
    (s t : ℕ) (bucket history : List ℕ)
    → Agree s bucket history
    → s ≤ t
    → Agree t (select (in_window t) bucket) history
Agree-step s t bucket history a h u k = select-select t u k bucket ∙ a u (omega arith)

Agree-append :
    (t : ℕ) (bucket history : List ℕ)
    → Agree t bucket history
    → Agree t (bucket ++ t ∷ []) (history ++ t ∷ [])
Agree-append t bucket history a u k =
    rw (select-append (in_window u) bucket (t ∷ []), select-append (in_window u) history (t ∷ []))
      (rw (a u k))

decisions-Agree :
    (s : ℕ) (bucket history ts : List ℕ)
    → Agree s bucket history
    → Ascending s ts
    → decisions bucket ts ≡ allowed history ts
unfolding decisions allowed check_bucket is_allowed
decisions-Agree s bucket history [] a h = refl
decisions-Agree s bucket history (t ∷ ts) a (h, hs) =
    let same = a t h in
    let kept = Agree-step s t bucket history a h in
    elim (Bool-cases (leb login_max_attempts (length (select (in_window t) history)))) [
      | inl full ↦
          ground (arith, same, decisions-Agree t (select (in_window t) bucket) history ts kept hs)
      | inr room ↦ ground (
        arith,
        same,
        decisions-Agree t (select (in_window t) bucket ++ t ∷ []) (history ++ t ∷ []) ts
            (Agree-append t (select (in_window t) bucket) history kept) hs,
      )
    ]

-- For attempts from one address at non-decreasing times, starting from an empty bucket, the limiter
-- that prunes its bucket decides each attempt as the specification that keeps the whole history:
-- admitted exactly when fewer than five admitted attempts lie less than 60 seconds back.
pub decisions-eq-allowed : (ts : List ℕ) → Ascending 0 ts → decisions [] ts ≡ allowed [] ts
decisions-eq-allowed ts h = decisions-Agree 0 [] [] ts (λ t k. refl) h
