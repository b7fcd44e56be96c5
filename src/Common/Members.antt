-- ===== src/Common/Members.antt =====
-- Which rows stand in a list: after a selection or an update, and among them the one with the least
-- key.
use Prim.Native.Nat.{ℕ, ◌≤◌, ◌<◌, compare, Ordering}
use mathlib.Core.Path.{◌≡◌, refl, sym, ap, ◌∙◌, subst}
use mathlib.Core.Bool.{Bool, true, false, cond}
use mathlib.Core.Option.{Option, none, some, some-injective}
use mathlib.Core.List.{List, [], ◌∷◌, ◌++◌}
use mathlib.Core.Logic.{◌⊎◌, inl, inr}
use native.Mathlib.Omega.{arith}
use wol_monkey.Common.Lists.{select, any, update_where}

abbrev before : ℕ → ℕ → Bool
before a b = elim (compare a b) [ Ordering.lt ↦ true | _ ↦ false ]

-- The value stands in the list.
abbrev pub In {ℓ} : {A : Type ℓ} → A → List A → Type ℓ
In x [] = Unit × ⊥
In x (y ∷ ys) = (y ≡ x) ⊎ In x ys

module _ {ℓ} {A : Type ℓ} where
  -- The first row with the least key, and the first with the greatest.
  min_from : (A → ℕ) → A → List A → A
  min_from key best [] = best
  min_from key best (x ∷ xs) = min_from key (cond (before (key x) (key best)) x best) xs

  max_from : (A → ℕ) → A → List A → A
  max_from key best [] = best
  max_from key best (x ∷ xs) = max_from key (cond (before (key best) (key x)) x best) xs

  unfoldable pub min_by : (A → ℕ) → List A → Option A
  unfolding min_from
  min_by key [] = none
  min_by key (x ∷ xs) = some (min_from key x xs)

  unfoldable pub max_by : (A → ℕ) → List A → Option A
  unfolding max_from
  max_by key [] = none
  max_by key (x ∷ xs) = some (max_from key x xs)

module _ {ℓ} {A : Type ℓ} where
  select_cons-In :
      (p : A → Bool) (y : A) (xs : List A) (x : A) (b : Bool)
      → p y ≡ b
      → In x (cond b (y ∷ select p xs) (select p xs))
      → (In x (select p xs) → In x xs × (p x ≡ true))
      → In x (y ∷ xs) × (p x ≡ true)
  select_cons-In p y xs x true e (inl same) ih = (inl same, ap p (sym same) ∙ e)
  select_cons-In p y xs x true e (inr later) ih = (inr (ih later).0, (ih later).1)
  select_cons-In p y xs x false e later ih = (inr (ih later).0, (ih later).1)

  -- A row that is selected stands in the table and passes the test; and conversely.
  pub In-select : (p : A → Bool) (xs : List A) (x : A) → In x (select p xs) → In x xs × (p x ≡ true)
  unfolding select
  In-select p [] x m = absurd m.1
  In-select p (y ∷ xs) x m = select_cons-In p y xs x (p y) refl m (In-select p xs x)

  In-cons_select : (b : Bool) (y : A) (zs : List A) (x : A) → In x zs → In x (cond b (y ∷ zs) zs)
  In-cons_select true y zs x m = inr m
  In-cons_select false y zs x m = m

  pub select-In : (p : A → Bool) (xs : List A) (x : A) → In x xs → p x ≡ true → In x (select p xs)
  unfolding select
  select-In p [] x m k = absurd m.1
  select-In p (y ∷ xs) x (inl same) k = rw (ap p same ∙ k) (inl same)
  select-In p (y ∷ xs) x (inr later) k =
      In-cons_select (p y) y (select p xs) x (select-In p xs x later k)

  min_from-In :
      (key : A → ℕ) (best : A) (xs : List A)
      → (min_from key best xs ≡ best) ⊎ In (min_from key best xs) xs
  unfolding min_from
  min_from-In key best [] = inl refl
  min_from-In key best (x ∷ xs) =
      min_step_in key best x xs (before (key x) (key best)) (min_from-In key x xs)
        (min_from-In key best xs)
    where
      min_step_in :
          (key : A → ℕ) (best x : A) (xs : List A) (b : Bool)
          → (min_from key x xs ≡ x) ⊎ In (min_from key x xs) xs
          → (min_from key best xs ≡ best) ⊎ In (min_from key best xs) xs
          → (min_from key (cond b x best) xs ≡ best) ⊎ In (min_from key (cond b x best) xs) (x ∷ xs)
      min_step_in key best x xs true (inl e) n = inr (inl (sym e))
      min_step_in key best x xs true (inr m) n = inr (inr m)
      min_step_in key best x xs false m (inl e) = inl e
      min_step_in key best x xs false m (inr n) = inr (inr n)

  min_from_le_best : (key : A → ℕ) (best : A) (xs : List A) → key (min_from key best xs) ≤ key best
  unfolding min_from
  min_from_le_best key best [] = omega arith
  min_from_le_best key best (x ∷ xs) =
      ground (arith, min_from_le_best key x xs, min_from_le_best key best xs)

  min_from_le :
      (key : A → ℕ) (best y : A) (xs : List A) → In y xs → key (min_from key best xs) ≤ key y
  unfolding min_from
  min_from_le key best y [] m = absurd m.1
  min_from_le key best y (x ∷ xs) (inl same) =
      subst (λ z. key (min_from key (cond (before (key x) (key best)) x best) xs) ≤ key z) same
        (ground (arith, min_from_le_best key x xs, min_from_le_best key best xs))
  min_from_le key best y (x ∷ xs) (inr later) =
      min_from_le key (cond (before (key x) (key best)) x best) y xs later

  pub min_by-In : (key : A → ℕ) (xs : List A) (x : A) → min_by key xs ≡ some x → In x xs
  unfolding min_by
  min_by-In key [] x h = cc
  min_by-In key (y ∷ ys) x h = elim (min_from-In key y ys) [
    | inl e ↦ inl (sym e ∙ some-injective _ _ h)
    | inr m ↦ inr (subst (λ z. In z ys) (some-injective _ _ h) m)
  ]

  pub min_by_le :
      (key : A → ℕ) (xs : List A) (x y : A) → min_by key xs ≡ some x → In y xs → key x ≤ key y
  unfolding min_by
  min_by_le key [] x y h m = absurd m.1
  min_by_le key (z ∷ zs) x y h m = subst (λ v. key v ≤ key y) (some-injective _ _ h) (least y zs m)
    where
      least : (y : A) (zs : List A) → In y (z ∷ zs) → key (min_from key z zs) ≤ key y
      least y zs (inl same) =
          subst (λ v. key (min_from key z zs) ≤ key v) same (min_from_le_best key z zs)
      least y zs (inr later) = min_from_le key z y zs later

  pub In-append : (xs : List A) (y x : A) → In x (xs ++ y ∷ []) → (x ≡ y) ⊎ In x xs
  In-append [] y x (inl e) = inl (sym e)
  In-append [] y x (inr m) = absurd m.1
  In-append (z ∷ xs) y x (inl e) = inr (inl e)
  In-append (z ∷ xs) y x (inr m) = elim (In-append xs y x m) [ inl e ↦ inl e | inr n ↦ inr (inr n) ]

  -- After every row that passes has been replaced by one row.
  pub In-replaced :
      (p : A → Bool) (y : A) (xs : List A) (x : A)
      → In x (update_where p (λ z. y) xs)
      → (x ≡ y) ⊎ In x xs
  unfolding update_where
  In-replaced p y [] x m = absurd m.1
  In-replaced p y (z ∷ xs) x (inr m) = elim (In-replaced p y xs x m) [
    | inl e ↦ inl e
    | inr n ↦ inr (inr n)
  ]
  In-replaced p y (z ∷ xs) x (inl e) = head (p z) e
    where
      head : (b : Bool) → cond b y z ≡ x → (x ≡ y) ⊎ In x (z ∷ xs)
      head true e = inl (sym e)
      head false e = inr (inl e)

  pub not-In : (p : A → Bool) (xs : List A) (x : A) → any p xs ≡ false → In x xs → p x ≡ false
  unfolding any
  not-In p [] x h m = absurd m.1
  not-In p (y ∷ xs) x h (inl e) = subst (λ z. p z ≡ false) e (ground arith)
  not-In p (y ∷ xs) x h (inr m) = not-In p xs x (ground arith) m

  -- A row of an updated table is the image of a row that passes, or an old row that does not.
  pub In-update_where :
      (p : A → Bool) (f : A → A) (xs : List A) (y : A)
      → In y (update_where p f xs)
      → ((x : A) × (p x ≡ true) × (f x ≡ y)) ⊎ (p y ≡ false)
  unfolding update_where
  In-update_where p f [] y m = absurd m.1
  In-update_where p f (x ∷ xs) y (inr m) = In-update_where p f xs y m
  In-update_where p f (x ∷ xs) y (inl e) = head (p x) refl e
    where
      head :
          (b : Bool)
          → p x ≡ b
          → cond b (f x) x ≡ y
          → ((z : A) × (p z ≡ true) × (f z ≡ y)) ⊎ (p y ≡ false)
      head true passes e = inl (x, passes, e)
      head false fails e = inr (ap p (sym e) ∙ fails)

  max_from_last :
      (key : A → ℕ) (best : A) (xs : List A) (y : A)
      → key best < key y
      → ((x : A) → In x xs → key x < key y)
      → max_from key best (xs ++ y ∷ []) ≡ y
  unfolding max_from
  max_from_last key best [] y h later = ground arith
  max_from_last key best (x ∷ xs) y h later = ground (
    arith,
    later x (inl refl),
    max_from_last key x xs y (later x (inl refl)) (λ z m. later z (inr m)),
    max_from_last key best xs y h (λ z m. later z (inr m)),
  )

  -- A row with a greater key than all rows before it.
  pub max_by_last :
      (key : A → ℕ) (xs : List A) (y : A)
      → ((x : A) → In x xs → key x < key y)
      → max_by key (xs ++ y ∷ []) ≡ some y
  unfolding max_by max_from
  max_by_last key [] y later = refl
  max_by_last key (x ∷ xs) y later =
      ap some (max_from_last key x xs y (later x (inl refl)) (λ z m. later z (inr m)))
