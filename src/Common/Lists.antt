-- ===== src/Common/Lists.antt =====
-- Lists of rows: search, selection and update by a Boolean test, over native numbers.
use Prim.Native.Nat.{ℕ, suc, ◌+◌, ◌≤◌}
use mathlib.Core.Path.{◌≡◌, refl, ap}
use mathlib.Core.Bool.{Bool, true, false, ◌&&◌, ◌||◌}
use mathlib.Core.Bool.{cond}
use mathlib.Core.Option.{Option, none, some}
use mathlib.Core.List.{List, [], ◌∷◌, ◌++◌}
use native.Mathlib.Omega.{arith}

abbrev pub All {ℓ κ} : {A : Type ℓ} → (A → Type κ) → List A → Type κ
All P [] = Unit
All P (x ∷ xs) = P x × All P xs

module _ {ℓ} {A : Type ℓ} where
  abbrev pub length : List A → ℕ
  length [] = 0
  length (x ∷ xs) = suc (length xs)

  pub length-append : (xs ys : List A) → length (xs ++ ys) ≡ length xs + length ys
  length-append [] ys = omega arith
  length-append (x ∷ xs) ys = omega (arith, length-append xs ys)

  -- The rows that pass the test, in their order.
  unfoldable pub select : (A → Bool) → List A → List A
  select p [] = []
  select p (x ∷ xs) = let rest = select p xs in cond (p x) (x ∷ rest) rest

  -- The first row that passes the test.
  unfoldable pub find : (A → Bool) → List A → Option A
  find p [] = none
  find p (x ∷ xs) = cond (p x) (some x) (find p xs)

  unfoldable pub any : (A → Bool) → List A → Bool
  any p [] = false
  any p (x ∷ xs) = p x || any p xs

  -- Every row that passes the test is replaced by its image.
  unfoldable pub update_where : (A → Bool) → (A → A) → List A → List A
  update_where p f [] = []
  update_where p f (x ∷ xs) = cond (p x) (f x) x ∷ update_where p f xs

module _ {ℓ} {A : Type ℓ} where
  pub select-append :
      (p : A → Bool) (xs ys : List A) → select p (xs ++ ys) ≡ select p xs ++ select p ys
  unfolding select
  select-append p [] ys = refl
  select-append p (x ∷ xs) ys = ground (arith, select-append p xs ys)

  pub length-select : (p : A → Bool) (xs : List A) → length (select p xs) ≤ length xs
  unfolding select
  length-select p [] = omega arith
  length-select p (x ∷ xs) = ground (arith, length-select p xs)

  pub any-append : (p : A → Bool) (xs ys : List A) → any p (xs ++ ys) ≡ (any p xs || any p ys)
  unfolding any
  any-append p [] ys = refl
  any-append p (x ∷ xs) ys = ground (arith, any-append p xs ys)

  -- A row that passes the test and stands last.
  pub any_last : (p : A → Bool) (xs : List A) (x : A) → p x ≡ true → any p (xs ++ x ∷ []) ≡ true
  unfolding any
  any_last p [] x h = ground arith
  any_last p (y ∷ xs) x h = ground (arith, any_last p xs x)

  pub length-update_where :
      (p : A → Bool) (f : A → A) (xs : List A) → length (update_where p f xs) ≡ length xs
  unfolding update_where
  length-update_where p f [] = refl
  length-update_where p f (x ∷ xs) = ground (arith, length-update_where p f xs)

  -- An update that hits only the last row.
  pub update_where_last :
      (p : A → Bool) (f : A → A) (xs : List A) (x : A)
      → any p xs ≡ false
      → p x ≡ true
      → update_where p f (xs ++ x ∷ []) ≡ xs ++ f x ∷ []
  unfolding update_where any
  update_where_last p f [] x h k = ground arith
  update_where_last p f (y ∷ xs) x h k = ground (arith, update_where_last p f xs x)

  pub update_where_none :
      (p : A → Bool) (f : A → A) (xs : List A) → any p xs ≡ false → update_where p f xs ≡ xs
  unfolding update_where any
  update_where_none p f [] h = refl
  update_where_none p f (y ∷ xs) h = ground (arith, update_where_none p f xs)

  pub update_where-append :
      (p : A → Bool) (f : A → A) (xs ys : List A)
      → update_where p f (xs ++ ys) ≡ update_where p f xs ++ update_where p f ys
  unfolding update_where
  update_where-append p f [] ys = refl
  update_where-append p f (x ∷ xs) ys =
      ap (λ zs. cond (p x) (f x) x ∷ zs) (update_where-append p f xs ys)

  -- A test that the update does not change.
  pub any-update_where :
      (p q : A → Bool) (f : A → A) (xs : List A)
      → ((x : A) → p (f x) ≡ p x)
      → any p (update_where q f xs) ≡ any p xs
  unfolding update_where any
  any-update_where p q f [] h = refl
  any-update_where p q f (y ∷ xs) h = ground (arith, h y, any-update_where p q f xs h)

  pub select_none :
      (p q : A → Bool) (xs : List A) → any p xs ≡ false → select (λ x. p x && q x) xs ≡ []
  unfolding select any
  select_none p q [] h = refl
  select_none p q (y ∷ xs) h = ground (arith, select_none p q xs)

  -- The row that stands last is the only one that passes.
  pub select_last :
      (p q : A → Bool) (xs : List A) (x : A)
      → any p xs ≡ false
      → select (λ y. p y && q y) (xs ++ x ∷ []) ≡ cond (p x && q x) (x ∷ []) []
  unfolding select any
  select_last p q [] x h = refl
  select_last p q (y ∷ xs) x h = ground (arith, select_last p q xs x)

  -- The first row that passes, where none passed before it.
  pub find_last :
      (p : A → Bool) (xs : List A) (x : A)
      → any p xs ≡ false
      → p x ≡ true
      → find p (xs ++ x ∷ []) ≡ some x
  unfolding find any
  find_last p [] x h k = ground arith
  find_last p (y ∷ xs) x h k = ground (arith, find_last p xs x)

  -- An update that the search's test does not see.
  pub find-update_where :
      (p : A → Bool) (f : A → A) (xs : List A) (x : A)
      → ((y : A) → p (f y) ≡ p y)
      → find p xs ≡ some x
      → find p (update_where p f xs) ≡ some (f x)
  unfolding find update_where
  find-update_where p f [] x k h = cc
  find-update_where p f (y ∷ xs) x k h = ground (arith, k y, find-update_where p f xs x k)

  pub any_of_find : (p : A → Bool) (xs : List A) (x : A) → find p xs ≡ some x → any p xs ≡ true
  unfolding find any
  any_of_find p [] x h = cc
  any_of_find p (y ∷ xs) x h = ground (arith, any_of_find p xs x)

  pub find_passes : (p : A → Bool) (xs : List A) (x : A) → find p xs ≡ some x → p x ≡ true
  unfolding find
  find_passes p [] x h = cc
  find_passes p (y ∷ xs) x h = ground (arith, find_passes p xs x)

  pub find_append :
      (p : A → Bool) (xs ys : List A) (x : A) → find p xs ≡ some x → find p (xs ++ ys) ≡ some x
  unfolding find
  find_append p [] ys x h = cc
  find_append p (y ∷ xs) ys x h = ground (arith, find_append p xs ys x)
