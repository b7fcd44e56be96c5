-- ===== src/Persistence/Links/Rows.antt =====
-- Whether a list has a row, after rows have been added, changed or taken out.
use wol_monkey.Common.{
  ◌≡◌, refl, Bool, true, false, List, [], ◌∷◌, ◌++◌, any, any-append, select, update_where, In,
  Bool-cases, ◌⊎◌, inl, inr,
}
use mathlib.Core.Bool.{cond}

module _ {A : Type 0} where
  pub any_grown : (p : A → Bool) (xs ys : List A) → any p xs ≡ true → any p (xs ++ ys) ≡ true
  any_grown p xs ys e = rw (any-append p xs ys) (rw e refl)

  pub any_updated :
      (p q : A → Bool) (f : A → A) (xs : List A)
      → ((x : A) → q x ≡ true → p (f x) ≡ p x)
      → any p (update_where q f xs) ≡ any p xs
  unfolding any update_where
  any_updated p q f [] same = refl
  any_updated p q f (x ∷ xs) same = elim (Bool-cases (q x)) [
    | inl e ↦ rw e (rw (same x e) (rw (any_updated p q f xs same) refl))
    | inr e ↦ rw e (rw (any_updated p q f xs same) refl)
  ]

  pub any_kept :
      (p q : A → Bool) (xs : List A)
      → ((x : A) → In x xs → p x ≡ true → q x ≡ true)
      → any p xs ≡ true
      → any p (select q xs) ≡ true
  unfolding any select
  any_kept p q [] keeps e = e
  any_kept p q (x ∷ xs) keeps e = elim (Bool-cases (p x)) [
    | inl here ↦ rw (keeps x (inl refl) here) (rw here refl)
    | inr other ↦
        let later = any_kept p q xs (λ y m k. keeps y (inr m) k) (rw other at e) in
        elim (Bool-cases (q x)) [ inl kept ↦ rw kept (rw other later) | inr gone ↦ rw gone later ]
  ]

  -- A row of a changed list comes from one of the list.
  pub In-changed :
      (q : A → Bool) (f : A → A) (xs : List A) (y : A)
      → In y (update_where q f xs)
      → (x : A) × In x xs × (((x ≡ y) × (q x ≡ false)) ⊎ (f x ≡ y))
  unfolding update_where
  In-changed q f [] y m = absurd m.1
  In-changed q f (x ∷ xs) y (inl same) = (x, inl refl, head (q x) refl same)
    where
      head : (b : Bool) → q x ≡ b → cond b (f x) x ≡ y → ((x ≡ y) × (q x ≡ false)) ⊎ (f x ≡ y)
      head true hit e = inr e
      head false missed e = inl (e, missed)
  In-changed q f (x ∷ xs) y (inr later) =
      let (z, there, from) = In-changed q f xs y later in (z, inr there, from)
