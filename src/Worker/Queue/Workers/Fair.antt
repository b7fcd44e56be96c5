-- ===== src/Worker/Queue/Workers/Fair.antt =====
-- What locking a row and committing its claim keep true.
use mathlib.Core.Path.{subst}
use mathlib.Core.Bool.{false≢true, cond}
use mathlib.Core.Option.{some-injective}
use wol_monkey.Common.{
  ℕ, String, ◌≡◌, ◌≢◌, refl, sym, ap, ◌∙◌, Bool, true, false, not, ◌&&◌, Option, some, List, [],
  ◌∷◌, ◌==◌, leb, any, find, select, update_where, min_by, min_by-In, In, In-select, not-In,
  Bool-cases, Option-cases, eq_iff, eq_refl, arith, ◌⊎◌, inl, inr,
}
use wol_monkey.Domain.Records.{Job}
use wol_monkey.Worker.Queue.{is_queued, start}
use wol_monkey.Worker.Queue.Workers.{
  Shared, is_worker, is_locked, was_given, lock_row, lock_next, commit_row, commit_claim,
}

-- Each job stands in the list of given jobs at most once.
abbrev pub Once : List (ℕ × String) → Type 0
Once [] = Unit
Once (g ∷ gs) = (was_given g.1 gs ≡ false) × Once gs

pub record IsFair (s : Shared) : Type 0 where
  -- A locked row has not been given to anyone; one row has one worker.
  pub unclaimed : (p : ℕ × Job) → In p s.locks → was_given p.1.id s.given ≡ false
  pub apart : (p q : ℕ × Job) → In p s.locks → In q s.locks → p.1.id ≡ q.1.id → p.0 ≡ q.0
  -- A job that has been given is not queued.
  pub started : (r : Job) → In r s.jobs → was_given r.id s.given ≡ true → is_queued r ≡ false
  pub once : Once s.given

pub updated-In :
    (p : Job → Bool) (f : Job → Job) (rows : List Job) (y : Job)
    → In y (update_where p f rows)
    → ((x : Job) × (f x ≡ y)) ⊎ (In y rows × (p y ≡ false))
unfolding update_where
updated-In p f [] y m = absurd m.1
updated-In p f (x ∷ xs) y (inl same) = head (p x) refl same
  where
    head :
        (b : Bool)
        → p x ≡ b
        → cond b (f x) x ≡ y
        → ((z : Job) × (f z ≡ y)) ⊎ (In y (x ∷ xs) × (p y ≡ false))
    head true e same = inl (x, same)
    head false e same = inr (inl same, ap p (sym same) ∙ e)
updated-In p f (x ∷ xs) y (inr later) = elim (updated-In p f xs y later) [
  | inl changed ↦ inl changed
  | inr (there, kept) ↦ inr (inr there, kept)
]

given_later :
    (id j : String) (k : ℕ) (gs : List (ℕ × String))
    → (j == id) ≡ false
    → was_given id ((k, j) ∷ gs) ≡ was_given id gs
unfolding any
given_later id j k gs e = rw e refl

eq_sym : (i j : String) → (i == j) ≡ false → (j == i) ≡ false
eq_sym i j e = ground (arith, eq_iff i j, eq_iff j i)

other_worker : (k n : ℕ) → not (leb k n && leb n k) ≡ true → n ≢ k
other_worker k n e same = ground arith

and_true : (a b : Bool) → (a && not b) ≡ true → (a ≡ true) × (b ≡ false)
and_true a b e = ground arith

same_worker : (k n : ℕ) → (leb k n && leb n k) ≡ true → n ≡ k
same_worker k n e = ground arith

-- A row that is queued has been given to no one.
queued_ungiven :
    (s : Shared) (r : Job)
    → IsFair s
    → In r s.jobs
    → is_queued r ≡ true
    → was_given r.id s.given ≡ false
queued_ungiven s r f there waiting = elim (Bool-cases (was_given r.id s.given)) [
  | inr e ↦ e
  | inl e ↦ absurd (false≢true (sym (f.started r there e) ∙ waiting))
]

locked-IsFair :
    (k : ℕ) (s : Shared) (j : Job)
    → IsFair s
    → was_given j.id s.given ≡ false
    → is_locked s.locks j ≡ false
    → IsFair (record s { locks = (k, j) ∷ s.locks })
locked-IsFair k s j f ungiven free = record {
  unclaimed = λ p m. elim m [
    | inl e ↦ subst (λ x. was_given x.1.id s.given ≡ false) e ungiven
    | inr there ↦ f.unclaimed p there
  ];
  apart = λ p q m n same. both p q m n same;
  started = f.started;
  once = f.once;
}
  where
    differs : (q : ℕ × Job) → In q s.locks → q.1.id ≡ j.id → ⊥
    differs q there same =
        let other = not-In (λ p. p.1.id == j.id) s.locks q free there in
        false≢true (sym other ∙ ap (λ i. i == j.id) same ∙ eq_refl j.id)

    both :
        (p q : ℕ × Job)
        → In p ((k, j) ∷ s.locks)
        → In q ((k, j) ∷ s.locks)
        → p.1.id ≡ q.1.id
        → p.0 ≡ q.0
    both p q (inl e) (inl g) same = ap (λ x. x.0) (sym e ∙ g)
    both p q (inl e) (inr n) same = absurd (differs q n (sym same ∙ ap (λ x. x.1.id) (sym e)))
    both p q (inr m) (inl g) same = absurd (differs p m (same ∙ ap (λ x. x.1.id) (sym g)))
    both p q (inr m) (inr n) same = f.apart p q m n same

pub lock-IsFair : (k : ℕ) (s : Shared) → IsFair s → IsFair (lock_next k s)
unfolding lock_next
lock-IsFair k s f = elim (Option-cases next) [
  | inl e ↦ subst (λ o. IsFair (lock_row k o s)) (sym e) f
  | inr (j, e) ↦
      let (there, free) =
        In-select (λ r. is_queued r && not (is_locked s.locks r)) s.jobs j
          (min_by-In (λ r. r.created_at) _ j e) in
      let (waiting, unlocked) = and_true (is_queued j) (is_locked s.locks j) free in
      subst (λ o. IsFair (lock_row k o s)) (sym e)
        (locked-IsFair k s j f (queued_ungiven s j f there waiting) unlocked)
]
  where
    next : Option Job
    next =
        min_by (λ r. r.created_at) (select (λ r. is_queued r && not (is_locked s.locks r)) s.jobs)

found_lock :
    (k : ℕ) (locks : List (ℕ × Job)) (p : ℕ × Job)
    → find (is_worker k) locks ≡ some p
    → In p locks × (p.0 ≡ k)
unfolding find
found_lock k [] p e = cc
found_lock k (q ∷ locks) p e = first (is_worker k q) refl e (found_lock k locks p)
  where
    first :
        (b : Bool)
        → is_worker k q ≡ b
        → cond b (some q) (find (is_worker k) locks) ≡ some p
        → (find (is_worker k) locks ≡ some p → In p locks × (p.0 ≡ k))
        → In p (q ∷ locks) × (p.0 ≡ k)
    first true own e later =
        let here : q ≡ p = some-injective _ _ e in
        (inl here, ap (λ x. x.0) (sym here) ∙ same_worker k q.0 own)
    first false other e later = let (there, owner) = later e in (inr there, owner)

committed-IsFair :
    (k at : ℕ) (s : Shared) (p : ℕ × Job)
    → IsFair s
    → In p s.locks
    → p.0 ≡ k
    → IsFair (commit_row k at (some p) s)
committed-IsFair k at s p f there owner = record {
  unclaimed = λ q m.
      let (kept, other) = In-select (λ x. not (is_worker k x)) s.locks q m in
      given_later q.1.id p.1.id k s.given (elim (Bool-cases (p.1.id == q.1.id)) [
        | inr e ↦ e
        | inl e ↦
            let same : p.1.id ≡ q.1.id = ground (arith, eq_iff p.1.id q.1.id) in
            absurd (other_worker k q.0 other (sym (f.apart p q there kept same) ∙ owner))
      ])
      ∙ f.unclaimed q kept;
  apart = λ q r m n same.
      f.apart q r (In-select (λ x. not (is_worker k x)) s.locks q m).0
        (In-select (λ x. not (is_worker k x)) s.locks r n).0 same;
  started = λ r m e. elim (updated-In (λ x. x.id == p.1.id) (start at) s.jobs r m) [
    | inl (x, same) ↦ ap is_queued (sym same)
    | inr (kept, other) ↦
        f.started r kept (sym (given_later r.id p.1.id k s.given (eq_sym r.id p.1.id other)) ∙ e)
  ];
  once = (f.unclaimed p there, f.once);
}

pub commit-IsFair : (k at : ℕ) (s : Shared) → IsFair s → IsFair (commit_claim k at s)
unfolding commit_claim
commit-IsFair k at s f = elim (Option-cases (find (is_worker k) s.locks)) [
  | inl e ↦ subst (λ o. IsFair (commit_row k at o s)) (sym e) f
  | inr (p, e) ↦
      let (there, owner) = found_lock k s.locks p e in
      subst (λ o. IsFair (commit_row k at o s)) (sym e) (committed-IsFair k at s p f there owner)
]
