-- ===== src/Exec/Reads.antt =====
-- Actions that change nothing but the number of calls made, one rule for each way to build one.
use wol_monkey.Common.{
  ℕ, suc, ◌≡◌, refl, ◌∙◌, ap, String, Bool, true, false, Option, none, some, List, [], ◌∷◌,
}
use wol_monkey.Host.{Host}
use wol_monkey.World.{World, Db}
use wol_monkey.Exec.{
  Exec, Kind, Error, Result, ok, err, pure, raise, query, guard, call, now, catch, continue, handle,
  one_or_none, ◌>>=◌,
}

-- The second world is the first, but for the number of calls.
abbrev pub Same : World → World → Type 0
Same w w' = (n : ℕ) × (w' ≡ record w { calls = n })

pub record Reads {A : Type 0} (m : Exec A) : Type 0 where
  pub at : (w : World) → Same w (m w).1

Same-trans : (u v w : World) → Same u v → Same v w → Same u w
Same-trans u v w (n, e) (k, f) = (k, f ∙ ap {A = World} {B = World} (λ x. record x { calls = k }) e)

module _ {A : Type 0} where
  pub Reads-pure : (a : A) → Reads (pure a)
  Reads-pure a = record { at = λ w. (w.calls, refl) }

  pub Reads-raise : (k : Kind) (s : String) → Reads (raise {A = A} k s)
  Reads-raise k s = record { at = λ w. (w.calls, refl) }

  pub Reads-query : (f : Db → A) → Reads (query f)
  Reads-query f = record { at = λ w. (w.calls, refl) }

  pub Reads-one_or_none : (xs : List A) → Reads (one_or_none xs)
  Reads-one_or_none [] = record { at = λ w. (w.calls, refl) }
  Reads-one_or_none (x ∷ []) = record { at = λ w. (w.calls, refl) }
  Reads-one_or_none (x ∷ y ∷ xs) = record { at = λ w. (w.calls, refl) }

module _ {A : Type 0} where
  -- What a repository reads by an id, if the id is one.
  pub Reads-keyed :
      (o : Option String) (f : String → Db → A) (a : A)
      → Reads (elim o [ none ↦ pure a | some key ↦ query (f key) ])
  Reads-keyed none f a = record { at = λ w. (w.calls, refl) }
  Reads-keyed (some key) f a = record { at = λ w. (w.calls, refl) }

pub Reads-guard : (b : Bool) (k : Kind) (s : String) → Reads (guard b k s)
Reads-guard true k s = record { at = λ w. (w.calls, refl) }
Reads-guard false k s = record { at = λ w. (w.calls, refl) }

pub Reads-call : Reads call
Reads-call = record { at = λ w. (suc w.calls, refl) }

pub Reads-now : (h : Host) → Reads (now h)
Reads-now h = record { at = λ w. (suc w.calls, refl) }

module _ {A B : Type 0} where
  continue_reads :
      (r : Result A) (f : A → Exec B) (w : World)
      → ((a : A) → Reads (f a))
      → Same w (continue r f w).1
  continue_reads (ok a) f w k = (k a).at w
  continue_reads (err e) f w k = (w.calls, refl)

  pub Reads-bind :
      (m : Exec A) (f : A → Exec B) → Reads m → ((a : A) → Reads (f a)) → Reads (m >>= f)
  Reads-bind m f k l = record {
    at = λ w.
        let (r, w') = m w in Same-trans w w' (continue r f w').1 (k.at w) (continue_reads r f w' l);
  }

module _ {A : Type 0} where
  handle_reads :
      (r : Result A) (f : Error → Exec A) (w : World)
      → ((e : Error) → Reads (f e))
      → Same w (handle r f w).1
  handle_reads (ok a) f w k = (w.calls, refl)
  handle_reads (err e) f w k = (k e).at w

  pub Reads-catch :
      (m : Exec A) (f : Error → Exec A) → Reads m → ((e : Error) → Reads (f e)) → Reads (catch m f)
  Reads-catch m f k l = record {
    at = λ w.
        let (r, w') = m w in Same-trans w w' (handle r f w').1 (k.at w) (handle_reads r f w' l);
  }

pub ruleset reads_rules = (
  Reads-pure, Reads-raise, Reads-query, Reads-one_or_none, Reads-guard, Reads-call, Reads-now,
  Reads-bind, Reads-catch,
)

module _ {A B : Type 0} where
  continue-ok :
      (r : Result A) (f : A → Exec B) (w : World) (b : B)
      → (continue r f w).0 ≡ ok b
      → (a : A) × (r ≡ ok a) × ((f a w).0 ≡ ok b) × ((continue r f w).1 ≡ (f a w).1)
  continue-ok (ok a) f w b e = (a, refl, e, refl)
  continue-ok (err x) f w b e = cc

  -- What is known of two actions in a row that return.
  pub bind-ok :
      (m : Exec A) (f : A → Exec B) (w : World) (b : B)
      → ((m >>= f) w).0 ≡ ok b
      → (a : A) × ((m w).0 ≡ ok a) × ((f a (m w).1).0 ≡ ok b) × (((m >>= f) w).1 ≡ (f a (m w).1).1)
  bind-ok m f w b e = continue-ok (m w).0 f (m w).1 b e

module _ {A : Type 0} where
  pub Reads-db : (m : Exec A) (w : World) → Reads m → (m w).1.db ≡ w.db
  Reads-db m w r = ap (λ x. x.db) (r.at w).1

  pub Reads-saved : (m : Exec A) (w : World) → Reads m → (m w).1.saved ≡ w.saved
  Reads-saved m w r = ap (λ x. x.saved) (r.at w).1
