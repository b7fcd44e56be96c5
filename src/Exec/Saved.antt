-- ===== src/Exec/Saved.antt =====
-- Actions that leave alone what is committed, one rule for each way to build an action; and what a
-- session makes of them.
use wol_monkey.Common.{
  ℕ, ◌≡◌, refl, ◌∙◌, String, Bool, true, false, Option, none, some, List, [], ◌∷◌,
}
use wol_monkey.Host.{Host}
use wol_monkey.World.{World, Db}
use wol_monkey.Exec.{
  Exec, Kind, Error, Result, ok, err, pure, raise, query, modify, guard, call, now, sleep, catch,
  continue, handle, as_uuid, uuid_or_raise, one_or_none, with_session, close, ◌>>=◌,
}

pub record KeepsSaved {A : Type 0} (m : Exec A) : Type 0 where
  pub at : (w : World) → (m w).1.saved ≡ w.saved

module _ {A : Type 0} where
  pub KeepsSaved-pure : (a : A) → KeepsSaved (pure a)
  KeepsSaved-pure a = record { at = λ w. refl }

  pub KeepsSaved-raise : (k : Kind) (s : String) → KeepsSaved (raise {A = A} k s)
  KeepsSaved-raise k s = record { at = λ w. refl }

  pub KeepsSaved-query : (f : Db → A) → KeepsSaved (query f)
  KeepsSaved-query f = record { at = λ w. refl }

  pub KeepsSaved-one_or_none : (xs : List A) → KeepsSaved (one_or_none xs)
  KeepsSaved-one_or_none [] = record { at = λ w. refl }
  KeepsSaved-one_or_none (x ∷ []) = record { at = λ w. refl }
  KeepsSaved-one_or_none (x ∷ y ∷ xs) = record { at = λ w. refl }

pub KeepsSaved-modify : (f : Db → Db) → KeepsSaved (modify f)
KeepsSaved-modify f = record { at = λ w. refl }

pub KeepsSaved-guard : (b : Bool) (k : Kind) (s : String) → KeepsSaved (guard b k s)
KeepsSaved-guard true k s = record { at = λ w. refl }
KeepsSaved-guard false k s = record { at = λ w. refl }

pub KeepsSaved-call : KeepsSaved call
KeepsSaved-call = record { at = λ w. refl }

pub KeepsSaved-now : (h : Host) → KeepsSaved (now h)
KeepsSaved-now h = record { at = λ w. refl }

pub KeepsSaved-sleep : (h : Host) (d : ℕ) → KeepsSaved (sleep h d)
KeepsSaved-sleep h d = record { at = λ w. refl }

pub KeepsSaved-as_uuid : (h : Host) (s : String) → KeepsSaved (as_uuid h s)
KeepsSaved-as_uuid h s = record { at = λ w. go (h.canonical s) w }
  where
    go : (o : Option String) (w : World) → (uuid_or_raise h o w).1.saved ≡ w.saved
    go none w = refl
    go (some c) w = refl

module _ {A B : Type 0} where
  continue_keeps :
      (r : Result A) (f : A → Exec B) (w : World)
      → ((a : A) → KeepsSaved (f a))
      → (continue r f w).1.saved ≡ w.saved
  continue_keeps (ok a) f w k = (k a).at w
  continue_keeps (err e) f w k = refl

  pub KeepsSaved-bind :
      (m : Exec A) (f : A → Exec B)
      → KeepsSaved m
      → ((a : A) → KeepsSaved (f a))
      → KeepsSaved (m >>= f)
  KeepsSaved-bind m f k l = record {
    at = λ w. let (r, w') = m w in continue_keeps r f w' l ∙ k.at w;
  }

module _ {A : Type 0} where
  handle_keeps :
      (r : Result A) (f : Error → Exec A) (w : World)
      → ((e : Error) → KeepsSaved (f e))
      → (handle r f w).1.saved ≡ w.saved
  handle_keeps (ok a) f w k = refl
  handle_keeps (err e) f w k = (k e).at w

  pub KeepsSaved-catch :
      (m : Exec A) (f : Error → Exec A)
      → KeepsSaved m
      → ((e : Error) → KeepsSaved (f e))
      → KeepsSaved (catch m f)
  KeepsSaved-catch m f k l = record {
    at = λ w. let (r, w') = m w in handle_keeps r f w' l ∙ k.at w;
  }

  close-err :
      (r : Result A) (w : World) (e : Error)
      → (close r w).0 ≡ err e
      → ((close r w).1.db ≡ w.saved) × ((close r w).1.saved ≡ w.saved)
  close-err (ok a) w e h = cc
  close-err (err x) w e h = (refl, refl)

  -- A request that raises is rolled back: its session and the committed tables are as before.
  pub with_session-err :
      (m : Exec A) (w : World) (e : Error)
      → KeepsSaved m
      → (with_session m w).0 ≡ err e
      → ((with_session m w).1.db ≡ w.saved) × ((with_session m w).1.saved ≡ w.saved)
  unfolding with_session
  with_session-err m w e k h =
      let (r, w') = m (record w { db = w.saved }) in
      let rolled = close-err r w' e h in
      let same = k.at (record w { db = w.saved }) in (rolled.0 ∙ same, rolled.1 ∙ same)

pub ruleset saved_rules = (
  KeepsSaved-pure, KeepsSaved-raise, KeepsSaved-query, KeepsSaved-one_or_none, KeepsSaved-modify,
  KeepsSaved-guard, KeepsSaved-call, KeepsSaved-now, KeepsSaved-sleep, KeepsSaved-as_uuid,
  KeepsSaved-bind, KeepsSaved-catch,
)
