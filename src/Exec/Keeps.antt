-- ===== src/Exec/Keeps.antt =====
-- Actions that keep a property of the world, whether they return or raise.
use mathlib.Core.Path.{subst}
use wol_monkey.Common.{ℕ, sym, String, Option, none, some}
use wol_monkey.Host.{Host}
use wol_monkey.World.{World}
use wol_monkey.Exec.{
  Exec, Kind, Error, Result, ok, err, pure, raise, catch, continue, handle, as_uuid, uuid_or_raise,
  ◌>>=◌,
}
use wol_monkey.Exec.Reads.{Reads}

pub record Keeps (P : World → Type 0) {A : Type 0} (m : Exec A) : Type 0 where
  pub at : (w : World) → P w → P (m w).1

module _ (P : World → Type 0) {A : Type 0} where
  pub Keeps-pure : (a : A) → Keeps P (pure a)
  Keeps-pure a = record { at = λ w p. p }

  pub Keeps-raise : (k : Kind) (s : String) → Keeps P (raise {A = A} k s)
  Keeps-raise k s = record { at = λ w p. p }

  -- The property does not ask how many calls have been made.
  pub Keeps-Reads :
      (m : Exec A) → ((w : World) (n : ℕ) → P w → P (record w { calls = n })) → Reads m → Keeps P m
  Keeps-Reads m uncounted r = record {
    at = λ w p. let (n, e) = r.at w in subst P (sym e) (uncounted w n p);
  }

  handle_keeps :
      (r : Result A) (f : Error → Exec A) (w : World)
      → P w
      → ((e : Error) → Keeps P (f e))
      → P (handle r f w).1
  handle_keeps (ok a) f w p k = p
  handle_keeps (err e) f w p k = (k e).at w p

  pub Keeps-catch :
      (m : Exec A) (f : Error → Exec A)
      → Keeps P m
      → ((e : Error) → Keeps P (f e))
      → Keeps P (catch m f)
  Keeps-catch m f k l = record { at = λ w p. let (r, w') = m w in handle_keeps r f w' (k.at w p) l }

module _ (P : World → Type 0) {A B : Type 0} where
  continue_keeps :
      (r : Result A) (f : A → Exec B) (w : World)
      → P w
      → ((a : A) → Keeps P (f a))
      → P (continue r f w).1
  continue_keeps (ok a) f w p k = (k a).at w p
  continue_keeps (err e) f w p k = p

  pub Keeps-bind :
      (m : Exec A) (f : A → Exec B) → Keeps P m → ((a : A) → Keeps P (f a)) → Keeps P (m >>= f)
  Keeps-bind m f k l = record {
    at = λ w p. let (r, w') = m w in continue_keeps r f w' (k.at w p) l;
  }

module _ (P : World → Type 0) (h : Host) where
  pub Keeps-as_uuid : (s : String) → Keeps P (as_uuid h s)
  Keeps-as_uuid s = go (h.canonical s)
    where
      go : (o : Option String) → Keeps P (uuid_or_raise h o)
      go none = record { at = λ w p. p }
      go (some key) = record { at = λ w p. p }

pub ruleset keeps_rules = (Keeps-pure, Keeps-raise, Keeps-catch, Keeps-bind, Keeps-as_uuid)
