-- ===== src/Exec.antt =====
-- Python's coroutines: an action takes the world, and returns or raises. What was written before
-- an exception stays written, until a rollback.
pub mod Saved
pub mod Reads
pub mod Keeps
use wol_monkey.Common.{
  ℕ, ◌+◌, ◌*◌, ◌≡◌, refl, String, Bool, true, false, Option, none, some, suc, List, [], ◌∷◌,
}
use wol_monkey.Host.{Host}
use wol_monkey.World.{World, Db}

-- The exception classes that the program tells apart. `http` carries the status code of an
-- HTTPException.
pub data Kind : Type 0 where
  authentication wake_error value_error runtime_error : Kind
  integrity_error data_error multiple_results other : Kind
  http : ℕ → Kind

pub record Error : Type 0 where
  pub kind : Kind
  pub detail : String

pub data Result (A : Type 0) : Type 0 where
  ok : A → Result A
  err : Error → Result A

abbrev pub Exec : Type 0 → Type 0
Exec A = World → Result A × World

module _ {A : Type 0} where
  abbrev pub pure : A → Exec A
  pure a w = (ok a, w)

  abbrev pub raise : Kind → String → Exec A
  raise k s w = (err (record { kind = k; detail = s }), w)

  abbrev pub query : (Db → A) → Exec A
  query f w = (ok (f w.db), w)

module _ {A B : Type 0} where
  abbrev pub continue : Result A → (A → Exec B) → Exec B
  continue (ok a) f w = f a w
  continue (err e) f w = (err e, w)

  infixl 5 ◌>>=◌
  abbrev pub ◌>>=◌ : Exec A → (A → Exec B) → Exec B
  ◌>>=◌ m f w = let (r, w') = m w in continue r f w'

module _ {B : Type 0} where
  infixl 5 ◌>>◌
  abbrev pub ◌>>◌ : Exec (Unit {0}) → Exec B → Exec B
  m >> k = m >>= λ _. k

module _ {A : Type 0} where
  abbrev pub handle : Result A → (Error → Exec A) → Exec A
  handle (ok a) f w = (ok a, w)
  handle (err e) f w = f e w

  -- `try: m` with a handler for every exception.
  abbrev pub catch : Exec A → (Error → Exec A) → Exec A
  catch m f w = let (r, w') = m w in handle r f w'

abbrev pub modify : (Db → Db) → Exec (Unit {0})
modify f w = (ok tt, record w { db = f w.db })

-- `if not b: raise …`
abbrev pub guard : Bool → Kind → String → Exec (Unit {0})
guard true k s = pure tt
guard false k s = raise k s

module _ {A : Type 0} where
  -- `scalar_one_or_none` over the rows that a statement selects.
  abbrev pub one_or_none : List A → Exec (Option A)
  one_or_none [] = pure none
  one_or_none (x ∷ []) = pure (some x)
  one_or_none (x ∷ y ∷ xs) = raise multiple_results "Multiple rows were found"

-- A call to the outside: its number.
abbrev pub call : Exec ℕ
call w = (ok w.calls, record w { calls = suc w.calls })

-- `await session.commit()` and `await session.rollback()`
abbrev pub commit : Exec (Unit {0})
commit w = (ok tt, record w { saved = w.db })

abbrev pub rollback : Exec (Unit {0})
rollback w = (ok tt, record w { db = w.saved })

module _ {A : Type 0} where
  abbrev pub close : Result A → Exec A
  close (ok a) w = (ok a, record w { saved = w.db })
  close (err e) w = (err e, record w { db = w.saved })

  -- `get_db_session` around a request: a session opens on what is committed; commit if the request
  -- returns, else rollback and raise again.
  unfoldable pub with_session : Exec A → Exec A
  with_session m w = let (r, w') = m (record w { db = w.saved }) in close r w'

abbrev pub second : ℕ
second = 1000000

module _ (h : Host) where
  -- `datetime.now(UTC)`, in microseconds.
  abbrev pub now : Exec ℕ
  now w = (ok (h.clock w.calls + w.slept), record w { calls = suc w.calls })

  abbrev pub sleep : ℕ → Exec (Unit {0})
  sleep d w = (ok tt, record w { slept = w.slept + d })

  abbrev uuid_or_raise : Option String → Exec String
  uuid_or_raise none = raise data_error "invalid UUID"
  uuid_or_raise (some c) = pure c

  -- A text that the driver encodes for a UUID column.
  abbrev pub as_uuid : String → Exec String
  as_uuid s = uuid_or_raise (h.canonical s)
