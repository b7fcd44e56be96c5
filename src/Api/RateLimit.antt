-- ===== src/Api/RateLimit.antt =====
-- `_check_login_rate` of app/api/auth.py: five attempts for each address in 60 seconds. The lock
-- makes the calls follow one another. Times are in microseconds.
pub mod Window
use wol_monkey.Common.{
  ℕ, suc, ◌+◌, ◌*◌, String, Bool, true, false, not, Option, none, some, List, [], ◌∷◌, ◌++◌, ltb,
  leb, length, select, if◌then◌else◌,
}
use wol_monkey.Common.Dict.{lookup, insert}
use wol_monkey.Host.{Host}
use wol_monkey.World.{World}
use wol_monkey.Exec.{Exec, Result, pure, raise, second, ◌>>=◌, ◌>>◌, http}

abbrev pub login_window : ℕ
login_window = 60 * second

abbrev pub login_max_attempts : ℕ
login_max_attempts = 5

-- `now - t < _LOGIN_WINDOW`
abbrev pub in_window : ℕ → ℕ → Bool
in_window now t = ltb now (t + login_window)

-- What is kept of a bucket, and whether the attempt is admitted.
unfoldable pub check_bucket : ℕ → List ℕ → List ℕ × Bool
check_bucket now timestamps =
    let recent = select (in_window now) timestamps in
    if leb login_max_attempts (length recent) then (recent, false) else (recent ++ now ∷ [], true)

abbrev or_empty : Option (List ℕ) → List ℕ
or_empty none = []
or_empty (some xs) = xs

unfoldable pub verdict : Bool → Exec (Unit {0})
verdict true = pure tt
verdict false = raise (http 429) "Too many login attempts — please wait before trying again."

module _ (h : Host) where
  unfoldable pub monotonic : Exec ℕ
  monotonic w = (Result.ok (h.monotonic w.calls + w.slept), record w { calls = suc w.calls })

  unfoldable pub visit : String → ℕ → Exec Bool
  visit ip now w =
      let (bucket, admitted) = check_bucket now (or_empty (lookup ip w.buckets)) in
      (Result.ok admitted, record w { buckets = insert ip bucket w.buckets })

  unfoldable pub check_login_rate : String → Exec (Unit {0})
  unfolding verdict monotonic visit
  check_login_rate ip = do now ← monotonic; admitted ← visit ip now; verdict admitted
