-- ===== src/Common/Text/Number.antt =====
-- `int(text, base)` for the bases 10 and 16, over ASCII digits: blanks around, a sign, single
-- underscores between digits, and the prefix 0x for base 16.
use Prim.Native.Char.{code}
use wol_monkey.Common.Text.{within, strip}
use Prim.Native.Nat.{ℕ, zero, suc, ◌+◌, ◌-◌, ◌*◌, compare, Ordering}
use Prim.Native.String.{String}
use mathlib.Core.Path.{◌≡◌, refl}
use mathlib.Core.Bool.{Bool, true, false, ◌&&◌, ◌||◌, cond}
use mathlib.Core.Option.{Option, none, some}
use text.Mathlib.Text.{◌==◌}

-- `negsuc n` is -(n + 1).
pub data ℤ : Type 0 where
  pos : ℕ → ℤ
  negsuc : ℕ → ℤ

abbrev below : ℕ → ℕ → Bool
below a b = elim (compare a b) [ Ordering.lt ↦ true | _ ↦ false ]

-- The value of a digit, if the base has it.
abbrev in_base : ℕ → ℕ → Option ℕ
in_base base d = cond (below d base) (some d) none

unfoldable pub digit_value : ℕ → ℕ → Option ℕ
digit_value base c = cond (within 48 57 c) (in_base base (c - 48)) (
    cond (within 97 102 c) (in_base base (c - 87))
      (cond (within 65 70 c) (in_base base (c - 55)) none))

-- The digits that are left; the flag tells that a digit stands just before, after which the text may
-- end, or go on behind one underscore.
unfoldable pub digits_from : ℕ → Bool → ℕ → String → Option ℕ
unfolding digit_value
digits_from base after_digit n String.[] = cond after_digit (some n) none
digits_from base after_digit n (String.◌∷◌ c s) =
    let skipped = digits_from base false n s in
    let next = λ (d : ℕ). digits_from base true (n * base + d) s in
    cond (after_digit && within 95 95 (code c)) skipped
      (elim (digit_value base (code c)) [ none ↦ none | some d ↦ next d ])

-- Behind the prefix 0x an underscore may stand before the first digit.
unfoldable pub hex_digits : String → Option ℕ
unfolding digits_from
hex_digits (String.◌∷◌ z (String.◌∷◌ x s)) =
    let prefixed = digits_from 16 true 0 s in
    let plain = digits_from 16 false 0 (String.◌∷◌ z (String.◌∷◌ x s)) in
    cond (within 48 48 (code z) && (within 120 120 (code x) || within 88 88 (code x)))
      (cond (s == "") none prefixed) plain
hex_digits s = digits_from 16 false 0 s

abbrev negated : ℕ → ℤ
negated zero = pos 0
negated (suc n) = negsuc n

abbrev with_sign : Bool → Option ℕ → Option ℤ
with_sign negative none = none
with_sign true (some n) = some (negated n)
with_sign false (some n) = some (pos n)

unfoldable pub signed : (String → Option ℕ) → String → Option ℤ
signed read String.[] = with_sign false (read "")
signed read (String.◌∷◌ c s) = cond (within 45 45 (code c)) (with_sign true (read s)) (
    cond (within 43 43 (code c)) (with_sign false (read s))
      (with_sign false (read (String.◌∷◌ c s))))

unfoldable pub parse_int : String → Option ℤ
unfolding digits_from signed
parse_int s = signed (digits_from 10 false 0) (strip s)

unfoldable pub parse_hex : String → Option ℤ
unfolding hex_digits signed
parse_hex s = signed hex_digits (strip s)

test_int :
    (parse_int " 1_000 " ≡ some (pos 1000))
    × (parse_int "-2" ≡ some (negsuc 1))
    × (parse_int "1__0" ≡ none)
    × (parse_int "" ≡ none)
    × (parse_hex "0xFf" ≡ some (pos 255))
    × (parse_hex "0100A8C0" ≡ some (pos 16820416))
unfolding parse_int parse_hex strip
test_int = (refl, refl, refl, refl, refl, refl)
