-- ===== src/Infra/Packet/Laws.antt =====
-- Magic packets of MAC addresses in the usual spellings.
use wol_monkey.Common.{
  ℕ, ◌+◌, ◌*◌, ◌<◌, ◌≡◌, refl, ap, ◌∙◌, Bool, false, none, some, List, [], ◌∷◌, ◌++◌, map, ltb,
  length, select, All, arith, if◌then◌else◌,
}
use wol_monkey.Infra.Packet.{
  same_code, is_separator, upper, is_blank, hex_digit, from_hex, repeat, clean, build_magic_packet,
}

-- A byte as its two hexadecimal digits.
abbrev pub Byte : Type 0
Byte = ℕ × ℕ

abbrev pub byte_value : Byte → ℕ
byte_value (hi, lo) = hi * 16 + lo

abbrev pub IsByte : Byte → Type 0
IsByte (hi, lo) = (hi < 16) × (lo < 16)

-- The character of a digit, in lower or upper case.
unfoldable pub digit : Bool → ℕ → ℕ
digit low d = if ltb d 10 then 48 + d else if low then 87 + d else 55 + d

-- The address, each byte followed by a separator but the last.
unfoldable pub spell : Bool → List ℕ → List Byte → List ℕ
spell low sep [] = []
spell low sep ((hi, lo) ∷ []) = digit low hi ∷ digit low lo ∷ []
spell low sep ((hi, lo) ∷ b ∷ bs) =
    let rest = spell low sep (b ∷ bs) in digit low hi ∷ digit low lo ∷ (sep ++ rest)

-- The digits alone, in upper case.
abbrev digits : List Byte → List ℕ
digits [] = []
digits ((hi, lo) ∷ bs) = digit false hi ∷ digit false lo ∷ digits bs

-- A separator is nothing, a colon or a dash.
pub data IsSeparator : List ℕ → Type 0 where
  bare : IsSeparator []
  colon : IsSeparator (58 ∷ [])
  dash : IsSeparator (45 ∷ [])

upper-digit : (low : Bool) (d : ℕ) → d < 16 → upper (digit low d) ≡ digit false d
unfolding upper digit
upper-digit low d h = ground arith

digit_kept : (low : Bool) (d : ℕ) → d < 16 → is_separator (digit low d) ≡ false
unfolding is_separator digit
digit_kept low d h = ground arith

hex_digit-digit : (d : ℕ) → d < 16 → hex_digit (digit false d) ≡ some d
unfolding hex_digit digit
hex_digit-digit d h = ground arith

digit_not_blank : (d : ℕ) → d < 16 → is_blank (digit false d) ≡ false
unfolding is_blank digit
digit_not_blank d h = ground arith

clean-digit :
    (low : Bool) (d : ℕ) (xs : List ℕ)
    → d < 16
    → clean (digit low d ∷ xs) ≡ digit false d ∷ clean xs
unfolding clean select
clean-digit low d xs h = rw (digit_kept low d h) (rw (upper-digit low d h) refl)

clean_separator : (sep xs : List ℕ) → IsSeparator sep → clean (sep ++ xs) ≡ clean xs
unfolding clean select is_separator
clean_separator _ xs bare = refl
clean_separator _ xs colon = refl
clean_separator _ xs dash = refl

clean-spell :
    (low : Bool) (sep : List ℕ) (bs : List Byte)
    → IsSeparator sep
    → All IsByte bs
    → clean (spell low sep bs) ≡ digits bs
unfolding spell clean select
clean-spell low sep [] s h = refl
clean-spell low sep ((hi, lo) ∷ []) s ((p, q), h) =
    clean-digit low hi (digit low lo ∷ []) p
    ∙ ap (λ x. digit false hi ∷ x)
        (clean-digit low lo [] q ∙ ap (λ x. digit false lo ∷ x) (clean-spell low sep [] s tt))
clean-spell low sep ((hi, lo) ∷ b ∷ bs) s ((p, q), h) =
    clean-digit low hi (digit low lo ∷ (sep ++ spell low sep (b ∷ bs))) p
    ∙ ap (λ x. digit false hi ∷ x)
        (clean-digit low lo (sep ++ spell low sep (b ∷ bs)) q
          ∙ ap (λ x. digit false lo ∷ x)
              (clean_separator sep (spell low sep (b ∷ bs)) s ∙ clean-spell low sep (b ∷ bs) s h))

from_hex-digits : (bs : List Byte) → All IsByte bs → from_hex (digits bs) ≡ some (map byte_value bs)
unfolding from_hex
from_hex-digits [] h = refl
from_hex-digits ((hi, lo) ∷ bs) ((p, q), h) =
    rw (digit_not_blank hi p)
      (rw (from_hex-digits bs h) (rw (hex_digit-digit hi p) (rw (hex_digit-digit lo q) refl)))

length-digits : (bs : List Byte) → length (digits bs) ≡ length bs + length bs
length-digits [] = refl
length-digits ((hi, lo) ∷ bs) = omega (arith, length-digits bs)

-- Six bytes written in hexadecimal digits of either case, with a colon, a dash or nothing between
-- them, make the packet of six bytes 255 and the address 16 times; any other number of bytes makes
-- none.
pub build_magic_packet-spell :
    (low : Bool) (sep : List ℕ) (bs : List Byte)
    → IsSeparator sep
    → All IsByte bs
    → build_magic_packet (spell low sep bs) ≡ (
        if same_code (length bs) 6
        then some (repeat 6 (255 ∷ []) ++ repeat 16 (map byte_value bs))
        else none)
unfolding build_magic_packet
build_magic_packet-spell low sep bs s h =
    rw (clean-spell low sep bs s h)
      (rw (from_hex-digits bs h) (rw (length-digits bs) (ground arith)))
