-- ===== src/Infra/Packet.antt =====
-- `_build_magic_packet` of app/infra/wake_strategy.py, over code points. Only ASCII letters have
-- another upper case here: the column MACADDR, from which the text comes, holds no other.
pub mod Laws
use Prim.Native.Char.{code}
use wol_monkey.Common.{
  ℕ, zero, suc, ◌+◌, ◌-◌, ◌*◌, String, Bool, true, false, not, ◌&&◌, ◌||◌, Option, none, some, List,
  [], ◌∷◌, ◌++◌, map, leb, length, select, if◌then◌else◌,
}

abbrev pub codes : String → List ℕ
codes String.[] = []
codes (String.◌∷◌ c s) = code c ∷ codes s

abbrev pub same_code : ℕ → ℕ → Bool
same_code a b = leb a b && leb b a

-- `mac.replace(":", "").replace("-", "")`
unfoldable pub is_separator : ℕ → Bool
is_separator c = same_code c b':' || same_code c b'-'

unfoldable pub upper : ℕ → ℕ
upper c = if leb b'a' c && leb c b'z' then c - 32 else c

-- The blanks that `bytes.fromhex` skips between two bytes.
unfoldable pub is_blank : ℕ → Bool
is_blank c = same_code c 32 || (leb 9 c && leb c 13)

unfoldable pub hex_digit : ℕ → Option ℕ
hex_digit c =
    if leb b'0' c && leb c b'9'
    then some (c - b'0')
    else if leb b'A' c && leb c b'F'
    then some (c - 55)
    else if leb b'a' c && leb c b'f'
    then some (c - 87)
    else none

abbrev byte_before : Option ℕ → Option ℕ → Option (List ℕ) → Option (List ℕ)
byte_before (some hi) (some lo) (some bytes) = some ((hi * 16 + lo) ∷ bytes)
byte_before _ _ _ = none

-- `bytes.fromhex`; `none` where it raises ValueError.
unfoldable pub from_hex : List ℕ → Option (List ℕ)
from_hex [] = some []
from_hex (c ∷ []) = if is_blank c then some [] else none
from_hex (c ∷ d ∷ rest) =
    let skipped = from_hex (d ∷ rest) in
    let bytes = from_hex rest in
    if is_blank c then skipped else byte_before (hex_digit c) (hex_digit d) bytes

unfoldable pub repeat : ℕ → List ℕ → List ℕ
repeat zero bytes = []
repeat (suc n) bytes = bytes ++ repeat n bytes

unfoldable pub clean : List ℕ → List ℕ
clean mac = map upper (select (λ c. not (is_separator c)) mac)

-- `none` where the source raises ValueError.
abbrev frame : Option (List ℕ) → Option (List ℕ)
frame none = none
frame (some bytes) = some (repeat 6 (255 ∷ []) ++ repeat 16 bytes)

unfoldable pub build_magic_packet : List ℕ → Option (List ℕ)
build_magic_packet mac =
    if same_code (length (clean mac)) 12 then frame (from_hex (clean mac)) else none
