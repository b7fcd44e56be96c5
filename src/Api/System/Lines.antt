-- ===== src/Api/System/Lines.antt =====
-- What the parsers of app/api/system.py make of one line of a file below /proc/net.
use Prim.Native.Char.{code}
use Prim.Native.Nat.{◌/◌, ◌%◌}
use wol_monkey.Common.{
  ℕ, zero, suc, ◌+◌, ◌*◌, String, Bool, false, not, Option, none, some, List, [], ◌∷◌, ◌++◌, ◌==◌,
  ◌<>◌, ltb, leb, any, if◌then◌else◌,
}
use wol_monkey.Common.Text.{within, lstrip, strip, split_words, split_on, starts_with, strip_prefix}
use wol_monkey.Common.Text.Number.{ℤ, pos, negsuc, parse_hex, digits_from}

abbrev pub drop_lines : ℕ → List String → List String
drop_lines zero lines = lines
drop_lines (suc n) [] = []
drop_lines (suc n) (line ∷ lines) = drop_lines n lines

abbrev pub elem : String → List String → Bool
elem s xs = any (λ x. x == s) xs

-- `s.add(x)`
abbrev pub add : String → List String → List String
add x xs = if elem x xs then xs else xs ++ x ∷ []

-- `line.split(":")[0].strip()`
unfoldable pub line_name : String → String
line_name line = elim (split_on b':' line) [ [] ↦ "" | name ∷ rest ↦ strip name ]

-- The longest run of decimal digits, and what follows.
unfoldable pub take_digits : String → String × String
take_digits String.[] = ("", "")
take_digits (String.◌∷◌ c s) =
    let (d, rest) = take_digits s in
    if within 48 57 (code c) then (String.◌∷◌ c d, rest) else ("", String.◌∷◌ c s)

-- `\d+` and then n times `\.\d+`: the text that matches.
unfoldable pub dotted : ℕ → String → Option String
unfolding take_digits
dotted zero s = let (d, rest) = take_digits s in if d == "" then none else some d
dotted (suc n) s =
    let (d, rest) = take_digits s in
    if d == "" then none else elim (strip_prefix "." rest) [
      | none ↦ none
      | some s' ↦ elim (dotted n s') [ none ↦ none | some t ↦ some (d <> "." <> t) ]
    ]

-- `\s+` at the start: what follows it.
unfoldable pub after_blanks : String → Option String
after_blanks s = if lstrip s == s then none else some (lstrip s)

-- The group of `\s+\|--\s+(\d+\.\d+\.\d+\.\d+)`, matched from the start of the line.
unfoldable pub trie_host : String → Option String
unfolding after_blanks dotted strip_prefix
trie_host line = elim (after_blanks line) [
  | none ↦ none
  | some s ↦ elim (strip_prefix "|--" s) [
    | none ↦ none
    | some t ↦ elim (after_blanks t) [ none ↦ none | some u ↦ dotted 3 u ]
  ]
]

-- A number of 32 bits, its bytes in the other order.
unfoldable pub swap_bytes : ℕ → ℕ
swap_bytes n = n % 256 * 16777216 + n / 256 % 256 * 65536 + n / 65536 % 256 * 256 + n / 16777216

-- `none` where the source raises ValueError or struct.error.
unfoldable pub swapped : Option ℤ → Option ℕ
unfolding swap_bytes
swapped none = none
swapped (some (negsuc n)) = none
swapped (some (pos n)) = if ltb n 4294967296 then some (swap_bytes n) else none

unfoldable pub route_hex_to_be_int : String → Option ℕ
unfolding swapped
route_hex_to_be_int h = swapped (parse_hex h)

pub record Route : Type 0 where
  pub iface : String
  pub net_be : ℕ
  pub mask_be : ℕ

-- `flags & 0x1` of an integer in two's complement.
unfoldable pub is_up_flag : ℤ → Bool
is_up_flag (pos n) = leb 1 (n % 2)
is_up_flag (negsuc n) = not (leb 1 (n % 2))

abbrev pub route_of : String → Option ℕ → Option ℕ → Option Route
route_of iface (some net) (some mask) =
    some (record { iface = iface; net_be = net; mask_be = mask })
route_of iface _ _ = none

-- `none` where the loop goes on to the next line.
unfoldable pub route_fields : List String → Option Route
unfolding is_up_flag
route_fields (iface ∷ dest ∷ gw ∷ flags ∷ a ∷ b ∷ c ∷ mask ∷ rest) = elim (parse_hex flags) [
  | none ↦ none
  | some f ↦
      if is_up_flag f
      then route_of iface (route_hex_to_be_int dest) (route_hex_to_be_int mask)
      else none
]
route_fields _ = none

unfoldable pub route_line : String → Option Route
unfolding route_fields
route_line line = route_fields (split_words line)

-- One part of an address in `inet_aton`: octal if it starts with a zero.
unfoldable pub octet : String → Option ℕ
octet s =
    let n = if starts_with "0" s then digits_from 8 false 0 s else digits_from 10 false 0 s in
    elim n [ none ↦ none | some b ↦ if ltb b 256 then some b else none ]

abbrev pub join_octets : Option ℕ → Option ℕ → Option ℕ → Option ℕ → Option ℕ
join_octets (some a) (some b) (some c) (some d) = some (((a * 256 + b) * 256 + c) * 256 + d)
join_octets _ _ _ _ = none

-- `struct.unpack(">I", socket.inet_aton(ip))[0]` of four parts; `none` where it raises OSError.
unfoldable pub inet_aton : String → Option ℕ
unfolding octet
inet_aton ip = elim (split_on b'.' ip) [
  | a ∷ b ∷ c ∷ d ∷ [] ↦ join_octets (octet a) (octet b) (octet c) (octet d)
  | _ ↦ none
]
