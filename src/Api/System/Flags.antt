-- ===== src/Api/System/Flags.antt =====
-- `_parse_flags` of app/api/system.py.
use wol_monkey.Common.{
  ℕ, ◌+◌, String, Bool, false, ◌||◌, Option, none, some, List, [], ◌∷◌, ◌==◌, ltb, if◌then◌else◌,
}
use wol_monkey.Common.Dict.{insert}
use wol_monkey.Common.Text.{strip, split_words, splitlines, partition}
use wol_monkey.Common.Text.Number.{ℤ, pos, negsuc, parse_int}
use wol_monkey.Domain.Records.{Dict}
use wol_monkey.Exec.{Result, Error, ok, err, value_error, other}
use wol_monkey.Api.System.Lines.{drop_lines, elem, add}

abbrev pub first_word : List String → List String → List String
first_word [] routed = routed
first_word (word ∷ words) routed = add word routed

unfoldable pub routed_of : List String → List String → List String
routed_of [] routed = routed
routed_of (line ∷ lines) routed = routed_of lines (first_word (split_words line) routed)

abbrev pub is_positive : ℤ → Bool
is_positive (pos n) = ltb 0 n
is_positive (negsuc n) = false

unfoldable pub flags_value : Bool → Bool → Bool → ℕ
flags_value is_up is_running is_loopback =
    (if is_up then 1 else 0) + (if is_running then 64 else 0) + (if is_loopback then 8 else 0)

abbrev pub number_error : Result (Option ℕ)
number_error = err (record { kind = value_error; detail = "invalid literal for int()" })

abbrev pub index_error : Error
index_error = record { kind = other; detail = "list index out of range" }

abbrev pub summed : ℤ → Option ℤ → Bool → Bool → Result (Option ℕ)
summed rx none is_up is_loopback = number_error
summed rx (some tx) is_up is_loopback =
    ok (some (flags_value is_up (is_positive rx || is_positive tx) is_loopback))

-- `int(parts[1])` and `int(parts[9])`, where a ninth part that is the last one is an IndexError.
abbrev pub counted : List String → Option ℤ → Bool → Bool → Result (Option ℕ)
counted more none is_up is_loopback = number_error
counted [] (some rx) is_up is_loopback = err index_error
counted (tx_packets ∷ more) (some rx) is_up is_loopback =
    summed rx (parse_int tx_packets) is_up is_loopback

-- The counters of one interface; fewer than nine are passed over.
unfoldable pub counters : Bool → Bool → List String → Result (Option ℕ)
unfolding flags_value
counters is_up is_loopback (b ∷ rx_packets ∷ c ∷ d ∷ e ∷ f ∷ g ∷ i ∷ j ∷ more) =
    counted more (parse_int rx_packets) is_up is_loopback
counters is_up is_loopback _ = ok none

abbrev pub named : String → Result (Option ℕ) → Dict ℕ → Result (Dict ℕ)
named name (err e) flags = err e
named name (ok none) flags = ok flags
named name (ok (some f)) flags = ok (insert name f flags)

-- One line of /proc/net/dev, with the names in the routing table.
unfoldable pub dev_line : List String → String → Dict ℕ → Result (Dict ℕ)
dev_line routed line flags = elim (partition b':' line) [
  | none ↦ ok flags
  | some (name, rest) ↦
      named (strip name)
        (counters (elem (strip name) routed) (strip name == "lo") (split_words rest)) flags
]

abbrev pub and_then : {A B : Type 0} → Result A → (A → Result B) → Result B
and_then (ok a) f = f a
and_then (err e) f = err e

unfoldable pub dev_lines : List String → List String → Dict ℕ → Result (Dict ℕ)
dev_lines routed [] flags = ok flags
dev_lines routed (line ∷ lines) flags =
    and_then (dev_line routed line flags) λ flags'. dev_lines routed lines flags'

unfoldable pub parse_flags : String → String → Result (Dict ℕ)
parse_flags route dev =
    dev_lines (add "lo" (routed_of (drop_lines 1 (splitlines route)) []))
      (drop_lines 2 (splitlines dev)) []
