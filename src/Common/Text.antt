-- ===== src/Common/Text.antt =====
-- What the program uses of Python's text methods: blanks, stripping, splitting, searching and the
-- reading of numbers. A text is a sequence of code points.
pub mod Number
use Prim.Native.Char.{Char, code}
use Prim.Native.Nat.{ℕ, zero, suc, ◌+◌, ◌≤◌, compare, Ordering}
use Prim.Native.String.{String, ◌++◌ as ◌<>◌}
use mathlib.Core.Path.{◌≡◌, refl}
use mathlib.Core.Bool.{Bool, true, false, not, ◌&&◌, ◌||◌, cond}
use mathlib.Core.List.{List, [], ◌∷◌}
use mathlib.Core.Option.{Option, none, some}
use text.Mathlib.Text.{◌==◌}

abbrev is_code : ℕ → ℕ → Bool
is_code a b = elim (compare a b) [ Ordering.eq ↦ true | _ ↦ false ]

abbrev pub within : ℕ → ℕ → ℕ → Bool
within least most c = elim (compare c least) [
  | Ordering.lt ↦ false
  | Ordering.eq ↦ elim (compare c most) [ Ordering.gt ↦ false | _ ↦ true ]
  | Ordering.gt ↦ elim (compare c most) [ Ordering.gt ↦ false | _ ↦ true ]
]

-- `str.isspace` of one code point, which is also what `\s` matches.
unfoldable pub is_space : ℕ → Bool
is_space c =
    within 9 13 c
    || within 28 32 c
    || is_code c 133
    || is_code c 160
    || is_code c 5760
    || within 8192 8202 c
    || within 8232 8233 c
    || is_code c 8239
    || is_code c 8287
    || is_code c 12288

-- The line boundaries of `str.splitlines`.
unfoldable pub is_break : ℕ → Bool
is_break c = within 10 13 c || within 28 30 c || is_code c 133 || within 8232 8233 c

abbrev pub single : Char → String
single c = String.◌∷◌ c ""

unfoldable pub lstrip : String → String
unfolding is_space
lstrip String.[] = ""
lstrip (String.◌∷◌ c s) = let rest = lstrip s in cond (is_space (code c)) rest (String.◌∷◌ c s)

unfoldable pub rstrip : String → String
unfolding is_space
rstrip String.[] = ""
rstrip (String.◌∷◌ c s) =
    let rest = rstrip s in cond (is_space (code c) && rest == "") "" (String.◌∷◌ c rest)

unfoldable pub strip : String → String
unfolding lstrip rstrip
strip s = rstrip (lstrip s)

-- A word that ends, if it has any letters.
abbrev pub ended_word : String → List String → List String
ended_word word rest = cond (word == "") rest (word ∷ rest)

-- `s.split()`, after the word that has been read so far.
unfoldable pub words_from : String → String → List String
unfolding is_space
words_from word String.[] = ended_word word []
words_from word (String.◌∷◌ c s) =
    let next = words_from "" s in
    let same = words_from (word <> single c) s in
    cond (is_space (code c)) (ended_word word next) same

unfoldable pub split_words : String → List String
unfolding words_from
split_words s = words_from "" s

-- `s.split(sep)` for a separator of one character.
unfoldable pub fields_from : ℕ → String → String → List String
fields_from sep field String.[] = field ∷ []
fields_from sep field (String.◌∷◌ c s) =
    let next = fields_from sep "" s in
    let same = fields_from sep (field <> single c) s in
    cond (is_code (code c) sep) (field ∷ next) same

unfoldable pub split_on : ℕ → String → List String
unfolding fields_from
split_on sep s = fields_from sep "" s

-- `s.splitlines()`; the first argument tells that a carriage return stands just before.
unfoldable pub lines_from : Bool → String → String → List String
unfolding is_break
lines_from after_cr line String.[] = ended_word line []
lines_from after_cr line (String.◌∷◌ c s) =
    let skipped = lines_from false line s in
    let next = lines_from (is_code (code c) 13) "" s in
    let same = lines_from false (line <> single c) s in
    cond (after_cr && is_code (code c) 10) skipped (cond (is_break (code c)) (line ∷ next) same)

unfoldable pub splitlines : String → List String
unfolding lines_from
splitlines s = lines_from false "" s

-- `s.startswith(p)`, `s.endswith(p)` and `p in s`.
unfoldable pub starts_with : String → String → Bool
starts_with String.[] s = true
starts_with (String.◌∷◌ c p) String.[] = false
starts_with (String.◌∷◌ c p) (String.◌∷◌ d s) = is_code (code c) (code d) && starts_with p s

-- `s[len(p):]` if `s.startswith(p)`
unfoldable pub strip_prefix : String → String → Option String
strip_prefix String.[] s = some s
strip_prefix (String.◌∷◌ c p) String.[] = none
strip_prefix (String.◌∷◌ c p) (String.◌∷◌ d s) =
    let rest = strip_prefix p s in cond (is_code (code c) (code d)) rest none

unfoldable pub ends_with : String → String → Bool
ends_with p String.[] = p == ""
ends_with p (String.◌∷◌ c s) = p == String.◌∷◌ c s || ends_with p s

unfoldable pub is_in : String → String → Bool
unfolding starts_with
is_in p String.[] = p == ""
is_in p (String.◌∷◌ c s) = starts_with p (String.◌∷◌ c s) || is_in p s

-- What follows the first separator, in `s.split(sep, 1)`; `none` without one.
unfoldable pub partition : ℕ → String → Option (String × String)
partition sep String.[] = none
partition sep (String.◌∷◌ c s) =
    let rest = partition sep s in
    cond (is_code (code c) sep) (some ("", s))
      (elim rest [ none ↦ none | some (a, b) ↦ some (String.◌∷◌ c a, b) ])

test_words : split_words "  eth0 \t 00 1" ≡ "eth0" ∷ "00" ∷ "1" ∷ []
unfolding split_words
test_words = refl

test_lines : splitlines "a\r\nb\n\nc\n" ≡ "a" ∷ "b" ∷ "" ∷ "c" ∷ []
unfolding splitlines
test_lines = refl

test_strip : (strip " a b " ≡ "a b") × (split_on 58 "a:b:" ≡ "a" ∷ "b" ∷ "" ∷ [])
unfolding strip split_on
test_strip = (refl, refl)
