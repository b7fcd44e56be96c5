-- ===== src/Common/Dict.antt =====
-- Python's `dict` with text keys, as an association list. The program never depends on the order.
use Prim.Native.String.{String}
use mathlib.Core.Path.{◌≡◌, refl}
use mathlib.Core.Bool.{cond}
use mathlib.Core.Option.{Option, none, some}
use mathlib.Core.List.{List, [], ◌∷◌}
use native.Mathlib.Omega.{arith}
use text.Mathlib.Text.{◌==◌}
use text.Mathlib.TextEquality.{eq_iff}

module _ {ℓ} {V : Type ℓ} where
  -- d.get(k)
  unfoldable pub lookup : String → List (String × V) → Option V
  lookup k [] = none
  lookup k ((j, v) ∷ d) = cond (j == k) (some v) (lookup k d)

  -- d[k] = v
  unfoldable pub insert : String → V → List (String × V) → List (String × V)
  insert k v [] = (k, v) ∷ []
  insert k v ((j, w) ∷ d) = cond (j == k) ((k, v) ∷ d) ((j, w) ∷ insert k v d)

  -- d.pop(k, None)
  unfoldable pub pop : String → List (String × V) → List (String × V)
  pop k [] = []
  pop k ((j, v) ∷ d) = let rest = pop k d in cond (j == k) rest ((j, v) ∷ rest)

  pub lookup-insert :
      (k j : String) (v : V) (d : List (String × V))
      → lookup j (insert k v d) ≡ cond (k == j) (some v) (lookup j d)
  unfolding lookup insert
  lookup-insert k j v [] = refl
  lookup-insert k j v ((i, w) ∷ d) =
      ground (arith, eq_iff k j, eq_iff i k, eq_iff i j, lookup-insert k j v d)

  pub lookup-pop :
      (k j : String) (d : List (String × V)) → lookup j (pop k d) ≡ cond (k == j) none (lookup j d)
  unfolding lookup pop
  lookup-pop k j [] = ground arith
  lookup-pop k j ((i, v) ∷ d) = ground (arith, eq_iff k j, eq_iff i k, eq_iff i j, lookup-pop k j d)
