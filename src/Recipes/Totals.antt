-- ===== src/Recipes/Totals.antt =====
-- `_merge_counts` adds: nothing that either phase counted is lost.
use paperboy.Base.{ℕ, ◌+◌, ◌≡◌, [], ◌∷◌, arith, if◌then◌else◌}
use Prim.Native.String.{String}
use text.Mathlib.Text.{◌==◌}
use text.Mathlib.TextEquality.{eq_iff}
use paperboy.Base.Dict.{lookup, insert, lookup-insert}
use paperboy.Recipes.{Totals, value_or_zero, merge_counts}

-- All that a list of counts holds of a key.
abbrev pub total : String → Totals → ℕ
total k [] = 0
total k ((j, v) ∷ b) = (if j == k then v else 0) + total k b

-- The merged count of a key is the count of the first phase plus all of the second.
lookup-merge_counts :
    (k : String) (b a : Totals)
    → value_or_zero (lookup k (merge_counts a b)) ≡ value_or_zero (lookup k a) + total k b
unfolding merge_counts
lookup-merge_counts k [] a = omega arith
lookup-merge_counts k ((j, v) ∷ b) a = ground (
  arith,
  eq_iff j k,
  lookup-insert j k (value_or_zero (lookup j a) + v) a,
  lookup-merge_counts k b (insert j (value_or_zero (lookup j a) + v) a),
)
