-- ===== src/PredicateFold/Tests.antt =====
-- A predicate that folds to true, and one that does not.
use duckdb_virtual_catalog.Prelude.{
  ℕ, String, ◌≡◌, refl, Bool, true, false, [], ◌∷◌, none, Result, ok, ok_injective, ap,
}
use duckdb_virtual_catalog.Grants.Expression.{Parsed, constant, column_ref}
use duckdb_virtual_catalog.PredicateFold.{
  Operator, Expression, bound_constant, boolean, other_expression, logical_projection, logical_get,
  logical_filter, leaf, child, predicate_folds_to_true,
}
use duckdb_virtual_catalog.PredicateFold.Sound.{survives, predicate_folds_to_true_sound}

abbrev filtered : Expression → Operator
filtered expr =
    logical_projection (child (logical_filter (expr ∷ []) (child (logical_get leaf) leaf)) leaf)

-- The rewriter folds the constant 1 to true, and leaves anything else.
abbrev folded : Parsed → Expression
folded (constant v) = bound_constant (boolean true)
folded expr = other_expression 0

abbrev plan : String → String → String → Parsed → Result Operator
plan catalog schema table predicate = ok (filtered (folded predicate))

abbrev never : Bool → ℕ → Bool
never row n = false

abbrev passes : Bool → Parsed → Bool
passes row (constant v) = true
passes row expr = false

fold_tests : predicate_folds_to_true plan "db" "main" "orders" (column_ref none "id") ≡ ok false
unfolding predicate_folds_to_true
fold_tests = refl

predicate_folds_to_true_sound_example : passes false (constant 1) ≡ true
unfolding predicate_folds_to_true survives
predicate_folds_to_true_sound_example =
    predicate_folds_to_true_sound never never plan passes "db" "main" "orders" (constant 1) false
      (λ op e. ap (survives never never false) (ok_injective e)) refl
