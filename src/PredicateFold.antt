-- ===== src/PredicateFold.antt =====
-- bridge/predicate_fold.cpp: whether a predicate is true of every row of a table, by what DuckDB's rewriter
-- leaves of a query that filters the table by it.
pub mod Sound
mod Tests
use duckdb_virtual_catalog.Prelude.{
  ℕ, String, Bool, true, false, not, ◌&&◌, List, [], ◌∷◌, Result, ok, err, ◌>>=◌,
}
use duckdb_virtual_catalog.Grants.Expression.{Parsed}

-- A `Value`, by what the code asks of it
pub data Value : Type 0 where
  null_value : Value
  boolean : Bool → Value
  other_value : ℕ → Value

-- A bound `Expression`; one that is no constant is known by a number.
pub data Expression : Type 0 where
  bound_constant : Value → Expression
  other_expression : ℕ → Expression

-- A `LogicalOperator`
mutual
  pub data Operator : Type 0 where
    logical_projection : Operators → Operator
    logical_get : Operators → Operator
    logical_filter : List Expression → Operators → Operator
    other_operator : ℕ → Operators → Operator

  pub data Operators : Type 0 where
    leaf : Operators
    child : Operator → Operators → Operators

unfoldable pub is_constant_true : Expression → Bool
is_constant_true (bound_constant (boolean b)) = b
is_constant_true expr = false

unfoldable pub are_constant_true : List Expression → Bool
unfolding is_constant_true
are_constant_true [] = true
are_constant_true (expr ∷ exprs) = is_constant_true expr && are_constant_true exprs

unfoldable mutual
  unfolding are_constant_true

  -- `OnlyTrueFilters`
  pub only_true_filters : Operator → Bool
  only_true_filters (logical_projection children) = all_only_true_filters children
  only_true_filters (logical_get children) = all_only_true_filters children
  only_true_filters (logical_filter exprs children) =
      are_constant_true exprs && all_only_true_filters children
  only_true_filters (other_operator type children) = false

  pub all_only_true_filters : Operators → Bool
  all_only_true_filters leaf = true
  all_only_true_filters (child op ops) = only_true_filters op && all_only_true_filters ops

-- `PredicateFoldsToTrue`; `plan` plans `SELECT * FROM table WHERE predicate` and rewrites the plan.
unfoldable pub predicate_folds_to_true :
    (String → String → String → Parsed → Result Operator)
    → String
    → String
    → String
    → Parsed
    → Result Bool
unfolding only_true_filters
predicate_folds_to_true plan catalog schema table predicate = do
  op ← plan catalog schema table predicate
  ok (only_true_filters op)
