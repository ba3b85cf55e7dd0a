-- ===== src/PredicateFold/Sound.antt =====
-- A predicate that folds is true of every row.
use duckdb_virtual_catalog.Prelude.{
  ℕ, String, ◌≡◌, refl, ◌∙◌, Bool, true, false, ◌&&◌, List, [], ◌∷◌, Result, ok, ok_injective,
  bind-eq-ok, arith,
}
use duckdb_virtual_catalog.Grants.Expression.{Parsed}
use duckdb_virtual_catalog.PredicateFold.{
  null_value, boolean, other_value, Expression, bound_constant, other_expression, Operator,
  Operators, logical_projection, logical_get, logical_filter, other_operator, leaf, child,
  is_constant_true, are_constant_true, only_true_filters, all_only_true_filters,
  predicate_folds_to_true,
}

module _ {Row : Type 0} (is_true : Row → ℕ → Bool) (lets_through : Row → ℕ → Bool) where
  -- What a filter lets pass: NULL and other values do not; `is_true` is DuckDB's evaluation of the rest.
  unfoldable pub holds_at : Row → Expression → Bool
  holds_at row (bound_constant null_value) = false
  holds_at row (bound_constant (boolean b)) = b
  holds_at row (bound_constant (other_value v)) = false
  holds_at row (other_expression n) = is_true row n

  unfoldable pub all_hold_at : Row → List Expression → Bool
  unfolding holds_at
  all_hold_at row [] = true
  all_hold_at row (expr ∷ exprs) = holds_at row expr && all_hold_at row exprs

  unfoldable mutual
    unfolding all_hold_at

    -- A row of the table passes through the plan; `lets_through` is what operators of other types do.
    pub survives : Row → Operator → Bool
    survives row (logical_projection children) = survives_all row children
    survives row (logical_get children) = survives_all row children
    survives row (logical_filter exprs children) =
        all_hold_at row exprs && survives_all row children
    survives row (other_operator type children) = lets_through row type && survives_all row children

    pub survives_all : Row → Operators → Bool
    survives_all row leaf = true
    survives_all row (child op ops) = survives row op && survives_all row ops

  holds_at-is_constant_true :
      (row : Row) (expr : Expression) → is_constant_true expr ≡ true → holds_at row expr ≡ true
  unfolding holds_at is_constant_true
  holds_at-is_constant_true row (bound_constant null_value) h = h
  holds_at-is_constant_true row (bound_constant (boolean b)) h = h
  holds_at-is_constant_true row (bound_constant (other_value v)) h = h
  holds_at-is_constant_true row (other_expression n) h = cc

  all_hold_at-are_constant_true :
      (row : Row) (exprs : List Expression)
      → are_constant_true exprs ≡ true
      → all_hold_at row exprs ≡ true
  unfolding all_hold_at are_constant_true
  all_hold_at-are_constant_true row [] h = refl
  all_hold_at-are_constant_true row (expr ∷ exprs) h =
      let first = holds_at-is_constant_true row expr (ground arith) in
      let rest = all_hold_at-are_constant_true row exprs (ground arith) in ground arith

  mutual
    unfolding survives only_true_filters

    survives-only_true_filters :
        (row : Row) (op : Operator) → only_true_filters op ≡ true → survives row op ≡ true
    survives-only_true_filters row (logical_projection children) h = survives_all-lem row children h
    survives-only_true_filters row (logical_get children) h = survives_all-lem row children h
    survives-only_true_filters row (logical_filter exprs children) h =
        let first = all_hold_at-are_constant_true row exprs (ground arith) in
        let rest = survives_all-lem row children (ground arith) in ground arith
    survives-only_true_filters row (other_operator type children) h = cc

    survives_all-lem :
        (row : Row) (ops : Operators)
        → all_only_true_filters ops ≡ true
        → survives_all row ops ≡ true
    survives_all-lem row leaf h = refl
    survives_all-lem row (child op ops) h =
        let first = survives-only_true_filters row op (ground arith) in
        let rest = survives_all-lem row ops (ground arith) in ground arith

  -- If DuckDB's plans let a row through exactly where the predicate is true of it, then a predicate that
  -- folds to true is true of every row of the table.
  pub predicate_folds_to_true_sound :
      (plan : String → String → String → Parsed → Result Operator) (passes : Row → Parsed → Bool)
      (catalog schema table : String) (predicate : Parsed) (row : Row)
      → ((op : Operator)
          → plan catalog schema table predicate ≡ ok op
          → passes row predicate ≡ survives row op)
      → predicate_folds_to_true plan catalog schema table predicate ≡ ok true
      → passes row predicate ≡ true
  unfolding predicate_folds_to_true
  predicate_folds_to_true_sound plan passes catalog schema table predicate row exact h =
      let (op, p, h') = bind-eq-ok (plan catalog schema table predicate) _ h in
      exact op p ∙ survives-only_true_filters row op (ok_injective h')
