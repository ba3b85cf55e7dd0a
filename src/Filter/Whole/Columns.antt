-- ===== src/Filter/Whole/Columns.antt =====
-- Every clause of a filter names the filter's column.
use duckdb_virtual_catalog.Prelude.{
  String, ◌≡◌, refl, sym, inl, inr, true, false, ◌||◌, List, [], ◌∷◌, Option, none, some, All,
  All-append, Bool-cases, some_injective, subst, is_empty,
}
use duckdb_virtual_catalog.Filter.{
  Value, Comparison, Operator, is_null_operator, is_not_null_operator, compare_in, other_operator,
  Expression, optional, root_optional, function, operator, conjunction_and, conjunction_or,
  other_class, Expressions, nil, cons, Clause, is_nan, is_internal_hint, comparison_op, constants,
  render_comparison, render_in, render_operator, and_result, try_build_clauses, try_build_children,
}
use duckdb_virtual_catalog.Filter.Fidelity.{optional_result_cases, and_child_inv}

abbrev pub NamesColumn : String → List Clause → Type 0
NamesColumn column clauses = All (λ k. k.column ≡ column) clauses

comparison-NamesColumn :
    (found : Option (Comparison × Value)) (column : String)
    → NamesColumn column (render_comparison found column).clauses
unfolding render_comparison
comparison-NamesColumn none column = tt
comparison-NamesColumn (some (k, v)) column =
    elim (Bool-cases (is_empty (comparison_op k) || is_nan v)) [
      | inl bad ↦ rw bad tt
      | inr fine ↦ rw fine (refl, tt)
    ]

in-NamesColumn :
    (found : Option (List Value)) (column : String)
    → NamesColumn column (render_in found column).clauses
unfolding render_in
in-NamesColumn none column = tt
in-NamesColumn (some values) column = (refl, tt)

operator-NamesColumn :
    (op : Operator) (operands : List (Option Value)) (column : String)
    → NamesColumn column (render_operator op operands column).clauses
unfolding render_operator
operator-NamesColumn is_null_operator operands column = (refl, tt)
operator-NamesColumn is_not_null_operator operands column = (refl, tt)
operator-NamesColumn compare_in operands column = in-NamesColumn (constants operands) column
operator-NamesColumn other_operator operands column = tt

result-NamesColumn :
    (found : Option (List Clause)) (column : String)
    → ((clauses : List Clause) → found ≡ some clauses → NamesColumn column clauses)
    → NamesColumn column (and_result found).clauses
unfolding and_result
result-NamesColumn none column h = tt
result-NamesColumn (some []) column h = tt
result-NamesColumn (some (clause ∷ clauses)) column h = h (clause ∷ clauses) refl

mutual
  unfolding try_build_clauses

  pub try_build_clauses-NamesColumn :
      (e : Expression) (column : String) → NamesColumn column (try_build_clauses e column).clauses
  try_build_clauses-NamesColumn (optional child) column =
      elim (optional_result_cases (try_build_clauses child column)) [
        | inl (kept, same) ↦ rw same (try_build_clauses-NamesColumn child column)
        | inr skipped ↦ rw skipped tt
      ]
  try_build_clauses-NamesColumn (root_optional i) column = tt
  try_build_clauses-NamesColumn (function name found i) column =
      elim (Bool-cases (is_internal_hint name)) [
        | inl hint ↦ rw hint tt
        | inr other ↦ rw other (comparison-NamesColumn found column)
      ]
  try_build_clauses-NamesColumn (operator op true operands i) column =
      operator-NamesColumn op operands column
  try_build_clauses-NamesColumn (operator op false operands i) column = tt
  try_build_clauses-NamesColumn (conjunction_and children) column =
      result-NamesColumn (try_build_children children column) column
        (try_build_children-NamesColumn children column)
  try_build_clauses-NamesColumn (conjunction_or children i) column = tt
  try_build_clauses-NamesColumn (other_class i) column = tt

  try_build_children-NamesColumn :
      (es : Expressions) (column : String) (clauses : List Clause)
      → try_build_children es column ≡ some clauses
      → NamesColumn column clauses
  try_build_children-NamesColumn nil column clauses h =
      subst (λ q. NamesColumn column q) (some_injective h) tt
  try_build_children-NamesColumn (cons child children) column clauses h =
      let (kept, later, found, split) = and_child_inv _ _ clauses h in
      subst (λ q. NamesColumn column q) (sym split)
        (All-append (λ k. k.column ≡ column) (try_build_clauses child column).clauses later
          (try_build_clauses-NamesColumn child column)
          (try_build_children-NamesColumn children column later found))
