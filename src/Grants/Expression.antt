-- ===== src/Grants/Expression.antt =====
-- DuckDB's parsed expressions, as bridge/duckdb_source.cpp walks and rewrites them.
use duckdb_virtual_catalog.Prelude.{
  ℕ, String, Bool, true, false, ◌||◌, List, Option, none, some, Result, ok, err, internal, ◌>>=◌,
  ◌<>◌,
}
use duckdb_virtual_catalog.Host.{StringUtil}
use duckdb_virtual_catalog.CaseInsensitive.{insert, find}

-- A `ParsedExpression`, by the classes that the code tells apart. An expression of another class has a
-- number for its operation and its children. A column reference has the name in front of the column's,
-- if it is qualified; a constant is known by a number.
mutual
  pub data Parsed : Type 0 where
    column_ref : Option String → String → Parsed
    parameter : String → Parsed
    constant : ℕ → Parsed
    -- `CASE WHEN condition THEN value ELSE error(text) END`
    guard : Parsed → Parsed → String → Parsed
    conjunction_and : Parsed → Parsed → Parsed
    other : ℕ → ParsedList → Parsed

  pub data ParsedList : Type 0 where
    nil : ParsedList
    cons : Parsed → ParsedList → ParsedList

unfoldable mutual
  -- `MentionsColumn`
  pub mentions_column : Parsed → Bool
  mentions_column (column_ref qualifier name) = true
  mentions_column (parameter name) = false
  mentions_column (constant value) = false
  mentions_column (guard condition value message) =
      mentions_column condition || mentions_column value
  mentions_column (conjunction_and left right) = mentions_column left || mentions_column right
  mentions_column (other operation children) = any_mentions_column children

  any_mentions_column : ParsedList → Bool
  any_mentions_column nil = false
  any_mentions_column (cons child children) = mentions_column child || any_mentions_column children

module _ ⦃u : StringUtil⦄ where
  unfoldable mutual
    unfolding insert

    -- `ContextNames`: the names are added to a set.
    pub context_names : Parsed → List String → List String
    context_names (column_ref qualifier name) names = names
    context_names (parameter name) names = insert name names
    context_names (constant value) names = names
    context_names (guard condition value message) names =
        context_names value (context_names condition names)
    context_names (conjunction_and left right) names =
        context_names right (context_names left names)
    context_names (other operation children) names = all_context_names children names

    pub all_context_names : ParsedList → List String → List String
    all_context_names nil names = names
    all_context_names (cons child children) names =
        all_context_names children (context_names child names)

  unfoldable pub fill_parameter : String → Option ℕ → Result Parsed
  fill_parameter name none =
      err (record { type = internal; message = "vcatbridge: context '$" <> name <> "' is not set" })
  fill_parameter name (some value) = ok (constant value)

  unfoldable mutual
    unfolding fill_parameter find

    -- `FillContext`
    pub fill_context : Parsed → List (String × ℕ) → Result Parsed
    fill_context (column_ref qualifier name) values = ok (column_ref qualifier name)
    fill_context (parameter name) values = fill_parameter name (find name values)
    fill_context (constant value) values = ok (constant value)
    fill_context (guard condition value message) values = do
      condition' ← fill_context condition values
      value' ← fill_context value values
      ok (guard condition' value' message)
    fill_context (conjunction_and left right) values = do
      left' ← fill_context left values
      right' ← fill_context right values
      ok (conjunction_and left' right')
    fill_context (other operation children) values = do
      children' ← fill_all_context children values
      ok (other operation children')

    pub fill_all_context : ParsedList → List (String × ℕ) → Result ParsedList
    fill_all_context nil values = ok nil
    fill_all_context (cons child children) values = do
      child' ← fill_context child values
      children' ← fill_all_context children values
      ok (cons child' children')
