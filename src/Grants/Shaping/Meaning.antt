-- ===== src/Grants/Shaping/Meaning.antt =====
-- What an expression is at a row, and which rows a statement touches: the view of a policy as a filter of
-- rows, against which the statements that the code builds are held. DuckDB's evaluation is a parameter.
use duckdb_virtual_catalog.Prelude.{
  ◌+◌, ℕ, String, ◌≡◌, Bool, true, false, ◌&&◌, ◌||◌, List, [], ◌∷◌, Option, none, some,
  if◌then◌else◌, Result, ok, err,
}
use duckdb_virtual_catalog.Host.{StringUtil}
use duckdb_virtual_catalog.CaseInsensitive.{find}
use duckdb_virtual_catalog.Grants.Expression.{
  Parsed, ParsedList, column_ref, parameter, constant, guard, conjunction_and, other, nil, cons,
}
use duckdb_virtual_catalog.Grants.Seam.{
  Values, Statement, insert_rows, update_rows, delete_rows, WriteStatement, at_index, index_of,
}

-- A condition holds of what evaluates to true, not of NULL, and not where the evaluation throws (`none`).
abbrev pub holds : {V : Type 0} → (V → Bool) → Option V → Bool
holds is_true none = false
holds is_true (some v) = is_true v

-- How DuckDB evaluates. Its AND holds exactly where both sides do.
pub record Engine : Type 1 where
  pub Value : Type 0
  pub literal : ℕ → Value
  pub is_true : Value → Bool
  pub conjoin : Option Value → Option Value → Option Value
  pub apply : ℕ → List (Option Value) → Option Value
  pub conjoin_holds :
      (a b : Option Value) → holds is_true (conjoin a b) ≡ (holds is_true a && holds is_true b)

module _ (e : Engine) where
  -- What the names of a statement stand for at one row: a column by its qualifier, a context parameter
  pub record Row : Type 0 where
    pub column : Option String → String → Option e.Value
    pub context : String → Option ℕ

  abbrev pub literal_of : Option ℕ → Option e.Value
  literal_of none = none
  literal_of (some v) = some (e.literal v)

  unfoldable mutual
    pub meaning : Row → Parsed → Option e.Value
    meaning row (column_ref qualifier name) = row.column qualifier name
    meaning row (parameter name) = literal_of (row.context name)
    meaning row (constant v) = literal_of (some v)
    meaning row (guard condition value message) =
        let passed = meaning row value in
        if holds e.is_true (meaning row condition) then passed else none
    meaning row (conjunction_and left right) = e.conjoin (meaning row left) (meaning row right)
    meaning row (other operation children) = e.apply operation (meanings row children)

    pub meanings : Row → ParsedList → List (Option e.Value)
    meanings row nil = []
    meanings row (cons child children) = meaning row child ∷ meanings row children

  -- A predicate that is absent holds of every row.
  unfoldable pub passes : Row → Option Parsed → Bool
  unfolding meaning
  passes row none = true
  passes row (some expr) = holds e.is_true (meaning row expr)

  -- The rows that an UPDATE or a DELETE touches
  unfoldable pub touches : Row → Statement → Bool
  unfolding passes
  touches row (insert_rows select_list) = true
  touches row (update_rows condition expressions) = passes row condition
  touches row (delete_rows condition) = passes row condition

  abbrev pub first_of : Row → List Parsed → Option e.Value
  first_of row [] = none
  first_of row (expr ∷ exprs) = meaning row expr

  -- The first value that a statement writes; `none`: it throws.
  unfoldable pub first_value : Row → Statement → Option e.Value
  unfolding meaning
  first_value row (insert_rows select_list) = first_of row select_list
  first_value row (update_rows condition expressions) = first_of row expressions
  first_value row (delete_rows condition) = none

  module _ ⦃u : StringUtil⦄ where
    -- The row with the values of a context
    abbrev pub in_context : Values → Row → Row
    in_context values row = record { column = row.column; context = λ name. find name values }

  abbrev pub seam_value : Row → String → Result String → Option e.Value
  seam_value row seam_alias (err thrown) = none
  seam_value row seam_alias (ok column) = row.column (some seam_alias) column

  -- A written column is in the seam, behind the keys; any other is the table's.
  abbrev pub value_after : Row → String → WriteStatement → ℕ → String → Option ℕ → Option e.Value
  value_after row table built key_count name none = row.column (some table) name
  value_after row table built key_count name (some c) =
      seam_value row built.seam_alias (at_index built.seam_columns (key_count + c))

  -- The row as it is after the write, seen as a row of the table on its own: every column, qualified or
  -- not, is a column of the table, and has the value being written if it is set.
  abbrev pub after_write :
      (String → String → Bool) → String → List String → WriteStatement → ℕ → Row → Row
  after_write same_column table set_columns built key_count row = record {
    column = λ qualifier name.
        value_after row table built key_count name (index_of same_column name set_columns);
    context = row.context;
  }

  -- The row that an expression is pointed at: it reads a qualified column where its qualifier says.
  abbrev pub pointed_row :
      (String → String → Bool) → String → List String → WriteStatement → ℕ → Row → Row
  pointed_row same_column table set_columns built key_count row = record {
    column = λ qualifier name. elim qualifier [
      | some q ↦ row.column (some q) name
      | none ↦ value_after row table built key_count name (index_of same_column name set_columns)
    ];
    context = row.context;
  }

  -- The row as it is before the write
  abbrev pub before_write : (String → String → Bool) → String → WriteStatement → Row → Row
  before_write same_column table built row = pointed_row same_column table [] built 0 row

-- An expression has a qualified column.
unfoldable mutual
  pub mentions_qualified : Parsed → Bool
  mentions_qualified (column_ref none name) = false
  mentions_qualified (column_ref (some qualifier) name) = true
  mentions_qualified (parameter name) = false
  mentions_qualified (constant v) = false
  mentions_qualified (guard condition value message) =
      mentions_qualified condition || mentions_qualified value
  mentions_qualified (conjunction_and left right) =
      mentions_qualified left || mentions_qualified right
  mentions_qualified (other operation children) = any_mentions_qualified children

  pub any_mentions_qualified : ParsedList → Bool
  any_mentions_qualified nil = false
  any_mentions_qualified (cons child children) =
      mentions_qualified child || any_mentions_qualified children

unfoldable pub is_qualified : Option Parsed → Bool
unfolding mentions_qualified
is_qualified none = false
is_qualified (some expr) = mentions_qualified expr
