-- ===== src/Grants/Seam.antt =====
-- bridge/duckdb_source.cpp: the statement that crossing builds for a write, and `PointCheckAtUpdatedRow`,
-- which makes a policy speak of the rows that it touches.
use duckdb_virtual_catalog.Prelude.{
  ℕ, zero, suc, ◌+◌, String, Bool, true, false, List, [], ◌∷◌, Option, none, some, Result, ok, err,
  internal, ◌>>=◌,
}
use duckdb_virtual_catalog.Host.{CrossingVerb}
use duckdb_virtual_catalog.Grants.Expression.{
  Parsed, ParsedList, column_ref, parameter, constant, guard, conjunction_and, other, nil, cons,
}

-- The values of a context, each known by a number
abbrev pub Values : Type 0
Values = List (String × ℕ)

-- What crossing plans to write (`CrossingWriteTarget`)
pub record WriteTarget : Type 0 where
  pub verb : CrossingVerb
  pub schema : String
  pub table : String
  pub set_columns : List String
  pub key_columns : List String
  pub reads_rows : Bool

-- The parts of a statement that the shaper reaches: the select list that an INSERT reads from, the
-- condition and the new values of an UPDATE, the condition of a DELETE
pub data Statement : Type 0 where
  insert_rows : List Parsed → Statement
  update_rows : Option Parsed → List Parsed → Statement
  delete_rows : Option Parsed → Statement

-- `CrossingWriteStatement`; the seam has the keys of the rows and the values being written.
pub record WriteStatement : Type 0 where
  pub statement : Statement
  pub seam_alias : String
  pub seam_columns : List String

-- An access behind the end of a vector throws.
unfoldable pub out_of_range {ℓ} : {A : Type ℓ} → Result A
out_of_range = err (record { type = internal; message = "index out of range" })

unfoldable pub at_index {ℓ} : {A : Type ℓ} → List A → ℕ → Result A
unfolding out_of_range
at_index [] n = out_of_range
at_index (x ∷ xs) zero = ok x
at_index (x ∷ xs) (suc n) = at_index xs n

-- The name of a column is compared as an `Identifier` of DuckDB.
module _ (same_column : String → String → Bool) where
  unfoldable pub next_index : Bool → Option ℕ → Option ℕ
  next_index true rest = some 0
  next_index false none = none
  next_index false (some n) = some (suc n)

  unfoldable pub index_of : String → List String → Option ℕ
  unfolding next_index
  index_of name [] = none
  index_of name (column ∷ columns) = next_index (same_column column name) (index_of name columns)

  unfoldable pub point_column :
      String → String → List String → ℕ → String → Option ℕ → Result Parsed
  unfolding at_index
  point_column table seam_alias seam_columns key_count name none = ok (column_ref (some table) name)
  point_column table seam_alias seam_columns key_count name (some c) = do
    column ← at_index seam_columns (key_count + c)
    ok (column_ref (some seam_alias) column)

  unfoldable mutual
    unfolding index_of point_column

    -- `PointCheckAtUpdatedRow`
    pub point_check_at_updated_row :
        Parsed → String → List String → WriteStatement → ℕ → Result Parsed
    point_check_at_updated_row (column_ref (some qualifier) name) table set_columns built
          key_count =
        ok (column_ref (some qualifier) name)
    point_check_at_updated_row (column_ref none name) table set_columns built key_count =
        point_column table built.seam_alias built.seam_columns key_count name
          (index_of name set_columns)
    point_check_at_updated_row (parameter name) table set_columns built key_count =
        ok (parameter name)
    point_check_at_updated_row (constant value) table set_columns built key_count =
        ok (constant value)
    point_check_at_updated_row (guard condition value message) table set_columns built key_count =
        do
          condition' ← point_check_at_updated_row condition table set_columns built key_count
          value' ← point_check_at_updated_row value table set_columns built key_count
          ok (guard condition' value' message)
    point_check_at_updated_row (conjunction_and left right) table set_columns built key_count = do
      left' ← point_check_at_updated_row left table set_columns built key_count
      right' ← point_check_at_updated_row right table set_columns built key_count
      ok (conjunction_and left' right')
    point_check_at_updated_row (other operation children) table set_columns built key_count = do
      children' ← point_all_at_updated_row children table set_columns built key_count
      ok (other operation children')

    pub point_all_at_updated_row :
        ParsedList → String → List String → WriteStatement → ℕ → Result ParsedList
    point_all_at_updated_row nil table set_columns built key_count = ok nil
    point_all_at_updated_row (cons child children) table set_columns built key_count = do
      child' ← point_check_at_updated_row child table set_columns built key_count
      children' ← point_all_at_updated_row children table set_columns built key_count
      ok (cons child' children')

  unfoldable pub qualify_columns : Parsed → String → WriteStatement → Result Parsed
  unfolding point_check_at_updated_row
  qualify_columns expr table built = point_check_at_updated_row expr table [] built 0
