-- ===== src/Filter/Whole/Rows.antt =====
-- What a filter set and its serialized form say of a row: the set that serializes without a loss.
use duckdb_virtual_catalog.Prelude.{
  ℕ, String, ◌≡◌, refl, Bool, true, ◌&&◌, List, [], ◌∷◌, ◌++◌, Option, some, arith, if◌then◌else◌,
}
use duckdb_virtual_catalog.Filter.{Clause}
use duckdb_virtual_catalog.Filter.Meaning.{Cells, Reader, passes, passes_mandatory, clause_passes}
use duckdb_virtual_catalog.Filter.Exact.{IsReadable, clauses_pass, and_read, and_read_inv}
use duckdb_virtual_catalog.Filter.Whole.{
  TableFilter, expression_filter, other_filter, MultiColumnFilter, TableFilterSet, column_of,
}
use duckdb_virtual_catalog.Filter.Whole.Columns.{NamesColumn}

-- A row of the source, by the index of the column and by its name, and what the filters of several
-- columns compute of it
pub record Row (c : Cells) : Type 0 where
  pub at_index : ℕ → c.Cell
  pub at_name : String → c.Cell
  pub computes_over : ℕ → Bool

module _ (c : Cells) where
  unfoldable pub filter_passes : c.Cell → TableFilter → Bool
  filter_passes x (expression_filter e) = passes c x e
  filter_passes x (other_filter i) = c.computes i x

  unfoldable pub filter_passes_mandatory : c.Cell → TableFilter → Bool
  filter_passes_mandatory x (expression_filter e) = passes_mandatory c x e
  filter_passes_mandatory x (other_filter i) = c.computes i x

  unfoldable pub entries_pass : Row c → List (ℕ × TableFilter) → Bool
  unfolding filter_passes
  entries_pass row [] = true
  entries_pass row ((index, filter) ∷ entries) =
      filter_passes (row.at_index index) filter && entries_pass row entries

  unfoldable pub entries_pass_mandatory : Row c → List (ℕ × TableFilter) → Bool
  unfolding filter_passes_mandatory
  entries_pass_mandatory row [] = true
  entries_pass_mandatory row ((index, filter) ∷ entries) =
      filter_passes_mandatory (row.at_index index) filter && entries_pass_mandatory row entries

  unfoldable pub multi_column_pass : Row c → List MultiColumnFilter → Bool
  multi_column_pass row [] = true
  multi_column_pass row (filter ∷ filters) =
      row.computes_over filter.computation && multi_column_pass row filters

  unfoldable pub multi_column_pass_mandatory : Row c → List MultiColumnFilter → Bool
  multi_column_pass_mandatory row [] = true
  multi_column_pass_mandatory row (filter ∷ filters) =
      (if filter.is_optional then true else row.computes_over filter.computation)
      && multi_column_pass_mandatory row filters

  -- Whether a row passes the whole filter set
  unfoldable pub set_passes : Row c → TableFilterSet → Bool
  unfolding entries_pass multi_column_pass
  set_passes row set = multi_column_pass row set.multi_column && entries_pass row set.entries

  -- Whether a row passes what nothing above the scan enforces
  unfoldable pub set_passes_mandatory : Row c → TableFilterSet → Bool
  unfolding entries_pass_mandatory multi_column_pass_mandatory
  set_passes_mandatory row set =
      multi_column_pass_mandatory row set.multi_column && entries_pass_mandatory row set.entries

  -- The name that a filter's column is sent under stands for the column at the filter's index.
  abbrev pub IsNamed : Row c → (ℕ → Option ℕ) → List String → Type 0
  IsNamed row filter_to_col column_names =
      (index : ℕ) (col : String)
      → column_of filter_to_col column_names index ≡ some col
      → row.at_name col ≡ row.at_index index

module _ (c : Cells) (r : Reader c) where
  abbrev pub IsReadableFilter : c.Cell → TableFilter → Type 0
  IsReadableFilter x (expression_filter e) = IsReadable c r x e
  IsReadableFilter x (other_filter i) = Unit

  -- The filters are readable at the cells of a row: their `IN` lists have values of one type, and the
  -- reader reads plainly what the row's cells are compared with.
  abbrev pub AreReadableEntries : Row c → List (ℕ × TableFilter) → Type 0
  AreReadableEntries row [] = Unit
  AreReadableEntries row ((index, filter) ∷ entries) =
      IsReadableFilter (row.at_index index) filter × AreReadableEntries row entries

  -- What the reader makes of the clauses at a row; `none`: it refuses one.
  unfoldable pub row_read : Row c → List Clause → Option Bool
  unfolding and_read
  row_read row [] = some true
  row_read row (clause ∷ clauses) =
      and_read (clause_passes c r (row.at_name clause.column) clause) (row_read row clauses)

  pub row_read-append :
      (row : Row c) (xs ys : List Clause) (b : Bool)
      → row_read row (xs ++ ys) ≡ some b
      → (b₁ : Bool) × (b₂ : Bool) × (row_read row xs ≡ some b₁)
        × (row_read row ys ≡ some b₂)
        × (b ≡ (b₁ && b₂))
  unfolding row_read
  row_read-append row [] ys b h = (true, b, refl, h, refl)
  row_read-append row (k ∷ xs) ys b h =
      let (first, later, e, e', same) =
        and_read_inv (clause_passes c r (row.at_name k.column) k) _ b h in
      let (d₁, d₂, h₁, h₂, split) = row_read-append row xs ys later e' in
      (first && d₁, d₂, rw (e, h₁) refl, h₂, ground arith)

  pub row_read-NamesColumn :
      (row : Row c) (col : String) (clauses : List Clause)
      → NamesColumn col clauses
      → row_read row clauses ≡ clauses_pass c r (row.at_name col) clauses
  unfolding row_read clauses_pass
  row_read-NamesColumn row col [] named = refl
  row_read-NamesColumn row col (k ∷ clauses) (named, all_named) =
      rw (named, row_read-NamesColumn row col clauses all_named) refl
