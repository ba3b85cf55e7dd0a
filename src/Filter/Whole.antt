-- ===== src/Filter/Whole.antt =====
-- provider/include/filter_json.hpp: a whole filter set, serialized or refused.
pub mod Columns
pub mod Rows
pub mod Sound
use duckdb_virtual_catalog.Prelude.{
  ℕ, String, Bool, true, false, List, [], ◌∷◌, ◌++◌, Option, none, some, get_elem?, if◌then◌else◌,
}
use duckdb_virtual_catalog.Filter.{
  Expression, FilterFidelity, exact, optional_skipped, unsupported, Clause, Rendered, refuse,
  try_build_clauses,
}

-- A `TableFilter`: an `ExpressionFilter`, or one of another type, of which only a number is known
pub data TableFilter : Type 0 where
  expression_filter : Expression → TableFilter
  other_filter : ℕ → TableFilter

-- A filter of several columns: whether `IsOptionalFilter` holds, and a number for what it computes
pub record MultiColumnFilter : Type 0 where
  pub is_optional : Bool
  pub computation : ℕ

-- An entry is a filter under the index of its column.
pub record TableFilterSet : Type 0 where
  pub multi_column : List MultiColumnFilter
  pub entries : List (ℕ × TableFilter)

pub record FilterSerializeResult : Type 0 where
  pub all_exact : Bool
  pub first_unsupported : String

-- The array of clauses and the result, both of which the code appends to in place
pub record Serialized : Type 0 where
  pub arr : List Clause
  pub result : FilterSerializeResult

-- What `SerializeFilters` starts from
abbrev pub no_clauses : Serialized
no_clauses = record { arr = []; result = record { all_exact = true; first_unsupported = "" } }

unfoldable pub mark_unsupported : String → FilterSerializeResult → FilterSerializeResult
mark_unsupported col result = record {
  all_exact = false;
  first_unsupported = if result.all_exact then col else result.first_unsupported;
}

-- `TryBuildClauses` of a `TableFilter`
unfoldable pub try_build_filter : TableFilter → String → Rendered
unfolding try_build_clauses
try_build_filter (expression_filter e) column = try_build_clauses e column
try_build_filter (other_filter i) column = refuse

unfoldable pub mark_multi_column :
    List MultiColumnFilter → FilterSerializeResult → FilterSerializeResult
unfolding mark_unsupported
mark_multi_column [] result = result
mark_multi_column (filter ∷ filters) result =
    mark_multi_column filters (if filter.is_optional then result else mark_unsupported "?" result)

-- The name of the column at a filter's index. `filter_to_col` is the source's map.
unfoldable pub column_of : (ℕ → Option ℕ) → List String → ℕ → Option String
column_of filter_to_col column_names index = elim (filter_to_col index) [
  | none ↦ none
  | some col ↦ get_elem? column_names col
]

unfoldable pub append_rendered : Rendered → String → Serialized → Serialized
unfolding mark_unsupported
append_rendered r col s = elim r.fidelity [
  | unsupported ↦ record { arr = s.arr; result = mark_unsupported col s.result }
  | _ ↦ record { arr = s.arr ++ r.clauses; result = s.result }
]

unfoldable pub serialize_entry : Option String → TableFilter → Serialized → Serialized
unfolding mark_unsupported try_build_filter append_rendered
serialize_entry none filter s = record { arr = s.arr; result = mark_unsupported "?" s.result }
serialize_entry (some col) filter s = append_rendered (try_build_filter filter col) col s

unfoldable pub serialize_entries :
    (ℕ → Option ℕ) → List String → List (ℕ × TableFilter) → Serialized → Serialized
unfolding column_of serialize_entry
serialize_entries filter_to_col column_names [] s = s
serialize_entries filter_to_col column_names ((index, filter) ∷ entries) s =
    serialize_entries filter_to_col column_names entries
      (serialize_entry (column_of filter_to_col column_names index) filter s)

-- `SerializeFiltersInto`
unfoldable pub serialize_filters_into :
    TableFilterSet → (ℕ → Option ℕ) → List String → Serialized → Serialized
unfolding mark_multi_column serialize_entries
serialize_filters_into set filter_to_col column_names s =
    serialize_entries filter_to_col column_names set.entries
      (record { arr = s.arr; result = mark_multi_column set.multi_column s.result })
