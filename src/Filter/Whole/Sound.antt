-- ===== src/Filter/Whole/Sound.antt =====
-- A filter set that serializes without a loss: no row is lost, and none slips through.
use duckdb_virtual_catalog.Prelude.{
  ℕ, String, ◌≡◌, refl, sym, ◌∙◌, ◌≢◌, inl, inr, Bool, true, ◌&&◌, List, [], ◌∷◌, ◌++◌, Option,
  none, some, arith, Bool-cases, some_injective, subst,
}
use duckdb_virtual_catalog.Filter.{
  FilterFidelity, exact, optional_skipped, unsupported, Clause, Rendered,
}
use duckdb_virtual_catalog.Filter.Meaning.{Cells, Reader}
use duckdb_virtual_catalog.Filter.Exact.{clauses_pass}
use duckdb_virtual_catalog.Filter.Fidelity.{Sandwich, Sandwich-and, try_build_clauses-Between}
use duckdb_virtual_catalog.Filter.Whole.{
  TableFilter, expression_filter, other_filter, MultiColumnFilter, TableFilterSet,
  FilterSerializeResult, Serialized, mark_unsupported, try_build_filter, mark_multi_column,
  column_of, append_rendered, serialize_entry, serialize_entries, serialize_filters_into,
  no_clauses,
}
use duckdb_virtual_catalog.Filter.Whole.Columns.{NamesColumn, try_build_clauses-NamesColumn}
use duckdb_virtual_catalog.Filter.Whole.Rows.{
  Row, filter_passes, filter_passes_mandatory, entries_pass, entries_pass_mandatory,
  multi_column_pass_mandatory, set_passes, set_passes_mandatory, IsNamed, IsReadableFilter,
  AreReadableEntries, row_read, row_read-append, row_read-NamesColumn,
}

append_rendered_inv :
    (rendered : Rendered) (col : String) (s : Serialized)
    → (append_rendered rendered col s).result.all_exact ≡ true
    → (rendered.fidelity ≢ unsupported)
      × ((append_rendered rendered col s).arr ≡ s.arr ++ rendered.clauses)
      × (s.result.all_exact ≡ true)
unfolding append_rendered mark_unsupported
append_rendered_inv rendered col s h = go rendered.fidelity refl
  where
    go :
        (f : FilterFidelity)
        → rendered.fidelity ≡ f
        → (rendered.fidelity ≢ unsupported)
          × ((append_rendered rendered col s).arr ≡ s.arr ++ rendered.clauses)
          × (s.result.all_exact ≡ true)
    go exact e = (λ k. cc (e, k), rw e refl, rw e at h)
    go optional_skipped e = (λ k. cc (e, k), rw e refl, rw e at h)
    go unsupported e = cc (rw e at h)

-- A set without a loss has only optional filters of several columns.
mark_multi_column_inv :
    (c : Cells) (row : Row c) (filters : List MultiColumnFilter) (result : FilterSerializeResult)
    → (mark_multi_column filters result).all_exact ≡ true
    → (result.all_exact ≡ true) × (multi_column_pass_mandatory c row filters ≡ true)
unfolding mark_multi_column mark_unsupported multi_column_pass_mandatory
mark_multi_column_inv c row [] result h = (h, refl)
mark_multi_column_inv c row (filter ∷ filters) result h = elim (Bool-cases filter.is_optional) [
  | inl optional ↦ rw optional (mark_multi_column_inv c row filters result (rw optional at h))
  | inr mandatory ↦
      cc (mark_multi_column_inv c row filters (mark_unsupported "?" result) (rw mandatory at h)).0
]

module _ (c : Cells) (r : Reader c) where
  filter_Sandwich :
      (x : c.Cell) (filter : TableFilter) (col : String) (b : Bool)
      → IsReadableFilter c r x filter
      → (try_build_filter filter col).fidelity ≢ unsupported
      → clauses_pass c r x (try_build_filter filter col).clauses ≡ some b
      → Sandwich (filter_passes c x filter) b (filter_passes_mandatory c x filter)
  unfolding try_build_filter filter_passes filter_passes_mandatory
  filter_Sandwich x (expression_filter e) col b typed supported h =
      try_build_clauses-Between c r x e col typed supported b h
  filter_Sandwich x (other_filter i) col b typed supported h = absurd (supported refl)

  filter-NamesColumn :
      (filter : TableFilter) (col : String) → NamesColumn col (try_build_filter filter col).clauses
  unfolding try_build_filter
  filter-NamesColumn (expression_filter e) col = try_build_clauses-NamesColumn e col
  filter-NamesColumn (other_filter i) col = tt

  -- Clauses were added that let a row pass between `whole` and `mandatory`.
  abbrev pub HasAdded : Row c → List Clause → List Clause → Bool → Bool → Type 0
  HasAdded row before after whole mandatory =
      (b : Bool)
      → row_read c r row after ≡ some b
      → (b₁ : Bool) × (b₂ : Bool) × (row_read c r row before ≡ some b₁)
        × (b ≡ (b₁ && b₂))
        × Sandwich whole b₂ mandatory

  HasAdded-trans :
      (row : Row c) (xs ys zs : List Clause) (whole mandatory whole' mandatory' : Bool)
      → HasAdded row xs ys whole mandatory
      → HasAdded row ys zs whole' mandatory'
      → HasAdded row xs zs (whole && whole') (mandatory && mandatory')
  HasAdded-trans row xs ys zs whole mandatory whole' mandatory' first later b h =
      let (b₁, b₂, h₁, split, bounds) = later b h in
      let (d₁, d₂, k₁, split', bounds') = first b₁ h₁ in
      (
        d₁,
        d₂ && b₂,
        k₁,
        ground arith,
        Sandwich-and whole d₂ mandatory whole' b₂ mandatory' bounds' bounds,
      )

  entry-HasAdded :
      (row : Row c) (found : Option String) (index : ℕ) (filter : TableFilter) (s : Serialized)
      → ((col : String) → found ≡ some col → row.at_name col ≡ row.at_index index)
      → IsReadableFilter c r (row.at_index index) filter
      → (serialize_entry found filter s).result.all_exact ≡ true
      → (s.result.all_exact ≡ true)
        × HasAdded row s.arr
            (serialize_entry found filter s).arr
            (filter_passes c (row.at_index index) filter)
            (filter_passes_mandatory c (row.at_index index) filter)
  unfolding serialize_entry mark_unsupported
  entry-HasAdded row none index filter s named typed exact_set = cc
  entry-HasAdded row (some col) index filter s named typed exact_set =
      let (supported, added, before) = append_rendered_inv _ col s exact_set in
      (
        before,
        λ b h.
            let clauses = (try_build_filter filter col).clauses in
            let (b₁, b₂, h₁, h₂, split) = row_read-append c r row s.arr clauses b (rw added at h) in
            let at_cell =
              sym (row_read-NamesColumn c r row col clauses (filter-NamesColumn filter col)) ∙ h₂ in
            (
              b₁,
              b₂,
              h₁,
              split,
              filter_Sandwich (row.at_index index) filter col b₂ typed supported
                  (subst (λ x. clauses_pass c r x clauses ≡ some b₂) (named col refl) at_cell),
            ),
      )

  entries-HasAdded :
      (row : Row c) (filter_to_col : ℕ → Option ℕ) (column_names : List String)
      (entries : List (ℕ × TableFilter)) (s : Serialized)
      → IsNamed c row filter_to_col column_names
      → AreReadableEntries c r row entries
      → (serialize_entries filter_to_col column_names entries s).result.all_exact ≡ true
      → (s.result.all_exact ≡ true)
        × HasAdded row s.arr
            (serialize_entries filter_to_col column_names entries s).arr
            (entries_pass c row entries)
            (entries_pass_mandatory c row entries)
  unfolding serialize_entries entries_pass entries_pass_mandatory
  entries-HasAdded row filter_to_col column_names [] s named typed exact_set =
      (exact_set, λ b h. (b, true, h, ground arith, (λ e. refl, λ e. refl)))
  entries-HasAdded row filter_to_col column_names ((index, filter) ∷ entries) s named
        (typed, all_typed) exact_set =
      let found = column_of filter_to_col column_names index in
      let (between, later) =
        entries-HasAdded row filter_to_col column_names entries (serialize_entry found filter s)
          named all_typed exact_set in
      let (before, first) = entry-HasAdded row found index filter s (named index) typed between in
      (before, HasAdded-trans row s.arr _ _ _ _ _ _ first later)

  -- If a filter set serializes without a loss and the reader accepts the clauses, then the clauses let a
  -- row pass that passes the set, and only a row that passes its mandatory filters: for a row whose
  -- cells are named as the filters' columns are sent, and where the reader reads plainly each value
  -- that a filter compares a cell with, and the values of each `IN` list share a type.
  pub serialize_filters_into_sound :
      (row : Row c) (set : TableFilterSet) (filter_to_col : ℕ → Option ℕ)
      (column_names : List String)
      → IsNamed c row filter_to_col column_names
      → AreReadableEntries c r row set.entries
      → let out = serialize_filters_into set filter_to_col column_names no_clauses in
        out.result.all_exact ≡ true
        → (b : Bool) → row_read c r row out.arr ≡ some b
        → (set_passes c row set ≡ true → b ≡ true)
          × (b ≡ true → set_passes_mandatory c row set ≡ true)
  unfolding serialize_filters_into set_passes set_passes_mandatory row_read
  serialize_filters_into_sound row set filter_to_col column_names named typed exact_set b h =
      let (before, added) =
        entries-HasAdded row filter_to_col column_names set.entries _ named typed exact_set in
      let (marked, mandatory) = mark_multi_column_inv c row set.multi_column _ before in
      let (b₁, b₂, h₁, split, (up, down)) = added b h in
      let start = some_injective h₁ in (λ p. ground arith, λ p. ground arith)
