-- ===== src/Permissions/ReadOnly.antt =====
-- A catalog that is attached read-only reports `select` alone.
use duckdb_virtual_catalog.Prelude.{
  ◌≡◌, refl, sym, ap, ◌∙◌, inl, inr, String, Bool, true, false, not, ◌||◌, List, [], ◌∷◌, ◌++◌,
  Option, length, All, All-append, Bool-cases, if◌then◌else◌,
}
use mathlib.Core.List.{append-nil, append_assoc}
use duckdb_virtual_catalog.Host.{StringUtil}
use duckdb_virtual_catalog.CaseInsensitive.{has}
use duckdb_virtual_catalog.Permissions.{
  TablePermissionRow, EntryType, table_entry, view_entry, other_entry, CatalogEntry, SchemaEntry,
  Collected, matches, add_entry, scan_entries, collect_native_schema_permissions, collect_schemas,
  narrow, narrow_from, collect_native_catalog_permissions,
}

-- A row that can be selected from once it is narrowed
abbrev IsNarrowed : ⦃u : StringUtil⦄ → TablePermissionRow → Type 0
IsNarrowed row = (narrow row).verbs ≡ "select" ∷ []

module _ ⦃u : StringUtil⦄ where
  -- Rows were added, each with some verb.
  abbrev HasAdded : List TablePermissionRow → List TablePermissionRow → Type 0
  HasAdded out out' =
      (rows : List TablePermissionRow) × (out' ≡ out ++ rows) × All (λ r. IsNarrowed r) rows

  HasAdded-refl : (out : List TablePermissionRow) → HasAdded out out
  HasAdded-refl out = ([], sym (append-nil out), tt)

  HasAdded-trans : (a b c : List TablePermissionRow) → HasAdded a b → HasAdded b c → HasAdded a c
  HasAdded-trans a b c (xs, e, h) (ys, e', h') = (
    xs ++ ys,
    e' ∙ ap (λ q. q ++ ys) e ∙ append_assoc a xs ys,
    All-append (λ r. IsNarrowed r) xs ys h h',
  )

  add_entry-HasAdded :
      (schema_name name : String) (t : EntryType) (c : Collected)
      → HasAdded c.out (add_entry schema_name name t c).out
  unfolding add_entry narrow
  add_entry-HasAdded schema_name name view_entry c = (_, refl, (refl, tt))
  add_entry-HasAdded schema_name name (table_entry constraints) c = (_, refl, (refl, tt))
  add_entry-HasAdded schema_name name other_entry c = HasAdded-refl c.out

  either :
      (skips : Bool) (c next : Collected)
      → HasAdded c.out next.out
      → HasAdded c.out (if skips then c else next).out
  either true c next h = HasAdded-refl c.out
  either false c next h = h

  scan_entries-HasAdded :
      (schema_name : String) (table_filter : Option String) (es : List CatalogEntry) (c : Collected)
      → HasAdded c.out (scan_entries schema_name table_filter es c).out
  unfolding scan_entries
  scan_entries-HasAdded schema_name table_filter [] c = HasAdded-refl c.out
  scan_entries-HasAdded schema_name table_filter (e ∷ es) c =
      let skips = not (matches table_filter e.name) || has e.name c.seen in
      let next : Collected = if skips then c else add_entry schema_name e.name e.type c in
      HasAdded-trans c.out next.out (scan_entries schema_name table_filter es next).out
        (either skips c (add_entry schema_name e.name e.type c)
          (add_entry-HasAdded schema_name e.name e.type c))
        (scan_entries-HasAdded schema_name table_filter es next)

  collect_schemas-HasAdded :
      (schema_filter table_filter : Option String) (schemas : List SchemaEntry)
      (out : List TablePermissionRow)
      → HasAdded out (collect_schemas schema_filter table_filter schemas out)
  unfolding collect_schemas collect_native_schema_permissions
  collect_schemas-HasAdded schema_filter table_filter [] out = HasAdded-refl out
  collect_schemas-HasAdded schema_filter table_filter (s ∷ schemas) out =
      elim (Bool-cases (matches schema_filter s.name)) [
        | inr other ↦ rw other (collect_schemas-HasAdded schema_filter table_filter schemas out)
        | inl wanted ↦
            let start : Collected = record { seen = []; out = out } in
            let tables = scan_entries s.name table_filter s.table_scan start in
            let both = scan_entries s.name table_filter s.view_scan tables in
            rw wanted (
              HasAdded-trans out both.out _
                (HasAdded-trans out tables.out both.out
                  (scan_entries-HasAdded s.name table_filter s.table_scan start)
                  (scan_entries-HasAdded s.name table_filter s.view_scan tables))
                (collect_schemas-HasAdded schema_filter table_filter schemas both.out))
      ]

  narrow_rows :
      (rows : List TablePermissionRow)
      → All (λ r. IsNarrowed r) rows
      → All (λ r. r.verbs ≡ "select" ∷ []) (narrow_from 0 rows)
  unfolding narrow_from
  narrow_rows [] h = tt
  narrow_rows (row ∷ rows) (h, all_h) = (h, narrow_rows rows all_h)

  narrow_from-append :
      (out rows : List TablePermissionRow)
      → narrow_from (length out) (out ++ rows) ≡ out ++ narrow_from 0 rows
  unfolding narrow_from
  narrow_from-append [] rows = refl
  narrow_from-append (r ∷ out) rows = ap (λ q. r ∷ q) (narrow_from-append out rows)

  -- A read-only catalog: the rows that were there stay as they are, and each row that is added
  -- reports `select` and nothing else, whatever the schemas hold and the filters are.
  pub collect_native_catalog_permissions-read_only :
      (schemas : List SchemaEntry) (schema_filter table_filter : Option String)
      (out : List TablePermissionRow)
      → (rows : List TablePermissionRow) × (collect_native_catalog_permissions true schemas
            schema_filter table_filter out
          ≡ out ++ rows)
        × All (λ r. r.verbs ≡ "select" ∷ []) rows
  unfolding collect_native_catalog_permissions
  collect_native_catalog_permissions-read_only schemas schema_filter table_filter out =
      let (rows, e, narrowed) = collect_schemas-HasAdded schema_filter table_filter schemas out in
      (
        narrow_from 0 rows,
        ap (narrow_from (length out)) e ∙ narrow_from-append out rows,
        narrow_rows rows narrowed,
      )
