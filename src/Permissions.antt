-- ===== src/Permissions.antt =====
-- vcat/vcat_permissions.cpp: the verbs that a native catalog reports for its tables and views.
pub mod ReadOnly
mod Tests
use duckdb_virtual_catalog.Prelude.{
  ℕ, zero, suc, String, Bool, true, false, not, ◌&&◌, ◌||◌, List, [], ◌∷◌, ◌++◌, Option, none, some,
  if◌then◌else◌, length,
}
use duckdb_virtual_catalog.Host.{StringUtil}
use duckdb_virtual_catalog.CaseInsensitive.{has, insert}

pub record TablePermissionRow : Type 0 where
  pub schema : String
  pub name : String
  pub kind : String
  pub primary_key : List String
  pub verbs : List String

-- A constraint of a table. A UNIQUE one: whether it is the primary key, the column at its index if it
-- has one, and its columns' names
pub data Constraint : Type 0 where
  unique : Bool → Option String → List String → Constraint
  other_constraint : Constraint

pub data EntryType : Type 0 where
  table_entry : List Constraint → EntryType
  view_entry other_entry : EntryType

pub record CatalogEntry : Type 0 where
  pub name : String
  pub type : EntryType

-- A schema, by what its scans for tables and for views give
pub record SchemaEntry : Type 0 where
  pub name : String
  pub table_scan : List CatalogEntry
  pub view_scan : List CatalogEntry

unfoldable pub native_table_primary_key : List Constraint → List String
native_table_primary_key [] = []
native_table_primary_key (other_constraint ∷ constraints) = native_table_primary_key constraints
native_table_primary_key (unique false index names ∷ constraints) =
    native_table_primary_key constraints
native_table_primary_key (unique true (some column) names ∷ constraints) = column ∷ []
native_table_primary_key (unique true none names ∷ constraints) = names

-- `seen` and `out`
pub record Collected : Type 0 where
  pub seen : List String
  pub out : List TablePermissionRow

module _ ⦃u : StringUtil⦄ where
  unfoldable pub matches : Option String → String → Bool
  matches none name = true
  matches (some filter) name = u.ci_equals name filter

  -- An entry that matches and was not seen
  unfoldable pub add_entry : String → String → EntryType → Collected → Collected
  unfolding insert native_table_primary_key
  add_entry schema_name name view_entry c = record {
    seen = insert name c.seen;
    out =
        c.out
        ++ (record {
          schema = schema_name;
          name = name;
          kind = "native_view";
          primary_key = [];
          verbs = "select" ∷ [];
        }
            ∷ []);
  }
  add_entry schema_name name (table_entry constraints) c = record {
    seen = insert name c.seen;
    out =
        c.out
        ++ (record {
          schema = schema_name;
          name = name;
          kind = "native_table";
          primary_key = native_table_primary_key constraints;
          verbs = "select" ∷ "insert" ∷ "update" ∷ "delete" ∷ "alter" ∷ [];
        }
            ∷ []);
  }
  add_entry schema_name name other_entry c = c

  unfoldable pub scan_entries : String → Option String → List CatalogEntry → Collected → Collected
  unfolding matches add_entry has
  scan_entries schema_name table_filter [] c = c
  scan_entries schema_name table_filter (e ∷ es) c = scan_entries schema_name table_filter es (
      if not (matches table_filter e.name) || has e.name c.seen
      then c
      else add_entry schema_name e.name e.type c)

  -- `CollectNativeSchemaPermissions`
  unfoldable pub collect_native_schema_permissions :
      SchemaEntry → String → Option String → Collected → Collected
  unfolding scan_entries
  collect_native_schema_permissions schema schema_name table_filter c =
      scan_entries schema_name table_filter schema.view_scan
        (scan_entries schema_name table_filter schema.table_scan c)

  unfoldable pub collect_schemas :
      Option String
      → Option String
      → List SchemaEntry
      → List TablePermissionRow
      → List TablePermissionRow
  unfolding matches collect_native_schema_permissions
  collect_schemas schema_filter table_filter [] out = out
  collect_schemas schema_filter table_filter (s ∷ schemas) out =
      collect_schemas schema_filter table_filter schemas (
        if matches schema_filter s.name
        then (collect_native_schema_permissions s s.name table_filter
            (record { seen = []; out = out })).out
        else out)

  unfoldable pub narrow : TablePermissionRow → TablePermissionRow
  narrow row = elim row.verbs [ [] ↦ row | _ ∷ _ ↦ record row { verbs = "select" ∷ [] } ]

  -- The loop over the rows from an index on
  unfoldable pub narrow_from : ℕ → List TablePermissionRow → List TablePermissionRow
  unfolding narrow
  narrow_from first [] = []
  narrow_from zero (row ∷ rows) = narrow row ∷ narrow_from zero rows
  narrow_from (suc first) (row ∷ rows) = row ∷ narrow_from first rows

  -- `CollectCatalogPermissionsHonoringReadOnlyAttach`
  unfoldable pub collect_native_catalog_permissions :
      Bool
      → List SchemaEntry
      → Option String
      → Option String
      → List TablePermissionRow
      → List TablePermissionRow
  unfolding collect_schemas narrow_from
  collect_native_catalog_permissions is_read_only schemas schema_filter table_filter out =
      let collected = collect_schemas schema_filter table_filter schemas out in
      if is_read_only then narrow_from (length out) collected else collected

-- A schema of a catalog: what its scans give and, if it is a wrapper of this extension, the rows that
-- its `CollectPermissions` adds for a filter of tables
pub record ScannedSchema : Type 0 where
  pub entry : SchemaEntry
  pub wrapper : Option (Option String → List TablePermissionRow)

abbrev pub entries_of : List ScannedSchema → List SchemaEntry
entries_of [] = []
entries_of (s ∷ schemas) = s.entry ∷ entries_of schemas

unfoldable pub append_wrapper :
    Option (Option String → List TablePermissionRow)
    → Option String
    → Option (List TablePermissionRow)
    → Option (List TablePermissionRow)
append_wrapper none table_filter rest = none
append_wrapper (some collect) table_filter none = none
append_wrapper (some collect) table_filter (some rows) = some (collect table_filter ++ rows)

module _ ⦃u : StringUtil⦄ where
  -- The rows of the wrappers; `none`: a schema that the filter takes is no wrapper.
  unfoldable pub wrapper_rows :
      Option String → Option String → List ScannedSchema → Option (List TablePermissionRow)
  unfolding matches append_wrapper
  wrapper_rows schema_filter table_filter [] = some []
  wrapper_rows schema_filter table_filter (s ∷ schemas) =
      let rest = wrapper_rows schema_filter table_filter schemas in
      if matches schema_filter s.entry.name
      then append_wrapper s.wrapper table_filter rest
      else rest

  -- `TryCollectPermissionsThroughSchemaWrappers`; `none`: it returns false and adds nothing.
  unfoldable pub try_collect_permissions :
      List ScannedSchema
      → Option String
      → Option String
      → List TablePermissionRow
      → Option (List TablePermissionRow)
  unfolding wrapper_rows
  try_collect_permissions schemas schema_filter table_filter out =
      elim (wrapper_rows schema_filter table_filter schemas) [
        | none ↦ none
        | some rows ↦ some (out ++ rows)
      ]

  unfoldable pub collect_catalog_permissions :
      Bool
      → List ScannedSchema
      → Option String
      → Option String
      → List TablePermissionRow
      → List TablePermissionRow
  unfolding try_collect_permissions collect_native_catalog_permissions
  collect_catalog_permissions is_read_only schemas schema_filter table_filter out =
      elim (try_collect_permissions schemas schema_filter table_filter out) [
        | some collected ↦ collected
        | none ↦
            collect_native_catalog_permissions is_read_only (entries_of schemas) schema_filter
              table_filter out
      ]
