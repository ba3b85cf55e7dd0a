-- ===== src/Permissions/Tests.antt =====
-- A run over one schema, and the theorem of read-only catalogs at it.
use duckdb_virtual_catalog.Prelude.{◌≡◌, refl, true, false, List, [], ◌∷◌, ◌++◌, none, some, All}
use duckdb_virtual_catalog.Samples.{ascii, ci_equals}
use duckdb_virtual_catalog.CaseInsensitive.{has, insert}
use duckdb_virtual_catalog.Permissions.{
  TablePermissionRow, table_entry, view_entry, CatalogEntry, SchemaEntry, ScannedSchema,
  collect_catalog_permissions, unique, collect_native_catalog_permissions,
}
use duckdb_virtual_catalog.Permissions.ReadOnly.{collect_native_catalog_permissions-read_only}

abbrev main_table : CatalogEntry
main_table = record { name = "t"; type = table_entry (unique true (some "id") [] ∷ []) }

abbrev main_view : CatalogEntry
main_view = record { name = "v"; type = view_entry }

-- Both scans give the table and the view.
abbrev main_schema : SchemaEntry
main_schema = record {
  name = "main";
  table_scan = main_table ∷ main_view ∷ [];
  view_scan = main_table ∷ main_view ∷ [];
}

permission_tests :
    collect_native_catalog_permissions true (main_schema ∷ []) none (some "T") []
    ≡ record {
      schema = "main";
      name = "t";
      kind = "native_table";
      primary_key = "id" ∷ [];
      verbs = "select" ∷ [];
    }
      ∷ []
unfolding collect_native_catalog_permissions ci_equals has insert
permission_tests = refl

collect_native_catalog_permissions-read_only_example :
    (rows : List TablePermissionRow) × (collect_native_catalog_permissions true
        (main_schema ∷ [])
        none
        none
        []
      ≡ [] ++ rows)
    × All (λ r. r.verbs ≡ "select" ∷ []) rows
collect_native_catalog_permissions-read_only_example =
    collect_native_catalog_permissions-read_only (main_schema ∷ []) none none []

abbrev view_row : TablePermissionRow
view_row = record {
  schema = "main";
  name = "v";
  kind = "native_view";
  primary_key = [];
  verbs = "select" ∷ [];
}

abbrev native_main : ScannedSchema
native_main = record { entry = main_schema; wrapper = none }

abbrev wrapped_main : ScannedSchema
wrapped_main = record { entry = main_schema; wrapper = some (λ table_filter. []) }

catalog_tests :
    (collect_catalog_permissions false (wrapped_main ∷ []) none none [] ≡ [])
    × (collect_catalog_permissions true (wrapped_main ∷ native_main ∷ []) (some "other") none []
        ≡ [])
    × (collect_catalog_permissions true (wrapped_main ∷ native_main ∷ []) none (some "v") []
        ≡ view_row ∷ view_row ∷ [])
unfolding collect_catalog_permissions ci_equals has insert
catalog_tests = (refl, refl, refl)
