-- ===== src/Grants/Source.antt =====
-- bridge/duckdb_source.cpp: what the source database answers about its tables, and what a grant keeps of
-- it.
use duckdb_virtual_catalog.Prelude.{
  String, Bool, true, false, not, ◌||◌, List, [], ◌∷◌, Option, none, some, if◌then◌else◌, is_empty,
  Result, Failure, ok, io, catalog, ◌>>◌, ◌<>◌, throw, throw_if, ◌&&◌,
}
use duckdb_virtual_catalog.Host.{StringUtil}
use duckdb_virtual_catalog.Policy.Name.{PolicyName, to_string}
use duckdb_virtual_catalog.Grants.{TableFacts}
use duckdb_virtual_catalog.Grants.Expression.{Parsed}

pub data EntryKind : Type 0 where
  table_entry view_entry other_entry : EntryKind

-- A UNIQUE constraint has the column at its index, or names; a foreign key names its parent, or is of the
-- table itself.
pub data Constraint : Type 0 where
  unique_constraint : Bool → Option String → List String → Constraint
  references : String → Constraint
  references_self : Constraint
  other_constraint : Constraint

-- A `CatalogEntry` of the source
pub record SourceEntry : Type 0 where
  pub kind : EntryKind
  pub name : String
  pub has_column : String → Bool
  pub constraints : List Constraint

-- A column of a bound query
pub record BoundColumn : Type 0 where
  pub is_boolean : Bool
  pub type_text : String

-- The rows that a query returns before it ends or fails; `none` is NULL.
pub record QueryRows : Type 0 where
  pub rows : List (Option String)
  pub failure : Option Failure

-- The source in one transaction: its catalog by schema and name, the parser, the binder of a query that
-- filters a table by an expression and selects it, and queries.
pub record Source : Type 0 where
  pub catalog_name : String
  pub entry : String → String → Option SourceEntry
  pub has_schema : String → Bool
  pub parse : String → Result (List Parsed)
  pub bind : String → String → Parsed → Result (List BoundColumn)
  -- `ex.what()`
  pub what : Failure → String
  pub run : String → QueryRows

unfoldable pub is_grantable : Option SourceEntry → Bool
is_grantable none = false
is_grantable (some entry) = elim entry.kind [
  | table_entry ↦ true
  | view_entry ↦ true
  | other_entry ↦ false
]

abbrev pub is_table : EntryKind → Bool
is_table table_entry = true
is_table kind = false

abbrev pub is_view : EntryKind → Bool
is_view view_entry = true
is_view kind = false

unfoldable pub key_columns : Option String → List String → List String
key_columns (some column) names = column ∷ []
key_columns none names = names

-- `DiscoverKeyColumns`
unfoldable pub discover_key_columns : List Constraint → List String
unfolding key_columns
discover_key_columns [] = []
discover_key_columns (unique_constraint true index names ∷ constraints) = key_columns index names
discover_key_columns (constraint ∷ constraints) = discover_key_columns constraints

-- `DiscoverForeignKeyParents`
unfoldable pub discover_foreign_key_parents : String → List Constraint → List String
discover_foreign_key_parents name [] = []
discover_foreign_key_parents name (references parent ∷ constraints) =
    parent ∷ discover_foreign_key_parents name constraints
discover_foreign_key_parents name (references_self ∷ constraints) =
    name ∷ discover_foreign_key_parents name constraints
discover_foreign_key_parents name (constraint ∷ constraints) =
    discover_foreign_key_parents name constraints

-- `FactsOf`
unfoldable pub facts_of : SourceEntry → TableFacts
unfolding discover_key_columns discover_foreign_key_parents
facts_of entry =
    if is_table entry.kind
    then record {
      discovered_key = discover_key_columns entry.constraints;
      foreign_key_parents = discover_foreign_key_parents entry.name entry.constraints;
    }
    else record { discovered_key = []; foreign_key_parents = [] }

module _ ⦃u : StringUtil⦄ where
  unfoldable pub throw_if_other_catalog : Source → PolicyName → Result (Unit {0})
  unfolding to_string
  throw_if_other_catalog source name =
      throw_if (not (is_empty name.catalog) && not (u.ci_equals name.catalog source.catalog_name))
        io
        ("vcatbridge: '"
          <> to_string name
          <> "' names catalog '"
          <> name.catalog
          <> "', but this bridge's source catalog is '"
          <> source.catalog_name
          <> "'")

  unfoldable pub found_entry : Source → PolicyName → Option SourceEntry → Result SourceEntry
  unfolding is_grantable
  found_entry source name none = throw catalog (
      "vcatbridge: '" <> name.schema <> "." <> name.name <> "' not found in catalog '"
      <> source.catalog_name <> "' on source")
  found_entry source name (some entry) =
      if is_grantable (some entry)
      then ok entry
      else throw catalog (
          "vcatbridge: '" <> name.schema <> "." <> name.name <> "' not found in catalog '"
          <> source.catalog_name <> "' on source")

  unfoldable pub grantable_entry : Source → PolicyName → Result SourceEntry
  unfolding throw_if_other_catalog found_entry
  grantable_entry source name =
      throw_if_other_catalog source name
      >> found_entry source name (source.entry name.schema name.name)

  unfoldable pub throw_unless_schema_exists : Source → PolicyName → Result (Unit {0})
  unfolding throw_if_other_catalog
  throw_unless_schema_exists source name =
      throw_if_other_catalog source name
      >> throw_if (not (source.has_schema name.schema)) catalog (
          "vcatbridge: schema '" <> name.schema <> "' not found in catalog '" <> source.catalog_name
          <> "' on source")

  -- `std::none_of(parents, references)`
  unfoldable pub any_references : String → List String → Bool
  any_references parent [] = false
  any_references parent (name ∷ names) = u.ci_equals name parent || any_references parent names

  unfoldable pub throw_unless_foreign_key :
      Source → SourceEntry → PolicyName → PolicyName → Result (Unit {0})
  unfolding throw_if_other_catalog discover_foreign_key_parents any_references
  throw_unless_foreign_key source entry child parent =
      throw_if_other_catalog source parent
      >> throw_if (not (is_table entry.kind)) io (
          "vcatbridge: '" <> child.schema <> "." <> child.name
          <> "' is a view; a view has no foreign keys")
      >> throw_if
          (not (
            any_references parent.name (discover_foreign_key_parents entry.name entry.constraints)))
          io
          ("vcatbridge: '" <> child.schema <> "." <> child.name <> "' has no foreign key to '"
            <> parent.schema <> "." <> parent.name <> "'")
