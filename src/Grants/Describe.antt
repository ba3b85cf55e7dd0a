-- ===== src/Grants/Describe.antt =====
-- bridge/duckdb_source.cpp: what a target is told of a schema and of a table (`DescribeSchema`, `Describe`).
pub mod Truthful
mod Tests
use duckdb_virtual_catalog.Prelude.{
  ℕ, String, Bool, true, false, not, ◌&&◌, List, [], ◌∷◌, Option, none, some, if◌then◌else◌, Result,
  ok, err, catalog, ◌>>=◌, ◌<>◌, throw,
}
use duckdb_virtual_catalog.Host.{StringUtil, Crossing, CrossingVerb, create}
use duckdb_virtual_catalog.CaseInsensitive.{has}
use duckdb_virtual_catalog.Grants.{SourceGrant, has_verb}
use duckdb_virtual_catalog.Grants.Tables.{GrantTables, find_grant}
use duckdb_virtual_catalog.Grants.Source.{
  SourceEntry, Constraint, references, references_self, is_grantable, is_view,
}

-- A column is known by its name and a number for its type.
abbrev pub Column : Type 0
Column = String × ℕ

-- The catalog that a description reads: that of the shaping connection of the table, if there is one, else
-- that of a transaction on the source. The columns of a view are those that binding it gives.
pub record Catalog : Type 0 where
  pub entry : String → String → Option SourceEntry
  pub columns : SourceEntry → Result (List Column)

-- `CrossingSchema`
pub record DescribedSchema : Type 0 where
  pub name : String
  pub verbs : List CrossingVerb

-- `CrossingTable`
pub record DescribedTable : Type 0 where
  pub name : String
  pub columns : List Column
  pub constraints : List Constraint
  pub verbs : List CrossingVerb
  pub key : List String
  pub key_unique : Bool

unfoldable pub describe_schema : ⦃u : StringUtil⦄ → List String → String → DescribedSchema
unfolding has
describe_schema create_schemas schema = record {
  name = schema;
  verbs = if has schema create_schemas then create ∷ [] else [];
}

abbrev pub is_foreign_key : Constraint → Bool
is_foreign_key (references parent) = true
is_foreign_key references_self = true
is_foreign_key constraint = false

unfoldable pub copy_constraints : List Constraint → List Constraint
copy_constraints [] = []
copy_constraints (constraint ∷ constraints) =
    let rest = copy_constraints constraints in
    if is_foreign_key constraint then rest else constraint ∷ rest

unfoldable pub constraints_of : SourceEntry → List Constraint
unfolding copy_constraints
constraints_of entry = if is_view entry.kind then [] else copy_constraints entry.constraints

abbrev pub has_columns : List String → Bool
has_columns [] = false
has_columns (column ∷ columns) = true

module _ ⦃c : Crossing⦄ where
  unfoldable pub granted_verbs : SourceGrant → List CrossingVerb → List CrossingVerb
  unfolding has_verb
  granted_verbs grant [] = []
  granted_verbs grant (verb ∷ verbs) =
      let rest = granted_verbs grant verbs in if has_verb grant verb then verb ∷ rest else rest

  unfoldable pub describe_entry :
      Catalog → String → String → SourceGrant → Option SourceEntry → Result DescribedTable
  unfolding granted_verbs constraints_of is_grantable
  describe_entry catalogue schema name grant none =
      throw catalog ("vcatbridge: '" <> schema <> "." <> name <> "' is no longer on the source")
  describe_entry catalogue schema name grant (some entry) =
      let described : Result DescribedTable = do
        columns ← catalogue.columns entry
        ok (record {
          name = name;
          columns = columns;
          constraints = constraints_of entry;
          verbs = granted_verbs grant c.verbs;
          key = grant.key;
          key_unique = has_columns grant.key && grant.key_verified;
        })
      in if is_grantable (some entry)
        then described
        else throw catalog
            ("vcatbridge: '" <> schema <> "." <> name <> "' is no longer on the source")

  unfoldable pub describe_granted :
      Catalog → String → String → Option SourceGrant → Result DescribedTable
  unfolding describe_entry
  describe_granted catalogue schema name none =
      throw catalog ("vcatbridge: '" <> schema <> "." <> name <> "' is not granted")
  describe_granted catalogue schema name (some grant) =
      describe_entry catalogue schema name grant (catalogue.entry schema name)

-- `Describe`, of a source that is bound
unfoldable pub describe :
    ⦃u : StringUtil⦄
    → ⦃c : Crossing⦄ → GrantTables
    → Catalog
    → String
    → String
    → Result DescribedTable
unfolding describe_granted find_grant
describe tables catalogue schema name =
    describe_granted catalogue schema name (find_grant tables schema name)
