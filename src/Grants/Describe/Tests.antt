-- ===== src/Grants/Describe/Tests.antt =====
-- A described table.
use duckdb_virtual_catalog.Prelude.{◌≡◌, refl, true, [], ◌∷◌, none, some, ok}
use duckdb_virtual_catalog.Host.{select, insert}
use duckdb_virtual_catalog.Samples.{ascii, verb_table, ci_equals}
use duckdb_virtual_catalog.Policy.Name.{PolicyName}
use duckdb_virtual_catalog.Grants.{SourceGrant}
use duckdb_virtual_catalog.Grants.Tables.{GrantTables, empty_policy, find_grant, is_granted}
use duckdb_virtual_catalog.Grants.Edits.{edit_verb}
use duckdb_virtual_catalog.Grants.Source.{Constraint, table_entry, unique_constraint, references}
use duckdb_virtual_catalog.Grants.Describe.{Catalog, DescribedTable, describe}
use duckdb_virtual_catalog.Grants.Describe.Truthful.{AreLocal, lists, describe_lem}

abbrev orders : PolicyName
orders = record { catalog = ""; schema = "main"; name = "orders" }

abbrev tables : GrantTables
tables =
    (edit_verb orders select
      (some (
        record {
          granted = true;
          using_predicate = none;
          check_predicate = none;
          unrestricted = true;
        },
        record { discovered_key = "id" ∷ []; foreign_key_parents = "customers" ∷ [] },
      ))
      empty_policy).tables

abbrev id_key : Constraint
id_key = unique_constraint true (some "id") []

abbrev catalogue : Catalog
catalogue = record {
  entry = λ schema name. some (record {
    kind = table_entry;
    name = name;
    has_column = λ column. true;
    constraints = references "customers" ∷ id_key ∷ [];
  });
  columns = λ entry. ok (("id", 1) ∷ []);
}

abbrev described : DescribedTable
described = record {
  name = "Orders";
  columns = ("id", 1) ∷ [];
  constraints = id_key ∷ [];
  verbs = select ∷ [];
  key = "id" ∷ [];
  key_unique = true;
}

describing : Unit {0}
unfolding describe edit_verb ci_equals
describing = tt

describe_tests : describe tables catalogue "main" "Orders" ≡ ok described
unfolding describing
describe_tests = refl

describe_lem_example :
    (grant : SourceGrant) × (find_grant tables "main" "Orders" ≡ some grant)
    × (lists insert described.verbs ≡ is_granted tables "main" "Orders" insert)
    × AreLocal described.constraints
unfolding describing
describe_lem_example = describe_lem tables catalogue "main" "Orders" described insert refl
