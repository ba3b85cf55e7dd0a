-- ===== src/Grants/Tables.antt =====
-- bridge/duckdb_source.cpp: the tables of grants, by schema and by name.
pub mod Laws
pub mod Whole
use duckdb_virtual_catalog.Prelude.{
  String, Bool, true, false, List, [], ◌∷◌, Option, none, some, if◌then◌else◌,
}
use duckdb_virtual_catalog.Host.{StringUtil, Crossing, CrossingVerb}
use duckdb_virtual_catalog.CaseInsensitive.{find, assign, remove}
use duckdb_virtual_catalog.Grants.{
  SourceGrant, FunctionGrants, no_grant, has_verb, copy_using, copy_check,
}
use duckdb_virtual_catalog.Grants.Expression.{Parsed}

abbrev pub TableGrants : Type 0
TableGrants = List (String × SourceGrant)

abbrev pub GrantTables : Type 0
GrantTables = List (String × TableGrants)

pub record PolicyState : Type 0 where
  pub tables : GrantTables
  pub create_schemas : List String
  pub functions : FunctionGrants

abbrev pub empty_policy : PolicyState
empty_policy = record {
  tables = [];
  create_schemas = [];
  functions = record { builtins = true; allowed = []; disallowed = [] };
}

abbrev pub no_tables : TableGrants → Bool
no_tables [] = true
no_tables (entry ∷ entries) = false

abbrev pub or_empty : Option TableGrants → TableGrants
or_empty none = []
or_empty (some entries) = entries

module _ ⦃u : StringUtil⦄ where
  unfoldable pub find_in : String → Option TableGrants → Option SourceGrant
  unfolding find
  find_in table none = none
  find_in table (some entries) = find table entries

  -- `FindGrant`
  unfoldable pub find_grant : GrantTables → String → String → Option SourceGrant
  unfolding find find_in
  find_grant tables schema table = find_in table (find schema tables)

  -- `tables[schema][table] = grant`
  unfoldable pub put_grant : GrantTables → String → String → SourceGrant → GrantTables
  unfolding find assign
  put_grant tables schema table grant =
      assign schema (assign table grant (or_empty (find schema tables))) tables

  -- Erases the table, and the schema when it has no other.
  unfoldable pub erase_grant : GrantTables → String → String → GrantTables
  unfolding find assign remove
  erase_grant tables schema table =
      let entries = remove table (or_empty (find schema tables)) in
      let rest = remove schema tables in
      let kept = assign schema entries tables in if no_tables entries then rest else kept

module _ ⦃c : Crossing⦄ where
  -- The grant that `tables[schema][table]` reads, a new one if there is none
  unfoldable pub or_new : Option SourceGrant → SourceGrant
  or_new none = no_grant
  or_new (some grant) = grant

  unfoldable pub has_granted : Option SourceGrant → CrossingVerb → Bool
  unfolding has_verb
  has_granted none verb = false
  has_granted (some grant) verb = has_verb grant verb

  unfoldable pub copied_using : Option SourceGrant → CrossingVerb → Option Parsed
  unfolding copy_using
  copied_using none verb = none
  copied_using (some grant) verb = copy_using grant verb

  unfoldable pub copied_check : Option SourceGrant → CrossingVerb → Option Parsed
  unfolding copy_check
  copied_check none verb = none
  copied_check (some grant) verb = copy_check grant verb

module _ ⦃u : StringUtil⦄ ⦃c : Crossing⦄ where
  -- `Grants`
  unfoldable pub is_granted : GrantTables → String → String → CrossingVerb → Bool
  unfolding find_grant has_granted
  is_granted tables schema table verb = has_granted (find_grant tables schema table) verb

  -- `UsingFor` and `CheckFor`
  unfoldable pub using_for : GrantTables → String → String → CrossingVerb → Option Parsed
  unfolding find_grant copied_using
  using_for tables schema table verb = copied_using (find_grant tables schema table) verb

  unfoldable pub check_for : GrantTables → String → String → CrossingVerb → Option Parsed
  unfolding find_grant copied_check
  check_for tables schema table verb = copied_check (find_grant tables schema table) verb
