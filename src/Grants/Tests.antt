-- ===== src/Grants/Tests.antt =====
-- Runs of the grants, and their theorems at a policy of two tables.
use duckdb_virtual_catalog.Prelude.{◌≡◌, refl, Bool, true, false, [], ◌∷◌, none, some, ok, leb}
use duckdb_virtual_catalog.Host.{select, insert}
use duckdb_virtual_catalog.Samples.{ascii, verb_table, ci_equals}
use duckdb_virtual_catalog.Policy.Name.{PolicyName}
use duckdb_virtual_catalog.Grants.{ResolvedVerb, TableFacts}
use duckdb_virtual_catalog.Grants.Expression.{column_ref}
use duckdb_virtual_catalog.Grants.Tables.{PolicyState, empty_policy}
use duckdb_virtual_catalog.Grants.Tables.Whole.{AreWhole}
use duckdb_virtual_catalog.Grants.Validate.{validate_grant_set}
use duckdb_virtual_catalog.Grants.Validate.Sound.{AreValidGrants, validate_grant_set-AreValidGrants}
use duckdb_virtual_catalog.Grants.Edits.{Change, verb_change, edit_verb, apply_change}
use duckdb_virtual_catalog.Grants.Edits.Wholeness.{apply_change-AreWhole}
use duckdb_virtual_catalog.Grants.Edits.Refines.{allows, updated_allows, allows-edit_verb}
use duckdb_virtual_catalog.Grants.Commit.{grant_policies, commit_policy}
use duckdb_virtual_catalog.Grants.Commit.Sound.{empty_policy-AreWhole}
use duckdb_virtual_catalog.Grants.Commit.Atomic.{IsAtomic, commit_policy-IsAtomic}
use duckdb_virtual_catalog.Grants.Reachable.{empty_registry}
use duckdb_virtual_catalog.Registry.{
  World, Registry, deny, register_source, is_live_bridge, lookup, put, drop,
  purge_expired_pending_sources, settings_match, is_kept,
}
use duckdb_virtual_catalog.Registry.Tokens.{constant_time_equals}
use duckdb_virtual_catalog.Registry.Redeem.{before_colon, is_foreign, redeem_bridge}
use duckdb_virtual_catalog.Registry.Once.{has_thrown}
use duckdb_virtual_catalog.Registry.Targets.{lookup_open_grants, finalize_policy}
use duckdb_virtual_catalog.Registry.Targets.Finalized.{lookup_open_grants-finalize_policy}

abbrev orders : PolicyName
orders = record { catalog = ""; schema = "main"; name = "orders" }

abbrev reading : ResolvedVerb
reading = record {
  granted = true;
  using_predicate = some (column_ref none "id");
  check_predicate = none;
  unrestricted = false;
}

abbrev facts : TableFacts
facts = record { discovered_key = "id" ∷ []; foreign_key_parents = "customers" ∷ [] }

abbrev grant_select : Change
grant_select = verb_change orders select (some (reading, facts))

abbrev grant_insert : Change
grant_insert = verb_change orders insert (some (reading, facts))

-- A policy that lets `orders` be read
abbrev granted : PolicyState
granted = edit_verb orders select (some (reading, facts)) empty_policy

abbrev world : World
world = record {
  now = 100;
  is_open = λ db. leb db 9;
  is_held = λ book. true;
  refresh = λ book. none;
  Value = Bool;
  current_setting = λ db name. true;
  not_distinct = λ a b. true;
  to_sql = λ v. "true";
}

grants : Unit {0}
unfolding apply_change edit_verb validate_grant_set redeem_bridge register_source commit_policy
    finalize_policy ci_equals settings_match is_live_bridge purge_expired_pending_sources lookup put
    drop constant_time_equals before_colon is_foreign deny is_kept
grants = tt

grants_tests :
    (allows granted.tables "Main" "ORDERS" select ≡ some (some (column_ref none "id"), none))
    × (allows granted.tables "main" "orders" insert ≡ none)
    × ((edit_verb orders select none granted).tables ≡ [])
    × (has_thrown (
          validate_grant_set
            (edit_verb orders insert (some (reading, facts)) granted).tables
            []
            "sales"
            true)
        ≡ true)
unfolding grants allows
grants_tests = (refl, refl, refl, refl)

granted-AreWhole : AreWhole granted.tables
unfolding grants
granted-AreWhole =
    apply_change-AreWhole grant_select false "sales" empty_policy granted tt empty_policy-AreWhole
      refl

-- Case does not tell names apart, and the other verb stays as it was.
allows-edit_verb_example :
    allows (edit_verb orders insert none granted).tables "MAIN" "Orders" select
    ≡ updated_allows orders insert none granted.tables "MAIN" "Orders" select
allows-edit_verb_example =
    allows-edit_verb orders insert none granted "MAIN" "Orders" select granted-AreWhole

validate_grant_set-AreValidGrants_example : AreValidGrants granted.tables granted.tables
unfolding grants
validate_grant_set-AreValidGrants_example =
    validate_grant_set-AreValidGrants granted.tables [] "sales" true refl

abbrev registered : Registry grant_policies
registered =
    (register_source grant_policies world empty_registry "sales" (ok 3) 4 none (7 ∷ 58 ∷ 9 ∷ [])
      0).0

abbrev shared : Registry grant_policies
shared = (commit_policy world registered "sales" 4 grant_select).0

abbrev attached : Registry grant_policies
attached = (redeem_bridge grant_policies world shared (7 ∷ []) "sales" (7 ∷ 58 ∷ 9 ∷ []) 5 20).0

attached_tests :
    (attached.pending ≡ [])
    × (attached.books
        ≡ (
          20,
          record { policy = granted; context = 0; policy_finalized = false; uncommitted_ddl = 0 },
        )
          ∷ [])
    × (has_thrown (commit_policy world attached "sales" 4 grant_insert).1 ≡ true)
    × ((finalize_policy grant_policies world attached "sales" 4).1 ≡ ok tt)
unfolding grants
attached_tests = (refl, refl, refl, refl)

-- The target cannot be refreshed.
abbrev stale : World
stale = record world { refresh = λ book. some (deny "stale") }

refresh_tests :
    ((commit_policy stale attached "sales" 4 grant_select).1 ≡ deny "stale")
    × ((commit_policy stale attached "sales" 4 grant_select).0
        ≡ (commit_policy world attached "sales" 4 grant_select).0)
unfolding grants
refresh_tests = (refl, refl)

commit_policy-IsAtomic_example :
    IsAtomic stale
      (lookup_open_grants grant_policies stale attached "sales" 4).0
      "sales"
      grant_select
      (lookup_open_grants grant_policies stale attached "sales" 4).1
      (commit_policy stale attached "sales" 4 grant_select)
commit_policy-IsAtomic_example = commit_policy-IsAtomic stale attached "sales" 4 grant_select

lookup_open_grants-finalize_policy_example :
    has_thrown
      (lookup_open_grants grant_policies world
        (finalize_policy grant_policies world attached "sales" 4).0
        "sales"
        4).1
    ≡ true
unfolding grants
lookup_open_grants-finalize_policy_example =
    lookup_open_grants-finalize_policy grant_policies world attached "sales" 4 4 refl
