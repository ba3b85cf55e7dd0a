-- ===== src/Grants/Calls/Tests.antt =====
-- A source with one table, its policy set and configured by calls, and the theorems there.
use duckdb_virtual_catalog.Prelude.{
  ℕ, ◌≡◌, refl, Bool, true, false, [], ◌∷◌, none, some, ◌≟◌, if◌then◌else◌, Result, ok, err, leb,
  Any,
}
use duckdb_virtual_catalog.Host.{select, insert}
use duckdb_virtual_catalog.Samples.{ascii, verb_table, ci_equals}
use duckdb_virtual_catalog.Policy.Name.{PolicyName}
use duckdb_virtual_catalog.Policy.Settings.{PolicyVerb, denied, no_key}
use duckdb_virtual_catalog.Policy.Document.{PolicyConfig, default_functions}
use duckdb_virtual_catalog.Policy.Edit.{PolicyEdit, verb_kind, blank_edit}
use duckdb_virtual_catalog.Grants.Expression.{column_ref, constant}
use duckdb_virtual_catalog.Grants.Tables.{PolicyState, empty_policy}
use duckdb_virtual_catalog.Grants.Tables.Laws.{is_same_table}
use duckdb_virtual_catalog.Grants.Edits.Refines.{allows}
use duckdb_virtual_catalog.Grants.Seam.{Values}
use duckdb_virtual_catalog.Grants.Source.{
  Source, SourceEntry, table_entry, unique_constraint, references, grantable_entry,
}
use duckdb_virtual_catalog.Grants.Guarded.{PolicyIssues}
use duckdb_virtual_catalog.Grants.Policies.{resolve_policy}
use duckdb_virtual_catalog.Grants.Policies.Granted.{IsStated}
use duckdb_virtual_catalog.Grants.Policies.Stated.{resolve_policy-allows}
use duckdb_virtual_catalog.Grants.Commit.{grant_policies}
use duckdb_virtual_catalog.Grants.Commit.Sound.{IsSoundRegistry}
use duckdb_virtual_catalog.Grants.Calls.{commit_prepared, prepare_edit}
use duckdb_virtual_catalog.Grants.Reachable.{
  registers, redeems, sets_policy, empty_registry, Reach, start, next, Reach-IsSoundRegistry,
}
use duckdb_virtual_catalog.Registry.{
  World, Registry, deny, register_source, is_live_bridge, lookup, put, drop,
  purge_expired_pending_sources, settings_match, is_kept,
}
use duckdb_virtual_catalog.Registry.Tokens.{constant_time_equals}
use duckdb_virtual_catalog.Registry.Redeem.{before_colon, is_foreign, redeem_bridge}

abbrev orders_entry : SourceEntry
orders_entry = record {
  kind = table_entry;
  name = "orders";
  has_column = λ name. ci_equals name "id";
  constraints = references "customers" ∷ unique_constraint true (some "id") [] ∷ [];
}

abbrev source : Source
source = record {
  catalog_name = "sales_db";
  entry = λ schema name. if ci_equals name "orders" then some orders_entry else none;
  has_schema = λ schema. ci_equals schema "main";
  parse = λ text. ok ((if text ≟ "owner = $me" then column_ref none "owner" else constant 1) ∷ []);
  bind = λ schema name expr. ok (record { is_boolean = true; type_text = "BOOLEAN" } ∷ []);
  what = λ failure. failure.message;
  run = λ query. record { rows = []; failure = none };
}

abbrev orders : PolicyName
orders = record { catalog = ""; schema = "main"; name = "orders" }

abbrev own_rows : PolicyVerb
own_rows = record { granted = true; using_text = "owner = $me"; check_text = "" }

-- A document that lets `orders` be read where the rows are one's own
abbrev document : PolicyConfig
document = record {
  create_schemas = [];
  tables =
      record {
        name = orders;
        path = "policies.main.orders";
        verbs = own_rows ∷ denied ∷ denied ∷ denied ∷ denied ∷ denied ∷ denied ∷ [];
        has_key = false;
        key = no_key;
        foreign_keys = [];
      }
      ∷ [];
  functions = default_functions;
}

abbrev edit : PolicyEdit
edit = record (blank_edit verb_kind "main.orders.select") {
  target = orders;
  verb = select;
  verb_value = own_rows;
}

abbrev world : World
world = record {
  now = 100;
  is_open = λ db. leb db 9;
  is_held = λ book. true;
  refresh = λ book. none;
  Value = Bool;
  current_setting = λ db name. true;
  not_distinct = λ a b. true;
  to_sql = λ v. "true";
}

abbrev no_values : ℕ → Values
no_values context = []

calls : Unit {0}
unfolding resolve_policy prepare_edit commit_prepared redeem_bridge register_source ci_equals allows
    settings_match is_live_bridge purge_expired_pending_sources lookup put drop constant_time_equals
    before_colon is_foreign deny is_kept
calls = tt

abbrev or_empty : Result (PolicyState × PolicyIssues) → PolicyState × PolicyIssues
or_empty (ok r) = r
or_empty (err thrown) = (empty_policy, none)

-- What the document resolves to
abbrev resolved : PolicyState × PolicyIssues
resolved = or_empty (resolve_policy source document (some []) none)

resolve_tests :
    (resolve_policy source document (some []) none ≡ ok resolved)
    × (allows resolved.0.tables "MAIN" "orders" select
        ≡ some (some (column_ref none "owner"), none))
    × (allows resolved.0.tables "main" "orders" insert ≡ none)
unfolding calls
resolve_tests = (refl, refl, refl)

resolve_policy-allows_example :
    Any
      (λ table.
        (is_same_table table.name.schema table.name.name "MAIN" "orders" ≡ true)
        × (entry : SourceEntry) × (grantable_entry source table.name ≡ ok entry)
        × IsStated source
            (some [])
            entry
            table
            select
            (some (some (column_ref none "owner"), none)))
      document.tables
unfolding calls
resolve_policy-allows_example =
    resolve_policy-allows source (some []) document none resolved "MAIN" "orders" select
      (some (column_ref none "owner"), none) refl refl

abbrev registered : Registry grant_policies
registered =
    (register_source grant_policies world empty_registry "sales" (ok 3) 4 none (7 ∷ 58 ∷ 9 ∷ [])
      0).0

abbrev shared : Registry grant_policies
shared =
    (commit_prepared world registered "sales" 4
      (prepare_edit world (λ target. ok source) no_values registered "sales" 4 edit)).0

abbrev attached : Registry grant_policies
attached = (redeem_bridge grant_policies world shared (7 ∷ []) "sales" (7 ∷ 58 ∷ 9 ∷ []) 5 20).0

attached-Reach : Reach attached
attached-Reach =
    next
      (next (next start (registers world empty_registry "sales" (ok 3) 4 none (7 ∷ 58 ∷ 9 ∷ []) 0))
        (sets_policy world world (λ target. ok source) no_values registered registered "sales" 4
          edit))
      (redeems world shared (7 ∷ []) "sales" (7 ∷ 58 ∷ 9 ∷ []) 5 20)

attached_tests :
    (attached.pending ≡ []) × (is_live_bridge grant_policies world attached "sales" ≡ true)
unfolding calls
attached_tests = (refl, refl)

Reach-IsSoundRegistry_example : IsSoundRegistry attached
Reach-IsSoundRegistry_example = Reach-IsSoundRegistry attached-Reach
