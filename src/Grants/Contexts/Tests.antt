-- ===== src/Grants/Contexts/Tests.antt =====
-- A context that is set, finalized and set again.
use duckdb_virtual_catalog.Prelude.{
  String, ◌≡◌, refl, Bool, true, false, [], ◌∷◌, none, some, ok, leb,
}
use duckdb_virtual_catalog.Host.{select}
use duckdb_virtual_catalog.Samples.{ascii, verb_table, ci_equals}
use duckdb_virtual_catalog.Policy.Name.{PolicyName}
use duckdb_virtual_catalog.Grants.Expression.{Parsed, parameter}
use duckdb_virtual_catalog.Grants.Tables.{PolicyState, empty_policy}
use duckdb_virtual_catalog.Grants.Edits.{edit_verb}
use duckdb_virtual_catalog.Grants.Source.{Source, table_entry}
use duckdb_virtual_catalog.Grants.Commit.{grant_policies}
use duckdb_virtual_catalog.Grants.Contexts.{
  Contexts, find_context, set_context, finalize_context, finalized_failure,
}
use duckdb_virtual_catalog.Grants.Contexts.Kept.{
  sets, none_yet, one_more, find_context-ContextSteps,
}
use duckdb_virtual_catalog.Registry.{
  World, Registry, lookup, put, purge_expired_pending_sources, is_kept,
}

abbrev orders : PolicyName
orders = record { catalog = ""; schema = "main"; name = "orders" }

-- `orders` may be read where the context says so.
abbrev policy : PolicyState
policy =
    edit_verb orders select
      (some (
        record {
          granted = true;
          using_predicate = some (parameter "me");
          check_predicate = none;
          unrestricted = false;
        },
        record { discovered_key = []; foreign_key_parents = [] },
      ))
      empty_policy

abbrev registry : Registry grant_policies
registry = record {
  pending =
      (
        "sales",
        record {
          source_db = 4;
          token = [];
          source = 3;
          last_touched = 100;
          policy = policy;
          context = 7;
          policy_finalized = false;
          token_failures = 0;
        },
      )
      ∷ [];
  live = [];
  books = [];
}

abbrev world : World
world = record {
  now = 100;
  is_open = λ db. leb db 9;
  is_held = λ book. true;
  refresh = λ book. none;
  Value = Bool;
  current_setting = λ db name. true;
  not_distinct = λ a b. true;
  to_sql = λ v. "true";
}

-- A source that binds every predicate to a BOOLEAN, or to an INTEGER
abbrev source : Bool → Source
source fits = record {
  catalog_name = "sales_db";
  entry = λ schema name.
      some
        (record { kind = table_entry; name = name; has_column = λ column. true; constraints = [] });
  has_schema = λ schema. true;
  parse = λ text. ok [];
  bind = λ schema name expr. ok (record { is_boolean = fits; type_text = "INTEGER" } ∷ []);
  what = λ failure. failure.message;
  run = λ query. record { rows = []; failure = none };
}

abbrev text : Parsed → String
text expr = "$me"

abbrev fresh : Contexts
fresh = (7, record { values = []; finalized = false }) ∷ []

abbrev set_once : Contexts
set_once =
    (set_context world (λ target. ok (source true)) text registry fresh fresh "sales" 4 "me" 5).0

abbrev closed : Contexts
closed = (finalize_context world registry set_once "sales" 4).0

abbrev set_again : Contexts
set_again =
    (set_context world (λ target. ok (source true)) text registry set_once closed "sales" 4 "me"
      6).0

contexts : Unit {0}
unfolding set_context finalize_context edit_verb ci_equals lookup put purge_expired_pending_sources
    is_kept
contexts = tt

contexts_tests :
    (closed ≡ (7, record { values = ("me", 5) ∷ []; finalized = true }) ∷ [])
    × ((set_context world
          (λ target. ok (source false))
          text
          registry
          fresh
          fresh
          "sales"
          4
          "me"
          5).0
        ≡ fresh)
    × ((set_context world
          (λ target. ok (source true))
          text
          registry
          set_once
          closed
          "sales"
          4
          "me"
          6).1
        ≡ finalized_failure "sales")
unfolding contexts
contexts_tests = (refl, refl, refl)

find_context-ContextSteps_example :
    find_context 7 set_again ≡ some (record { values = ("me", 5) ∷ []; finalized = true })
unfolding contexts
find_context-ContextSteps_example =
    find_context-ContextSteps closed set_again 7
      (record { values = ("me", 5) ∷ []; finalized = true })
      (one_more none_yet
        (sets world (λ target. ok (source true)) text registry set_once closed "sales" 4 "me" 6))
      refl refl
