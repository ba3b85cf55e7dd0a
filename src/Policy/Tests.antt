-- ===== src/Policy/Tests.antt =====
-- Runs of the policy parser, and its theorems at concrete inputs.
use duckdb_virtual_catalog.Prelude.{
  ℕ, ◌<◌, pos, String, ◌≡◌, refl, true, false, ◌⊎◌, inr, [], ◌∷◌, All, some, length, ok, err, io,
  arith, has_any_of,
}
use duckdb_virtual_catalog.Host.{select, insert}
use duckdb_virtual_catalog.Samples.{ascii, verb_table, ci_equals, trim, replace, join}
use duckdb_virtual_catalog.CaseInsensitive.{has, insert as insert_name}
use duckdb_virtual_catalog.Policy.Name.{
  PolicyName, blank_padded, parse_policy_name_parts, parse_policy_table_name,
  parse_policy_schema_name,
}
use duckdb_virtual_catalog.Policy.Name.RoundTrip.{print_parts, parse_policy_name_parts-print_parts}
use duckdb_virtual_catalog.Policy.Name.Sound.{IsNonEmpty, parse_policy_name_parts_sound}
use duckdb_virtual_catalog.Policy.Raw.{
  RawValue, text, list, object, nil, cons, end, field, Json, bool, str, int, arr, obj, no_items,
  item, no_members, member, varchar, from_json, from_sql, fields, items, is_known,
  throw_if_unknown_fields, get_field, child, quote_key, describe,
}
use duckdb_virtual_catalog.Policy.Raw.Lowering.{IsDocument, from_json-IsDocument}
use duckdb_virtual_catalog.Policy.Raw.Agreement.{sql_of, from_sql-sql_of}
use duckdb_virtual_catalog.Policy.Settings.{
  PolicyKey, denied, no_key, parse_verb, parse_key, parse_foreign_keys, is_blank, grants,
  rethrow_at_path, parent_name, is_true_text, predicate, non_empty_string, string_list,
}
use duckdb_virtual_catalog.Policy.Settings.Laws.{IsValidVerb, parse_verb_valid}
use duckdb_virtual_catalog.Policy.Settings.Keys.{IsValidKey, parse_key_valid}
use duckdb_virtual_catalog.Policy.Table.{PolicyTable, parse_table, try_parse_verb_name}
use duckdb_virtual_catalog.Policy.Document.{
  PolicyConfig, default_functions, parse_policy_json, parse_functions,
}
use duckdb_virtual_catalog.Policy.Document.Laws.{IsValidConfig, parse_policy_json_valid}
use duckdb_virtual_catalog.Policy.Edit.{PolicyEdit, foreign_keys_kind, add, parse_policy_edit}
use duckdb_virtual_catalog.Policy.Edit.Laws.{IsValidEdit, parse_policy_edit_valid}

-- Opens all that a run of the parser computes with.
parser : Unit {0}
unfolding ci_equals trim replace join has_any_of has insert_name blank_padded
    parse_policy_name_parts parse_policy_table_name parse_policy_schema_name from_json from_sql
    fields items is_known throw_if_unknown_fields get_field quote_key describe child is_blank
    is_true_text predicate non_empty_string string_list parse_verb parse_key rethrow_at_path
    parent_name parse_foreign_keys try_parse_verb_name parse_table parse_functions parse_policy_json
    parse_policy_edit
parser = tt

name_tests :
    (parse_policy_name_parts "a.b" ≡ ok ("a" ∷ "b" ∷ []))
    × (parse_policy_name_parts "\"a.b\".\"say \"\"hi\"\"\"" ≡ ok ("a.b" ∷ "say \"hi\"" ∷ []))
    × (parse_policy_name_parts "a."
        ≡ err (record { type = io; message = "vcatbridge: 'a.' has an empty name part" }))
unfolding parser
name_tests = (refl, refl, refl)

-- The reader's result for the document
--   {"policy_version": 1, "schemas": {"main": {"create": true}},
--    "tables": {"main.users": {"select": "tenant = $t", "insert": {"check": "tenant = $t"},
--                              "primary_key": ["id"], "foreign_keys": ["main.tenants"]}}}
abbrev users : Json
users = obj (
    member "select" (str "tenant = $t") (
      member "insert" (obj (member "check" (str "tenant = $t") no_members)) (
        member "primary_key" (arr (item (str "id") no_items))
          (member "foreign_keys" (arr (item (str "main.tenants") no_items)) no_members))))

abbrev document : Json
document = obj (
    member "policy_version" (int (pos 1)) (
      member "schemas"
        (obj (member "main" (obj (member "create" (bool true) no_members)) no_members))
        (member "tables" (obj (member "main.users" users no_members)) no_members)))

abbrev read_document : String → (String × ℕ) ⊎ Json
read_document s = inr document

abbrev full_name : PolicyName
full_name = record { catalog = ""; schema = "main"; name = "users" }

abbrev users_table : PolicyTable
users_table = record {
  name = full_name;
  path = "tables.\"main.users\"";
  verbs =
      grants "tenant = $t" ""
      ∷ grants "true" "tenant = $t"
      ∷ denied
      ∷ denied
      ∷ denied
      ∷ denied
      ∷ denied
      ∷ [];
  has_key = true;
  key = record { columns = "id" ∷ []; columns_from_query = ""; verify_unique = "" };
  foreign_keys = record { catalog = ""; schema = "main"; name = "tenants" } ∷ [];
}

abbrev the_config : PolicyConfig
the_config = record {
  create_schemas =
      record { name = record { catalog = ""; schema = "main"; name = "" }; path = "schemas.main" }
      ∷ [];
  tables = users_table ∷ [];
  functions = default_functions;
}

document_runs : parse_policy_json read_document "" ≡ ok the_config
unfolding parser
document_runs = refl

parse_policy_json_valid_example : IsValidConfig the_config
parse_policy_json_valid_example = parse_policy_json_valid read_document "" the_config document_runs

parse_policy_name_parts-print_parts_example :
    parse_policy_name_parts (print_parts ("a.b" ∷ "say \"hi\"" ∷ []))
    ≡ ok ("a.b" ∷ "say \"hi\"" ∷ [])
parse_policy_name_parts-print_parts_example =
    parse_policy_name_parts-print_parts "a.b" ("say \"hi\"" ∷ []) refl (refl, tt)

parse_policy_name_parts_sound_example :
    All IsNonEmpty ("a.b" ∷ "say \"hi\"" ∷ [])
    × (0 < length {A = String} ("a.b" ∷ "say \"hi\"" ∷ []))
parse_policy_name_parts_sound_example =
    parse_policy_name_parts_sound "\"a.b\".\"say \"\"hi\"\"\"" ("a.b" ∷ "say \"hi\"" ∷ [])
      name_tests.1

-- The document with no number in it
abbrev plain : Json
plain = obj (member "main.users" users no_members)

abbrev lowered : RawValue
lowered = object (
    field "main.users"
      (object (
        field "select" (text "tenant = $t") (
          field "insert" (object (field "check" (text "tenant = $t") end)) (
            field "primary_key" (list (cons (text "id") nil))
              (field "foreign_keys" (list (cons (text "main.tenants") nil)) end)))))
      end)

plain_lowers : from_json plain "x" ≡ ok lowered
unfolding parser
plain_lowers = refl

from_json-IsDocument_example : IsDocument lowered
from_json-IsDocument_example = from_json-IsDocument plain "x" lowered plain_lowers

from_sql-sql_of_example :
    (from_json plain "x" ≡ ok lowered
      → (from_sql (sql_of plain) "x" ≡ ok lowered) × IsDocument lowered)
    × (from_sql (sql_of plain) "x" ≡ ok lowered
        → IsDocument lowered
        → from_json plain "x" ≡ ok lowered)
from_sql-sql_of_example = from_sql-sql_of plain "x" lowered (omega arith)

insert_runs :
    parse_verb insert (object (field "check" (text "a > 1") end)) "p" ≡ ok (grants "true" "a > 1")
unfolding parser
insert_runs = refl

parse_verb_valid_example : (true ≡ true) × IsValidVerb insert (grants "true" "a > 1")
parse_verb_valid_example =
    parse_verb_valid insert (object (field "check" (text "a > 1") end)) "p" (grants "true" "a > 1")
      insert_runs

abbrev query_key : PolicyKey
query_key = record { columns = []; columns_from_query = "FROM k"; verify_unique = "" }

key_runs : parse_key (object (field "columns_from_query" (text "FROM k") end)) "p" ≡ ok query_key
unfolding parser
key_runs = refl

parse_key_valid_example : IsValidKey query_key
parse_key_valid_example =
    parse_key_valid (object (field "columns_from_query" (text "FROM k") end)) "p" query_key key_runs

abbrev tenants : PolicyName
tenants = record { catalog = ""; schema = "MAIN"; name = "tenants" }

abbrev the_edit : PolicyEdit
the_edit = record {
  kind = foreign_keys_kind;
  path = "'main.users' foreign_keys";
  target = full_name;
  verb = select;
  verb_value = denied;
  has_key = false;
  key = no_key;
  op = add;
  foreign_keys = tenants ∷ [];
  functions = [];
}

edit_runs :
    parse_policy_edit "main.users" "foreign_keys" (some "add") (varchar "MAIN.tenants")
    ≡ ok the_edit
unfolding parser
edit_runs = refl

parse_policy_edit_valid_example : IsValidEdit (some "add") the_edit
parse_policy_edit_valid_example =
    parse_policy_edit_valid "main.users" "foreign_keys" (some "add") (varchar "MAIN.tenants")
      the_edit edit_runs
