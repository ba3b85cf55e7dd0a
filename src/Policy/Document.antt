-- ===== src/Policy/Document.antt =====
-- The policy document: `ParseFunctions` and `ParsePolicyJson`. The JSON reader, yyjson, is a
-- parameter: it gives an error's message and position, or the document's root.
pub mod Laws
use duckdb_virtual_catalog.Prelude.{
  ℕ, ℤ, pos, negsuc, String, Bool, true, false, ◌⊎◌, inl, inr, List, [], ◌∷◌, ◌++◌, ◌==◌, Option,
  none, some, ◌<>◌, to_string, if◌then◌else◌, io, Result, ok, throw, ◌>>=◌, ◌>>◌,
}
use duckdb_virtual_catalog.Host.{StringUtil, Crossing, create}
use duckdb_virtual_catalog.Policy.Name.{PolicyName, parse_policy_schema_name}
use duckdb_virtual_catalog.Policy.Raw.{
  RawValue, integer, list, object, RawFields, fields, Json, obj, fail, describe, child, from_json,
  throw_if_unknown_fields, get_field,
}
use duckdb_virtual_catalog.Policy.Settings.{
  PolicyVerb, string_list, non_empty_string, parse_verb, rethrow_at_path,
}
use duckdb_virtual_catalog.Policy.Table.{PolicyTable, parse_table}

pub record PolicyFunctions : Type 0 where
  pub builtins : Bool
  pub add : List String
  pub remove : List String

abbrev pub default_functions : PolicyFunctions
default_functions = record { builtins = true; add = []; remove = [] }

pub record PolicySchema : Type 0 where
  pub name : PolicyName
  pub path : String

pub record PolicyConfig : Type 0 where
  pub create_schemas : List PolicySchema
  pub tables : List PolicyTable
  pub functions : PolicyFunctions

module _ ⦃u : StringUtil⦄ where
  optional_names : Option RawValue → String → Result (List String)
  optional_names none path = ok []
  optional_names (some v) path = string_list v path "a function name" false

  -- `ParseFunctions`
  unfoldable pub parse_functions : RawValue → String → Result PolicyFunctions
  unfolding optional_names
  parse_functions (list vs) path = do
    names ← string_list (list vs) path "a function name" false
    ok (record { builtins = false; add = names; remove = [] })
  parse_functions (object fs) path = do
    throw_if_unknown_fields fs path ("add" ∷ "remove" ∷ [])
    add ← optional_names (get_field (fields fs) "add") (child path "add")
    remove ← optional_names (get_field (fields fs) "remove") (child path "remove")
    ok (record { builtins = true; add = add; remove = remove })
  parse_functions value path = fail path (
      "functions must be a list (the exact whitelist) or an object with add/remove, not "
      <> describe value)

-- `version->kind != INTEGER || version->integer != POLICY_VERSION`
abbrev pub is_policy_version : RawValue → Bool
is_policy_version (integer (pos n)) = n == 1
is_policy_version value = false

module _ ⦃u : StringUtil⦄ where
  check_version : Option RawValue → Result (Unit {0})
  check_version none =
      fail "policy" "policy_version is required; this extension supports policy_version 1"
  check_version (some v) =
      if is_policy_version v
      then ok tt
      else fail "policy_version" "unsupported version; this extension supports policy_version 1"

  check_schema_link : Option RawValue → Result (Unit {0})
  check_schema_link none = ok tt
  check_schema_link (some v) = do link ← non_empty_string v "$schema" "$schema"; ok tt

module _ ⦃u : StringUtil⦄ ⦃c : Crossing⦄ where
  -- The verb of an entry's `create` field, if it is there: `granted`
  create_granted : Option RawValue → String → Result Bool
  create_granted none path = ok false
  create_granted (some v) path = do
    verb ← parse_verb create v (child path "create")
    ok verb.granted

  -- One entry of `schemas`: none, or the schema that may be created.
  schema_entry : String → RawValue → String → Result (List PolicySchema)
  unfolding create_granted
  schema_entry key (object fs) path = do
    throw_if_unknown_fields fs path ("create" ∷ [])
    granted ← create_granted (get_field (fields fs) "create") path
    if granted
        then (do
          name ← rethrow_at_path path (parse_policy_schema_name key)
          ok (record { name = name; path = path } ∷ []))
        else ok []
  schema_entry key value path =
      fail path ("a schema entry must be an object, not " <> describe value)

  schema_entries : List (String × RawValue) → Result (List PolicySchema)
  unfolding schema_entry
  schema_entries [] = ok []
  schema_entries ((key, value) ∷ fs) = do
    first ← schema_entry key value (child "schemas" key)
    rest ← schema_entries fs
    ok (first ++ rest)

  parse_schemas : Option RawValue → Result (List PolicySchema)
  unfolding schema_entries
  parse_schemas none = ok []
  parse_schemas (some (object fs)) = schema_entries (fields fs)
  parse_schemas (some value) = fail "schemas" "must be an object of schema name to settings"

  table_entries : List (String × RawValue) → Result (List PolicyTable)
  table_entries [] = ok []
  table_entries ((key, value) ∷ fs) = do
    first ← parse_table key value (child "tables" key)
    rest ← table_entries fs
    ok (first ∷ rest)

  parse_tables : Option RawValue → Result (List PolicyTable)
  unfolding table_entries
  parse_tables none = ok []
  parse_tables (some (object fs)) = table_entries (fields fs)
  parse_tables (some value) = fail "tables" "must be an object of table name to settings"

  functions_of : Option RawValue → Result PolicyFunctions
  functions_of none = ok default_functions
  functions_of (some v) = parse_functions v "functions"

  -- What stands behind the parse of the JSON text.
  config_of : RawFields → Result PolicyConfig
  unfolding check_version check_schema_link parse_schemas parse_tables functions_of
  config_of root = do
    throw_if_unknown_fields root "policy"
        ("$schema" ∷ "policy_version" ∷ "schemas" ∷ "tables" ∷ "functions" ∷ [])
    check_version (get_field (fields root) "policy_version")
    check_schema_link (get_field (fields root) "$schema")
    schemas ← parse_schemas (get_field (fields root) "schemas")
    tables ← parse_tables (get_field (fields root) "tables")
    functions ← functions_of (get_field (fields root) "functions")
    ok (record { create_schemas = schemas; tables = tables; functions = functions })

  root_of : Json → Result RawValue
  root_of (obj ms) = from_json (obj ms) ""
  root_of value = throw io "vcatbridge: the policy must be a JSON object"

  config_of_root : RawValue → Result PolicyConfig
  unfolding config_of
  config_of_root (object root) = config_of root
  config_of_root value = throw io "vcatbridge: the policy must be a JSON object"

  config_of_read : (String × ℕ) ⊎ Json → Result PolicyConfig
  unfolding root_of config_of_root
  config_of_read (inl (message, position)) =
      throw io (
        "vcatbridge: the policy is not valid JSON: "
        <> message
        <> " at byte "
        <> to_string position)
  config_of_read (inr json) = do root ← root_of json; config_of_root root

  -- `ParsePolicyJson`; `read` is `yyjson_read_opts` and `yyjson_doc_get_root`.
  unfoldable pub parse_policy_json : (String → (String × ℕ) ⊎ Json) → String → Result PolicyConfig
  unfolding config_of_read
  parse_policy_json read json = config_of_read (read json)
