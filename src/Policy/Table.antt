-- ===== src/Policy/Table.antt =====
-- A table's entry in the policy document: `TryParseVerbName` and `ParseTable`.
pub mod Laws
pub mod Grants
use duckdb_virtual_catalog.Prelude.{
  String, Bool, true, false, ◌||◌, List, [], ◌∷◌, Option, none, some, ◌≟◌, if◌then◌else◌, length,
  set, replicate, Result, ok, ◌>>=◌, ◌>>◌, ◌<>◌,
}
use duckdb_virtual_catalog.Host.{StringUtil, Crossing, CrossingVerb}
use duckdb_virtual_catalog.Policy.Name.{PolicyName, parse_policy_table_name}
use duckdb_virtual_catalog.Policy.Raw.{
  RawValue, object, RawFields, fields, fail, describe, child, throw_if_unknown_fields,
}
use duckdb_virtual_catalog.Policy.Settings.{
  PolicyVerb, PolicyKey, denied, no_key, string_list, parse_verb, parse_key, rethrow_at_path,
  parse_foreign_keys,
}

pub record PolicyTable : Type 0 where
  pub name : PolicyName
  pub path : String
  pub verbs : List PolicyVerb
  pub has_key : Bool
  pub key : PolicyKey
  pub foreign_keys : List PolicyName

abbrev pub table_keys : List String
table_keys =
    "select" ∷ "insert" ∷ "update" ∷ "delete" ∷ "alter" ∷ "drop" ∷ "primary_key" ∷ "foreign_keys"
    ∷ []

module _ ⦃c : Crossing⦄ where
  pub find_verb : String → List CrossingVerb → Option CrossingVerb
  find_verb key [] = none
  find_verb key (verb ∷ verbs) = if key ≟ c.verb_name verb then some verb else find_verb key verbs

  -- `TryParseVerbName`
  unfoldable pub try_parse_verb_name : String → Option CrossingVerb
  unfolding find_verb
  try_parse_verb_name key = find_verb key c.verbs

-- The table so far, and `any_verb`.
pub record TableScan : Type 0 where
  pub table : PolicyTable
  pub any_verb : Bool

module _ ⦃u : StringUtil⦄ ⦃c : Crossing⦄ where
  -- A field whose key is a verb's name
  pub verb_field : CrossingVerb → RawValue → String → TableScan → Result TableScan
  verb_field verb value field_path s = do
    v ← parse_verb verb value field_path
    ok (record {
      table = record s.table { verbs = set s.table.verbs (c.index verb) v };
      any_verb = s.any_verb || v.granted;
    })

  -- The other two fields
  pub other_field : String → RawValue → String → TableScan → Result TableScan
  other_field key value field_path s =
      if key ≟ "primary_key"
      then (do
        k ← parse_key value field_path
        ok (record s { table = record s.table { has_key = true; key = k } }))
      else (do
        names ← string_list value field_path "a table name" false
        parents ← parse_foreign_keys names s.table.name field_path
        ok (record s { table = record s.table { foreign_keys = parents } }))

  -- One round of the loop over the fields.
  pub table_field : Option CrossingVerb → String → RawValue → String → TableScan → Result TableScan
  unfolding verb_field other_field
  table_field (some verb) key value field_path s = verb_field verb value field_path s
  table_field none key value field_path s = other_field key value field_path s

  pub table_fields : List (String × RawValue) → String → TableScan → Result TableScan
  unfolding table_field
  table_fields [] path s = ok s
  table_fields ((key, value) ∷ fs) path s = do
    next ← table_field (try_parse_verb_name key) key value (child path key) s
    table_fields fs path next

  abbrev pub fresh_table : PolicyName → String → PolicyTable
  fresh_table name path = record {
    name = name;
    path = path;
    verbs = replicate (length c.verbs) denied;
    has_key = false;
    key = no_key;
    foreign_keys = [];
  }

  pub table_object : PolicyName → RawFields → String → Result PolicyTable
  unfolding table_fields
  table_object name fs path = do
    throw_if_unknown_fields fs path table_keys
    final ←
        table_fields (fields fs) path (record { table = fresh_table name path; any_verb = false })
    if final.any_verb
        then ok final.table
        else fail path "grants no verb; add select, insert, update, delete, alter or drop"

  pub table_value : PolicyName → RawValue → String → Result PolicyTable
  unfolding table_object
  table_value name (object fs) path = table_object name fs path
  table_value name value path =
      fail path ("a table entry must be an object, not " <> describe value)

  -- `ParseTable`
  unfoldable pub parse_table : String → RawValue → String → Result PolicyTable
  unfolding table_value
  parse_table name value path = do
    parsed ← rethrow_at_path path (parse_policy_table_name name)
    table_value parsed value path
