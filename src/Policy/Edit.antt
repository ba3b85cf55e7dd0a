-- ===== src/Policy/Edit.antt =====
-- A change of one setting: `ParsePolicyEdit`.
pub mod Laws
use duckdb_virtual_catalog.Prelude.{
  String, code, Bool, true, false, not, ◌&&◌, List, [], ◌∷◌, Option, none, some, ◌==◌, ◌≟◌, ◌<>◌,
  if◌then◌else◌, Result, ok, ◌>>=◌, ◌>>◌,
}
use duckdb_virtual_catalog.Host.{StringUtil, Crossing, CrossingVerb, select, create}
use duckdb_virtual_catalog.Policy.Name.{
  PolicyName, parse_policy_table_name, parse_policy_schema_name,
}
use duckdb_virtual_catalog.Policy.Raw.{RawValue, nul, SqlValue, fail, from_sql}
use duckdb_virtual_catalog.Policy.Settings.{
  PolicyVerb, PolicyKey, denied, no_key, string_list, parse_verb, parse_key, parse_foreign_keys,
}
use duckdb_virtual_catalog.Policy.Table.{try_parse_verb_name}

pub data PolicyListOp : Type 0 where
  add remove set : PolicyListOp

pub data PolicyEditKind : Type 0 where
  verb_kind create_kind primary_key_kind foreign_keys_kind whitelist_kind : PolicyEditKind

pub record PolicyEdit : Type 0 where
  pub kind : PolicyEditKind
  pub path : String
  pub target : PolicyName
  pub verb : CrossingVerb
  pub verb_value : PolicyVerb
  pub has_key : Bool
  pub key : PolicyKey
  pub op : PolicyListOp
  pub foreign_keys : List PolicyName
  pub functions : List String

-- The members as declared; `kind` is written on every path before the edit is returned.
abbrev pub blank_edit : PolicyEditKind → String → PolicyEdit
blank_edit kind path = record {
  kind = kind;
  path = path;
  target = record { catalog = ""; schema = ""; name = "" };
  verb = select;
  verb_value = denied;
  has_key = false;
  key = no_key;
  op = set;
  foreign_keys = [];
  functions = [];
}

-- `edit.op != PolicyListOp::SET`
abbrev pub is_not_set : PolicyListOp → Bool
is_not_set set = false
is_not_set op = true

-- `raw.kind == NUL` and `raw.kind != NUL`
abbrev pub is_nul : RawValue → Bool
is_nul nul = true
is_nul value = false

-- `!target.empty() && target[0] == ':'`
abbrev pub is_special : String → Bool
is_special String.[] = false
is_special (String.◌∷◌ c s) = code c == b':'

parse_op : String → String → Result PolicyListOp
parse_op path op =
    if op ≟ "add"
    then ok add
    else if op ≟ "remove"
    then ok remove
    else if op ≟ "set"
    then ok set
    else fail path ("unknown operation '" <> op <> "'; expected add, remove or set")

-- The lambda `require_op`: the operation that stands afterwards.
require_op : Bool → Option String → String → String → String → RawValue → Result PolicyListOp
unfolding parse_op
require_op true none path target setting raw = fail path (
    "is a list setting; pass an operation: vcatbridge_set_policy(id, '" <> target <> "', '"
    <> setting <> "', 'add' | 'remove' | 'set', value)")
require_op false (some op) path target setting raw = fail path (
    "takes a single value; call vcatbridge_set_policy(id, '" <> target <> "', '" <> setting
    <> "', value) without an operation")
require_op false none path target setting raw = ok set
require_op true (some op) path target setting raw = do
  parsed ← parse_op path op
  if is_nul raw
      then fail path "the value cannot be NULL; use 'set' with an empty list to clear it"
      else ok parsed

module _ ⦃u : StringUtil⦄ where
  -- The lambda `names`
  names : PolicyListOp → RawValue → String → Result (List String)
  names parsed raw path = string_list raw path "a name" (is_not_set parsed)

  -- The key, or none where the value is NULL
  key_or_unset : Bool → RawValue → String → Result PolicyKey
  key_or_unset true raw path = ok no_key
  key_or_unset false raw path = parse_key raw path

module _ ⦃u : StringUtil⦄ ⦃c : Crossing⦄ (path target setting : String) (op : Option String)
    (raw : RawValue) where
  edit_functions : Result PolicyEdit
  unfolding require_op names
  edit_functions =
      if not (target ≟ ":functions")
      then fail path ("unknown target '" <> target <> "'; the only special target is ':functions'")
      else if not (setting ≟ "whitelist")
      then fail path "unknown setting; ':functions' has only 'whitelist'"
      else (do
        parsed ← require_op true op path target setting raw
        functions ← names parsed raw path
        ok (record (blank_edit whitelist_kind path) { op = parsed; functions = functions }))

  edit_create : Result PolicyEdit
  unfolding require_op
  edit_create = do
    parsed ← require_op false op path target setting raw
    name ← parse_policy_schema_name target
    value ← parse_verb create raw path
    ok (record (blank_edit create_kind path) {
      op = parsed;
      target = name;
      verb = create;
      verb_value = value;
    })

  edit_verb : PolicyName → CrossingVerb → Result PolicyEdit
  unfolding require_op
  edit_verb name verb = do
    parsed ← require_op false op path target setting raw
    value ← parse_verb verb raw path
    ok (record (blank_edit verb_kind path) {
      op = parsed;
      target = name;
      verb = verb;
      verb_value = value;
    })

  edit_key : PolicyName → Result PolicyEdit
  unfolding require_op key_or_unset
  edit_key name = do
    parsed ← require_op false op path target setting raw
    key ← key_or_unset (is_nul raw) raw path
    ok (record (blank_edit primary_key_kind path) {
      op = parsed;
      target = name;
      has_key = not (is_nul raw);
      key = key;
    })

  edit_foreign_keys : PolicyName → Result PolicyEdit
  unfolding require_op names
  edit_foreign_keys name = do
    parsed ← require_op true op path target setting raw
    given ← names parsed raw path
    parents ← parse_foreign_keys given name path
    ok (record (blank_edit foreign_keys_kind path) {
      op = parsed;
      target = name;
      foreign_keys = parents;
    })

  edit_setting : PolicyName → Option CrossingVerb → Result PolicyEdit
  unfolding edit_verb edit_key edit_foreign_keys
  edit_setting name (some verb) = edit_verb name verb
  edit_setting name none =
      if setting ≟ "primary_key"
      then edit_key name
      else if setting ≟ "foreign_keys"
      then edit_foreign_keys name
      else fail path (
          "unknown setting; expected select, insert, update, delete, alter, drop, create, "
          <> "primary_key or foreign_keys")

  edit_table : Result PolicyEdit
  unfolding edit_setting
  edit_table = do
    name ← parse_policy_table_name target
    edit_setting name (try_parse_verb_name setting)

  edit_raw : Result PolicyEdit
  unfolding edit_functions edit_create edit_table
  edit_raw =
      if is_special target
      then edit_functions
      else if setting ≟ "create"
      then edit_create
      else edit_table

module _ ⦃u : StringUtil⦄ ⦃c : Crossing⦄ where
  abbrev pub edit_path : String → String → String
  edit_path target setting = "'" <> target <> "' " <> setting

  -- `ParsePolicyEdit`; `op` is `none` for the four-argument form.
  unfoldable pub parse_policy_edit : String → String → Option String → SqlValue → Result PolicyEdit
  unfolding edit_raw
  parse_policy_edit target setting op value = do
    raw ← from_sql value (edit_path target setting)
    edit_raw (edit_path target setting) target setting op raw
