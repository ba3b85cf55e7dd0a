-- ===== src/Policy/Edit/Laws.antt =====
-- What a parsed edit guarantees.
use duckdb_virtual_catalog.Prelude.{
  String, ◌≡◌, refl, Bool, true, false, not, All, inl, inr, Bool-cases, Option, none, some, ◌≟◌, ok,
  bind-eq-ok, ok_injective, subst,
}
use duckdb_virtual_catalog.Host.{StringUtil, Crossing, CrossingVerb, create}
use duckdb_virtual_catalog.Policy.Name.{
  PolicyName, parse_policy_table_name, parse_policy_schema_name,
}
use duckdb_virtual_catalog.Policy.Name.Sound.{
  IsNonEmpty, parse_policy_table_name_sound, parse_policy_schema_name_sound,
}
use duckdb_virtual_catalog.Policy.Raw.{RawValue, SqlValue, from_sql}
use duckdb_virtual_catalog.Policy.Settings.{PolicyKey, string_list, parse_verb, parse_foreign_keys}
use duckdb_virtual_catalog.Policy.Settings.Laws.{
  IsText, IsValidVerb, parse_verb_valid, string_list-IsText,
}
use duckdb_virtual_catalog.Policy.Settings.Keys.{
  IsValidKey, IsParentOf, parse_key_valid, parse_foreign_keys-IsParentOf,
}
use duckdb_virtual_catalog.Policy.Table.{try_parse_verb_name}
use duckdb_virtual_catalog.Policy.Edit.{
  PolicyEdit, PolicyEditKind, verb_kind, create_kind, primary_key_kind, foreign_keys_kind,
  whitelist_kind, PolicyListOp, is_not_set, is_nul, is_special, require_op, names, edit_functions,
  edit_create, edit_verb, key_or_unset, edit_key, edit_foreign_keys, edit_setting, edit_table,
  edit_raw, edit_path, parse_policy_edit,
}

abbrev pub is_given : Option String → Bool
is_given none = false
is_given (some op) = true

-- The settings that are lists
abbrev pub is_list : PolicyEditKind → Bool
is_list foreign_keys_kind = true
is_list whitelist_kind = true
is_list kind = false

module _ ⦃u : StringUtil⦄ where
  -- The target and the value of an edit, by its kind
  abbrev pub HasSetting : PolicyEditKind → PolicyEdit → Type 0
  HasSetting verb_kind e =
      (IsNonEmpty e.target.schema × IsNonEmpty e.target.name) × IsValidVerb e.verb e.verb_value
  HasSetting create_kind e =
      (IsNonEmpty e.target.schema × (e.target.name ≡ ""))
      × ((e.verb ≡ create) × IsValidVerb create e.verb_value)
  HasSetting primary_key_kind e =
      (IsNonEmpty e.target.schema × IsNonEmpty e.target.name)
      × (e.has_key ≡ true → IsValidKey e.key)
  HasSetting foreign_keys_kind e =
      (IsNonEmpty e.target.schema × IsNonEmpty e.target.name)
      × All (IsParentOf e.target) e.foreign_keys
  HasSetting whitelist_kind e = All IsText e.functions

  -- A valid edit: an operation was given exactly if its setting is a list.
  abbrev pub IsValidEdit : Option String → PolicyEdit → Type 0
  IsValidEdit op e = (is_given op ≡ is_list e.kind) × HasSetting e.kind e

require_op-given :
    (listed : Bool) (op : Option String) (path target setting : String) (raw : RawValue)
    (o : PolicyListOp)
    → require_op listed op path target setting raw ≡ ok o
    → is_given op ≡ listed
unfolding require_op
require_op-given true none path target setting raw o e = cc
require_op-given true (some op) path target setting raw o e = refl
require_op-given false none path target setting raw o e = refl
require_op-given false (some op) path target setting raw o e = cc

module _ ⦃u : StringUtil⦄ where
  key_or_unset_valid :
      (unset : Bool) (raw : RawValue) (path : String) (k : PolicyKey)
      → key_or_unset unset raw path ≡ ok k
      → not unset ≡ true
      → IsValidKey k
  unfolding key_or_unset
  key_or_unset_valid true raw path k e h = cc
  key_or_unset_valid false raw path k e h = parse_key_valid raw path k e

module _ ⦃u : StringUtil⦄ ⦃c : Crossing⦄ (path target setting : String) (op : Option String)
    (raw : RawValue) where
  edit_functions_valid :
      (f : PolicyEdit) → edit_functions path target setting op raw ≡ ok f → IsValidEdit op f
  unfolding edit_functions names
  edit_functions_valid f e = elim (Bool-cases (target ≟ ":functions")) [
    | inr other ↦ cc (rw other at e)
    | inl special ↦ elim (Bool-cases (setting ≟ "whitelist")) [
      | inr odd ↦ cc (rw (special, odd) at e)
      | inl hit ↦
          let (o, eo, e1) =
            bind-eq-ok (require_op true op path target setting raw) _ (rw (special, hit) at e) in
          let (ns, en, e2) = bind-eq-ok (string_list raw path "a name" (is_not_set o)) _ e1 in
          subst (λ q. IsValidEdit op q) (ok_injective e2)
            (
              require_op-given true op path target setting raw o eo,
              string_list-IsText raw path "a name" (is_not_set o) ns en,
            )
    ]
  ]

  edit_create_valid :
      (f : PolicyEdit) → edit_create path target setting op raw ≡ ok f → IsValidEdit op f
  unfolding edit_create
  edit_create_valid f e =
      let (o, eo, e1) = bind-eq-ok (require_op false op path target setting raw) _ e in
      let (n, en, e2) = bind-eq-ok (parse_policy_schema_name target) _ e1 in
      let (v, ev, e3) = bind-eq-ok (parse_verb create raw path) _ e2 in
      let named = parse_policy_schema_name_sound target n en in
      subst (λ q. IsValidEdit op q) (ok_injective e3)
        (
          require_op-given false op path target setting raw o eo,
          ((named.0, named.2), (refl, (parse_verb_valid create raw path v ev).1)),
        )

  edit_verb_valid :
      (n : PolicyName) (verb : CrossingVerb) (f : PolicyEdit)
      → IsNonEmpty n.schema × IsNonEmpty n.name
      → edit_verb path target setting op raw n verb ≡ ok f
      → IsValidEdit op f
  unfolding edit_verb
  edit_verb_valid n verb f named e =
      let (o, eo, e1) = bind-eq-ok (require_op false op path target setting raw) _ e in
      let (v, ev, e2) = bind-eq-ok (parse_verb verb raw path) _ e1 in
      subst (λ q. IsValidEdit op q) (ok_injective e2)
        (
          require_op-given false op path target setting raw o eo,
          (named, (parse_verb_valid verb raw path v ev).1),
        )

  edit_key_valid :
      (n : PolicyName) (f : PolicyEdit)
      → IsNonEmpty n.schema × IsNonEmpty n.name
      → edit_key path target setting op raw n ≡ ok f
      → IsValidEdit op f
  unfolding edit_key
  edit_key_valid n f named e =
      let (o, eo, e1) = bind-eq-ok (require_op false op path target setting raw) _ e in
      let (k, ek, e2) = bind-eq-ok (key_or_unset (is_nul raw) raw path) _ e1 in
      subst (λ q. IsValidEdit op q) (ok_injective e2)
        (
          require_op-given false op path target setting raw o eo,
          (named, key_or_unset_valid (is_nul raw) raw path k ek),
        )

  edit_foreign_keys_valid :
      (n : PolicyName) (f : PolicyEdit)
      → IsNonEmpty n.schema × IsNonEmpty n.name
      → edit_foreign_keys path target setting op raw n ≡ ok f
      → IsValidEdit op f
  unfolding edit_foreign_keys
  edit_foreign_keys_valid n f named e =
      let (o, eo, e1) = bind-eq-ok (require_op true op path target setting raw) _ e in
      let (ns, en, e2) = bind-eq-ok (names o raw path) _ e1 in
      let (ps, ep, e3) = bind-eq-ok (parse_foreign_keys ns n path) _ e2 in
      subst (λ q. IsValidEdit op q) (ok_injective e3)
        (
          require_op-given true op path target setting raw o eo,
          (named, parse_foreign_keys-IsParentOf ns n path ps ep),
        )

  edit_setting_valid :
      (n : PolicyName) (o : Option CrossingVerb) (f : PolicyEdit)
      → IsNonEmpty n.schema × IsNonEmpty n.name
      → edit_setting path target setting op raw n o ≡ ok f
      → IsValidEdit op f
  unfolding edit_setting
  edit_setting_valid n (some verb) f named e = edit_verb_valid n verb f named e
  edit_setting_valid n none f named e = elim (Bool-cases (setting ≟ "primary_key")) [
    | inl hit ↦ edit_key_valid n f named (rw hit at e)
    | inr miss ↦ elim (Bool-cases (setting ≟ "foreign_keys")) [
      | inl hit ↦ edit_foreign_keys_valid n f named (rw (miss, hit) at e)
      | inr odd ↦ cc (rw (miss, odd) at e)
    ]
  ]

  edit_table_valid :
      (f : PolicyEdit) → edit_table path target setting op raw ≡ ok f → IsValidEdit op f
  unfolding edit_table
  edit_table_valid f e =
      let (n, en, e1) = bind-eq-ok (parse_policy_table_name target) _ e in
      edit_setting_valid n (try_parse_verb_name setting) f
        (parse_policy_table_name_sound target n en) e1

  edit_raw_valid : (f : PolicyEdit) → edit_raw path target setting op raw ≡ ok f → IsValidEdit op f
  unfolding edit_raw
  edit_raw_valid f e = elim (Bool-cases (is_special target)) [
    | inl special ↦ edit_functions_valid f (rw special at e)
    | inr plain ↦ elim (Bool-cases (setting ≟ "create")) [
      | inl hit ↦ edit_create_valid f (rw (plain, hit) at e)
      | inr miss ↦ edit_table_valid f (rw (plain, miss) at e)
    ]
  ]

module _ ⦃u : StringUtil⦄ ⦃c : Crossing⦄ where
  -- An edit that parses was given an operation exactly if its setting is a list, and its target and
  -- value are those of its kind: a verb, a schema that may be created, a primary key or foreign keys
  -- of a named table, or function names.
  pub parse_policy_edit_valid :
      (target setting : String) (op : Option String) (value : SqlValue) (f : PolicyEdit)
      → parse_policy_edit target setting op value ≡ ok f
      → IsValidEdit op f
  unfolding parse_policy_edit
  parse_policy_edit_valid target setting op value f e =
      let (raw, er, e1) = bind-eq-ok (from_sql value (edit_path target setting)) _ e in
      edit_raw_valid (edit_path target setting) target setting op raw f e1
