-- ===== src/Policy/Document/Laws.antt =====
-- What a parsed document guarantees.
use duckdb_virtual_catalog.Prelude.{
  ℕ, String, ◌≡◌, refl, ◌⊎◌, inl, inr, List, [], ◌∷◌, All, All-append, Bool-cases, Option, none,
  some, ◌≟◌, ok, bind-eq-ok, ok_injective, some_injective, subst,
}
use duckdb_virtual_catalog.Host.{StringUtil, Crossing, CrossingVerb}
use duckdb_virtual_catalog.Policy.Name.{parse_policy_schema_name}
use duckdb_virtual_catalog.Policy.Name.Sound.{IsNonEmpty, parse_policy_schema_name_sound}
use duckdb_virtual_catalog.Policy.Raw.{
  RawValue, object, RawFields, end, field, fields, Json, obj, child, throw_if_unknown_fields,
  get_field,
}
use duckdb_virtual_catalog.Policy.Raw.Lowering.{IsDocument, AreFields, from_json-IsDocument}
use duckdb_virtual_catalog.Policy.Settings.{rethrow_at_path}
use duckdb_virtual_catalog.Policy.Settings.Keys.{rethrow_ok}
use duckdb_virtual_catalog.Policy.Table.{PolicyTable, parse_table}
use duckdb_virtual_catalog.Policy.Table.Laws.{IsValidTable}
use duckdb_virtual_catalog.Policy.Table.Grants.{Grants, parse_table_valid}
use duckdb_virtual_catalog.Policy.Document.{
  PolicyConfig, PolicySchema, create_granted, schema_entry, schema_entries, parse_schemas,
  table_entries, parse_tables, functions_of, check_version, check_schema_link, config_of,
  config_of_read, config_of_root, root_of, parse_policy_json,
}

module _ ⦃u : StringUtil⦄ where
  get_field-IsDocument :
      (fs : RawFields) (key : String) (v : RawValue)
      → AreFields fs
      → get_field (fields fs) key ≡ some v
      → IsDocument v
  unfolding get_field fields
  get_field-IsDocument end key v d e = cc
  get_field-IsDocument (field k w fs) key v d e = elim (Bool-cases (k ≟ key)) [
    | inl hit ↦ subst (λ q. IsDocument q) (some_injective (rw hit at e)) d.0
    | inr miss ↦ get_field-IsDocument fs key v d.2 (rw miss at e)
  ]

module _ ⦃u : StringUtil⦄ ⦃c : Crossing⦄ where
  -- A table of a document: its name, its settings, and a verb that it grants
  abbrev pub IsGrantedTable : PolicyTable → Type 0
  IsGrantedTable t =
      IsValidTable t
      × (IsNonEmpty t.name.schema × IsNonEmpty t.name.name)
      × ((verb : CrossingVerb) × Grants t verb)

  table_entries_valid :
      (fs : RawFields) (ts : List PolicyTable)
      → AreFields fs
      → table_entries (fields fs) ≡ ok ts
      → All IsGrantedTable ts
  unfolding table_entries fields
  table_entries_valid end ts d e = subst (λ q. All IsGrantedTable q) (ok_injective e) tt
  table_entries_valid (field k v fs) ts d e =
      let (t, et, e1) = bind-eq-ok (parse_table k v (child "tables" k)) _ e in
      let (rest, er, e2) = bind-eq-ok (table_entries (fields fs)) _ e1 in
      subst (λ q. All IsGrantedTable q) (ok_injective e2)
        (parse_table_valid k v (child "tables" k) t et d.0, table_entries_valid fs rest d.2 er)

  parse_tables_valid :
      (o : Option RawValue) (ts : List PolicyTable)
      → ((v : RawValue) → o ≡ some v → IsDocument v)
      → parse_tables o ≡ ok ts
      → All IsGrantedTable ts
  unfolding parse_tables
  parse_tables_valid none ts d e = subst (λ q. All IsGrantedTable q) (ok_injective e) tt
  parse_tables_valid (some (object fs)) ts d e = table_entries_valid fs ts (d (object fs) refl) e
  parse_tables_valid (some v) ts d e = cc

  -- A schema of a document: a name, and neither a catalog nor a table
  abbrev pub IsSchemaName : PolicySchema → Type 0
  IsSchemaName s = IsNonEmpty s.name.schema × (s.name.catalog ≡ "") × (s.name.name ≡ "")

  schema_entry_valid :
      (key : String) (v : RawValue) (path : String) (ss : List PolicySchema)
      → schema_entry key v path ≡ ok ss
      → All IsSchemaName ss
  unfolding schema_entry
  schema_entry_valid key (object fs) path ss e =
      let (_, known, e1) = bind-eq-ok (throw_if_unknown_fields fs path ("create" ∷ [])) _ e in
      let (granted, eg, e2) =
        bind-eq-ok (create_granted (get_field (fields fs) "create") path) _ e1 in
      elim (Bool-cases granted) [
        | inl on ↦
            let (n, en, e3) =
              bind-eq-ok (rethrow_at_path path (parse_policy_schema_name key)) _ (rw on at e2) in
            subst (λ q. All IsSchemaName q) (ok_injective e3)
              (parse_policy_schema_name_sound key n (rethrow_ok path _ en), tt)
        | inr off ↦ subst (λ q. All IsSchemaName q) (ok_injective (rw off at e2)) tt
      ]
  schema_entry_valid key _ path ss e = cc

  schema_entries_valid :
      (fs : List (String × RawValue)) (ss : List PolicySchema)
      → schema_entries fs ≡ ok ss
      → All IsSchemaName ss
  unfolding schema_entries
  schema_entries_valid [] ss e = subst (λ q. All IsSchemaName q) (ok_injective e) tt
  schema_entries_valid ((k, v) ∷ fs) ss e =
      let (first, ef, e1) = bind-eq-ok (schema_entry k v (child "schemas" k)) _ e in
      let (rest, er, e2) = bind-eq-ok (schema_entries fs) _ e1 in
      subst (λ q. All IsSchemaName q) (ok_injective e2)
        (All-append IsSchemaName first rest (schema_entry_valid k v (child "schemas" k) first ef)
          (schema_entries_valid fs rest er))

  parse_schemas_valid :
      (o : Option RawValue) (ss : List PolicySchema) → parse_schemas o ≡ ok ss → All IsSchemaName ss
  unfolding parse_schemas
  parse_schemas_valid none ss e = subst (λ q. All IsSchemaName q) (ok_injective e) tt
  parse_schemas_valid (some (object fs)) ss e = schema_entries_valid (fields fs) ss e
  parse_schemas_valid (some v) ss e = cc

  abbrev pub IsValidConfig : PolicyConfig → Type 0
  IsValidConfig config = All IsSchemaName config.create_schemas × All IsGrantedTable config.tables

  config_of_valid :
      (root : RawFields) (config : PolicyConfig)
      → AreFields root
      → config_of root ≡ ok config
      → IsValidConfig config
  unfolding config_of
  config_of_valid root config d e =
      let (_, known, e1) = bind-eq-ok (throw_if_unknown_fields root "policy" _) _ e in
      let (_, version, e2) =
        bind-eq-ok (check_version (get_field (fields root) "policy_version")) _ e1 in
      let (_, link, e3) = bind-eq-ok (check_schema_link (get_field (fields root) "$schema")) _ e2 in
      let (ss, es, e4) = bind-eq-ok (parse_schemas (get_field (fields root) "schemas")) _ e3 in
      let (ts, et, e5) = bind-eq-ok (parse_tables (get_field (fields root) "tables")) _ e4 in
      let (fns, ef, e6) = bind-eq-ok (functions_of (get_field (fields root) "functions")) _ e5 in
      subst (λ q. IsValidConfig q) (ok_injective e6)
        (
          parse_schemas_valid (get_field (fields root) "schemas") ss es,
          parse_tables_valid (get_field (fields root) "tables") ts
              (λ v h. get_field-IsDocument root "tables" v d h) et,
        )

  root-IsDocument : (json : Json) (root : RawValue) → root_of json ≡ ok root → IsDocument root
  unfolding root_of
  root-IsDocument (obj ms) root e = from_json-IsDocument (obj ms) "" root e
  root-IsDocument _ root e = cc

  config_of_root_valid :
      (root : RawValue) (config : PolicyConfig)
      → IsDocument root
      → config_of_root root ≡ ok config
      → IsValidConfig config
  unfolding config_of_root
  config_of_root_valid (object fs) config d e = config_of_valid fs config d e
  config_of_root_valid _ config d e = cc

  config_of_read_valid :
      (r : (String × ℕ) ⊎ Json) (config : PolicyConfig)
      → config_of_read r ≡ ok config
      → IsValidConfig config
  unfolding config_of_read
  config_of_read_valid (inl f) config e = cc
  config_of_read_valid (inr json) config e =
      let (root, er, e1) = bind-eq-ok (root_of json) _ e in
      config_of_root_valid root config (root-IsDocument json root er) e1

  -- Whatever the JSON reader gives, a policy document that parses holds only schemas that are named
  -- by one part, and only tables that are named, valid in every setting and granted some verb.
  pub parse_policy_json_valid :
      (read : String → (String × ℕ) ⊎ Json) (json : String) (config : PolicyConfig)
      → parse_policy_json read json ≡ ok config
      → IsValidConfig config
  unfolding parse_policy_json
  parse_policy_json_valid read json config e = config_of_read_valid (read json) config e
