-- ===== src/Policy/Settings/Keys.antt =====
-- What a parsed primary key and parsed foreign keys guarantee.
use duckdb_virtual_catalog.Prelude.{
  String, ◌≡◌, ◌⊎◌, inl, inr, true, false, List, [], ◌∷◌, arith, All, Option, none, some, Result,
  ok, bind-eq-ok, ok_injective, subst, err,
}
use duckdb_virtual_catalog.Host.{StringUtil}
use duckdb_virtual_catalog.Policy.Name.{PolicyName, parse_policy_table_name}
use duckdb_virtual_catalog.Policy.Name.Sound.{IsNonEmpty, parse_policy_table_name_sound}
use duckdb_virtual_catalog.Policy.Raw.{
  RawValue, list, object, fields, child, throw_if_unknown_fields, get_field,
}
use duckdb_virtual_catalog.Policy.Settings.{
  PolicyKey, no_columns, non_empty_string, string_list, optional_string, key_columns, key_source,
  parse_key, rethrow_at_path, parent_name, parse_foreign_keys,
}
use duckdb_virtual_catalog.Policy.Settings.Laws.{
  IsText, non_empty_string-IsText, string_list-IsText,
}

pub rethrow_ok {ℓ} :
    {A : Type ℓ} (path : String) (r : Result A) {a : A} → rethrow_at_path path r ≡ ok a → r ≡ ok a
unfolding rethrow_at_path
rethrow_ok path (ok b) e = e
rethrow_ok path (err f) e = cc

module _ ⦃u : StringUtil⦄ where
  abbrev pub AreColumns : List String → Type 0
  AreColumns cs = (no_columns cs ≡ false) × All IsText cs

  -- Where a key's columns come from: a list of at least one, or a query.
  abbrev pub HasOneSource : PolicyKey → Type 0
  HasOneSource k =
      (AreColumns k.columns × (k.columns_from_query ≡ ""))
      ⊎ ((k.columns ≡ []) × IsText k.columns_from_query)

  abbrev pub IsValidKey : PolicyKey → Type 0
  IsValidKey k = HasOneSource k × ((k.verify_unique ≡ "") ⊎ IsText k.verify_unique)

  key_columns_valid :
      (v : RawValue) (path : String) (cs : List String) → key_columns v path ≡ ok cs → AreColumns cs
  unfolding key_columns
  key_columns_valid v path cs e =
      let (ds, ed, e') = bind-eq-ok (string_list v path "a key column" false) _ e in
      ground (arith, string_list-IsText v path "a key column" false ds ed)

  key_source_valid :
      (columns query : Option RawValue) (path : String) (k : PolicyKey)
      → key_source columns query path ≡ ok k
      → HasOneSource k × (k.verify_unique ≡ "")
  unfolding key_source
  key_source_valid (some v) none path k e =
      let (cs, ec, e') = bind-eq-ok (key_columns v (child path "columns")) _ e in
      let same = ok_injective e' in
      subst (λ q. HasOneSource q × (q.verify_unique ≡ "")) same
        (inl (key_columns_valid v (child path "columns") cs ec, (cc)), (cc))
  key_source_valid none (some v) path k e =
      let (q, eq, e') =
        bind-eq-ok (non_empty_string v (child path "columns_from_query") "columns_from_query") _
          e in
      subst (λ q. HasOneSource q × (q.verify_unique ≡ "")) (ok_injective e')
        (
          inr (
            (cc),
            non_empty_string-IsText v (child path "columns_from_query") "columns_from_query" q eq,
          ),
          (cc),
        )
  key_source_valid none none path k e = cc
  key_source_valid (some v) (some w) path k e = cc

  optional_string-IsText :
      (o : Option RawValue) (path what s : String)
      → optional_string o path what ≡ ok s
      → (s ≡ "") ⊎ IsText s
  unfolding optional_string
  optional_string-IsText none path what s e = inl (cc)
  optional_string-IsText (some v) path what s e = inr (non_empty_string-IsText v path what s e)

  -- A primary key that parses has its columns from exactly one place: a list of at least one column,
  -- none of them blank, or a query that is not blank; `verify_unique` is left out or not blank.
  pub parse_key_valid :
      (v : RawValue) (path : String) (k : PolicyKey) → parse_key v path ≡ ok k → IsValidKey k
  unfolding parse_key
  parse_key_valid (list vs) path k e =
      let (cs, ec, e') = bind-eq-ok (key_columns (list vs) path) _ e in
      subst (λ q. IsValidKey q) (ok_injective e')
        (inl (key_columns_valid (list vs) path cs ec, (cc)), inl (cc))
  parse_key_valid (object fs) path k e =
      let (_, known, e1) =
        bind-eq-ok
          (throw_if_unknown_fields fs path
            ("columns" ∷ "columns_from_query" ∷ "verify_unique" ∷ []))
          _ e in
      let (key, ek, e2) =
        bind-eq-ok
          (key_source (get_field (fields fs) "columns") (get_field (fields fs) "columns_from_query")
            path)
          _ e1 in
      let (verify, ev, e3) =
        bind-eq-ok
          (optional_string (get_field (fields fs) "verify_unique") (child path "verify_unique")
            "verify_unique")
          _ e2 in
      subst (λ q. IsValidKey q) (ok_injective e3)
        (
          (key_source_valid (get_field (fields fs) "columns")
              (get_field (fields fs) "columns_from_query") path key ek).0,
          optional_string-IsText (get_field (fields fs) "verify_unique")
              (child path "verify_unique") "verify_unique" verify ev,
        )
  parse_key_valid _ path k e = cc

  -- A parent table: in the child's schema, and with a name.
  abbrev pub IsParentOf : PolicyName → PolicyName → Type 0
  IsParentOf child_name parent =
      (u.ci_equals parent.schema child_name.schema ≡ true) × IsNonEmpty parent.name

  parent_name-IsParentOf :
      (text : String) (child_name : PolicyName) (path : String) (n : PolicyName)
      → parent_name text child_name path ≡ ok n
      → IsParentOf child_name n
  unfolding parent_name
  parent_name-IsParentOf text child_name path n e =
      let (p, ep, e') = bind-eq-ok (rethrow_at_path path (parse_policy_table_name text)) _ e in
      ground (arith, parse_policy_table_name_sound text p (rethrow_ok path _ ep))

  -- Every foreign key that parses names a parent in the schema of the child.
  pub parse_foreign_keys-IsParentOf :
      (names : List String) (child_name : PolicyName) (path : String) (ps : List PolicyName)
      → parse_foreign_keys names child_name path ≡ ok ps
      → All (IsParentOf child_name) ps
  unfolding parse_foreign_keys
  parse_foreign_keys-IsParentOf [] child_name path ps e =
      subst (λ q. All (IsParentOf child_name) q) (ok_injective e) tt
  parse_foreign_keys-IsParentOf (name ∷ names) child_name path ps e =
      let (p, ep, e1) = bind-eq-ok (parent_name name child_name path) _ e in
      let (qs, eq, e2) = bind-eq-ok (parse_foreign_keys names child_name path) _ e1 in
      subst (λ q. All (IsParentOf child_name) q) (ok_injective e2)
        (
          parent_name-IsParentOf name child_name path p ep,
          parse_foreign_keys-IsParentOf names child_name path qs eq,
        )
