-- ===== src/Grants/Validate/Sound.antt =====
-- A set of grants that passes the checks has no table without verbs, and no write through which a
-- hidden table's keys could be probed.
use duckdb_virtual_catalog.Prelude.{
  String, ◌≡◌, refl, subst, Bool, true, false, ◌||◌, List, [], ◌∷◌, some, ◌==◌, All, Bool-cases,
  inl, inr, ok, some_injective, bind-eq-ok, When, When-intro,
}
use duckdb_virtual_catalog.Host.{StringUtil, Crossing, CrossingVerb, insert, update}
use duckdb_virtual_catalog.CaseInsensitive.{has, find}
use duckdb_virtual_catalog.Grants.{SourceGrant, has_verb}
use duckdb_virtual_catalog.Grants.Tables.{TableGrants, GrantTables, find_in, find_grant}
use duckdb_virtual_catalog.Grants.Validate.{
  is_row_write, is_readable, check_parents, throw_if_foreign_key_oracle, check_verb, check_grant,
  check_tables, check_schemas, validate_grant_set,
}

module _ ⦃u : StringUtil⦄ ⦃c : Crossing⦄ where
  -- Each parent of a foreign key is accepted by the owner, or can be read whole. The schema is that of
  -- the table's own entry.
  abbrev pub HasNoOracle : GrantTables → String → SourceGrant → Type 0
  HasNoOracle tables schema grant =
      All
        (λ parent.
          has parent grant.allowed_foreign_keys || is_readable (find_grant tables schema parent)
          ≡ true)
        grant.foreign_key_parents

  -- A verb under which rows are written has no oracle.
  abbrev pub IsSafeVerb : GrantTables → String → SourceGrant → CrossingVerb → Type 0
  IsSafeVerb tables schema grant verb = When (has_verb grant verb) (HasNoOracle tables schema grant)

  abbrev pub IsValidGrant : GrantTables → String → SourceGrant → Type 0
  IsValidGrant tables schema grant =
      ((grant.verbs == 0) ≡ false)
      × IsSafeVerb tables schema grant insert
      × IsSafeVerb tables schema grant update

  check_parents_sound :
      (tables : GrantTables) (schema table : String) (parents allowed : List String)
      (verb : CrossingVerb) (bridge_id : String)
      → check_parents tables schema table parents allowed verb bridge_id ≡ ok tt
      → All
          (λ parent. has parent allowed || is_readable (find_grant tables schema parent) ≡ true)
          parents
  unfolding check_parents
  check_parents_sound tables schema table [] allowed verb bridge_id h = tt
  check_parents_sound tables schema table (parent ∷ parents) allowed verb bridge_id h =
      elim (Bool-cases (has parent allowed || is_readable (find_grant tables schema parent))) [
        | inr oracle ↦ cc (rw oracle at h)
        | inl accepted ↦ (
          accepted,
          check_parents_sound tables schema table parents allowed verb bridge_id (rw accepted at h),
        )
      ]

  check_verb_sound :
      (tables : GrantTables) (schema table : String) (grant : SourceGrant) (verb : CrossingVerb)
      (bridge_id : String)
      → is_row_write verb ≡ true
      → check_verb tables schema table grant verb bridge_id ≡ ok tt
      → IsSafeVerb tables schema grant verb
  unfolding check_verb throw_if_foreign_key_oracle
  check_verb_sound tables schema table grant verb bridge_id writes h =
      When-intro (has_verb grant verb) {P = HasNoOracle tables schema grant} (λ granted.
        check_parents_sound tables schema table grant.foreign_key_parents grant.allowed_foreign_keys
          verb bridge_id (rw (granted, writes) at h))

  check_grant_sound :
      (tables : GrantTables) (schema table : String) (grant : SourceGrant) (bridge_id : String)
      → check_grant tables schema table grant bridge_id ≡ ok tt
      → IsValidGrant tables schema grant
  unfolding check_grant
  check_grant_sound tables schema table grant bridge_id h = elim (Bool-cases (grant.verbs == 0)) [
    | inl no_verb ↦ cc (rw no_verb at h)
    | inr some_verb ↦
        let (checked, first, later) = bind-eq-ok _ _ (rw some_verb at h) in
        (
          some_verb,
          check_verb_sound tables schema table grant insert bridge_id refl first,
          check_verb_sound tables schema table grant update bridge_id refl later,
        )
  ]

  abbrev AreValidIn : GrantTables → String → TableGrants → Type 0
  AreValidIn tables schema entries = All (λ e. IsValidGrant tables schema e.1) entries

  check_tables_sound :
      (tables : GrantTables) (schema : String) (entries : TableGrants) (bridge_id : String)
      → check_tables tables schema entries bridge_id ≡ ok tt
      → AreValidIn tables schema entries
  unfolding check_tables
  check_tables_sound tables schema [] bridge_id h = tt
  check_tables_sound tables schema ((table, grant) ∷ entries) bridge_id h =
      let (checked, first, later) = bind-eq-ok _ _ h in
      (
        check_grant_sound tables schema table grant bridge_id first,
        check_tables_sound tables schema entries bridge_id later,
      )

  -- Every grant of the set is valid.
  abbrev pub AreValidGrants : GrantTables → GrantTables → Type 0
  AreValidGrants tables schemas = All (λ e. AreValidIn tables e.0 e.1) schemas

  check_schemas_sound :
      (tables schemas : GrantTables) (bridge_id : String)
      → check_schemas tables schemas bridge_id ≡ ok tt
      → AreValidGrants tables schemas
  unfolding check_schemas
  check_schemas_sound tables [] bridge_id h = tt
  check_schemas_sound tables ((schema, entries) ∷ schemas) bridge_id h =
      let (checked, first, later) = bind-eq-ok _ _ h in
      (
        check_tables_sound tables schema entries bridge_id first,
        check_schemas_sound tables schemas bridge_id later,
      )

  pub validate_grant_set-AreValidGrants :
      (tables : GrantTables) (create_schemas : List String) (bridge_id : String) (attaching : Bool)
      → validate_grant_set tables create_schemas bridge_id attaching ≡ ok tt
      → AreValidGrants tables tables
  unfolding validate_grant_set
  validate_grant_set-AreValidGrants tables create_schemas bridge_id attaching h =
      let (checked, first, later) = bind-eq-ok _ _ h in
      check_schemas_sound tables tables bridge_id first

  find-AreValidIn :
      (tables : GrantTables) (schema table : String) (entries : TableGrants) (grant : SourceGrant)
      → AreValidIn tables schema entries
      → find table entries ≡ some grant
      → IsValidGrant tables schema grant
  unfolding find
  find-AreValidIn tables schema table [] grant valid h = cc
  find-AreValidIn tables schema table ((j, g) ∷ entries) grant (valid, all_valid) h =
      elim (Bool-cases (u.ci_equals j table)) [
        | inl same ↦ subst (IsValidGrant tables schema) (some_injective (rw same at h)) valid
        | inr differs ↦
            find-AreValidIn tables schema table entries grant all_valid (rw differs at h)
      ]

  -- A grant that is found in a set that passes has a verb; if it lets rows be written, then each table
  -- that its foreign keys refer to was accepted by the owner or is granted for reading without a
  -- restriction.
  pub find_grant-AreValidGrants :
      (tables schemas : GrantTables) (schema table : String) (grant : SourceGrant)
      → AreValidGrants tables schemas
      → find_grant schemas schema table ≡ some grant
      → (own : String) × (u.ci_equals own schema ≡ true) × IsValidGrant tables own grant
  unfolding find_grant find_in find
  find_grant-AreValidGrants tables [] schema table grant valid h = cc
  find_grant-AreValidGrants tables ((j, entries) ∷ schemas) schema table grant (valid, all_valid)
        h =
      elim (Bool-cases (u.ci_equals j schema)) [
        | inl same ↦ (j, same, find-AreValidIn tables j table entries grant valid (rw same at h))
        | inr differs ↦
            find_grant-AreValidGrants tables schemas schema table grant all_valid (rw differs at h)
      ]
