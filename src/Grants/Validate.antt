-- ===== src/Grants/Validate.antt =====
-- bridge/duckdb_source.cpp: the checks of a whole set of grants.
pub mod Sound
use duckdb_virtual_catalog.Prelude.{
  ℕ, ◌+◌, String, Bool, true, false, not, ◌&&◌, ◌||◌, List, [], ◌∷◌, Option, none, some, ◌==◌, ◌<>◌,
  if◌then◌else◌, length, Result, ok, err, permission, ◌>>◌, ◌>>=◌,
}
use duckdb_virtual_catalog.Host.{
  StringUtil, Crossing, CrossingVerb, select, insert, update, delete, alter, create, drop,
}
use duckdb_virtual_catalog.CaseInsensitive.{has}
use duckdb_virtual_catalog.Grants.{SourceGrant, has_verb}
use duckdb_virtual_catalog.Grants.Tables.{TableGrants, GrantTables, PolicyState, find_grant}

abbrev pub forbid : String → Result (Unit {0})
forbid message = err (record { type = permission; message = message })

abbrev pub is_row_write : CrossingVerb → Bool
is_row_write insert = true
is_row_write update = true
is_row_write verb = false

module _ ⦃u : StringUtil⦄ ⦃c : Crossing⦄ where
  unfoldable pub is_readable : Option SourceGrant → Bool
  unfolding has_verb
  is_readable none = false
  is_readable (some grant) = has_verb grant select && grant.select_unrestricted

  -- The loop of `ThrowIfForeignKeyOracle` over the parents
  unfoldable pub check_parents :
      GrantTables
      → String
      → String
      → List String
      → List String
      → CrossingVerb
      → String
      → Result (Unit {0})
  unfolding has find_grant is_readable
  check_parents tables schema table [] allowed verb bridge_id = ok tt
  check_parents tables schema table (parent ∷ parents) allowed verb bridge_id =
      let rest = check_parents tables schema table parents allowed verb bridge_id in
      if has parent allowed || is_readable (find_grant tables schema parent)
      then rest
      else forbid (
          "vcatbridge: table '"
          <> schema
          <> "."
          <> table
          <> "' in bridge '"
          <> bridge_id
          <> "' grants '"
          <> c.verb_name verb
          <> "' over a foreign key to '"
          <> schema
          <> "."
          <> parent
          <> "', which is not granted 'select' with USING 'true'; the write would reveal which keys exist in it. To accept this, add '"
          <> schema
          <> "."
          <> parent
          <> "' to the foreign_keys of '"
          <> schema
          <> "."
          <> table
          <> "'")

  -- `ThrowIfForeignKeyOracle`
  unfoldable pub throw_if_foreign_key_oracle :
      GrantTables
      → String
      → String
      → List String
      → List String
      → CrossingVerb
      → String
      → Result (Unit {0})
  unfolding check_parents
  throw_if_foreign_key_oracle tables schema table parents allowed verb bridge_id =
      if is_row_write verb
      then check_parents tables schema table parents allowed verb bridge_id
      else ok tt

  unfoldable pub check_verb :
      GrantTables → String → String → SourceGrant → CrossingVerb → String → Result (Unit {0})
  unfolding throw_if_foreign_key_oracle has_verb
  check_verb tables schema table grant verb bridge_id =
      if has_verb grant verb
      then throw_if_foreign_key_oracle tables schema table grant.foreign_key_parents
          grant.allowed_foreign_keys verb bridge_id
      else ok tt

  -- One table of the loop of `ValidateGrantSet`
  unfoldable pub check_grant :
      GrantTables → String → String → SourceGrant → String → Result (Unit {0})
  unfolding check_verb
  check_grant tables schema table grant bridge_id =
      if grant.verbs == 0
      then forbid (
          "vcatbridge: '" <> schema <> "." <> table <> "' in bridge '" <> bridge_id
          <> "' sets primary_key or foreign_keys but grants no verb")
      else check_verb tables schema table grant insert bridge_id
        >> check_verb tables schema table grant update bridge_id

  unfoldable pub check_tables : GrantTables → String → TableGrants → String → Result (Unit {0})
  unfolding check_grant
  check_tables tables schema [] bridge_id = ok tt
  check_tables tables schema ((table, grant) ∷ entries) bridge_id =
      check_grant tables schema table grant bridge_id
      >> check_tables tables schema entries bridge_id

  unfoldable pub check_schemas : GrantTables → GrantTables → String → Result (Unit {0})
  unfolding check_tables
  check_schemas tables [] bridge_id = ok tt
  check_schemas tables ((schema, entries) ∷ schemas) bridge_id =
      check_tables tables schema entries bridge_id >> check_schemas tables schemas bridge_id

  unfoldable pub count_tables : GrantTables → ℕ
  count_tables [] = 0
  count_tables ((schema, entries) ∷ schemas) = length entries + count_tables schemas

  -- `ValidateGrantSet`
  unfoldable pub validate_grant_set : GrantTables → List String → String → Bool → Result (Unit {0})
  unfolding check_schemas count_tables
  validate_grant_set tables create_schemas bridge_id attaching =
      check_schemas tables tables bridge_id
      >> (if attaching && (length create_schemas + count_tables tables == 0)
          then forbid (
              "vcatbridge: bridge '" <> bridge_id
              <> "' has no policies; call vcatbridge_configure_policy or vcatbridge_set_policy on the source connection before attaching")
          else ok tt)
