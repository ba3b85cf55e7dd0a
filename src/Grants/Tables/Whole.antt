-- ===== src/Grants/Tables/Whole.antt =====
-- The shape of every grant in the tables.
use duckdb_virtual_catalog.Prelude.{
  ◌<◌, String, ◌≡◌, refl, ◌∙◌, [], ◌∷◌, Option, none, some, arith, Bool-cases, inl, inr, length,
  length-set, length-replicate,
}
use duckdb_virtual_catalog.Host.{StringUtil, Crossing, CrossingVerb}
use duckdb_virtual_catalog.CaseInsensitive.{find, remove as remove_name}
use duckdb_virtual_catalog.CaseInsensitive.Maps.{
  AllValues, assign-AllValues, remove-AllValues, find-AllValues,
}
use duckdb_virtual_catalog.Grants.{SourceGrant, ResolvedVerb, no_grant, install_verb}
use duckdb_virtual_catalog.Grants.Bits.{set_bit-lt, clear_bit-lt}
use duckdb_virtual_catalog.Grants.Tables.{
  TableGrants, GrantTables, or_empty, no_tables, find_in, find_grant, put_grant, erase_grant,
  or_new,
}
use duckdb_virtual_catalog.Grants.Tables.Laws.{
  AreTables, put_grant-AreTables, erase_grant-AreTables,
}

module _ ⦃c : Crossing⦄ where
  -- The verbs are a byte, and there is a predicate of each kind, or none, for each verb.
  abbrev pub IsWholeGrant : SourceGrant → Type 0
  IsWholeGrant grant =
      (grant.verbs < 256)
      × (length grant.using_predicates ≡ length c.verbs)
      × (length grant.check_predicates ≡ length c.verbs)

  pub no_grant-IsWholeGrant : IsWholeGrant no_grant
  no_grant-IsWholeGrant =
      (omega arith, length-replicate (length c.verbs) none, length-replicate (length c.verbs) none)

  pub install_verb-IsWholeGrant :
      (grant : SourceGrant) (verb : CrossingVerb) (resolved : ResolvedVerb)
      → IsWholeGrant grant
      → IsWholeGrant (install_verb grant verb resolved)
  unfolding install_verb
  install_verb-IsWholeGrant grant verb resolved (byte, usings, checks) = (
    elim (Bool-cases resolved.granted) [
      | inl granted ↦ rw granted (set_bit-lt grant.verbs (c.index verb) byte (c.index_lt_8 verb))
      | inr denied ↦ rw denied (clear_bit-lt grant.verbs (c.index verb) byte (c.index_lt_8 verb))
    ],
    length-set grant.using_predicates (c.index verb) resolved.using_predicate ∙ usings,
    length-set grant.check_predicates (c.index verb) resolved.check_predicate ∙ checks,
  )

module _ ⦃u : StringUtil⦄ ⦃c : Crossing⦄ where
  -- Names are unique, and every grant is whole.
  abbrev pub AreWhole : GrantTables → Type 0
  AreWhole tables = AreTables tables × AllValues (λ entries. AllValues IsWholeGrant entries) tables

  entries-AllValues :
      (P : SourceGrant → Type 0) (tables : GrantTables) (schema : String)
      → AllValues (λ entries. AllValues P entries) tables
      → AllValues P (or_empty (find schema tables))
  unfolding find
  entries-AllValues P [] schema h = tt
  entries-AllValues P ((j, entries) ∷ tables) schema (h, all_h) =
      elim (Bool-cases (u.ci_equals j schema)) [
        | inl same ↦ rw same h
        | inr differs ↦ rw differs (entries-AllValues P tables schema all_h)
      ]

  pub put_grant-AreWhole :
      (tables : GrantTables) (schema table : String) (grant : SourceGrant)
      → AreWhole tables
      → IsWholeGrant grant
      → AreWhole (put_grant tables schema table grant)
  unfolding put_grant
  put_grant-AreWhole tables schema table grant (unique, whole) h = (
    put_grant-AreTables tables schema table grant unique,
    assign-AllValues (λ entries. AllValues IsWholeGrant entries) schema _ tables
        (assign-AllValues IsWholeGrant table grant (or_empty (find schema tables)) h
          (entries-AllValues IsWholeGrant tables schema whole))
        whole,
  )

  pub erase_grant-AreWhole :
      (tables : GrantTables) (schema table : String)
      → AreWhole tables
      → AreWhole (erase_grant tables schema table)
  unfolding erase_grant
  erase_grant-AreWhole tables schema table (unique, whole) =
      let P = λ (entries : TableGrants). AllValues IsWholeGrant entries in
      let entries = remove_name table (or_empty (find schema tables)) in
      (
        erase_grant-AreTables tables schema table unique,
        elim (Bool-cases (no_tables entries)) [
          | inl gone ↦ rw gone (remove-AllValues P schema tables whole)
          | inr kept ↦ rw kept (
              assign-AllValues P schema entries tables
                (remove-AllValues IsWholeGrant table (or_empty (find schema tables))
                  (entries-AllValues IsWholeGrant tables schema whole))
                whole)
        ],
      )

  pub find_grant-AreWhole :
      (tables : GrantTables) (schema table : String) (grant : SourceGrant)
      → AreWhole tables
      → find_grant tables schema table ≡ some grant
      → IsWholeGrant grant
  unfolding find_grant find_in
  find_grant-AreWhole tables schema table grant (unique, whole) h =
      found (find schema tables) refl h
    where
      found :
          (o : Option TableGrants)
          → find schema tables ≡ o
          → find_in table o ≡ some grant
          → IsWholeGrant grant
      found none e k = ground arith
      found (some entries) e k =
          find-AllValues IsWholeGrant table entries grant
            (find-AllValues (λ entries. AllValues IsWholeGrant entries) schema tables entries whole
              e)
            k

  pub or_new-IsWholeGrant :
      (tables : GrantTables) (schema table : String)
      → AreWhole tables
      → IsWholeGrant (or_new (find_grant tables schema table))
  unfolding or_new
  or_new-IsWholeGrant tables schema table whole = found (find_grant tables schema table) refl
    where
      found :
          (o : Option SourceGrant) → find_grant tables schema table ≡ o → IsWholeGrant (or_new o)
      found none e = no_grant-IsWholeGrant
      found (some grant) e = find_grant-AreWhole tables schema table grant whole e
