-- ===== src/Grants/Tables/Laws.antt =====
-- The tables of grants as a map from a schema and a name.
use duckdb_virtual_catalog.Prelude.{
  String, ◌≡◌, refl, sym, ap, ◌∙◌, Bool, true, ◌&&◌, [], ◌∷◌, Option, none, some, arith,
  if◌then◌else◌, Bool-cases, inl, inr,
}
use duckdb_virtual_catalog.Host.{StringUtil}
use duckdb_virtual_catalog.CaseInsensitive.{find, assign, remove}
use duckdb_virtual_catalog.CaseInsensitive.Maps.{
  find_congr, find-assign, IsMap, assign-IsMap, find-remove, remove-IsMap,
}
use duckdb_virtual_catalog.Grants.{SourceGrant}
use duckdb_virtual_catalog.Grants.Tables.{
  TableGrants, GrantTables, or_empty, no_tables, find_in, find_grant, put_grant, erase_grant,
}

module _ ⦃u : StringUtil⦄ where
  -- Keys are unique, of the schemas and of the tables in each.
  abbrev pub AreTables : GrantTables → Type 0
  AreTables [] = Unit
  AreTables ((schema, entries) ∷ tables) =
      (find schema tables ≡ none) × IsMap entries × AreTables tables

  -- Two names stand for the same table.
  abbrev pub is_same_table : String → String → String → String → Bool
  is_same_table schema table schema' table' = u.ci_equals schema schema' && u.ci_equals table table'

  find_in-or_empty :
      (table : String) (o : Option TableGrants) → find table (or_empty o) ≡ find_in table o
  unfolding find_in find
  find_in-or_empty table none = refl
  find_in-or_empty table (some entries) = refl

  pub find_grant-put_grant :
      (tables : GrantTables) (schema table schema' table' : String) (grant : SourceGrant)
      → find_grant (put_grant tables schema table grant) schema' table' ≡ (
          if is_same_table schema table schema' table'
          then some grant
          else find_grant tables schema' table')
  unfolding find_grant put_grant find_in
  find_grant-put_grant tables schema table schema' table' grant =
      elim (Bool-cases (u.ci_equals schema schema')) [
        | inr differs ↦ rw (find-assign schema' schema _ tables, differs) refl
        | inl same ↦
            rw
              (
                find-assign schema' schema (assign table grant (or_empty (find schema tables)))
                    tables,
                same,
                find-assign table' table grant (or_empty (find schema tables)),
                find_in-or_empty table' (find schema tables),
                find_congr schema schema' tables same,
              )
              refl
      ]

  pub find_grant_congr :
      (tables : GrantTables) (schema table schema' table' : String)
      → is_same_table schema table schema' table' ≡ true
      → find_grant tables schema table ≡ find_grant tables schema' table'
  unfolding find_grant find_in
  find_grant_congr tables schema table schema' table' same =
      let schemas : u.ci_equals schema schema' ≡ true = ground arith in
      let names : u.ci_equals table table' ≡ true = ground arith in
      ap (find_in table) (find_congr schema schema' tables schemas)
      ∙ found (find schema' tables) names
    where
      found :
          (o : Option TableGrants)
          → u.ci_equals table table' ≡ true
          → find_in table o ≡ find_in table' o
      found none h = refl
      found (some entries) h = find_congr table table' entries h

  AreTables-IsMap : (tables : GrantTables) → AreTables tables → IsMap tables
  AreTables-IsMap [] h = tt
  AreTables-IsMap ((schema, entries) ∷ tables) (h, entries_map, rest) =
      (h, AreTables-IsMap tables rest)

  find-IsMap :
      (tables : GrantTables) (schema : String)
      → AreTables tables
      → IsMap (or_empty (find schema tables))
  unfolding find
  find-IsMap [] schema h = tt
  find-IsMap ((j, entries) ∷ tables) schema (h, entries_map, rest) =
      elim (Bool-cases (u.ci_equals j schema)) [
        | inl same ↦ rw same entries_map
        | inr differs ↦ rw differs (find-IsMap tables schema rest)
      ]

  -- What is left of a schema when a table is erased from it
  left_of :
      (tables : GrantTables) (schema table schema' table' : String)
      → AreTables tables
      → u.ci_equals schema schema' ≡ true
      → find table' (remove table (or_empty (find schema tables)))
        ≡ (if u.ci_equals table table' then none else find_grant tables schema' table')
  unfolding find_grant
  left_of tables schema table schema' table' h same =
      rw
        (
          find-remove table' table (or_empty (find schema tables)) (find-IsMap tables schema h),
          find_in-or_empty table' (find schema tables),
          find_congr schema schema' tables same,
        )
        refl

  find-no_tables : (table : String) (m : TableGrants) → no_tables m ≡ true → find table m ≡ none
  unfolding find
  find-no_tables table [] h = refl
  find-no_tables table (entry ∷ m) h = cc

  pub find_grant-erase_grant :
      (tables : GrantTables) (schema table schema' table' : String)
      → AreTables tables
      → find_grant (erase_grant tables schema table) schema' table' ≡ (
          if is_same_table schema table schema' table'
          then none
          else find_grant tables schema' table')
  unfolding find_grant erase_grant find_in
  find_grant-erase_grant tables schema table schema' table' h =
      let entries = remove table (or_empty (find schema tables)) in
      let unique = AreTables-IsMap tables h in
      elim (Bool-cases (no_tables entries)) [
        | inl gone ↦ elim (Bool-cases (u.ci_equals schema schema')) [
          | inr differs ↦ rw (gone, find-remove schema' schema tables unique, differs) refl
          | inl same ↦
              rw (gone, find-remove schema' schema tables unique, same)
                (sym (find-no_tables table' entries gone)
                  ∙ left_of tables schema table schema' table' h same)
        ]
        | inr kept ↦ elim (Bool-cases (u.ci_equals schema schema')) [
          | inr differs ↦ rw (kept, find-assign schema' schema entries tables, differs) refl
          | inl same ↦
              rw (kept, find-assign schema' schema entries tables, same)
                (left_of tables schema table schema' table' h same)
        ]
      ]

  assign-AreTables :
      (schema : String) (entries : TableGrants) (tables : GrantTables)
      → IsMap entries
      → AreTables tables
      → AreTables (assign schema entries tables)
  unfolding find assign
  assign-AreTables schema entries [] unique h = (refl, unique, tt)
  assign-AreTables schema entries ((j, old) ∷ tables) unique (h, old_unique, rest) =
      elim (Bool-cases (u.ci_equals j schema)) [
        | inl same ↦ rw same (h, unique, rest)
        | inr differs ↦ rw differs (
          ground (arith, find-assign j schema entries tables, u.ci_sym schema j),
          old_unique,
          assign-AreTables schema entries tables unique rest,
        )
      ]

  remove-AreTables :
      (schema : String) (tables : GrantTables) → AreTables tables → AreTables (remove schema tables)
  unfolding find remove
  remove-AreTables schema [] h = tt
  remove-AreTables schema ((j, old) ∷ tables) (h, old_unique, rest) =
      elim (Bool-cases (u.ci_equals j schema)) [
        | inl same ↦ rw same rest
        | inr differs ↦ rw differs (
          ground (arith, find-remove j schema tables (AreTables-IsMap tables rest)),
          old_unique,
          remove-AreTables schema tables rest,
        )
      ]

  pub put_grant-AreTables :
      (tables : GrantTables) (schema table : String) (grant : SourceGrant)
      → AreTables tables
      → AreTables (put_grant tables schema table grant)
  unfolding put_grant
  put_grant-AreTables tables schema table grant h =
      assign-AreTables schema _ tables
        (assign-IsMap table grant (or_empty (find schema tables)) (find-IsMap tables schema h)) h

  pub erase_grant-AreTables :
      (tables : GrantTables) (schema table : String)
      → AreTables tables
      → AreTables (erase_grant tables schema table)
  unfolding erase_grant
  erase_grant-AreTables tables schema table h =
      let entries = remove table (or_empty (find schema tables)) in
      elim (Bool-cases (no_tables entries)) [
        | inl gone ↦ rw gone (remove-AreTables schema tables h)
        | inr kept ↦ rw kept (
            assign-AreTables schema entries tables
              (remove-IsMap table (or_empty (find schema tables)) (find-IsMap tables schema h)) h)
      ]
