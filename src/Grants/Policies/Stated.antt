-- ===== src/Grants/Policies/Stated.antt =====
-- What `ResolvePolicy` grants is what the document states.
use duckdb_virtual_catalog.Prelude.{
  String, ◌≡◌, refl, sym, ap, ◌∙◌, subst, true, ◌&&◌, List, [], ◌∷◌, Option, none, some, ◌==◌, ◌⊎◌,
  Bool-cases, inl, inr, Any, here, there, ok, ok_injective, some_injective, bind-eq-ok, ◌>>◌,
}
use duckdb_virtual_catalog.Host.{StringUtil, Crossing, CrossingVerb}
use duckdb_virtual_catalog.Policy.Table.{PolicyTable}
use duckdb_virtual_catalog.Policy.Document.{PolicyConfig}
use duckdb_virtual_catalog.Grants.{SourceGrant}
use duckdb_virtual_catalog.Grants.Expression.{Parsed}
use duckdb_virtual_catalog.Grants.Tables.{GrantTables, PolicyState, find_grant}
use duckdb_virtual_catalog.Grants.Tables.Laws.{is_same_table, find_grant-put_grant}
use duckdb_virtual_catalog.Grants.Edits.Allowances.{grant_allows, found_allows}
use duckdb_virtual_catalog.Grants.Edits.Refines.{allows}
use duckdb_virtual_catalog.Grants.Seam.{Values}
use duckdb_virtual_catalog.Grants.Source.{Source, SourceEntry, grantable_entry}
use duckdb_virtual_catalog.Grants.Guarded.{PolicyIssues, has_issues, guarded}
use duckdb_virtual_catalog.Grants.Policies.{
  check_new, put_resolved, resolve_entry, resolve_table, resolve_tables, resolve_schemas,
  resolve_policy,
}
use duckdb_virtual_catalog.Grants.Policies.Granted.{
  guarded-some, IsStated, IsResolved, resolve_entry-IsResolved,
}

map-Any : {A : Type 0} {P Q : A → Type 0} → ((a : A) → P a → Q a) → (l : List A) → Any P l → Any Q l
map-Any f [] h = elim h [ ]
map-Any f (a ∷ l) (here h) = here (f a h)
map-Any f (a ∷ l) (there h) = there (map-Any f l h)

module _ ⦃u : StringUtil⦄ ⦃c : Crossing⦄ (source : Source) (values : Option Values) where
  -- A table of the resolved policy: an entry of the document that states it, on an entry of the source
  abbrev pub IsFrom : String → String → SourceGrant → PolicyTable → Type 0
  IsFrom schema name grant table =
      (is_same_table table.name.schema table.name.name schema name ≡ true)
      × (entry : SourceEntry) × (grantable_entry source table.name ≡ ok entry)
      × IsResolved source values entry table grant

  put_resolved-IsFrom :
      (entry : SourceEntry) (table : PolicyTable) (grant : SourceGrant) (tables : GrantTables)
      (issues : PolicyIssues) (schema name : String) (found : SourceGrant)
      → grantable_entry source table.name ≡ ok entry
      → IsResolved source values entry table grant
      → find_grant (put_resolved table.name grant tables issues).0 schema name ≡ some found
      → (find_grant tables schema name ≡ some found) ⊎ IsFrom schema name found table
  unfolding put_resolved
  put_resolved-IsFrom entry table grant tables issues schema name found g h e =
      elim (Bool-cases (has_issues issues && (grant.verbs == 0))) [
        | inl skipped ↦ inl (rw skipped at e)
        | inr kept ↦
            let e' =
              find_grant-put_grant tables table.name.schema table.name.name schema name grant in
            elim (Bool-cases (is_same_table table.name.schema table.name.name schema name)) [
              | inr other ↦ inl (rw other at (sym e' ∙ rw kept at e))
              | inl same ↦ inr (
                same,
                entry,
                g,
                subst (IsResolved source values entry table)
                    (some_injective (rw same at (sym e' ∙ rw kept at e))) h,
              )
            ]
      ]

  -- A table behind the loop's step: it was there, or the step's entry of the document states it.
  abbrev pub IsFromOr : GrantTables → PolicyTable → GrantTables → Type 0
  IsFromOr tables table after =
      (schema name : String) (found : SourceGrant)
      → find_grant after schema name ≡ some found
      → (find_grant tables schema name ≡ some found) ⊎ IsFrom schema name found table

  resolve_entry-IsFromOr :
      (table : PolicyTable) (o : Option SourceEntry) (tables : GrantTables) (issues : PolicyIssues)
      (r : GrantTables × PolicyIssues)
      → ((entry : SourceEntry) → o ≡ some entry → grantable_entry source table.name ≡ ok entry)
      → resolve_entry source table values o tables issues ≡ ok r
      → IsFromOr tables table r.0
  unfolding resolve_entry
  resolve_entry-IsFromOr table none tables issues r g e =
      λ schema name found k. inl (ap (λ q. find_grant q.0 schema name) (ok_injective e) ∙ k)
  resolve_entry-IsFromOr table (some entry) tables issues r g e =
      let (grant, later, h, e') =
        resolve_entry-IsResolved source values entry table tables issues r e in
      λ schema name found k.
        put_resolved-IsFrom entry table grant tables later schema name found (g entry refl) h
          (ap (λ q. find_grant q.0 schema name) (sym e') ∙ k)

  resolve_table-IsFromOr :
      (table : PolicyTable) (tables : GrantTables) (issues : PolicyIssues)
      (r : GrantTables × PolicyIssues)
      → resolve_table source values table tables issues ≡ ok r
      → IsFromOr tables table r.0
  unfolding resolve_table
  resolve_table-IsFromOr table tables issues r e =
      let call =
        check_new table.name (find_grant tables table.name.schema table.name.name)
        >> grantable_entry source table.name in
      let (found, p, e') = bind-eq-ok (guarded issues table.path "error" call) _ e in
      resolve_entry-IsFromOr table found.0 tables found.1 r
        (λ entry k.
          let (checked, q, q') =
            bind-eq-ok (check_new table.name (find_grant tables table.name.schema table.name.name))
              _ (guarded-some issues table.path "error" call entry found p k) in
          q')
        e'

  resolve_tables-IsFrom :
      (rest : List PolicyTable) (tables : GrantTables) (issues : PolicyIssues)
      (r : GrantTables × PolicyIssues) (schema name : String) (found : SourceGrant)
      → resolve_tables source values rest tables issues ≡ ok r
      → find_grant r.0 schema name ≡ some found
      → (find_grant tables schema name ≡ some found) ⊎ Any (IsFrom schema name found) rest
  unfolding resolve_tables
  resolve_tables-IsFrom [] tables issues r schema name found e k =
      inl (ap (λ q. find_grant q.0 schema name) (ok_injective e) ∙ k)
  resolve_tables-IsFrom (table ∷ rest) tables issues r schema name found e k =
      let (one, p, e') = bind-eq-ok (resolve_table source values table tables issues) _ e in
      elim (resolve_tables-IsFrom rest one.0 one.1 r schema name found e' k) [
        | inr later ↦ inr (there later)
        | inl before ↦
            elim (resolve_table-IsFromOr table tables issues one p schema name found before) [
              | inl first ↦ inl first
              | inr now ↦ inr (here now)
            ]
      ]

  -- What the resolved policy allows of a table and a verb is what an entry of the document states: the
  -- entry names the table, which the source has, grants the verb, and the predicates are those that its
  -- setting resolves to.
  pub resolve_policy-allows :
      (config : PolicyConfig) (issues : PolicyIssues) (r : PolicyState × PolicyIssues)
      (schema name : String) (verb : CrossingVerb) (allowed : Option Parsed × Option Parsed)
      → resolve_policy source config values issues ≡ ok r
      → allows r.0.tables schema name verb ≡ some allowed
      → Any
          (λ table.
            (is_same_table table.name.schema table.name.name schema name ≡ true)
            × (entry : SourceEntry) × (grantable_entry source table.name ≡ ok entry)
            × IsStated source values entry table verb (some allowed))
          config.tables
  unfolding resolve_policy allows found_allows find_grant
  resolve_policy-allows config issues r schema name verb allowed e k =
      let (schemas, p, e') =
        bind-eq-ok (resolve_schemas source config.create_schemas issues []) _ e in
      let (tables, q, e'') =
        bind-eq-ok (resolve_tables source values config.tables [] schemas.1) _ e' in
      found tables.0 (find_grant tables.0 schema name)
        (λ grant f. resolve_tables-IsFrom config.tables [] schemas.1 tables schema name grant q f)
        refl
        (ap (λ s. found_allows (find_grant s.0.tables schema name) verb) (ok_injective e'') ∙ k)
    where
      stated :
          (grant : SourceGrant) (table : PolicyTable)
          → grant_allows grant verb ≡ some allowed
          → IsFrom schema name grant table
          → (is_same_table table.name.schema table.name.name schema name ≡ true)
            × (entry : SourceEntry) × (grantable_entry source table.name ≡ ok entry)
            × IsStated source values entry table verb (some allowed)
      stated grant table a (same, entry, g, h) = (same, entry, g, h.1 verb allowed a)

      found :
          (tables : GrantTables) (o : Option SourceGrant)
          → ((grant : SourceGrant)
              → find_grant tables schema name ≡ some grant
              → (find_grant [] schema name ≡ some grant)
                ⊎ Any (IsFrom schema name grant) config.tables)
          → find_grant tables schema name ≡ o
          → found_allows o verb ≡ some allowed
          → Any
              (λ table.
                (is_same_table table.name.schema table.name.name schema name ≡ true)
                × (entry : SourceEntry) × (grantable_entry source table.name ≡ ok entry)
                × IsStated source values entry table verb (some allowed))
              config.tables
      found tables none from e a = cc
      found tables (some grant) from e a = elim (from grant e) [
        | inl empty ↦ cc
        | inr any ↦ map-Any (λ table h. stated grant table a h) config.tables any
      ]
