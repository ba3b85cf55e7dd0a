-- ===== src/Grants/Policies/Wholeness.antt =====
-- The grants that `ResolvePolicy` makes are well-formed.
use duckdb_virtual_catalog.Prelude.{
  ◌≡◌, sym, subst, ◌&&◌, ◌==◌, List, [], ◌∷◌, Option, none, some, Bool-cases, inl, inr, ok,
  ok_injective, bind-eq-ok, ◌>>◌,
}
use duckdb_virtual_catalog.Host.{StringUtil, Crossing}
use duckdb_virtual_catalog.Policy.Name.{PolicyName}
use duckdb_virtual_catalog.Policy.Table.{PolicyTable}
use duckdb_virtual_catalog.Policy.Document.{PolicyConfig}
use duckdb_virtual_catalog.Grants.{SourceGrant}
use duckdb_virtual_catalog.Grants.Tables.{GrantTables, PolicyState, find_grant}
use duckdb_virtual_catalog.Grants.Tables.Whole.{IsWholeGrant, AreWhole, put_grant-AreWhole}
use duckdb_virtual_catalog.Grants.Seam.{Values}
use duckdb_virtual_catalog.Grants.Source.{Source, SourceEntry, grantable_entry}
use duckdb_virtual_catalog.Grants.Guarded.{PolicyIssues, has_issues, guarded}
use duckdb_virtual_catalog.Grants.Policies.{
  check_new, put_resolved, resolve_entry, resolve_table, resolve_tables, resolve_schemas,
  resolve_policy,
}
use duckdb_virtual_catalog.Grants.Policies.Granted.{resolve_entry-IsResolved}

module _ ⦃u : StringUtil⦄ ⦃c : Crossing⦄ (source : Source) (values : Option Values) where
  put_resolved-AreWhole :
      (name : PolicyName) (grant : SourceGrant) (tables : GrantTables) (issues : PolicyIssues)
      → AreWhole tables
      → IsWholeGrant grant
      → AreWhole (put_resolved name grant tables issues).0
  unfolding put_resolved
  put_resolved-AreWhole name grant tables issues whole h =
      elim (Bool-cases (has_issues issues && (grant.verbs == 0))) [
        | inl skipped ↦ rw skipped whole
        | inr kept ↦ rw kept (put_grant-AreWhole tables name.schema name.name grant whole h)
      ]

  resolve_entry-AreWhole :
      (table : PolicyTable) (o : Option SourceEntry) (tables : GrantTables) (issues : PolicyIssues)
      (r : GrantTables × PolicyIssues)
      → AreWhole tables
      → resolve_entry source table values o tables issues ≡ ok r
      → AreWhole r.0
  unfolding resolve_entry
  resolve_entry-AreWhole table none tables issues r whole e =
      subst (λ q. AreWhole q.0) (ok_injective e) whole
  resolve_entry-AreWhole table (some entry) tables issues r whole e =
      let (grant, later, h, e') =
        resolve_entry-IsResolved source values entry table tables issues r e in
      subst (λ q. AreWhole q.0) (sym e')
        (put_resolved-AreWhole table.name grant tables later whole h.0)

  resolve_tables-AreWhole :
      (rest : List PolicyTable) (tables : GrantTables) (issues : PolicyIssues)
      (r : GrantTables × PolicyIssues)
      → AreWhole tables
      → resolve_tables source values rest tables issues ≡ ok r
      → AreWhole r.0
  unfolding resolve_tables resolve_table
  resolve_tables-AreWhole [] tables issues r whole e =
      subst (λ q. AreWhole q.0) (ok_injective e) whole
  resolve_tables-AreWhole (table ∷ rest) tables issues r whole e =
      let (one, p, e') = bind-eq-ok (resolve_table source values table tables issues) _ e in
      let (found, _, q) =
        bind-eq-ok
          (guarded issues table.path "error" (
            check_new table.name (find_grant tables table.name.schema table.name.name)
            >> grantable_entry source table.name))
          _ p in
      resolve_tables-AreWhole rest one.0 one.1 r
        (resolve_entry-AreWhole table found.0 tables found.1 one whole q) e'

  pub resolve_policy-AreWhole :
      (config : PolicyConfig) (issues : PolicyIssues) (r : PolicyState × PolicyIssues)
      → resolve_policy source config values issues ≡ ok r
      → AreWhole r.0.tables
  unfolding resolve_policy
  resolve_policy-AreWhole config issues r e =
      let (schemas, p, e') =
        bind-eq-ok (resolve_schemas source config.create_schemas issues []) _ e in
      let (tables, q, e'') =
        bind-eq-ok (resolve_tables source values config.tables [] schemas.1) _ e' in
      subst (λ s. AreWhole s.0.tables) (ok_injective e'')
        (resolve_tables-AreWhole config.tables [] schemas.1 tables (tt, tt) q)
