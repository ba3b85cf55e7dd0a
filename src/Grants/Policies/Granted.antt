-- ===== src/Grants/Policies/Granted.antt =====
-- What `ResolvePolicy` grants in one table is what the document states of it.
use duckdb_virtual_catalog.Prelude.{
  String, ◌≡◌, refl, sym, ap, ◌∙◌, subst, true, List, [], ◌∷◌, Option, none, some, ◌==◌, Bool-cases,
  inl, inr, arith, Result, ok, err, ok_injective, some_injective, bind-eq-ok, ◌<>◌,
}
use duckdb_virtual_catalog.Host.{StringUtil, Crossing, CrossingVerb}
use duckdb_virtual_catalog.Policy.Name.{PolicyName}
use duckdb_virtual_catalog.Policy.Table.{PolicyTable}
use duckdb_virtual_catalog.Grants.{
  SourceGrant, ResolvedVerb, ResolvedKey, no_grant, has_verb, copy_using, copy_check, install_verb,
  install_facts, install_key,
}
use duckdb_virtual_catalog.Grants.Tables.{GrantTables}
use duckdb_virtual_catalog.Grants.Tables.Whole.{
  IsWholeGrant, no_grant-IsWholeGrant, install_verb-IsWholeGrant,
}
use duckdb_virtual_catalog.Grants.Edits.Allowances.{
  Allowance, grant_allows, resolved_allows, grant_allows-install_verb, no_verb_allows,
}
use duckdb_virtual_catalog.Grants.Seam.{Values}
use duckdb_virtual_catalog.Grants.Source.{Source, SourceEntry, facts_of, throw_unless_foreign_key}
use duckdb_virtual_catalog.Grants.Resolve.{resolve_verb}
use duckdb_virtual_catalog.Grants.Keys.{resolve_key}
use duckdb_virtual_catalog.Grants.Guarded.{PolicyIssues, rethrows, guarded}
use duckdb_virtual_catalog.Grants.Policies.{
  setting_of, install_resolved, insert_if, key_severity, resolve_one, resolve_verbs,
  resolve_parents, install_key_if, resolve_table_key, put_resolved, resolve_entry,
}

-- What a guarded call computed, it computed.
pub guarded-some :
    {A : Type 0} (issues : PolicyIssues) (path severity : String) (call : Result A) (a : A)
    (r : Option A × PolicyIssues)
    → guarded issues path severity call ≡ ok r
    → r.0 ≡ some a
    → call ≡ ok a
unfolding guarded
guarded-some issues path severity (ok value) a r h e =
    ap ok (some_injective (ap (λ q. q.0) (ok_injective h) ∙ e))
guarded-some none path severity (err failure) a r h e = cc
guarded-some (some issues) path severity (err failure) a r h e =
    elim (Bool-cases (rethrows failure.type)) [
      | inl severe ↦ cc (rw severe at h)
      | inr recorded ↦
          let nothing : r.0 ≡ none = sym (ap (λ q. q.0) (ok_injective (rw recorded at h))) in cc
    ]

module _ ⦃u : StringUtil⦄ ⦃c : Crossing⦄ (source : Source) (values : Option Values) where
  -- A verb that the grant allows is granted in the document, and allows what its setting resolves to.
  abbrev pub IsStated : SourceEntry → PolicyTable → CrossingVerb → Allowance → Type 0
  IsStated entry table verb allowed =
      ((setting_of table verb).granted ≡ true)
      × (resolved : ResolvedVerb) × (resolve_verb source entry table.name verb
            (setting_of table verb) values
          ≡ ok resolved)
      × (resolved_allows resolved ≡ allowed)

  abbrev pub IsResolved : SourceEntry → PolicyTable → SourceGrant → Type 0
  IsResolved entry table grant =
      IsWholeGrant grant
      × ((verb : CrossingVerb) (a : _)
          → grant_allows grant verb ≡ some a
          → IsStated entry table verb (some a))

  resolve_one-IsResolved :
      (entry : SourceEntry) (table : PolicyTable) (verb : CrossingVerb) (grant : SourceGrant)
      (issues : PolicyIssues) (r : SourceGrant × PolicyIssues)
      → IsResolved entry table grant
      → resolve_one source entry table values verb grant issues ≡ ok r
      → IsResolved entry table r.0
  unfolding resolve_one install_resolved
  resolve_one-IsResolved entry table verb grant issues r h e =
      elim (Bool-cases (setting_of table verb).granted) [
        | inr denied ↦ subst (λ q. IsResolved entry table q.0) (ok_injective (rw denied at e)) h
        | inl granted ↦
            let (result, p, e') = bind-eq-ok (guarded issues _ _ _) _ (rw granted at e) in
            subst (λ q. IsResolved entry table q.0) (ok_injective e')
              (installed granted _ result.1 result.0
                (λ resolved k. guarded-some issues _ _ _ resolved result p k))
      ]
    where
      stated :
          (resolved : ResolvedVerb) (v : CrossingVerb) (a : _)
          → (setting_of table verb).granted ≡ true
          → resolve_verb source entry table.name verb (setting_of table verb) values ≡ ok resolved
          → grant_allows (install_verb grant verb resolved) v ≡ some a
          → IsStated entry table v (some a)
      stated resolved v a granted k allowed = elim (Bool-cases (c.index verb == c.index v)) [
        | inl same ↦
            subst (λ w. IsStated entry table w (some a)) (c.index_injective verb v (ground arith))
              (
                granted,
                resolved,
                k,
                rw same at (sym (grant_allows-install_verb grant verb v resolved h.0) ∙ allowed),
              )
        | inr differs ↦
            h.1 v a
              (rw differs at (sym (grant_allows-install_verb grant verb v resolved h.0) ∙ allowed))
      ]

      installed :
          (setting_of table verb).granted ≡ true
          → (path : String) (later : PolicyIssues) (o : Option ResolvedVerb)
          → ((resolved : ResolvedVerb)
              → o ≡ some resolved
              → resolve_verb source entry table.name verb (setting_of table verb) values
                ≡ ok resolved)
          → IsResolved entry table (install_resolved verb values path o grant later).0
      installed granted path later none k = h
      installed granted path later (some resolved) k = (
        install_verb-IsWholeGrant grant verb resolved h.0,
        λ v a allowed. stated resolved v a granted (k resolved refl) allowed,
      )

  resolve_verbs-IsResolved :
      (entry : SourceEntry) (table : PolicyTable) (verbs : List CrossingVerb) (grant : SourceGrant)
      (issues : PolicyIssues) (r : SourceGrant × PolicyIssues)
      → IsResolved entry table grant
      → resolve_verbs source entry table values verbs grant issues ≡ ok r
      → IsResolved entry table r.0
  unfolding resolve_verbs
  resolve_verbs-IsResolved entry table [] grant issues r h e =
      subst (λ q. IsResolved entry table q.0) (ok_injective e) h
  resolve_verbs-IsResolved entry table (verb ∷ verbs) grant issues r h e =
      let (one, p, e') = bind-eq-ok (resolve_one source entry table values verb grant issues) _ e in
      resolve_verbs-IsResolved entry table verbs one.0 one.1 r
        (resolve_one-IsResolved entry table verb grant issues one h p) e'

  resolve_parents-IsResolved :
      (entry : SourceEntry) (table : PolicyTable) (parents : List PolicyName) (grant : SourceGrant)
      (issues : PolicyIssues) (r : SourceGrant × PolicyIssues)
      → IsResolved entry table grant
      → resolve_parents source entry table parents grant issues ≡ ok r
      → IsResolved entry table r.0
  unfolding resolve_parents grant_allows has_verb copy_using copy_check
  resolve_parents-IsResolved entry table [] grant issues r h e =
      subst (λ q. IsResolved entry table q.0) (ok_injective e) h
  resolve_parents-IsResolved entry table (parent ∷ parents) grant issues r h e =
      let (checked, p, e') =
        bind-eq-ok
          (guarded issues (table.path <> ".foreign_keys") "error"
            (throw_unless_foreign_key source entry table.name parent))
          _ e in
      resolve_parents-IsResolved entry table parents
        (record grant {
          allowed_foreign_keys = insert_if checked.0 parent.name grant.allowed_foreign_keys;
        })
        checked.1 r h e'

  resolve_table_key-IsResolved :
      (entry : SourceEntry) (table : PolicyTable) (grant : SourceGrant) (issues : PolicyIssues)
      (r : SourceGrant × PolicyIssues)
      → IsResolved entry table grant
      → resolve_table_key source entry table grant issues ≡ ok r
      → IsResolved entry table r.0
  unfolding resolve_table_key install_key_if install_key grant_allows has_verb copy_using copy_check
  resolve_table_key-IsResolved entry table grant issues r h e = elim (Bool-cases table.has_key) [
    | inr without ↦ subst (λ q. IsResolved entry table q.0) (ok_injective (rw without at e)) h
    | inl present ↦
        let (key, p, e') =
          bind-eq-ok
            (guarded issues (table.path <> ".primary_key") (key_severity table.key)
              (resolve_key source entry table.name table.key))
            _ (rw present at e) in
        subst (λ q. IsResolved entry table q.0) (ok_injective e') (installed key.0)
  ]
    where
      installed : (key : Option ResolvedKey) → IsResolved entry table (install_key_if key grant)
      installed none = h
      installed (some key) = h

  new_grant-IsResolved :
      (entry : SourceEntry) (table : PolicyTable)
      → IsResolved entry table (install_facts no_grant (facts_of entry))
  unfolding install_facts grant_allows has_verb copy_using copy_check
  new_grant-IsResolved entry table = (
    no_grant-IsWholeGrant,
    λ verb a allowed. cc (sym (no_verb_allows no_grant verb refl) ∙ allowed),
  )

  -- The grant that is put for an entry of the document is resolved.
  pub resolve_entry-IsResolved :
      (entry : SourceEntry) (table : PolicyTable) (tables : GrantTables) (issues : PolicyIssues)
      (r : GrantTables × PolicyIssues)
      → resolve_entry source table values (some entry) tables issues ≡ ok r
      → (grant : SourceGrant) × (later : PolicyIssues) × IsResolved entry table grant
        × (r ≡ put_resolved table.name grant tables later)
  unfolding resolve_entry
  resolve_entry-IsResolved entry table tables issues r e =
      let (verbs, p, e') =
        bind-eq-ok
          (resolve_verbs source entry table values c.verbs (install_facts no_grant (facts_of entry))
            issues)
          _ e in
      let (key, p', e'') = bind-eq-ok (resolve_table_key source entry table verbs.0 verbs.1) _ e' in
      let (parents, p'', e3) =
        bind-eq-ok (resolve_parents source entry table table.foreign_keys key.0 key.1) _ e'' in
      (
        parents.0,
        parents.1,
        resolve_parents-IsResolved entry table table.foreign_keys key.0 key.1 parents
            (resolve_table_key-IsResolved entry table verbs.0 verbs.1 key
              (resolve_verbs-IsResolved entry table c.verbs
                (install_facts no_grant (facts_of entry)) issues verbs
                (new_grant-IsResolved entry table) p)
              p')
            p'',
        sym (ok_injective e3),
      )
