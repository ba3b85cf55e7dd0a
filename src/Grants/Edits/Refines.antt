-- ===== src/Grants/Edits/Refines.antt =====
-- What a target may do, as a function of a table and a verb, and how the edits change it.
use duckdb_virtual_catalog.Prelude.{
  String, ◌≡◌, refl, sym, ap, ◌∙◌, Bool, true, false, ◌&&◌, Option, none, some, ◌==◌, if◌then◌else◌,
  Bool-cases, inl, inr,
}
use duckdb_virtual_catalog.Host.{StringUtil, Crossing, CrossingVerb}
use duckdb_virtual_catalog.Policy.Name.{PolicyName}
use duckdb_virtual_catalog.Grants.{
  SourceGrant, ResolvedVerb, unresolved_verb, TableFacts, no_grant, has_verb, copy_using,
  copy_check, install_verb, install_facts,
}
use duckdb_virtual_catalog.Grants.Tables.{GrantTables, PolicyState, find_grant, put_grant, or_new}
use duckdb_virtual_catalog.Grants.Tables.Laws.{
  is_same_table, find_grant_congr, find_grant-put_grant, find_grant-erase_grant,
}
use duckdb_virtual_catalog.Grants.Tables.Whole.{
  IsWholeGrant, AreWhole, find_grant-AreWhole, or_new-IsWholeGrant,
}
use duckdb_virtual_catalog.Grants.Edits.{put_unless_empty, revoke_verb, edit_verb}
use duckdb_virtual_catalog.Grants.Edits.Allowances.{
  Allowance, grant_allows, found_allows, resolved_allows, grant_allows-install_verb, no_verb_allows,
}

module _ ⦃u : StringUtil⦄ ⦃c : Crossing⦄ where
  -- What the grants allow of a table and a verb: the policy, with its representation forgotten
  unfoldable pub allows : GrantTables → String → String → CrossingVerb → Allowance
  unfolding find_grant found_allows
  allows tables schema table verb = found_allows (find_grant tables schema table) verb

  found_allows_if :
      (b : Bool) (o o' : Option SourceGrant) (verb : CrossingVerb) (allowed : Allowance)
      → found_allows o verb ≡ allowed
      → found_allows (if b then o else o') verb ≡ (if b then allowed else found_allows o' verb)
  found_allows_if true o o' verb allowed h = h
  found_allows_if false o o' verb allowed h = refl

  allows-put_grant :
      (tables : GrantTables) (schema table schema' table' : String) (grant : SourceGrant)
      (verb : CrossingVerb)
      → allows (put_grant tables schema table grant) schema' table' verb ≡ (
          if is_same_table schema table schema' table'
          then grant_allows grant verb
          else allows tables schema' table' verb)
  unfolding allows
  allows-put_grant tables schema table schema' table' grant verb =
      rw (find_grant-put_grant tables schema table schema' table' grant) (
        found_allows_if (is_same_table schema table schema' table') (some grant)
          (find_grant tables schema' table') verb (grant_allows grant verb) refl)

  allows-put_unless_empty :
      (target : PolicyName) (grant : SourceGrant) (tables : GrantTables) (schema table : String)
      (verb : CrossingVerb)
      → AreWhole tables
      → allows (put_unless_empty target grant tables) schema table verb ≡ (
          if is_same_table target.schema target.name schema table
          then grant_allows grant verb
          else allows tables schema table verb)
  unfolding allows put_unless_empty
  allows-put_unless_empty target grant tables schema table verb (unique, whole) =
      elim (Bool-cases (grant.verbs == 0)) [
        | inl empty ↦
            simp
              (empty, find_grant-erase_grant tables target.schema target.name schema table unique)
              (found_allows_if (is_same_table target.schema target.name schema table) none
                (find_grant tables schema table) verb (grant_allows grant verb)
                (sym (no_verb_allows grant verb empty)))
        | inr some_verb ↦
            simp (some_verb)
              (allows-put_grant tables target.schema target.name schema table grant verb)
      ]

  -- What a change of a verb comes to
  abbrev pub edit_allows : Option (ResolvedVerb × TableFacts) → Allowance
  edit_allows none = none
  edit_allows (some (resolved, facts)) = resolved_allows resolved

  -- An update of the allowances at a table and a verb
  abbrev pub updated_allows :
      PolicyName
      → CrossingVerb
      → Allowance
      → GrantTables
      → String
      → String
      → CrossingVerb
      → Allowance
  updated_allows target verb allowed tables schema table verb' =
      if is_same_table target.schema target.name schema table && c.index verb == c.index verb'
      then allowed
      else allows tables schema table verb'

  or_new_allows :
      (o : Option SourceGrant) (verb : CrossingVerb)
      → grant_allows (or_new o) verb ≡ found_allows o verb
  unfolding or_new found_allows
  or_new_allows none verb = no_verb_allows no_grant verb refl
  or_new_allows (some grant) verb = refl

  -- An update of a table that changes one verb of it
  update_verb :
      (same eq : Bool) (allowed old other_old : Allowance)
      → (same ≡ true → old ≡ other_old)
      → (if same then (if eq then allowed else old) else other_old)
        ≡ (if same && eq then allowed else other_old)
  update_verb true true allowed old other_old h = refl
  update_verb true false allowed old other_old h = h refl
  update_verb false eq allowed old other_old h = refl

  update_nothing :
      (same eq : Bool) (old : Allowance)
      → (same ≡ true → old ≡ none)
      → old ≡ (if same && eq then none else old)
  update_nothing true true old h = h refl
  update_nothing true false old h = refl
  update_nothing false eq old h = refl

  installed_allows :
      (target : PolicyName) (verb : CrossingVerb) (grant : SourceGrant) (resolved : ResolvedVerb)
      (tables : GrantTables) (schema table : String) (verb' : CrossingVerb)
      → IsWholeGrant grant
      → found_allows (find_grant tables target.schema target.name) verb' ≡ grant_allows grant verb'
      → (if is_same_table target.schema target.name schema table
          then grant_allows (install_verb grant verb resolved) verb'
          else allows tables schema table verb')
        ≡ updated_allows target verb (resolved_allows resolved) tables schema table verb'
  unfolding allows
  installed_allows target verb grant resolved tables schema table verb' whole h =
      rw (grant_allows-install_verb grant verb verb' resolved whole) (
        update_verb (is_same_table target.schema target.name schema table)
          (c.index verb == c.index verb') (resolved_allows resolved) (grant_allows grant verb')
          (allows tables schema table verb')
          (λ same.
            sym h
            ∙ ap (λ o. found_allows o verb')
                (find_grant_congr tables target.schema target.name schema table same)))

  -- Setting a verb refines the update of the abstract policy at that table and verb: there the target is
  -- allowed what was resolved, or nothing if the verb is revoked, and nothing else changes.
  pub allows-edit_verb :
      (target : PolicyName) (verb : CrossingVerb) (edit : Option (ResolvedVerb × TableFacts))
      (state : PolicyState) (schema table : String) (verb' : CrossingVerb)
      → AreWhole state.tables
      → allows (edit_verb target verb edit state).tables schema table verb'
        ≡ updated_allows target verb (edit_allows edit) state.tables schema table verb'
  unfolding edit_verb revoke_verb resolved_allows install_facts grant_allows has_verb copy_using
      copy_check allows
  allows-edit_verb target verb none state schema table verb' whole =
      revoked (find_grant state.tables target.schema target.name) refl
    where
      revoked :
          (o : Option SourceGrant)
          → find_grant state.tables target.schema target.name ≡ o
          → allows (revoke_verb target verb o state.tables) schema table verb'
            ≡ updated_allows target verb none state.tables schema table verb'
      revoked none e =
          update_nothing (is_same_table target.schema target.name schema table)
            (c.index verb == c.index verb') (allows state.tables schema table verb')
            (λ same.
              ap (λ o. found_allows o verb')
                (sym (find_grant_congr state.tables target.schema target.name schema table same)
                  ∙ e))
      revoked (some grant) e =
          let whole_grant =
            find_grant-AreWhole state.tables target.schema target.name grant whole e in
          allows-put_unless_empty target (install_verb grant verb unresolved_verb) state.tables
            schema table verb' whole
          ∙ installed_allows target verb grant unresolved_verb state.tables schema table verb'
              whole_grant (ap (λ o. found_allows o verb') e)
  allows-edit_verb target verb (some (resolved, facts)) state schema table verb' whole =
      let o = find_grant state.tables target.schema target.name in
      let grant = install_facts (or_new o) facts in
      allows-put_grant state.tables target.schema target.name schema table
        (install_verb grant verb resolved) verb'
      ∙ installed_allows target verb grant resolved state.tables schema table verb'
          (or_new-IsWholeGrant state.tables target.schema target.name whole)
          (sym (or_new_allows o verb'))
