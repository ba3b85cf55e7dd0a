-- ===== src/Grants/Edits/Wholeness.antt =====
-- Each edit keeps the shape of the grants.
use duckdb_virtual_catalog.Prelude.{
  String, ◌≡◌, refl, subst, Bool, true, false, ◌&&◌, List, Option, none, some, ◌==◌, arith,
  Bool-cases, inl, inr, ok, ok_injective, ◌>>=◌,
}
use duckdb_virtual_catalog.Host.{StringUtil, Crossing, CrossingVerb}
use duckdb_virtual_catalog.Policy.Name.{PolicyName}
use duckdb_virtual_catalog.Policy.Edit.{PolicyListOp, add, remove, set as set_op}
use duckdb_virtual_catalog.Grants.{
  SourceGrant, ResolvedVerb, unresolved_verb, ResolvedKey, unresolved_key, TableFacts, no_grant,
  install_facts, install_key,
}
use duckdb_virtual_catalog.Grants.Tables.{GrantTables, PolicyState, find_grant, put_grant, or_new}
use duckdb_virtual_catalog.Grants.Tables.Whole.{
  IsWholeGrant, no_grant-IsWholeGrant, install_verb-IsWholeGrant, AreWhole, put_grant-AreWhole,
  erase_grant-AreWhole, find_grant-AreWhole, or_new-IsWholeGrant,
}
use duckdb_virtual_catalog.Grants.Edits.{
  edit_functions, edit_create, put_unless_empty, revoke_verb, edit_verb, grant_to_configure,
  is_absent, configure, edit_key, clears, change_foreign_keys, edit_foreign_keys, Change,
  functions_change, create_change, verb_change, key_change, foreign_keys_change, replacement,
  apply_change,
}

module _ ⦃u : StringUtil⦄ ⦃c : Crossing⦄ where
  put_unless_empty-AreWhole :
      (target : PolicyName) (grant : SourceGrant) (tables : GrantTables)
      → AreWhole tables
      → IsWholeGrant grant
      → AreWhole (put_unless_empty target grant tables)
  unfolding put_unless_empty
  put_unless_empty-AreWhole target grant tables whole h = elim (Bool-cases (grant.verbs == 0)) [
    | inl empty ↦ simp (empty) (erase_grant-AreWhole tables target.schema target.name whole)
    | inr some_verb ↦
        simp (some_verb) (put_grant-AreWhole tables target.schema target.name grant whole h)
  ]

  pub edit_verb-AreWhole :
      (target : PolicyName) (verb : CrossingVerb) (edit : Option (ResolvedVerb × TableFacts))
      (state : PolicyState)
      → AreWhole state.tables
      → AreWhole (edit_verb target verb edit state).tables
  unfolding edit_verb revoke_verb install_facts
  edit_verb-AreWhole target verb none state whole =
      revoked (find_grant state.tables target.schema target.name) refl
    where
      revoked :
          (o : Option SourceGrant)
          → find_grant state.tables target.schema target.name ≡ o
          → AreWhole (revoke_verb target verb o state.tables)
      revoked none e = whole
      revoked (some grant) e = put_unless_empty-AreWhole target _ state.tables whole (
          install_verb-IsWholeGrant grant verb unresolved_verb
            (find_grant-AreWhole state.tables target.schema target.name grant whole e))
  edit_verb-AreWhole target verb (some (resolved, facts)) state whole =
      let grant = or_new (find_grant state.tables target.schema target.name) in
      put_grant-AreWhole state.tables target.schema target.name _ whole (
        install_verb-IsWholeGrant (install_facts grant facts) verb resolved
          (or_new-IsWholeGrant state.tables target.schema target.name whole))

  configure-AreWhole :
      (target : PolicyName) (live : Bool) (bridge_id : String) (change : SourceGrant → SourceGrant)
      (state state' : PolicyState)
      → ((grant : SourceGrant) → IsWholeGrant grant → IsWholeGrant (change grant))
      → AreWhole state.tables
      → configure target live bridge_id change state ≡ ok state'
      → AreWhole state'.tables
  unfolding configure grant_to_configure
  configure-AreWhole target live bridge_id change state state' keeps whole h =
      go (find_grant state.tables target.schema target.name) live refl h
    where
      put :
          (grant : SourceGrant)
          → IsWholeGrant grant
          → AreWhole (put_grant state.tables target.schema target.name (change grant))
      put grant w =
          put_grant-AreWhole state.tables target.schema target.name (change grant) whole
            (keeps grant w)

      go :
          (o : Option SourceGrant) (live : Bool)
          → find_grant state.tables target.schema target.name ≡ o
          → (grant_to_configure o target live bridge_id >>= λ grant. ok (record state {
            tables = put_grant state.tables target.schema target.name (change grant);
          }))
            ≡ ok state'
          → AreWhole state'.tables
      go none true e k = ground arith
      go none false e k =
          subst (λ q. AreWhole q.tables) (ok_injective k) (put no_grant no_grant-IsWholeGrant)
      go (some grant) b e k =
          subst (λ q. AreWhole q.tables) (ok_injective k)
            (put grant (find_grant-AreWhole state.tables target.schema target.name grant whole e))

  edit_key-AreWhole :
      (target : PolicyName) (key : Option ResolvedKey) (live : Bool) (bridge_id : String)
      (state state' : PolicyState)
      → AreWhole state.tables
      → edit_key target key live bridge_id state ≡ ok state'
      → AreWhole state'.tables
  unfolding edit_key install_key
  edit_key-AreWhole target (some resolved) live bridge_id state state' whole h =
      configure-AreWhole target live bridge_id (λ grant. install_key grant resolved) state state'
        (λ grant w. w) whole h
  edit_key-AreWhole target none live bridge_id state state' whole h =
      elim (Bool-cases (is_absent (find_grant state.tables target.schema target.name))) [
        | inl absent ↦ subst (λ q. AreWhole q.tables) (ok_injective (rw absent at h)) whole
        | inr present ↦
            configure-AreWhole target live bridge_id (λ grant. install_key grant unresolved_key)
              state state' (λ grant w. w) whole (rw present at h)
      ]

  change_foreign_keys-IsWholeGrant :
      (op : PolicyListOp) (parents : List PolicyName) (grant : SourceGrant)
      → IsWholeGrant grant
      → IsWholeGrant (change_foreign_keys op parents grant)
  unfolding change_foreign_keys
  change_foreign_keys-IsWholeGrant add parents grant h = h
  change_foreign_keys-IsWholeGrant remove parents grant h = h
  change_foreign_keys-IsWholeGrant set_op parents grant h = h

  edit_foreign_keys-AreWhole :
      (target : PolicyName) (op : PolicyListOp) (parents : List PolicyName) (live : Bool)
      (bridge_id : String) (state state' : PolicyState)
      → AreWhole state.tables
      → edit_foreign_keys target op parents live bridge_id state ≡ ok state'
      → AreWhole state'.tables
  unfolding edit_foreign_keys
  edit_foreign_keys-AreWhole target op parents live bridge_id state state' whole h =
      elim (Bool-cases
        (clears op parents && is_absent (find_grant state.tables target.schema target.name))) [
          | inl nothing ↦ subst (λ q. AreWhole q.tables) (ok_injective (rw nothing at h)) whole
          | inr something ↦
              configure-AreWhole target live bridge_id (change_foreign_keys op parents) state state'
                (change_foreign_keys-IsWholeGrant op parents) whole (rw something at h)
        ]

  -- A replacement is whole already.
  abbrev pub IsWholeChange : Change → Type 0
  IsWholeChange (replacement new) = AreWhole new.tables
  IsWholeChange change = Unit

  -- Every change that is applied keeps the policy whole.
  pub apply_change-AreWhole :
      (change : Change) (live : Bool) (bridge_id : String) (state state' : PolicyState)
      → IsWholeChange change
      → AreWhole state.tables
      → apply_change change live bridge_id state ≡ ok state'
      → AreWhole state'.tables
  unfolding apply_change edit_functions edit_create
  apply_change-AreWhole (functions_change op names) live bridge_id state state' w whole h =
      subst (λ q. AreWhole q.tables) (ok_injective h) whole
  apply_change-AreWhole (create_change schema granted) live bridge_id state state' w whole h =
      subst (λ q. AreWhole q.tables) (ok_injective h) whole
  apply_change-AreWhole (verb_change target verb edit) live bridge_id state state' w whole h =
      subst (λ q. AreWhole q.tables) (ok_injective h)
        (edit_verb-AreWhole target verb edit state whole)
  apply_change-AreWhole (key_change target key) live bridge_id state state' w whole h =
      edit_key-AreWhole target key live bridge_id state state' whole h
  apply_change-AreWhole (foreign_keys_change target op parents) live bridge_id state state' w whole
        h =
      edit_foreign_keys-AreWhole target op parents live bridge_id state state' whole h
  apply_change-AreWhole (replacement new) live bridge_id state state' w whole h =
      subst (λ q. AreWhole q.tables) (ok_injective h) w
