-- ===== src/Grants/Edits.antt =====
-- bridge/duckdb_source.cpp: what each kind of `SetPolicy` does to the policy, behind the lookups in the
-- source.
pub mod Wholeness
pub mod Allowances
pub mod Refines
use duckdb_virtual_catalog.Prelude.{
  String, Bool, true, false, not, ◌&&◌, ◌||◌, List, [], ◌∷◌, Option, none, some, ◌==◌, ◌<>◌,
  if◌then◌else◌, Result, ok, err, catalog, ◌>>=◌,
}
use duckdb_virtual_catalog.Host.{StringUtil, Crossing, CrossingVerb}
use duckdb_virtual_catalog.CaseInsensitive.{insert, erase}
use duckdb_virtual_catalog.Policy.Name.{PolicyName}
use duckdb_virtual_catalog.Policy.Edit.{PolicyListOp, add, remove, set}
use duckdb_virtual_catalog.Grants.{
  SourceGrant, ResolvedVerb, unresolved_verb, ResolvedKey, TableFacts, install_verb, install_facts,
  install_key, apply_function_list,
}
use duckdb_virtual_catalog.Grants.Tables.{
  GrantTables, PolicyState, find_grant, put_grant, erase_grant, or_new,
}

module _ ⦃u : StringUtil⦄ ⦃c : Crossing⦄ where
  -- WHITELIST
  unfoldable pub edit_functions : PolicyListOp → List String → PolicyState → PolicyState
  unfolding apply_function_list
  edit_functions op names state = record state {
    functions = apply_function_list state.functions op names;
  }

  -- CREATE
  unfoldable pub edit_create : String → Bool → PolicyState → PolicyState
  unfolding insert erase
  edit_create schema granted state = record state {
    create_schemas =
        if granted then insert schema state.create_schemas else erase schema state.create_schemas;
  }

  -- A table without verbs is not granted.
  unfoldable pub put_unless_empty : PolicyName → SourceGrant → GrantTables → GrantTables
  unfolding put_grant erase_grant
  put_unless_empty target grant tables =
      if grant.verbs == 0
      then erase_grant tables target.schema target.name
      else put_grant tables target.schema target.name grant

  unfoldable pub revoke_verb :
      PolicyName → CrossingVerb → Option SourceGrant → GrantTables → GrantTables
  unfolding install_verb put_unless_empty
  revoke_verb target verb none tables = tables
  revoke_verb target verb (some grant) tables =
      put_unless_empty target (install_verb grant verb unresolved_verb) tables

  -- VERB. `none`: the verb is revoked.
  unfoldable pub edit_verb :
      PolicyName → CrossingVerb → Option (ResolvedVerb × TableFacts) → PolicyState → PolicyState
  unfolding revoke_verb find_grant put_grant install_verb install_facts or_new
  edit_verb target verb none state = record state {
    tables =
        revoke_verb target verb (find_grant state.tables target.schema target.name) state.tables;
  }
  edit_verb target verb (some (resolved, facts)) state = record state {
    tables = put_grant state.tables target.schema target.name (
        install_verb
          (install_facts (or_new (find_grant state.tables target.schema target.name)) facts) verb
          resolved);
  }

  -- `GrantToConfigure`, of the grant that is there
  unfoldable pub grant_to_configure :
      Option SourceGrant → PolicyName → Bool → String → Result SourceGrant
  unfolding or_new
  grant_to_configure (some grant) name live bridge_id = ok grant
  grant_to_configure none name false bridge_id = ok (or_new none)
  grant_to_configure none name true bridge_id = err (record {
    type = catalog;
    message =
        "vcatbridge: '" <> name.schema <> "." <> name.name <> "' is not granted in bridge '"
        <> bridge_id <> "'; grant it a verb first";
  })

  abbrev pub is_absent : Option SourceGrant → Bool
  is_absent none = true
  is_absent (some grant) = false

  unfoldable pub configure :
      PolicyName → Bool → String → (SourceGrant → SourceGrant) → PolicyState → Result PolicyState
  unfolding grant_to_configure find_grant put_grant
  configure target live bridge_id change state = do
    grant ←
        grant_to_configure (find_grant state.tables target.schema target.name) target live bridge_id
    ok (record state { tables = put_grant state.tables target.schema target.name (change grant) })

  -- PRIMARY_KEY. `none`: there is no key.
  unfoldable pub edit_key :
      PolicyName → Option ResolvedKey → Bool → String → PolicyState → Result PolicyState
  unfolding configure find_grant install_key
  edit_key target (some resolved) live bridge_id state =
      configure target live bridge_id (λ grant. install_key grant resolved) state
  edit_key target none live bridge_id state =
      if is_absent (find_grant state.tables target.schema target.name)
      then ok state
      else configure target live bridge_id
          (λ grant. install_key grant (record { set = false; columns = []; verified = true })) state

  unfoldable pub change_names : Bool → List PolicyName → List String → List String
  unfolding insert erase
  change_names removes [] names = names
  change_names removes (parent ∷ parents) names =
      change_names removes parents
        (if removes then erase parent.name names else insert parent.name names)

  unfoldable pub change_foreign_keys : PolicyListOp → List PolicyName → SourceGrant → SourceGrant
  unfolding change_names
  change_foreign_keys add parents grant = record grant {
    allowed_foreign_keys = change_names false parents grant.allowed_foreign_keys;
  }
  change_foreign_keys remove parents grant = record grant {
    allowed_foreign_keys = change_names true parents grant.allowed_foreign_keys;
  }
  change_foreign_keys set parents grant = record grant {
    allowed_foreign_keys = change_names false parents [];
  }

  abbrev pub clears : PolicyListOp → List PolicyName → Bool
  clears remove parents = true
  clears set [] = true
  clears op parents = false

  -- FOREIGN_KEYS
  unfoldable pub edit_foreign_keys :
      PolicyName → PolicyListOp → List PolicyName → Bool → String → PolicyState → Result PolicyState
  unfolding configure find_grant change_foreign_keys
  edit_foreign_keys target op parents live bridge_id state =
      if clears op parents && is_absent (find_grant state.tables target.schema target.name)
      then ok state
      else configure target live bridge_id (change_foreign_keys op parents) state

-- A change of a policy, with what the source had to say: what `CommitPolicy` is called with.
pub data Change : Type 0 where
  functions_change : PolicyListOp → List String → Change
  create_change : String → Bool → Change
  verb_change : PolicyName → CrossingVerb → Option (ResolvedVerb × TableFacts) → Change
  key_change : PolicyName → Option ResolvedKey → Change
  foreign_keys_change : PolicyName → PolicyListOp → List PolicyName → Change
  -- `ConfigurePolicy`
  replacement : PolicyState → Change

unfoldable pub touches_tables : Change → Bool
touches_tables (functions_change op names) = false
touches_tables change = true

module _ ⦃u : StringUtil⦄ ⦃c : Crossing⦄ where
  -- The `edit` of `CommitPolicy`
  unfoldable pub apply_change : Change → Bool → String → PolicyState → Result PolicyState
  unfolding edit_functions edit_create edit_verb edit_key edit_foreign_keys
  apply_change (functions_change op names) live bridge_id state = ok (edit_functions op names state)
  apply_change (create_change schema granted) live bridge_id state =
      ok (edit_create schema granted state)
  apply_change (verb_change target verb edit) live bridge_id state =
      ok (edit_verb target verb edit state)
  apply_change (key_change target resolved) live bridge_id state =
      edit_key target resolved live bridge_id state
  apply_change (foreign_keys_change target op parents) live bridge_id state =
      edit_foreign_keys target op parents live bridge_id state
  apply_change (replacement new) live bridge_id state = ok new
