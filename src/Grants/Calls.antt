-- ===== src/Grants/Calls.antt =====
-- bridge/duckdb_source.cpp: `SetPolicy` and `ConfigurePolicy`, from the arguments of a call to the changed
-- registry.
pub mod Sound
mod Tests
use duckdb_virtual_catalog.Prelude.{
  ℕ, String, Bool, true, false, List, [], ◌∷◌, Option, none, some, if◌then◌else◌, Result, ok, err,
  ◌>>=◌, ◌>>◌,
}
use duckdb_virtual_catalog.Host.{StringUtil, Crossing}
use duckdb_virtual_catalog.Policy.Name.{PolicyName}
use duckdb_virtual_catalog.Policy.Document.{PolicyConfig}
use duckdb_virtual_catalog.Policy.Edit.{
  PolicyEdit, PolicyEditKind, verb_kind, create_kind, primary_key_kind, foreign_keys_kind,
  whitelist_kind, PolicyListOp, add, remove, set,
}
use duckdb_virtual_catalog.Grants.Tables.{PolicyState}
use duckdb_virtual_catalog.Grants.Seam.{Values}
use duckdb_virtual_catalog.Grants.Source.{
  Source, SourceEntry, facts_of, grantable_entry, throw_unless_schema_exists,
  throw_unless_foreign_key,
}
use duckdb_virtual_catalog.Grants.Resolve.{resolve_verb}
use duckdb_virtual_catalog.Grants.Keys.{resolve_key}
use duckdb_virtual_catalog.Grants.Guarded.{rethrow_at}
use duckdb_virtual_catalog.Grants.Policies.{resolve_policy}
use duckdb_virtual_catalog.Grants.Edits.{
  Change, functions_change, create_change, verb_change, key_change, foreign_keys_change,
  replacement,
}
use duckdb_virtual_catalog.Grants.Commit.{grant_policies, commit_policy}
use duckdb_virtual_catalog.Registry.{World, Registry}
use duckdb_virtual_catalog.Registry.Targets.{GrantTarget, lookup_open_grants}

module _ ⦃u : StringUtil⦄ ⦃c : Crossing⦄ where
  unfoldable pub check_foreign_keys :
      Source → SourceEntry → PolicyName → List PolicyName → Result (Unit {0})
  unfolding throw_unless_foreign_key
  check_foreign_keys source entry child [] = ok tt
  check_foreign_keys source entry child (parent ∷ parents) =
      throw_unless_foreign_key source entry child parent
      >> check_foreign_keys source entry child parents

  abbrev pub is_remove : PolicyListOp → Bool
  is_remove remove = true
  is_remove op = false

  unfoldable pub verb_change_of : Result Source → PolicyEdit → Values → Result Change
  unfolding grantable_entry resolve_verb facts_of
  verb_change_of opened edit values = do
    source ← opened
    entry ← grantable_entry source edit.target
    resolved ← resolve_verb source entry edit.target edit.verb edit.verb_value (some values)
    ok (verb_change edit.target edit.verb (some (resolved, facts_of entry)))

  unfoldable pub key_change_of : Result Source → PolicyEdit → Result Change
  unfolding grantable_entry resolve_key
  key_change_of opened edit = do
    source ← opened
    entry ← grantable_entry source edit.target
    resolved ← resolve_key source entry edit.target edit.key
    ok (key_change edit.target (some resolved))

  unfoldable pub create_change_of : Result Source → PolicyEdit → Result Change
  unfolding throw_unless_schema_exists
  create_change_of opened edit = do
    source ← opened
    found ← throw_unless_schema_exists source edit.target
    ok (create_change edit.target.schema true)

  unfoldable pub foreign_keys_change_of : Result Source → PolicyEdit → Result Change
  unfolding grantable_entry check_foreign_keys
  foreign_keys_change_of opened edit = do
    source ← opened
    entry ← grantable_entry source edit.target
    found ← check_foreign_keys source entry edit.target edit.foreign_keys
    ok (foreign_keys_change edit.target edit.op edit.foreign_keys)

  -- What `SetPolicy` asks of the source, before it commits
  unfoldable pub change_of : PolicyEditKind → Result Source → PolicyEdit → Values → Result Change
  unfolding verb_change_of key_change_of create_change_of foreign_keys_change_of
  change_of whitelist_kind opened edit values = ok (functions_change edit.op edit.functions)
  change_of create_kind opened edit values =
      if edit.verb_value.granted
      then create_change_of opened edit
      else ok (create_change edit.target.schema false)
  change_of verb_kind opened edit values =
      if edit.verb_value.granted
      then verb_change_of opened edit values
      else ok (verb_change edit.target edit.verb none)
  change_of primary_key_kind opened edit values =
      if edit.has_key then key_change_of opened edit else ok (key_change edit.target none)
  change_of foreign_keys_kind opened edit values =
      if is_remove edit.op
      then ok (foreign_keys_change edit.target edit.op edit.foreign_keys)
      else foreign_keys_change_of opened edit

  -- The change that `ConfigurePolicy` commits
  unfoldable pub configuration_of : Result Source → PolicyConfig → Values → Result Change
  unfolding resolve_policy
  configuration_of opened config values = do
    source ← opened
    resolved ← resolve_policy source config (some values) none
    ok (replacement resolved.0)

  -- A change that was prepared is committed. The registry's lock was not held in between: `later` and
  -- `now` are the process and the registry by then.
  unfoldable pub commit_prepared :
      World
      → Registry grant_policies
      → String
      → ℕ
      → Result Change
      → Registry grant_policies × Result (Unit {0})
  unfolding commit_policy
  commit_prepared later now bridge_id caller (err thrown) = (now, err thrown)
  commit_prepared later now bridge_id caller (ok change) =
      commit_policy later now bridge_id caller change

  -- What is prepared of a bridge's open grants: a transaction on the source of the target, and the values
  -- of its context
  unfoldable pub prepare :
      (GrantTarget grant_policies → Result Source)
      → (ℕ → Values)
      → (Result Source → Values → Result Change)
      → Result (GrantTarget grant_policies)
      → Result Change
  prepare sources contexts change (err thrown) = err thrown
  prepare sources contexts change (ok target) = change (sources target) (contexts target.context)

  -- `SetPolicy`, up to the commit
  unfoldable pub prepare_edit :
      World
      → (GrantTarget grant_policies → Result Source)
      → (ℕ → Values)
      → Registry grant_policies
      → String
      → ℕ
      → PolicyEdit
      → Result Change
  unfolding prepare change_of lookup_open_grants
  prepare_edit w sources contexts reg bridge_id caller edit =
      prepare sources contexts (λ opened values. change_of edit.kind opened edit values)
        (lookup_open_grants grant_policies w reg bridge_id caller).1

  -- `ConfigurePolicy`, up to the commit
  unfoldable pub prepare_configuration :
      World
      → (GrantTarget grant_policies → Result Source)
      → (ℕ → Values)
      → Registry grant_policies
      → String
      → ℕ
      → PolicyConfig
      → Result Change
  unfolding prepare configuration_of lookup_open_grants
  prepare_configuration w sources contexts reg bridge_id caller config =
      prepare sources contexts (λ opened values. configuration_of opened config values)
        (lookup_open_grants grant_policies w reg bridge_id caller).1
