-- ===== src/Grants/Calls/Sound.antt =====
-- The changes that the calls prepare keep the registry sound.
use duckdb_virtual_catalog.Prelude.{
  ℕ, String, ◌≡◌, refl, subst, none, some, Bool-cases, inl, inr, Result, ok, err, ok_injective,
  bind-eq-ok,
}
use duckdb_virtual_catalog.Host.{StringUtil, Crossing}
use duckdb_virtual_catalog.Policy.Document.{PolicyConfig}
use duckdb_virtual_catalog.Policy.Edit.{
  PolicyEdit, PolicyEditKind, verb_kind, create_kind, primary_key_kind, foreign_keys_kind,
  whitelist_kind,
}
use duckdb_virtual_catalog.Grants.Seam.{Values}
use duckdb_virtual_catalog.Grants.Source.{Source, grantable_entry, throw_unless_schema_exists}
use duckdb_virtual_catalog.Grants.Resolve.{resolve_verb}
use duckdb_virtual_catalog.Grants.Keys.{resolve_key}
use duckdb_virtual_catalog.Grants.Policies.{resolve_policy}
use duckdb_virtual_catalog.Grants.Policies.Wholeness.{resolve_policy-AreWhole}
use duckdb_virtual_catalog.Grants.Edits.{Change}
use duckdb_virtual_catalog.Grants.Edits.Wholeness.{IsWholeChange}
use duckdb_virtual_catalog.Grants.Commit.{grant_policies}
use duckdb_virtual_catalog.Grants.Commit.Sound.{IsSoundRegistry, commit_policy-IsSoundRegistry}
use duckdb_virtual_catalog.Grants.Calls.{
  check_foreign_keys, is_remove, verb_change_of, key_change_of, create_change_of,
  foreign_keys_change_of, change_of, configuration_of, commit_prepared, prepare, prepare_edit,
  prepare_configuration,
}
use duckdb_virtual_catalog.Registry.{World, Registry}
use duckdb_virtual_catalog.Registry.Targets.{GrantTarget}

module _ ⦃u : StringUtil⦄ ⦃c : Crossing⦄ where
  verb_change_of-IsWholeChange :
      (opened : Result Source) (edit : PolicyEdit) (values : Values) (change : Change)
      → verb_change_of opened edit values ≡ ok change
      → IsWholeChange change
  unfolding verb_change_of
  verb_change_of-IsWholeChange opened edit values change h =
      let (source, _, h') = bind-eq-ok opened _ h in
      let (entry, _, h'') = bind-eq-ok (grantable_entry source edit.target) _ h' in
      let (resolved, _, h3) =
        bind-eq-ok (resolve_verb source entry edit.target edit.verb edit.verb_value (some values)) _
          h'' in
      subst IsWholeChange (ok_injective h3) tt

  key_change_of-IsWholeChange :
      (opened : Result Source) (edit : PolicyEdit) (change : Change)
      → key_change_of opened edit ≡ ok change
      → IsWholeChange change
  unfolding key_change_of
  key_change_of-IsWholeChange opened edit change h =
      let (source, _, h') = bind-eq-ok opened _ h in
      let (entry, _, h'') = bind-eq-ok (grantable_entry source edit.target) _ h' in
      let (resolved, _, h3) = bind-eq-ok (resolve_key source entry edit.target edit.key) _ h'' in
      subst IsWholeChange (ok_injective h3) tt

  create_change_of-IsWholeChange :
      (opened : Result Source) (edit : PolicyEdit) (change : Change)
      → create_change_of opened edit ≡ ok change
      → IsWholeChange change
  unfolding create_change_of
  create_change_of-IsWholeChange opened edit change h =
      let (source, _, h') = bind-eq-ok opened _ h in
      let (found, _, h'') = bind-eq-ok (throw_unless_schema_exists source edit.target) _ h' in
      subst IsWholeChange (ok_injective h'') tt

  foreign_keys_change_of-IsWholeChange :
      (opened : Result Source) (edit : PolicyEdit) (change : Change)
      → foreign_keys_change_of opened edit ≡ ok change
      → IsWholeChange change
  unfolding foreign_keys_change_of
  foreign_keys_change_of-IsWholeChange opened edit change h =
      let (source, _, h') = bind-eq-ok opened _ h in
      let (entry, _, h'') = bind-eq-ok (grantable_entry source edit.target) _ h' in
      let (found, _, h3) =
        bind-eq-ok (check_foreign_keys source entry edit.target edit.foreign_keys) _ h'' in
      subst IsWholeChange (ok_injective h3) tt

  change_of-IsWholeChange :
      (kind : PolicyEditKind) (opened : Result Source) (edit : PolicyEdit) (values : Values)
      (change : Change)
      → change_of kind opened edit values ≡ ok change
      → IsWholeChange change
  unfolding change_of
  change_of-IsWholeChange whitelist_kind opened edit values change h =
      subst IsWholeChange (ok_injective h) tt
  change_of-IsWholeChange create_kind opened edit values change h =
      elim (Bool-cases edit.verb_value.granted) [
        | inl granted ↦ create_change_of-IsWholeChange opened edit change (rw granted at h)
        | inr revoked ↦ subst IsWholeChange (ok_injective (rw revoked at h)) tt
      ]
  change_of-IsWholeChange verb_kind opened edit values change h =
      elim (Bool-cases edit.verb_value.granted) [
        | inl granted ↦ verb_change_of-IsWholeChange opened edit values change (rw granted at h)
        | inr revoked ↦ subst IsWholeChange (ok_injective (rw revoked at h)) tt
      ]
  change_of-IsWholeChange primary_key_kind opened edit values change h =
      elim (Bool-cases edit.has_key) [
        | inl present ↦ key_change_of-IsWholeChange opened edit change (rw present at h)
        | inr without ↦ subst IsWholeChange (ok_injective (rw without at h)) tt
      ]
  change_of-IsWholeChange foreign_keys_kind opened edit values change h =
      elim (Bool-cases (is_remove edit.op)) [
        | inl removes ↦ subst IsWholeChange (ok_injective (rw removes at h)) tt
        | inr checks ↦ foreign_keys_change_of-IsWholeChange opened edit change (rw checks at h)
      ]

  configuration_of-IsWholeChange :
      (opened : Result Source) (config : PolicyConfig) (values : Values) (change : Change)
      → configuration_of opened config values ≡ ok change
      → IsWholeChange change
  unfolding configuration_of
  configuration_of-IsWholeChange opened config values change h =
      let (source, _, h') = bind-eq-ok opened _ h in
      let (resolved, q, h'') = bind-eq-ok (resolve_policy source config (some values) none) _ h' in
      subst IsWholeChange (ok_injective h'')
        (resolve_policy-AreWhole source (some values) config none resolved q)

  prepare-IsWholeChange :
      (sources : GrantTarget grant_policies → Result Source) (contexts : ℕ → Values)
      (call : Result Source → Values → Result Change) (found : Result (GrantTarget grant_policies))
      (change : Change)
      → ((opened : Result Source) (values : Values)
          → call opened values ≡ ok change
          → IsWholeChange change)
      → prepare sources contexts call found ≡ ok change
      → IsWholeChange change
  unfolding prepare
  prepare-IsWholeChange sources contexts call (err thrown) change whole h = cc
  prepare-IsWholeChange sources contexts call (ok target) change whole h =
      whole (sources target) (contexts target.context) h

  commit_prepared-IsSoundRegistry :
      (later : World) (now : Registry grant_policies) (bridge_id : String) (caller : ℕ)
      (prepared : Result Change)
      → ((change : Change) → prepared ≡ ok change → IsWholeChange change)
      → IsSoundRegistry now
      → IsSoundRegistry (commit_prepared later now bridge_id caller prepared).0
  unfolding commit_prepared
  commit_prepared-IsSoundRegistry later now bridge_id caller (err thrown) whole h = h
  commit_prepared-IsSoundRegistry later now bridge_id caller (ok change) whole h =
      commit_policy-IsSoundRegistry later now bridge_id caller change (whole change refl) h

  module _ (w later : World) (sources : GrantTarget grant_policies → Result Source)
      (contexts : ℕ → Values) (before now : Registry grant_policies) (bridge_id : String)
      (caller : ℕ) where
    pub prepare_edit-IsSoundRegistry :
        (edit : PolicyEdit)
        → IsSoundRegistry now
        → IsSoundRegistry
            (commit_prepared later now bridge_id caller
              (prepare_edit w sources contexts before bridge_id caller edit)).0
    unfolding prepare_edit
    prepare_edit-IsSoundRegistry edit h =
        commit_prepared-IsSoundRegistry later now bridge_id caller _
          (λ change k.
            prepare-IsWholeChange sources contexts _ _ change
              (λ opened values q. change_of-IsWholeChange edit.kind opened edit values change q) k)
          h

    pub prepare_configuration-IsSoundRegistry :
        (config : PolicyConfig)
        → IsSoundRegistry now
        → IsSoundRegistry
            (commit_prepared later now bridge_id caller
              (prepare_configuration w sources contexts before bridge_id caller config)).0
    unfolding prepare_configuration
    prepare_configuration-IsSoundRegistry config h =
        commit_prepared-IsSoundRegistry later now bridge_id caller _
          (λ change k.
            prepare-IsWholeChange sources contexts _ _ change
              (λ opened values q. configuration_of-IsWholeChange opened config values change q) k)
          h
