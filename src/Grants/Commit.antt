-- ===== src/Grants/Commit.antt =====
-- bridge/duckdb_source.cpp: `CommitPolicy`, which changes the policy of a bridge.
pub mod Sound
pub mod Atomic
use duckdb_virtual_catalog.Prelude.{
  ℕ, String, Bool, true, false, not, ◌&&◌, List, [], ◌∷◌, Option, none, some, ltb, ◌==◌, ◌<>◌,
  if◌then◌else◌, Result, ok, err,
}
use duckdb_virtual_catalog.Host.{StringUtil, Crossing}
use duckdb_virtual_catalog.Grants.Tables.{PolicyState, empty_policy}
use duckdb_virtual_catalog.Grants.Validate.{validate_grant_set}
use duckdb_virtual_catalog.Grants.Edits.{Change, touches_tables, apply_change}
use duckdb_virtual_catalog.Registry.{
  Policies, World, PendingSource, LiveBridge, GrantBook, Registry, put, deny,
}
use duckdb_virtual_catalog.Registry.Targets.{
  Grants, pending, live, GrantTarget, put_book, lookup_open_grants,
}

module _ ⦃u : StringUtil⦄ ⦃c : Crossing⦄ where
  unfoldable pub validate_policy : PolicyState → String → Bool → Result (Unit {0})
  unfolding validate_grant_set
  validate_policy state bridge_id attaching =
      validate_grant_set state.tables state.create_schemas bridge_id attaching

  -- The policies of the registry
  abbrev pub grant_policies : Policies
  grant_policies = record {
    Policy = PolicyState;
    no_policy = empty_policy;
    validate = validate_policy;
  }

module _ ⦃u : StringUtil⦄ ⦃c : Crossing⦄ where
  -- Before ATTACH
  unfoldable pub commit_pending :
      Registry grant_policies
      → String
      → PendingSource grant_policies
      → Result PolicyState
      → Registry grant_policies × Result (Unit {0})
  unfolding put
  commit_pending reg bridge_id entry (err thrown) = (reg, err thrown)
  commit_pending reg bridge_id entry (ok state) =
      (record reg { pending = put bridge_id (record entry { policy = state }) reg.pending }, ok tt)

  -- A grant book without a target has nothing to refresh.
  unfoldable pub refreshed : Option (Result (Unit {0})) → Result (Unit {0})
  refreshed none = ok tt
  refreshed (some result) = result

  -- The checked policy is installed, and then the target is refreshed, which may throw.
  unfoldable pub commit_checked :
      World
      → Registry grant_policies
      → ℕ
      → GrantBook grant_policies
      → PolicyState
      → Result (Unit {0})
      → Registry grant_policies × Result (Unit {0})
  unfolding put_book refreshed
  commit_checked w reg number book state (err thrown) = (reg, err thrown)
  commit_checked w reg number book state (ok checked) = (
    record reg { books = put_book number (record book { policy = state }) reg.books },
    refreshed (w.refresh number),
  )

  unfoldable pub commit_edited :
      World
      → Registry grant_policies
      → String
      → ℕ
      → GrantBook grant_policies
      → Result PolicyState
      → Registry grant_policies × Result (Unit {0})
  unfolding commit_checked validate_policy
  commit_edited w reg bridge_id number book (err thrown) = (reg, err thrown)
  commit_edited w reg bridge_id number book (ok state) =
      commit_checked w reg number book state (validate_policy state bridge_id false)

  -- After ATTACH
  unfoldable pub commit_live :
      World
      → Registry grant_policies
      → String
      → ℕ
      → GrantBook grant_policies
      → Change
      → Registry grant_policies × Result (Unit {0})
  unfolding commit_edited touches_tables apply_change deny
  commit_live w reg bridge_id number book change =
      if touches_tables change && ltb 0 book.uncommitted_ddl
      then (
        reg,
        deny (
            "vcatbridge: a target transaction has uncommitted DDL on bridge '" <> bridge_id
            <> "'; change the policy after it ends"),
      )
      else commit_edited w reg bridge_id number book
          (apply_change change true bridge_id book.policy)

  unfoldable pub commit_target :
      World
      → Registry grant_policies
      → String
      → Change
      → Result (GrantTarget grant_policies)
      → Registry grant_policies × Result (Unit {0})
  unfolding apply_change commit_pending commit_live
  commit_target w reg bridge_id change (err thrown) = (reg, err thrown)
  commit_target w reg bridge_id change (ok target) = elim target.grants [
    | pending entry ↦
        commit_pending reg bridge_id entry (apply_change change false bridge_id entry.policy)
    | live bridge book ↦ commit_live w reg bridge_id bridge.grants book change
  ]

  -- `CommitPolicy`
  unfoldable pub commit_policy :
      World
      → Registry grant_policies
      → String
      → ℕ
      → Change
      → Registry grant_policies × Result (Unit {0})
  unfolding lookup_open_grants commit_target
  commit_policy w reg bridge_id caller change =
      let found = lookup_open_grants grant_policies w reg bridge_id caller in
      commit_target w found.0 bridge_id change found.1
