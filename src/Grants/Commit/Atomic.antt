-- ===== src/Grants/Commit/Atomic.antt =====
-- `CommitPolicy` changes a policy whole or leaves it.
use duckdb_virtual_catalog.Prelude.{
  ℕ, ◌≡◌, refl, sym, ap, subst, ◌⊎◌, String, true, false, ◌&&◌, ltb, Result, Failure, ok, err,
  Bool-cases, inl, inr,
}
use duckdb_virtual_catalog.Host.{StringUtil, Crossing}
use duckdb_virtual_catalog.Grants.Tables.{PolicyState}
use duckdb_virtual_catalog.Grants.Edits.{Change, touches_tables, apply_change}
use duckdb_virtual_catalog.Grants.Commit.{
  validate_policy, grant_policies, commit_pending, commit_checked, commit_edited, commit_live,
  commit_target, commit_policy, refreshed,
}
use duckdb_virtual_catalog.Registry.{World, Registry, put, deny}
use duckdb_virtual_catalog.Registry.Targets.{
  Grants, pending, live, GrantTarget, put_book, lookup_open_grants,
}

module _ ⦃u : StringUtil⦄ ⦃c : Crossing⦄ where
  -- What a committed change returns: on a live bridge, what the refresh of its target returns.
  abbrev pub outcome_of : World → Grants grant_policies → Result (Unit {0})
  outcome_of w (pending entry) = ok tt
  outcome_of w (live bridge book) = refreshed (w.refresh bridge.grants)

  -- The registry after a change of grants that were found: a new policy, which the change makes of the
  -- old one, is all that differs; on a live bridge it has passed the checks, and no uncommitted DDL of a
  -- target is in the way of it.
  abbrev pub IsCommitted :
      Registry grant_policies
      → Registry grant_policies
      → String
      → Change
      → Grants grant_policies
      → Type 0
  IsCommitted reg after bridge_id change (pending entry) =
      (state : PolicyState) × (apply_change change false bridge_id entry.policy ≡ ok state)
      × (after
          ≡ record reg { pending = put bridge_id (record entry { policy = state }) reg.pending })
  IsCommitted reg after bridge_id change (live bridge book) =
      (state : PolicyState) × (apply_change change true bridge_id book.policy ≡ ok state)
      × (validate_policy state bridge_id false ≡ ok tt)
      × (touches_tables change && ltb 0 book.uncommitted_ddl ≡ false)
      × (after ≡ record reg {
        books = put_book bridge.grants (record book { policy = state }) reg.books;
      })

  -- Either the call throws and the registry stays, or it is committed. A commit returns unless the
  -- refresh throws.
  abbrev pub IsAtomic :
      World
      → Registry grant_policies
      → String
      → Change
      → Result (GrantTarget grant_policies)
      → Registry grant_policies × Result (Unit {0})
      → Type 0
  IsAtomic w reg bridge_id change found r =
      ((thrown : Failure) × (r.1 ≡ err thrown) × (r.0 ≡ reg))
      ⊎ ((target : GrantTarget grant_policies) × (found ≡ ok target)
          × (r.1 ≡ outcome_of w target.grants)
          × IsCommitted reg r.0 bridge_id change target.grants)

  on_grants :
      (w : World) (reg : Registry grant_policies) (bridge_id : String) (change : Change)
      (target : GrantTarget grant_policies) (grants : Grants grant_policies)
      → target.grants ≡ grants
      → IsAtomic w reg bridge_id change
          (ok target)
          (commit_target w reg bridge_id change (ok (record target { grants = grants })))
  unfolding commit_target commit_pending commit_live commit_edited commit_checked deny
  on_grants w reg bridge_id change target (pending entry) e =
      edited (apply_change change false bridge_id entry.policy) refl
    where
      edited :
          (r : Result PolicyState)
          → apply_change change false bridge_id entry.policy ≡ r
          → IsAtomic w reg bridge_id change (ok target) (commit_pending reg bridge_id entry r)
      edited (err thrown) k = inl (thrown, refl, refl)
      edited (ok state) k = inr (
        target,
        refl,
        ap (outcome_of w) (sym e),
        subst (IsCommitted reg _ bridge_id change) (sym e) (state, k, refl),
      )
  on_grants w reg bridge_id change target (live bridge book) e =
      elim (Bool-cases (touches_tables change && ltb 0 book.uncommitted_ddl)) [
        | inl busy ↦ rw busy (inl (_, refl, refl))
        | inr quiet ↦ rw quiet (edited quiet (apply_change change true bridge_id book.policy) refl)
      ]
    where
      checked :
          (state : PolicyState)
          → touches_tables change && ltb 0 book.uncommitted_ddl ≡ false
          → apply_change change true bridge_id book.policy ≡ ok state
          → (r : Result (Unit {0})) → validate_policy state bridge_id false ≡ r
          → IsAtomic w reg bridge_id change
              (ok target)
              (commit_checked w reg bridge.grants book state r)
      checked state quiet k (err thrown) v = inl (thrown, refl, refl)
      checked state quiet k (ok valid) v = inr (
        target,
        refl,
        ap (outcome_of w) (sym e),
        subst (IsCommitted reg _ bridge_id change) (sym e) (state, k, v, quiet, refl),
      )

      edited :
          touches_tables change && ltb 0 book.uncommitted_ddl ≡ false
          → (r : Result PolicyState) → apply_change change true bridge_id book.policy ≡ r
          → IsAtomic w reg bridge_id change
              (ok target)
              (commit_edited w reg bridge_id bridge.grants book r)
      edited quiet (err thrown) k = inl (thrown, refl, refl)
      edited quiet (ok state) k = checked state quiet k (validate_policy state bridge_id false) refl

  -- A change of a policy throws, and then the registry is what the lookup left, or it finds grants that
  -- are open to the call, and then the registry differs in the one policy that the change makes of the
  -- old one; of a live bridge, that policy has passed the checks and no target has uncommitted DDL if
  -- the change touches tables, and the call then returns, or throws, what the refresh of the target
  -- does, with the policy installed all the same.
  pub commit_policy-IsAtomic :
      (w : World) (reg : Registry grant_policies) (bridge_id : String) (caller : ℕ)
      (change : Change)
      → IsAtomic w
          (lookup_open_grants grant_policies w reg bridge_id caller).0
          bridge_id
          change
          (lookup_open_grants grant_policies w reg bridge_id caller).1
          (commit_policy w reg bridge_id caller change)
  unfolding commit_policy
  commit_policy-IsAtomic w reg bridge_id caller change =
      found _ (lookup_open_grants grant_policies w reg bridge_id caller).1
    where
      found :
          (left : Registry grant_policies) (r : Result (GrantTarget grant_policies))
          → IsAtomic w left bridge_id change r (commit_target w left bridge_id change r)
      found left (err thrown) = inl (thrown, refl, refl)
      found left (ok target) = on_grants w left bridge_id change target target.grants refl
