-- ===== src/Grants/Commit/Sound.antt =====
-- What `CommitPolicy` keeps of the registry.
use duckdb_virtual_catalog.Prelude.{
  ℕ, ◌≡◌, refl, String, Bool, true, false, ◌&&◌, ltb, Result, ok, err, Bool-cases, inl, inr,
}
use duckdb_virtual_catalog.Host.{StringUtil, Crossing}
use duckdb_virtual_catalog.Grants.Tables.{PolicyState, empty_policy}
use duckdb_virtual_catalog.Grants.Tables.Whole.{AreWhole}
use duckdb_virtual_catalog.Grants.Validate.Sound.{AreValidGrants, validate_grant_set-AreValidGrants}
use duckdb_virtual_catalog.Grants.Edits.{Change, touches_tables}
use duckdb_virtual_catalog.Grants.Edits.Wholeness.{IsWholeChange, apply_change-AreWhole}
use duckdb_virtual_catalog.Grants.Commit.{
  validate_policy, grant_policies, commit_pending, commit_checked, commit_edited, commit_live,
  commit_target, commit_policy,
}
use duckdb_virtual_catalog.Registry.{World, PendingSource, GrantBook, Registry}
use duckdb_virtual_catalog.Registry.Invariant.{
  PolicyInvariant, IsGoodEntry, IsGood, put-AllEntries, put_book-IsGoodBook,
}
use duckdb_virtual_catalog.Registry.Invariant.Calls.{
  IsGoodGrants, IsGoodTarget, lookup_open_grants-IsGoodFound,
}
use duckdb_virtual_catalog.Registry.Targets.{Grants, pending, live, GrantTarget}

module _ ⦃u : StringUtil⦄ ⦃c : Crossing⦄ where
  -- A policy in force: its grants are whole, and none is a foreign key oracle.
  abbrev pub IsSoundPolicy : PolicyState → Type 0
  IsSoundPolicy state = AreWhole state.tables × AreValidGrants state.tables state.tables

  pub validate_policy-AreValidGrants :
      (state : PolicyState) (bridge_id : String) (attaching : Bool)
      → validate_policy state bridge_id attaching ≡ ok tt
      → AreValidGrants state.tables state.tables
  unfolding validate_policy
  validate_policy-AreValidGrants state bridge_id attaching h =
      validate_grant_set-AreValidGrants state.tables state.create_schemas bridge_id attaching h

  pub empty_policy-AreWhole : AreWhole empty_policy.tables
  empty_policy-AreWhole = (tt, tt)

  -- Pending policies are whole, those of the bridges are sound.
  abbrev pub sound_policies : PolicyInvariant grant_policies
  sound_policies = record {
    OfPending = λ state. AreWhole state.tables;
    OfLive = IsSoundPolicy;
    fresh = empty_policy-AreWhole;
    attached =
        λ policy bridge_id whole e. (whole, validate_policy-AreValidGrants policy bridge_id true e);
  }

  abbrev pub IsSoundRegistry : Registry grant_policies → Type 0
  IsSoundRegistry reg = IsGood grant_policies sound_policies reg

  commit_pending-IsSoundRegistry :
      (reg : Registry grant_policies) (bridge_id : String) (entry : PendingSource grant_policies)
      (edited : Result PolicyState)
      → IsSoundRegistry reg
      → IsGoodEntry grant_policies sound_policies entry
      → ((state : PolicyState) → edited ≡ ok state → AreWhole state.tables)
      → IsSoundRegistry (commit_pending reg bridge_id entry edited).0
  unfolding commit_pending
  commit_pending-IsSoundRegistry reg bridge_id entry (err thrown) h good whole = h
  commit_pending-IsSoundRegistry reg bridge_id entry (ok state) h good whole = (
    put-AllEntries (IsGoodEntry grant_policies sound_policies) bridge_id _ reg.pending
        (whole state refl, good.1) h.0,
    h.1,
  )

  commit_edited-IsSoundRegistry :
      (world : World) (reg : Registry grant_policies) (bridge_id : String) (number : ℕ)
      (book : GrantBook grant_policies) (edited : Result PolicyState)
      → IsSoundRegistry reg
      → ((state : PolicyState) → edited ≡ ok state → AreWhole state.tables)
      → IsSoundRegistry (commit_edited world reg bridge_id number book edited).0
  unfolding commit_edited commit_checked
  commit_edited-IsSoundRegistry world reg bridge_id number book (err thrown) h whole = h
  commit_edited-IsSoundRegistry world reg bridge_id number book (ok state) h whole =
      checked (validate_policy state bridge_id false) refl
    where
      checked :
          (r : Result (Unit {0}))
          → validate_policy state bridge_id false ≡ r
          → IsSoundRegistry (commit_checked world reg number book state r).0
      checked (err thrown) e = h
      checked (ok valid) e = (
        h.0,
        put_book-IsGoodBook grant_policies sound_policies number _ reg.books
            (whole state refl, validate_policy-AreValidGrants state bridge_id false e) h.1,
      )

  commit_target-IsSoundRegistry :
      (world : World) (reg : Registry grant_policies) (bridge_id : String) (change : Change)
      (found : Result (GrantTarget grant_policies))
      → IsWholeChange change
      → IsSoundRegistry reg
      → IsGoodTarget grant_policies sound_policies found
      → IsSoundRegistry (commit_target world reg bridge_id change found).0
  unfolding commit_target commit_live IsGoodTarget IsGoodGrants
  commit_target-IsSoundRegistry world reg bridge_id change (err thrown) w h good = h
  commit_target-IsSoundRegistry world reg bridge_id change (ok target) w h good =
      on_grants target.grants good
    where
      on_grants :
          (grants : Grants grant_policies)
          → IsGoodGrants grant_policies sound_policies grants
          → IsSoundRegistry
              (commit_target world reg bridge_id change (ok (record target { grants = grants }))).0
      on_grants (pending entry) good =
          commit_pending-IsSoundRegistry reg bridge_id entry _ h good
            (λ state e. apply_change-AreWhole change false bridge_id entry.policy state w good.0 e)
      on_grants (live bridge book) good =
          elim (Bool-cases (touches_tables change && ltb 0 book.uncommitted_ddl)) [
            | inl busy ↦ rw busy h
            | inr quiet ↦ rw quiet (
                commit_edited-IsSoundRegistry world reg bridge_id bridge.grants book _ h (λ state e.
                  apply_change-AreWhole change true bridge_id book.policy state w good.0 e))
          ]

  pub commit_policy-IsSoundRegistry :
      (w : World) (reg : Registry grant_policies) (bridge_id : String) (caller : ℕ)
      (change : Change)
      → IsWholeChange change
      → IsSoundRegistry reg
      → IsSoundRegistry (commit_policy w reg bridge_id caller change).0
  unfolding commit_policy
  commit_policy-IsSoundRegistry w reg bridge_id caller change whole h =
      let found =
        lookup_open_grants-IsGoodFound grant_policies sound_policies w reg bridge_id caller h in
      commit_target-IsSoundRegistry w _ bridge_id change _ whole found.0 found.1
