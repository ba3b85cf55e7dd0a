-- ===== src/Registry/Invariant/Calls.antt =====
-- What holds of every entry of the registry, through the calls of its source connections.
use duckdb_virtual_catalog.Prelude.{
  ℕ, ◌≡◌, refl, subst, inl, inr, String, ◌&&◌, List, [], ◌∷◌, Option, none, some, ◌==◌, Result, err,
  ok, All, arith, Bool-cases, some_injective,
}
use duckdb_virtual_catalog.Registry.{
  Policies, World, PendingSource, LiveBridge, GrantBook, Registry,
}
use duckdb_virtual_catalog.Registry.Invariant.{
  put-AllEntries, lookup-AllEntries, PolicyInvariant, IsGoodEntry, IsGoodBook, IsGood,
  put_book-IsGoodBook, purge-IsGoodEntry,
}
use duckdb_virtual_catalog.Registry.Targets.{
  Grants, pending, live, GrantTarget, find_book, lookup_pending_for_grant, on_book, lookup_live,
  target_of, lookup_grant_target, is_finalized, unless_finalized, lookup_open_grants,
  finalize_grants, finalize_target, finalize_policy,
}

module _ (p : Policies) (i : PolicyInvariant p) where
  -- Grants that a call may change, with the policy that the registry's have
  unfoldable pub IsGoodGrants : Grants p → Type 0
  IsGoodGrants (pending entry) = IsGoodEntry p i entry
  IsGoodGrants (live bridge book) = i.OfLive book.policy

  unfoldable pub IsGoodTarget : Result (GrantTarget p) → Type 0
  unfolding IsGoodGrants
  IsGoodTarget (err thrown) = Unit {0}
  IsGoodTarget (ok target) = IsGoodGrants target.grants

  abbrev pub IsGoodFound : Registry p × Result (GrantTarget p) → Type 0
  IsGoodFound r = IsGood p i r.0 × IsGoodTarget r.1

module _ (p : Policies) (i : PolicyInvariant p) (w : World) where
  find_book-OfLive :
      (k : ℕ) (books : List (ℕ × GrantBook p)) (book : GrantBook p)
      → All (IsGoodBook p i) books
      → find_book p w k books ≡ some book
      → i.OfLive book.policy
  unfolding find_book
  find_book-OfLive k [] book all_h e = ground arith
  find_book-OfLive k ((j, old) ∷ books) book (first, all_h) e = elim (Bool-cases (j == k)) [
    | inl same ↦ subst (λ b. i.OfLive b.policy) (some_injective (rw same at e)) first
    | inr differs ↦ find_book-OfLive k books book all_h (rw differs at e)
  ]

  lookup_pending_for_grant-IsGoodFound :
      (reg : Registry p) (bridge_id : String) (caller : ℕ) (entry : PendingSource p)
      → IsGood p i reg
      → IsGoodEntry p i entry
      → IsGoodFound p i (lookup_pending_for_grant p w reg bridge_id caller entry)
  unfolding lookup_pending_for_grant IsGoodTarget IsGoodGrants
  lookup_pending_for_grant-IsGoodFound reg bridge_id caller entry h good =
      elim (Bool-cases (w.is_open entry.source_db && entry.source_db == caller)) [
        | inl own ↦
            rw own ((put-AllEntries (IsGoodEntry p i) bridge_id _ reg.pending good h.0, h.1), good)
        | inr alien ↦ rw alien (h, tt)
      ]

  on_book-IsGoodTarget :
      (bridge_id : String) (caller : ℕ) (bridge : LiveBridge) (found : Option (GrantBook p))
      → ((book : GrantBook p) → found ≡ some book → i.OfLive book.policy)
      → IsGoodTarget p i (on_book p w bridge_id caller bridge found)
  unfolding on_book IsGoodTarget IsGoodGrants
  on_book-IsGoodTarget bridge_id caller bridge none good = tt
  on_book-IsGoodTarget bridge_id caller bridge (some book) good =
      elim (Bool-cases (bridge.source_db == caller)) [
        | inl own ↦ rw own (good book refl)
        | inr alien ↦ rw alien tt
      ]

  lookup_live-IsGoodTarget :
      (reg : Registry p) (bridge_id : String) (caller : ℕ) (found : Option LiveBridge)
      → IsGood p i reg
      → IsGoodTarget p i (lookup_live p w reg bridge_id caller found)
  unfolding lookup_live IsGoodTarget
  lookup_live-IsGoodTarget reg bridge_id caller none h = tt
  lookup_live-IsGoodTarget reg bridge_id caller (some bridge) h =
      elim (Bool-cases (w.is_held bridge.grants)) [
        | inl held ↦ rw held (
            on_book-IsGoodTarget bridge_id caller bridge _
              (λ book e. find_book-OfLive bridge.grants reg.books book h.1 e))
        | inr gone ↦ rw gone tt
      ]

  target_of-IsGoodFound :
      (reg : Registry p) (bridge_id : String) (caller : ℕ) (found : Option (PendingSource p))
      → IsGood p i reg
      → ((entry : PendingSource p) → found ≡ some entry → IsGoodEntry p i entry)
      → IsGoodFound p i (target_of p w reg bridge_id caller found)
  unfolding target_of
  target_of-IsGoodFound reg bridge_id caller (some entry) h good =
      lookup_pending_for_grant-IsGoodFound reg bridge_id caller entry h (good entry refl)
  target_of-IsGoodFound reg bridge_id caller none h good =
      (h, lookup_live-IsGoodTarget reg bridge_id caller _ h)

  pub lookup_grant_target-IsGoodFound :
      (reg : Registry p) (bridge_id : String) (caller : ℕ)
      → IsGood p i reg
      → IsGoodFound p i (lookup_grant_target p w reg bridge_id caller)
  unfolding lookup_grant_target
  lookup_grant_target-IsGoodFound reg bridge_id caller h =
      let entries = purge-IsGoodEntry p i w reg.pending h.0 in
      target_of-IsGoodFound _ bridge_id caller _ (entries, h.1)
        (λ entry e. lookup-AllEntries (IsGoodEntry p i) bridge_id _ entry entries e)

  unless_finalized-IsGoodTarget :
      (bridge_id : String) (found : Result (GrantTarget p))
      → IsGoodTarget p i found
      → IsGoodTarget p i (unless_finalized p w bridge_id found)
  unfolding unless_finalized IsGoodTarget
  unless_finalized-IsGoodTarget bridge_id (err thrown) h = tt
  unless_finalized-IsGoodTarget bridge_id (ok target) h =
      elim (Bool-cases (is_finalized p w target.grants)) [
        | inl finalized ↦ rw finalized tt
        | inr is_open ↦ rw is_open h
      ]

  pub lookup_open_grants-IsGoodFound :
      (reg : Registry p) (bridge_id : String) (caller : ℕ)
      → IsGood p i reg
      → IsGoodFound p i (lookup_open_grants p w reg bridge_id caller)
  unfolding lookup_open_grants
  lookup_open_grants-IsGoodFound reg bridge_id caller h =
      let found = lookup_grant_target-IsGoodFound reg bridge_id caller h in
      (found.0, unless_finalized-IsGoodTarget bridge_id _ found.1)

  finalize_grants-IsGood :
      (reg : Registry p) (bridge_id : String) (grants : Grants p)
      → IsGood p i reg
      → IsGoodGrants p i grants
      → IsGood p i (finalize_grants p w reg bridge_id grants).0
  unfolding finalize_grants IsGoodGrants
  finalize_grants-IsGood reg bridge_id (pending entry) h good =
      elim (Bool-cases entry.policy_finalized) [
        | inl finalized ↦ rw finalized h
        | inr is_open ↦
            rw is_open (put-AllEntries (IsGoodEntry p i) bridge_id _ reg.pending good h.0, h.1)
      ]
  finalize_grants-IsGood reg bridge_id (live bridge book) h good =
      elim (Bool-cases book.policy_finalized) [
        | inl finalized ↦ rw finalized h
        | inr is_open ↦ rw is_open (h.0, put_book-IsGoodBook p i bridge.grants _ reg.books good h.1)
      ]

  finalize_target-IsGood :
      (reg : Registry p) (bridge_id : String) (found : Result (GrantTarget p))
      → IsGood p i reg
      → IsGoodTarget p i found
      → IsGood p i (finalize_target p w reg bridge_id found).0
  unfolding finalize_target IsGoodTarget
  finalize_target-IsGood reg bridge_id (err thrown) h good = h
  finalize_target-IsGood reg bridge_id (ok target) h good =
      finalize_grants-IsGood reg bridge_id target.grants h good

  pub finalize_policy-IsGood :
      (reg : Registry p) (bridge_id : String) (caller : ℕ)
      → IsGood p i reg
      → IsGood p i (finalize_policy p w reg bridge_id caller).0
  unfolding finalize_policy
  finalize_policy-IsGood reg bridge_id caller h =
      let found = lookup_grant_target-IsGoodFound reg bridge_id caller h in
      finalize_target-IsGood _ bridge_id _ found.0 found.1
