-- ===== src/Registry/Targets/Sound.antt =====
-- Only the instance that registered a bridge reaches its grants, and only until they are finalized.
use duckdb_virtual_catalog.Prelude.{
  ℕ, ◌≡◌, refl, subst, inl, inr, String, true, false, ◌&&◌, Option, none, some, ◌==◌, Result, err,
  ok, ok_injective, Bool-cases, arith,
}
use duckdb_virtual_catalog.Registry.{
  Policies, World, PendingSource, LiveBridge, GrantBook, Registry, lookup, deny,
  purge_expired_pending_sources,
}
use duckdb_virtual_catalog.Registry.Targets.{
  Grants, pending, live, GrantTarget, lookup_pending_for_grant, on_book, lookup_live, target_of,
  lookup_grant_target, is_finalized, unless_finalized, lookup_open_grants, find_book,
}

module _ (p : Policies) (w : World) where
  -- The grants of a pending entry of the caller, which is open and was just touched, or of a held
  -- bridge of the caller, for whose id nothing is pending
  abbrev pub IsGrantsOf : Registry p → String → ℕ → Grants p → Type 0
  IsGrantsOf reg bridge_id caller (pending touched) =
      (entry : PendingSource p) × (lookup bridge_id (purge_expired_pending_sources p w reg.pending)
        ≡ some entry)
      × (entry.source_db ≡ caller)
      × (w.is_open caller ≡ true)
      × (touched ≡ record entry { last_touched = w.now })
  IsGrantsOf reg bridge_id caller (live bridge book) =
      (lookup bridge_id (purge_expired_pending_sources p w reg.pending) ≡ none)
      × (lookup bridge_id reg.live ≡ some bridge)
      × (w.is_held bridge.grants ≡ true)
      × (bridge.source_db ≡ caller)
      × (find_book p w bridge.grants reg.books ≡ some book)

  abbrev pub IsTargetOf : Registry p → String → ℕ → GrantTarget p → Type 0
  IsTargetOf reg bridge_id caller target =
      (target.source_db ≡ caller) × IsGrantsOf reg bridge_id caller target.grants

  pending_lem :
      (reg purged : Registry p) (bridge_id : String) (caller : ℕ) (entry : PendingSource p)
      (target : GrantTarget p)
      → lookup bridge_id (purge_expired_pending_sources p w reg.pending) ≡ some entry
      → (lookup_pending_for_grant p w purged bridge_id caller entry).1 ≡ ok target
      → IsTargetOf reg bridge_id caller target
  unfolding lookup_pending_for_grant deny
  pending_lem reg purged bridge_id caller entry target e h =
      elim (Bool-cases (w.is_open entry.source_db && entry.source_db == caller)) [
        | inr denied ↦ cc (rw denied at h)
        | inl passed ↦
            let own : entry.source_db ≡ caller = ground arith in
            let is_open : w.is_open entry.source_db ≡ true = ground arith in
            subst (λ q. IsTargetOf reg bridge_id caller q) (ok_injective (rw passed at h))
              (own, (entry, e, own, subst (λ q. w.is_open q ≡ true) own is_open, refl))
      ]

  live_lem :
      (reg : Registry p) (bridge_id : String) (caller : ℕ) (target : GrantTarget p)
      (o : Option LiveBridge)
      → lookup bridge_id (purge_expired_pending_sources p w reg.pending) ≡ none
      → lookup bridge_id reg.live ≡ o
      → lookup_live p w reg bridge_id caller o ≡ ok target
      → IsTargetOf reg bridge_id caller target
  unfolding lookup_live deny
  live_lem reg bridge_id caller target none gone e h = cc
  live_lem reg bridge_id caller target (some bridge) gone e h =
      elim (Bool-cases (w.is_held bridge.grants)) [
        | inr dropped ↦ cc (rw dropped at h)
        | inl held ↦ book (find_book p w bridge.grants reg.books) refl (rw held at h) held
      ]
    where
      book :
          (o : Option (GrantBook p))
          → find_book p w bridge.grants reg.books ≡ o
          → on_book p w bridge_id caller bridge o ≡ ok target
          → w.is_held bridge.grants ≡ true
          → IsTargetOf reg bridge_id caller target
      book none f k held = cc
      book (some b) f k held = elim (Bool-cases (bridge.source_db == caller)) [
        | inr differs ↦ cc (rw differs at k)
        | inl same ↦
            subst (λ q. IsTargetOf reg bridge_id caller q) (ok_injective (rw same at k))
              (refl, (gone, e, held, ground arith, f))
      ]

  -- Where a call finds grants that it may change, they are those of the pending entry, which an open
  -- caller registered itself, or those of a live bridge that is held and that the caller registered,
  -- where nothing is pending; the target names the caller as its owner, and the policies are not
  -- finalized.
  pub lookup_open_grants_sound :
      (reg : Registry p) (bridge_id : String) (caller : ℕ) (target : GrantTarget p)
      → (lookup_open_grants p w reg bridge_id caller).1 ≡ ok target
      → IsTargetOf reg bridge_id caller target × (is_finalized p w target.grants ≡ false)
  unfolding lookup_open_grants lookup_grant_target unless_finalized deny target_of
  lookup_open_grants_sound reg bridge_id caller target h =
      open_result (lookup_grant_target p w reg bridge_id caller).1 refl h
    where
      purged : Registry p
      purged = record reg { pending = purge_expired_pending_sources p w reg.pending }

      found :
          (o : Option (PendingSource p))
          → lookup bridge_id (purge_expired_pending_sources p w reg.pending) ≡ o
          → (target' : GrantTarget p) → (target_of p w purged bridge_id caller o).1 ≡ ok target'
          → IsTargetOf reg bridge_id caller target'
      found none e target' k =
          live_lem reg bridge_id caller target' (lookup bridge_id reg.live) e refl k
      found (some entry) e target' k = pending_lem reg purged bridge_id caller entry target' e k

      open_result :
          (o : Result (GrantTarget p))
          → (lookup_grant_target p w reg bridge_id caller).1 ≡ o
          → unless_finalized p w bridge_id o ≡ ok target
          → IsTargetOf reg bridge_id caller target × (is_finalized p w target.grants ≡ false)
      open_result (err thrown) e k = cc
      open_result (ok target') e k = elim (Bool-cases (is_finalized p w target'.grants)) [
        | inl final ↦ cc (rw final at k)
        | inr not_final ↦
            subst (λ q. IsTargetOf reg bridge_id caller q × (is_finalized p w q.grants ≡ false))
              (ok_injective (rw not_final at k))
              (
                found (lookup bridge_id (purge_expired_pending_sources p w reg.pending)) refl
                    target' e,
                not_final,
              )
      ]
