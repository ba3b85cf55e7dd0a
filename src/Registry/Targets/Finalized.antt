-- ===== src/Registry/Targets/Finalized.antt =====
-- Policies stay as they are once they are finalized.
use duckdb_virtual_catalog.Prelude.{
  ℕ, ◌≡◌, refl, inl, inr, String, true, ◌&&◌, List, [], ◌∷◌, Option, none, some, ◌==◌, ◌≟◌, eq_refl,
  ◌⊎◌, ok, Bool-cases, arith,
}
use duckdb_virtual_catalog.Registry.{
  Policies, World, PendingSource, LiveBridge, GrantBook, Registry, lookup, put, deny, is_kept,
  purge_expired_pending_sources,
}
use duckdb_virtual_catalog.Registry.Once.{has_thrown, lookup-purge-none}
use duckdb_virtual_catalog.Registry.Targets.{
  put_book, find_book, lookup_pending_for_grant, on_book, lookup_live, target_of,
  lookup_grant_target, is_finalized, unless_finalized, lookup_open_grants, finalize_grants,
  finalize_target, finalize_policy,
}

module _ (p : Policies) (w : World) where
  find_book-put_book :
      (k : ℕ) (book : GrantBook p) (books : List (ℕ × GrantBook p))
      → find_book p w k (put_book k book books) ≡ some book
  unfolding find_book put_book
  find_book-put_book k book [] = ground arith
  find_book-put_book k book ((j, old) ∷ books) = elim (Bool-cases (j == k)) [
    | inl same ↦ rw same (rw same refl)
    | inr differs ↦ rw differs (rw differs (find_book-put_book k book books))
  ]

  lookup-purge-put :
      (k : String) (entry : PendingSource p) (m : List (String × PendingSource p))
      → is_kept p w entry ≡ true
      → lookup k (purge_expired_pending_sources p w (put k entry m)) ≡ some entry
  unfolding lookup put purge_expired_pending_sources
  lookup-purge-put k entry [] kept = rw kept (rw (eq_refl k) refl)
  lookup-purge-put k entry ((j, old) ∷ m) kept = elim (Bool-cases (j ≟ k)) [
    | inl same ↦ rw same (rw kept (rw same refl))
    | inr differs ↦ rw differs (elim (Bool-cases (is_kept p w old)) [
      | inl stays ↦ rw stays (rw differs (lookup-purge-put k entry m kept))
      | inr goes ↦ rw goes (lookup-purge-put k entry m kept)
    ])
  ]

  -- What a call finds of the bridge is finalized.
  abbrev pub IsFinal : Registry p → String → Type 0
  IsFinal reg bridge_id =
      ((entry : PendingSource p) × (lookup bridge_id (purge_expired_pending_sources p w reg.pending)
          ≡ some entry)
        × (entry.policy_finalized ≡ true))
      ⊎ ((lookup bridge_id (purge_expired_pending_sources p w reg.pending) ≡ none)
          × (bridge : LiveBridge) × (lookup bridge_id reg.live ≡ some bridge)
          × (book : GrantBook p) × (find_book p w bridge.grants reg.books ≡ some book)
          × (book.policy_finalized ≡ true))

  finalize_pending-IsFinal :
      (reg : Registry p) (bridge_id : String) (caller : ℕ) (entry : PendingSource p)
      → (let found = lookup_pending_for_grant p w reg bridge_id caller entry in
          let r = finalize_target p w found.0 bridge_id found.1 in
          r.1 ≡ ok tt → IsFinal r.0 bridge_id)
  unfolding lookup_pending_for_grant finalize_target finalize_grants is_kept deny
  finalize_pending-IsFinal reg bridge_id caller entry =
      elim (Bool-cases (w.is_open entry.source_db && entry.source_db == caller)) [
        | inr alien ↦ rw alien (λ h. ground arith)
        | inl own ↦ rw own (elim (Bool-cases entry.policy_finalized) [
          | inl already ↦ rw already (λ h. ground arith)
          | inr not_yet ↦
              rw not_yet (λ h. inl (_, lookup-purge-put bridge_id _ _ (ground arith), refl))
        ])
      ]

  finalize_live-IsFinal :
      (reg : Registry p) (bridge_id : String) (caller : ℕ) (bridge : LiveBridge)
      (found : Option (GrantBook p))
      → lookup bridge_id (purge_expired_pending_sources p w reg.pending) ≡ none
      → lookup bridge_id reg.live ≡ some bridge
      → (let r = finalize_target p w reg bridge_id (on_book p w bridge_id caller bridge found) in
          r.1 ≡ ok tt → IsFinal r.0 bridge_id)
  unfolding on_book finalize_target finalize_grants deny
  finalize_live-IsFinal reg bridge_id caller bridge none none_pending e = λ h. ground arith
  finalize_live-IsFinal reg bridge_id caller bridge (some book) none_pending e =
      elim (Bool-cases (bridge.source_db == caller)) [
        | inr alien ↦ rw alien (λ h. ground arith)
        | inl own ↦ rw own (elim (Bool-cases book.policy_finalized) [
          | inl already ↦ rw already (λ h. ground arith)
          | inr not_yet ↦ rw not_yet (λ h.
              inr (none_pending, bridge, e, _, find_book-put_book bridge.grants _ reg.books, refl))
        ])
      ]

  finalize_none-IsFinal :
      (reg : Registry p) (bridge_id : String) (caller : ℕ) (found : Option LiveBridge)
      → lookup bridge_id (purge_expired_pending_sources p w reg.pending) ≡ none
      → lookup bridge_id reg.live ≡ found
      → (let r = finalize_target p w reg bridge_id (lookup_live p w reg bridge_id caller found) in
          r.1 ≡ ok tt → IsFinal r.0 bridge_id)
  unfolding lookup_live finalize_target deny
  finalize_none-IsFinal reg bridge_id caller none none_pending e = λ h. ground arith
  finalize_none-IsFinal reg bridge_id caller (some bridge) none_pending e =
      elim (Bool-cases (w.is_held bridge.grants)) [
        | inl held ↦ rw held (finalize_live-IsFinal reg bridge_id caller bridge _ none_pending e)
        | inr gone ↦ rw gone (λ h. ground arith)
      ]

  finalize_policy-IsFinal :
      (reg : Registry p) (bridge_id : String) (caller : ℕ)
      → (finalize_policy p w reg bridge_id caller).1 ≡ ok tt
      → IsFinal (finalize_policy p w reg bridge_id caller).0 bridge_id
  unfolding finalize_policy lookup_grant_target target_of
  finalize_policy-IsFinal reg bridge_id caller =
      go (lookup bridge_id (purge_expired_pending_sources p w reg.pending)) refl
    where
      purged : Registry p
      purged = record reg { pending = purge_expired_pending_sources p w reg.pending }

      go :
          (o : Option (PendingSource p))
          → lookup bridge_id purged.pending ≡ o
          → (let found = target_of p w purged bridge_id caller o in
              let r = finalize_target p w found.0 bridge_id found.1 in
              r.1 ≡ ok tt → IsFinal r.0 bridge_id)
      go (some entry) e = finalize_pending-IsFinal purged bridge_id caller entry
      go none e =
          finalize_none-IsFinal purged bridge_id caller _ (lookup-purge-none p w bridge_id _ e) refl

  lookup_pending_for_grant-IsFinal :
      (reg : Registry p) (bridge_id : String) (caller : ℕ) (entry : PendingSource p)
      → entry.policy_finalized ≡ true
      → has_thrown (
          unless_finalized p w bridge_id
            (lookup_pending_for_grant p w reg bridge_id caller entry).1)
        ≡ true
  unfolding lookup_pending_for_grant unless_finalized is_finalized deny
  lookup_pending_for_grant-IsFinal reg bridge_id caller entry final =
      elim (Bool-cases (w.is_open entry.source_db && entry.source_db == caller)) [
        | inr alien ↦ rw alien refl
        | inl own ↦ rw own (rw final refl)
      ]

  lookup_live-IsFinal :
      (reg : Registry p) (bridge_id : String) (caller : ℕ) (bridge : LiveBridge)
      (book : GrantBook p)
      → find_book p w bridge.grants reg.books ≡ some book
      → book.policy_finalized ≡ true
      → has_thrown
          (unless_finalized p w bridge_id (lookup_live p w reg bridge_id caller (some bridge)))
        ≡ true
  unfolding lookup_live on_book unless_finalized is_finalized deny
  lookup_live-IsFinal reg bridge_id caller bridge book e final =
      elim (Bool-cases (w.is_held bridge.grants)) [
        | inr gone ↦ rw gone refl
        | inl held ↦ rw held (
            rw e (elim (Bool-cases (bridge.source_db == caller)) [
              | inr alien ↦ rw alien refl
              | inl own ↦ rw own (rw final refl)
            ]))
      ]

  -- Grants that are final are not open to a call.
  lookup_open_grants-IsFinal :
      (reg : Registry p) (bridge_id : String) (caller : ℕ)
      → IsFinal reg bridge_id
      → has_thrown (lookup_open_grants p w reg bridge_id caller).1 ≡ true
  unfolding lookup_open_grants lookup_grant_target target_of
  lookup_open_grants-IsFinal reg bridge_id caller (inl (entry, e, final)) =
      rw e (lookup_pending_for_grant-IsFinal _ bridge_id caller entry final)
  lookup_open_grants-IsFinal reg bridge_id caller (inr (e, bridge, e', book, f, final)) = rw e (
      rw e' (
        lookup_live-IsFinal (record reg { pending = purge_expired_pending_sources p w reg.pending })
          bridge_id caller bridge book f final))

  -- Once a call has finalized the policies of a bridge, no connection finds grants of the bridge that it
  -- may change: any lookup right after it throws.
  pub lookup_open_grants-finalize_policy :
      (reg : Registry p) (bridge_id : String) (caller later : ℕ)
      → (finalize_policy p w reg bridge_id caller).1 ≡ ok tt
      → has_thrown
          (lookup_open_grants p w (finalize_policy p w reg bridge_id caller).0 bridge_id later).1
        ≡ true
  lookup_open_grants-finalize_policy reg bridge_id caller later h =
      lookup_open_grants-IsFinal (finalize_policy p w reg bridge_id caller).0 bridge_id later
        (finalize_policy-IsFinal reg bridge_id caller h)
