-- ===== src/Registry/Once.antt =====
-- A bridge is redeemed with its own token, and in time.
use duckdb_virtual_catalog.Prelude.{
  ℕ, ◌≡◌, refl, ap, subst, inl, inr, String, Bool, true, false, List, [], ◌∷◌, Option, none, some,
  Result, err, ok, ok_injective, some_injective, Bool-cases, ◌≟◌, eq_refl,
}
use duckdb_virtual_catalog.Registry.{
  Policies, World, PendingSource, GrantBook, Registry, matched_settings, lookup, put, drop, deny,
  purge_expired_pending_sources, is_kept, is_live_bridge, settings_match,
}
use duckdb_virtual_catalog.Registry.Tokens.{constant_time_equals}
use duckdb_virtual_catalog.Registry.Redeem.{
  Redeemed, before_colon, is_foreign, on_wrong_token, install, on_valid, on_found, redeem_bridge,
}

abbrev pub has_thrown {ℓ} : {A : Type ℓ} → Result A → Bool
has_thrown (err thrown) = true
has_thrown (ok a) = false

module _ {V : Type 0} where
  pub lookup-drop : (k : String) (m : List (String × V)) → lookup k (drop k m) ≡ none
  unfolding lookup drop
  lookup-drop k [] = refl
  lookup-drop k ((j, v) ∷ m) = elim (Bool-cases (j ≟ k)) [
    | inl same ↦ rw same (lookup-drop k m)
    | inr differs ↦ rw differs (rw differs (lookup-drop k m))
  ]

  pub lookup-put : (k : String) (v : V) (m : List (String × V)) → lookup k (put k v m) ≡ some v
  unfolding lookup put
  lookup-put k v [] = rw (eq_refl k) refl
  lookup-put k v ((j, w) ∷ m) = elim (Bool-cases (j ≟ k)) [
    | inl same ↦ rw same (rw same refl)
    | inr differs ↦ rw differs (rw differs (lookup-put k v m))
  ]

module _ (p : Policies) (w : World) where
  -- What is found behind a purge was kept.
  pub lookup-purge-kept :
      (k : String) (m : List (String × PendingSource p)) (entry : PendingSource p)
      → lookup k (purge_expired_pending_sources p w m) ≡ some entry
      → is_kept p w entry ≡ true
  unfolding lookup purge_expired_pending_sources
  lookup-purge-kept k [] entry h = cc
  lookup-purge-kept k ((j, e) ∷ m) entry h = elim (Bool-cases (is_kept p w e)) [
    | inr gone ↦ lookup-purge-kept k m entry (rw gone at h)
    | inl kept ↦ elim (Bool-cases (j ≟ k)) [
      | inl same ↦ subst (λ q. is_kept p w q ≡ true) (some_injective (rw (kept, same) at h)) kept
      | inr differs ↦ lookup-purge-kept k m entry (rw (kept, differs) at h)
    ]
  ]

  pub lookup-purge-none :
      (k : String) (m : List (String × PendingSource p))
      → lookup k m ≡ none
      → lookup k (purge_expired_pending_sources p w m) ≡ none
  unfolding lookup purge_expired_pending_sources
  lookup-purge-none k [] h = refl
  lookup-purge-none k ((j, e) ∷ m) h = elim (Bool-cases (j ≟ k)) [
    | inl same ↦ cc (rw same at h)
    | inr differs ↦ elim (Bool-cases (is_kept p w e)) [
      | inr gone ↦ rw gone (lookup-purge-none k m (rw differs at h))
      | inl kept ↦ rw kept (rw differs (lookup-purge-none k m (rw differs at h)))
    ]
  ]

  -- The bridge is live with the policy of the entry, and the entry is gone.
  abbrev pub IsInstalled : Registry p → String → PendingSource p → Redeemed → Type 0
  IsInstalled reg bridge_id entry r =
      (lookup bridge_id reg.pending ≡ none)
      × (lookup bridge_id reg.live
          ≡ some (record { source_db = entry.source_db; source = entry.source; grants = r.grants }))
      × (rest : List (ℕ × GrantBook p)) × (reg.books
          ≡ (
            r.grants,
            record {
              policy = entry.policy;
              context = entry.context;
              policy_finalized = entry.policy_finalized;
              uncommitted_ddl = 0;
            },
          )
            ∷ rest)

  -- The conditions under which an entry is redeemed, and what is installed
  abbrev pub IsRedeemed : Registry p → String → List ℕ → ℕ → Registry p → Redeemed → Type 0
  IsRedeemed reg bridge_id token target_db reg' r =
      (entry : PendingSource p) × (lookup bridge_id (purge_expired_pending_sources p w reg.pending)
        ≡ some entry)
      × (is_kept p w entry ≡ true)
      × (constant_time_equals entry.token token ≡ true)
      × (is_live_bridge p w reg bridge_id ≡ false)
      × (p.validate entry.policy bridge_id true ≡ ok tt)
      × (settings_match p w entry.source_db target_db bridge_id matched_settings ≡ ok tt)
      × IsInstalled reg' bridge_id entry r

  -- What `on_valid` gives if it returns a bridge
  abbrev IsPassed : Registry p → String → ℕ → PendingSource p → Registry p → Redeemed → Type 0
  IsPassed reg bridge_id target_db entry reg' r =
      (settings_match p w entry.source_db target_db bridge_id matched_settings ≡ ok tt)
      × IsInstalled reg' bridge_id entry r

  install_lem :
      (reg : Registry p) (bridge_id : String) (book : ℕ) (entry : PendingSource p)
      (reg' : Registry p) (r : Redeemed)
      → install p w reg bridge_id book entry ≡ (reg', ok r)
      → IsInstalled reg' bridge_id entry r
  unfolding install
  install_lem reg bridge_id book entry reg' r h =
      subst (λ q. IsInstalled q bridge_id entry r) (ap (λ q. q.0) h)
        (subst (λ q. IsInstalled (install p w reg bridge_id book entry).0 bridge_id entry q)
          (ok_injective (ap (λ q. q.1) h))
          (lookup-drop bridge_id reg.pending, lookup-put bridge_id _ reg.live, reg.books, refl))

  on_valid_lem :
      (reg : Registry p) (bridge_id : String) (target_db book : ℕ) (entry : PendingSource p)
      (checked : Result (Unit {0})) (reg' : Registry p) (r : Redeemed)
      → on_valid p w reg bridge_id target_db book entry checked ≡ (reg', ok r)
      → (checked ≡ ok tt) × IsPassed reg bridge_id target_db entry reg' r
  unfolding on_valid deny
  on_valid_lem reg bridge_id target_db book entry (err thrown) reg' r h = cc
  on_valid_lem reg bridge_id target_db book entry (ok tt) reg' r h =
      elim (Bool-cases (w.is_open entry.source_db)) [
        | inr closed ↦ cc (rw closed at h)
        | inl open_db ↦ (
          refl,
          matched (settings_match p w entry.source_db target_db bridge_id matched_settings) refl
              (rw open_db at h),
        )
      ]
    where
      matched :
          (o : Result (Unit {0}))
          → settings_match p w entry.source_db target_db bridge_id matched_settings ≡ o
          → elim o as (λ _. Registry p × Result Redeemed) [
            | err thrown ↦ (reg, err thrown)
            | ok matched ↦ install p w reg bridge_id book entry
          ]
            ≡ (reg', ok r)
          → IsPassed reg bridge_id target_db entry reg' r
      matched (err thrown) e k = cc
      matched (ok tt) e k = (e, install_lem reg bridge_id book entry reg' r k)

  -- Where a bridge is redeemed, its entry was neither expired nor closed, the token is the entry's, no
  -- live bridge has the id, the policy is valid and the settings match; then the entry is gone and
  -- the bridge is live with the entry's policy.
  pub redeem_bridge_sound :
      (reg : Registry p) (nonce : List ℕ) (bridge_id : String) (token : List ℕ) (target_db book : ℕ)
      (reg' : Registry p) (r : Redeemed)
      → redeem_bridge p w reg nonce bridge_id token target_db book ≡ (reg', ok r)
      → IsRedeemed reg bridge_id token target_db reg' r
  unfolding redeem_bridge on_found on_wrong_token deny is_live_bridge
  redeem_bridge_sound reg nonce bridge_id token target_db book reg' r h =
      elim (Bool-cases (is_foreign (before_colon token) nonce)) [
        | inl foreign ↦ cc (rw foreign at h)
        | inr own ↦
            found (lookup bridge_id (purge_expired_pending_sources p w reg.pending)) refl
              (rw own at h)
      ]
    where
      purged : Registry p
      purged = record reg { pending = purge_expired_pending_sources p w reg.pending }

      found :
          (o : Option (PendingSource p))
          → lookup bridge_id (purge_expired_pending_sources p w reg.pending) ≡ o
          → on_found p w purged bridge_id token target_db book o ≡ (reg', ok r)
          → IsRedeemed reg bridge_id token target_db reg' r
      found none e k = cc
      found (some entry) e k = elim (Bool-cases (constant_time_equals entry.token token)) [
        | inr wrong ↦ cc (rw wrong at k)
        | inl right ↦ elim (Bool-cases (is_live_bridge p w reg bridge_id)) [
          | inl live ↦ cc (rw (right, live) at k)
          | inr not_live ↦
              let (valid, (settings, installed)) =
                on_valid_lem purged bridge_id target_db book entry
                  (p.validate entry.policy bridge_id true) reg' r (rw (right, not_live) at k) in
              (
                entry,
                e,
                lookup-purge-kept bridge_id reg.pending entry e,
                right,
                not_live,
                valid,
                settings,
                installed,
              )
        ]
      ]
