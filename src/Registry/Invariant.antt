-- ===== src/Registry/Invariant.antt =====
-- What holds of every entry of the registry, kept by registration, redeeming, lookups and finalizing.
pub mod Calls
use duckdb_virtual_catalog.Prelude.{
  ℕ, ◌+◌, ◌<◌, ◌≡◌, refl, sym, ap, ◌∙◌, subst, inl, inr, String, Bool, true, false, not, ◌&&◌, List,
  [], ◌∷◌, Option, none, some, ◌==◌, ◌≟◌, eq_refl, if◌then◌else◌, ltb, is_empty, Result, err, ok,
  All, arith, Bool-cases, some_injective,
}
use duckdb_virtual_catalog.Registry.{
  Policies, World, PendingSource, LiveBridge, GrantBook, Registry, matched_settings, lookup, put,
  drop, purge_expired_pending_sources, is_kept, is_live_bridge, settings_match, add_unless,
  add_pending, register_pinned, register_source, chosen_token,
}
use duckdb_virtual_catalog.Registry.Tokens.{constant_time_equals}
use duckdb_virtual_catalog.Registry.Redeem.{
  Redeemed, before_colon, is_foreign, on_wrong_token, install, on_valid, on_found, redeem_bridge,
}
use duckdb_virtual_catalog.Registry.Targets.{
  Grants, pending, live, GrantTarget, find_book, put_book, lookup_pending_for_grant, target_of,
  lookup_grant_target, lookup_open_grants, finalize_grants, finalize_target, finalize_policy,
}

module _ {V : Type 0} (P : V → Type 0) where
  abbrev pub AllEntries : List (String × V) → Type 0
  AllEntries m = All (λ e. P e.1) m

  pub put-AllEntries :
      (k : String) (v : V) (m : List (String × V)) → P v → AllEntries m → AllEntries (put k v m)
  unfolding put
  put-AllEntries k v [] h all_h = (h, tt)
  put-AllEntries k v ((j, old) ∷ m) h (first, all_h) = elim (Bool-cases (j ≟ k)) [
    | inl same ↦ rw same (h, all_h)
    | inr differs ↦ rw differs (first, put-AllEntries k v m h all_h)
  ]

  pub drop-AllEntries : (k : String) (m : List (String × V)) → AllEntries m → AllEntries (drop k m)
  unfolding drop
  drop-AllEntries k [] all_h = tt
  drop-AllEntries k ((j, old) ∷ m) (first, all_h) = elim (Bool-cases (j ≟ k)) [
    | inl same ↦ rw same (drop-AllEntries k m all_h)
    | inr differs ↦ rw differs (first, drop-AllEntries k m all_h)
  ]

  -- What is put under a key goes when the key is dropped.
  pub drop-put-AllEntries :
      (k : String) (v : V) (m : List (String × V)) → AllEntries m → AllEntries (drop k (put k v m))
  unfolding put drop
  drop-put-AllEntries k v [] all_h = rw (eq_refl k) tt
  drop-put-AllEntries k v ((j, old) ∷ m) (first, all_h) = elim (Bool-cases (j ≟ k)) [
    | inl same ↦ rw same (rw same (drop-AllEntries k m all_h))
    | inr differs ↦ rw differs (rw differs (first, drop-put-AllEntries k v m all_h))
  ]

  pub lookup-AllEntries :
      (k : String) (m : List (String × V)) (v : V) → AllEntries m → lookup k m ≡ some v → P v
  unfolding lookup
  lookup-AllEntries k [] v all_h e = ground arith
  lookup-AllEntries k ((j, old) ∷ m) v (first, all_h) e = elim (Bool-cases (j ≟ k)) [
    | inl same ↦ subst P (some_injective (rw same at e)) first
    | inr differs ↦ lookup-AllEntries k m v all_h (rw differs at e)
  ]

-- A property of policies that a new one has, and one of the policies that a bridge is attached with
pub record PolicyInvariant (p : Policies) : Type 1 where
  pub OfPending : p.Policy → Type 0
  pub OfLive : p.Policy → Type 0
  pub fresh : OfPending p.no_policy
  pub attached :
      (policy : p.Policy) (bridge_id : String)
      → OfPending policy
      → p.validate policy bridge_id true ≡ ok tt
      → OfLive policy

module _ (p : Policies) (i : PolicyInvariant p) where
  -- An entry's policy has the property, and the wrong tokens are fewer than the most.
  abbrev pub IsGoodEntry : PendingSource p → Type 0
  IsGoodEntry entry = i.OfPending entry.policy × (entry.token_failures < 5)

  abbrev pub IsGoodBook : ℕ × GrantBook p → Type 0
  IsGoodBook e = i.OfLive e.1.policy

  abbrev pub IsGood : Registry p → Type 0
  IsGood reg = AllEntries IsGoodEntry reg.pending × All IsGoodBook reg.books

  pub put_book-IsGoodBook :
      (k : ℕ) (book : GrantBook p) (books : List (ℕ × GrantBook p))
      → i.OfLive book.policy
      → All IsGoodBook books
      → All IsGoodBook (put_book k book books)
  unfolding put_book
  put_book-IsGoodBook k book [] h all_h = (h, tt)
  put_book-IsGoodBook k book ((j, old) ∷ books) h (first, all_h) = elim (Bool-cases (j == k)) [
    | inl same ↦ rw same (h, all_h)
    | inr differs ↦ rw differs (first, put_book-IsGoodBook k book books h all_h)
  ]

module _ (p : Policies) (i : PolicyInvariant p) (w : World) where
  pub purge-IsGoodEntry :
      (m : List (String × PendingSource p))
      → AllEntries (IsGoodEntry p i) m
      → AllEntries (IsGoodEntry p i) (purge_expired_pending_sources p w m)
  unfolding purge_expired_pending_sources
  purge-IsGoodEntry [] all_h = tt
  purge-IsGoodEntry ((id, entry) ∷ m) (h, all_h) = elim (Bool-cases (is_kept p w entry)) [
    | inl kept ↦ rw kept (h, purge-IsGoodEntry m all_h)
    | inr gone ↦ rw gone (purge-IsGoodEntry m all_h)
  ]

  add_unless-IsGood :
      (reg : Registry p) (bridge_id : String) (entry : PendingSource p)
      (found : Option (PendingSource p))
      → IsGood p i reg
      → IsGoodEntry p i entry
      → IsGood p i (add_unless p w reg bridge_id entry found).0
  unfolding add_unless
  add_unless-IsGood reg bridge_id entry (some present) h good = h
  add_unless-IsGood reg bridge_id entry none (entries, books) good =
      elim (Bool-cases (is_live_bridge p w reg bridge_id)) [
        | inl is_live ↦ rw is_live (entries, books)
        | inr is_free ↦
            rw is_free
              (put-AllEntries (IsGoodEntry p i) bridge_id entry reg.pending good entries, books)
      ]

  pub register_source-IsGood :
      (reg : Registry p) (bridge_id : String) (pinned : Result ℕ) (source_db : ℕ)
      (chosen : Option (List ℕ)) (generated : List ℕ) (context : ℕ)
      → IsGood p i reg
      → IsGood p i (register_source p w reg bridge_id pinned source_db chosen generated context).0
  unfolding register_source register_pinned add_pending
  register_source-IsGood reg bridge_id pinned source_db chosen generated context h =
      elim (Bool-cases (is_empty bridge_id)) [
        | inl unnamed ↦ rw unnamed h
        | inr named ↦ rw named (on_pinned pinned (chosen_token chosen generated))
      ]
    where
      on_pinned :
          (source : Result ℕ) (token : Result (List ℕ))
          → IsGood p i (register_pinned p w reg bridge_id source source_db context token).0
      on_pinned (err thrown) token = h
      on_pinned (ok source) (err thrown) = h
      on_pinned (ok source) (ok token) =
          add_unless-IsGood _ bridge_id _ _ (purge-IsGoodEntry reg.pending h.0, h.1)
            (i.fresh, omega arith)

  on_wrong_token-IsGood :
      (reg : Registry p) (bridge_id : String) (entry : PendingSource p)
      → IsGood p i reg
      → IsGoodEntry p i entry
      → IsGood p i (on_wrong_token p w reg bridge_id entry).0
  unfolding on_wrong_token
  on_wrong_token-IsGood reg bridge_id entry (entries, books) (policy, few) =
      elim (Bool-cases (ltb (entry.token_failures + 1) 5)) [
        | inl below ↦ rw below (
          put-AllEntries (IsGoodEntry p i) bridge_id _ reg.pending (policy, ground arith) entries,
          books,
        )
        | inr last ↦
            rw last (drop-put-AllEntries (IsGoodEntry p i) bridge_id _ reg.pending entries, books)
      ]

  install-IsGood :
      (reg : Registry p) (bridge_id : String) (book : ℕ) (entry : PendingSource p)
      → IsGood p i reg
      → i.OfLive entry.policy
      → IsGood p i (install p w reg bridge_id book entry).0
  unfolding install
  install-IsGood reg bridge_id book entry (entries, books) valid =
      (drop-AllEntries (IsGoodEntry p i) bridge_id reg.pending entries, (valid, books))

  on_valid-IsGood :
      (reg : Registry p) (bridge_id : String) (target_db book : ℕ) (entry : PendingSource p)
      (checked : Result (Unit {0}))
      → p.validate entry.policy bridge_id true ≡ checked
      → IsGood p i reg
      → IsGoodEntry p i entry
      → IsGood p i (on_valid p w reg bridge_id target_db book entry checked).0
  unfolding on_valid
  on_valid-IsGood reg bridge_id target_db book entry (err thrown) e h good = h
  on_valid-IsGood reg bridge_id target_db book entry (ok valid) e h good =
      elim (Bool-cases (w.is_open entry.source_db)) [
        | inl is_open ↦
            rw is_open
              (matched (settings_match p w entry.source_db target_db bridge_id matched_settings))
        | inr closed ↦ rw closed (drop-AllEntries (IsGoodEntry p i) bridge_id reg.pending h.0, h.1)
      ]
    where
      matched :
          (r : Result (Unit {0}))
          → IsGood p i
              (elim r as (λ _. Registry p × Result Redeemed) [
                | err thrown ↦ (reg, err thrown)
                | ok same ↦ install p w reg bridge_id book entry
              ]).0
      matched (err thrown) = h
      matched (ok same) =
          install-IsGood reg bridge_id book entry h (i.attached entry.policy bridge_id good.0 e)

  on_found-IsGood :
      (reg : Registry p) (bridge_id : String) (token : List ℕ) (target_db book : ℕ)
      (found : Option (PendingSource p))
      → IsGood p i reg
      → ((entry : PendingSource p) → found ≡ some entry → IsGoodEntry p i entry)
      → IsGood p i (on_found p w reg bridge_id token target_db book found).0
  unfolding on_found
  on_found-IsGood reg bridge_id token target_db book none h good = h
  on_found-IsGood reg bridge_id token target_db book (some entry) h good =
      elim (Bool-cases (constant_time_equals entry.token token)) [
        | inl right ↦ rw right (elim (Bool-cases (is_live_bridge p w reg bridge_id)) [
          | inl is_live ↦ rw is_live h
          | inr is_free ↦
              rw is_free
                (on_valid-IsGood reg bridge_id target_db book entry _ refl h (good entry refl))
        ])
        | inr wrong ↦ rw wrong (on_wrong_token-IsGood reg bridge_id entry h (good entry refl))
      ]

  pub redeem_bridge-IsGood :
      (reg : Registry p) (nonce : List ℕ) (bridge_id : String) (token : List ℕ) (target_db book : ℕ)
      → IsGood p i reg
      → IsGood p i (redeem_bridge p w reg nonce bridge_id token target_db book).0
  unfolding redeem_bridge
  redeem_bridge-IsGood reg nonce bridge_id token target_db book h =
      let entries = purge-IsGoodEntry reg.pending h.0 in
      elim (Bool-cases (is_foreign (before_colon token) nonce)) [
        | inl foreign ↦ rw foreign h
        | inr own ↦ rw own (
            on_found-IsGood _ bridge_id token target_db book _ (entries, h.1)
              (λ entry e. lookup-AllEntries (IsGoodEntry p i) bridge_id _ entry entries e))
      ]
