-- ===== src/Registry/Redeem.antt =====
-- bridge/duckdb_source.cpp: `RedeemBridge`, which turns a pending source into a live bridge.
use duckdb_virtual_catalog.Prelude.{
  ℕ, ◌+◌, String, Bool, true, false, not, ◌&&◌, List, [], ◌∷◌, Option, none, some, ltb, ◌==◌,
  if◌then◌else◌, Result, err, ok, ◌<>◌,
}
use duckdb_virtual_catalog.Registry.{
  Policies, World, PendingSource, LiveBridge, Registry, max_token_failures, matched_settings,
  lookup, put, drop, deny, purge_expired_pending_sources, is_live_bridge, settings_match,
}
use duckdb_virtual_catalog.Registry.Tokens.{constant_time_equals}

unfoldable pub same_bytes : List ℕ → List ℕ → Bool
same_bytes [] [] = true
same_bytes [] (y ∷ ys) = false
same_bytes (x ∷ xs) [] = false
same_bytes (x ∷ xs) (y ∷ ys) = x == y && same_bytes xs ys

unfoldable pub cons_prefix : ℕ → Option (List ℕ) → Option (List ℕ)
cons_prefix b none = none
cons_prefix b (some bytes) = some (b ∷ bytes)

-- What stands before the first colon; `none`: there is no colon.
unfoldable pub before_colon : List ℕ → Option (List ℕ)
unfolding cons_prefix
before_colon [] = none
before_colon (b ∷ bytes) =
    let rest = before_colon bytes in if b == 58 then some [] else cons_prefix b rest

-- The token was made by another copy of the extension.
unfoldable pub is_foreign : Option (List ℕ) → List ℕ → Bool
unfolding same_bytes
is_foreign none nonce = false
is_foreign (some prefix) nonce = not (same_bytes prefix nonce)

-- What a redeemed bridge is made of; `grants` is the number of its grant book.
pub record Redeemed : Type 0 where
  pub source_db : ℕ
  pub source : ℕ
  pub grants : ℕ

module _ (p : Policies) (w : World) where
  unfoldable pub on_wrong_token :
      Registry p → String → PendingSource p → Registry p × Result Redeemed
  unfolding put drop deny
  on_wrong_token reg bridge_id entry =
      let failures = entry.token_failures + 1 in
      let counted = record entry { token_failures = failures } in
      let pending =
        if ltb failures max_token_failures
        then put bridge_id counted reg.pending
        else drop bridge_id (put bridge_id counted reg.pending) in
      (
        record reg { pending = pending },
        deny ("vcatbridge: invalid setup token for bridge '" <> bridge_id <> "'"),
      )

  unfoldable pub install : Registry p → String → ℕ → PendingSource p → Registry p × Result Redeemed
  unfolding put drop
  install reg bridge_id book entry = (
    record {
      pending = drop bridge_id reg.pending;
      live =
          put bridge_id
            (record { source_db = entry.source_db; source = entry.source; grants = book }) reg.live;
      books =
          (
            book,
            record {
              policy = entry.policy;
              context = entry.context;
              policy_finalized = entry.policy_finalized;
              uncommitted_ddl = 0;
            },
          )
          ∷ reg.books;
    },
    ok (record { source_db = entry.source_db; source = entry.source; grants = book }),
  )

  -- The checks behind the one of the policy
  unfoldable pub on_valid :
      Registry p
      → String
      → ℕ
      → ℕ
      → PendingSource p
      → Result (Unit {0})
      → Registry p × Result Redeemed
  unfolding drop deny settings_match install
  on_valid reg bridge_id target_db book entry (err thrown) = (reg, err thrown)
  on_valid reg bridge_id target_db book entry (ok checked) =
      if not (w.is_open entry.source_db)
      then (
        record reg { pending = drop bridge_id reg.pending },
        deny ("vcatbridge: no registered source for bridge '" <> bridge_id <> "'"),
      )
      else elim (settings_match p w entry.source_db target_db bridge_id matched_settings) [
        | err thrown ↦ (reg, err thrown)
        | ok matched ↦ install reg bridge_id book entry
      ]

  unfoldable pub on_found :
      Registry p → String → List ℕ → ℕ → ℕ → Option (PendingSource p) → Registry p × Result Redeemed
  unfolding constant_time_equals on_wrong_token is_live_bridge on_valid deny
  on_found reg bridge_id token target_db book none =
      (reg, deny ("vcatbridge: no registered source for bridge '" <> bridge_id <> "'"))
  on_found reg bridge_id token target_db book (some entry) =
      if not (constant_time_equals entry.token token)
      then on_wrong_token reg bridge_id entry
      else if is_live_bridge p w reg bridge_id
      then (reg, deny ("vcatbridge: bridge '" <> bridge_id <> "' is already attached"))
      else on_valid reg bridge_id target_db book entry (p.validate entry.policy bridge_id true)

  -- `RedeemBridge`. `nonce` is the extension's `LoadNonce`, `book` the number of a new grant book.
  unfoldable pub redeem_bridge :
      Registry p → List ℕ → String → List ℕ → ℕ → ℕ → Registry p × Result Redeemed
  unfolding before_colon is_foreign purge_expired_pending_sources lookup on_found
  redeem_bridge reg nonce bridge_id token target_db book =
      let purged : Registry p = record reg {
        pending = purge_expired_pending_sources p w reg.pending;
      } in
      if is_foreign (before_colon token) nonce
      then (
        reg,
        deny (
            "vcatbridge: source and target loaded different copies of the virtual_catalog extension. "
            <> "Ensure both connections use the same extension installation."),
      )
      else on_found purged bridge_id token target_db book (lookup bridge_id purged.pending)

-- The bridge of a catalog that goes away is forgotten, unless another took its place.
unfoldable pub release_if :
    ℕ → String → Option LiveBridge → List (String × LiveBridge) → List (String × LiveBridge)
unfolding drop
release_if grants bridge_id none live = live
release_if grants bridge_id (some bridge) live =
    if bridge.grants == grants then drop bridge_id live else live

-- `~DuckDBSource`, of a source that was redeemed
unfoldable pub release : {p : Policies} → Registry p → String → ℕ → Registry p
unfolding release_if lookup
release reg bridge_id grants = record reg {
  live = release_if grants bridge_id (lookup bridge_id reg.live) reg.live;
}
