-- ===== src/Registry/Live.antt =====
-- A pending source is redeemed by its token.
use duckdb_virtual_catalog.Prelude.{
  ℕ, ◌<◌, ◌≡◌, refl, String, true, false, List, some, ok, All, arith,
}
use duckdb_virtual_catalog.Registry.{
  Policies, World, PendingSource, Registry, matched_settings, lookup, purge_expired_pending_sources,
  is_kept, is_live_bridge, settings_match,
}
use duckdb_virtual_catalog.Registry.Tokens.{constant_time_equals, constant_time_equals_lem}
use duckdb_virtual_catalog.Registry.Redeem.{
  before_colon, is_foreign, install, on_valid, on_found, redeem_bridge,
}
use duckdb_virtual_catalog.Registry.Once.{lookup-purge-kept}

module _ (p : Policies) (w : World) where
  -- An entry that waits is redeemed by its token: if the token is of this copy of the extension, no live
  -- bridge has the id, the policy is valid and the settings match, the call returns the bridge.
  pub redeem_bridge_live :
      (reg : Registry p) (nonce : List ℕ) (bridge_id : String) (target_db book : ℕ)
      (entry : PendingSource p)
      → All (λ b. b < 256) entry.token
      → lookup bridge_id (purge_expired_pending_sources p w reg.pending) ≡ some entry
      → is_foreign (before_colon entry.token) nonce ≡ false
      → is_live_bridge p w reg bridge_id ≡ false
      → p.validate entry.policy bridge_id true ≡ ok tt
      → settings_match p w entry.source_db target_db bridge_id matched_settings ≡ ok tt
      → (redeem_bridge p w reg nonce bridge_id entry.token target_db book).1
        ≡ ok (record { source_db = entry.source_db; source = entry.source; grants = book })
  unfolding redeem_bridge on_found on_valid install is_live_bridge is_kept
  redeem_bridge_live reg nonce bridge_id target_db book entry bytes waits own free valid settings =
      let kept = lookup-purge-kept p w bridge_id reg.pending entry waits in
      let same : constant_time_equals entry.token entry.token ≡ true =
        (constant_time_equals_lem entry.token entry.token bytes bytes).1 refl in
      let is_open : w.is_open entry.source_db ≡ true = opened entry kept in
      rw (own, waits, same, free, valid, is_open, settings) refl
    where
      opened :
          (entry : PendingSource p) → is_kept p w entry ≡ true → w.is_open entry.source_db ≡ true
      opened entry kept = ground arith
