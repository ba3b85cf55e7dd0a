-- ===== src/Registry/Targets.antt =====
-- bridge/duckdb_source.cpp: whose grants a call on a bridge may change.
pub mod Sound
pub mod Finalized
use duckdb_virtual_catalog.Prelude.{
  ℕ, String, Bool, true, false, not, ◌&&◌, List, [], ◌∷◌, Option, none, some, ◌==◌, if◌then◌else◌,
  Result, err, ok, ◌<>◌,
}
use duckdb_virtual_catalog.Registry.{
  Policies, World, PendingSource, LiveBridge, GrantBook, Registry, lookup, put, deny,
  purge_expired_pending_sources, is_held_bridge,
}

-- Where the grants are: with the pending entry before ATTACH, in the grant book after it
pub data Grants (p : Policies) : Type 0 where
  pending : PendingSource p → Grants p
  live : LiveBridge → GrantBook p → Grants p

-- `GrantTarget`. The code's pointers `pending`, `live` and `policy_finalized` are in `grants`.
pub record GrantTarget (p : Policies) : Type 0 where
  pub source_db : ℕ
  pub source : ℕ
  pub context : ℕ
  pub grants : Grants p

module _ {p : Policies} where
  unfoldable pub put_book : ℕ → GrantBook p → List (ℕ × GrantBook p) → List (ℕ × GrantBook p)
  put_book k book [] = (k, book) ∷ []
  put_book k book ((j, old) ∷ books) =
      if j == k then (j, book) ∷ books else (j, old) ∷ put_book k book books

module _ (p : Policies) (w : World) where
  unfoldable pub find_book : ℕ → List (ℕ × GrantBook p) → Option (GrantBook p)
  find_book k [] = none
  find_book k ((j, book) ∷ books) =
      let rest = find_book k books in if j == k then some book else rest

  -- `LookupPendingForGrant` of an entry that is there, by a connection to the instance `caller`: the
  -- entry is touched.
  unfoldable pub lookup_pending_for_grant :
      Registry p → String → ℕ → PendingSource p → Registry p × Result (GrantTarget p)
  unfolding put deny
  lookup_pending_for_grant reg bridge_id caller entry =
      let touched : PendingSource p = record entry { last_touched = w.now } in
      if not (w.is_open entry.source_db && entry.source_db == caller)
      then (
        reg,
        deny (
            "vcatbridge: bridge '" <> bridge_id
            <> "' was registered by a different source connection"),
      )
      else (
        record reg { pending = put bridge_id touched reg.pending },
        ok (record {
          source_db = entry.source_db;
          source = entry.source;
          context = entry.context;
          grants = pending touched;
        }),
      )

  unfoldable pub on_book : String → ℕ → LiveBridge → Option (GrantBook p) → Result (GrantTarget p)
  unfolding deny
  on_book bridge_id caller bridge none =
      deny ("vcatbridge: no registered source for bridge '" <> bridge_id <> "'")
  on_book bridge_id caller bridge (some book) =
      if not (bridge.source_db == caller)
      then deny (
          "vcatbridge: bridge '" <> bridge_id
          <> "' was registered by a different source connection")
      else ok (record {
        source_db = caller;
        source = bridge.source;
        context = book.context;
        grants = live bridge book;
      })

  -- `LookupLive`
  unfoldable pub lookup_live : Registry p → String → ℕ → Option LiveBridge → Result (GrantTarget p)
  unfolding on_book find_book deny
  lookup_live reg bridge_id caller none =
      deny ("vcatbridge: no registered source for bridge '" <> bridge_id <> "'")
  lookup_live reg bridge_id caller (some bridge) =
      if w.is_held bridge.grants
      then on_book bridge_id caller bridge (find_book bridge.grants reg.books)
      else deny ("vcatbridge: no registered source for bridge '" <> bridge_id <> "'")

  unfoldable pub target_of :
      Registry p → String → ℕ → Option (PendingSource p) → Registry p × Result (GrantTarget p)
  unfolding lookup_pending_for_grant lookup_live lookup
  target_of reg bridge_id caller (some entry) = lookup_pending_for_grant reg bridge_id caller entry
  target_of reg bridge_id caller none =
      (reg, lookup_live reg bridge_id caller (lookup bridge_id reg.live))

  -- `LookupGrantTarget`
  unfoldable pub lookup_grant_target : Registry p → String → ℕ → Registry p × Result (GrantTarget p)
  unfolding target_of purge_expired_pending_sources lookup
  lookup_grant_target reg bridge_id caller =
      let purged : Registry p = record reg {
        pending = purge_expired_pending_sources p w reg.pending;
      } in
      target_of purged bridge_id caller (lookup bridge_id purged.pending)

  unfoldable pub is_finalized : Grants p → Bool
  is_finalized (pending entry) = entry.policy_finalized
  is_finalized (live bridge book) = book.policy_finalized

  unfoldable pub unless_finalized : String → Result (GrantTarget p) → Result (GrantTarget p)
  unfolding is_finalized deny
  unless_finalized bridge_id (err thrown) = err thrown
  unless_finalized bridge_id (ok target) =
      if is_finalized target.grants
      then deny ("vcatbridge: the policies of bridge '" <> bridge_id <> "' are finalized")
      else ok target

  -- `LookupOpenGrants`
  unfoldable pub lookup_open_grants : Registry p → String → ℕ → Registry p × Result (GrantTarget p)
  unfolding lookup_grant_target unless_finalized
  lookup_open_grants reg bridge_id caller =
      let found = lookup_grant_target reg bridge_id caller in
      (found.0, unless_finalized bridge_id found.1)

module _ (p : Policies) (w : World) where
  unfoldable pub finalize_grants : Registry p → String → Grants p → Registry p × Result (Unit {0})
  unfolding is_finalized put put_book deny
  finalize_grants reg bridge_id (pending entry) =
      if entry.policy_finalized
      then (
        reg,
        deny ("vcatbridge: the policies of bridge '" <> bridge_id <> "' are already finalized"),
      )
      else (
        record reg {
          pending = put bridge_id (record entry { policy_finalized = true }) reg.pending;
        },
        ok tt,
      )
  finalize_grants reg bridge_id (live bridge book) =
      if book.policy_finalized
      then (
        reg,
        deny ("vcatbridge: the policies of bridge '" <> bridge_id <> "' are already finalized"),
      )
      else (
        record reg {
          books = put_book bridge.grants (record book { policy_finalized = true }) reg.books;
        },
        ok tt,
      )

  unfoldable pub finalize_target :
      Registry p → String → Result (GrantTarget p) → Registry p × Result (Unit {0})
  unfolding finalize_grants
  finalize_target reg bridge_id (err thrown) = (reg, err thrown)
  finalize_target reg bridge_id (ok target) = finalize_grants reg bridge_id target.grants

  -- A row of `FinalizePolicyFunc`
  unfoldable pub finalize_policy : Registry p → String → ℕ → Registry p × Result (Unit {0})
  unfolding lookup_grant_target finalize_target
  finalize_policy reg bridge_id caller =
      let found = lookup_grant_target p w reg bridge_id caller in
      finalize_target found.0 bridge_id found.1
