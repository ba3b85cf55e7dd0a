-- ===== src/Registry.antt =====
-- bridge/duckdb_source.cpp: the registered sources that wait for an ATTACH, and the live bridges.
pub mod Tokens
pub mod Redeem
pub mod Once
pub mod Live
pub mod Targets
pub mod Invariant
mod Tests
use duckdb_virtual_catalog.Prelude.{
  ℕ, ◌+◌, ◌-◌, ◌/◌, String, Bool, true, false, not, ◌&&◌, ◌||◌, List, [], ◌∷◌, Option, none, some,
  ltb, if◌then◌else◌, is_empty, Result, Failure, err, ok, permission, io, invalid_input, ◌≟◌, ◌<>◌,
  ◌>>◌,
}
use duckdb_virtual_catalog.Registry.Tokens.{constant_time_equals}

-- What the registry asks of a policy; `validate` is `ValidateGrantSet`.
pub record Policies : Type 1 where
  pub Policy : Type 0
  pub no_policy : Policy
  pub validate : Policy → String → Bool → Result (Unit {0})

-- The process around the registry: the ticks of the steady clock, which database instances are
-- open and which grant books are held, the settings of the instances, and the attached targets.
pub record World : Type 1 where
  pub now : ℕ
  pub is_open : ℕ → Bool
  pub is_held : ℕ → Bool
  pub Value : Type 0
  pub current_setting : ℕ → String → Value
  pub not_distinct : Value → Value → Bool
  pub to_sql : Value → String
  -- What `Refresh` of the attach that a grant book has as its target returns; `none`: it has none.
  pub refresh : ℕ → Option (Result (Unit {0}))

-- `PendingSource`. Instances, pinned catalogs and contexts are known by a number.
pub record PendingSource (p : Policies) : Type 0 where
  pub source_db : ℕ
  pub token : List ℕ
  pub source : ℕ
  pub last_touched : ℕ
  pub policy : p.Policy
  pub context : ℕ
  pub policy_finalized : Bool
  pub token_failures : ℕ

-- `LiveBridge`; the grant book is held elsewhere.
pub record LiveBridge : Type 0 where
  pub source_db : ℕ
  pub source : ℕ
  pub grants : ℕ

-- What `RedeemBridge` fills in a `GrantBook`. The policy is its tables, schemas and functions.
pub record GrantBook (p : Policies) : Type 0 where
  pub policy : p.Policy
  pub context : ℕ
  pub policy_finalized : Bool
  -- grant changes of a target's open transactions
  pub uncommitted_ddl : ℕ

-- `PendingSources()` and `LiveBridges()`, and the grant books by their number
pub record Registry (p : Policies) : Type 0 where
  pub pending : List (String × PendingSource p)
  pub live : List (String × LiveBridge)
  pub books : List (ℕ × GrantBook p)

abbrev pub pending_source_ttl_seconds : ℕ
pending_source_ttl_seconds = 30

-- The steady clock counts nanoseconds.
abbrev pub ticks_per_second : ℕ
ticks_per_second = 1000000000

abbrev pub max_token_failures : ℕ
max_token_failures = 5

-- Maps by exact keys
module _ {V : Type 0} where
  unfoldable pub lookup : String → List (String × V) → Option V
  lookup k [] = none
  lookup k ((j, v) ∷ m) = if j ≟ k then some v else lookup k m

  unfoldable pub put : String → V → List (String × V) → List (String × V)
  put k v [] = (k, v) ∷ []
  put k v ((j, w) ∷ m) = if j ≟ k then (j, v) ∷ m else (j, w) ∷ put k v m

  -- Every entry under the key goes.
  unfoldable pub drop : String → List (String × V) → List (String × V)
  drop k [] = []
  drop k ((j, w) ∷ m) = let rest = drop k m in if j ≟ k then rest else (j, w) ∷ rest

unfoldable pub deny {ℓ} : {A : Type ℓ} → String → Result A
deny message = err (record { type = permission; message = message })

-- The token that a registration chose, or the generated one
unfoldable pub chosen_token : Option (List ℕ) → List ℕ → Result (List ℕ)
chosen_token none generated = ok generated
chosen_token (some []) generated =
    err (record { type = io; message = "vcatbridge: the token cannot be empty" })
chosen_token (some (b ∷ bytes)) generated = ok (b ∷ bytes)

-- `MatchedSettings()`
abbrev pub matched_settings : List String
matched_settings =
    "Calendar" ∷ "default_collation" ∷ "default_null_order" ∷ "default_order"
    ∷ "disable_timestamptz_casts" ∷ "ieee_floating_point_ops" ∷ "preserve_insertion_order"
    ∷ "scalar_subquery_error_on_multiple_rows" ∷ "TimeZone" ∷ []

module _ (p : Policies) (w : World) where
  -- An entry that `PurgeExpiredPendingSources` keeps
  unfoldable pub is_kept : PendingSource p → Bool
  is_kept entry =
      not (ltb pending_source_ttl_seconds ((w.now - entry.last_touched) / ticks_per_second))
      && w.is_open entry.source_db

  unfoldable pub purge_expired_pending_sources :
      List (String × PendingSource p) → List (String × PendingSource p)
  unfolding is_kept
  purge_expired_pending_sources [] = []
  purge_expired_pending_sources ((id, entry) ∷ entries) =
      let rest = purge_expired_pending_sources entries in
      if is_kept entry then (id, entry) ∷ rest else rest

  unfoldable pub is_held_bridge : Option LiveBridge → Bool
  is_held_bridge none = false
  is_held_bridge (some bridge) = w.is_held bridge.grants

  unfoldable pub is_live_bridge : Registry p → String → Bool
  unfolding is_held_bridge lookup
  is_live_bridge reg bridge_id = is_held_bridge (lookup bridge_id reg.live)

  -- `ThrowUnlessSettingsMatch`
  unfoldable pub settings_match : ℕ → ℕ → String → List String → Result (Unit {0})
  settings_match source_db target_db bridge_id [] = ok tt
  settings_match source_db target_db bridge_id (name ∷ names) =
      let rest = settings_match source_db target_db bridge_id names in
      if w.not_distinct (w.current_setting source_db name) (w.current_setting target_db name)
      then rest
      else err (record {
        type = invalid_input;
        message =
            "vcatbridge: bridge '"
            <> bridge_id
            <> "' needs setting '"
            <> name
            <> "' to match on source and target, but the source has "
            <> w.to_sql (w.current_setting source_db name)
            <> " and the target has "
            <> w.to_sql (w.current_setting target_db name);
      })

  -- Whether the bridge is there already decides.
  unfoldable pub add_unless :
      Registry p
      → String
      → PendingSource p
      → Option (PendingSource p)
      → Registry p × Result (List ℕ)
  unfolding put is_live_bridge
  add_unless reg bridge_id entry (some present) = (
    reg,
    err (record {
      type = io;
      message = "vcatbridge: a source is already registered for bridge '" <> bridge_id <> "'";
    }),
  )
  add_unless reg bridge_id entry none =
      if is_live_bridge reg bridge_id
      then (
        reg,
        err (record {
          type = io;
          message = "vcatbridge: a source is already registered for bridge '" <> bridge_id <> "'";
        }),
      )
      else (record reg { pending = put bridge_id entry reg.pending }, ok entry.token)

  -- The part of `RegisterSourceFunc` under the lock
  unfoldable pub add_pending :
      Registry p → String → ℕ → ℕ → ℕ → Result (List ℕ) → Registry p × Result (List ℕ)
  unfolding lookup add_unless purge_expired_pending_sources
  add_pending reg bridge_id source source_db context (err thrown) = (reg, err thrown)
  add_pending reg bridge_id source source_db context (ok token) =
      let purged : Registry p = record reg {
        pending = purge_expired_pending_sources reg.pending;
      } in
      let entry : PendingSource p = record {
        source_db = source_db;
        token = token;
        source = source;
        last_touched = w.now;
        policy = p.no_policy;
        context = context;
        policy_finalized = false;
        token_failures = 0;
      } in
      add_unless purged bridge_id entry (lookup bridge_id purged.pending)

  unfoldable pub register_pinned :
      Registry p → String → Result ℕ → ℕ → ℕ → Result (List ℕ) → Registry p × Result (List ℕ)
  unfolding add_pending
  register_pinned reg bridge_id (err thrown) source_db context token = (reg, err thrown)
  register_pinned reg bridge_id (ok source) source_db context token =
      add_pending reg bridge_id source source_db context token

  -- A row of `RegisterSourceFunc`: what pinning the source catalog gives, the instance of the
  -- connection, the token that the call chose or `none`, the one generated otherwise, and a number
  -- for the new context. The token is returned.
  unfoldable pub register_source :
      Registry p
      → String
      → Result ℕ
      → ℕ
      → Option (List ℕ)
      → List ℕ
      → ℕ
      → Registry p × Result (List ℕ)
  unfolding chosen_token register_pinned
  register_source reg bridge_id pinned source_db chosen generated context =
      if is_empty bridge_id
      then (reg, err (record { type = io; message = "vcatbridge: bridge id cannot be empty" }))
      else register_pinned reg bridge_id pinned source_db context (chosen_token chosen generated)
