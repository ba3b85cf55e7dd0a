-- ===== src/Registry/Tests.antt =====
-- Runs of the registry, and its theorems on a source that is registered and redeemed.
use duckdb_virtual_catalog.Prelude.{
  ℕ, ◌*◌, ◌≡◌, refl, Bool, true, false, List, [], ◌∷◌, none, some, Result, err, ok, arith, leb, io,
}
use duckdb_virtual_catalog.Registry.Live.{redeem_bridge_live}
use duckdb_virtual_catalog.Registry.{
  Policies, World, PendingSource, Registry, deny, register_source, is_live_bridge, lookup,
  purge_expired_pending_sources, settings_match, is_kept, ticks_per_second,
}
use duckdb_virtual_catalog.Registry.Tokens.{constant_time_equals, constant_time_equals_lem}
use duckdb_virtual_catalog.Registry.Redeem.{Redeemed, before_colon, is_foreign, redeem_bridge}
use duckdb_virtual_catalog.Registry.Targets.{GrantTarget, pending, is_finalized, lookup_open_grants}
use duckdb_virtual_catalog.Registry.Targets.Sound.{IsTargetOf, lookup_open_grants_sound}
use duckdb_virtual_catalog.Registry.Once.{IsRedeemed, redeem_bridge_sound}

-- A policy is whether it grants something.
abbrev verdict : Bool → Result (Unit {0})
verdict true = ok tt
verdict false = deny "no policies"

abbrev policies : Policies
policies = record {
  Policy = Bool;
  no_policy = true;
  validate = λ policy bridge_id attaching. verdict policy;
}

-- At so many seconds, with the instances below 10 open and no grant book held
abbrev world : ℕ → World
world seconds = record {
  now = seconds * ticks_per_second;
  is_open = λ db. leb db 9;
  is_held = λ book. false;
  refresh = λ book. none;
  Value = Bool;
  current_setting = λ db name. true;
  not_distinct = λ a b. true;
  to_sql = λ v. "true";
}

abbrev empty_registry : Registry policies
empty_registry = record { pending = []; live = []; books = [] }

abbrev registered : Registry policies
registered =
    (register_source policies (world 100) empty_registry "sales" (ok 3) 4 none (7 ∷ 58 ∷ 9 ∷ [])
      0).0

abbrev attached : Registry policies
attached = record {
  pending = [];
  live = ("sales", record { source_db = 4; source = 3; grants = 20 }) ∷ [];
  books =
      (20, record { policy = true; context = 0; policy_finalized = false; uncommitted_ddl = 0 })
      ∷ [];
}

abbrev redeemed : Redeemed
redeemed = record { source_db = 4; source = 3; grants = 20 }

registry : Unit {0}
unfolding register_source redeem_bridge settings_match is_live_bridge purge_expired_pending_sources
    lookup constant_time_equals before_colon is_foreign deny is_kept
registry = tt

registry_tests :
    (redeem_bridge policies (world 120) registered (7 ∷ []) "sales" (7 ∷ 58 ∷ 9 ∷ []) 5 20
      ≡ (attached, ok redeemed))
    × ((redeem_bridge policies (world 131) registered (7 ∷ []) "sales" (7 ∷ 58 ∷ 9 ∷ []) 5 20).1
        ≡ deny "vcatbridge: no registered source for bridge 'sales'")
    × ((redeem_bridge policies (world 120) registered (7 ∷ []) "sales" (7 ∷ 58 ∷ 8 ∷ []) 5 20).1
        ≡ deny "vcatbridge: invalid setup token for bridge 'sales'")
    × ((register_source policies (world 120) registered "stock" (ok 3) 4 (some []) (7 ∷ []) 1).1
        ≡ err (record { type = io; message = "vcatbridge: the token cannot be empty" }))
unfolding registry
registry_tests = (refl, refl, refl, refl)

redeem_bridge_sound_example :
    IsRedeemed policies (world 120) registered "sales" (7 ∷ 58 ∷ 9 ∷ []) 5 attached redeemed
unfolding registry
redeem_bridge_sound_example =
    redeem_bridge_sound policies (world 120) registered (7 ∷ []) "sales" (7 ∷ 58 ∷ 9 ∷ []) 5 20
      attached redeemed refl

abbrev token : List ℕ
token = 7 ∷ 9 ∷ []

abbrev other_token : List ℕ
other_token = 7 ∷ 8 ∷ []

constant_time_equals_lem_example :
    (constant_time_equals token other_token ≡ true → token ≡ other_token)
    × (token ≡ other_token → constant_time_equals token other_token ≡ true)
constant_time_equals_lem_example =
    constant_time_equals_lem token other_token (omega arith, (omega arith, tt))
      (omega arith, (omega arith, tt))

abbrev reached : GrantTarget policies
reached = record {
  source_db = 4;
  source = 3;
  context = 0;
  grants = pending (record {
    source_db = 4;
    token = 7 ∷ 58 ∷ 9 ∷ [];
    source = 3;
    last_touched = 120 * ticks_per_second;
    policy = true;
    context = 0;
    policy_finalized = false;
    token_failures = 0;
  });
}

lookup_open_grants_sound_example :
    IsTargetOf policies (world 120) registered "sales" 4 reached
    × (is_finalized policies (world 120) reached.grants ≡ false)
unfolding registry lookup_open_grants
lookup_open_grants_sound_example =
    lookup_open_grants_sound policies (world 120) registered "sales" 4 reached refl

abbrev waiting : PendingSource policies
waiting = record {
  source_db = 4;
  token = 7 ∷ 58 ∷ 9 ∷ [];
  source = 3;
  last_touched = 100 * ticks_per_second;
  policy = true;
  context = 0;
  policy_finalized = false;
  token_failures = 0;
}

redeem_bridge_live_example :
    (redeem_bridge policies (world 120) registered (7 ∷ []) "sales" (7 ∷ 58 ∷ 9 ∷ []) 5 20).1
    ≡ ok redeemed
unfolding registry
redeem_bridge_live_example =
    redeem_bridge_live policies (world 120) registered (7 ∷ []) "sales" 5 20 waiting
      (omega arith, (omega arith, (omega arith, tt))) refl refl refl refl refl
