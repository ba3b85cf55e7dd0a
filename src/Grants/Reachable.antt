-- ===== src/Grants/Reachable.antt =====
-- Every registry that the calls of sources and targets lead to.
use duckdb_virtual_catalog.Prelude.{ℕ, String, List, [], Option, Result}
use duckdb_virtual_catalog.Policy.Document.{PolicyConfig}
use duckdb_virtual_catalog.Policy.Edit.{PolicyEdit}
use duckdb_virtual_catalog.Grants.Seam.{Values}
use duckdb_virtual_catalog.Grants.Source.{Source}
use duckdb_virtual_catalog.Grants.Calls.{commit_prepared, prepare_edit, prepare_configuration}
use duckdb_virtual_catalog.Grants.Calls.Sound.{
  prepare_edit-IsSoundRegistry, prepare_configuration-IsSoundRegistry,
}
use duckdb_virtual_catalog.Host.{StringUtil, Crossing}
use duckdb_virtual_catalog.Grants.Commit.{grant_policies}
use duckdb_virtual_catalog.Grants.Commit.Sound.{sound_policies, IsSoundRegistry}
use duckdb_virtual_catalog.Registry.{World, Registry, register_source}
use duckdb_virtual_catalog.Registry.Redeem.{redeem_bridge, release}
use duckdb_virtual_catalog.Registry.Targets.{GrantTarget, lookup_open_grants, finalize_policy}
use duckdb_virtual_catalog.Registry.Invariant.{register_source-IsGood, redeem_bridge-IsGood}
use duckdb_virtual_catalog.Registry.Invariant.Calls.{
  lookup_open_grants-IsGoodFound, finalize_policy-IsGood,
}

module _ ⦃u : StringUtil⦄ ⦃c : Crossing⦄ where
  -- One call, in whatever state the process around it is
  pub data Step : Registry grant_policies → Registry grant_policies → Type 1 where
    registers :
        (w : World) (reg : Registry grant_policies) (bridge_id : String) (pinned : Result ℕ)
        (source_db : ℕ) (chosen : Option (List ℕ)) (generated : List ℕ) (context : ℕ)
        → Step reg
            (register_source grant_policies w reg bridge_id pinned source_db chosen generated
              context).0
    redeems :
        (w : World) (reg : Registry grant_policies) (nonce : List ℕ) (bridge_id : String)
        (token : List ℕ) (target_db book : ℕ)
        → Step reg (redeem_bridge grant_policies w reg nonce bridge_id token target_db book).0
    -- The lookup of a call that prepares a change
    looks :
        (w : World) (reg : Registry grant_policies) (bridge_id : String) (caller : ℕ)
        → Step reg (lookup_open_grants grant_policies w reg bridge_id caller).0
    -- The commit of a call that looked up its bridge in an earlier registry
    sets_policy :
        (w later : World) (sources : GrantTarget grant_policies → Result Source)
        (contexts : ℕ → Values) (before reg : Registry grant_policies) (bridge_id : String)
        (caller : ℕ) (edit : PolicyEdit)
        → Step reg
            (commit_prepared later reg bridge_id caller
              (prepare_edit w sources contexts before bridge_id caller edit)).0
    configures_policy :
        (w later : World) (sources : GrantTarget grant_policies → Result Source)
        (contexts : ℕ → Values) (before reg : Registry grant_policies) (bridge_id : String)
        (caller : ℕ) (config : PolicyConfig)
        → Step reg
            (commit_prepared later reg bridge_id caller
              (prepare_configuration w sources contexts before bridge_id caller config)).0
    finalizes :
        (w : World) (reg : Registry grant_policies) (bridge_id : String) (caller : ℕ)
        → Step reg (finalize_policy grant_policies w reg bridge_id caller).0
    releases :
        (reg : Registry grant_policies) (bridge_id : String) (grants : ℕ)
        → Step reg (release reg bridge_id grants)

  abbrev pub empty_registry : Registry grant_policies
  empty_registry = record { pending = []; live = []; books = [] }

  -- What the calls of a process lead to
  pub data Reach : Registry grant_policies → Type 1 where
    start : Reach empty_registry
    next : {before after : Registry grant_policies} → Reach before → Step before after → Reach after

  Step-IsSoundRegistry :
      {before after : Registry grant_policies}
      → Step before after
      → IsSoundRegistry before
      → IsSoundRegistry after
  unfolding release
  Step-IsSoundRegistry (registers w reg bridge_id pinned source_db chosen generated context) h =
      register_source-IsGood grant_policies sound_policies w reg bridge_id pinned source_db chosen
        generated context h
  Step-IsSoundRegistry (redeems w reg nonce bridge_id token target_db book) h =
      redeem_bridge-IsGood grant_policies sound_policies w reg nonce bridge_id token target_db book
        h
  Step-IsSoundRegistry (looks w reg bridge_id caller) h =
      (lookup_open_grants-IsGoodFound grant_policies sound_policies w reg bridge_id caller h).0
  Step-IsSoundRegistry (sets_policy w later sources contexts before reg bridge_id caller edit) h =
      prepare_edit-IsSoundRegistry w later sources contexts before reg bridge_id caller edit h
  Step-IsSoundRegistry
        (configures_policy w later sources contexts before reg bridge_id caller config) h =
      prepare_configuration-IsSoundRegistry w later sources contexts before reg bridge_id caller
        config h
  Step-IsSoundRegistry (finalizes w reg bridge_id caller) h =
      finalize_policy-IsGood grant_policies sound_policies w reg bridge_id caller h
  Step-IsSoundRegistry (releases reg bridge_id grants) h = h

  -- In a registry that any calls lead to, every grant of a pending policy is whole and every pending
  -- entry has fewer than five wrong tokens; the policy of every grant book is whole, and each of its
  -- grants has a verb and, if it lets rows be written, only reveals tables that its owner accepted or
  -- that are granted for reading without a restriction.
  pub Reach-IsSoundRegistry : {reg : Registry grant_policies} → Reach reg → IsSoundRegistry reg
  Reach-IsSoundRegistry start = (tt, tt)
  Reach-IsSoundRegistry (next r step) = Step-IsSoundRegistry step (Reach-IsSoundRegistry r)
