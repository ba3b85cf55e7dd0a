-- ===== src/Grants/Contexts.antt =====
-- bridge/duckdb_source.cpp: the contexts of bridges, whose values stand for the parameters of predicates.
pub mod Kept
mod Tests
use duckdb_virtual_catalog.Prelude.{
  ℕ, String, Bool, true, false, not, ◌&&◌, List, [], ◌∷◌, ◌++◌, Option, none, some, ◌==◌,
  if◌then◌else◌, is_empty, Result, ok, err, io, permission, ◌>>=◌, ◌>>◌, ◌<>◌, throw, throw_if,
}
use duckdb_virtual_catalog.Host.{StringUtil, Crossing}
use duckdb_virtual_catalog.CaseInsensitive.{has, assign}
use duckdb_virtual_catalog.Policy.Name.{PolicyName}
use duckdb_virtual_catalog.Grants.{SourceGrant}
use duckdb_virtual_catalog.Grants.Expression.{Parsed, context_names}
use duckdb_virtual_catalog.Grants.Tables.{TableGrants, GrantTables}
use duckdb_virtual_catalog.Grants.Seam.{Values}
use duckdb_virtual_catalog.Grants.Source.{Source, is_grantable}
use duckdb_virtual_catalog.Grants.Resolve.{probe_predicate}
use duckdb_virtual_catalog.Grants.Commit.{grant_policies}
use duckdb_virtual_catalog.Registry.{World, Registry}
use duckdb_virtual_catalog.Registry.Targets.{
  Grants, pending, live, GrantTarget, lookup_grant_target,
}

-- `BridgeContext`
pub record BridgeContext : Type 0 where
  pub values : Values
  pub finalized : Bool

-- The contexts by their number
abbrev pub Contexts : Type 0
Contexts = List (ℕ × BridgeContext)

unfoldable pub find_context : ℕ → Contexts → Option BridgeContext
find_context k [] = none
find_context k ((j, context) ∷ contexts) =
    let rest = find_context k contexts in if j == k then some context else rest

unfoldable pub put_context : ℕ → BridgeContext → Contexts → Contexts
put_context k context [] = (k, context) ∷ []
put_context k context ((j, old) ∷ contexts) =
    let rest = put_context k context contexts in
    if j == k then (j, context) ∷ contexts else (j, old) ∷ rest

-- `ContextDependent`
pub record ContextDependent : Type 0 where
  pub schema : String
  pub table : String
  pub clause : String
  pub predicate : Parsed

module _ ⦃u : StringUtil⦄ where
  -- A predicate that uses the name is a dependent.
  unfoldable pub dependent :
      String → String → String → String → Option Parsed → List ContextDependent
  unfolding has context_names
  dependent name schema table clause none = []
  dependent name schema table clause (some predicate) =
      if has name (context_names predicate [])
      then record { schema = schema; table = table; clause = clause; predicate = predicate } ∷ []
      else []

  -- The lists are equally long, as each grant has one predicate of each kind for each verb.
  unfoldable pub collect_predicates :
      String → String → String → List (Option Parsed) → List (Option Parsed) → List ContextDependent
  unfolding dependent
  collect_predicates name schema table (p ∷ usings) (q ∷ checks) =
      dependent name schema table "USING" p
      ++ (dependent name schema table "WITH CHECK" q
          ++ collect_predicates name schema table usings checks)
  collect_predicates name schema table usings checks = []

  unfoldable pub collect_tables : String → String → TableGrants → List ContextDependent
  unfolding collect_predicates
  collect_tables name schema [] = []
  collect_tables name schema ((table, grant) ∷ entries) =
      collect_predicates name schema table grant.using_predicates grant.check_predicates
      ++ collect_tables name schema entries

  -- `CollectDependents`
  unfoldable pub collect_dependents : String → GrantTables → List ContextDependent
  unfolding collect_tables
  collect_dependents name [] = []
  collect_dependents name ((schema, entries) ∷ schemas) =
      collect_tables name schema entries ++ collect_dependents name schemas

  -- A table that is gone is passed over.
  unfoldable pub probe_dependents :
      Source → (Parsed → String) → Values → List ContextDependent → Result (Unit {0})
  unfolding is_grantable probe_predicate
  probe_dependents source text values [] = ok tt
  probe_dependents source text values (d ∷ dependents) =
      let name : PolicyName = record { catalog = ""; schema = d.schema; name = d.table } in
      (if is_grantable (source.entry d.schema d.table)
        then probe_predicate source name d.predicate values (text d.predicate) d.clause
        else ok tt)
      >> probe_dependents source text values dependents

  -- A transaction on the source is opened for dependents alone.
  unfoldable pub check_dependents :
      Result Source → (Parsed → String) → Values → List ContextDependent → Result (Unit {0})
  unfolding probe_dependents
  check_dependents opened text values [] = ok tt
  check_dependents opened text values (d ∷ dependents) = do
    source ← opened
    probe_dependents source text values (d ∷ dependents)

module _ ⦃u : StringUtil⦄ ⦃c : Crossing⦄ where
  unfoldable pub tables_of : Grants grant_policies → GrantTables
  tables_of (pending entry) = entry.policy.tables
  tables_of (live bridge book) = book.policy.tables

  unfoldable pub finalized_failure : {A : Type 0} → String → Result A
  finalized_failure bridge_id =
      throw permission ("vcatbridge: the context of bridge '" <> bridge_id <> "' is finalized")

  -- The value is probed in every predicate that uses its name.
  unfoldable pub check_value :
      (GrantTarget grant_policies → Result Source)
      → (Parsed → String)
      → String
      → String
      → ℕ
      → GrantTarget grant_policies
      → Option BridgeContext
      → Result (Unit {0})
  unfolding finalized_failure collect_dependents check_dependents assign tables_of
  check_value sources text bridge_id name value target none = ok tt
  check_value sources text bridge_id name value target (some context) =
      if context.finalized
      then finalized_failure bridge_id
      else check_dependents (sources target) text (assign name value context.values)
          (collect_dependents name (tables_of target.grants))

  -- A target's context is there. Another call may have finalized the context in the meantime.
  unfoldable pub store_value :
      String → String → ℕ → ℕ → Option BridgeContext → Contexts → Contexts × Result (Unit {0})
  unfolding finalized_failure assign put_context
  store_value bridge_id name value k none contexts = (contexts, ok tt)
  store_value bridge_id name value k (some context) contexts =
      if context.finalized then (contexts, finalized_failure bridge_id) else (
        put_context k (record context { values = assign name value context.values }) contexts,
        ok tt,
      )

  unfoldable pub store_checked :
      String → String → ℕ → ℕ → Contexts → Result (Unit {0}) → Contexts × Result (Unit {0})
  unfolding store_value find_context
  store_checked bridge_id name value k now (err thrown) = (now, err thrown)
  store_checked bridge_id name value k now (ok checked) =
      store_value bridge_id name value k (find_context k now) now

  unfoldable pub set_in_target :
      (GrantTarget grant_policies → Result Source)
      → (Parsed → String)
      → Contexts
      → Contexts
      → String
      → String
      → ℕ
      → Result (GrantTarget grant_policies)
      → Contexts × Result (Unit {0})
  unfolding check_value store_checked find_context
  set_in_target sources text before now bridge_id name value (err thrown) = (now, err thrown)
  set_in_target sources text before now bridge_id name value (ok target) =
      store_checked bridge_id name value target.context now
        (check_value sources text bridge_id name value target (find_context target.context before))

  -- A row of `SetContextFunc` with a value that is not NULL. `before` are the contexts when the value is
  -- checked, `now` when it is stored; `text` is the `ToString` of a predicate.
  unfoldable pub set_context :
      World
      → (GrantTarget grant_policies → Result Source)
      → (Parsed → String)
      → Registry grant_policies
      → Contexts
      → Contexts
      → String
      → ℕ
      → String
      → ℕ
      → Contexts × Result (Unit {0})
  unfolding lookup_grant_target set_in_target
  set_context w sources text reg before now bridge_id caller name value =
      if is_empty name
      then (now, throw io "vcatbridge: the context name cannot be empty")
      else set_in_target sources text before now bridge_id name value
          (lookup_grant_target grant_policies w reg bridge_id caller).1

  unfoldable pub finalize_found :
      String → ℕ → Option BridgeContext → Contexts → Contexts × Result (Unit {0})
  unfolding put_context
  finalize_found bridge_id k none contexts = (contexts, ok tt)
  finalize_found bridge_id k (some context) contexts =
      if context.finalized
      then (
        contexts,
        throw permission
            ("vcatbridge: the context of bridge '" <> bridge_id <> "' is already finalized"),
      )
      else (put_context k (record context { finalized = true }) contexts, ok tt)

  unfoldable pub finalize_in_target :
      Contexts → String → Result (GrantTarget grant_policies) → Contexts × Result (Unit {0})
  unfolding finalize_found find_context
  finalize_in_target contexts bridge_id (err thrown) = (contexts, err thrown)
  finalize_in_target contexts bridge_id (ok target) =
      finalize_found bridge_id target.context (find_context target.context contexts) contexts

  -- A row of `FinalizeContextFunc`
  unfoldable pub finalize_context :
      World → Registry grant_policies → Contexts → String → ℕ → Contexts × Result (Unit {0})
  unfolding lookup_grant_target finalize_in_target
  finalize_context w reg contexts bridge_id caller =
      finalize_in_target contexts bridge_id
        (lookup_grant_target grant_policies w reg bridge_id caller).1
