-- ===== src/Grants.antt =====
-- bridge/include/duckdb_source.hpp and bridge/duckdb_source.cpp: what a bridge grants of each table.
pub mod Bits
pub mod Expression
pub mod Tables
pub mod Validate
pub mod Edits
pub mod Commit
pub mod Seam
pub mod Source
pub mod Resolve
pub mod Keys
pub mod Guarded
pub mod Policies
pub mod Shaping
pub mod Calls
pub mod Contexts
pub mod Describe
pub mod Reachable
mod Tests
use duckdb_virtual_catalog.Prelude.{
  ℕ, String, Bool, true, false, not, ◌&&◌, ◌||◌, List, [], ◌∷◌, Option, none, some, if◌then◌else◌,
  length, set, get_or, replicate, ◌==◌,
}
use duckdb_virtual_catalog.Host.{StringUtil, Crossing, CrossingVerb, select}
use duckdb_virtual_catalog.CaseInsensitive.{has, insert, erase}
use duckdb_virtual_catalog.Policy.Edit.{PolicyListOp, set as set_op, add, remove as remove_op}
use duckdb_virtual_catalog.Grants.Bits.{set_bit, clear_bit, has_bit}
use duckdb_virtual_catalog.Grants.Expression.{Parsed}

pub record SourceGrant : Type 0 where
  -- a `uint8_t`
  pub verbs : ℕ
  pub using_predicates : List (Option Parsed)
  pub check_predicates : List (Option Parsed)
  pub key : List String
  pub discovered_key : List String
  pub key_set : Bool
  pub key_verified : Bool
  pub select_unrestricted : Bool
  pub foreign_key_parents : List String
  pub allowed_foreign_keys : List String

pub record TableFacts : Type 0 where
  pub discovered_key : List String
  pub foreign_key_parents : List String

pub record ResolvedVerb : Type 0 where
  pub granted : Bool
  pub using_predicate : Option Parsed
  pub check_predicate : Option Parsed
  pub unrestricted : Bool

-- What a verb that is not resolved holds
abbrev pub unresolved_verb : ResolvedVerb
unresolved_verb = record {
  granted = false;
  using_predicate = none;
  check_predicate = none;
  unrestricted = false;
}

pub record ResolvedKey : Type 0 where
  pub set : Bool
  pub columns : List String
  pub verified : Bool

abbrev pub unresolved_key : ResolvedKey
unresolved_key = record { set = false; columns = []; verified = true }

pub record FunctionGrants : Type 0 where
  pub builtins : Bool
  pub allowed : List String
  pub disallowed : List String

-- `verb == CrossingVerb::SELECT`
abbrev pub is_select : CrossingVerb → Bool
is_select select = true
is_select verb = false

module _ ⦃c : Crossing⦄ where
  -- A new `SourceGrant`
  abbrev pub no_grant : SourceGrant
  no_grant = record {
    verbs = 0;
    using_predicates = replicate (length c.verbs) none;
    check_predicates = replicate (length c.verbs) none;
    key = [];
    discovered_key = [];
    key_set = false;
    key_verified = true;
    select_unrestricted = false;
    foreign_key_parents = [];
    allowed_foreign_keys = [];
  }

  -- `Has`
  unfoldable pub has_verb : SourceGrant → CrossingVerb → Bool
  unfolding has_bit
  has_verb grant verb = has_bit grant.verbs (c.index verb)

  -- `CopyUsing` and `CopyCheck`
  unfoldable pub copy_using : SourceGrant → CrossingVerb → Option Parsed
  copy_using grant verb = get_or grant.using_predicates (c.index verb) none

  unfoldable pub copy_check : SourceGrant → CrossingVerb → Option Parsed
  copy_check grant verb = get_or grant.check_predicates (c.index verb) none

  unfoldable pub install_verb : SourceGrant → CrossingVerb → ResolvedVerb → SourceGrant
  unfolding set_bit clear_bit
  install_verb grant verb resolved = record grant {
    verbs =
        if resolved.granted
        then set_bit grant.verbs (c.index verb)
        else clear_bit grant.verbs (c.index verb);
    using_predicates = set grant.using_predicates (c.index verb) resolved.using_predicate;
    check_predicates = set grant.check_predicates (c.index verb) resolved.check_predicate;
    select_unrestricted =
        if is_select verb then resolved.unrestricted else grant.select_unrestricted;
  }

unfoldable pub install_facts : SourceGrant → TableFacts → SourceGrant
install_facts grant facts = record grant {
  discovered_key = facts.discovered_key;
  foreign_key_parents = facts.foreign_key_parents;
  key = if grant.key_set then grant.key else facts.discovered_key;
}

unfoldable pub install_key : SourceGrant → ResolvedKey → SourceGrant
install_key grant resolved = record grant {
  key_set = resolved.set;
  key = if resolved.set then resolved.columns else grant.discovered_key;
  key_verified = if resolved.set then resolved.verified else true;
}

module _ ⦃u : StringUtil⦄ where
  allow_names : List String → FunctionGrants → FunctionGrants
  unfolding insert erase
  allow_names [] functions = functions
  allow_names (name ∷ names) functions = allow_names names (record functions {
    allowed = insert name functions.allowed;
    disallowed = erase name functions.disallowed;
  })

  disallow_names : List String → FunctionGrants → FunctionGrants
  unfolding insert erase
  disallow_names [] functions = functions
  disallow_names (name ∷ names) functions = disallow_names names (record functions {
    allowed = erase name functions.allowed;
    disallowed = insert name functions.disallowed;
  })

  unfoldable pub apply_function_list : FunctionGrants → PolicyListOp → List String → FunctionGrants
  unfolding allow_names disallow_names
  apply_function_list functions set_op names =
      allow_names names (record { builtins = false; allowed = []; disallowed = [] })
  apply_function_list functions add names = allow_names names functions
  apply_function_list functions remove_op names = disallow_names names functions
