-- ===== src/Host.antt =====
-- What the code takes from outside the repository: the string utilities of DuckDB, and the crossing
-- library (a git submodule), which declares the verbs that a bridge can grant.
use duckdb_virtual_catalog.Prelude.{ℕ, ◌<◌, ◌≡◌, Bool, true, String, Char, List, length, Any}

-- `StringUtil` of DuckDB. `ci_equals` decides an equivalence; it is also the key equality of the
-- case-insensitive maps and sets.
pub record StringUtil : Type 0 where
  pub ci_equals : String → String → Bool
  pub trim : String → String
  pub is_space : Char → Bool
  -- `Replace(source, from, to)`
  pub replace : String → String → String → String
  -- `Join(parts, separator)`
  pub join : List String → String → String
  pub ci_refl : (a : String) → ci_equals a a ≡ true
  pub ci_sym : (a b : String) → ci_equals a b ≡ true → ci_equals b a ≡ true
  pub ci_trans :
      (a b c : String) → ci_equals a b ≡ true → ci_equals b c ≡ true → ci_equals a c ≡ true

-- The verbs, by the names that the source writes: `CrossingVerb::SELECT` and so on.
pub data CrossingVerb : Type 0 where
  select insert update delete alter create drop : CrossingVerb

-- The rest of crossing's verb table: `CrossingVerbs()`, `CrossingVerbName`, the enumerators' values.
pub record Crossing : Type 0 where
  pub verbs : List CrossingVerb
  pub verb_name : CrossingVerb → String
  -- `static_cast<idx_t>(verb)`
  pub index : CrossingVerb → ℕ
  pub is_ddl : CrossingVerb → Bool
  pub index_lt : (v : CrossingVerb) → index v < length verbs
  -- The verbs fit the byte of a grant.
  pub index_lt_8 : (v : CrossingVerb) → index v < 8
  pub index_injective : (v w : CrossingVerb) → index v ≡ index w → v ≡ w
  pub listed : (v : CrossingVerb) → Any (λ w. w ≡ v) verbs
