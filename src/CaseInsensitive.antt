-- ===== src/CaseInsensitive.antt =====
-- The case-insensitive sets and maps of DuckDB, as lists whose keys are compared by `ci_equals`.
-- They are unordered containers; a list fixes one order of iteration.
pub mod Laws
pub mod Maps
use duckdb_virtual_catalog.Prelude.{
  String, Bool, true, false, ◌||◌, List, [], ◌∷◌, Option, none, some, if◌then◌else◌,
}
use duckdb_virtual_catalog.Host.{StringUtil}

module _ ⦃u : StringUtil⦄ where
  -- `count(name)` of a set
  unfoldable pub has : String → List String → Bool
  has k [] = false
  has k (j ∷ js) = u.ci_equals j k || has k js

  -- `insert(name)` of a set: a key that is there already stays as it is spelled.
  unfoldable pub insert : String → List String → List String
  insert k [] = k ∷ []
  insert k (j ∷ js) = if u.ci_equals j k then j ∷ js else j ∷ insert k js

  -- `erase(name)` of a set
  unfoldable pub erase : String → List String → List String
  erase k [] = []
  erase k (j ∷ js) = if u.ci_equals j k then js else j ∷ erase k js

module _ {ℓ} {V : Type ℓ} ⦃u : StringUtil⦄ where
  -- `find(key)` of a map
  unfoldable pub find : String → List (String × V) → Option V
  find k [] = none
  find k ((j, v) ∷ m) = if u.ci_equals j k then some v else find k m

  -- `map[key] = value`: a key that is there already stays as it is spelled.
  unfoldable pub assign : String → V → List (String × V) → List (String × V)
  assign k v [] = (k, v) ∷ []
  assign k v ((j, w) ∷ m) = if u.ci_equals j k then (j, v) ∷ m else (j, w) ∷ assign k v m

  -- `erase(key)` of a map
  unfoldable pub remove : String → List (String × V) → List (String × V)
  remove k [] = []
  remove k ((j, w) ∷ m) = if u.ci_equals j k then m else (j, w) ∷ remove k m
