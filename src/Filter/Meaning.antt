-- ===== src/Filter/Meaning.antt =====
-- What a filter and its clauses say of a row. DuckDB's comparisons, and the reader of the clauses in
-- the provider's process, are parameters.
use duckdb_virtual_catalog.Prelude.{
  ℕ, String, ◌≡◌, ◌⊎◌, Bool, true, false, not, ◌&&◌, ◌||◌, List, [], ◌∷◌, Option, none, some, ◌≟◌,
  if◌then◌else◌, All, cons_both,
}
use duckdb_virtual_catalog.Filter.{
  Value, Node, Comparison, equal, Operator, is_null_operator, is_not_null_operator, compare_in,
  other_operator, Expression, optional, root_optional, function, operator, conjunction_and,
  conjunction_or, other_class, Expressions, nil, cons, Clause, one, many, value_node,
  value_type_tag, is_nan, first_tag, value_nodes, is_internal_hint,
}

-- How the source compares a cell of a column, and what the expressions that the code does not look
-- into compute of it.
pub record Cells : Type 1 where
  pub Cell : Type 0
  pub compares : Comparison → Cell → Value → Bool
  pub is_null : Cell → Bool
  pub computes : ℕ → Cell → Bool

abbrev pub IsNull : Value → Type 0
IsNull v = v.is_null ≡ true

-- A tag under which a value may be sent: its own, or any for NULL
abbrev pub IsTagFor : Value → Option String → Type 0
IsTagFor v tag = IsNull v ⊎ (tag ≡ value_type_tag v)

-- Values of a reader: the nodes of a list, each rebuilt, and the test for some value.
module _ {R : Type 0} where
  unfoldable pub rebuild_all :
      (Node → Option String → Option R) → List Node → Option String → Option (List R)
  rebuild_all rebuild [] tag = some []
  rebuild_all rebuild (node ∷ nodes) tag =
      cons_both (rebuild node tag) (rebuild_all rebuild nodes tag)

  unfoldable pub any_read : (R → Bool) → List R → Bool
  any_read holds [] = false
  any_read holds (w ∷ ws) = holds w || any_read holds ws

-- The reader in the provider's process, with values and comparisons of its own. A node that it rebuilds
-- under its tag compares as the value that was sent, at the cells where it reads the value plainly:
-- `is_plain` says where. NaN, which has no JSON, is not promised. A reader that compares IEEE doubles
-- does not read plainly at a NaN cell, since DuckDB orders NaN above every number, and one that matches
-- NULL with NULL in a list does not read a NULL of a list plainly.
pub record Reader (c : Cells) : Type 1 where
  pub Read : Type 0
  pub rebuild : Node → Option String → Option Read
  pub compares : Comparison → c.Cell → Read → Bool
  pub is_in : c.Cell → List Read → Bool
  pub is_plain : c.Cell → Value → Bool
  pub faithful :
      (v : Value) (tag : Option String)
      → is_nan v ≡ false
      → IsTagFor v tag
      → (rebuild (value_node v) tag ≡ none)
        ⊎ ((w : Read) × (rebuild (value_node v) tag ≡ some w)
            × ((k : Comparison) (x : c.Cell)
                → is_plain x v ≡ true
                → compares k x w ≡ c.compares k x v))
  -- In a list of values that are read plainly, a cell is found where it equals one of them.
  pub is_in_plain :
      (x : c.Cell) (values : List Value) (tag : Option String) (ws : List Read)
      → All (λ v. is_plain x v ≡ true) values
      → rebuild_all rebuild (value_nodes values) tag ≡ some ws
      → is_in x ws ≡ any_read (compares equal x) ws

module _ (c : Cells) where
  -- `x IN (values)`: some value is equal to it.
  unfoldable pub any_equal : c.Cell → List Value → Bool
  any_equal x [] = false
  any_equal x (value ∷ values) = c.compares equal x value || any_equal x values

  unfoldable pub all_constants : List (Option Value) → Option (List Value)
  all_constants [] = some []
  all_constants (operand ∷ operands) = cons_both operand (all_constants operands)

  unfoldable pub function_passes : c.Cell → Option (Comparison × Value) → ℕ → Bool
  function_passes x none i = c.computes i x
  function_passes x (some (k, value)) i = c.compares k x value

  unfoldable pub in_passes : c.Cell → Option (List Value) → ℕ → Bool
  unfolding any_equal
  in_passes x none i = c.computes i x
  in_passes x (some values) i = any_equal x values

  unfoldable pub operator_passes : c.Cell → Operator → List (Option Value) → ℕ → Bool
  unfolding in_passes all_constants
  operator_passes x is_null_operator operands i = c.is_null x
  operator_passes x is_not_null_operator operands i = not (c.is_null x)
  operator_passes x compare_in operands i = in_passes x (all_constants operands) i
  operator_passes x other_operator operands i = c.computes i x

  -- Whether a cell passes a filter expression
  unfoldable mutual
    unfolding function_passes operator_passes

    pub passes : c.Cell → Expression → Bool
    passes x (optional child) = passes x child
    passes x (root_optional i) = c.computes i x
    passes x (function name found i) =
        if is_internal_hint name then c.computes i x else function_passes x found i
    passes x (operator op on_column operands i) =
        if on_column then operator_passes x op operands i else c.computes i x
    passes x (conjunction_and children) = all_pass x children
    passes x (conjunction_or children i) = c.computes i x
    passes x (other_class i) = c.computes i x

    pub all_pass : c.Cell → Expressions → Bool
    all_pass x nil = true
    all_pass x (cons child children) = passes x child && all_pass x children

  -- Whether a cell passes what nothing above the scan enforces: the filter without its optional
  -- parts and hints
  unfoldable mutual
    unfolding passes

    pub passes_mandatory : c.Cell → Expression → Bool
    passes_mandatory x (optional child) = true
    passes_mandatory x (root_optional i) = true
    passes_mandatory x (function name found i) =
        if is_internal_hint name then true else function_passes x found i
    passes_mandatory x (operator op on_column operands i) =
        if on_column then operator_passes x op operands i else c.computes i x
    passes_mandatory x (conjunction_and children) = all_pass_mandatory x children
    passes_mandatory x (conjunction_or children i) = c.computes i x
    passes_mandatory x (other_class i) = c.computes i x

    pub all_pass_mandatory : c.Cell → Expressions → Bool
    all_pass_mandatory x nil = true
    all_pass_mandatory x (cons child children) =
        passes_mandatory x child && all_pass_mandatory x children

  -- The non-NULL values of an `IN` list share a type, so they share a tag.
  abbrev pub AreAlike : List Value → Type 0
  AreAlike values = All (λ v. IsTagFor v (first_tag values)) values

module _ (c : Cells) (r : Reader c) where
  unfoldable pub comparison_named : String → Option Comparison
  comparison_named op =
      if op ≟ "="
      then some equal
      else if op ≟ "!="
      then some Comparison.not_equal
      else if op ≟ ">"
      then some Comparison.greater
      else if op ≟ ">="
      then some Comparison.greater_equal
      else if op ≟ "<"
      then some Comparison.less
      else if op ≟ "<="
      then some Comparison.less_equal
      else none

  unfoldable pub compare_read : c.Cell → Option Comparison → Option r.Read → Option Bool
  compare_read x (some k) (some v) = some (r.compares k x v)
  compare_read x _ _ = none

  unfoldable pub in_read : c.Cell → Option (List r.Read) → Option Bool
  in_read x none = none
  in_read x (some vs) = some (r.is_in x vs)

  -- What the reader makes of a clause at a cell; `none`: it refuses the clause.
  unfoldable pub clause_passes : c.Cell → Clause → Option Bool
  unfolding comparison_named compare_read in_read
  clause_passes x clause = elim clause.value [
    | one node ↦
        if clause.op ≟ "is_null"
        then some (c.is_null x)
        else if clause.op ≟ "is_not_null"
        then some (not (c.is_null x))
        else compare_read x (comparison_named clause.op) (r.rebuild node clause.tag)
    | many nodes ↦ in_read x (rebuild_all r.rebuild nodes clause.tag)
  ]
