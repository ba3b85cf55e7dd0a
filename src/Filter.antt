-- ===== src/Filter.antt =====
-- provider/include/filter_json.hpp: pushed filters rendered as the clauses of the wire format.
pub mod Meaning
pub mod Exact
pub mod Fidelity
pub mod Whole
mod Tests
use duckdb_virtual_catalog.Prelude.{
  ℕ, ◌/◌, ◌%◌, ◌^◌, ◌+◌, ℤ, String, Bool, true, false, not, ◌&&◌, ◌||◌, List, [], ◌∷◌, ◌++◌, Option,
  none, some, ◌==◌, if◌then◌else◌, is_empty, get_elem?, cons_both,
}

-- `LogicalTypeId`, as far as the code tells the types apart
pub data LogicalTypeId : Type 0 where
  boolean tinyint smallint integer bigint : LogicalTypeId
  utinyint usmallint uinteger ubigint : LogicalTypeId
  float double varchar enum date time time_tz : LogicalTypeId
  timestamp timestamp_sec timestamp_ms timestamp_ns timestamp_tz : LogicalTypeId
  decimal hugeint uhugeint : LogicalTypeId
  other_type : String → LogicalTypeId

-- A DuckDB `Value`, by what its accessors return: `IsNull`, `GetValue<bool>`, `<int64_t>`,
-- `<uint64_t>`, `<double>` (as the bits of an IEEE double) and `ToString`.
pub record Value : Type 0 where
  pub type : LogicalTypeId
  pub is_null : Bool
  pub as_bool : Bool
  pub as_int : ℤ
  pub as_uint : ℕ
  pub as_double : ℕ
  pub as_text : String

-- A JSON node of yyjson
pub data Node : Type 0 where
  null : Node
  bool : Bool → Node
  sint : ℤ → Node
  uint real : ℕ → Node
  str : String → Node

-- `ValueTypeTag` of a value that is not NULL
unfoldable pub tag_of : LogicalTypeId → Option String
tag_of boolean = none
tag_of tinyint = none
tag_of smallint = none
tag_of integer = none
tag_of bigint = none
tag_of utinyint = none
tag_of usmallint = none
tag_of uinteger = none
tag_of ubigint = none
tag_of float = none
tag_of double = none
tag_of varchar = none
tag_of enum = none
tag_of date = some "date"
tag_of time = some "time"
tag_of time_tz = some "time"
tag_of timestamp = some "timestamp"
tag_of timestamp_sec = some "timestamp"
tag_of timestamp_ms = some "timestamp"
tag_of timestamp_ns = some "timestamp"
tag_of timestamp_tz = some "timestamp"
tag_of decimal = some "decimal"
tag_of hugeint = some "int"
tag_of uhugeint = some "int"
tag_of (other_type name) = some "opaque"

unfoldable pub value_type_tag : Value → Option String
unfolding tag_of
value_type_tag v = if v.is_null then none else tag_of v.type

-- `ValueNode` of a value that is not NULL
unfoldable pub node_of : LogicalTypeId → Value → Node
node_of boolean v = bool v.as_bool
node_of tinyint v = sint v.as_int
node_of smallint v = sint v.as_int
node_of integer v = sint v.as_int
node_of bigint v = sint v.as_int
node_of utinyint v = uint v.as_uint
node_of usmallint v = uint v.as_uint
node_of uinteger v = uint v.as_uint
node_of ubigint v = uint v.as_uint
node_of float v = real v.as_double
node_of double v = real v.as_double
node_of _ v = str v.as_text

unfoldable pub value_node : Value → Node
unfolding node_of
value_node v = if v.is_null then null else node_of v.type v

-- `std::isnan`: the exponent's bits are all set and the mantissa is not 0.
unfoldable pub isnan : ℕ → Bool
isnan bits = bits / 2 ^ 52 % 2 ^ 11 == 2047 && not (bits % 2 ^ 52 == 0)

unfoldable pub is_floating : LogicalTypeId → Bool
is_floating float = true
is_floating double = true
is_floating _ = false

unfoldable pub is_nan : Value → Bool
unfolding isnan is_floating
is_nan v = if v.is_null then false else is_floating v.type && isnan v.as_double

-- `ExpressionType` of a comparison
pub data Comparison : Type 0 where
  equal not_equal greater greater_equal less less_equal other_comparison : Comparison

unfoldable pub comparison_op : Comparison → String
comparison_op equal = "="
comparison_op not_equal = "!="
comparison_op greater = ">"
comparison_op greater_equal = ">="
comparison_op less = "<"
comparison_op less_equal = "<="
comparison_op other_comparison = ""

pub data FunctionName : Type 0 where
  dynamic_filter bloom_filter prefix_range : FunctionName
  named : String → FunctionName

pub data Operator : Type 0 where
  is_null_operator is_not_null_operator compare_in other_operator : Operator

-- A bound filter expression by what the code asks of it. The number stands for all that it does not
-- ask: whatever the expression computes then.
mutual
  pub data Expression : Type 0 where
    -- `GetOptionalFilterChild` gives the child.
    optional : Expression → Expression
    -- `IsRootOptionalExpression`, with no such child
    root_optional : ℕ → Expression
    -- `BOUND_FUNCTION`: its name, and what `IsComparison` and `TryGetColumnConstantComparison` give
    function : FunctionName → Option (Comparison × Value) → ℕ → Expression
    -- `BOUND_OPERATOR`: whether its first child is a plain column reference, and the children behind
    -- it, each a constant or not
    operator : Operator → Bool → List (Option Value) → ℕ → Expression
    conjunction_and : Expressions → Expression
    conjunction_or : Expressions → ℕ → Expression
    other_class : ℕ → Expression

  pub data Expressions : Type 0 where
    nil : Expressions
    cons : Expression → Expressions → Expressions

pub data FilterFidelity : Type 0 where
  exact optional_skipped unsupported : FilterFidelity

pub data ClauseValue : Type 0 where
  one : Node → ClauseValue
  many : List Node → ClauseValue

-- A clause: three elements, or four with a tag
pub record Clause : Type 0 where
  pub column : String
  pub op : String
  pub value : ClauseValue
  pub tag : Option String

pub record Rendered : Type 0 where
  pub fidelity : FilterFidelity
  pub clauses : List Clause

-- `IsInternalHintFunction`, of a function
unfoldable pub is_internal_hint : FunctionName → Bool
is_internal_hint (named name) = false
is_internal_hint _ = true

abbrev pub refuse : Rendered
refuse = record { fidelity = unsupported; clauses = [] }

abbrev pub skip : Rendered
skip = record { fidelity = optional_skipped; clauses = [] }

-- `MakeClause`
abbrev pub make_clause : String → String → ClauseValue → Option String → Clause
make_clause column op value tag = record { column = column; op = op; value = value; tag = tag }

abbrev render_one : Clause → Rendered
render_one clause = record { fidelity = exact; clauses = clause ∷ [] }

unfoldable pub render_comparison : Option (Comparison × Value) → String → Rendered
render_comparison none column = refuse
render_comparison (some (comparison, value)) column =
    if is_empty (comparison_op comparison) || is_nan value
    then refuse
    else render_one (
        make_clause column (comparison_op comparison) (one (value_node value))
          (value_type_tag value))

-- The first loop of `COMPARE_IN`: every operand is a constant other than NaN.
unfoldable pub constants : List (Option Value) → Option (List Value)
constants [] = some []
constants (none ∷ operands) = none
constants (some value ∷ operands) =
    let rest = constants operands in if is_nan value then none else cons_both (some value) rest

unfoldable pub value_nodes : List Value → List Node
value_nodes [] = []
value_nodes (value ∷ values) = value_node value ∷ value_nodes values

-- The tag of the first value that has one
unfoldable pub first_tag : List Value → Option String
first_tag [] = none
first_tag (value ∷ values) = elim (value_type_tag value) [
  | none ↦ first_tag values
  | some tag ↦ some tag
]

unfoldable pub render_in : Option (List Value) → String → Rendered
render_in none column = refuse
render_in (some values) column =
    render_one (make_clause column "in" (many (value_nodes values)) (first_tag values))

unfoldable pub render_operator : Operator → List (Option Value) → String → Rendered
unfolding constants render_in
render_operator is_null_operator operands column =
    render_one (make_clause column "is_null" (one null) none)
render_operator is_not_null_operator operands column =
    render_one (make_clause column "is_not_null" (one null) none)
render_operator compare_in operands column = render_in (constants operands) column
render_operator other_operator operands column = refuse

-- What an optional filter's child gives
unfoldable pub optional_result : Rendered → Rendered
optional_result r = elim r.fidelity [ exact ↦ r | optional_skipped ↦ r | unsupported ↦ skip ]

-- A child of a conjunction and what the later ones give. `none`: a child was refused.
unfoldable pub and_child : Rendered → Option (List Clause) → Option (List Clause)
and_child r rest = elim r.fidelity [
  | unsupported ↦ none
  | _ ↦ elim rest [ none ↦ none | some clauses ↦ some (r.clauses ++ clauses) ]
]

unfoldable pub and_result : Option (List Clause) → Rendered
and_result none = refuse
and_result (some []) = skip
and_result (some (clause ∷ clauses)) = record { fidelity = exact; clauses = clause ∷ clauses }

-- `TryBuildClauses`
unfoldable mutual
  unfolding render_comparison render_operator optional_result and_child and_result

  pub try_build_clauses : Expression → String → Rendered
  try_build_clauses (optional child) column = optional_result (try_build_clauses child column)
  try_build_clauses (root_optional i) column = skip
  try_build_clauses (function name found i) column =
      if is_internal_hint name then skip else render_comparison found column
  try_build_clauses (operator op on_column operands i) column =
      if on_column then render_operator op operands column else refuse
  try_build_clauses (conjunction_and children) column =
      and_result (try_build_children children column)
  try_build_clauses (conjunction_or children i) column = refuse
  try_build_clauses (other_class i) column = refuse

  pub try_build_children : Expressions → String → Option (List Clause)
  try_build_children nil column = some []
  try_build_children (cons child children) column =
      and_child (try_build_clauses child column) (try_build_children children column)
