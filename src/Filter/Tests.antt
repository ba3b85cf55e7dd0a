-- ===== src/Filter/Tests.antt =====
-- Runs of the filter serialization, and its theorem at a concrete filter set.
use duckdb_virtual_catalog.Prelude.{
  ℕ, pos, String, ◌≡◌, refl, ◌⊎◌, inl, inr, Bool, true, false, [], ◌∷◌, Option, none, some, ltb,
  leb, ◌==◌, Bool-cases, if◌then◌else◌,
}
use duckdb_virtual_catalog.Filter.{
  LogicalTypeId, boolean, tinyint, smallint, integer, bigint, utinyint, usmallint, uinteger,
  ubigint, float, double, varchar, enum, date, time, time_tz, timestamp, timestamp_sec,
  timestamp_ms, timestamp_ns, timestamp_tz, decimal, hugeint, uhugeint, other_type, Value, Node,
  uint, Comparison, equal, greater, less_equal, named, Expression, optional, function, operator,
  compare_in, conjunction_and, conjunction_or, nil, cons, value_node, node_of, value_type_tag,
  value_nodes, first_tag, is_internal_hint, comparison_op, is_nan, one, many, try_build_clauses,
  refuse,
}
use duckdb_virtual_catalog.Filter.Meaning.{
  Cells, Reader, all_constants, clause_passes, rebuild_all, any_read, any_equal,
}
use duckdb_virtual_catalog.Filter.Whole.{
  expression_filter, TableFilterSet, serialize_filters_into, no_clauses,
}
use duckdb_virtual_catalog.Filter.Whole.Rows.{Row, set_passes, set_passes_mandatory, row_read}
use duckdb_virtual_catalog.Filter.Whole.Sound.{serialize_filters_into_sound}

-- Opens all that a run computes with.
serialization : Unit {0}
unfolding serialize_filters_into try_build_clauses is_internal_hint comparison_op is_nan value_node
    value_type_tag value_nodes first_tag clause_passes rebuild_all any_read any_equal
serialization = tt

abbrev small_value : ℕ → Value
small_value n = record {
  type = ubigint;
  is_null = false;
  as_bool = false;
  as_int = pos 0;
  as_uint = n;
  as_double = 0;
  as_text = "";
}

-- DuckDB's comparisons of a column of numbers in which `none` is NaN, above every number
abbrev small_compares : Comparison → Option ℕ → ℕ → Bool
small_compares greater none y = true
small_compares k none y = false
small_compares equal (some x) y = x == y
small_compares greater (some x) y = ltb y x
small_compares less_equal (some x) y = leb x y
small_compares k (some x) y = false

-- The comparisons of the reader, where NaN is not above a number
abbrev read_compares : Comparison → Option ℕ → ℕ → Bool
read_compares k none y = false
read_compares k (some x) y = small_compares k (some x) y

-- A column of numbers that is never NULL
abbrev small_cells : Cells
small_cells = record {
  Cell = Option ℕ;
  compares = λ k x v. small_compares k x v.as_uint;
  is_null = λ x. false;
  computes = λ i x. false;
}

abbrev is_number : Option ℕ → Bool
is_number none = false
is_number (some x) = true

read_compares_eq :
    (k : Comparison) (x : Option ℕ) (y : ℕ)
    → is_number x ≡ true
    → read_compares k x y ≡ small_compares k x y
read_compares_eq k none y h = cc
read_compares_eq k (some x) y h = refl

-- A reader that knows unsigned numbers alone
abbrev small_rebuild : Node → Option String → Option ℕ
small_rebuild (uint n) tag = some n
small_rebuild node tag = none

abbrev IsFaithful : Node → Value → Type 0
IsFaithful node v =
    (small_rebuild node none ≡ none)
    ⊎ ((w : ℕ) × (small_rebuild node none ≡ some w)
        × ((k : Comparison) (x : Option ℕ)
            → is_number x ≡ true
            → read_compares k x w ≡ small_compares k x v.as_uint))

node_of-IsFaithful : (t : LogicalTypeId) (v : Value) → IsFaithful (node_of t v) v
unfolding node_of
node_of-IsFaithful boolean v = inl refl
node_of-IsFaithful tinyint v = inl refl
node_of-IsFaithful smallint v = inl refl
node_of-IsFaithful integer v = inl refl
node_of-IsFaithful bigint v = inl refl
node_of-IsFaithful utinyint v = inr (v.as_uint, refl, λ k x. read_compares_eq k x v.as_uint)
node_of-IsFaithful usmallint v = inr (v.as_uint, refl, λ k x. read_compares_eq k x v.as_uint)
node_of-IsFaithful uinteger v = inr (v.as_uint, refl, λ k x. read_compares_eq k x v.as_uint)
node_of-IsFaithful ubigint v = inr (v.as_uint, refl, λ k x. read_compares_eq k x v.as_uint)
node_of-IsFaithful float v = inl refl
node_of-IsFaithful double v = inl refl
node_of-IsFaithful varchar v = inl refl
node_of-IsFaithful enum v = inl refl
node_of-IsFaithful date v = inl refl
node_of-IsFaithful time v = inl refl
node_of-IsFaithful time_tz v = inl refl
node_of-IsFaithful timestamp v = inl refl
node_of-IsFaithful timestamp_sec v = inl refl
node_of-IsFaithful timestamp_ms v = inl refl
node_of-IsFaithful timestamp_ns v = inl refl
node_of-IsFaithful timestamp_tz v = inl refl
node_of-IsFaithful decimal v = inl refl
node_of-IsFaithful hugeint v = inl refl
node_of-IsFaithful uhugeint v = inl refl
node_of-IsFaithful (other_type name) v = inl refl

rebuild_any_tag :
    (node : Node) (tag : Option String) → small_rebuild node tag ≡ small_rebuild node none
rebuild_any_tag Node.null tag = refl
rebuild_any_tag (Node.bool b) tag = refl
rebuild_any_tag (Node.sint n) tag = refl
rebuild_any_tag (uint n) tag = refl
rebuild_any_tag (Node.real n) tag = refl
rebuild_any_tag (Node.str s) tag = refl

value_node-IsFaithful : (v : Value) → IsFaithful (value_node v) v
unfolding value_node
value_node-IsFaithful v = elim (Bool-cases v.is_null) [
  | inl null ↦ simp (null) (inl refl)
  | inr present ↦ simp (present) (node_of-IsFaithful v.type v)
]

abbrev small_reader : Reader small_cells
small_reader = record {
  Read = ℕ;
  rebuild = small_rebuild;
  compares = read_compares;
  is_in = λ x ws. any_read (read_compares equal x) ws;
  is_plain = λ x v. is_number x;
  faithful = λ v tag sane typed. rw (rebuild_any_tag (value_node v) tag) (value_node-IsFaithful v);
  is_in_plain = λ x values tag ws plain h. refl;
}

-- `size > 5 AND size IN (7, 9)` and an optional disjunction
abbrev size_filter : Expression
size_filter = conjunction_and (
    cons (function (named ">") (some (greater, small_value 5)) 0) (
      cons (operator compare_in true (some (small_value 7) ∷ some (small_value 9) ∷ []) 0)
        (cons (optional (conjunction_or nil 9)) nil)))

abbrev size_set : TableFilterSet
size_set = record {
  multi_column = record { is_optional = true; computation = 0 } ∷ [];
  entries = (0, expression_filter size_filter) ∷ [];
}

abbrev size_column : ℕ → Option ℕ
size_column i = if i == 0 then some 1 else none

abbrev size_row : Row small_cells
size_row = record { at_index = λ i. some 9; at_name = λ name. some 9; computes_over = λ i. true }

filter_tests :
    (serialize_filters_into size_set size_column ("id" ∷ "size" ∷ []) no_clauses ≡ record {
      arr =
          record { column = "size"; op = ">"; value = one (uint 5); tag = none }
          ∷ record { column = "size"; op = "in"; value = many (uint 7 ∷ uint 9 ∷ []); tag = none }
          ∷ [];
      result = record { all_exact = true; first_unsupported = "" };
    })
    × (try_build_clauses (conjunction_or nil 0) "size" ≡ refuse)
unfolding serialization
filter_tests = (refl, refl)

serialize_filters_into_sound_example :
    (set_passes small_cells size_row size_set ≡ true → true ≡ true)
    × (true ≡ true → set_passes_mandatory small_cells size_row size_set ≡ true)
unfolding serialization row_read all_constants
serialize_filters_into_sound_example =
    serialize_filters_into_sound small_cells small_reader size_row size_set size_column
      ("id" ∷ "size" ∷ []) (λ index col h. refl)
      (((refl, (((inr refl, (inr refl, tt)), (refl, (refl, tt))), (tt, tt))), tt)) refl true refl
