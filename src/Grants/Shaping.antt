-- ===== src/Grants/Shaping.antt =====
-- bridge/duckdb_source.cpp: how the policies are grafted onto the reads and writes that a target plans.
pub mod Meaning
pub mod Rewrites
pub mod Columns
pub mod Grafts
pub mod Sound
mod Tests
use duckdb_virtual_catalog.Prelude.{
  ℕ, suc, ◌+◌, String, Bool, true, false, not, ◌&&◌, List, [], ◌∷◌, Option, none, some,
  if◌then◌else◌, Result, ok, err, internal, permission, ◌>>=◌, ◌>>◌, ◌<>◌, length,
}
use duckdb_virtual_catalog.Host.{
  StringUtil, Crossing, CrossingVerb, select, insert, update, delete, alter, create, drop,
}
use duckdb_virtual_catalog.Grants.Expression.{
  Parsed, column_ref, guard, conjunction_and, fill_context,
}
use duckdb_virtual_catalog.Grants.Tables.{GrantTables, is_granted, using_for, check_for}
use duckdb_virtual_catalog.Grants.Seam.{
  Values, WriteTarget, Statement, insert_rows, update_rows, delete_rows, WriteStatement,
  out_of_range, point_check_at_updated_row, qualify_columns,
}

-- `GuardWithCheck`
unfoldable pub guard_with_check : Parsed → Parsed → Parsed
guard_with_check check value =
    guard check value "vcatbridge: row violates the check predicate on this table"

-- `And`
unfoldable pub and_with : Option Parsed → Parsed → Parsed
and_with none right = right
and_with (some left) right = conjunction_and left right

unfoldable pub fill_optional : ⦃u : StringUtil⦄ → Option Parsed → Values → Result (Option Parsed)
unfolding fill_context
fill_optional none values = ok none
fill_optional (some expr) values = do filled ← fill_context expr values; ok (some filled)

-- The first written value is guarded.
unfoldable pub guard_first : Parsed → List Parsed → Result (List Parsed)
unfolding guard_with_check out_of_range
guard_first check [] = out_of_range
guard_first check (value ∷ values) = ok (guard_with_check check value ∷ values)

-- A select policy comes in front of the policy of the write.
unfoldable pub and_visible : Option Parsed → Option Parsed → Option Parsed
unfolding and_with
and_visible none using_predicate = using_predicate
and_visible (some visible) none = some visible
and_visible (some visible) (some using_predicate) = some (and_with (some visible) using_predicate)

module _ (same_column : String → String → Bool) where
  unfoldable pub narrow_condition :
      Option Parsed → Option Parsed → String → WriteStatement → Result (Option Parsed)
  unfolding qualify_columns and_with
  narrow_condition condition none table built = ok condition
  narrow_condition condition (some using_predicate) table built = do
    qualified ← qualify_columns same_column using_predicate table built
    ok (some (and_with condition qualified))

  unfoldable pub guard_values :
      List Parsed → Option Parsed → WriteTarget → WriteStatement → ℕ → Result (List Parsed)
  unfolding point_check_at_updated_row guard_first
  guard_values values none target built key_count = ok values
  guard_values values (some check) target built key_count = do
    pointed ←
        point_check_at_updated_row same_column check target.table target.set_columns built key_count
    guard_first pointed values

  -- The `switch` of `PolicyShaper`, for a statement of the verb
  unfoldable pub graft :
      CrossingVerb
      → Option Parsed
      → Option Parsed
      → WriteTarget
      → WriteStatement
      → Statement
      → Result Statement
  unfolding narrow_condition guard_values out_of_range
  graft insert using_predicate check target built (insert_rows select_list) = do
    select_list' ← guard_values select_list check target built 0
    ok (insert_rows select_list')
  graft update using_predicate check target built (update_rows condition expressions) = do
    condition' ← narrow_condition condition using_predicate target.table built
    expressions' ← guard_values expressions check target built (length target.key_columns)
    ok (update_rows condition' expressions')
  graft delete using_predicate check target built (delete_rows condition) = do
    condition' ← narrow_condition condition using_predicate target.table built
    ok (delete_rows condition')
  graft select using_predicate check target built statement = ok statement
  graft alter using_predicate check target built statement = ok statement
  graft create using_predicate check target built statement = ok statement
  graft drop using_predicate check target built statement = ok statement
  -- a cast to a statement of another kind
  graft verb using_predicate check target built statement = out_of_range

abbrev pub is_insert : CrossingVerb → Bool
is_insert insert = true
is_insert verb = false

-- What crossing plans to read (`CrossingFloor`), and `SELECT <columns> FROM <table> WHERE <using>`
pub record Floor : Type 0 where
  pub schema : String
  pub table : String
  pub column_names : List String

pub record PolicySelect : Type 0 where
  pub select_list : List Parsed
  pub schema : String
  pub table : String
  pub where_clause : Parsed

unfoldable pub columns_of : String → List String → List Parsed
columns_of table [] = []
columns_of table (column ∷ columns) = column_ref (some table) column ∷ columns_of table columns

unfoldable pub select_behind : Floor → Parsed → PolicySelect
unfolding columns_of
select_behind floor using_predicate = record {
  select_list = columns_of floor.table floor.column_names;
  schema = floor.schema;
  table = floor.table;
  where_clause = using_predicate;
}

module _ ⦃u : StringUtil⦄ ⦃c : Crossing⦄ where
  unfoldable pub deny_select : {A : Type 0} → String → String → Result A
  deny_select schema table = err (record {
    type = permission;
    message = "vcatbridge: '" <> schema <> "." <> table <> "' does not have 'select' permission";
  })

  unfoldable pub stand_behind : Floor → Option Parsed → Values → Result (Option PolicySelect)
  unfolding fill_context select_behind
  stand_behind floor none values = ok none
  stand_behind floor (some using_predicate) values = do
    filled ← fill_context using_predicate values
    ok (some (select_behind floor filled))

  -- The call of the function that `PolicyResolver` returns. `none`: the table itself is read.
  unfoldable pub policy_resolver : GrantTables → Values → Floor → Result (Option PolicySelect)
  unfolding is_granted using_for stand_behind deny_select
  policy_resolver tables values floor =
      let read = stand_behind floor (using_for tables floor.schema floor.table select) values in
      if is_granted tables floor.schema floor.table select
      then read
      else deny_select floor.schema floor.table

  -- An INSERT does not read the rows that it writes.
  unfoldable pub reads_rows : WriteTarget → Bool
  reads_rows target = target.reads_rows && not (is_insert target.verb)

  -- `PolicyShaper`, before it returns the function that shapes the statement
  unfoldable pub check_reads : GrantTables → WriteTarget → Result (Unit {0})
  unfolding is_granted reads_rows deny_select
  check_reads tables target =
      if reads_rows target && not (is_granted tables target.schema target.table select)
      then deny_select target.schema target.table
      else ok tt

  unfoldable pub using_predicate_of : GrantTables → WriteTarget → Option Parsed
  unfolding using_for reads_rows and_visible
  using_predicate_of tables target =
      let own = using_for tables target.schema target.table target.verb in
      let visible = using_for tables target.schema target.table select in
      if reads_rows target then and_visible visible own else own

  -- The call of the function that `PolicyShaper` returns
  unfoldable pub shape :
      (String → String → Bool)
      → GrantTables
      → Values
      → WriteTarget
      → WriteStatement
      → Result WriteStatement
  unfolding using_predicate_of check_for fill_optional graft
  shape same_column tables values target built = do
    using_predicate ← fill_optional (using_predicate_of tables target) values
    check ← fill_optional (check_for tables target.schema target.table target.verb) values
    statement ← graft same_column target.verb using_predicate check target built built.statement
    ok (record built { statement = statement })

  -- A write is planned with the grants of one moment, and shaped with those of a later one.
  unfoldable pub policy_shaper :
      (String → String → Bool)
      → GrantTables
      → GrantTables
      → Values
      → WriteTarget
      → WriteStatement
      → Result WriteStatement
  unfolding check_reads shape
  policy_shaper same_column tables later values target built =
      check_reads tables target >> shape same_column later values target built
