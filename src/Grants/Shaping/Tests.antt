-- ===== src/Grants/Shaping/Tests.antt =====
-- Runs of the shaper and the resolver on an UPDATE of one column, and their theorems there.
use duckdb_virtual_catalog.Prelude.{
  ℕ, String, ◌≡◌, refl, Bool, true, false, ◌&&◌, not, [], ◌∷◌, Option, none, some, ok, ◌==◌, ◌≟◌,
  if◌then◌else◌, arith,
}
use duckdb_virtual_catalog.Host.{select, update}
use duckdb_virtual_catalog.Samples.{ascii, verb_table, ci_equals}
use duckdb_virtual_catalog.Policy.Name.{PolicyName}
use duckdb_virtual_catalog.Grants.Expression.{
  column_ref, parameter, constant, conjunction_and, guard,
}
use duckdb_virtual_catalog.Grants.Tables.{GrantTables, empty_policy, is_granted}
use duckdb_virtual_catalog.Grants.Edits.{edit_verb}
use duckdb_virtual_catalog.Grants.Seam.{Values, WriteTarget, update_rows, WriteStatement}
use duckdb_virtual_catalog.Grants.Shaping.{Floor, PolicySelect, policy_shaper, policy_resolver}
use duckdb_virtual_catalog.Grants.Shaping.Meaning.{
  Engine, Row, holds, passes, touches, is_qualified,
}
use duckdb_virtual_catalog.Grants.Shaping.Sound.{
  is_visible_for, shows, policy_shaper-touches, policy_resolver-shows,
}

-- Numbers, of which 1 is true
abbrev is_one : ℕ → Bool
is_one v = v == 1

abbrev both : Bool → Option ℕ
both true = some 1
both false = some 0

holds-both : (b : Bool) → holds is_one (both b) ≡ b
holds-both b = ground arith

abbrev engine : Engine
engine = record {
  Value = ℕ;
  literal = λ v. v;
  is_true = is_one;
  conjoin = λ a b. both (holds is_one a && holds is_one b);
  apply = λ operation args. some operation;
  conjoin_holds = λ a b. holds-both (holds is_one a && holds is_one b);
}

abbrev orders : PolicyName
orders = record { catalog = ""; schema = "main"; name = "orders" }

-- `orders` may be read where `mine` holds, and updated to rows where `open` does.
abbrev tables : GrantTables
tables =
    (edit_verb orders update
      (some (
        record {
          granted = true;
          using_predicate = some (parameter "all");
          check_predicate = some (column_ref none "open");
          unrestricted = false;
        },
        record { discovered_key = []; foreign_key_parents = [] },
      ))
      (edit_verb orders select
        (some (
          record {
            granted = true;
            using_predicate = some (column_ref none "mine");
            check_predicate = none;
            unrestricted = false;
          },
          record { discovered_key = []; foreign_key_parents = [] },
        ))
        empty_policy)).tables

abbrev values : Values
values = ("ALL", 1) ∷ []

abbrev target : WriteTarget
target = record {
  verb = update;
  schema = "main";
  table = "orders";
  set_columns = "open" ∷ [];
  key_columns = "id" ∷ [];
  reads_rows = true;
}

abbrev planned : WriteStatement
planned = record {
  statement =
      update_rows (some (column_ref (some "seam") "k0")) (column_ref (some "seam") "v0" ∷ []);
  seam_alias = "seam";
  seam_columns = "k0" ∷ "v0" ∷ [];
}

abbrev shaped : WriteStatement
shaped = record planned {
  statement =
      update_rows
        (some (
          conjunction_and (column_ref (some "seam") "k0")
            (conjunction_and (column_ref (some "orders") "mine") (constant 1))))
        (guard (column_ref (some "seam") "v0") (column_ref (some "seam") "v0")
            "vcatbridge: row violates the check predicate on this table"
          ∷ []);
}

-- Every column of the seam holds, and none of the table.
abbrev row : Row engine
row = record {
  column = λ qualifier name. elim qualifier [
    | none ↦ some 0
    | some q ↦ if q ≟ "seam" then some 1 else some 0
  ];
  context = λ name. none;
}

abbrev floor : Floor
floor = record { schema = "main"; table = "orders"; column_names = "id" ∷ "open" ∷ [] }

abbrev read : PolicySelect
read = record {
  select_list = column_ref (some "orders") "id" ∷ column_ref (some "orders") "open" ∷ [];
  schema = "main";
  table = "orders";
  where_clause = column_ref none "mine";
}

shaping : Unit {0}
unfolding policy_shaper policy_resolver edit_verb ci_equals passes is_qualified
shaping = tt

abbrev same : String → String → Bool
same a b = a ≟ b

shaping_tests :
    (policy_shaper same tables tables values target planned ≡ ok shaped)
    × (policy_resolver tables values floor ≡ ok (some read))
unfolding shaping
shaping_tests = (refl, refl)

policy_shaper-touches_example :
    (touches engine row shaped.statement ≡ (
      touches engine row planned.statement
      && (is_visible_for engine same values target planned row tables select
          && is_visible_for engine same values target planned row tables update)))
    × (not (is_granted tables "main" "orders" select) ≡ false)
unfolding shaping
policy_shaper-touches_example =
    policy_shaper-touches engine same values target planned row tables tables shaped refl refl

policy_resolver-shows_example :
    (is_granted tables "main" "orders" select ≡ true) × (shows engine row (some read) ≡ false)
unfolding shaping
policy_resolver-shows_example =
    policy_resolver-shows engine row tables values floor (some read) refl

-- A check that qualifies its column: the guard reads it of the table, before the write.
abbrev qualified_tables : GrantTables
qualified_tables =
    (edit_verb orders update
      (some (
        record {
          granted = true;
          using_predicate = none;
          check_predicate = some (column_ref (some "orders") "open");
          unrestricted = false;
        },
        record { discovered_key = []; foreign_key_parents = [] },
      ))
      empty_policy).tables

abbrev blind : WriteTarget
blind = record target { reads_rows = false }

qualified_test :
    policy_shaper same qualified_tables qualified_tables values blind planned
    ≡ ok (record planned {
      statement = update_rows (some (column_ref (some "seam") "k0")) (
          guard
            (column_ref (some "orders") "open")
            (column_ref (some "seam") "v0")
            "vcatbridge: row violates the check predicate on this table"
          ∷ []);
    })
unfolding shaping
qualified_test = refl
