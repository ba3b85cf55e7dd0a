-- ===== src/Grants/Shaping/Grafts.antt =====
-- What each graft does to the rows that a statement touches and to the values that it writes.
use duckdb_virtual_catalog.Prelude.{
  ℕ, String, ◌≡◌, refl, sym, ap, ◌∙◌, Bool, true, false, ◌&&◌, List, [], ◌∷◌, Option, none, some,
  if◌then◌else◌, ok, ok_injective, bind-eq-ok, length, arith,
}
use duckdb_virtual_catalog.Host.{StringUtil, CrossingVerb, insert, update, delete}
use duckdb_virtual_catalog.Grants.Expression.{Parsed, fill_context}
use duckdb_virtual_catalog.Grants.Seam.{
  Values, WriteTarget, Statement, insert_rows, update_rows, delete_rows, WriteStatement,
  out_of_range, point_check_at_updated_row, qualify_columns,
}
use duckdb_virtual_catalog.Grants.Shaping.{
  and_with, fill_optional, guard_first, guard_with_check, and_visible, narrow_condition,
  guard_values, graft,
}
use duckdb_virtual_catalog.Grants.Shaping.Meaning.{
  Engine, Row, holds, meaning, passes, touches, first_of, first_value, in_context, pointed_row,
  before_write,
}
use duckdb_virtual_catalog.Grants.Shaping.Rewrites.{
  fill_context-meaning, point_check_at_updated_row-meaning,
}

abbrev pub narrows : CrossingVerb → Bool
narrows update = true
narrows delete = true
narrows verb = false

abbrev pub writes_values : CrossingVerb → Bool
writes_values insert = true
writes_values update = true
writes_values verb = false

-- The keys come first in the seam of an update.
abbrev pub key_count : CrossingVerb → WriteTarget → ℕ
key_count update target = length target.key_columns
key_count verb target = 0

module _ (e : Engine) where
  pub fill_optional-passes :
      ⦃u : StringUtil⦄ (values : Values) (row : Row e) (o filled : Option Parsed)
      → fill_optional o values ≡ ok filled
      → passes e row filled ≡ passes e (in_context e values row) o
  unfolding fill_optional passes
  fill_optional-passes values row none filled h = sym (ap (passes e row) (ok_injective h))
  fill_optional-passes values row (some expr) filled h =
      let (filled', p, h') = bind-eq-ok (fill_context expr values) _ h in
      sym (ap (passes e row) (ok_injective h'))
      ∙ ap (holds e.is_true) (fill_context-meaning e values row expr filled' p)

  and_with-passes :
      (row : Row e) (left : Option Parsed) (right : Parsed)
      → passes e row (some (and_with left right)) ≡ (passes e row left && passes e row (some right))
  unfolding and_with passes meaning
  and_with-passes row none right = refl
  and_with-passes row (some left) right = e.conjoin_holds (meaning e row left) (meaning e row right)

  pub and_visible-passes :
      (row : Row e) (visible own : Option Parsed)
      → passes e row (and_visible visible own) ≡ (passes e row visible && passes e row own)
  unfolding and_visible passes
  and_visible-passes row none own = refl
  and_visible-passes row (some v) none = ground arith
  and_visible-passes row (some v) (some p) = and_with-passes row (some v) p

  module _ (same_column : String → String → Bool) (built : WriteStatement) (row : Row e) where
    narrow_condition-passes :
        (condition using_predicate : Option Parsed) (table : String) (narrowed : Option Parsed)
        → narrow_condition same_column condition using_predicate table built ≡ ok narrowed
        → passes e row narrowed ≡ (
            passes e row condition
            && passes e (before_write e same_column table built row) using_predicate)
    unfolding narrow_condition qualify_columns passes
    narrow_condition-passes condition none table narrowed h =
        ap (passes e row) (sym (ok_injective h)) ∙ ground arith
    narrow_condition-passes condition (some p) table narrowed h =
        let (qualified, q, h') =
          bind-eq-ok (point_check_at_updated_row same_column p table [] built 0) _ h in
        ap (passes e row) (sym (ok_injective h'))
        ∙ and_with-passes row condition qualified
        ∙ ap (λ m. passes e row condition && holds e.is_true m)
            (point_check_at_updated_row-meaning e same_column table [] built 0 row p qualified q)

    -- A written value, where the check holds of the pointed row
    guard_values-first_of :
        (exprs : List Parsed) (check : Option Parsed) (target : WriteTarget) (keys : ℕ)
        (guarded : List Parsed)
        → guard_values same_column exprs check target built keys ≡ ok guarded
        → first_of e row guarded ≡ (
            if passes e
              (pointed_row e same_column target.table target.set_columns built keys row)
              check
            then first_of e row exprs
            else none)
    unfolding guard_values guard_first guard_with_check passes meaning out_of_range
    guard_values-first_of exprs none target keys guarded h =
        ap (first_of e row) (sym (ok_injective h))
    guard_values-first_of exprs (some check) target keys guarded h =
        let (pointed, q, h') =
          bind-eq-ok
            (point_check_at_updated_row same_column check target.table target.set_columns built
              keys)
            _ h in
        first exprs pointed
          (point_check_at_updated_row-meaning e same_column target.table target.set_columns built
            keys row check pointed q)
          h'
      where
        first :
            (exprs : List Parsed) (pointed : Parsed)
            → meaning e row pointed
              ≡ meaning e
                  (pointed_row e same_column target.table target.set_columns built keys row)
                  check
            → guard_first pointed exprs ≡ ok guarded
            → first_of e row guarded ≡ (
                if passes e
                  (pointed_row e same_column target.table target.set_columns built keys row)
                  (some check)
                then first_of e row exprs
                else none)
        first [] pointed m h = ground arith
        first (expr ∷ exprs) pointed m h =
            ap (first_of e row) (sym (ok_injective h))
            ∙ ap (λ b. if holds e.is_true b then meaning e row expr else none) m

    pub graft-touches :
        (verb : CrossingVerb) (using_predicate check : Option Parsed) (target : WriteTarget)
        (statement grafted : Statement)
        → narrows verb ≡ true
        → graft same_column verb using_predicate check target built statement ≡ ok grafted
        → touches e row grafted ≡ (
            touches e row statement
            && passes e (before_write e same_column target.table built row) using_predicate)
    unfolding graft touches out_of_range
    graft-touches update p check target (update_rows condition exprs) grafted n h =
        let (condition', q, h') =
          bind-eq-ok (narrow_condition same_column condition p target.table built) _ h in
        let (exprs', _, h'') =
          bind-eq-ok (guard_values same_column exprs check target built _) _ h' in
        ap (touches e row) (sym (ok_injective h''))
        ∙ narrow_condition-passes condition p target.table condition' q
    graft-touches delete p check target (delete_rows condition) grafted n h =
        let (condition', q, h') =
          bind-eq-ok (narrow_condition same_column condition p target.table built) _ h in
        ap (touches e row) (sym (ok_injective h'))
        ∙ narrow_condition-passes condition p target.table condition' q
    graft-touches verb p check target statement grafted n h = cc

    pub graft-first_value :
        (verb : CrossingVerb) (using_predicate check : Option Parsed) (target : WriteTarget)
        (statement grafted : Statement)
        → writes_values verb ≡ true
        → graft same_column verb using_predicate check target built statement ≡ ok grafted
        → first_value e row grafted ≡ (
            if passes e
              (pointed_row e same_column target.table target.set_columns built
                (key_count verb target)
                row)
              check
            then first_value e row statement
            else none)
    unfolding graft first_value out_of_range
    graft-first_value insert p check target (insert_rows exprs) grafted n h =
        let (exprs', q, h') =
          bind-eq-ok (guard_values same_column exprs check target built 0) _ h in
        ap (first_value e row) (sym (ok_injective h'))
        ∙ guard_values-first_of exprs check target 0 exprs' q
    graft-first_value update p check target (update_rows condition exprs) grafted n h =
        let (condition', q, h') =
          bind-eq-ok (narrow_condition same_column condition p target.table built) _ h in
        let (exprs', q', h'') =
          bind-eq-ok (guard_values same_column exprs check target built _) _ h' in
        ap (first_value e row) (sym (ok_injective h''))
        ∙ guard_values-first_of exprs check target (length target.key_columns) exprs' q'
    graft-first_value verb p check target statement grafted n h = cc
