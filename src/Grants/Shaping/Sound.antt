-- ===== src/Grants/Shaping/Sound.antt =====
-- The statements that the code builds touch the rows, and write the values, that the policies let them.
use duckdb_virtual_catalog.Prelude.{
  String, ◌≡◌, refl, sym, ap, ◌∙◌, Bool, true, false, not, ◌&&◌, Option, none, some, if◌then◌else◌,
  ok, ok_injective, bind-eq-ok, arith, Bool-cases, inl, inr,
}
use duckdb_virtual_catalog.Host.{StringUtil, Crossing, CrossingVerb, select}
use duckdb_virtual_catalog.Grants.Expression.{Parsed, fill_context}
use duckdb_virtual_catalog.Grants.Tables.{GrantTables, is_granted, using_for, check_for}
use duckdb_virtual_catalog.Grants.Seam.{Values, WriteTarget, WriteStatement}
use duckdb_virtual_catalog.Grants.Shaping.{
  fill_optional, and_visible, graft, is_insert, reads_rows, check_reads, using_predicate_of, shape,
  policy_shaper, deny_select, Floor, PolicySelect, select_behind, stand_behind, policy_resolver,
}
use duckdb_virtual_catalog.Grants.Shaping.Meaning.{
  Engine, Row, holds, meaning, passes, touches, in_context, after_write, before_write,
}
use duckdb_virtual_catalog.Grants.Shaping.Rewrites.{fill_context-meaning}
use duckdb_virtual_catalog.Grants.Shaping.Grafts.{
  narrows, key_count, fill_optional-passes, and_visible-passes, graft-touches,
}

narrows-is_insert : (verb : CrossingVerb) → narrows verb ≡ true → is_insert verb ≡ false
narrows-is_insert verb n = ground arith

and_true : (b : Bool) → (b && true) ≡ b
and_true b = ground arith

choose_passes :
    (e : Engine) (row : Row e) (reads is_insert : Bool) (visible own : Option Parsed)
    → is_insert ≡ false
    → passes e row (if reads && not is_insert then and_visible visible own else own)
      ≡ ((if reads then passes e row visible else true) && passes e row own)
choose_passes e row true is_insert visible own h = rw h (and_visible-passes e row visible own)
choose_passes e row false is_insert visible own h = refl

module _ ⦃u : StringUtil⦄ ⦃c : Crossing⦄ (e : Engine) (same_column : String → String → Bool)
    (values : Values) (target : WriteTarget) (built : WriteStatement) (row : Row e) where
  -- The row before the write passes the USING predicate of a verb.
  abbrev pub is_visible_for : GrantTables → CrossingVerb → Bool
  is_visible_for tables verb =
      passes e (in_context e values (before_write e same_column target.table built row))
        (using_for tables target.schema target.table verb)

  -- The row after the write passes the check of the verb.
  abbrev pub is_accepted : GrantTables → Bool
  is_accepted tables =
      passes e
        (in_context e values (
          after_write e same_column target.table target.set_columns built
            (key_count target.verb target) row))
        (check_for tables target.schema target.table target.verb)

  using_predicate_of-passes :
      (tables : GrantTables)
      → narrows target.verb ≡ true
      → passes e
          (in_context e values (before_write e same_column target.table built row))
          (using_predicate_of tables target)
        ≡ ((if target.reads_rows then is_visible_for tables select else true)
            && is_visible_for tables target.verb)
  unfolding using_predicate_of reads_rows
  using_predicate_of-passes tables n =
      choose_passes e (in_context e values (before_write e same_column target.table built row))
        target.reads_rows (is_insert target.verb) _ _ (narrows-is_insert target.verb n)

  check_reads-is_granted :
      (tables : GrantTables) (checked : Unit {0})
      → narrows target.verb ≡ true
      → check_reads tables target ≡ ok checked
      → (target.reads_rows && not (is_granted tables target.schema target.table select)) ≡ false
  unfolding check_reads reads_rows deny_select
  check_reads-is_granted tables checked n h =
      let writes : is_insert target.verb ≡ false = narrows-is_insert target.verb n in
      elim (Bool-cases
        (target.reads_rows && not (is_granted tables target.schema target.table select))) [
          | inr passed ↦ passed
          | inl denied ↦ cc (rw (writes, and_true target.reads_rows, denied) at h)
        ]

  -- A planned UPDATE or DELETE that is shaped touches a row exactly if the statement as planned does, the
  -- row passes the USING predicate of the verb and, where the statement reads rows, also the one for
  -- select; and then select was granted when it was planned.
  pub policy_shaper-touches :
      (tables later : GrantTables) (shaped : WriteStatement)
      → narrows target.verb ≡ true
      → policy_shaper same_column tables later values target built ≡ ok shaped
      → (touches e row shaped.statement ≡ (
          touches e row built.statement
          && ((if target.reads_rows then is_visible_for later select else true)
              && is_visible_for later target.verb)))
        × ((target.reads_rows && not (is_granted tables target.schema target.table select)) ≡ false)
  unfolding policy_shaper shape check_reads reads_rows
  policy_shaper-touches tables later shaped n h =
      let (checked, r, h') = bind-eq-ok (check_reads tables target) _ h in
      let (p, q, h'') = bind-eq-ok (fill_optional (using_predicate_of later target) values) _ h' in
      let (check, _, h3) =
        bind-eq-ok (fill_optional (check_for later target.schema target.table target.verb) values) _
          h'' in
      let (statement, g, h4) =
        bind-eq-ok (graft same_column target.verb p check target built built.statement) _ h3 in
      (
        ap (λ s. touches e row s.statement) (sym (ok_injective h4))
            ∙ graft-touches e same_column built row target.verb p check target built.statement
                statement n g
            ∙ ap (λ b. touches e row built.statement && b)
                (fill_optional-passes e values (before_write e same_column target.table built row) _
                    p q
                  ∙ using_predicate_of-passes later n),
        check_reads-is_granted tables checked n r,
      )

module _ ⦃u : StringUtil⦄ ⦃c : Crossing⦄ (e : Engine) (row : Row e) where
  -- What is read of a table shows the row.
  abbrev pub shows : Option PolicySelect → Bool
  shows none = true
  shows (some read) = holds e.is_true (meaning e row read.where_clause)

  stand_behind-shows :
      (values : Values) (floor : Floor) (o : Option Parsed) (read : Option PolicySelect)
      → stand_behind floor o values ≡ ok read
      → shows read ≡ passes e (in_context e values row) o
  unfolding stand_behind select_behind passes
  stand_behind-shows values floor none read h = ap shows (sym (ok_injective h))
  stand_behind-shows values floor (some expr) read h =
      let (filled, p, h') = bind-eq-ok (fill_context expr values) _ h in
      ap shows (sym (ok_injective h'))
      ∙ ap (holds e.is_true) (fill_context-meaning e values row expr filled p)

  -- A table that is resolved is granted for select, and what is read of it shows exactly the rows that
  -- pass the USING predicate of select in the context.
  pub policy_resolver-shows :
      (tables : GrantTables) (values : Values) (floor : Floor) (read : Option PolicySelect)
      → policy_resolver tables values floor ≡ ok read
      → (is_granted tables floor.schema floor.table select ≡ true)
        × (shows read
            ≡ passes e (in_context e values row) (using_for tables floor.schema floor.table select))
  unfolding policy_resolver deny_select
  policy_resolver-shows tables values floor read h =
      elim (Bool-cases (is_granted tables floor.schema floor.table select)) [
        | inr denied ↦ cc (rw denied at h)
        | inl granted ↦ (granted, stand_behind-shows values floor _ read (rw granted at h))
      ]
