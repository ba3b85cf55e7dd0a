-- ===== src/Grants/Shaping/Rewrites.antt =====
-- What the rewritings of an expression do to its meaning.
use duckdb_virtual_catalog.Prelude.{
  ℕ, ◌+◌, String, ◌≡◌, refl, sym, ap, ◌∙◌, Bool, List, ◌∷◌, Option, none, some, if◌then◌else◌, ok,
  ok_injective, bind-eq-ok,
}
use duckdb_virtual_catalog.Host.{StringUtil}
use duckdb_virtual_catalog.CaseInsensitive.{find}
use duckdb_virtual_catalog.Grants.Expression.{
  Parsed, ParsedList, column_ref, parameter, constant, guard, conjunction_and, other, nil, cons,
  fill_context, fill_all_context, fill_parameter,
}
use duckdb_virtual_catalog.Grants.Seam.{
  Values, WriteStatement, at_index, index_of, point_column, point_check_at_updated_row,
  point_all_at_updated_row,
}
use duckdb_virtual_catalog.Grants.Shaping.Meaning.{
  Engine, Row, holds, literal_of, meaning, meanings, in_context, seam_value, value_after,
  pointed_row,
}

pub ap_both :
    {A B C : Type 0} (f : A → B → C) {a a' : A} {b b' : B} → a ≡ a' → b ≡ b' → f a b ≡ f a' b'
ap_both f p q = rw (p, q) refl

module _ (e : Engine) where
  module _ ⦃u : StringUtil⦄ (values : Values) (row : Row e) where
    fill_parameter-meaning :
        (name : String) (o : Option ℕ) (filled : Parsed)
        → fill_parameter name o ≡ ok filled
        → meaning e row filled ≡ literal_of e o
    unfolding fill_parameter meaning
    fill_parameter-meaning name none filled h = cc
    fill_parameter-meaning name (some v) filled h = sym (ap (meaning e row) (ok_injective h))

    mutual
      unfolding fill_context meaning

      -- Filling in the values of a context is reading the expression in that context.
      pub fill_context-meaning :
          (expr filled : Parsed)
          → fill_context expr values ≡ ok filled
          → meaning e row filled ≡ meaning e (in_context e values row) expr
      fill_context-meaning (column_ref qualifier name) filled h =
          sym (ap (meaning e row) (ok_injective h))
      fill_context-meaning (parameter name) filled h =
          fill_parameter-meaning name (find name values) filled h
      fill_context-meaning (constant v) filled h = sym (ap (meaning e row) (ok_injective h))
      fill_context-meaning (guard condition value message) filled h =
          let (condition', p, h') = bind-eq-ok (fill_context condition values) _ h in
          let (value', q, h'') = bind-eq-ok (fill_context value values) _ h' in
          sym (ap (meaning e row) (ok_injective h''))
          ∙ ap_both (λ c v. if holds e.is_true c then v else none)
              (fill_context-meaning condition condition' p) (fill_context-meaning value value' q)
      fill_context-meaning (conjunction_and left right) filled h =
          let (left', p, h') = bind-eq-ok (fill_context left values) _ h in
          let (right', q, h'') = bind-eq-ok (fill_context right values) _ h' in
          sym (ap (meaning e row) (ok_injective h''))
          ∙ ap_both e.conjoin (fill_context-meaning left left' p)
              (fill_context-meaning right right' q)
      fill_context-meaning (other operation children) filled h =
          let (children', p, h') = bind-eq-ok (fill_all_context children values) _ h in
          sym (ap (meaning e row) (ok_injective h'))
          ∙ ap (e.apply operation) (fill_all_context-meanings children children' p)

      fill_all_context-meanings :
          (exprs filled : ParsedList)
          → fill_all_context exprs values ≡ ok filled
          → meanings e row filled ≡ meanings e (in_context e values row) exprs
      fill_all_context-meanings nil filled h = sym (ap (meanings e row) (ok_injective h))
      fill_all_context-meanings (cons child children) filled h =
          let (child', p, h') = bind-eq-ok (fill_context child values) _ h in
          let (children', q, h'') = bind-eq-ok (fill_all_context children values) _ h' in
          sym (ap (meanings e row) (ok_injective h''))
          ∙ ap_both (λ x xs. x ∷ xs) (fill_context-meaning child child' p)
              (fill_all_context-meanings children children' q)

  module _ (same_column : String → String → Bool) (table : String) (set_columns : List String)
      (built : WriteStatement) (key_count : ℕ) (row : Row e) where
    point_column-meaning :
        (name : String) (found : Option ℕ) (pointed : Parsed)
        → point_column same_column table built.seam_alias built.seam_columns key_count name found
          ≡ ok pointed
        → meaning e row pointed ≡ value_after e row table built key_count name found
    unfolding point_column meaning
    point_column-meaning name none pointed h = sym (ap (meaning e row) (ok_injective h))
    point_column-meaning name (some c) pointed h =
        let (column, p, h') = bind-eq-ok (at_index built.seam_columns (key_count + c)) _ h in
        sym (ap (meaning e row) (ok_injective h')) ∙ sym (ap (seam_value e row built.seam_alias) p)

    mutual
      unfolding point_check_at_updated_row meaning

      -- Pointing an expression at the updated row is reading it at the pointed row.
      pub point_check_at_updated_row-meaning :
          (expr pointed : Parsed)
          → point_check_at_updated_row same_column expr table set_columns built key_count
            ≡ ok pointed
          → meaning e row pointed
            ≡ meaning e (pointed_row e same_column table set_columns built key_count row) expr
      point_check_at_updated_row-meaning (column_ref (some qualifier) name) pointed h =
          sym (ap (meaning e row) (ok_injective h))
      point_check_at_updated_row-meaning (column_ref none name) pointed h =
          point_column-meaning name (index_of same_column name set_columns) pointed h
      point_check_at_updated_row-meaning (parameter name) pointed h =
          sym (ap (meaning e row) (ok_injective h))
      point_check_at_updated_row-meaning (constant v) pointed h =
          sym (ap (meaning e row) (ok_injective h))
      point_check_at_updated_row-meaning (guard condition value message) pointed h =
          let (condition', p, h') =
            bind-eq-ok
              (point_check_at_updated_row same_column condition table set_columns built key_count) _
              h in
          let (value', q, h'') =
            bind-eq-ok
              (point_check_at_updated_row same_column value table set_columns built key_count) _
              h' in
          sym (ap (meaning e row) (ok_injective h''))
          ∙ ap_both (λ c v. if holds e.is_true c then v else none)
              (point_check_at_updated_row-meaning condition condition' p)
              (point_check_at_updated_row-meaning value value' q)
      point_check_at_updated_row-meaning (conjunction_and left right) pointed h =
          let (left', p, h') =
            bind-eq-ok
              (point_check_at_updated_row same_column left table set_columns built key_count) _ h in
          let (right', q, h'') =
            bind-eq-ok
              (point_check_at_updated_row same_column right table set_columns built key_count) _
              h' in
          sym (ap (meaning e row) (ok_injective h''))
          ∙ ap_both e.conjoin (point_check_at_updated_row-meaning left left' p)
              (point_check_at_updated_row-meaning right right' q)
      point_check_at_updated_row-meaning (other operation children) pointed h =
          let (children', p, h') =
            bind-eq-ok
              (point_all_at_updated_row same_column children table set_columns built key_count) _
              h in
          sym (ap (meaning e row) (ok_injective h'))
          ∙ ap (e.apply operation) (point_all_at_updated_row-meanings children children' p)

      point_all_at_updated_row-meanings :
          (exprs pointed : ParsedList)
          → point_all_at_updated_row same_column exprs table set_columns built key_count
            ≡ ok pointed
          → meanings e row pointed
            ≡ meanings e (pointed_row e same_column table set_columns built key_count row) exprs
      point_all_at_updated_row-meanings nil pointed h = sym (ap (meanings e row) (ok_injective h))
      point_all_at_updated_row-meanings (cons child children) pointed h =
          let (child', p, h') =
            bind-eq-ok
              (point_check_at_updated_row same_column child table set_columns built key_count) _
              h in
          let (children', q, h'') =
            bind-eq-ok
              (point_all_at_updated_row same_column children table set_columns built key_count) _
              h' in
          sym (ap (meanings e row) (ok_injective h''))
          ∙ ap_both (λ x xs. x ∷ xs) (point_check_at_updated_row-meaning child child' p)
              (point_all_at_updated_row-meanings children children' q)
