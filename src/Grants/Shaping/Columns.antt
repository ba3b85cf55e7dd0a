-- ===== src/Grants/Shaping/Columns.antt =====
-- An expression without a qualified column means the same at the row that it is pointed at and at the row
-- after the write.
use duckdb_virtual_catalog.Prelude.{
  ℕ, String, ◌≡◌, refl, ap, Bool, false, List, ◌∷◌, Option, none, some, if◌then◌else◌, arith,
}
use duckdb_virtual_catalog.Host.{StringUtil}
use duckdb_virtual_catalog.Grants.Expression.{
  Parsed, ParsedList, column_ref, parameter, constant, guard, conjunction_and, other, nil, cons,
}
use duckdb_virtual_catalog.Grants.Seam.{Values, WriteStatement}
use duckdb_virtual_catalog.Grants.Shaping.Rewrites.{ap_both}
use duckdb_virtual_catalog.Grants.Shaping.Meaning.{
  Engine, Row, holds, literal_of, meaning, meanings, passes, in_context, after_write, pointed_row,
  mentions_qualified, any_mentions_qualified, is_qualified,
}

module _ (e : Engine) (row row' : Row e)
    (columns : (name : String) → row.column none name ≡ row'.column none name)
    (contexts : (name : String) → row.context name ≡ row'.context name) where
  mutual
    unfolding meaning mentions_qualified

    meaning_congr :
        (expr : Parsed) → mentions_qualified expr ≡ false → meaning e row expr ≡ meaning e row' expr
    meaning_congr (column_ref (some qualifier) name) h = cc
    meaning_congr (column_ref none name) h = columns name
    meaning_congr (parameter name) h = ap (literal_of e) (contexts name)
    meaning_congr (constant v) h = refl
    meaning_congr (guard condition value message) h =
        ap_both (λ c v. if holds e.is_true c then v else none)
          (meaning_congr condition (ground arith)) (meaning_congr value (ground arith))
    meaning_congr (conjunction_and left right) h =
        ap_both e.conjoin (meaning_congr left (ground arith)) (meaning_congr right (ground arith))
    meaning_congr (other operation children) h = ap (e.apply operation) (meanings_congr children h)

    meanings_congr :
        (exprs : ParsedList)
        → any_mentions_qualified exprs ≡ false
        → meanings e row exprs ≡ meanings e row' exprs
    meanings_congr nil h = refl
    meanings_congr (cons child children) h =
        ap_both (λ x xs. x ∷ xs) (meaning_congr child (ground arith))
          (meanings_congr children (ground arith))

  pub passes_congr : (o : Option Parsed) → is_qualified o ≡ false → passes e row o ≡ passes e row' o
  unfolding passes is_qualified
  passes_congr none h = refl
  passes_congr (some expr) h = ap (holds e.is_true) (meaning_congr expr h)

pub passes-pointed_row :
    ⦃u : StringUtil⦄ (e : Engine) (values : Values) (same_column : String → String → Bool)
    (table : String) (set_columns : List String) (built : WriteStatement) (key_count : ℕ)
    (row : Row e) (o : Option Parsed)
    → is_qualified o ≡ false
    → passes e
        (in_context e values (pointed_row e same_column table set_columns built key_count row))
        o
      ≡ passes e
          (in_context e values (after_write e same_column table set_columns built key_count row))
          o
passes-pointed_row e values same_column table set_columns built key_count row o h =
    passes_congr e
      (in_context e values (pointed_row e same_column table set_columns built key_count row))
      (in_context e values (after_write e same_column table set_columns built key_count row))
      (λ name. refl) (λ name. refl) o h
