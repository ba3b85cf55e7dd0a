-- ===== src/Filter/Exact.antt =====
-- The clauses of a filter let a row pass exactly between the filter and its mandatory part.
use duckdb_virtual_catalog.Prelude.{
  ℕ, String, ◌≡◌, refl, sym, ap, ◌∙◌, inl, inr, Bool, true, false, ◌&&◌, ◌||◌, List, [], ◌∷◌, ◌++◌,
  Option, none, some, All, arith, Bool-cases, Option-cases, cons_both_inv, some_injective, subst,
  is_empty,
}
use duckdb_virtual_catalog.Filter.{
  Value, Comparison, equal, not_equal, greater, greater_equal, less, less_equal, other_comparison,
  Operator, compare_in, Expression, optional, root_optional, function, operator, conjunction_and,
  conjunction_or, other_class, Expressions, nil, cons, Clause, one, many, value_node, value_nodes,
  value_type_tag, is_nan, first_tag, comparison_op, constants, make_clause,
}
use duckdb_virtual_catalog.Filter.Meaning.{
  Cells, Reader, IsTagFor, AreAlike, any_equal, all_constants, in_passes, rebuild_all, any_read,
  compare_read, in_read, clause_passes,
}

-- Every `IN` list of the filter has values of one type, and the reader reads each value that a cell is
-- compared with plainly at the cell.
module _ (c : Cells) (r : Reader c) (x : c.Cell) where
  abbrev pub IsPlainComparison : Option (Comparison × Value) → Type 0
  IsPlainComparison none = Unit
  IsPlainComparison (some (k, v)) = r.is_plain x v ≡ true

  abbrev pub InIsReadable : Operator → Option (List Value) → Type 0
  InIsReadable compare_in (some values) =
      AreAlike c values × All (λ v. r.is_plain x v ≡ true) values
  InIsReadable op values = Unit

  abbrev mutual
    pub IsReadable : Expression → Type 0
    IsReadable (optional child) = IsReadable child
    IsReadable (root_optional i) = Unit
    IsReadable (function name found i) = IsPlainComparison found
    IsReadable (operator op on_column operands i) = InIsReadable op (all_constants c operands)
    IsReadable (conjunction_and children) = AreReadable children
    IsReadable (conjunction_or children i) = Unit
    IsReadable (other_class i) = Unit

    pub AreReadable : Expressions → Type 0
    AreReadable nil = Unit
    AreReadable (cons child children) = IsReadable child × AreReadable children

unfoldable pub and_read : Option Bool → Option Bool → Option Bool
and_read none later = none
and_read (some b) none = none
and_read (some b) (some d) = some (b && d)

pub and_read_inv :
    (o p : Option Bool) (b : Bool)
    → and_read o p ≡ some b
    → (b₁ : Bool) × (b₂ : Bool) × (o ≡ some b₁) × (p ≡ some b₂) × (b ≡ (b₁ && b₂))
unfolding and_read
and_read_inv none p b h = cc
and_read_inv (some b₁) none b h = cc
and_read_inv (some b₁) (some b₂) b h = (b₁, b₂, refl, refl, sym (some_injective h))

module _ (c : Cells) (r : Reader c) where
  -- What the reader makes of a list of clauses, which it joins by AND; `none`: it refuses one.
  unfoldable pub clauses_pass : c.Cell → List Clause → Option Bool
  unfolding and_read
  clauses_pass x [] = some true
  clauses_pass x (clause ∷ clauses) = and_read (clause_passes c r x clause) (clauses_pass x clauses)

  pub clauses_pass-append :
      (x : c.Cell) (xs ys : List Clause) (b : Bool)
      → clauses_pass x (xs ++ ys) ≡ some b
      → (b₁ : Bool) × (b₂ : Bool) × (clauses_pass x xs ≡ some b₁)
        × (clauses_pass x ys ≡ some b₂)
        × (b ≡ (b₁ && b₂))
  unfolding clauses_pass
  clauses_pass-append x [] ys b h = (true, b, refl, h, refl)
  clauses_pass-append x (k ∷ xs) ys b h =
      let (first, later, e, e', same) = and_read_inv (clause_passes c r x k) _ b h in
      let (b₁, b₂, h₁, h₂, split) = clauses_pass-append x xs ys later e' in
      (first && b₁, b₂, rw (e, h₁) refl, h₂, ground arith)

  pub one_clause :
      (x : c.Cell) (clause : Clause) (b : Bool)
      → clauses_pass x (clause ∷ []) ≡ some b
      → clause_passes c r x clause ≡ some b
  unfolding clauses_pass
  one_clause x clause b h =
      let (first, later, e, e', same) = and_read_inv (clause_passes c r x clause) _ b h in
      e ∙ ap some (ground arith)

  read_exact :
      (x : c.Cell) (k : Comparison) (v : Value) (b : Bool)
      → is_nan v ≡ false
      → r.is_plain x v ≡ true
      → compare_read c r x (some k) (r.rebuild (value_node v) (value_type_tag v)) ≡ some b
      → b ≡ c.compares k x v
  unfolding compare_read
  read_exact x k v b sane plain h = elim (r.faithful v (value_type_tag v) sane (inr refl)) [
    | inl refused ↦ cc (rw refused at h)
    | inr (w, rebuilt, same) ↦ sym (some_injective (rw rebuilt at h)) ∙ same k x plain
  ]

  pub compare_exact :
      (x : c.Cell) (k : Comparison) (v : Value) (column : String) (b : Bool)
      → is_empty (comparison_op k) ≡ false
      → is_nan v ≡ false
      → r.is_plain x v ≡ true
      → clause_passes c r x
          (make_clause column (comparison_op k) (one (value_node v)) (value_type_tag v))
        ≡ some b
      → b ≡ c.compares k x v
  unfolding clause_passes comparison_op
  compare_exact x equal v column b op sane plain h = read_exact x equal v b sane plain h
  compare_exact x not_equal v column b op sane plain h = read_exact x not_equal v b sane plain h
  compare_exact x greater v column b op sane plain h = read_exact x greater v b sane plain h
  compare_exact x greater_equal v column b op sane plain h =
      read_exact x greater_equal v b sane plain h
  compare_exact x less v column b op sane plain h = read_exact x less v b sane plain h
  compare_exact x less_equal v column b op sane plain h = read_exact x less_equal v b sane plain h
  compare_exact x other_comparison v column b op sane plain h = cc

  -- The operands that pass the first loop are the constants, and none of them is NaN.
  pub constants_inv :
      (operands : List (Option Value)) (values : List Value)
      → constants operands ≡ some values
      → (all_constants c operands ≡ some values) × All (λ v. is_nan v ≡ false) values
  unfolding constants all_constants
  constants_inv [] values h = (h, subst (All (λ v. is_nan v ≡ false)) (some_injective h) tt)
  constants_inv (none ∷ operands) values h = cc
  constants_inv (some v ∷ operands) values h = elim (Bool-cases (is_nan v)) [
    | inl nan ↦ cc (rw nan at h)
    | inr sane ↦
        let (w, vs, same, rest, e) = cons_both_inv (some v) (constants operands) (rw sane at h) in
        let (same_rest, all_sane) = constants_inv operands vs rest in
        subst (λ q. (all_constants c (some v ∷ operands) ≡ some q) × All (λ u. is_nan u ≡ false) q)
          e
          (
            rw (same_rest, ← some_injective same) refl,
            (subst (λ u. is_nan u ≡ false) (some_injective same) sane, all_sane),
          )
  ]

  in_exact :
      (x : c.Cell) (values : List Value) (tag : Option String) (ws : List r.Read)
      → All (λ v. is_nan v ≡ false) values
      → All (λ v. IsTagFor v tag) values
      → All (λ v. r.is_plain x v ≡ true) values
      → rebuild_all r.rebuild (value_nodes values) tag ≡ some ws
      → any_read (r.compares equal x) ws ≡ any_equal c x values
  unfolding rebuild_all any_read any_equal value_nodes
  in_exact x [] tag ws sane typed plain h =
      subst (λ q. any_read (r.compares equal x) q ≡ false) (some_injective h) refl
  in_exact x (v ∷ values) tag ws sane typed plain h =
      let (w, vs, first, rest, e) =
        cons_both_inv (r.rebuild (value_node v) tag)
          (rebuild_all r.rebuild (value_nodes values) tag) h in
      let later = in_exact x values tag vs sane.1 typed.1 plain.1 rest in
      subst (λ q. any_read (r.compares equal x) q ≡ (c.compares equal x v || any_equal c x values))
        e
        (elim (r.faithful v tag sane.0 typed.0) [
          | inl refused ↦ cc (refused, first)
          | inr (w', rebuilt, same) ↦
              rw (later, some_injective (sym first ∙ rebuilt), same equal x plain.0) refl
        ])

  pub in_clause_exact :
      (x : c.Cell) (operands : List (Option Value)) (values : List Value) (column : String) (i : ℕ)
      (b : Bool)
      → AreAlike c values
      → All (λ v. r.is_plain x v ≡ true) values
      → constants operands ≡ some values
      → clause_passes c r x (make_clause column "in" (many (value_nodes values)) (first_tag values))
        ≡ some b
      → b ≡ in_passes c x (all_constants c operands) i
  unfolding clause_passes in_passes in_read
  in_clause_exact x operands values column i b alike plain e h =
      let (same, sane) = constants_inv operands values e in
      elim (Option-cases (rebuild_all r.rebuild (value_nodes values) (first_tag values))) [
        | inl refused ↦ cc (rw refused at h)
        | inr (ws, rebuilt) ↦ rw same (
            sym (some_injective (rw rebuilt at h))
            ∙ r.is_in_plain x values (first_tag values) ws plain rebuilt
            ∙ in_exact x values (first_tag values) ws sane alike plain rebuilt)
      ]
