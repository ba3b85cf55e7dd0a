-- ===== src/Filter/Fidelity.antt =====
-- A filter that renders: the rows its clauses let pass lie between the filter and its mandatory part.
use duckdb_virtual_catalog.Prelude.{
  ℕ, String, ◌≡◌, refl, sym, ◌∙◌, ◌≢◌, ◌⊎◌, inl, inr, Bool, true, false, ◌&&◌, ◌||◌, List, [], ◌∷◌,
  ◌++◌, Option, none, some, arith, Bool-cases, Option-cases, some_injective, subst, is_empty,
}
use duckdb_virtual_catalog.Filter.{
  Value, Comparison, Operator, is_null_operator, is_not_null_operator, compare_in, other_operator,
  Expression, optional, root_optional, function, operator, conjunction_and, conjunction_or,
  other_class, Expressions, nil, cons, FilterFidelity, exact, optional_skipped, unsupported, Clause,
  Rendered, is_nan, is_internal_hint, comparison_op, constants, render_comparison, render_in,
  render_operator, optional_result, and_child, and_result, skip, try_build_clauses,
  try_build_children,
}
use duckdb_virtual_catalog.Filter.Meaning.{
  Cells, Reader, all_constants, function_passes, in_passes, operator_passes, passes, all_pass,
  passes_mandatory, all_pass_mandatory, clause_passes,
}
use duckdb_virtual_catalog.Filter.Exact.{
  IsPlainComparison, InIsReadable, IsReadable, AreReadable, clauses_pass, clauses_pass-append,
  one_clause, compare_exact, in_clause_exact, constants_inv,
}

-- `b` lies between a filter and its mandatory part.
abbrev pub Sandwich : Bool → Bool → Bool → Type 0
Sandwich whole b mandatory = (whole ≡ true → b ≡ true) × (b ≡ true → mandatory ≡ true)

pub Sandwich-of_eq : {b whole : Bool} → b ≡ whole → Sandwich whole b whole
Sandwich-of_eq e = (λ h. e ∙ h, λ h. sym e ∙ h)

pub Sandwich-and :
    (whole b mandatory whole' b' mandatory' : Bool)
    → Sandwich whole b mandatory
    → Sandwich whole' b' mandatory'
    → Sandwich (whole && whole') (b && b') (mandatory && mandatory')
Sandwich-and whole b mandatory whole' b' mandatory' (up, down) (up', down') =
    (λ h. ground arith, λ h. ground arith)

pub optional_result_cases :
    (rendered : Rendered)
    → ((rendered.fidelity ≢ unsupported) × (optional_result rendered ≡ rendered))
      ⊎ (optional_result rendered ≡ skip)
unfolding optional_result
optional_result_cases rendered = go rendered.fidelity refl
  where
    go :
        (f : FilterFidelity)
        → rendered.fidelity ≡ f
        → ((rendered.fidelity ≢ unsupported) × (optional_result rendered ≡ rendered))
          ⊎ (optional_result rendered ≡ skip)
    go exact e = inl (λ k. cc (e, k), rw e refl)
    go optional_skipped e = inl (λ k. cc (e, k), rw e refl)
    go unsupported e = inr (rw e refl)

pub and_child_inv :
    (rendered : Rendered) (rest : Option (List Clause)) (clauses : List Clause)
    → and_child rendered rest ≡ some clauses
    → (rendered.fidelity ≢ unsupported)
      × (later : List Clause) × (rest ≡ some later)
      × (clauses ≡ rendered.clauses ++ later)
unfolding and_child
and_child_inv rendered rest clauses h = go rendered.fidelity refl rest h
  where
    joined :
        (rest : Option (List Clause))
        → elim rest as (λ q. Option (List Clause)) [
          | none ↦ none
          | some cs ↦ some (rendered.clauses ++ cs)
        ]
          ≡ some clauses
        → (later : List Clause) × (rest ≡ some later) × (clauses ≡ rendered.clauses ++ later)
    joined none h = cc
    joined (some cs) h = (cs, refl, sym (some_injective h))

    go :
        (f : FilterFidelity)
        → rendered.fidelity ≡ f
        → (rest : Option (List Clause)) → and_child rendered rest ≡ some clauses
        → (rendered.fidelity ≢ unsupported)
          × (later : List Clause) × (rest ≡ some later)
          × (clauses ≡ rendered.clauses ++ later)
    go exact e rest h =
        let (cs, found, split) = joined rest (rw e at h) in (λ k. cc (e, k), cs, found, split)
    go optional_skipped e rest h =
        let (cs, found, split) = joined rest (rw e at h) in (λ k. cc (e, k), cs, found, split)
    go unsupported e rest h = cc (rw e at h)

module _ (c : Cells) (r : Reader c) where
  -- What is shown of a rendering, if it is no refusal
  abbrev Between : c.Cell → Rendered → Bool → Bool → Type 0
  Between x rendered whole mandatory =
      rendered.fidelity ≢ unsupported
      → (b : Bool) → clauses_pass c r x rendered.clauses ≡ some b
      → Sandwich whole b mandatory

  comparison-Between :
      (x : c.Cell) (found : Option (Comparison × Value)) (column : String) (i : ℕ)
      → IsPlainComparison c r x found
      → Between x
          (render_comparison found column)
          (function_passes c x found i)
          (function_passes c x found i)
  unfolding render_comparison function_passes
  comparison-Between x none column i plain supported b h = absurd (supported refl)
  comparison-Between x (some (k, v)) column i plain supported b h =
      elim (Bool-cases (is_empty (comparison_op k) || is_nan v)) [
        | inl bad ↦ absurd (rw bad at supported refl)
        | inr fine ↦ Sandwich-of_eq (
            compare_exact c r x k v column b (ground arith) (ground arith) plain
              (one_clause c r x _ b (rw fine at h)))
      ]

  in-Between :
      (x : c.Cell) (operands : List (Option Value)) (column : String) (i : ℕ)
      → InIsReadable c r x compare_in (all_constants c operands)
      → Between x
          (render_in (constants operands) column)
          (in_passes c x (all_constants c operands) i)
          (in_passes c x (all_constants c operands) i)
  unfolding render_in
  in-Between x operands column i typed supported b h = elim (Option-cases (constants operands)) [
    | inl refused ↦ absurd (rw refused at supported refl)
    | inr (values, e) ↦
        let (alike, plain) =
          subst (λ q. InIsReadable c r x compare_in q) ((constants_inv c r operands values e).0)
            typed in
        Sandwich-of_eq (
          in_clause_exact c r x operands values column i b alike plain e
            (one_clause c r x _ b (rw e at h)))
  ]

  operator-Between :
      (x : c.Cell) (op : Operator) (operands : List (Option Value)) (column : String) (i : ℕ)
      → InIsReadable c r x op (all_constants c operands)
      → Between x
          (render_operator op operands column)
          (operator_passes c x op operands i)
          (operator_passes c x op operands i)
  unfolding render_operator operator_passes clause_passes
  operator-Between x is_null_operator operands column i typed supported b h =
      Sandwich-of_eq (sym (some_injective (one_clause c r x _ b h)))
  operator-Between x is_not_null_operator operands column i typed supported b h =
      Sandwich-of_eq (sym (some_injective (one_clause c r x _ b h)))
  operator-Between x compare_in operands column i typed supported b h =
      in-Between x operands column i typed supported b h
  operator-Between x other_operator operands column i typed supported b h = absurd (supported refl)

  -- Nothing sent for an optional filter, or its child's clauses
  optional-Between :
      (x : c.Cell) (rendered : Rendered) (whole mandatory : Bool)
      → Between x rendered whole mandatory
      → Between x (optional_result rendered) whole true
  unfolding clauses_pass
  optional-Between x rendered whole mandatory child supported b h =
      elim (optional_result_cases rendered) [
        | inl (kept, same) ↦ ((child kept b (rw same at h)).0, λ e. refl)
        | inr skipped ↦ (λ e. sym (some_injective (rw skipped at h)), λ e. refl)
      ]

  conjunction-Between :
      (x : c.Cell) (found : Option (List Clause)) (whole mandatory : Bool)
      → ((clauses : List Clause)
          → found ≡ some clauses
          → (b : Bool) → clauses_pass c r x clauses ≡ some b
          → Sandwich whole b mandatory)
      → Between x (and_result found) whole mandatory
  unfolding and_result
  conjunction-Between x none whole mandatory children supported b h = absurd (supported refl)
  conjunction-Between x (some []) whole mandatory children supported b h = children [] refl b h
  conjunction-Between x (some (clause ∷ clauses)) whole mandatory children supported b h =
      children (clause ∷ clauses) refl b h

  mutual
    unfolding try_build_clauses passes passes_mandatory clauses_pass

    -- The clauses of a filter that renders, at a cell where it is readable, let every row pass that passes the filter, and no row that
    -- fails its mandatory part.
    pub try_build_clauses-Between :
        (x : c.Cell) (e : Expression) (column : String)
        → IsReadable c r x e
        → Between x (try_build_clauses e column) (passes c x e) (passes_mandatory c x e)
    try_build_clauses-Between x (optional child) column typed supported b h =
        optional-Between x (try_build_clauses child column) (passes c x child)
          (passes_mandatory c x child) (try_build_clauses-Between x child column typed) supported b
          h
    try_build_clauses-Between x (root_optional i) column typed supported b h =
        (λ e. sym (some_injective h), λ e. refl)
    try_build_clauses-Between x (function name found i) column typed supported b h =
        elim (Bool-cases (is_internal_hint name)) [
          | inl hint ↦ rw hint (λ e. sym (some_injective (rw hint at h)), λ e. refl)
          | inr other ↦
              rw other (
                comparison-Between x found column i typed (rw other at supported) b (rw other at h))
        ]
    try_build_clauses-Between x (operator op true operands i) column typed supported b h =
        operator-Between x op operands column i typed supported b h
    try_build_clauses-Between x (operator op false operands i) column typed supported b h =
        absurd (supported refl)
    try_build_clauses-Between x (conjunction_and children) column typed supported b h =
        conjunction-Between x (try_build_children children column) (all_pass c x children)
          (all_pass_mandatory c x children) (try_build_children-Between x children column typed)
          supported b h
    try_build_clauses-Between x (conjunction_or children i) column typed supported b h =
        absurd (supported refl)
    try_build_clauses-Between x (other_class i) column typed supported b h = absurd (supported refl)

    pub try_build_children-Between :
        (x : c.Cell) (es : Expressions) (column : String)
        → AreReadable c r x es
        → (clauses : List Clause) → try_build_children es column ≡ some clauses
        → (b : Bool) → clauses_pass c r x clauses ≡ some b
        → Sandwich (all_pass c x es) b (all_pass_mandatory c x es)
    try_build_children-Between x nil column typed clauses e b h = (
      λ p.
          sym (
            some_injective (subst (λ q. clauses_pass c r x q ≡ some b) (sym (some_injective e)) h)),
      λ p. refl,
    )
    try_build_children-Between x (cons child children) column (typed, all_typed) clauses e b h =
        let (supported, later, found, split) = and_child_inv _ _ clauses e in
        let (b₁, b₂, h₁, h₂, same) =
          clauses_pass-append c r x _ later b
            (subst (λ q. clauses_pass c r x q ≡ some b) split h) in
        subst
          (λ q.
            Sandwich (all_pass c x (cons child children)) q
              (all_pass_mandatory c x (cons child children)))
          (sym same)
          (Sandwich-and _ b₁ _ _ b₂ _
            (try_build_clauses-Between x child column typed supported b₁ h₁)
            (try_build_children-Between x children column all_typed later found b₂ h₂))
