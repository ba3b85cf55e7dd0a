-- ===== src/Frames/Layout.antt =====
-- provider/arrow_frame_decoder.cpp: `SameLayout`, which compares two Arrow schemas but for names,
-- metadata and nullability.
use duckdb_virtual_catalog.Prelude.{
  ℕ, suc, String, ◌≡◌, refl, sym, ap, ◌∙◌, Bool, true, false, not, ◌&&◌, ◌||◌, ◌≟◌, ◌==◌,
  if◌then◌else◌, arith, Bool-cases, inl, inr, eq_iff, Option, none, List,
}

mutual
  -- The fields of an `ArrowSchema`: its name, metadata, flags, format, children and dictionary
  pub data ArrowSchema : Type 0 where
    schema : String → Option (List ℕ) → ℕ → String → Children → Dictionary → ArrowSchema

  pub data Children : Type 0 where
    nil : Children
    cons : ArrowSchema → Children → Children

  pub data Dictionary : Type 0 where
    no_dictionary : Dictionary
    dictionary : ArrowSchema → Dictionary

unfoldable pub n_children : Children → ℕ
n_children nil = 0
n_children (cons child children) = suc (n_children children)

-- The loop over the children runs only if there are as many in both.
unfoldable mutual
  unfolding n_children

  pub same_layout : ArrowSchema → ArrowSchema → Bool
  same_layout (schema name metadata flags format children dict)
        (schema name' metadata' flags' format' children' dict') =
      if not (format ≟ format') || not (n_children children == n_children children')
      then false
      else if not (same_children children children')
      then false
      else same_dictionary dict dict'

  same_children : Children → Children → Bool
  same_children nil children' = true
  same_children (cons child children) nil = true
  same_children (cons child children) (cons child' children') =
      same_layout child child' && same_children children children'

  same_dictionary : Dictionary → Dictionary → Bool
  same_dictionary no_dictionary no_dictionary = true
  same_dictionary no_dictionary (dictionary d) = false
  same_dictionary (dictionary d) no_dictionary = false
  same_dictionary (dictionary d) (dictionary d') = same_layout d d'

-- The schema without names, metadata and flags, at every depth
unfoldable mutual
  pub layout : ArrowSchema → ArrowSchema
  layout (schema name metadata flags format children dict) =
      schema "" none 0 format (layouts children) (dictionary_layout dict)

  layouts : Children → Children
  layouts nil = nil
  layouts (cons child children) = cons (layout child) (layouts children)

  dictionary_layout : Dictionary → Dictionary
  dictionary_layout no_dictionary = no_dictionary
  dictionary_layout (dictionary d) = dictionary (layout d)

mutual
  unfolding same_layout layout

  pub same_layout_sound : (a b : ArrowSchema) → same_layout a b ≡ true → layout a ≡ layout b
  same_layout_sound (schema n m f fmt cs d) (schema n' m' f' fmt' cs' d') h =
      elim (Bool-cases (fmt ≟ fmt')) [
        | inr differs ↦ cc (rw differs at h)
        | inl format ↦ elim (Bool-cases (n_children cs == n_children cs')) [
          | inr differs ↦ cc (rw (format, differs) at h)
          | inl count ↦ elim (Bool-cases (same_children cs cs')) [
            | inr differs ↦ cc (rw (format, count, differs) at h)
            | inl children ↦
                rw
                  (
                    (eq_iff fmt fmt').0 format,
                    same_children_sound cs cs' count children,
                    same_dictionary_sound d d' (rw (format, count, children) at h),
                  )
                  refl
          ]
        ]
      ]

  same_children_sound :
      (xs ys : Children)
      → (n_children xs == n_children ys) ≡ true
      → same_children xs ys ≡ true
      → layouts xs ≡ layouts ys
  same_children_sound nil nil count h = refl
  same_children_sound nil (cons b ys) count h = absurd (ground arith)
  same_children_sound (cons a xs) nil count h = absurd (ground arith)
  same_children_sound (cons a xs) (cons b ys) count h = elim (Bool-cases (same_layout a b)) [
    | inr differs ↦ cc (rw differs at h)
    | inl head ↦
        rw (same_layout_sound a b head, same_children_sound xs ys (ground arith) (rw head at h))
          refl
  ]

  same_dictionary_sound :
      (d d' : Dictionary) → same_dictionary d d' ≡ true → dictionary_layout d ≡ dictionary_layout d'
  same_dictionary_sound no_dictionary no_dictionary h = refl
  same_dictionary_sound no_dictionary (dictionary d) h = cc
  same_dictionary_sound (dictionary d) no_dictionary h = cc
  same_dictionary_sound (dictionary d) (dictionary d') h = ap dictionary (same_layout_sound d d' h)

n_children-layouts : (xs : Children) → n_children (layouts xs) ≡ n_children xs
unfolding n_children layout
n_children-layouts nil = refl
n_children-layouts (cons x xs) = ap suc (n_children-layouts xs)

n_children_eq :
    (xs ys : Children) → layouts xs ≡ layouts ys → (n_children xs == n_children ys) ≡ true
n_children_eq xs ys e =
    let same = sym (n_children-layouts xs) ∙ ap n_children e ∙ n_children-layouts ys in ground arith

mutual
  unfolding same_layout layout

  pub same_layout_complete : (a b : ArrowSchema) → layout a ≡ layout b → same_layout a b ≡ true
  same_layout_complete (schema n m f fmt cs d) (schema n' m' f' fmt' cs' d') e =
      let format : fmt ≡ fmt' = cc in
      let children : layouts cs ≡ layouts cs' = cc in
      let dict : dictionary_layout d ≡ dictionary_layout d' = cc in
      rw
        (
          (eq_iff fmt fmt').1 format,
          n_children_eq cs cs' children,
          same_children_complete cs cs' children,
        )
        (same_dictionary_complete d d' dict)

  same_children_complete : (xs ys : Children) → layouts xs ≡ layouts ys → same_children xs ys ≡ true
  same_children_complete nil ys e = refl
  same_children_complete (cons a xs) nil e = cc
  same_children_complete (cons a xs) (cons b ys) e =
      let head : layout a ≡ layout b = cc in
      let rest : layouts xs ≡ layouts ys = cc in
      rw (same_layout_complete a b head, same_children_complete xs ys rest) refl

  same_dictionary_complete :
      (d d' : Dictionary) → dictionary_layout d ≡ dictionary_layout d' → same_dictionary d d' ≡ true
  same_dictionary_complete no_dictionary no_dictionary e = refl
  same_dictionary_complete no_dictionary (dictionary d) e = cc
  same_dictionary_complete (dictionary d) no_dictionary e = cc
  same_dictionary_complete (dictionary d) (dictionary d') e =
      let inner : layout d ≡ layout d' = cc in same_layout_complete d d' inner

-- `SameLayout` holds exactly of the schemas that are equal when names, metadata and flags are dropped
-- at every depth.
pub same_layout_lem :
    (a b : ArrowSchema)
    → (same_layout a b ≡ true → layout a ≡ layout b)
      × (layout a ≡ layout b → same_layout a b ≡ true)
same_layout_lem a b = (same_layout_sound a b, same_layout_complete a b)
