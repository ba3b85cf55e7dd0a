-- ===== src/Policy/Settings/Laws.antt =====
-- What a parsed setting guarantees.
use duckdb_virtual_catalog.Prelude.{
  ℕ, suc, String, ◌≡◌, ◌⊎◌, inl, inr, Bool, true, false, List, [], ◌∷◌, arith, All, Option, none,
  some, ok, bind-eq-ok, ok_injective, subst,
}
use duckdb_virtual_catalog.Host.{
  StringUtil, Crossing, CrossingVerb, select, insert, update, delete, alter, create, drop,
}
use duckdb_virtual_catalog.Policy.Raw.{
  RawValue, nul, boolean, integer, text, list, object, items, fields, item_path, child,
  throw_if_unknown_fields, get_field,
}
use duckdb_virtual_catalog.Policy.Settings.{
  PolicyVerb, denied, is_blank, non_empty_string, string_items, string_list, predicate,
  optional_predicate, grants, parse_flag, insert_check, parse_insert, parse_update, parse_filter,
  parse_granted, parse_verb,
}

module _ ⦃u : StringUtil⦄ where
  abbrev pub IsText : String → Type 0
  IsText s = is_blank s ≡ false

  -- A predicate's text is `true` or is not blank.
  abbrev pub IsPredicate : String → Type 0
  IsPredicate s = (s ≡ "true") ⊎ IsText s

  pub non_empty_string-IsText :
      (v : RawValue) (path what s : String) → non_empty_string v path what ≡ ok s → IsText s
  unfolding non_empty_string
  non_empty_string-IsText nul path what s e = cc
  non_empty_string-IsText (text t) path what s e = ground arith
  non_empty_string-IsText _ path what s e = cc

  string_items-IsText :
      (vs : List RawValue) (path what : String) (index : ℕ) (ss : List String)
      → string_items vs path what index ≡ ok ss
      → All IsText ss
  unfolding string_items
  string_items-IsText [] path what index ss e = subst (λ q. All IsText q) (ok_injective e) tt
  string_items-IsText (v ∷ vs) path what index ss e =
      let (s, es, e') = bind-eq-ok (non_empty_string v (item_path path index) what) _ e in
      let (rest, er, e'') = bind-eq-ok (string_items vs path what (suc index)) _ e' in
      subst (λ q. All IsText q) (ok_injective e'')
        (
          non_empty_string-IsText v (item_path path index) what s es,
          string_items-IsText vs path what (suc index) rest er,
        )

  pub string_list-IsText :
      (v : RawValue) (path what : String) (single : Bool) (ss : List String)
      → string_list v path what single ≡ ok ss
      → All IsText ss
  unfolding string_list
  string_list-IsText (text t) path what true ss e =
      let (s, es, e') = bind-eq-ok (non_empty_string (text t) path what) _ e in
      subst (λ q. All IsText q) (ok_injective e')
        (non_empty_string-IsText (text t) path what s es, tt)
  string_list-IsText (list vs) path what single ss e =
      string_items-IsText (items vs) path what 0 ss e
  string_list-IsText _ path what single ss e = cc

  pub predicate-IsPredicate :
      (v : RawValue) (path s : String) → predicate v path ≡ ok s → IsPredicate s
  unfolding predicate
  predicate-IsPredicate (boolean false) path s e = cc
  predicate-IsPredicate (boolean true) path s e = inl (cc)
  predicate-IsPredicate v path s e = inr (non_empty_string-IsText v path "a predicate" s e)

  optional_predicate-IsPredicate :
      (o : Option RawValue) (path absent s : String)
      → optional_predicate o path absent ≡ ok s
      → (s ≡ absent) ⊎ IsPredicate s
  unfolding optional_predicate
  optional_predicate-IsPredicate none path absent s e = inl (cc)
  optional_predicate-IsPredicate (some v) path absent s e = inr (predicate-IsPredicate v path s e)

-- What a verb's texts may be, for each verb.
module _ ⦃u : StringUtil⦄ where
  abbrev pub HasTexts : CrossingVerb → String → String → Type 0
  HasTexts create using_text check_text = (using_text ≡ "true") × (check_text ≡ "")
  HasTexts drop using_text check_text = (using_text ≡ "true") × (check_text ≡ "")
  HasTexts insert using_text check_text = (using_text ≡ "true") × IsPredicate check_text
  HasTexts update using_text check_text =
      IsPredicate using_text × ((check_text ≡ "") ⊎ IsPredicate check_text)
  HasTexts _ using_text check_text = IsPredicate using_text × (check_text ≡ "")

  -- A verb that is not granted is blank; one that is granted has the texts of its verb.
  abbrev pub IsValidVerb : CrossingVerb → PolicyVerb → Type 0
  IsValidVerb verb v =
      ((v ≡ denied)) ⊎ ((v.granted ≡ true) × HasTexts verb v.using_text v.check_text)

module _ ⦃u : StringUtil⦄ ⦃c : Crossing⦄ where
  parse_flag_valid :
      (verb : CrossingVerb) (value : RawValue) (path : String) (v : PolicyVerb)
      → parse_flag verb value path ≡ ok v
      → v ≡ grants "true" ""
  unfolding parse_flag
  parse_flag_valid verb (object fs) path v e = cc
  parse_flag_valid verb value path v e =
      let (said, es, e') = bind-eq-ok (predicate value path) _ e in ground arith

  parse_filter_valid :
      (verb : CrossingVerb) (value : RawValue) (path : String) (v : PolicyVerb)
      → parse_filter verb value path ≡ ok v
      → (v.granted ≡ true) × (IsPredicate v.using_text × (v.check_text ≡ ""))
  unfolding parse_filter
  parse_filter_valid verb (object fs) path v e = cc
  parse_filter_valid verb value path v e =
      let (said, es, e') = bind-eq-ok (predicate value path) _ e in
      ground (arith, predicate-IsPredicate value path said es)

  insert_check_valid :
      (o : Option RawValue) (path : String) (v : PolicyVerb)
      → insert_check o path ≡ ok v
      → (v.granted ≡ true) × ((v.using_text ≡ "true") × IsPredicate v.check_text)
  unfolding insert_check
  insert_check_valid none path v e = cc
  insert_check_valid (some r) path v e =
      let (said, es, e') = bind-eq-ok (predicate r (child path "check")) _ e in
      ground (arith, predicate-IsPredicate r (child path "check") said es)

  parse_insert_valid :
      (value : RawValue) (path : String) (v : PolicyVerb)
      → parse_insert value path ≡ ok v
      → (v.granted ≡ true) × ((v.using_text ≡ "true") × IsPredicate v.check_text)
  unfolding parse_insert
  parse_insert_valid (object fs) path v e =
      let (_, known, e') = bind-eq-ok (throw_if_unknown_fields fs path ("check" ∷ [])) _ e in
      insert_check_valid (get_field (fields fs) "check") path v e'
  parse_insert_valid value path v e =
      let (said, es, e') = bind-eq-ok (predicate value path) _ e in
      ground (arith, predicate-IsPredicate value path said es)

  parse_update_valid :
      (value : RawValue) (path : String) (v : PolicyVerb)
      → parse_update value path ≡ ok v
      → (v.granted ≡ true)
        × (IsPredicate v.using_text × ((v.check_text ≡ "") ⊎ IsPredicate v.check_text))
  unfolding parse_update
  parse_update_valid (object fs) path v e =
      let (_, known, e1) =
        bind-eq-ok (throw_if_unknown_fields fs path ("using" ∷ "check" ∷ [])) _ e in
      let (us, eu, e2) =
        bind-eq-ok (optional_predicate (get_field (fields fs) "using") (child path "using") "true")
          _ e1 in
      let (ch, ec, e3) =
        bind-eq-ok (optional_predicate (get_field (fields fs) "check") (child path "check") "") _
          e2 in
      ground (
        arith,
        optional_predicate-IsPredicate (get_field (fields fs) "using") (child path "using") "true"
            us eu,
        optional_predicate-IsPredicate (get_field (fields fs) "check") (child path "check") "" ch
            ec,
      )
  parse_update_valid value path v e =
      let (said, es, e') = bind-eq-ok (predicate value path) _ e in
      ground (arith, predicate-IsPredicate value path said es)

  parse_granted_valid :
      (verb : CrossingVerb) (value : RawValue) (path : String) (v : PolicyVerb)
      → parse_granted verb value path ≡ ok v
      → (v.granted ≡ true) × HasTexts verb v.using_text v.check_text
  unfolding parse_granted
  parse_granted_valid create value path v e = ground (arith, parse_flag_valid create value path v e)
  parse_granted_valid drop value path v e = ground (arith, parse_flag_valid drop value path v e)
  parse_granted_valid insert value path v e = parse_insert_valid value path v e
  parse_granted_valid update value path v e = parse_update_valid value path v e
  parse_granted_valid select value path v e = parse_filter_valid select value path v e
  parse_granted_valid delete value path v e = parse_filter_valid delete value path v e
  parse_granted_valid alter value path v e = parse_filter_valid alter value path v e

  -- Whether a value grants: NULL and false do not.
  abbrev pub says_grant : RawValue → Bool
  says_grant nul = false
  says_grant (boolean b) = b
  says_grant value = true

  -- A verb that parses is granted exactly when its value is neither NULL nor false. Then it has the
  -- texts of its verb: 'create' and 'drop' only true, 'insert' a check, 'update' a filter and perhaps
  -- a check, the others a filter. Otherwise it is blank.
  pub parse_verb_valid :
      (verb : CrossingVerb) (value : RawValue) (path : String) (v : PolicyVerb)
      → parse_verb verb value path ≡ ok v
      → (v.granted ≡ says_grant value) × IsValidVerb verb v
  unfolding parse_verb
  parse_verb_valid verb nul path v e = ground arith
  parse_verb_valid verb (boolean false) path v e = ground arith
  parse_verb_valid verb (boolean true) path v e =
      let h = parse_granted_valid verb (boolean true) path v e in (h.0, inr h)
  parse_verb_valid verb (integer n) path v e =
      let h = parse_granted_valid verb (integer n) path v e in (h.0, inr h)
  parse_verb_valid verb (text n) path v e =
      let h = parse_granted_valid verb (text n) path v e in (h.0, inr h)
  parse_verb_valid verb (list n) path v e =
      let h = parse_granted_valid verb (list n) path v e in (h.0, inr h)
  parse_verb_valid verb (object n) path v e =
      let h = parse_granted_valid verb (object n) path v e in (h.0, inr h)
