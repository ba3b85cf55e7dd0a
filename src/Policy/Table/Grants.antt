-- ===== src/Policy/Table/Grants.antt =====
-- A table entry that parses grants a verb.
use duckdb_virtual_catalog.Prelude.{
  String, ◌≡◌, refl, sym, ap, ◌∙◌, ◌≢◌, ◌⊎◌, inl, inr, true, false, List, [], ◌∷◌, arith, All,
  Option, none, some, Bool-cases, ◌≟◌, get_or-set_self, get_or-set_ne, ok, bind-eq-ok, ok_injective,
  subst,
}
use duckdb_virtual_catalog.Host.{StringUtil, Crossing, CrossingVerb}
use duckdb_virtual_catalog.Policy.Name.{PolicyName, parse_policy_table_name}
use duckdb_virtual_catalog.Policy.Name.Sound.{IsNonEmpty, parse_policy_table_name_sound}
use duckdb_virtual_catalog.Policy.Raw.{
  RawValue, nul, object, RawFields, end, field, fields, child, throw_if_unknown_fields,
}
use duckdb_virtual_catalog.Policy.Raw.Lowering.{IsDocument, AreFields}
use duckdb_virtual_catalog.Policy.Settings.{
  denied, string_list, parse_verb, parse_key, rethrow_at_path, parse_foreign_keys,
}
use duckdb_virtual_catalog.Policy.Settings.Keys.{rethrow_ok}
use duckdb_virtual_catalog.Policy.Table.{
  PolicyTable, TableScan, table_keys, try_parse_verb_name, verb_field, other_field, table_field,
  table_fields, fresh_table, table_object, table_value, parse_table,
}
use duckdb_virtual_catalog.Policy.Table.Laws.{
  verb_of, IsValidTable, find_verb_name, in_range, fresh_table-IsValidTable,
  table_field-IsValidTable, table_fields-IsValidTable,
}

module _ ⦃u : StringUtil⦄ where
  -- The keys of the fields are distinct case-insensitively.
  abbrev HasDistinctKeys : List (String × RawValue) → Type 0
  HasDistinctKeys [] = Unit
  HasDistinctKeys ((k, v) ∷ fs) = All (λ f. u.ci_equals k f.0 ≡ false) fs × HasDistinctKeys fs

  fields-HasDistinctKeys : (fs : RawFields) → AreFields fs → HasDistinctKeys (fields fs)
  unfolding fields
  fields-HasDistinctKeys end h = tt
  fields-HasDistinctKeys (field k v fs) h = (h.1, fields-HasDistinctKeys fs h.2)

  ne_of_distinct :
      (key k : String) (fs : List (String × RawValue))
      → key ≡ k
      → All (λ f. u.ci_equals key f.0 ≡ false) fs
      → All (λ f. f.0 ≢ k) fs
  ne_of_distinct key k [] same h = tt
  ne_of_distinct key k ((j, v) ∷ fs) same h = (
    (λ e. cc (u.ci_refl key, ap (λ x. u.ci_equals key x) (e ∙ sym same), h.0)),
    ne_of_distinct key k fs same h.1,
  )

module _ ⦃u : StringUtil⦄ ⦃c : Crossing⦄ where
  abbrev pub Grants : PolicyTable → CrossingVerb → Type 0
  Grants t verb = (verb_of t verb).granted ≡ true

  -- A field that is no verb changes neither the verbs nor what the entry is called.
  abbrev KeepsVerbs : TableScan → TableScan → Type 0
  KeepsVerbs s f =
      (f.table.verbs ≡ s.table.verbs) × (f.any_verb ≡ s.any_verb) × (f.table.name ≡ s.table.name)

  other_field-KeepsVerbs :
      (key : String) (value : RawValue) (path : String) (s f : TableScan)
      → other_field key value path s ≡ ok f
      → KeepsVerbs s f
  unfolding other_field
  other_field-KeepsVerbs key value path s f e = elim (Bool-cases (key ≟ "primary_key")) [
    | inl hit ↦
        let (k, ek, e') = bind-eq-ok (parse_key value path) _ (rw hit at e) in
        subst (KeepsVerbs s) (ok_injective e') (refl, refl, refl)
    | inr miss ↦
        let (names, en, e1) =
          bind-eq-ok (string_list value path "a table name" false) _ (rw miss at e) in
        let (ps, ep, e2) = bind-eq-ok (parse_foreign_keys names s.table.name path) _ e1 in
        subst (KeepsVerbs s) (ok_injective e2) (refl, refl, refl)
  ]

  field-name :
      (o : Option CrossingVerb) (key : String) (value : RawValue) (path : String) (s f : TableScan)
      → table_field o key value path s ≡ ok f
      → f.table.name ≡ s.table.name
  unfolding table_field verb_field
  field-name none key value path s f e = (other_field-KeepsVerbs key value path s f e).2
  field-name (some w) key value path s f e =
      let (v, ev, e') = bind-eq-ok (parse_verb w value path) _ e in
      subst (λ (q : TableScan). q.table.name ≡ s.table.name) (ok_injective e') refl

  try_parse_verb_name-eq :
      (key : String) (w : CrossingVerb) → try_parse_verb_name key ≡ some w → key ≡ c.verb_name w
  unfolding try_parse_verb_name
  try_parse_verb_name-eq key w e = find_verb_name key c.verbs w e

  -- A field with another key leaves a verb granted.
  field-Grants :
      (o : Option CrossingVerb) (key : String) (value : RawValue) (path : String) (s f : TableScan)
      (verb : CrossingVerb)
      → ((w : CrossingVerb) → o ≡ some w → key ≡ c.verb_name w)
      → table_field o key value path s ≡ ok f
      → key ≢ c.verb_name verb
      → Grants s.table verb
      → Grants f.table verb
  unfolding table_field verb_field
  field-Grants none key value path s f verb named e ne h =
      rw (other_field-KeepsVerbs key value path s f e).0 h
  field-Grants (some w) key value path s f verb named e ne h =
      let (v, ev, e') = bind-eq-ok (parse_verb w value path) _ e in
      subst (λ (q : TableScan). Grants q.table verb) (ok_injective e')
        (rw
          (get_or-set_ne s.table.verbs {i = c.index w} v denied
            (λ same. ne (named w refl ∙ ap c.verb_name (c.index_injective w verb same))))
          h)

  fields-Grants :
      (fs : List (String × RawValue)) (path : String) (s f : TableScan) (verb : CrossingVerb)
      → table_fields fs path s ≡ ok f
      → All (λ g. g.0 ≢ c.verb_name verb) fs
      → Grants s.table verb
      → Grants f.table verb
  unfolding table_fields
  fields-Grants [] path s f verb e ne h =
      subst (λ (q : TableScan). Grants q.table verb) (ok_injective e) h
  fields-Grants ((key, value) ∷ fs) path s f verb e ne h =
      let (next, en, e') =
        bind-eq-ok (table_field (try_parse_verb_name key) key value (child path key) s) _ e in
      fields-Grants fs path next f verb e' ne.1 (
        field-Grants (try_parse_verb_name key) key value (child path key) s next verb
          (try_parse_verb_name-eq key) en ne.0 h)

  -- If a field sets `any_verb`, its key names a verb that the table grants then.
  field_sets_any :
      (o : Option CrossingVerb) (key : String) (value : RawValue) (path : String) (s f : TableScan)
      → ((w : CrossingVerb) → o ≡ some w → key ≡ c.verb_name w)
      → table_field o key value path s ≡ ok f
      → IsValidTable s.table
      → f.any_verb ≡ true
      → (s.any_verb ≡ true)
        ⊎ ((verb : CrossingVerb) × (key ≡ c.verb_name verb) × Grants f.table verb)
  unfolding table_field verb_field
  field_sets_any none key value path s f named e h any =
      inl (ground (arith, (other_field-KeepsVerbs key value path s f e).1))
  field_sets_any (some w) key value path s f named e h any =
      let (v, ev, e') = bind-eq-ok (parse_verb w value path) _ e in
      let same = ok_injective e' in
      elim (Bool-cases s.any_verb) [
        | inl before ↦ inl before
        | inr new ↦ inr (
          w,
          named w refl,
          subst (λ (q : TableScan). Grants q.table w) same
              (rw (get_or-set_self s.table.verbs (c.index w) v denied (in_range w s.table h))
                (rw (← same, new) at any)),
        )
      ]

  fields_grant :
      (fs : List (String × RawValue)) (path : String) (s f : TableScan)
      → table_fields fs path s ≡ ok f
      → HasDistinctKeys fs
      → IsValidTable s.table
      → f.any_verb ≡ true
      → (s.any_verb ≡ true) ⊎ ((verb : CrossingVerb) × Grants f.table verb)
  unfolding table_fields
  fields_grant [] path s f e d h any = inl (ground arith)
  fields_grant ((key, value) ∷ fs) path s f e d h any =
      let path' = child path key in
      let (next, en, e') =
        bind-eq-ok (table_field (try_parse_verb_name key) key value path' s) _ e in
      elim (fields_grant fs path next f e' d.1
        (table_field-IsValidTable (try_parse_verb_name key) key value path' s next en h) any) [
          | inr found ↦ inr found
          | inl set_before ↦
              elim (field_sets_any (try_parse_verb_name key) key value path' s next
                (try_parse_verb_name-eq key) en h set_before) [
                  | inl before ↦ inl before
                  | inr (verb, named, granted) ↦ inr (
                    verb,
                    fields-Grants fs path next f verb e'
                        (ne_of_distinct key (c.verb_name verb) fs named d.0) granted,
                  )
                ]
        ]

  some_verb :
      (fs : List (String × RawValue)) (path : String) (s f : TableScan)
      → table_fields fs path s ≡ ok f
      → HasDistinctKeys fs
      → IsValidTable s.table
      → f.any_verb ≡ true
      → s.any_verb ≢ true
      → (verb : CrossingVerb) × Grants f.table verb
  some_verb fs path s f e d h any before = elim (fields_grant fs path s f e d h any) [
    | inl was ↦ absurd (before was)
    | inr found ↦ found
  ]

  fields-name :
      (fs : List (String × RawValue)) (path : String) (s f : TableScan)
      → table_fields fs path s ≡ ok f
      → f.table.name ≡ s.table.name
  unfolding table_fields
  fields-name [] path s f e = ground arith
  fields-name ((key, value) ∷ fs) path s f e =
      let (next, en, e') =
        bind-eq-ok (table_field (try_parse_verb_name key) key value (child path key) s) _ e in
      fields-name fs path next f e'
      ∙ field-name (try_parse_verb_name key) key value (child path key) s next en

  -- What the loop over the fields of an object gives.
  table_object-Grants :
      (n : PolicyName) (fs : RawFields) (path : String) (t : PolicyTable)
      → table_object n fs path ≡ ok t
      → AreFields fs
      → IsValidTable t × (t.name ≡ n) × ((verb : CrossingVerb) × Grants t verb)
  unfolding table_object
  table_object-Grants n fs path t e d =
      let (_, known, e1) = bind-eq-ok (throw_if_unknown_fields fs path table_keys) _ e in
      let fresh : TableScan = record { table = fresh_table n path; any_verb = false } in
      let (final, ef, e2) = bind-eq-ok (table_fields (fields fs) path fresh) _ e1 in
      let valid =
        table_fields-IsValidTable (fields fs) path fresh final ef
          (fresh_table-IsValidTable n path) in
      elim (Bool-cases final.any_verb) [
        | inl any ↦
            subst (λ q. IsValidTable q × (q.name ≡ n) × ((verb : CrossingVerb) × Grants q verb))
              (ok_injective (rw any at e2))
              (
                valid,
                fields-name (fields fs) path fresh final ef,
                some_verb (fields fs) path fresh final ef (fields-HasDistinctKeys fs d)
                    (fresh_table-IsValidTable n path) any (λ p. cc),
              )
        | inr any_not ↦ cc (rw any_not at e2)
      ]

  -- A table entry of a document that parses is valid throughout: it names a schema and a table, every
  -- verb has the texts of its kind, a key that is set has one source of columns, every foreign key
  -- stays in the schema, and at least one verb is granted.
  pub parse_table_valid :
      (name : String) (value : RawValue) (path : String) (t : PolicyTable)
      → parse_table name value path ≡ ok t
      → IsDocument value
      → IsValidTable t
        × (IsNonEmpty t.name.schema × IsNonEmpty t.name.name)
        × ((verb : CrossingVerb) × Grants t verb)
  unfolding parse_table table_value
  parse_table_valid name (object fs) path t e d =
      let (n, en, e') = bind-eq-ok (rethrow_at_path path (parse_policy_table_name name)) _ e in
      let (valid, named, granted) = table_object-Grants n fs path t e' d in
      (valid, rw named (parse_policy_table_name_sound name n (rethrow_ok path _ en)), granted)
  parse_table_valid name nul path t e d = absurd d
  parse_table_valid name value path t e d =
      let (n, en, e') = bind-eq-ok (rethrow_at_path path (parse_policy_table_name name)) _ e in cc
