-- ===== src/Policy/Table/Laws.antt =====
-- What a parsed table entry guarantees.
use duckdb_virtual_catalog.Prelude.{
  ℕ, zero, suc, ◌<◌, String, ◌≡◌, refl, ◌∙◌, inl, inr, true, false, List, [], ◌∷◌, arith, All,
  Option, none, some, Bool-cases, ◌≟◌, eq_iff, length, set, get_or, replicate, length-replicate,
  length-set, get_or-set_self, get_or-set_ne, ok, bind-eq-ok, ok_injective, subst,
}
use native.Mathlib.Decide.{ℕ_discrete}
use duckdb_virtual_catalog.Host.{StringUtil, Crossing, CrossingVerb}
use duckdb_virtual_catalog.Policy.Name.{PolicyName}
use duckdb_virtual_catalog.Policy.Raw.{RawValue, child}
use duckdb_virtual_catalog.Policy.Settings.{
  PolicyVerb, denied, string_list, parse_verb, parse_key, parse_foreign_keys,
}
use duckdb_virtual_catalog.Policy.Settings.Laws.{IsValidVerb, parse_verb_valid}
use duckdb_virtual_catalog.Policy.Settings.Keys.{
  IsValidKey, IsParentOf, parse_key_valid, parse_foreign_keys-IsParentOf,
}
use duckdb_virtual_catalog.Policy.Table.{
  PolicyTable, TableScan, find_verb, try_parse_verb_name, verb_field, other_field, table_field,
  table_fields, fresh_table,
}

module _ ⦃u : StringUtil⦄ ⦃c : Crossing⦄ where
  -- The table's setting of a verb
  abbrev pub verb_of : PolicyTable → CrossingVerb → PolicyVerb
  verb_of t verb = get_or t.verbs (c.index verb) denied

  -- What holds of the table after each field
  pub record IsValidTable (t : PolicyTable) : Type 0 where
    pub verb_count : length t.verbs ≡ length c.verbs
    pub each_verb : (verb : CrossingVerb) → IsValidVerb verb (verb_of t verb)
    pub valid_key : (t.has_key ≡ true → IsValidKey t.key)
    pub parents : All (IsParentOf t.name) t.foreign_keys

  pub find_verb_name :
      (key : String) (verbs : List CrossingVerb) (verb : CrossingVerb)
      → find_verb key verbs ≡ some verb
      → key ≡ c.verb_name verb
  unfolding find_verb
  find_verb_name key [] verb e = cc
  find_verb_name key (v ∷ vs) verb e =
      ground (arith, find_verb_name key vs verb, eq_iff key (c.verb_name v))

  get-denied : (n i : ℕ) → get_or (replicate n denied) i denied ≡ denied
  get-denied zero i = refl
  get-denied (suc n) zero = refl
  get-denied (suc n) (suc i) = get-denied n i

  pub fresh_table-IsValidTable :
      (n : PolicyName) (path : String) → IsValidTable (fresh_table n path)
  fresh_table-IsValidTable n path = record {
    verb_count = length-replicate (length c.verbs) denied;
    each_verb = λ verb. inl (get-denied (length c.verbs) (c.index verb));
    valid_key = λ e. cc;
    parents = tt;
  }

  pub in_range :
      (verb : CrossingVerb) (t : PolicyTable) → IsValidTable t → c.index verb < length t.verbs
  in_range verb t h = omega (arith, c.index_lt verb, h.verb_count)

  set_verb-valid :
      (t : PolicyTable) (v : PolicyVerb) (verb other : CrossingVerb)
      → IsValidTable t
      → IsValidVerb verb v
      → IsValidVerb other (get_or (set t.verbs (c.index verb) v) (c.index other) denied)
  set_verb-valid t v verb other h valid = elim (ℕ_discrete (c.index verb) (c.index other)) [
    | yes same ↦
        subst (λ w. IsValidVerb w (get_or (set t.verbs (c.index verb) v) (c.index w) denied))
          (c.index_injective verb other same)
          (rw (get_or-set_self t.verbs (c.index verb) v denied (in_range verb t h)) valid)
    | no differ ↦ rw (get_or-set_ne t.verbs v denied differ) (h.each_verb other)
  ]

  verb_field-IsValidTable :
      (verb : CrossingVerb) (value : RawValue) (path : String) (s f : TableScan)
      → verb_field verb value path s ≡ ok f
      → IsValidTable s.table
      → IsValidTable f.table
  unfolding verb_field
  verb_field-IsValidTable verb value path s f e h =
      let (v, ev, e') = bind-eq-ok (parse_verb verb value path) _ e in
      subst (λ (q : TableScan). IsValidTable q.table) (ok_injective e')
        (record {
          verb_count = length-set s.table.verbs (c.index verb) v ∙ h.verb_count;
          each_verb = λ other.
              set_verb-valid s.table v verb other h (parse_verb_valid verb value path v ev).1;
          valid_key = h.valid_key;
          parents = h.parents;
        })

  other_field-IsValidTable :
      (key : String) (value : RawValue) (path : String) (s f : TableScan)
      → other_field key value path s ≡ ok f
      → IsValidTable s.table
      → IsValidTable f.table
  unfolding other_field
  other_field-IsValidTable key value path s f e h = elim (Bool-cases (key ≟ "primary_key")) [
    | inl hit ↦
        let (k, ek, e') = bind-eq-ok (parse_key value path) _ (rw hit at e) in
        subst (λ (q : TableScan). IsValidTable q.table) (ok_injective e')
          (record {
            verb_count = h.verb_count;
            each_verb = h.each_verb;
            valid_key = λ _. parse_key_valid value path k ek;
            parents = h.parents;
          })
    | inr miss ↦
        let (names, en, e1) =
          bind-eq-ok (string_list value path "a table name" false) _ (rw miss at e) in
        let (ps, ep, e2) = bind-eq-ok (parse_foreign_keys names s.table.name path) _ e1 in
        subst (λ (q : TableScan). IsValidTable q.table) (ok_injective e2)
          (record {
            verb_count = h.verb_count;
            each_verb = h.each_verb;
            valid_key = h.valid_key;
            parents = parse_foreign_keys-IsParentOf names s.table.name path ps ep;
          })
  ]

  pub table_field-IsValidTable :
      (o : Option CrossingVerb) (key : String) (value : RawValue) (path : String) (s f : TableScan)
      → table_field o key value path s ≡ ok f
      → IsValidTable s.table
      → IsValidTable f.table
  unfolding table_field
  table_field-IsValidTable none key value path s f e h =
      other_field-IsValidTable key value path s f e h
  table_field-IsValidTable (some verb) key value path s f e h =
      verb_field-IsValidTable verb value path s f e h

  pub table_fields-IsValidTable :
      (fs : List (String × RawValue)) (path : String) (s f : TableScan)
      → table_fields fs path s ≡ ok f
      → IsValidTable s.table
      → IsValidTable f.table
  unfolding table_fields
  table_fields-IsValidTable [] path s f e h =
      subst (λ (q : TableScan). IsValidTable q.table) (ok_injective e) h
  table_fields-IsValidTable ((key, value) ∷ fs) path s f e h =
      let (next, en, e') =
        bind-eq-ok (table_field (try_parse_verb_name key) key value (child path key) s) _ e in
      table_fields-IsValidTable fs path next f e'
        (table_field-IsValidTable (try_parse_verb_name key) key value (child path key) s next en h)
