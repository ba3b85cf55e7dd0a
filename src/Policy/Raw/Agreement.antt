-- ===== src/Policy/Raw/Agreement.antt =====
-- JSON and SQL lower the same content alike.
use duckdb_virtual_catalog.Prelude.{
  ℕ, suc, String, ◌≡◌, refl, false, List, [], All, ok, bind-eq-ok, subst, ap, ok_injective, sym,
}
use duckdb_virtual_catalog.Host.{StringUtil}
use duckdb_virtual_catalog.CaseInsensitive.{has, insert}
use duckdb_virtual_catalog.CaseInsensitive.Laws.{has-insert}
use duckdb_virtual_catalog.Policy.Raw.{
  RawValue, RawItems, cons, RawFields, end, field, Json, null, real, bool, str, int, arr, obj,
  JsonItems, no_items, item, JsonMembers, no_members, member, SqlValue, sql_null, boolean_value,
  varchar, list_value, struct_value, other_type, SqlItems, sql_nil, sql_cons, SqlFields, sql_end,
  sql_field, fields, item_path, child, from_json, from_json_items, from_json_members, from_sql,
  from_sql_items, from_sql_fields,
}
use duckdb_virtual_catalog.Policy.Raw.Lowering.{
  IsDocument, AreItems, AreFields, from_json-IsDocument, item_inv, member_inv,
}

-- The SQL value that holds what a JSON value holds.
unfoldable mutual
  pub sql_of : Json → SqlValue
  sql_of null = sql_null
  sql_of real = other_type "DOUBLE"
  sql_of (bool b) = boolean_value b
  sql_of (str s) = varchar s
  sql_of (int n) = other_type "BIGINT"
  sql_of (arr vs) = list_value (sql_of_items vs)
  sql_of (obj ms) = struct_value (sql_of_members ms)

  pub sql_of_items : JsonItems → SqlItems
  sql_of_items no_items = sql_nil
  sql_of_items (item v vs) = sql_cons (sql_of v) (sql_of_items vs)

  pub sql_of_members : JsonMembers → SqlFields
  sql_of_members no_members = sql_end
  sql_of_members (member k v ms) = sql_field k (sql_of v) (sql_of_members ms)

-- No number stands in the value.
abbrev mutual
  pub HasNoNumber : Json → Type 0
  HasNoNumber null = Unit
  HasNoNumber real = Unit
  HasNoNumber (bool b) = Unit
  HasNoNumber (str s) = Unit
  HasNoNumber (int n) = ⊥
  HasNoNumber (arr vs) = HaveNoNumber vs
  HasNoNumber (obj ms) = MembersHaveNoNumber ms

  pub HaveNoNumber : JsonItems → Type 0
  HaveNoNumber no_items = Unit
  HaveNoNumber (item v vs) = HasNoNumber v × HaveNoNumber vs

  pub MembersHaveNoNumber : JsonMembers → Type 0
  MembersHaveNoNumber no_members = Unit
  MembersHaveNoNumber (member k v ms) = HasNoNumber v × MembersHaveNoNumber ms

module _ ⦃u : StringUtil⦄ where
  mutual
    unfolding from_json from_sql sql_of

    lowering_agrees :
        (j : Json) (path : String) (r : RawValue)
        → HasNoNumber j
        → from_json j path ≡ ok r
        → from_sql (sql_of j) path ≡ ok r
    lowering_agrees null path r h e = cc
    lowering_agrees real path r h e = cc
    lowering_agrees (bool b) path r h e = e
    lowering_agrees (str b) path r h e = e
    lowering_agrees (int b) path r h e = absurd h
    lowering_agrees (arr vs) path r h e =
        let (ws, ews, e') = bind-eq-ok (from_json_items vs path 0) _ e in
        rw (items_agree vs path 0 ws h ews) e'
    lowering_agrees (obj ms) path r h e =
        let (gs, egs, e') = bind-eq-ok (from_json_members ms path []) _ e in
        rw (members_agree ms path [] gs h egs) e'

    items_agree :
        (vs : JsonItems) (path : String) (index : ℕ) (rs : RawItems)
        → HaveNoNumber vs
        → from_json_items vs path index ≡ ok rs
        → from_sql_items (sql_of_items vs) path index ≡ ok rs
    items_agree no_items path index rs h e = e
    items_agree (item v vs) path index rs h e =
        let (w, ws, ew, ews, same) = item_inv v vs path index rs e in
        rw
          (
            lowering_agrees v (item_path path index) w h.0 ew,
            items_agree vs path (suc index) ws h.1 ews,
          )
          (ap ok same)

    members_agree :
        (ms : JsonMembers) (path : String) (seen : List String) (fs : RawFields)
        → MembersHaveNoNumber ms
        → from_json_members ms path seen ≡ ok fs
        → from_sql_fields (sql_of_members ms) path ≡ ok fs
    members_agree no_members path seen fs h e = e
    members_agree (member name v ms) path seen fs h e =
        let (w, gs, once, ew, egs, same) = member_inv name v ms path seen fs e in
        rw
          (
            lowering_agrees v (child path name) w h.0 ew,
            members_agree ms path (insert name seen) gs h.1 egs,
          )
          (ap ok same)

  -- No key of the fields has been seen.
  abbrev AreNew : List String → RawFields → Type 0
  AreNew seen fs = All (λ f. has f.0 seen ≡ false) (fields fs)

  AreNew-insert :
      (name : String) (seen : List String) (fs : RawFields)
      → All (λ f. u.ci_equals name f.0 ≡ false) (fields fs)
      → AreNew seen fs
      → AreNew (insert name seen) fs
  unfolding fields
  AreNew-insert name seen end different new = tt
  AreNew-insert name seen (field k v fs) (h, different) (g, new) =
      (rw (has-insert, h, g) refl, AreNew-insert name seen fs different new)

  AreNew-nil : (fs : RawFields) → AreNew [] fs
  unfolding fields has
  AreNew-nil end = tt
  AreNew-nil (field k v fs) = (refl, AreNew-nil fs)

  sql_item_inv :
      (v : Json) (vs : JsonItems) (path : String) (index : ℕ) (rs : RawItems)
      → from_sql_items (sql_of_items (item v vs)) path index ≡ ok rs
      → (w : RawValue) × (ws : RawItems) × (from_sql (sql_of v) (item_path path index) ≡ ok w)
        × (from_sql_items (sql_of_items vs) path (suc index) ≡ ok ws)
        × (cons w ws ≡ rs)
  unfolding from_sql sql_of
  sql_item_inv v vs path index rs e =
      let (w, ew, e') = bind-eq-ok (from_sql (sql_of v) (item_path path index)) _ e in
      let (ws, ews, e'') = bind-eq-ok (from_sql_items (sql_of_items vs) path (suc index)) _ e' in
      (w, ws, ew, ews, cc)

  sql_field_inv :
      (name : String) (v : Json) (ms : JsonMembers) (path : String) (fs : RawFields)
      → from_sql_fields (sql_of_members (member name v ms)) path ≡ ok fs
      → (w : RawValue) × (gs : RawFields) × (from_sql (sql_of v) (child path name) ≡ ok w)
        × (from_sql_fields (sql_of_members ms) path ≡ ok gs)
        × (field name w gs ≡ fs)
  unfolding from_sql sql_of
  sql_field_inv name v ms path fs e =
      let (w, ew, e') = bind-eq-ok (from_sql (sql_of v) (child path name)) _ e in
      let (gs, egs, e'') = bind-eq-ok (from_sql_fields (sql_of_members ms) path) _ e' in
      (w, gs, ew, egs, cc)

  mutual
    unfolding from_json from_sql sql_of fields

    document_agrees :
        (j : Json) (path : String) (r : RawValue)
        → from_sql (sql_of j) path ≡ ok r
        → IsDocument r
        → from_json j path ≡ ok r
    document_agrees null path r e d = absurd (subst (λ q. IsDocument q) (sym (ok_injective e)) d)
    document_agrees real path r e d = cc
    document_agrees (bool b) path r e d = e
    document_agrees (str b) path r e d = e
    document_agrees (int b) path r e d = cc
    document_agrees (arr vs) path r e d =
        let (ws, ews, e') = bind-eq-ok (from_sql_items (sql_of_items vs) path 0) _ e in
        rw (document_items vs path 0 ws ews (subst (λ q. IsDocument q) (sym (ok_injective e')) d))
          e'
    document_agrees (obj ms) path r e d =
        let (gs, egs, e') = bind-eq-ok (from_sql_fields (sql_of_members ms) path) _ e in
        rw
          (document_members ms path [] gs egs (subst (λ q. IsDocument q) (sym (ok_injective e')) d)
            (AreNew-nil gs))
          e'

    document_items :
        (vs : JsonItems) (path : String) (index : ℕ) (rs : RawItems)
        → from_sql_items (sql_of_items vs) path index ≡ ok rs
        → AreItems rs
        → from_json_items vs path index ≡ ok rs
    document_items no_items path index rs e d = e
    document_items (item v vs) path index rs e d =
        let (w, ws, ew, ews, same) = sql_item_inv v vs path index rs e in
        let (first, rest) = subst (λ q. AreItems q) (sym same) d in
        rw
          (
            document_agrees v (item_path path index) w ew first,
            document_items vs path (suc index) ws ews rest,
          )
          (ap ok same)

    document_members :
        (ms : JsonMembers) (path : String) (seen : List String) (fs : RawFields)
        → from_sql_fields (sql_of_members ms) path ≡ ok fs
        → AreFields fs
        → AreNew seen fs
        → from_json_members ms path seen ≡ ok fs
    document_members no_members path seen fs e d new = e
    document_members (member name v ms) path seen fs e d new =
        let (w, gs, ew, egs, same) = sql_field_inv name v ms path fs e in
        let (first, different, rest) = subst (λ q. AreFields q) (sym same) d in
        let (once, later) = subst (AreNew seen) (sym same) new in
        rw
          (
            once,
            document_agrees v (child path name) w ew first,
            document_members ms path (insert name seen) gs egs rest
                (AreNew-insert name seen gs different later),
          )
          (ap ok same)

  -- Content with no number in it: JSON lowers it to a value at a path exactly if SQL lowers it to that
  -- value there and the value is a document, with no NULL in it and no object with two keys that are
  -- equal case-insensitively.
  pub from_sql-sql_of :
      (j : Json) (path : String) (r : RawValue)
      → HasNoNumber j
      → (from_json j path ≡ ok r → (from_sql (sql_of j) path ≡ ok r) × IsDocument r)
        × (from_sql (sql_of j) path ≡ ok r → IsDocument r → from_json j path ≡ ok r)
  from_sql-sql_of j path r h = (
    λ e. (lowering_agrees j path r h e, from_json-IsDocument j path r e),
    document_agrees j path r,
  )
