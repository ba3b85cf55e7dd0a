-- ===== src/Policy/Raw/Lowering.antt =====
-- What JSON and SQL lower to.
use duckdb_virtual_catalog.Prelude.{
  ℕ, suc, String, ◌≡◌, refl, true, false, List, [], arith, All, ok, bind-eq-ok, Bool-cases, inl,
  inr, subst, ok_injective,
}
use duckdb_virtual_catalog.Host.{StringUtil}
use duckdb_virtual_catalog.CaseInsensitive.{has, insert}
use duckdb_virtual_catalog.CaseInsensitive.Laws.{has-insert, has_congr}
use duckdb_virtual_catalog.Policy.Raw.{
  RawValue, nul, boolean, integer, text, list, object, RawItems, nil, cons, RawFields, end, field,
  Json, null, real, bool, str, int, arr, obj, JsonItems, no_items, item, JsonMembers, no_members,
  member, fields, item_path, child, from_json, from_json_items, from_json_members,
}

module _ ⦃u : StringUtil⦄ where
  -- `NULL` stands nowhere in the value, and no object in it has two keys that are equal
  -- case-insensitively.
  abbrev mutual
    pub IsDocument : RawValue → Type 0
    IsDocument nul = ⊥
    IsDocument (boolean b) = Unit
    IsDocument (integer n) = Unit
    IsDocument (text s) = Unit
    IsDocument (list vs) = AreItems vs
    IsDocument (object fs) = AreFields fs

    pub AreItems : RawItems → Type 0
    AreItems nil = Unit
    AreItems (cons v vs) = IsDocument v × AreItems vs

    pub AreFields : RawFields → Type 0
    AreFields end = Unit
    AreFields (field k v fs) =
        IsDocument v × All (λ f. u.ci_equals k f.0 ≡ false) (fields fs) × AreFields fs

  pub item_inv :
      (v : Json) (vs : JsonItems) (path : String) (index : ℕ) (rs : RawItems)
      → from_json_items (item v vs) path index ≡ ok rs
      → (w : RawValue) × (ws : RawItems) × (from_json v (item_path path index) ≡ ok w)
        × (from_json_items vs path (suc index) ≡ ok ws)
        × (cons w ws ≡ rs)
  unfolding from_json
  item_inv v vs path index rs e =
      let (w, ew, e') = bind-eq-ok (from_json v (item_path path index)) _ e in
      let (ws, ews, e'') = bind-eq-ok (from_json_items vs path (suc index)) _ e' in
      (w, ws, ew, ews, cc)

  pub member_inv :
      (name : String) (v : Json) (ms : JsonMembers) (path : String) (seen : List String)
      (fs : RawFields)
      → from_json_members (member name v ms) path seen ≡ ok fs
      → (w : RawValue) × (gs : RawFields) × (has name seen ≡ false)
        × (from_json v (child path name) ≡ ok w)
        × (from_json_members ms path (insert name seen) ≡ ok gs)
        × (field name w gs ≡ fs)
  unfolding from_json
  member_inv name v ms path seen fs e = elim (Bool-cases (has name seen)) [
    | inl twice ↦ cc (rw twice at e)
    | inr once ↦
        let (w, ew, e') = bind-eq-ok (from_json v (child path name)) _ (rw once at e) in
        let (gs, egs, e'') = bind-eq-ok (from_json_members ms path (insert name seen)) _ e' in
        (w, gs, once, ew, egs, cc)
  ]

  no_members_inv :
      (path : String) (seen : List String) (fs : RawFields)
      → from_json_members no_members path seen ≡ ok fs
      → end ≡ fs
  unfolding from_json
  no_members_inv path seen fs e = cc

  -- The keys of the members are new with respect to the keys seen before.
  members_fresh :
      (ms : JsonMembers) (path : String) (seen : List String) (fs : RawFields) (s : String)
      → from_json_members ms path seen ≡ ok fs
      → has s seen ≡ true
      → All (λ f. u.ci_equals s f.0 ≡ false) (fields fs)
  unfolding fields
  members_fresh no_members path seen fs s e h = rw (← no_members_inv path seen fs e) tt
  members_fresh (member name v ms) path seen fs s e h =
      let (w, gs, once, ew, egs, same) = member_inv name v ms path seen fs e in
      rw (← same) (
        ground (arith, has_congr s name seen),
        members_fresh ms path (insert name seen) gs s egs (rw has-insert (ground (arith))),
      )

  mutual
    unfolding from_json

    from_json_sound :
        (j : Json) (path : String) (r : RawValue) → from_json j path ≡ ok r → IsDocument r
    from_json_sound null path r e = cc
    from_json_sound real path r e = cc
    from_json_sound (bool b) path r e = subst (λ q. IsDocument q) (ok_injective e) tt
    from_json_sound (str b) path r e = subst (λ q. IsDocument q) (ok_injective e) tt
    from_json_sound (int b) path r e = subst (λ q. IsDocument q) (ok_injective e) tt
    from_json_sound (arr vs) path r e =
        let (ws, ews, e') = bind-eq-ok (from_json_items vs path 0) _ e in
        subst (λ q. IsDocument q) (ok_injective e') (items_sound vs path 0 ws ews)
    from_json_sound (obj ms) path r e =
        let (gs, egs, e') = bind-eq-ok (from_json_members ms path []) _ e in
        subst (λ q. IsDocument q) (ok_injective e') (members_sound ms path [] gs egs)

    items_sound :
        (vs : JsonItems) (path : String) (index : ℕ) (rs : RawItems)
        → from_json_items vs path index ≡ ok rs
        → AreItems rs
    items_sound no_items path index rs e = subst (λ q. AreItems q) (ok_injective e) tt
    items_sound (item v vs) path index rs e =
        let (w, ws, ew, ews, same) = item_inv v vs path index rs e in
        subst (λ q. AreItems q) same
          (from_json_sound v (item_path path index) w ew, items_sound vs path (suc index) ws ews)

    members_sound :
        (ms : JsonMembers) (path : String) (seen : List String) (fs : RawFields)
        → from_json_members ms path seen ≡ ok fs
        → AreFields fs
    members_sound no_members path seen fs e = subst (λ q. AreFields q) (ok_injective e) tt
    members_sound (member name v ms) path seen fs e =
        let (w, gs, once, ew, egs, same) = member_inv name v ms path seen fs e in
        subst (λ q. AreFields q) same
          (
            from_json_sound v (child path name) w ew,
            members_fresh ms path (insert name seen) gs name egs (rw (has-insert, u.ci_refl) refl),
            members_sound ms path (insert name seen) gs egs,
          )

  -- A JSON document that lowers holds no NULL, and the keys of each object in it are distinct
  -- case-insensitively.
  pub from_json-IsDocument :
      (j : Json) (path : String) (r : RawValue) → from_json j path ≡ ok r → IsDocument r
  from_json-IsDocument j path r e = from_json_sound j path r e
