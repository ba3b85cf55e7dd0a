-- ===== src/Policy/Raw.antt =====
-- `RawValue`, which JSON and SQL values both lower to, and its accessors.
pub mod Lowering
pub mod Agreement
use duckdb_virtual_catalog.Prelude.{
  ℕ, suc, ℤ, String, Bool, true, false, not, ◌&&◌, ◌||◌, List, [], ◌∷◌, Option, none, some, ◌≟◌,
  ◌<>◌, is_empty, has_any_of, to_string, if◌then◌else◌, io, Result, ok, throw, ◌>>=◌, ◌>>◌,
}
use duckdb_virtual_catalog.Host.{StringUtil}
use duckdb_virtual_catalog.CaseInsensitive.{has, insert}

-- A constructor for each `Kind`.
mutual
  pub data RawValue : Type 0 where
    nul : RawValue
    boolean : Bool → RawValue
    integer : ℤ → RawValue
    text : String → RawValue
    list : RawItems → RawValue
    object : RawFields → RawValue

  pub data RawItems : Type 0 where
    nil : RawItems
    cons : RawValue → RawItems → RawItems

  pub data RawFields : Type 0 where
    end : RawFields
    field : String → RawValue → RawFields → RawFields

-- What the accessors of yyjson tell apart in a parsed document. `int` holds what
-- `yyjson_get_sint` returns.
mutual
  pub data Json : Type 0 where
    null real : Json
    bool : Bool → Json
    str : String → Json
    int : ℤ → Json
    arr : JsonItems → Json
    obj : JsonMembers → Json

  pub data JsonItems : Type 0 where
    no_items : JsonItems
    item : Json → JsonItems → JsonItems

  pub data JsonMembers : Type 0 where
    no_members : JsonMembers
    member : String → Json → JsonMembers → JsonMembers

-- A DuckDB `Value` by its type; `other_type` holds `type.ToString()`.
mutual
  pub data SqlValue : Type 0 where
    sql_null : SqlValue
    boolean_value : Bool → SqlValue
    varchar : String → SqlValue
    list_value : SqlItems → SqlValue
    struct_value : SqlFields → SqlValue
    other_type : String → SqlValue

  pub data SqlItems : Type 0 where
    sql_nil : SqlItems
    sql_cons : SqlValue → SqlItems → SqlItems

  pub data SqlFields : Type 0 where
    sql_end : SqlFields
    sql_field : String → SqlValue → SqlFields → SqlFields

unfoldable pub items : RawItems → List RawValue
items nil = []
items (cons v vs) = v ∷ items vs

unfoldable pub fields : RawFields → List (String × RawValue)
fields end = []
fields (field k v fs) = (k, v) ∷ fields fs

-- `Fail`
abbrev pub fail {ℓ} : {A : Type ℓ} → String → String → Result A
fail path message = throw io ("vcatbridge: " <> path <> ": " <> message)

-- `Describe`
unfoldable pub describe : RawValue → String
describe nul = "null"
describe (boolean b) = if b then "true" else "false"
describe (integer n) = "a number"
describe (text s) = "a string"
describe (list vs) = "a list"
describe (object fs) = "an object"

abbrev pub item_path : String → ℕ → String
item_path path index = path <> "[" <> to_string index <> "]"

module _ ⦃u : StringUtil⦄ where
  unfoldable pub quote_key : String → String
  quote_key key = "\"" <> u.replace key "\"" "\\\"" <> "\""

  -- `Child`
  unfoldable pub child : String → String → String
  child path key =
      let plain =
        not (is_empty key) && not (has_any_of (b'.' ∷ b'"' ∷ b' ' ∷ b'[' ∷ b']' ∷ []) key) in
      let part = if plain then key else quote_key key in
      if is_empty path then part else path <> "." <> part

  unfoldable mutual
    pub from_json : Json → String → Result RawValue
    from_json null path = fail path "null is not a value here; leave the key out instead"
    from_json (bool b) path = ok (boolean b)
    from_json (str s) path = ok (text s)
    from_json (arr vs) path = do out ← from_json_items vs path 0; ok (list out)
    from_json (obj ms) path = do out ← from_json_members ms path []; ok (object out)
    from_json (int n) path = ok (integer n)
    from_json real path = fail path "fractional numbers are not a value here"

    pub from_json_items : JsonItems → String → ℕ → Result RawItems
    from_json_items no_items path index = ok nil
    from_json_items (item v vs) path index = do
      first ← from_json v (item_path path index)
      rest ← from_json_items vs path (suc index)
      ok (cons first rest)

    pub from_json_members : JsonMembers → String → List String → Result RawFields
    from_json_members no_members path seen = ok end
    from_json_members (member name v ms) path seen =
        if has name seen then fail path ("the key " <> quote_key name <> " appears twice") else (do
          first ← from_json v (child path name)
          rest ← from_json_members ms path (insert name seen)
          ok (field name first rest))

  unfoldable mutual
    pub from_sql : SqlValue → String → Result RawValue
    from_sql sql_null path = ok nul
    from_sql (boolean_value b) path = ok (boolean b)
    from_sql (varchar s) path = ok (text s)
    from_sql (list_value vs) path = do out ← from_sql_items vs path 0; ok (list out)
    from_sql (struct_value fs) path = do out ← from_sql_fields fs path; ok (object out)
    from_sql (other_type t) path =
        fail path ("expected a string, boolean, list or struct, not " <> t)

    pub from_sql_items : SqlItems → String → ℕ → Result RawItems
    from_sql_items sql_nil path index = ok nil
    from_sql_items (sql_cons v vs) path index = do
      first ← from_sql v (item_path path index)
      rest ← from_sql_items vs path (suc index)
      ok (cons first rest)

    pub from_sql_fields : SqlFields → String → Result RawFields
    from_sql_fields sql_end path = ok end
    from_sql_fields (sql_field name v fs) path = do
      first ← from_sql v (child path name)
      rest ← from_sql_fields fs path
      ok (field name first rest)

-- The inner loop of `ThrowIfUnknownFields`.
unfoldable pub is_known : List String → String → Bool
is_known [] key = false
is_known (name ∷ known) key = key ≟ name || is_known known key

module _ ⦃u : StringUtil⦄ where
  check_fields : List String → String → List (String × RawValue) → Result (Unit {0})
  check_fields known path [] = ok tt
  check_fields known path ((key, v) ∷ fs) =
      if is_known known key
      then check_fields known path fs
      else fail path ("unknown key " <> quote_key key <> "; expected one of: " <> u.join known ", ")

  unfoldable pub throw_if_unknown_fields : RawFields → String → List String → Result (Unit {0})
  unfolding check_fields
  throw_if_unknown_fields fs path known = check_fields known path (fields fs)

-- `Field`, on the list of an object's fields
unfoldable pub get_field : List (String × RawValue) → String → Option RawValue
get_field [] name = none
get_field ((key, v) ∷ fs) name = if key ≟ name then some v else get_field fs name
