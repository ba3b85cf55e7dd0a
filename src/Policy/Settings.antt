-- ===== src/Policy/Settings.antt =====
-- The settings of a table: strings, string lists, verbs, keys and foreign keys.
pub mod Keys
pub mod Laws
use duckdb_virtual_catalog.Prelude.{
  ℕ, suc, String, Bool, true, false, not, ◌&&◌, ◌||◌, List, [], ◌∷◌, Option, none, some, ◌≟◌, ◌<>◌,
  is_empty, if◌then◌else◌, Failure, Result, ok, err, ◌>>=◌, ◌>>◌,
}
use duckdb_virtual_catalog.Host.{
  StringUtil, Crossing, CrossingVerb, select, insert, update, delete, alter, create, drop,
}
use duckdb_virtual_catalog.Policy.Name.{PolicyName, parse_policy_table_name}
use duckdb_virtual_catalog.Policy.Raw.{
  RawValue, nul, boolean, integer, text, list, object, RawFields, items, fields, fail, describe,
  item_path, child, throw_if_unknown_fields, get_field,
}

pub record PolicyVerb : Type 0 where
  pub granted : Bool
  pub using_text : String
  pub check_text : String

abbrev pub denied : PolicyVerb
denied = record { granted = false; using_text = ""; check_text = "" }

pub record PolicyKey : Type 0 where
  pub columns : List String
  pub columns_from_query : String
  pub verify_unique : String

abbrev pub no_key : PolicyKey
no_key = record { columns = []; columns_from_query = ""; verify_unique = "" }

abbrev pub no_columns : List String → Bool
no_columns [] = true
no_columns (c ∷ cs) = false

module _ ⦃u : StringUtil⦄ where
  -- `IsBlank`
  unfoldable pub is_blank : String → Bool
  is_blank s = is_empty (u.trim s)

  -- `NonEmptyString`
  unfoldable pub non_empty_string : RawValue → String → String → Result String
  non_empty_string nul path what = fail path (what <> " cannot be NULL")
  non_empty_string (text s) path what =
      if is_blank s then fail path (what <> " cannot be empty") else ok s
  non_empty_string value path what = fail path (what <> " must be a string, not " <> describe value)

  string_items : List RawValue → String → String → ℕ → Result (List String)
  string_items [] path what index = ok []
  string_items (v ∷ vs) path what index = do
    first ← non_empty_string v (item_path path index) what
    rest ← string_items vs path what (suc index)
    ok (first ∷ rest)

  -- `StringList`
  unfoldable pub string_list : RawValue → String → String → Bool → Result (List String)
  unfolding string_items
  string_list (text s) path what true = do one ← non_empty_string (text s) path what; ok (one ∷ [])
  string_list (list vs) path what allow_single = string_items (items vs) path what 0
  string_list value path what allow_single =
      fail path (what <> " must be a list of strings, not " <> describe value)

  -- `IsTrueText`
  unfoldable pub is_true_text : String → Bool
  is_true_text s = u.ci_equals (u.trim s) "true"

  -- `Predicate`
  unfoldable pub predicate : RawValue → String → Result String
  predicate (boolean false) path =
      fail path "a predicate cannot be false; leave the verb out to deny it"
  predicate (boolean true) path = ok "true"
  predicate value path = non_empty_string value path "a predicate"

  -- A predicate that may be left out, with the text that stands then.
  optional_predicate : Option RawValue → String → String → Result String
  optional_predicate none path absent = ok absent
  optional_predicate (some v) path absent = predicate v path

  -- `NonEmptyString` of a field that may be left out
  optional_string : Option RawValue → String → String → Result String
  optional_string none path what = ok ""
  optional_string (some v) path what = non_empty_string v path what

abbrev pub grants : String → String → PolicyVerb
grants using_text check_text = record {
  granted = true;
  using_text = using_text;
  check_text = check_text;
}

module _ ⦃u : StringUtil⦄ ⦃c : Crossing⦄ where
  -- `CREATE` and `DROP` of `ParseVerb`
  parse_flag : CrossingVerb → RawValue → String → Result PolicyVerb
  parse_flag verb (object fs) path = fail path ("'" <> c.verb_name verb <> "' takes only true")
  parse_flag verb value path = do
    said ← predicate value path
    if is_true_text said
        then ok (grants "true" "")
        else fail path ("'" <> c.verb_name verb <> "' takes only true")

  insert_check : Option RawValue → String → Result PolicyVerb
  insert_check none path = fail path "'insert' needs a check predicate"
  insert_check (some v) path = do check ← predicate v (child path "check"); ok (grants "true" check)

  parse_insert : RawValue → String → Result PolicyVerb
  unfolding insert_check
  parse_insert (object fs) path = do
    throw_if_unknown_fields fs path ("check" ∷ [])
    insert_check (get_field (fields fs) "check") path
  parse_insert value path = do check ← predicate value path; ok (grants "true" check)

  parse_update : RawValue → String → Result PolicyVerb
  unfolding optional_predicate
  parse_update (object fs) path = do
    throw_if_unknown_fields fs path ("using" ∷ "check" ∷ [])
    using_text ← optional_predicate (get_field (fields fs) "using") (child path "using") "true"
    check ← optional_predicate (get_field (fields fs) "check") (child path "check") ""
    ok (grants using_text check)
  parse_update value path = do using_text ← predicate value path; ok (grants using_text "")

  -- The default case: `SELECT`, `DELETE_` and `ALTER`
  parse_filter : CrossingVerb → RawValue → String → Result PolicyVerb
  parse_filter verb (object fs) path =
      fail path ("'" <> c.verb_name verb <> "' takes true or a predicate string")
  parse_filter verb value path = do using_text ← predicate value path; ok (grants using_text "")

  parse_granted : CrossingVerb → RawValue → String → Result PolicyVerb
  unfolding parse_flag parse_insert parse_update parse_filter
  parse_granted create value path = parse_flag create value path
  parse_granted drop value path = parse_flag drop value path
  parse_granted insert value path = parse_insert value path
  parse_granted update value path = parse_update value path
  parse_granted verb value path = parse_filter verb value path

  -- `ParseVerb`
  unfoldable pub parse_verb : CrossingVerb → RawValue → String → Result PolicyVerb
  unfolding parse_granted
  parse_verb verb nul path = ok denied
  parse_verb verb (boolean false) path = ok denied
  parse_verb verb value path = parse_granted verb value path

-- `catch (std::exception &ex) { Fail(path, ErrorData(ex).RawMessage()); }`
unfoldable pub rethrow_at_path {ℓ} : {A : Type ℓ} → String → Result A → Result A
rethrow_at_path path (ok a) = ok a
rethrow_at_path path (err e) = fail path e.message

module _ ⦃u : StringUtil⦄ where
  -- The columns of a key, at `path`; none is an error at that path.
  key_columns : RawValue → String → Result (List String)
  key_columns value path = do
    columns ← string_list value path "a key column" false
    if no_columns columns then fail path "the key column list cannot be empty" else ok columns

  -- Exactly one of `columns` and `columns_from_query`.
  key_source : Option RawValue → Option RawValue → String → Result PolicyKey
  unfolding key_columns
  key_source (some columns) none path = do
    cs ← key_columns columns (child path "columns")
    ok (record no_key { columns = cs })
  key_source none (some query) path = do
    q ← non_empty_string query (child path "columns_from_query") "columns_from_query"
    ok (record no_key { columns_from_query = q })
  key_source columns query path =
      fail path "primary_key needs exactly one of columns or columns_from_query"

  -- `ParseKey`
  unfoldable pub parse_key : RawValue → String → Result PolicyKey
  unfolding key_source optional_string
  parse_key (list vs) path = do cs ← key_columns (list vs) path; ok (record no_key { columns = cs })
  parse_key (object fs) path = do
    throw_if_unknown_fields fs path ("columns" ∷ "columns_from_query" ∷ "verify_unique" ∷ [])
    key ←
        key_source (get_field (fields fs) "columns") (get_field (fields fs) "columns_from_query")
          path
    verify ←
        optional_string (get_field (fields fs) "verify_unique") (child path "verify_unique")
          "verify_unique"
    ok (record key { verify_unique = verify })
  parse_key value path =
      fail path ("primary_key must be a list of columns or an object, not " <> describe value)

  -- `ParentName`
  unfoldable pub parent_name : String → PolicyName → String → Result PolicyName
  parent_name name child_name path = do
    parent ← rethrow_at_path path (parse_policy_table_name name)
    if u.ci_equals parent.schema child_name.schema
        then ok parent
        else fail path
            ("'" <> name <> "' is in another schema; a foreign key never crosses schemas")

  -- `ParseForeignKeys`
  unfoldable pub parse_foreign_keys : List String → PolicyName → String → Result (List PolicyName)
  parse_foreign_keys [] child_name path = ok []
  parse_foreign_keys (name ∷ names) child_name path = do
    first ← parent_name name child_name path
    rest ← parse_foreign_keys names child_name path
    ok (first ∷ rest)
