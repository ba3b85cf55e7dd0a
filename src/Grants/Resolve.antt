-- ===== src/Grants/Resolve.antt =====
-- bridge/duckdb_source.cpp: `ResolveVerb` and `ResolveKey`, which ask the source about a setting.
use duckdb_virtual_catalog.Prelude.{
  ℕ, String, Char, code, Bool, true, false, not, ◌&&◌, ◌||◌, List, [], ◌∷◌, Option, none, some,
  if◌then◌else◌, is_empty, leb, ◌==◌, Result, ok, err, io, ◌>>=◌, ◌>>◌, ◌<>◌, throw, throw_if,
}
use duckdb_virtual_catalog.Host.{StringUtil, Crossing, CrossingVerb, insert, update, alter}
use duckdb_virtual_catalog.CaseInsensitive.{find}
use duckdb_virtual_catalog.Policy.Name.{PolicyName}
use duckdb_virtual_catalog.Policy.Settings.{PolicyVerb}
use duckdb_virtual_catalog.Grants.{ResolvedVerb, is_select}
use duckdb_virtual_catalog.Grants.Expression.{Parsed, mentions_column, context_names, fill_context}
use duckdb_virtual_catalog.Grants.Seam.{Values}
use duckdb_virtual_catalog.Grants.Source.{Source, SourceEntry, BoundColumn, is_view}

abbrev pub is_blank_char : Char → Bool
is_blank_char c = code c == 32 || code c == 9 || code c == 10 || code c == 13

unfoldable pub strip_start : String → String
strip_start String.[] = ""
strip_start (String.◌∷◌ c s) =
    let rest = strip_start s in if is_blank_char c then rest else String.◌∷◌ c s

unfoldable pub strip_end : String → String
strip_end String.[] = ""
strip_end (String.◌∷◌ c s) =
    let rest = strip_end s in if is_empty rest && is_blank_char c then "" else String.◌∷◌ c rest

unfoldable pub is_digits : String → Bool
is_digits String.[] = true
is_digits (String.◌∷◌ c s) = (leb b'0' (code c) && leb (code c) b'9') && is_digits s

abbrev pub is_insert_verb : CrossingVerb → Bool
is_insert_verb insert = true
is_insert_verb verb = false

abbrev pub is_update_verb : CrossingVerb → Bool
is_update_verb update = true
is_update_verb verb = false

abbrev pub is_alter : CrossingVerb → Bool
is_alter alter = true
is_alter verb = false

abbrev pub is_set : Option ℕ → Bool
is_set none = false
is_set (some value) = true

module _ ⦃u : StringUtil⦄ where
  unfoldable pub is_unrestricted : String → Bool
  unfolding strip_start strip_end
  is_unrestricted text =
      let stripped = strip_end (strip_start text) in
      if is_empty stripped then false else u.ci_equals stripped "true"

  -- What a failed bind says
  unfoldable pub bound_columns :
      Source → String → String → Result (List BoundColumn) → Result (List BoundColumn)
  bound_columns source text clause (ok columns) = ok columns
  bound_columns source text clause (err thrown) = throw io (
      "vcatbridge: the "
      <> clause
      <> " predicate '"
      <> text
      <> "' is not a valid WHERE clause on the source: "
      <> source.what thrown)

  unfoldable pub check_columns : String → String → List BoundColumn → Result (Unit {0})
  check_columns text clause (column ∷ []) = throw_if (not column.is_boolean) io (
      "vcatbridge: the " <> clause <> " predicate '" <> text <> "' must be BOOLEAN, but it is "
      <> column.type_text)
  check_columns text clause columns =
      throw io
        ("vcatbridge: the " <> clause <> " predicate '" <> text <> "' must be a single expression")

  unfoldable pub probe_predicate :
      Source → PolicyName → Parsed → Values → String → String → Result (Unit {0})
  unfolding fill_context bound_columns check_columns
  probe_predicate source name predicate values text clause = do
    expr ← fill_context predicate values
    columns ← bound_columns source text clause (source.bind name.schema name.name expr)
    check_columns text clause columns

  unfoldable pub is_unset : Option Values → String → Bool
  unfolding find
  is_unset none name = false
  is_unset (some values) name = not (is_set (find name values))

  unfoldable pub check_names : List String → Option Values → String → String → Result (Unit {0})
  unfolding is_digits is_unset
  check_names [] values text clause = ok tt
  check_names (name ∷ names) values text clause =
      throw_if (is_digits name) io (
        "vcatbridge: the " <> clause <> " predicate '" <> text
        <> "' may only use named context parameters ($name), not positional ones")
      >> throw_if (is_unset values name) io (
          "vcatbridge: the " <> clause <> " predicate '" <> text <> "' uses context '$" <> name
          <> "', which is not set; call vcatbridge_set_context before setting a policy that uses it")
      >> check_names names values text clause

  unfoldable pub probe_unless_open :
      Source
      → PolicyName
      → Parsed
      → Option Values
      → List String
      → String
      → String
      → Result (Unit {0})
  unfolding probe_predicate
  probe_unless_open source name expr (some values) names text clause =
      probe_predicate source name expr values text clause
  probe_unless_open source name expr none [] text clause =
      probe_predicate source name expr [] text clause
  probe_unless_open source name expr none (n ∷ names) text clause = ok tt

  unfoldable pub single : String → List Parsed → Result Parsed
  single clause (expr ∷ []) = ok expr
  single clause exprs =
      throw io ("vcatbridge: the " <> clause <> " predicate must be a single expression")

  -- `ParseAndValidatePredicate`
  unfoldable pub parse_and_validate_predicate :
      Source → PolicyName → String → String → Option Values → Result Parsed
  unfolding single context_names check_names probe_unless_open
  parse_and_validate_predicate source name text clause values = do
    parsed ← source.parse text
    expr ← single clause parsed
    let names = context_names expr []
    checked ← check_names names values text clause
    probed ← probe_unless_open source name expr values names text clause
    ok expr

  -- The check predicate of a verb: its text, or the USING predicate for an update
  unfoldable pub resolve_check :
      Source → PolicyName → CrossingVerb → String → Parsed → Option Values → Result (Option Parsed)
  unfolding parse_and_validate_predicate
  resolve_check source name verb check_text using_predicate values =
      let parsed : Result (Option Parsed) = do
        expr ← parse_and_validate_predicate source name check_text "WITH CHECK" values
        ok (some expr)
      in if not (is_empty check_text)
        then parsed
        else if is_insert_verb verb
        then throw io "vcatbridge: an 'insert' grant must state a check predicate"
        else if is_update_verb verb
        then ok (some using_predicate)
        else ok none

module _ ⦃u : StringUtil⦄ ⦃c : Crossing⦄ where
  -- CREATE and DROP
  abbrev pub is_other_ddl : CrossingVerb → Bool
  is_other_ddl verb = c.is_ddl verb && not (is_alter verb)

  -- `ResolveVerb`
  unfoldable pub resolve_verb :
      Source
      → SourceEntry
      → PolicyName
      → CrossingVerb
      → PolicyVerb
      → Option Values
      → Result ResolvedVerb
  unfolding parse_and_validate_predicate resolve_check is_unrestricted mentions_column
  resolve_verb source entry name verb policy values = do
    table ← throw_if (is_view entry.kind && not (is_select verb)) io (
        "vcatbridge: '"
        <> name.schema
        <> "."
        <> name.name
        <> "' is a view; a view can only be granted 'select', not '"
        <> c.verb_name verb
        <> "'")
    literal ←
        throw_if
          ((is_other_ddl verb || is_insert_verb verb) && not (is_unrestricted policy.using_text)) io
          ("vcatbridge: the USING predicate for '"
            <> c.verb_name verb
            <> "' must be literally 'true'")
    using_predicate ← parse_and_validate_predicate source name policy.using_text "USING" values
    check ← resolve_check source name verb policy.check_text using_predicate values
    context_only ← throw_if (is_alter verb && mentions_column using_predicate) io (
        "vcatbridge: the 'alter' predicate '" <> policy.using_text
        <> "' may only use context ($name), not a column")
    ok (record {
      granted = true;
      using_predicate = if is_other_ddl verb then none else some using_predicate;
      check_predicate = check;
      unrestricted = is_select verb && is_unrestricted policy.using_text;
    })
