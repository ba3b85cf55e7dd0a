-- ===== src/Policy/Name.antt =====
-- Strict SQL identifier components: `ParsePolicyNameParts` and its two callers.
pub mod RoundTrip
pub mod Sound
use duckdb_virtual_catalog.Prelude.{
  String, Char, code, Bool, true, false, ◌&&◌, ◌||◌, List, [], ◌∷◌, ◌++◌, ◌==◌, ◌<>◌, is_empty,
  push_back, if◌then◌else◌, io, Result, ok, throw, ◌>>=◌,
}
use duckdb_virtual_catalog.Host.{StringUtil}

pub record PolicyName : Type 0 where
  pub catalog : String
  pub schema : String
  pub name : String

-- `PolicyName::ToString`
unfoldable pub to_string : PolicyName → String
to_string n =
    let out = (if is_empty n.catalog then "" else n.catalog <> ".") <> n.schema in
    if is_empty n.name then out else out <> "." <> n.name

-- Where the scan stands: at the top of the outer loop with `quoted_part` false or true, inside the
-- quotes, or just behind a quote inside them, which is doubled or closes the part.
pub data Mode : Type 0 where
  bare quoted inside closing : Mode

pub record Scan : Type 0 where
  pub parts : List String
  pub part : String
  pub mode : Mode

abbrev pub is_bare : Mode → Bool
is_bare bare = true
is_bare _ = false

-- `part.back()` of `c` followed by the rest
back : Char → String → Char
back c String.[] = c
back c (String.◌∷◌ d s) = back d s

module _ ⦃u : StringUtil⦄ where
  -- `CharacterIsSpace(part.front()) || CharacterIsSpace(part.back())`
  unfoldable pub blank_padded : String → Bool
  unfolding back
  blank_padded String.[] = false
  blank_padded (String.◌∷◌ c s) = u.is_space c || u.is_space (back c s)

  -- The lambda `finish`.
  finish : String → Scan → Result Scan
  finish text s =
      if is_empty s.part
      then throw io ("vcatbridge: '" <> text <> "' has an empty name part")
      else if is_bare s.mode && blank_padded s.part
      then throw io
          ("vcatbridge: '" <> text <> "' has spaces around a name part; quote it if they belong")
      else ok (record { parts = s.parts ++ (s.part ∷ []); part = ""; mode = bare })

  -- A '.' at the top of the outer loop; `last` says that it ends the text.
  at_dot : String → Bool → Scan → Result Scan
  unfolding finish
  at_dot text last s = do
    done ← finish text s
    if last then throw io ("vcatbridge: '" <> text <> "' has an empty name part") else ok done

  -- The checks behind the quoted run, at its closing quote.
  close : String → Scan → Result Scan
  close text s =
      if is_empty s.part
      then throw io ("vcatbridge: '" <> text <> "' has an empty name part")
      else ok (record s { mode = quoted })

  -- One character of the text.
  step : String → Bool → Mode → Char → Scan → Result Scan
  unfolding at_dot close
  step text last bare c s =
      if code c == b'"'
      then (if is_empty s.part
          then ok (record s { mode = inside })
          else throw io ("vcatbridge: '" <> text <> "' has a quote inside a name part"))
      else if code c == b'.'
      then at_dot text last s
      else ok (record s { part = push_back s.part c })
  step text last quoted c s =
      if code c == b'"'
      then throw io ("vcatbridge: '" <> text <> "' has a quote inside a name part")
      else if code c == b'.'
      then at_dot text last s
      else throw io ("vcatbridge: '" <> text <> "' has text after a quoted name part")
  step text last inside c s =
      if code c == b'"'
      then ok (record s { mode = closing })
      else ok (record s { part = push_back s.part c })
  step text last closing c s =
      if code c == b'"' then ok (record s { part = push_back s.part c; mode = inside }) else do
        closed ← close text s
        if code c == b'.'
            then at_dot text last closed
            else throw io ("vcatbridge: '" <> text <> "' has text after a quoted name part")

  -- Behind the last character.
  at_end : String → Mode → Scan → Result Scan
  unfolding finish close
  at_end text inside s = throw io ("vcatbridge: '" <> text <> "' has an unterminated quote")
  at_end text closing s = do closed ← close text s; finish text closed
  at_end text _ s = finish text s

  scan : String → Scan → String → Result Scan
  unfolding step at_end
  scan text s String.[] = at_end text s.mode s
  scan text s (String.◌∷◌ c rest) = do
    next ← step text (is_empty rest) s.mode c s
    scan text next rest

  abbrev pub start : Scan
  start = record { parts = []; part = ""; mode = bare }

  unfoldable pub parse_policy_name_parts : String → Result (List String)
  unfolding scan
  parse_policy_name_parts text = do final ← scan text start text; ok final.parts

  table_name_of : String → List String → Result PolicyName
  table_name_of text (schema ∷ name ∷ []) =
      ok (record { catalog = ""; schema = schema; name = name })
  table_name_of text (catalog ∷ schema ∷ name ∷ []) =
      ok (record { catalog = catalog; schema = schema; name = name })
  table_name_of text _ =
      throw io
        ("vcatbridge: table name '" <> text <> "' must be 'schema.table' or 'catalog.schema.table'")

  unfoldable pub parse_policy_table_name : String → Result PolicyName
  unfolding table_name_of
  parse_policy_table_name text = do parts ← parse_policy_name_parts text; table_name_of text parts

  schema_name_of : String → List String → Result PolicyName
  schema_name_of text (schema ∷ []) = ok (record { catalog = ""; schema = schema; name = "" })
  schema_name_of text _ =
      throw io ("vcatbridge: 'create' takes a schema name like 'main', not '" <> text <> "'")

  unfoldable pub parse_policy_schema_name : String → Result PolicyName
  unfolding schema_name_of
  parse_policy_schema_name text = do parts ← parse_policy_name_parts text; schema_name_of text parts
