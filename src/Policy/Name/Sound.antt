-- ===== src/Policy/Name/Sound.antt =====
-- What a successful parse of a name guarantees.
use duckdb_virtual_catalog.Prelude.{
  String, Char, ◌≡◌, Bool, false, List, [], ◌∷◌, arith, ◌<◌, length, length-append, All, All-append,
  is_empty, ok, bind-eq-ok,
}
use duckdb_virtual_catalog.Host.{StringUtil}
use duckdb_virtual_catalog.Policy.Name.{
  PolicyName, Mode, bare, quoted, inside, closing, Scan, finish, at_dot, step, at_end, scan, start,
  parse_policy_name_parts, parse_policy_table_name, table_name_of, parse_policy_schema_name,
  schema_name_of,
}

abbrev pub IsNonEmpty : String → Type 0
IsNonEmpty s = is_empty s ≡ false

module _ ⦃u : StringUtil⦄ (text : String) where
  finish_sound :
      (s f : Scan)
      → finish text s ≡ ok f
      → All IsNonEmpty s.parts
      → All IsNonEmpty f.parts × (0 < length f.parts)
  unfolding finish
  finish_sound s f e h =
      ground
        (arith, All-append IsNonEmpty s.parts (s.part ∷ []) h, length-append s.parts (s.part ∷ []))

  at_dot_sound :
      (last : Bool) (s f : Scan)
      → at_dot text last s ≡ ok f
      → All IsNonEmpty s.parts
      → All IsNonEmpty f.parts
  unfolding at_dot
  at_dot_sound last s f e h =
      let (done, finished, e') = bind-eq-ok (finish text s) _ e in
      ground (arith, finish_sound s done finished h)

  step_sound :
      (last : Bool) (m : Mode) (c : Char) (s f : Scan)
      → step text last m c s ≡ ok f
      → All IsNonEmpty s.parts
      → All IsNonEmpty f.parts
  unfolding step
  step_sound last bare c s f e h = ground (arith, at_dot_sound last s f)
  step_sound last quoted c s f e h = ground (arith, at_dot_sound last s f)
  step_sound last inside c s f e h = ground arith
  step_sound last closing c s f e h =
      ground (arith, at_dot_sound last (record s { mode = quoted }) f)

  at_end_sound :
      (m : Mode) (s f : Scan)
      → at_end text m s ≡ ok f
      → All IsNonEmpty s.parts
      → All IsNonEmpty f.parts × (0 < length f.parts)
  unfolding at_end
  at_end_sound inside s f e h = cc
  at_end_sound closing s f e h = ground (arith, finish_sound (record s { mode = quoted }) f)
  at_end_sound _ s f e h = finish_sound s f e h

  scan_sound :
      (rest : String) (s f : Scan)
      → scan text s rest ≡ ok f
      → All IsNonEmpty s.parts
      → All IsNonEmpty f.parts × (0 < length f.parts)
  unfolding scan
  scan_sound String.[] s f e h = at_end_sound s.mode s f e h
  scan_sound (String.◌∷◌ c rest) s f e h =
      let (next, stepped, e') = bind-eq-ok (step text (is_empty rest) s.mode c s) _ e in
      scan_sound rest next f e' (step_sound (is_empty rest) s.mode c s next stepped h)

  -- A name that parses has at least one part, and none of its parts is empty.
  pub parse_policy_name_parts_sound :
      (parts : List String)
      → parse_policy_name_parts text ≡ ok parts
      → All IsNonEmpty parts × (0 < length parts)
  unfolding parse_policy_name_parts
  parse_policy_name_parts_sound parts e =
      let (final, scanned, e') = bind-eq-ok (scan text start text) _ e in
      ground (arith, scan_sound text start final scanned tt)

  -- A table name that parses names a schema and a table.
  pub parse_policy_table_name_sound :
      (n : PolicyName)
      → parse_policy_table_name text ≡ ok n
      → IsNonEmpty n.schema × IsNonEmpty n.name
  unfolding parse_policy_table_name
  parse_policy_table_name_sound n e =
      let (parts, parsed, e') = bind-eq-ok (parse_policy_name_parts text) _ e in
      table_name_of_sound parts e' (parse_policy_name_parts_sound parts parsed).0
    where
      table_name_of_sound :
          (parts : List String)
          → table_name_of text parts ≡ ok n
          → All IsNonEmpty parts
          → IsNonEmpty n.schema × IsNonEmpty n.name
      table_name_of_sound (schema ∷ name ∷ []) e h = ground arith
      table_name_of_sound (catalog ∷ schema ∷ name ∷ []) e h = ground arith
      table_name_of_sound _ e h = ground arith

  -- A schema name that parses is one part, with no catalog and no table.
  pub parse_policy_schema_name_sound :
      (n : PolicyName)
      → parse_policy_schema_name text ≡ ok n
      → IsNonEmpty n.schema × (n.catalog ≡ "") × (n.name ≡ "")
  unfolding parse_policy_schema_name
  parse_policy_schema_name_sound n e =
      let (parts, parsed, e') = bind-eq-ok (parse_policy_name_parts text) _ e in
      schema_name_of_sound parts e' (parse_policy_name_parts_sound parts parsed).0
    where
      schema_name_of_sound :
          (parts : List String)
          → schema_name_of text parts ≡ ok n
          → All IsNonEmpty parts
          → IsNonEmpty n.schema × (n.catalog ≡ "") × (n.name ≡ "")
      schema_name_of_sound (schema ∷ []) e h = ground arith
      schema_name_of_sound _ e h = ground arith
