-- ===== src/Grants/Keys.antt =====
-- bridge/duckdb_source.cpp: `ResolveKey`, which asks the source for the columns of a key.
use duckdb_virtual_catalog.Prelude.{
  String, Bool, true, false, not, List, [], ◌∷◌, Option, none, some, if◌then◌else◌, is_empty,
  Result, Failure, ok, err, io, constraint, ◌>>=◌, ◌>>◌, ◌<>◌, throw, throw_if,
}
use duckdb_virtual_catalog.Policy.Name.{PolicyName}
use duckdb_virtual_catalog.Policy.Settings.{PolicyKey}
use duckdb_virtual_catalog.Grants.{ResolvedKey}
use duckdb_virtual_catalog.Grants.Source.{Source, SourceEntry, is_table}

-- `ErrorData::Throw` with a text in front of the message
unfoldable pub throw_prepended {ℓ} : {A : Type ℓ} → String → Failure → Result A
throw_prepended text failure =
    err (record { type = failure.type; message = text <> failure.message })

unfoldable pub cell_name : String → Option String → Result String
cell_name qualified none = throw io (
    "vcatbridge: columns_from_query for '" <> qualified
    <> "' returned an empty or NULL column name")
cell_name qualified (some String.[]) = throw io (
    "vcatbridge: columns_from_query for '" <> qualified
    <> "' returned an empty or NULL column name")
cell_name qualified (some (String.◌∷◌ c s)) = ok (String.◌∷◌ c s)

-- The rows are read, and then the stream ends or fails.
unfoldable pub read_names : String → List (Option String) → Option Failure → Result (List String)
unfolding cell_name throw_prepended
read_names qualified [] none = ok []
read_names qualified [] (some failure) =
    throw_prepended ("vcatbridge: columns_from_query for '" <> qualified <> "' failed: ") failure
read_names qualified (cell ∷ cells) failure = do
  name ← cell_name qualified cell
  names ← read_names qualified cells failure
  ok (name ∷ names)

unfoldable pub some_columns : String → List String → Result (List String)
some_columns qualified [] =
    throw io ("vcatbridge: columns_from_query for '" <> qualified <> "' returned no columns")
some_columns qualified (column ∷ columns) = ok (column ∷ columns)

unfoldable pub run_key_query : Source → String → String → Result (List String)
unfolding read_names some_columns
run_key_query source query qualified =
    let result = source.run query in
    read_names qualified result.rows result.failure >>= some_columns qualified

-- Only the first chunk is fetched, so a failure behind a row is not seen.
unfoldable pub no_rows : String → List (Option String) → Option Failure → Result (Unit {0})
unfolding throw_prepended
no_rows qualified [] none = ok tt
no_rows qualified [] (some failure) =
    throw_prepended ("vcatbridge: verify_unique for '" <> qualified <> "' failed: ") failure
no_rows qualified (row ∷ rows) failure = throw constraint (
    "vcatbridge: verify_unique for '" <> qualified
    <> "' returned rows; the key is not unique on the source")

unfoldable pub run_verify_unique : Source → String → String → Result (Unit {0})
unfolding no_rows
run_verify_unique source query qualified =
    let result = source.run query in no_rows qualified result.rows result.failure

unfoldable pub check_key_columns : SourceEntry → String → List String → Result (Unit {0})
check_key_columns entry qualified [] = ok tt
check_key_columns entry qualified (column ∷ columns) =
    throw_if (not (entry.has_column column)) io
      ("vcatbridge: '" <> column <> "' is not a column of '" <> qualified <> "'")
    >> check_key_columns entry qualified columns

unfoldable pub key_source : Source → PolicyKey → String → Result (List String)
unfolding run_key_query
key_source source key qualified =
    if is_empty key.columns_from_query
    then ok key.columns
    else run_key_query source key.columns_from_query qualified

unfoldable pub verify_key : Source → PolicyKey → String → Result Bool
unfolding run_verify_unique
verify_key source key qualified =
    if is_empty key.verify_unique
    then ok false
    else run_verify_unique source key.verify_unique qualified >> ok true

-- `ResolveKey`
unfoldable pub resolve_key : Source → SourceEntry → PolicyName → PolicyKey → Result ResolvedKey
unfolding key_source check_key_columns verify_key
resolve_key source entry name key = do
  table ← throw_if (not (is_table entry.kind)) io (
      "vcatbridge: '" <> name.schema <> "." <> name.name
      <> "' is a view; a view has no primary key")
  columns ← key_source source key (name.schema <> "." <> name.name)
  checked ← check_key_columns entry (name.schema <> "." <> name.name) columns
  verified ← verify_key source key (name.schema <> "." <> name.name)
  ok (record { set = true; columns = columns; verified = verified })
