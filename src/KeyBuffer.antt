-- ===== src/KeyBuffer.antt =====
-- provider/include/vcat_pk_buffer.hpp and vcat/include/vcat_key_check.hpp: the keys of the rows that a
-- statement scans, by manufactured row ids.
pub mod Stable
mod Tests
use duckdb_virtual_catalog.Prelude.{
  ℕ, suc, ◌+◌, ◌-◌, ℤ, pos, negsuc, String, Bool, true, false, not, List, [], ◌∷◌, ◌++◌, Option,
  none, some, leb, ◌==◌, if◌then◌else◌, length, get_elem?, to_string, ◌<>◌, Result, err, ok,
  internal, constraint,
}

-- The values of a key are of any type.
pub record ProviderPkBuffer (V : Type 0) : Type 0 where
  pub rows : List (List V)

module _ {V : Type 0} where
  -- `Append`: the row's index, which becomes its row id
  unfoldable pub append : ProviderPkBuffer V → List V → ProviderPkBuffer V × ℕ
  append buffer row =
      let rows = buffer.rows ++ (row ∷ []) in (record { rows = rows }, length rows - 1)

  unfoldable pub internal_error : String → Result (List V)
  internal_error message = err (record { type = internal; message = message })

  -- A row, of the expected width or not; `none` is past the end, which the caller has ruled out.
  unfoldable pub checked_row : Option (List V) → ℕ → ℕ → String → Result (List V)
  unfolding internal_error
  checked_row none id key_columns context = internal_error ""
  checked_row (some row) id key_columns context =
      if not (length row == key_columns)
      then internal_error (
          context
          <> ": key buffer row "
          <> to_string id
          <> " holds "
          <> to_string (length row)
          <> " columns, expected "
          <> to_string key_columns)
      else ok row

  -- `PKBufferRow`
  unfoldable pub pk_buffer_row : Option (ProviderPkBuffer V) → ℤ → ℕ → String → Result (List V)
  unfolding internal_error checked_row
  pk_buffer_row none row_id key_columns context =
      internal_error (context <> ": no primary key buffer was attached to the scan")
  pk_buffer_row (some buffer) (negsuc n) key_columns context = internal_error (
      context
      <> ": row id -"
      <> to_string (suc n)
      <> " is out of range for a key buffer holding "
      <> to_string (length buffer.rows)
      <> " rows")
  pk_buffer_row (some buffer) (pos id) key_columns context =
      if leb (length buffer.rows) id
      then internal_error (
          context
          <> ": row id "
          <> to_string id
          <> " is out of range for a key buffer holding "
          <> to_string (length buffer.rows)
          <> " rows")
      else checked_row (get_elem? buffer.rows id) id key_columns context

unfoldable pub describe_key_columns : List String → String
describe_key_columns [] = ""
describe_key_columns (column ∷ []) = column
describe_key_columns (column ∷ next ∷ columns) =
    column <> ", " <> describe_key_columns (next ∷ columns)

-- `EnsureKeyIsUnique`
unfoldable pub ensure_key_is_unique : ℕ → ℕ → String → List String → String → Result (Unit {0})
unfolding describe_key_columns
ensure_key_is_unique affected keys_sent table pk_cols verb =
    if leb affected keys_sent
    then ok tt
    else err (record {
      type = constraint;
      message =
          "virtual_catalog: "
          <> verb
          <> " on '"
          <> table
          <> "' matched "
          <> to_string affected
          <> " source rows for "
          <> to_string keys_sent
          <> " key value(s); the declared primary key ("
          <> describe_key_columns pk_cols
          <> ") is not unique on the source. The write was already sent to the provider.";
    })
