-- ===== src/KeyBuffer/Tests.antt =====
-- Runs of the key buffer, and its theorem on two keys.
use duckdb_virtual_catalog.Prelude.{
  ℕ, ℤ, pos, ◌≡◌, refl, List, [], ◌∷◌, some, ok, err, constraint, to_string, length,
}
use duckdb_virtual_catalog.KeyBuffer.{ProviderPkBuffer, append, pk_buffer_row, ensure_key_is_unique}
use duckdb_virtual_catalog.KeyBuffer.Stable.{pk_buffer_row-append}

abbrev old_key : List ℕ
old_key = 7 ∷ 1 ∷ []

abbrev new_key : List ℕ
new_key = 8 ∷ 2 ∷ []

abbrev no_keys : ProviderPkBuffer ℕ
no_keys = record { rows = [] }

abbrev one_key : ProviderPkBuffer ℕ
one_key = record { rows = old_key ∷ [] }

key_tests :
    (ensure_key_is_unique 2 2 "t" ("a" ∷ []) "UPDATE" ≡ ok tt)
    × (ensure_key_is_unique 3 2 "t" ("a" ∷ "b" ∷ []) "UPDATE"
        ≡ err (record {
          type = constraint;
          message =
              "virtual_catalog: UPDATE on 't' matched 3 source rows for 2 key value(s); the declared primary key (a, b) is not unique on the source. The write was already sent to the provider.";
        }))
unfolding ensure_key_is_unique to_string
key_tests = (refl, refl)

-- The first row of a buffer, and what it leaves of a buffer with a row.
first_row :
    pk_buffer_row (some (append no_keys old_key).0) (pos (append no_keys old_key).1) 2 "DELETE"
    ≡ ok old_key
first_row = (pk_buffer_row-append no_keys old_key 2 "DELETE" refl).0

pk_buffer_row-append_example :
    (pk_buffer_row (some (append one_key new_key).0) (pos (append one_key new_key).1) 2 "DELETE"
      ≡ ok new_key)
    × ((id : ℤ) (old : List ℕ)
        → pk_buffer_row (some one_key) id 2 "DELETE" ≡ ok old
        → (pk_buffer_row (some (append one_key new_key).0) id 2 "DELETE" ≡ ok old)
          × ¬ (id ≡ pos (append one_key new_key).1))
    × ((id : ℤ) (found : List ℕ)
        → pk_buffer_row (some (append one_key new_key).0) id 2 "DELETE" ≡ ok found
        → length found ≡ 2)
pk_buffer_row-append_example = pk_buffer_row-append one_key new_key 2 "DELETE" refl
