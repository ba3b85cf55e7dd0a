-- ===== src/KeyBuffer/Stable.antt =====
-- A row id keeps naming the row that was appended under it.
use duckdb_virtual_catalog.Prelude.{
  ℕ, zero, suc, ◌+◌, ◌-◌, ◌<◌, ℤ, pos, negsuc, String, ◌≡◌, refl, subst, inl, inr, true, false,
  List, [], ◌∷◌, ◌++◌, Option, none, some, leb, ◌==◌, length, get_elem?, length-append, ok,
  ok_injective, Bool-cases, arith,
}
use duckdb_virtual_catalog.KeyBuffer.{
  ProviderPkBuffer, append, internal_error, checked_row, pk_buffer_row,
}

pos_injective : {a b : ℕ} → pos a ≡ pos b → a ≡ b
pos_injective e = cc

module _ {V : Type 0} where
  get_elem?-append :
      (xs ys : List (List V)) (i : ℕ) → i < length xs → get_elem? (xs ++ ys) i ≡ get_elem? xs i
  get_elem?-append [] ys i h = absurd (omega arith)
  get_elem?-append (x ∷ xs) ys zero h = refl
  get_elem?-append (x ∷ xs) ys (suc i) h = get_elem?-append xs ys i (omega arith)

  get_elem?-last :
      (xs : List (List V)) (x : List V) → get_elem? (xs ++ (x ∷ [])) (length xs) ≡ some x
  get_elem?-last [] x = refl
  get_elem?-last (y ∷ xs) x = get_elem?-last xs x

  checked_row_width :
      (o : Option (List V)) (id key_columns : ℕ) (context : String) (row : List V)
      → checked_row o id key_columns context ≡ ok row
      → length row ≡ key_columns
  unfolding checked_row internal_error
  checked_row_width none id key_columns context row h = cc
  checked_row_width (some r) id key_columns context row h =
      elim (Bool-cases (length r == key_columns)) [
        | inr differs ↦ cc (rw differs at h)
        | inl same ↦
            subst (λ q. length q ≡ key_columns) (ok_injective (rw same at h)) (ground arith)
      ]

  pk_buffer_row_width :
      (buffer : ProviderPkBuffer V) (id : ℤ) (key_columns : ℕ) (context : String) (row : List V)
      → pk_buffer_row (some buffer) id key_columns context ≡ ok row
      → length row ≡ key_columns
  unfolding pk_buffer_row internal_error
  pk_buffer_row_width buffer (negsuc n) key_columns context row h = cc
  pk_buffer_row_width buffer (pos id) key_columns context row h =
      elim (Bool-cases (leb (length buffer.rows) id)) [
        | inl over ↦ cc (rw over at h)
        | inr within ↦
            checked_row_width (get_elem? buffer.rows id) id key_columns context row (rw within at h)
      ]

  -- Appending a row as wide as the key to any buffer: its row id is not negative and finds the row; a
  -- row id found nothing in the buffer before or still finds what it found; and whatever row an id
  -- finds has as many values as the key has columns.
  pub pk_buffer_row-append :
      (buffer : ProviderPkBuffer V) (row : List V) (key_columns : ℕ) (context : String)
      → length row ≡ key_columns
      → (pk_buffer_row (some (append buffer row).0) (pos (append buffer row).1) key_columns context
          ≡ ok row)
        × ((id : ℤ) (old : List V)
            → pk_buffer_row (some buffer) id key_columns context ≡ ok old
            → (pk_buffer_row (some (append buffer row).0) id key_columns context ≡ ok old)
              × ¬ (id ≡ pos (append buffer row).1))
        × ((id : ℤ) (found : List V)
            → pk_buffer_row (some (append buffer row).0) id key_columns context ≡ ok found
            → length found ≡ key_columns)
  unfolding append pk_buffer_row checked_row internal_error
  pk_buffer_row-append buffer row key_columns context width =
      let longer = length-append buffer.rows (row ∷ []) in
      let last : length (buffer.rows ++ (row ∷ [])) - 1 ≡ length buffer.rows =
        omega (arith, longer) in
      let in_range : leb (length (buffer.rows ++ (row ∷ []))) (length buffer.rows) ≡ false =
        ground (arith, longer) in
      let right : (length row == key_columns) ≡ true = ground arith in
      (
        rw (last, in_range, get_elem?-last buffer.rows row, right) refl,
        λ id old h. kept longer last id old h,
        λ id found h. pk_buffer_row_width (append buffer row).0 id key_columns context found h,
      )
    where
      kept :
          length (buffer.rows ++ (row ∷ [])) ≡ length buffer.rows + 1
          → length (buffer.rows ++ (row ∷ [])) - 1 ≡ length buffer.rows
          → (id : ℤ) (old : List V) → pk_buffer_row (some buffer) id key_columns context ≡ ok old
          → (pk_buffer_row (some (append buffer row).0) id key_columns context ≡ ok old)
            × ¬ (id ≡ pos (append buffer row).1)
      kept longer last (negsuc n) old h = cc
      kept longer last (pos id) old h = elim (Bool-cases (leb (length buffer.rows) id)) [
        | inl over ↦ cc (rw over at h)
        | inr within ↦
            let still : leb (length (buffer.rows ++ (row ∷ []))) id ≡ false =
              ground (arith, longer) in
            let found : checked_row (get_elem? buffer.rows id) id key_columns context ≡ ok old =
              rw within at h in
            (
              rw (still, get_elem?-append buffer.rows (row ∷ []) id (ground arith)) found,
              λ e.
                  let same : id ≡ length (buffer.rows ++ (row ∷ [])) - 1 = pos_injective e in
                  absurd (ground arith),
            )
      ]
