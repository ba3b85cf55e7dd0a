-- ===== src/Grants/Bits.antt =====
-- bridge/include/duckdb_source.hpp: the verbs of a grant, as the bits of a `uint8_t`.
use Prim.Native.Nat.{bit_and, bit_or}
use duckdb_virtual_catalog.Prelude.{
  ℕ, zero, suc, ◌-◌, ◌%◌, ◌^◌, ◌<◌, ◌≡◌, refl, Bool, true, false, not, ◌&&◌, ◌||◌, ◌==◌, arith, ltb,
  Bool-cases, inl, inr, subst, if◌then◌else◌,
}

-- `static_cast<uint8_t>(1u << index)`
unfoldable pub bit : ℕ → ℕ
bit index = 2 ^ index % 2 ^ 8

unfoldable pub set_bit : ℕ → ℕ → ℕ
unfolding bit
set_bit verbs index = bit_or verbs (bit index)

-- `verbs & ~bit`, of a byte
unfoldable pub clear_bit : ℕ → ℕ → ℕ
unfolding bit
clear_bit verbs index = bit_and verbs (2 ^ 8 - 1 - bit index)

unfoldable pub has_bit : ℕ → ℕ → Bool
unfolding bit
has_bit verbs index = not (bit_and verbs (bit index) == 0)

-- A test holds of each number that is less than a limit.
holds_up_to : (ℕ → Bool) → ℕ → Bool
holds_up_to test zero = true
holds_up_to test (suc limit) = if test limit then holds_up_to test limit else false

holds_up_to_sound :
    (test : ℕ → Bool) (limit a : ℕ) → a < limit → holds_up_to test limit ≡ true → test a ≡ true
unfolding holds_up_to
holds_up_to_sound test zero a small passed = absurd (omega arith)
holds_up_to_sound test (suc limit) a small passed = elim (Bool-cases (test limit)) [
  | inr fails ↦ absurd (ground arith)
  | inl holds ↦ elim (Bool-cases (a == limit)) [
    | inl last ↦ subst (λ k. test k ≡ true) (ground arith) holds
    | inr before ↦ holds_up_to_sound test limit a (ground arith) (rw holds at passed)
  ]
]

same : Bool → Bool → Bool
same true b = b
same false b = not b

same_sound : (a b : Bool) → same a b ≡ true → a ≡ b
unfolding same
same_sound true b h = ground arith
same_sound false b h = ground arith

-- A law of a byte and two indices, by a table
over_bytes : (ℕ → ℕ → ℕ → Bool) → Bool
unfolding holds_up_to
over_bytes p = holds_up_to (λ v. holds_up_to (λ i. holds_up_to (p v i) 8) 8) 256

over_bytes_sound :
    (p : ℕ → ℕ → ℕ → Bool) (v i j : ℕ)
    → over_bytes p ≡ true
    → v < 256
    → i < 8
    → j < 8
    → p v i j ≡ true
unfolding over_bytes
over_bytes_sound p v i j h small fits fits' = holds_up_to_sound (p v i) 8 j fits' (
    holds_up_to_sound (λ i. holds_up_to (p v i) 8) 8 i fits
      (holds_up_to_sound (λ v. holds_up_to (λ i. holds_up_to (p v i) 8) 8) 256 v small h))

set_law : ℕ → ℕ → ℕ → Bool
unfolding set_bit has_bit same
set_law v i j = same (has_bit (set_bit v i) j) (i == j || has_bit v j) && ltb (set_bit v i) 256

clear_law : ℕ → ℕ → ℕ → Bool
unfolding clear_bit has_bit same
clear_law v i j =
    same (has_bit (clear_bit v i) j) (not (i == j) && has_bit v j) && ltb (clear_bit v i) 256

set_table : over_bytes set_law ≡ true
unfolding over_bytes set_law
set_table = refl

clear_table : over_bytes clear_law ≡ true
unfolding over_bytes clear_law
clear_table = refl

module _ (v i j : ℕ) (small : v < 256) (fits : i < 8) (fits' : j < 8) where
  pub has_bit-set_bit : has_bit (set_bit v i) j ≡ (i == j || has_bit v j)
  unfolding set_law
  has_bit-set_bit =
      let law : set_law v i j ≡ true = over_bytes_sound set_law v i j set_table small fits fits' in
      same_sound _ _ (ground arith)

  pub has_bit-clear_bit : has_bit (clear_bit v i) j ≡ (not (i == j) && has_bit v j)
  unfolding clear_law
  has_bit-clear_bit =
      let law : clear_law v i j ≡ true =
        over_bytes_sound clear_law v i j clear_table small fits fits' in
      same_sound _ _ (ground arith)

pub set_bit-lt : (v i : ℕ) → v < 256 → i < 8 → set_bit v i < 256
unfolding set_law
set_bit-lt v i small fits =
    let law : set_law v i 0 ≡ true =
      over_bytes_sound set_law v i 0 set_table small fits (omega arith) in
    ground arith

pub clear_bit-lt : (v i : ℕ) → v < 256 → i < 8 → clear_bit v i < 256
unfolding clear_law
clear_bit-lt v i small fits =
    let law : clear_law v i 0 ≡ true =
      over_bytes_sound clear_law v i 0 clear_table small fits (omega arith) in
    ground arith

zero_table : holds_up_to (λ j. not (has_bit 0 j)) 8 ≡ true
unfolding holds_up_to has_bit
zero_table = refl

pub has_bit-zero : (j : ℕ) → j < 8 → has_bit 0 j ≡ false
has_bit-zero j fits =
    let law : not (has_bit 0 j) ≡ true =
      holds_up_to_sound (λ j. not (has_bit 0 j)) 8 j fits zero_table in
    ground arith
