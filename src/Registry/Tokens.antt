-- ===== src/Registry/Tokens.antt =====
-- bridge/duckdb_source.cpp: `ConstantTimeEquals`, on texts as lists of bytes.
use duckdb_virtual_catalog.Prelude.{
  ℕ, zero, suc, ◌+◌, ◌*◌, ◌/◌, ◌%◌, ◌<◌, ◌≡◌, refl, Bool, true, false, not, ◌&&◌, List, [], ◌∷◌,
  ◌==◌, if◌then◌else◌, All, length, arith, Bool-cases, subst, inl, inr,
}

-- Exclusive or of numbers of so many bits
unfoldable pub bit_xor : ℕ → ℕ → ℕ → ℕ
bit_xor zero a b = 0
bit_xor (suc bits) a b = (if a % 2 == b % 2 then 0 else 1) + 2 * bit_xor bits (a / 2) (b / 2)

unfoldable pub bit_or : ℕ → ℕ → ℕ → ℕ
bit_or zero a b = 0
bit_or (suc bits) a b =
    (if a % 2 == 0 && b % 2 == 0 then 0 else 1) + 2 * bit_or bits (a / 2) (b / 2)

-- The loop: `diff |= a[i] ^ b[i]`
unfoldable pub difference : ℕ → List ℕ → List ℕ → ℕ
unfolding bit_xor bit_or
difference diff [] ys = diff
difference diff (x ∷ xs) [] = diff
difference diff (x ∷ xs) (y ∷ ys) = difference (bit_or 8 diff (bit_xor 8 x y)) xs ys

unfoldable pub constant_time_equals : List ℕ → List ℕ → Bool
unfolding difference
constant_time_equals a b = if not (length a == length b) then false else difference 0 a b == 0

abbrev pub AreBytes : List ℕ → Type 0
AreBytes bytes = All (λ b. b < 256) bytes

-- A number of so many bits
unfoldable pub fits : ℕ → ℕ → Bool
fits zero a = a == 0
fits (suc bits) a = fits bits (a / 2)

xor_zero : (bits a b : ℕ) → fits bits a ≡ true → fits bits b ≡ true → bit_xor bits a b ≡ 0 → a ≡ b
unfolding bit_xor fits
xor_zero zero a b small small' h = ground arith
xor_zero (suc bits) a b small small' h = elim (Bool-cases (a % 2 == b % 2)) [
  | inr differs ↦ absurd (
      omega
        (arith, subst (λ q. (if q then 0 else 1) + 2 * bit_xor bits (a / 2) (b / 2) ≡ 0) differs h))
  | inl same ↦
      let half = xor_zero bits (a / 2) (b / 2) small small' (
        omega (
          arith,
          subst (λ q. (if q then 0 else 1) + 2 * bit_xor bits (a / 2) (b / 2) ≡ 0) same h,
        )) in
      ground arith
]

xor_self : (bits a : ℕ) → bit_xor bits a a ≡ 0
unfolding bit_xor
xor_self zero a = refl
xor_self (suc bits) a =
    let same : (a % 2 == a % 2) ≡ true = ground arith in rw (same, xor_self bits (a / 2)) refl

or_zero :
    (bits a b : ℕ)
    → fits bits a ≡ true
    → fits bits b ≡ true
    → bit_or bits a b ≡ 0
    → (a ≡ 0) × (b ≡ 0)
unfolding bit_or fits
or_zero zero a b small small' h = (ground arith, ground arith)
or_zero (suc bits) a b small small' h = elim (Bool-cases (a % 2 == 0 && b % 2 == 0)) [
  | inr differs ↦ absurd (
      omega
        (arith, subst (λ q. (if q then 0 else 1) + 2 * bit_or bits (a / 2) (b / 2) ≡ 0) differs h))
  | inl same ↦
      let (half, half') = or_zero bits (a / 2) (b / 2) small small' (
        omega (
          arith,
          subst (λ q. (if q then 0 else 1) + 2 * bit_or bits (a / 2) (b / 2) ≡ 0) same h,
        )) in
      (ground arith, ground arith)
]

half_of : (c : Bool) (k : ℕ) → ((if c then 0 else 1) + 2 * k) / 2 ≡ k
half_of true k = omega arith
half_of false k = omega arith

fits-xor : (bits a b : ℕ) → fits bits (bit_xor bits a b) ≡ true
unfolding bit_xor fits
fits-xor zero a b = refl
fits-xor (suc bits) a b =
    rw (half_of (a % 2 == b % 2) (bit_xor bits (a / 2) (b / 2))) (fits-xor bits (a / 2) (b / 2))

fits-or : (bits a b : ℕ) → fits bits (bit_or bits a b) ≡ true
unfolding bit_or fits
fits-or zero a b = refl
fits-or (suc bits) a b =
    rw (half_of (a % 2 == 0 && b % 2 == 0) (bit_or bits (a / 2) (b / 2)))
      (fits-or bits (a / 2) (b / 2))

fits-byte : (b : ℕ) → b < 256 → fits 8 b ≡ true
unfolding fits
fits-byte b small = ground arith

difference_sound :
    (diff : ℕ) (xs ys : List ℕ)
    → fits 8 diff ≡ true
    → AreBytes xs
    → AreBytes ys
    → length xs ≡ length ys
    → difference diff xs ys ≡ 0
    → (diff ≡ 0) × (xs ≡ ys)
unfolding difference
difference_sound diff [] [] small bytes bytes' same h = (h, refl)
difference_sound diff [] (y ∷ ys) small bytes bytes' same h = absurd (omega arith)
difference_sound diff (x ∷ xs) [] small bytes bytes' same h = absurd (omega arith)
difference_sound diff (x ∷ xs) (y ∷ ys) small (byte, bytes) (byte', bytes') same h =
    let (none_yet, tail) =
      difference_sound (bit_or 8 diff (bit_xor 8 x y)) xs ys (fits-or 8 diff (bit_xor 8 x y)) bytes
        bytes' (omega arith) h in
    let (before, here) = or_zero 8 diff (bit_xor 8 x y) small (fits-xor 8 x y) none_yet in
    let head = xor_zero 8 x y (fits-byte x byte) (fits-byte y byte') here in
    (before, rw (head, tail) refl)

difference_self : (xs : List ℕ) → difference 0 xs xs ≡ 0
unfolding difference bit_or
difference_self [] = refl
difference_self (x ∷ xs) = rw (xor_self 8 x) (difference_self xs)

-- `ConstantTimeEquals` holds exactly of equal texts, though it compares every byte.
pub constant_time_equals_lem :
    (a b : List ℕ)
    → AreBytes a
    → AreBytes b
    → (constant_time_equals a b ≡ true → a ≡ b) × (a ≡ b → constant_time_equals a b ≡ true)
unfolding constant_time_equals
constant_time_equals_lem a b bytes bytes' = (sound, complete)
  where
    sound : constant_time_equals a b ≡ true → a ≡ b
    sound h = elim (Bool-cases (length a == length b)) [
      | inr differs ↦ cc (rw differs at h)
      | inl same ↦
          let zero_difference : difference 0 a b == 0 ≡ true = rw same at h in
          (difference_sound 0 a b (fits-byte 0 (omega arith)) bytes bytes' (ground arith)
            (ground arith)).1
    ]

    complete : a ≡ b → constant_time_equals a b ≡ true
    complete e =
        subst (λ q. constant_time_equals a q ≡ true) e
          (let same : (length a == length a) ≡ true = ground arith in
            rw (same, difference_self a) refl)
