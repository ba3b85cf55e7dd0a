-- ===== src/Prelude/Results.antt =====
-- Exceptions as values: what is thrown, and the monad of a call that may throw.
use Prim.Native.String.{String}
use mathlib.Core.Path.{◌≡◌, refl}
use mathlib.Core.Option.{some}
use mathlib.Core.Bool.{Bool, true, false}

-- `ExceptionType` of DuckDB, as far as the code throws or tests for it.
pub data ExceptionType : Type 0 where
  io permission catalog binder constraint invalid_input not_implemented : ExceptionType
  connection internal interrupt fatal other : ExceptionType

-- An exception: its type and its raw message.
pub record Failure : Type 0 where
  pub type : ExceptionType
  pub message : String

-- A call that returns or throws.
pub data Result {ℓ} (A : Type ℓ) : Type ℓ where
  err : Failure → Result A
  ok : A → Result A

module _ {ℓ κ} {A : Type ℓ} {B : Type κ} where
  infixl 5 ◌>>=◌
  -- What is thrown passes the rest by.
  abbrev pub ◌>>=◌ : Result A → (A → Result B) → Result B
  err thrown >>= rest = err thrown
  ok value >>= rest = rest value

  -- A sequence that returns has a first part that returns.
  pub bind-eq-ok :
      (first : Result A) (rest : A → Result B) {b : B}
      → (first >>= rest) ≡ ok b
      → (value : A) × (first ≡ ok value) × (rest value ≡ ok b)
  bind-eq-ok (err thrown) rest returned = cc
  bind-eq-ok (ok value) rest returned = (value, refl, returned)

infixl 5 ◌>>◌
abbrev pub ◌>>◌ {ℓ} : {B : Type ℓ} → Result (Unit {0}) → Result B → Result B
check >> rest = check >>= λ _. rest

-- `throw T(message)`
abbrev pub throw {ℓ} : {A : Type ℓ} → ExceptionType → String → Result A
throw t m = err (record { type = t; message = m })

-- `if (b) throw T(message);`
abbrev pub throw_if : Bool → ExceptionType → String → Result (Unit {0})
throw_if true t m = throw t m
throw_if false t m = ok tt

pub ok_injective {ℓ} : {A : Type ℓ} {a b : A} → ok a ≡ ok b → a ≡ b
ok_injective h = cc

pub some_injective {ℓ} : {A : Type ℓ} {a b : A} → some a ≡ some b → a ≡ b
some_injective h = cc
