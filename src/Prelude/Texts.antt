-- ===== src/Prelude/Texts.antt =====
-- Texts: `std::string` as a native string, whose characters are the code points of the UTF-8 text
-- that DuckDB's VARCHAR holds. The characters that the code tests for are all ASCII.
use Prim.Native.Nat.{ℕ, zero, suc, ◌/◌, ◌%◌}
use Prim.Native.Char.{Char, code}
use Prim.Native.String
use Prim.Native.String.{String, [], ◌∷◌}
use mathlib.Core.Bool.{Bool, true, false, ◌||◌}
use mathlib.Core.List.{List}
use text.Mathlib.Text.{◌==◌ as str_eq}
use duckdb_virtual_catalog.Prelude.Tests.{◌==◌, ltb, if◌then◌else◌}

infix 50 ◌≟◌
-- `operator==` of `std::string`
abbrev pub ◌≟◌ : String → String → Bool
a ≟ b = str_eq a b

infixr 65 ◌<>◌
-- `operator+` of `std::string`
abbrev pub ◌<>◌ : String → String → String
a <> b = String.◌++◌ a b

-- `std::string::empty`
abbrev pub is_empty : String → Bool
is_empty [] = true
is_empty (c ∷ s) = false

-- `std::string::push_back`
abbrev pub push_back : String → Char → String
push_back s c = s <> (c ∷ [])

one_of : List ℕ → ℕ → Bool
one_of List.[] x = false
one_of (List.◌∷◌ y ys) x = x == y || one_of ys x

-- `find_first_of(set) != npos`
unfoldable pub has_any_of : List ℕ → String → Bool
unfolding one_of
has_any_of set [] = false
has_any_of set (c ∷ s) = one_of set (code c) || has_any_of set s

abbrev digit : ℕ → String
digit n =
    if n == 0
    then "0"
    else if n == 1
    then "1"
    else if n == 2
    then "2"
    else if n == 3
    then "3"
    else if n == 4
    then "4"
    else if n == 5
    then "5"
    else if n == 6
    then "6"
    else if n == 7
    then "7"
    else if n == 8
    then "8"
    else "9"

decimal : ℕ → ℕ → String
decimal zero n = ""
decimal (suc fuel) n =
    let more = decimal fuel (n / 10) <> digit (n % 10) in if ltb n 10 then digit n else more

-- `std::to_string`; a number has no more digits than its value plus one.
unfoldable pub to_string : ℕ → String
unfolding decimal
to_string n = decimal (suc n) n
