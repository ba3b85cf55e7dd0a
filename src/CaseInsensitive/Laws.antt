-- ===== src/CaseInsensitive/Laws.antt =====
-- Laws of the case-insensitive sets and maps.
use duckdb_virtual_catalog.Prelude.{
  String, ◌≡◌, refl, true, false, ◌||◌, List, [], ◌∷◌, arith, if◌then◌else◌,
}
use duckdb_virtual_catalog.Host.{StringUtil}
use duckdb_virtual_catalog.CaseInsensitive.{has, insert, erase}

module _ ⦃u : StringUtil⦄ where
  -- Names that are equal are equal to the same names.
  pub ci_congr : (a b c : String) → u.ci_equals a b ≡ true → u.ci_equals c a ≡ u.ci_equals c b
  ci_congr a b c h = ground (arith, u.ci_trans c a b, u.ci_trans c b a, u.ci_sym a b)

  pub has_congr : (a b : String) (m : List String) → u.ci_equals a b ≡ true → has a m ≡ has b m
  unfolding has
  has_congr a b [] h = refl
  has_congr a b (j ∷ m) h = ground (arith, ci_congr a b j h, has_congr a b m h)

  pub has-insert :
      (k j : String) (m : List String) → has k (insert j m) ≡ (u.ci_equals j k || has k m)
  unfolding has insert
  has-insert k j [] = refl
  has-insert k j (i ∷ m) =
      ground (arith, has-insert k j m, u.ci_trans j i k, u.ci_trans i j k, u.ci_sym i j)

  -- No name in the set equals another that comes later.
  abbrev pub IsSetOfNames : List String → Type 0
  IsSetOfNames [] = Unit
  IsSetOfNames (j ∷ m) = (has j m ≡ false) × IsSetOfNames m

  pub insert-IsSetOfNames :
      (k : String) (m : List String) → IsSetOfNames m → IsSetOfNames (insert k m)
  unfolding has insert
  insert-IsSetOfNames k [] h = (refl, tt)
  insert-IsSetOfNames k (j ∷ m) h =
      ground (arith, insert-IsSetOfNames k m h.1, has-insert j k m, u.ci_sym k j)

  pub has-erase :
      (k j : String) (m : List String)
      → IsSetOfNames m
      → has k (erase j m) ≡ (if u.ci_equals j k then false else has k m)
  unfolding has erase
  has-erase k j [] h = ground arith
  has-erase k j (i ∷ m) h = ground (
    arith,
    has-erase k j m h.1,
    u.ci_trans j i k,
    u.ci_trans i j k,
    u.ci_trans j k i,
    u.ci_sym i j,
    u.ci_sym k i,
    u.ci_sym j i,
    has_congr i k m,
    u.ci_sym j k,
    u.ci_trans i k j,
  )
