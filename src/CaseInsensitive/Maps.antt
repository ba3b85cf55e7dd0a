-- ===== src/CaseInsensitive/Maps.antt =====
-- Laws of the case-insensitive maps.
use duckdb_virtual_catalog.Prelude.{
  String, ◌≡◌, refl, true, List, [], ◌∷◌, none, some, arith, if◌then◌else◌, Bool-cases, inl, inr,
  All, some_injective, subst,
}
use duckdb_virtual_catalog.Host.{StringUtil}
use duckdb_virtual_catalog.CaseInsensitive.{find, assign, remove}
use duckdb_virtual_catalog.CaseInsensitive.Laws.{ci_congr}

module _ {V : Type 0} ⦃u : StringUtil⦄ where
  pub find_congr :
      (j k : String) (m : List (String × V)) → u.ci_equals j k ≡ true → find j m ≡ find k m
  unfolding find
  find_congr j k [] h = refl
  find_congr j k ((i, v) ∷ m) h = rw (ci_congr j k i h, find_congr j k m h) refl

  pub find-assign :
      (k j : String) (v : V) (m : List (String × V))
      → find k (assign j v m) ≡ (if u.ci_equals j k then some v else find k m)
  unfolding find assign
  find-assign k j v [] = refl
  find-assign k j v ((i, w) ∷ m) = ground (
    arith,
    find-assign k j v m,
    u.ci_trans j i k,
    u.ci_trans i j k,
    u.ci_sym i j,
    u.ci_trans i k j,
    u.ci_sym j k,
  )

  -- No key equals another that comes later.
  abbrev pub IsMap : List (String × V) → Type 0
  IsMap [] = Unit
  IsMap ((j, v) ∷ m) = (find j m ≡ none) × IsMap m

  pub assign-IsMap : (j : String) (v : V) (m : List (String × V)) → IsMap m → IsMap (assign j v m)
  unfolding find assign
  assign-IsMap j v [] h = (refl, tt)
  assign-IsMap j v ((i, w) ∷ m) (h, all_h) = elim (Bool-cases (u.ci_equals i j)) [
    | inl same ↦ rw same (h, all_h)
    | inr differs ↦
        rw differs (ground (arith, find-assign i j v m, u.ci_sym j i), assign-IsMap j v m all_h)
  ]

  pub find-remove :
      (k j : String) (m : List (String × V))
      → IsMap m
      → find k (remove j m) ≡ (if u.ci_equals j k then none else find k m)
  unfolding find remove
  find-remove k j [] h = ground arith
  find-remove k j ((i, w) ∷ m) (h, all_h) = ground (
    arith,
    find-remove k j m all_h,
    u.ci_trans j i k,
    u.ci_trans i j k,
    u.ci_sym i j,
    find_congr i k m,
    u.ci_trans i k j,
    u.ci_sym j k,
    u.ci_trans j k i,
    u.ci_sym k i,
    u.ci_sym j i,
  )

  pub remove-IsMap : (j : String) (m : List (String × V)) → IsMap m → IsMap (remove j m)
  unfolding find remove
  remove-IsMap j [] h = tt
  remove-IsMap j ((i, w) ∷ m) (h, all_h) = elim (Bool-cases (u.ci_equals i j)) [
    | inl same ↦ rw same all_h
    | inr differs ↦ rw differs (ground (arith, find-remove i j m all_h), remove-IsMap j m all_h)
  ]

-- A predicate of all values of a map
module _ {V : Type 0} ⦃u : StringUtil⦄ (P : V → Type 0) where
  abbrev pub AllValues : List (String × V) → Type 0
  AllValues m = All (λ e. P e.1) m

  pub assign-AllValues :
      (j : String) (v : V) (m : List (String × V)) → P v → AllValues m → AllValues (assign j v m)
  unfolding assign
  assign-AllValues j v [] p h = (p, tt)
  assign-AllValues j v ((i, w) ∷ m) p (q, h) = elim (Bool-cases (u.ci_equals i j)) [
    | inl same ↦ rw same (p, h)
    | inr differs ↦ rw differs (q, assign-AllValues j v m p h)
  ]

  pub remove-AllValues : (j : String) (m : List (String × V)) → AllValues m → AllValues (remove j m)
  unfolding remove
  remove-AllValues j [] h = tt
  remove-AllValues j ((i, w) ∷ m) (q, h) = elim (Bool-cases (u.ci_equals i j)) [
    | inl same ↦ rw same h
    | inr differs ↦ rw differs (q, remove-AllValues j m h)
  ]

  pub find-AllValues :
      (j : String) (m : List (String × V)) (v : V) → AllValues m → find j m ≡ some v → P v
  unfolding find
  find-AllValues j [] v h e = cc
  find-AllValues j ((i, w) ∷ m) v (q, h) e = elim (Bool-cases (u.ci_equals i j)) [
    | inl same ↦ subst P (some_injective (rw same at e)) q
    | inr differs ↦ find-AllValues j m v h (rw differs at e)
  ]
