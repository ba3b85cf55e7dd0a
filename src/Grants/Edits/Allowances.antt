-- ===== src/Grants/Edits/Allowances.antt =====
-- What a grant allows of a verb, and what installing one does to it.
use duckdb_virtual_catalog.Prelude.{
  ◌<◌, ◌≡◌, refl, sym, subst, Bool, true, false, not, ◌&&◌, ◌||◌, List, Option, none, some, ◌==◌,
  arith, if◌then◌else◌, Bool-cases, inl, inr, length, set, get_or, get_or-set_self, get_or-set_ne,
  ◌≢◌,
}
use duckdb_virtual_catalog.Host.{Crossing, CrossingVerb}
use duckdb_virtual_catalog.Grants.{
  SourceGrant, ResolvedVerb, has_verb, copy_using, copy_check, install_verb,
}
use duckdb_virtual_catalog.Grants.Bits.{has_bit-set_bit, has_bit-clear_bit, has_bit-zero}
use duckdb_virtual_catalog.Grants.Expression.{Parsed}
use duckdb_virtual_catalog.Grants.Tables.Whole.{IsWholeGrant}

-- The USING and the WITH CHECK predicate of a verb that is granted
abbrev pub Allowance : Type 0
Allowance = Option (Option Parsed × Option Parsed)

abbrev pub allow_if : Bool → Option Parsed → Option Parsed → Allowance
allow_if true p q = some (p, q)
allow_if false p q = none

module _ ⦃c : Crossing⦄ where
  unfoldable pub grant_allows : SourceGrant → CrossingVerb → Allowance
  unfolding has_verb copy_using copy_check
  grant_allows grant verb =
      allow_if (has_verb grant verb) (copy_using grant verb) (copy_check grant verb)

  unfoldable pub found_allows : Option SourceGrant → CrossingVerb → Allowance
  unfolding grant_allows
  found_allows none verb = none
  found_allows (some grant) verb = grant_allows grant verb

  -- What a resolved verb allows
  unfoldable pub resolved_allows : ResolvedVerb → Allowance
  resolved_allows resolved =
      allow_if resolved.granted resolved.using_predicate resolved.check_predicate

  has_verb-install_verb :
      (grant : SourceGrant) (verb verb' : CrossingVerb) (resolved : ResolvedVerb)
      → grant.verbs < 256
      → has_verb (install_verb grant verb resolved) verb'
        ≡ (if c.index verb == c.index verb' then resolved.granted else has_verb grant verb')
  unfolding has_verb install_verb
  has_verb-install_verb grant verb verb' resolved byte =
      let i = c.index verb in
      let j = c.index verb' in
      elim (Bool-cases resolved.granted) [
        | inl granted ↦
            rw
              (
                granted,
                has_bit-set_bit grant.verbs i j byte (c.index_lt_8 verb) (c.index_lt_8 verb'),
              )
              (or_else (i == j) _)
        | inr denied ↦
            rw
              (
                denied,
                has_bit-clear_bit grant.verbs i j byte (c.index_lt_8 verb) (c.index_lt_8 verb'),
              )
              (and_else (i == j) _)
      ]
    where
      or_else : (b d : Bool) → (b || d) ≡ (if b then true else d)
      or_else true d = refl
      or_else false d = refl

      and_else : (b d : Bool) → (not b && d) ≡ (if b then false else d)
      and_else true d = refl
      and_else false d = refl

  get_or-set_verb :
      (ps : List (Option Parsed)) (verb verb' : CrossingVerb) (p : Option Parsed)
      → length ps ≡ length c.verbs
      → get_or (set ps (c.index verb) p) (c.index verb') none
        ≡ (if c.index verb == c.index verb' then p else get_or ps (c.index verb') none)
  get_or-set_verb ps verb verb' p whole = elim (Bool-cases (c.index verb == c.index verb')) [
    | inl same ↦
        let e : c.index verb ≡ c.index verb' = ground arith in
        rw same (
          subst (λ q. get_or (set ps (c.index verb) p) q none ≡ p) e
            (get_or-set_self ps (c.index verb) p none
              (subst (λ q. c.index verb < q) (sym whole) (c.index_lt verb))))
    | inr differs ↦
        let distinct : c.index verb ≢ c.index verb' = λ e. absurd (ground arith) in
        rw differs (get_or-set_ne ps p none distinct)
  ]

  pub grant_allows-install_verb :
      (grant : SourceGrant) (verb verb' : CrossingVerb) (resolved : ResolvedVerb)
      → IsWholeGrant grant
      → grant_allows (install_verb grant verb resolved) verb' ≡ (
          if c.index verb == c.index verb'
          then resolved_allows resolved
          else grant_allows grant verb')
  unfolding grant_allows install_verb resolved_allows has_verb copy_using copy_check
  grant_allows-install_verb grant verb verb' resolved (byte, usings, checks) =
      rw
        (
          has_verb-install_verb grant verb verb' resolved byte,
          get_or-set_verb grant.using_predicates verb verb' resolved.using_predicate usings,
          get_or-set_verb grant.check_predicates verb verb' resolved.check_predicate checks,
        )
        (pick (c.index verb == c.index verb') resolved.granted _ _ _ _ _)
    where
      pick :
          (b granted old : Bool) (p q p' q' : Option Parsed)
          → allow_if (if b then granted else old) (if b then p else p') (if b then q else q')
            ≡ (if b then allow_if granted p q else allow_if old p' q')
      pick true granted old p q p' q' = refl
      pick false granted old p q p' q' = refl

  pub no_verb_allows :
      (grant : SourceGrant) (verb : CrossingVerb)
      → (grant.verbs == 0) ≡ true
      → grant_allows grant verb ≡ none
  unfolding grant_allows has_verb
  no_verb_allows grant verb h =
      let zero_verbs : grant.verbs ≡ 0 = ground arith in
      rw (zero_verbs, has_bit-zero (c.index verb) (c.index_lt_8 verb)) refl
