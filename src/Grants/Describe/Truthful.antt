-- ===== src/Grants/Describe/Truthful.antt =====
-- A described table reports the verbs that are granted, and no foreign key.
use duckdb_virtual_catalog.Prelude.{
  String, ◌≡◌, refl, sym, ap, ◌∙◌, subst, Bool, true, false, ◌&&◌, ◌||◌, List, [], ◌∷◌, Option,
  none, some, ◌==◌, ok, ok_injective, bind-eq-ok, All, Any, here, there, Bool-cases, inl, inr,
  arith,
}
use duckdb_virtual_catalog.Host.{StringUtil, Crossing, CrossingVerb}
use duckdb_virtual_catalog.Grants.{SourceGrant, has_verb}
use duckdb_virtual_catalog.Grants.Tables.{GrantTables, find_grant, is_granted, has_granted}
use duckdb_virtual_catalog.Grants.Source.{SourceEntry, Constraint, is_grantable, is_view}
use duckdb_virtual_catalog.Grants.Describe.{
  Catalog, DescribedTable, is_foreign_key, copy_constraints, constraints_of, granted_verbs,
  describe_entry, describe_granted, describe,
}

-- No constraint of the list is a foreign key.
abbrev pub AreLocal : List Constraint → Type 0
AreLocal constraints = All (λ k. is_foreign_key k ≡ false) constraints

copy_constraints-AreLocal :
    (constraints : List Constraint) → AreLocal (copy_constraints constraints)
unfolding copy_constraints
copy_constraints-AreLocal [] = tt
copy_constraints-AreLocal (k ∷ constraints) = elim (Bool-cases (is_foreign_key k)) [
  | inl foreign ↦ rw foreign (copy_constraints-AreLocal constraints)
  | inr local ↦ rw local (local, copy_constraints-AreLocal constraints)
]

constraints_of-AreLocal : (entry : SourceEntry) → AreLocal (constraints_of entry)
unfolding constraints_of
constraints_of-AreLocal entry = elim (Bool-cases (is_view entry.kind)) [
  | inl view ↦ rw view tt
  | inr table ↦ rw table (copy_constraints-AreLocal entry.constraints)
]

module _ ⦃c : Crossing⦄ where
  unfoldable pub lists : CrossingVerb → List CrossingVerb → Bool
  lists verb [] = false
  lists verb (w ∷ verbs) = c.index w == c.index verb || lists verb verbs

  lists-granted_verbs :
      (verb : CrossingVerb) (grant : SourceGrant) (verbs : List CrossingVerb)
      → lists verb (granted_verbs grant verbs) ≡ (lists verb verbs && has_verb grant verb)
  unfolding lists granted_verbs
  lists-granted_verbs verb grant [] = refl
  lists-granted_verbs verb grant (w ∷ verbs) =
      let rest = lists-granted_verbs verb grant verbs in
      elim (Bool-cases (c.index w == c.index verb)) [
        | inl same ↦
            let e : w ≡ verb = c.index_injective w verb (ground arith) in
            let h : has_verb grant w ≡ has_verb grant verb = ap (has_verb grant) e in
            elim (Bool-cases (has_verb grant w)) [
              | inl granted ↦ rw granted (rw same (sym (sym h ∙ granted)))
              | inr denied ↦
                  let no : has_verb grant verb ≡ false = sym h ∙ denied in
                  rw denied (rest ∙ ground arith)
            ]
        | inr differs ↦ elim (Bool-cases (has_verb grant w)) [
          | inl granted ↦ rw granted (rw differs rest)
          | inr denied ↦ rw denied (rw differs rest)
        ]
      ]

  lists-verbs : (verb : CrossingVerb) → lists verb c.verbs ≡ true
  unfolding lists
  lists-verbs verb = listed c.verbs (c.listed verb)
    where
      listed : (verbs : List CrossingVerb) → Any (λ w. w ≡ verb) verbs → lists verb verbs ≡ true
      listed [] h = elim h [ ]
      listed (w ∷ verbs) (here e) =
          subst (λ v. (c.index w == c.index v || lists v verbs) ≡ true) e (ground arith)
      listed (w ∷ verbs) (there h) = let rest = listed verbs h in ground arith

  -- What is told of a granted table is the grant's: its verbs, and nothing of foreign keys.
  abbrev pub IsTruthful : SourceGrant → DescribedTable → Type 0
  IsTruthful grant table =
      ((verb : CrossingVerb) → lists verb table.verbs ≡ has_verb grant verb)
      × AreLocal table.constraints

  describe_entry-IsTruthful :
      (catalogue : Catalog) (schema name : String) (grant : SourceGrant) (o : Option SourceEntry)
      (table : DescribedTable)
      → describe_entry catalogue schema name grant o ≡ ok table
      → IsTruthful grant table
  unfolding describe_entry
  describe_entry-IsTruthful catalogue schema name grant none table h = cc
  describe_entry-IsTruthful catalogue schema name grant (some entry) table h =
      elim (Bool-cases (is_grantable (some entry))) [
        | inr gone ↦ cc (rw gone at h)
        | inl present ↦
            let (columns, p, h') = bind-eq-ok (catalogue.columns entry) _ (rw present at h) in
            subst (IsTruthful grant) (ok_injective h') (
              λ verb.
                  lists-granted_verbs verb grant c.verbs
                  ∙ ap (λ b. b && has_verb grant verb) (lists-verbs verb),
              constraints_of-AreLocal entry,
            )
      ]

module _ ⦃u : StringUtil⦄ ⦃c : Crossing⦄ where
  -- A table that is described has a grant among the tables; its description lists exactly the verbs
  -- that are granted of it, and none of its constraints is a foreign key.
  pub describe_lem :
      (tables : GrantTables) (catalogue : Catalog) (schema name : String) (table : DescribedTable)
      (verb : CrossingVerb)
      → describe tables catalogue schema name ≡ ok table
      → (grant : SourceGrant) × (find_grant tables schema name ≡ some grant)
        × (lists verb table.verbs ≡ is_granted tables schema name verb)
        × AreLocal table.constraints
  unfolding describe is_granted describe_granted has_granted
  describe_lem tables catalogue schema name table verb h =
      granted (find_grant tables schema name) refl h
    where
      granted :
          (o : Option SourceGrant)
          → find_grant tables schema name ≡ o
          → describe_granted catalogue schema name o ≡ ok table
          → (grant : SourceGrant) × (find_grant tables schema name ≡ some grant)
            × (lists verb table.verbs ≡ has_granted (find_grant tables schema name) verb)
            × AreLocal table.constraints
      granted none e h = cc
      granted (some grant) e h =
          let truth =
            describe_entry-IsTruthful catalogue schema name grant (catalogue.entry schema name)
              table h in
          (grant, e, truth.0 verb ∙ ap (λ o. has_granted o verb) (sym e), truth.1)
