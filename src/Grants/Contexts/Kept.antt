-- ===== src/Grants/Contexts/Kept.antt =====
-- A context that is finalized keeps its values.
use duckdb_virtual_catalog.Prelude.{
  ℕ, String, ◌≡◌, refl, sym, ap, ◌∙◌, subst, Bool, true, false, [], ◌∷◌, Option, none, some, ◌==◌,
  if◌then◌else◌, Result, ok, err, is_empty, some_injective, Bool-cases, inl, inr, arith,
}
use duckdb_virtual_catalog.Host.{StringUtil, Crossing}
use duckdb_virtual_catalog.Grants.Expression.{Parsed}
use duckdb_virtual_catalog.Grants.Source.{Source}
use duckdb_virtual_catalog.Grants.Commit.{grant_policies}
use duckdb_virtual_catalog.Grants.Contexts.{
  BridgeContext, Contexts, find_context, put_context, check_value, store_value, store_checked,
  set_in_target, set_context, finalize_found, finalize_in_target, finalize_context,
}
use duckdb_virtual_catalog.Registry.{World, Registry}
use duckdb_virtual_catalog.Registry.Targets.{GrantTarget, lookup_grant_target}

find_context-put_context :
    (k k' : ℕ) (context : BridgeContext) (contexts : Contexts)
    → find_context k' (put_context k context contexts)
      ≡ (if k == k' then some context else find_context k' contexts)
unfolding find_context put_context
find_context-put_context k k' context [] = refl
find_context-put_context k k' context ((j, old) ∷ contexts) = elim (Bool-cases (j == k)) [
  | inl same ↦
      let e : j ≡ k = ground arith in
      rw same (
        subst
          (λ i. (if i == k' then some context else find_context k' contexts) ≡ (
            if k == k'
            then some context
            else (if i == k' then some old else find_context k' contexts)))
          (sym e) (twice (k == k') _ _ _))
  | inr differs ↦ rw (differs, find_context-put_context k k' context contexts) (ground arith)
]
  where
    twice :
        (b : Bool) (x y z : Option BridgeContext)
        → (if b then x else z) ≡ (if b then x else (if b then y else z))
    twice true x y z = refl
    twice false x y z = refl

-- Every finalized context is as it was.
abbrev pub AreKept : Contexts → Contexts → Type 0
AreKept before after =
    (k : ℕ) (context : BridgeContext)
    → find_context k before ≡ some context
    → context.finalized ≡ true
    → find_context k after ≡ some context

-- A context that is not finalized is replaced.
put_context-AreKept :
    (k : ℕ) (old new : BridgeContext) (contexts : Contexts)
    → find_context k contexts ≡ some old
    → old.finalized ≡ false
    → AreKept contexts (put_context k new contexts)
put_context-AreKept k old new contexts found is_open = λ k' context found' final.
    find_context-put_context k k' new contexts ∙ elim (Bool-cases (k == k')) [
      | inr differs ↦ rw differs found'
      | inl same ↦
          let e : k ≡ k' = ground arith in
          let one : old ≡ context =
            some_injective
              (sym found ∙ subst (λ i. find_context i contexts ≡ some context) (sym e) found') in
          absurd (false_is_true (sym is_open ∙ ap (λ q. q.finalized) one ∙ final))
    ]
  where
    false_is_true : false ≡ true → ⊥
    false_is_true h = cc

module _ ⦃u : StringUtil⦄ ⦃c : Crossing⦄ where
  store_value-AreKept :
      (bridge_id name : String) (value k : ℕ) (found : Option BridgeContext) (now : Contexts)
      → find_context k now ≡ found
      → AreKept now (store_value bridge_id name value k found now).0
  unfolding store_value
  store_value-AreKept bridge_id name value k none now e = λ k' context f final. f
  store_value-AreKept bridge_id name value k (some context) now e =
      elim (Bool-cases context.finalized) [
        | inl final ↦ rw final (λ k' context' f final'. f)
        | inr is_open ↦ rw is_open (put_context-AreKept k context _ now e is_open)
      ]

  set_in_target-AreKept :
      (sources : GrantTarget grant_policies → Result Source) (text : Parsed → String)
      (before now : Contexts) (bridge_id name : String) (value : ℕ)
      (found : Result (GrantTarget grant_policies))
      → AreKept now (set_in_target sources text before now bridge_id name value found).0
  unfolding set_in_target store_checked
  set_in_target-AreKept sources text before now bridge_id name value (err thrown) =
      λ k context f final. f
  set_in_target-AreKept sources text before now bridge_id name value (ok target) =
      stored
        (check_value sources text bridge_id name value target (find_context target.context before))
    where
      stored :
          (checked : Result (Unit {0}))
          → AreKept now (store_checked bridge_id name value target.context now checked).0
      stored (err thrown) = λ k context f final. f
      stored (ok checked) =
          store_value-AreKept bridge_id name value target.context (find_context target.context now)
            now refl

  set_context-AreKept :
      (w : World) (sources : GrantTarget grant_policies → Result Source) (text : Parsed → String)
      (reg : Registry grant_policies) (before now : Contexts) (bridge_id : String) (caller : ℕ)
      (name : String) (value : ℕ)
      → AreKept now (set_context w sources text reg before now bridge_id caller name value).0
  unfolding set_context
  set_context-AreKept w sources text reg before now bridge_id caller name value =
      elim (Bool-cases (is_empty name)) [
        | inl unnamed ↦ rw unnamed (λ k context f final. f)
        | inr named ↦ rw named (
            set_in_target-AreKept sources text before now bridge_id name value
              (lookup_grant_target grant_policies w reg bridge_id caller).1)
      ]

  finalize_found-AreKept :
      (bridge_id : String) (k : ℕ) (found : Option BridgeContext) (contexts : Contexts)
      → find_context k contexts ≡ found
      → AreKept contexts (finalize_found bridge_id k found contexts).0
  unfolding finalize_found
  finalize_found-AreKept bridge_id k none contexts e = λ k' context f final. f
  finalize_found-AreKept bridge_id k (some context) contexts e =
      elim (Bool-cases context.finalized) [
        | inl final ↦ rw final (λ k' context' f final'. f)
        | inr is_open ↦ rw is_open (put_context-AreKept k context _ contexts e is_open)
      ]

  finalize_context-AreKept :
      (w : World) (reg : Registry grant_policies) (contexts : Contexts) (bridge_id : String)
      (caller : ℕ)
      → AreKept contexts (finalize_context w reg contexts bridge_id caller).0
  unfolding finalize_context finalize_in_target
  finalize_context-AreKept w reg contexts bridge_id caller =
      finalized (lookup_grant_target grant_policies w reg bridge_id caller).1
    where
      finalized :
          (found : Result (GrantTarget grant_policies))
          → AreKept contexts (finalize_in_target contexts bridge_id found).0
      finalized (err thrown) = λ k context f final. f
      finalized (ok target) =
          finalize_found-AreKept bridge_id target.context (find_context target.context contexts)
            contexts refl

  -- A call on the contexts, or a registration, which adds one under a new number
  pub data ContextStep : Contexts → Contexts → Type 1 where
    adds :
        (k : ℕ) (contexts : Contexts)
        → find_context k contexts ≡ none
        → ContextStep contexts (put_context k (record { values = []; finalized = false }) contexts)
    sets :
        (w : World) (sources : GrantTarget grant_policies → Result Source) (text : Parsed → String)
        (reg : Registry grant_policies) (before now : Contexts) (bridge_id : String) (caller : ℕ)
        (name : String) (value : ℕ)
        → ContextStep now (set_context w sources text reg before now bridge_id caller name value).0
    finalizes :
        (w : World) (reg : Registry grant_policies) (contexts : Contexts) (bridge_id : String)
        (caller : ℕ)
        → ContextStep contexts (finalize_context w reg contexts bridge_id caller).0

  pub data ContextSteps (first : Contexts) : Contexts → Type 1 where
    none_yet : ContextSteps first first
    one_more :
        {before after : Contexts}
        → ContextSteps first before
        → ContextStep before after
        → ContextSteps first after

  add-AreKept :
      (k : ℕ) (new : BridgeContext) (contexts : Contexts)
      → find_context k contexts ≡ none
      → AreKept contexts (put_context k new contexts)
  add-AreKept k new contexts free = λ k' context found final.
      find_context-put_context k k' new contexts ∙ elim (Bool-cases (k == k')) [
        | inr differs ↦ rw differs found
        | inl same ↦
            let e : k ≡ k' = ground arith in
            cc (sym free ∙ subst (λ i. find_context i contexts ≡ some context) (sym e) found)
      ]

  step-AreKept : {before after : Contexts} → ContextStep before after → AreKept before after
  step-AreKept (adds k contexts free) = add-AreKept k _ contexts free
  step-AreKept (sets w sources text reg before now bridge_id caller name value) =
      set_context-AreKept w sources text reg before now bridge_id caller name value
  step-AreKept (finalizes w reg contexts bridge_id caller) =
      finalize_context-AreKept w reg contexts bridge_id caller

  steps-AreKept : {first last : Contexts} → ContextSteps first last → AreKept first last
  steps-AreKept none_yet = λ k context found final. found
  steps-AreKept (one_more steps step) = λ k context found final.
      step-AreKept step k context (steps-AreKept steps k context found final) final

  -- Once a context is finalized, no sequence of calls and registrations changes its values or opens it
  -- again.
  pub find_context-ContextSteps :
      (first last : Contexts) (k : ℕ) (context : BridgeContext)
      → ContextSteps first last
      → find_context k first ≡ some context
      → context.finalized ≡ true
      → find_context k last ≡ some context
  find_context-ContextSteps first last k context steps found final =
      steps-AreKept steps k context found final
