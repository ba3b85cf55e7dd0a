-- ===== src/Frames/Stable.antt =====
-- What `PushFrame` keeps: the queued batches, the layout of the schema, the dictionaries.
use duckdb_virtual_catalog.Prelude.{
  ℕ, ◌<◌, ◌^◌, ℤ, String, ◌≡◌, refl, sym, ap, ◌∙◌, subst, inl, inr, Bool, true, false, not, List,
  [], ◌∷◌, ◌++◌, Option, none, some, arith, Bool-cases,
}
use mathlib.Core.List.{append-nil, append_assoc}
use duckdb_virtual_catalog.Frames.{
  Nanoarrow, State, Outcome, refused, done_with, MessageType, schema_message, dictionary_batch,
  record_batch, other_message,
}
use duckdb_virtual_catalog.Frames.Layout.{ArrowSchema, same_layout, layout, same_layout_sound}
use duckdb_virtual_catalog.Frames.Messages.{
  fail, bind_dictionaries, bind_schema, bind_endianness, bind_encodings, set_schema, check_layout,
  on_schema, on_dictionary_batch, on_record_batch, on_message,
}
use duckdb_virtual_catalog.Frames.Push.{push_frame}
use duckdb_virtual_catalog.Frames.Total.{IsInt64, ReadsHeaderSize, push_frame_total}
use duckdb_virtual_catalog.Frames.Steps.{IsPreserved, push_frame-IsPreserved}

-- A schema that is set stays set, and with its layout.
abbrev pub KeepsLayout : Option ArrowSchema → Option ArrowSchema → Type 0
KeepsLayout none later = Unit
KeepsLayout (some s) later = (s' : ArrowSchema) × (later ≡ some s') × (layout s' ≡ layout s)

KeepsLayout-trans :
    (first between last : Option ArrowSchema)
    → KeepsLayout first between
    → KeepsLayout between last
    → KeepsLayout first last
KeepsLayout-trans none between last h k = tt
KeepsLayout-trans (some s) between last (s', e, same) k =
    let (s'', e', same') = subst (λ q. KeepsLayout q last) e k in (s'', e', same' ∙ same)

KeepsLayout-refl : (o : Option ArrowSchema) → KeepsLayout o o
KeepsLayout-refl none = tt
KeepsLayout-refl (some s) = (s, refl, refl)

module _ (n : Nanoarrow) where
  -- The dictionaries are initialised once the schema is set.
  abbrev pub IsReady : State n → Type 0
  IsReady st =
      (s : ArrowSchema) → st.schema ≡ some s → (d : n.Dictionaries) × (st.dictionaries ≡ some d)

  -- What a step to the state `st'` with the result `b` makes of a state
  abbrev pub Keeps : State n → Bool → State n → Type 0
  Keeps st b st' =
      ((added : List n.Array) × (st'.batches ≡ st.batches ++ added))
      × (b ≡ not st'.failed)
      × (b ≡ true → KeepsLayout st.schema st'.schema × IsReady st')

  -- The outcome of the steps behind the check of the layout
  abbrev IsBound : State n → ArrowSchema → State n × Bool → Type 0
  IsBound st incoming r =
      (r.0.batches ≡ st.batches)
      × (r.1 ≡ not r.0.failed)
      × (r.1 ≡ true
          → (r.0.schema ≡ some incoming) × (d : n.Dictionaries) × (r.0.dictionaries ≡ some d))

  bind_dictionaries-IsBound :
      (st : State n) (incoming : ArrowSchema) (d : n.Decoder) (enc : n.Encodings)
      (o : Outcome n.Dictionaries)
      → st.failed ≡ false
      → st.schema ≡ some incoming
      → IsBound st incoming (bind_dictionaries n st d enc o)
  unfolding bind_dictionaries fail
  bind_dictionaries-IsBound st incoming d enc (refused message) fresh set = (refl, refl, λ e. cc)
  bind_dictionaries-IsBound st incoming d enc (done_with dicts) fresh set =
      (refl, rw fresh refl, λ e. (set, dicts, refl))

  bind_schema-IsBound :
      (st : State n) (incoming : ArrowSchema) (enc : n.Encodings) (o : Outcome n.Decoder)
      → st.failed ≡ false
      → st.schema ≡ some incoming
      → IsBound st incoming (bind_schema n st incoming enc o)
  unfolding bind_schema fail
  bind_schema-IsBound st incoming enc (refused message) fresh set = (refl, refl, λ e. cc)
  bind_schema-IsBound st incoming enc (done_with d) fresh set =
      bind_dictionaries-IsBound (record st { decoder = d }) incoming d enc _ fresh set

  bind_endianness-IsBound :
      (st : State n) (incoming : ArrowSchema) (enc : n.Encodings) (o : Outcome n.Decoder)
      → st.failed ≡ false
      → st.schema ≡ some incoming
      → IsBound st incoming (bind_endianness n st incoming enc o)
  unfolding bind_endianness fail
  bind_endianness-IsBound st incoming enc (refused message) fresh set = (refl, refl, λ e. cc)
  bind_endianness-IsBound st incoming enc (done_with d) fresh set =
      bind_schema-IsBound (record st { decoder = d }) incoming enc _ fresh set

  bind_encodings-IsBound :
      (st : State n) (d : n.Decoder) (incoming : ArrowSchema) (o : Option n.Encodings)
      → st.failed ≡ false
      → st.schema ≡ some incoming
      → IsBound st incoming (bind_encodings n st d incoming o)
  unfolding bind_encodings fail
  bind_encodings-IsBound st d incoming none fresh set = (refl, refl, λ e. cc)
  bind_encodings-IsBound st d incoming (some enc) fresh set =
      bind_endianness-IsBound (record st { encodings = some enc }) incoming enc _ fresh set

  IsBound-Keeps :
      (st : State n) (incoming : ArrowSchema) (r : State n × Bool)
      → KeepsLayout st.schema (some incoming)
      → IsBound st incoming r
      → Keeps st r.1 r.0
  IsBound-Keeps st incoming r keeps (batches, status, bound) = (
    ([], batches ∙ sym (append-nil st.batches)),
    status,
    λ e.
        let (set, d, ready) = bound e in
        (subst (λ q. KeepsLayout st.schema q) (sym set) keeps, λ s k. (d, ready)),
  )

  set_schema-Keeps :
      (st : State n) (d : n.Decoder) (incoming : ArrowSchema)
      → st.failed ≡ false
      → KeepsLayout st.schema (some incoming)
      → Keeps st (set_schema n st d incoming).1 (set_schema n st d incoming).0
  unfolding set_schema
  set_schema-Keeps st d incoming fresh keeps =
      IsBound-Keeps st incoming (set_schema n st d incoming) keeps (
        bind_encodings-IsBound
          (record st { schema = some incoming; dictionaries = none; encodings = none }) d incoming _
          fresh refl)

  fail-Keeps :
      (st st' : State n) (message : String)
      → st'.batches ≡ st.batches
      → Keeps st false (fail n st' message).0
  unfolding fail
  fail-Keeps st st' message same = (([], same ∙ sym (append-nil st.batches)), refl, λ e. cc)

  check_layout-Keeps :
      (st : State n) (d : n.Decoder) (o : Option ArrowSchema) (incoming : ArrowSchema)
      → st.failed ≡ false
      → st.schema ≡ o
      → Keeps st (check_layout n st d o incoming).1 (check_layout n st d o incoming).0
  unfolding check_layout
  check_layout-Keeps st d none incoming fresh e =
      set_schema-Keeps st d incoming fresh (subst (λ q. KeepsLayout q (some incoming)) (sym e) tt)
  check_layout-Keeps st d (some old) incoming fresh e =
      elim (Bool-cases (same_layout old incoming)) [
        | inr differs ↦ simp (differs) (
            fail-Keeps st (record st { schema = none })
              "Arrow IPC stream changed its schema mid-stream" refl)
        | inl same ↦ simp (same) (
            set_schema-Keeps st d incoming fresh (
              subst (λ q. KeepsLayout q (some incoming)) (sym e)
                (incoming, refl, sym (same_layout_sound old incoming same))))
      ]

  on_schema-Keeps :
      (st : State n) (d : n.Decoder) (o : Outcome ArrowSchema)
      → st.failed ≡ false
      → Keeps st (on_schema n st d o).1 (on_schema n st d o).0
  unfolding on_schema
  on_schema-Keeps st d (refused message) fresh = fail-Keeps st st message refl
  on_schema-Keeps st d (done_with incoming) fresh =
      check_layout-Keeps st d st.schema incoming fresh refl

  on_dictionary_batch-Keeps :
      (st : State n) (o : Option ArrowSchema) (outcome : Outcome n.Dictionaries)
      → st.failed ≡ false
      → Keeps st (on_dictionary_batch n st o outcome).1 (on_dictionary_batch n st o outcome).0
  unfolding on_dictionary_batch
  on_dictionary_batch-Keeps st none outcome fresh =
      fail-Keeps st st "dictionary batch arrived before schema" refl
  on_dictionary_batch-Keeps st (some s) (refused message) fresh = fail-Keeps st st message refl
  on_dictionary_batch-Keeps st (some s) (done_with dicts) fresh = (
    ([], sym (append-nil st.batches)),
    rw fresh refl,
    λ e. (KeepsLayout-refl st.schema, λ k set. (dicts, refl)),
  )

  on_record_batch-Keeps :
      (st : State n) (o : Option ArrowSchema) (outcome : Outcome n.Array)
      → st.failed ≡ false
      → IsReady st
      → Keeps st (on_record_batch n st o outcome).1 (on_record_batch n st o outcome).0
  unfolding on_record_batch
  on_record_batch-Keeps st none outcome fresh ready =
      fail-Keeps st st "record batch arrived before schema" refl
  on_record_batch-Keeps st (some s) (refused message) fresh ready = fail-Keeps st st message refl
  on_record_batch-Keeps st (some s) (done_with array) fresh ready =
      ((array ∷ [], refl), rw fresh refl, λ e. (KeepsLayout-refl st.schema, ready))

  on_message-Keeps :
      (st : State n) (d : n.Decoder) (body : List ℕ) (t : MessageType)
      → st.failed ≡ false
      → IsReady st
      → Keeps st (on_message n st d body t).1 (on_message n st d body t).0
  unfolding on_message
  on_message-Keeps st d body schema_message fresh ready = on_schema-Keeps st d _ fresh
  on_message-Keeps st d body dictionary_batch fresh ready =
      on_dictionary_batch-Keeps st st.schema _ fresh
  on_message-Keeps st d body record_batch fresh ready =
      on_record_batch-Keeps st st.schema _ fresh ready
  on_message-Keeps st d body other_message fresh ready =
      (([], sym (append-nil st.batches)), rw fresh refl, λ e. (KeepsLayout-refl st.schema, ready))

  Keeps-trans :
      (st between last : State n) (b : Bool)
      → Keeps st true between
      → Keeps between b last
      → Keeps st b last
  Keeps-trans st between last b ((xs, old), status, kept) ((ys, new), status', kept') = (
    (xs ++ ys, new ∙ ap (λ q. q ++ ys) old ∙ append_assoc st.batches xs ys),
    status',
    λ e.
        let (layout_kept, ready) = kept' e in
        (KeepsLayout-trans st.schema between.schema last.schema (kept refl).0 layout_kept, ready),
  )

  Keeps-IsPreserved : (st₀ : State n) → IsPreserved n (Keeps st₀)
  Keeps-IsPreserved st₀ = record {
    fails = λ st message h.
        Keeps-trans st₀ st (fail n st message).0 false h (fail-Keeps st st message refl);
    ends = λ st d h. h;
    goes_on = λ st d body t h.
        Keeps-trans st₀ st (on_message n (record st { decoder = d }) d body t).0
          (on_message n (record st { decoder = d }) d body t).1 h
          (on_message-Keeps (record st { decoder = d }) d body t (ground arith) (h.2 refl).1);
  }

  -- A call of `PushFrame`, on a frame shorter than 2 ^ 63 bytes, of a decoder that has not failed and
  -- that has dictionaries if it has a schema, for a nanoarrow that reads the size of a header from the
  -- first 8 bytes of a message and the body's length as an `int64_t`: it returns; the queued batches
  -- stay, in their order, and new ones join behind them; it returns false exactly if the decoder has
  -- failed; if it returns true then a schema that was set keeps its layout, and there are dictionaries
  -- if there is a schema.
  pub push_frame-Keeps :
      (size_of : List ℕ → ℤ) (st : State n) (memory : ℕ → ℕ) (start len : ℕ)
      → IsInt64 n
      → ReadsHeaderSize n size_of
      → len < 2 ^ 63
      → st.failed ≡ false
      → IsReady st
      → (st' : State n) × (b : Bool) × (push_frame n st memory start len ≡ some (st', b))
        × Keeps st b st'
  push_frame-Keeps size_of st memory start len int64 reads small fresh ready =
      let (st', b, e) = push_frame_total n int64 size_of reads st memory start len small in
      let before : Keeps st true st = (
        ([], sym (append-nil st.batches)),
        rw fresh refl,
        λ e. (KeepsLayout-refl st.schema, ready),
      ) in
      let kept =
        push_frame-IsPreserved n (Keeps st) (Keeps-IsPreserved st) st memory start len st' b fresh
          before e in
      (st', b, e, kept)
