-- ===== src/Frames/Steps.antt =====
-- A property that every step of the decoder preserves holds when `PushFrame` returns.
use duckdb_virtual_catalog.Prelude.{
  ℕ, zero, suc, ◌+◌, ◌-◌, ◌%◌, ◌^◌, String, ◌≡◌, subst, inl, inr, Bool, true, false, not, ◌||◌,
  List, Option, some, ltb, if◌then◌else◌, Bool-cases, some_injective, pos,
}
use duckdb_virtual_catalog.Frames.{
  Nanoarrow, State, Outcome, refused, done_with, Peeked, no_data, peek_refused, prefix, MessageType,
}
use duckdb_virtual_catalog.Frames.Messages.{fail, on_message}
use duckdb_virtual_catalog.Frames.Push.{
  Iteration, return, continue, after_message, failed_with, on_header, on_decoded, on_verified,
  on_peeked, iterate, push_loop, push_frame, is_negative, to_size, int_leb, to_int64,
}

-- `P b st`: of a state with which a step returned `b`. A state in which the loop goes on has `true`.
pub record IsPreserved (n : Nanoarrow) (P : Bool → State n → Type 0) : Type 0 where
  pub fails : (st : State n) (message : String) → P true st → P false (fail n st message).0
  pub ends :
      (st : State n) (d : n.Decoder) → P true st → P true (record st { decoder = d; done = true })
  pub goes_on :
      (st : State n) (d : n.Decoder) (body : List ℕ) (t : MessageType)
      → P true st
      → P
          (on_message n (record st { decoder = d }) d body t).1
          (on_message n (record st { decoder = d }) d body t).0

module _ (n : Nanoarrow) (P : Bool → State n → Type 0) (p : IsPreserved n P) where
  abbrev HoldsAfter : Iteration (State n) → Type 0
  HoldsAfter (return b st) = P b st
  HoldsAfter (continue off st) = P true st

  after_message-HoldsAfter :
      (r : State n × Bool) (off : ℕ) → P r.1 r.0 → HoldsAfter (after_message n r off)
  unfolding after_message
  after_message-HoldsAfter (st, true) off h = h
  after_message-HoldsAfter (st, false) off h = h

  on_header-HoldsAfter :
      (st : State n) (memory : ℕ → ℕ) (address size off : ℕ) (d : n.Decoder)
      → P true st
      → HoldsAfter (on_header n st memory address size off d)
  unfolding on_header failed_with
  on_header-HoldsAfter st memory address size off d h =
      elim (Bool-cases (is_negative (n.body_size_bytes d))) [
        | inl negative ↦ simp (negative) (p.fails st _ h)
        | inr fine ↦
            elim (Bool-cases (
              ltb size
                ((to_size (n.header_size_bytes d) + to_size (n.body_size_bytes d)) % 2 ^ 64))) [
                  | inl long ↦ simp (fine, long) (p.fails st _ h)
                  | inr fits ↦
                      simp (fine, fits) (after_message-HoldsAfter _ _ (p.goes_on st d _ _ h))
                ]
      ]

  on_verified-HoldsAfter :
      (st : State n) (memory : ℕ → ℕ) (address size off : ℕ) (header : List ℕ)
      (verified : Outcome n.Decoder)
      → P true st
      → HoldsAfter (on_verified n st memory address size off header verified)
  unfolding on_verified on_decoded failed_with
  on_verified-HoldsAfter st memory address size off header (refused message) h =
      p.fails st message h
  on_verified-HoldsAfter st memory address size off header (done_with d) h =
      decoded (n.decode_header d header)
    where
      decoded : (o : Outcome n.Decoder) → HoldsAfter (on_decoded n st memory address size off o)
      decoded (refused message) = p.fails st message h
      decoded (done_with d') = on_header-HoldsAfter st memory address size off d' h

  on_peeked-HoldsAfter :
      (st : State n) (memory : ℕ → ℕ) (address size off : ℕ) (peeked : Peeked) (d : n.Decoder)
      → P true st
      → HoldsAfter (on_peeked n st memory address size off peeked d)
  unfolding on_peeked failed_with
  on_peeked-HoldsAfter st memory address size off no_data d h = p.ends st d h
  on_peeked-HoldsAfter st memory address size off (peek_refused message) d h = p.fails st message h
  on_peeked-HoldsAfter st memory address size off (prefix bytes) d h =
      elim (Bool-cases (
        int_leb (n.header_size_bytes d) (pos bytes)
        || not (int_leb (n.header_size_bytes d) (to_int64 size)))) [
          | inl bad ↦ simp (bad) (p.fails st _ h)
          | inr fine ↦ simp (fine) (on_verified-HoldsAfter st memory address size off _ _ h)
        ]

  push_loop_lem :
      (fuel : ℕ) (st : State n) (memory : ℕ → ℕ) (start len off : ℕ) (st' : State n) (b : Bool)
      → P true st
      → push_loop n fuel st memory start len off ≡ some (st', b)
      → P b st'
  unfolding push_loop iterate
  push_loop_lem zero st memory start len off st' b h e = elim (Bool-cases (ltb off len)) [
    | inl more ↦ cc (rw more at e)
    | inr over ↦ subst (λ q. P q.1 q.0) (some_injective (rw over at e)) h
  ]
  push_loop_lem (suc fuel) st memory start len off st' b h e = elim (Bool-cases (ltb off len)) [
    | inr over ↦ subst (λ q. P q.1 q.0) (some_injective (rw over at e)) h
    | inl more ↦
        go (λ off' s held e'. push_loop_lem fuel s memory start len off' st' b held e')
          (iterate n st memory start len off) (rw more at e)
          (on_peeked-HoldsAfter st memory (start + off) (len - off) off _ _ h)
  ]
    where
      go :
          ((off' : ℕ) (s : State n)
            → P true s
            → push_loop n fuel s memory start len off' ≡ some (st', b)
            → P b st')
          → (it : Iteration (State n))
          → elim it as (λ _. Option (State n × Bool)) [
            | return b st' ↦ some (st', b)
            | continue off' st' ↦ push_loop n fuel st' memory start len off'
          ]
            ≡ some (st', b)
          → HoldsAfter it
          → P b st'
      go later (return b' s) e held = subst (λ q. P q.1 q.0) (some_injective e) held
      go later (continue off' s) e held = later off' s held e

  pub push_frame-IsPreserved :
      (st : State n) (memory : ℕ → ℕ) (start len : ℕ) (st' : State n) (b : Bool)
      → st.failed ≡ false
      → P true st
      → push_frame n st memory start len ≡ some (st', b)
      → P b st'
  unfolding push_frame
  push_frame-IsPreserved st memory start len st' b fresh h e =
      push_loop_lem len st memory start len 0 st' b h (
        subst
          (λ q.
            (if q then some (st, false) else push_loop n len st memory start len 0) ≡ some (st', b))
          fresh e)
