-- ===== src/Frames/Memory.antt =====
-- `PushFrame` depends on no byte of memory outside the frame that it is given.
use duckdb_virtual_catalog.Prelude.{
  ℕ, zero, suc, ◌+◌, ◌-◌, ◌%◌, ◌^◌, ◌<◌, ◌≤◌, ℤ, pos, ◌≡◌, refl, sym, ap, ◌∙◌, subst, inl, inr,
  Bool, true, false, not, ◌||◌, List, Option, some, ltb, if◌then◌else◌, Bool-cases, arith,
}
use duckdb_virtual_catalog.Frames.{
  Nanoarrow, State, Outcome, refused, done_with, Peeked, no_data, peek_refused, prefix,
}
use duckdb_virtual_catalog.Frames.Messages.{on_message}
use duckdb_virtual_catalog.Frames.Push.{
  Iteration, return, continue, after_message, failed_with, on_header, on_decoded, on_verified,
  on_peeked, iterate, push_loop, push_frame, is_negative, to_size, view_of, read_bytes, int_leb,
  to_int64,
}
use duckdb_virtual_catalog.Frames.Total.{
  IsInt64, ReadsHeaderSize, IsPeekedSize, header_bounds, total_bounds, decoded_size, peek_size,
}

-- Two memories that agree on `size` bytes from an address
abbrev pub AgreeOn : (ℕ → ℕ) → (ℕ → ℕ) → ℕ → ℕ → Type 0
AgreeOn memory memory' address size =
    (i : ℕ) → address ≤ i → i < address + size → memory i ≡ memory' i

read_bytes_eq :
    (memory memory' : ℕ → ℕ) (address size : ℕ)
    → AgreeOn memory memory' address size
    → read_bytes memory address size ≡ read_bytes memory' address size
unfolding read_bytes
read_bytes_eq memory memory' address zero agree = refl
read_bytes_eq memory memory' address (suc size) agree =
    rw
      (
        agree address (omega arith) (omega arith),
        read_bytes_eq memory memory' (suc address) size
            (λ i p q. agree i (omega arith) (omega arith)),
      )
      refl

module _ (n : Nanoarrow) (int64 : IsInt64 n) (size_of : List ℕ → ℤ)
    (reads : ReadsHeaderSize n size_of) (memory memory' : ℕ → ℕ) where
  body_eq :
      (address size m k : ℕ) (body : ℤ)
      → size < 2 ^ 63
      → body ≡ pos k
      → m + k ≤ size
      → AgreeOn memory memory' address size
      → view_of memory (address + to_size (pos m)) body
        ≡ view_of memory' (address + to_size (pos m)) body
  unfolding view_of to_size
  body_eq address size m k body small e within agree =
      let start : m % 2 ^ 64 ≡ m = omega arith in
      rw (e, start)
        (read_bytes_eq memory memory' (address + m) k
          (λ i p q. agree i (omega arith) (omega arith)))

  on_header_eq :
      (st : State n) (address size off m : ℕ) (d : n.Decoder)
      → size < 2 ^ 63
      → 1 ≤ m
      → m ≤ size
      → n.header_size_bytes d ≡ pos m
      → AgreeOn memory memory' address size
      → on_header n st memory address size off d ≡ on_header n st memory' address size off d
  unfolding on_header view_of
  on_header_eq st address size off m d small least most e agree =
      rw e (elim (Bool-cases (is_negative (n.body_size_bytes d))) [
        | inl negative ↦ simp (negative) refl
        | inr fine ↦
            let total = (to_size (pos m) + to_size (n.body_size_bytes d)) % 2 ^ 64 in
            let (k, at, sum) =
              total_bounds size m (n.body_size_bytes d) small least most (int64 d) fine in
            elim (Bool-cases (ltb size total)) [
              | inl long ↦ simp (fine, long) refl
              | inr fits ↦
                  let within : m + k ≤ size = ground (arith, sum) in
                  simp (fine, fits)
                    (ap
                      (λ body.
                        after_message n
                          (on_message n (record st { decoder = d }) d body (n.message_type d))
                          (off + total))
                      (body_eq address size m k (n.body_size_bytes d) small at within agree))
            ]
      ])

  on_verified_eq :
      (st : State n) (address size off m : ℕ) (d : n.Decoder)
      → size < 2 ^ 63
      → 1 ≤ m
      → m ≤ size
      → n.header_size_bytes d ≡ pos m
      → IsPeekedSize n size_of reads memory address size d
      → AgreeOn memory memory' address size
      → on_verified n st memory address size off
          (read_bytes memory address m)
          (n.verify_header d (read_bytes memory address m))
        ≡ on_verified n st memory' address size off
            (read_bytes memory address m)
            (n.verify_header d (read_bytes memory address m))
  unfolding on_verified on_decoded failed_with
  on_verified_eq st address size off m d small least most e peeked agree =
      verified (n.verify_header d header)
    where
      header : List ℕ
      header = read_bytes memory address m

      decoded :
          (d' : n.Decoder) (o : Outcome n.Decoder)
          → n.decode_header d' header ≡ o
          → on_decoded n st memory address size off o ≡ on_decoded n st memory' address size off o
      decoded d' (refused message) q = refl
      decoded d' (done_with d'') q =
          on_header_eq st address size off m d'' small least most
            (decoded_size n size_of reads memory address size m d d' d'' peeked e most q) agree

      verified :
          (o : Outcome n.Decoder)
          → on_verified n st memory address size off header o
            ≡ on_verified n st memory' address size off header o
      verified (refused message) = refl
      verified (done_with d') = decoded d' (n.decode_header d' header) refl

  view_eq :
      (address size m : ℕ)
      → m ≤ size
      → AgreeOn memory memory' address size
      → view_of memory address (pos m) ≡ view_of memory' address (pos m)
  unfolding view_of
  view_eq address size m most agree =
      read_bytes_eq memory memory' address m (λ i p q. agree i p (omega arith))

  on_peeked_eq :
      (st : State n) (address size off : ℕ) (peeked : Peeked) (d : n.Decoder)
      → size < 2 ^ 63
      → ((bytes : ℕ) → peeked ≡ prefix bytes → IsPeekedSize n size_of reads memory address size d)
      → AgreeOn memory memory' address size
      → on_peeked n st memory address size off peeked d
        ≡ on_peeked n st memory' address size off peeked d
  unfolding on_peeked view_of
  on_peeked_eq st address size off no_data d small at agree = refl
  on_peeked_eq st address size off (peek_refused message) d small at agree = refl
  on_peeked_eq st address size off (prefix bytes) d small at agree =
      elim (Bool-cases (
        int_leb (n.header_size_bytes d) (pos bytes)
        || not (int_leb (n.header_size_bytes d) (to_int64 size)))) [
          | inl bad ↦ simp (bad) refl
          | inr fine ↦
              let (m, e, least, most) =
                header_bounds size bytes (n.header_size_bytes d) small fine in
              let same = view_eq address size m most agree in
              let step =
                on_verified_eq st address size off m d small least most e (at bytes refl) agree
                ∙ ap
                    (λ header.
                      on_verified n st memory' address size off header (n.verify_header d header))
                    same in
              simp (fine) (
                subst
                  (λ z.
                    on_verified n st memory address size off (view_of memory address z)
                      (n.verify_header d (view_of memory address z))
                    ≡ on_verified n st memory' address size off (view_of memory' address z)
                        (n.verify_header d (view_of memory' address z)))
                  (sym e) step)
        ]

  iterate_eq :
      (st : State n) (start len off : ℕ)
      → len < 2 ^ 63
      → off < len
      → AgreeOn memory memory' start len
      → iterate n st memory start len off ≡ iterate n st memory' start len off
  unfolding iterate to_int64 view_of
  iterate_eq st start len off small more agree =
      let small_size : ltb (len - off) (2 ^ 63) ≡ true = ground arith in
      let rest : AgreeOn memory memory' (start + off) (len - off) =
        λ i p q. agree i (omega arith) (omega arith) in
      let same = view_eq (start + off) (len - off) (len - off) (omega arith) rest in
      rw small_size (
        on_peeked_eq st (start + off) (len - off) off _ _ (omega arith)
          (peek_size n size_of reads memory (start + off) (len - off) st.decoder) rest
        ∙ ap
            (λ view.
              on_peeked n st memory' (start + off) (len - off) off (n.peek_header st.decoder view).0
                (n.peek_header st.decoder view).1)
            same)

  push_loop_eq :
      (fuel : ℕ) (st : State n) (start len off : ℕ)
      → len < 2 ^ 63
      → AgreeOn memory memory' start len
      → push_loop n fuel st memory start len off ≡ push_loop n fuel st memory' start len off
  unfolding push_loop
  push_loop_eq zero st start len off small agree = refl
  push_loop_eq (suc fuel) st start len off small agree = elim (Bool-cases (ltb off len)) [
    | inr over ↦ rw over refl
    | inl more ↦
        rw (more, iterate_eq st start len off small (ground arith) agree)
          (go (λ off' s. push_loop_eq fuel s start len off' small agree)
            (iterate n st memory' start len off))
  ]
    where
      go :
          ((off' : ℕ) (s : State n)
            → push_loop n fuel s memory start len off' ≡ push_loop n fuel s memory' start len off')
          → (it : Iteration (State n))
          → elim it as (λ _. Option (State n × Bool)) [
            | return b st' ↦ some (st', b)
            | continue off' st' ↦ push_loop n fuel st' memory start len off'
          ]
            ≡ elim it as (λ _. Option (State n × Bool)) [
              | return b st' ↦ some (st', b)
              | continue off' st' ↦ push_loop n fuel st' memory' start len off'
            ]
      go later (return b s) = refl
      go later (continue off' s) = later off' s

  -- For a nanoarrow that reads the size of a header from the first 8 bytes of a message, and the body's
  -- length as an `int64_t`, and a frame shorter than 2 ^ 63 bytes: two memories that agree on the
  -- frame's bytes give the same result and the same state, whatever
  -- lengths the messages in the frame declare: nothing outside the frame is read.
  pub push_frame_reads_frame :
      (st : State n) (start len : ℕ)
      → len < 2 ^ 63
      → AgreeOn memory memory' start len
      → push_frame n st memory start len ≡ push_frame n st memory' start len
  unfolding push_frame
  push_frame_reads_frame st start len small agree =
      ap (λ q. if st.failed then some (st, false) else q)
        (push_loop_eq len st start len 0 small agree)
