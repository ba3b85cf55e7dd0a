-- ===== src/Frames/Total.antt =====
-- `PushFrame` returns on every frame: each iteration of its loop gets further.
use duckdb_virtual_catalog.Prelude.{
  ℕ, zero, suc, sym, ap, subst, take, length, ◌∷◌, ◌+◌, ◌-◌, ◌%◌, ◌^◌, ◌<◌, ◌≤◌, ℤ, pos, negsuc,
  ◌≡◌, refl, ◌∙◌, inl, inr, Bool, true, false, not, ◌||◌, List, Option, some, ltb, leb, Bool-cases,
  arith,
}
use duckdb_virtual_catalog.Frames.{
  Nanoarrow, State, Outcome, refused, done_with, Peeked, no_data, peek_refused, prefix,
}
use duckdb_virtual_catalog.Frames.Push.{
  Iteration, return, continue, after_message, failed_with, on_header, on_decoded, on_verified,
  on_peeked, iterate, push_loop, push_frame, is_negative, to_size, int_leb, to_int64, read_bytes,
  view_of,
}

-- The body's length is an `int64_t`.
abbrev pub IsInt64 : (n : Nanoarrow) → Type 0
IsInt64 n = (d : n.Decoder) (m : ℕ) → n.body_size_bytes d ≡ pos m → m < 2 ^ 63

-- The size of a header is read from the first 8 bytes of a message, by `size_of`: by a peek that finds
-- a length prefix, and again by decoding, which refuses less than 8 bytes.
abbrev pub ReadsHeaderSize : (n : Nanoarrow) → (List ℕ → ℤ) → Type 0
ReadsHeaderSize n size_of =
    ((d d' : n.Decoder) (bytes : List ℕ) (size : ℕ)
      → n.peek_header d bytes ≡ (prefix size, d')
      → n.header_size_bytes d' ≡ size_of (take 8 bytes))
    × ((d d' : n.Decoder) (bytes : List ℕ)
        → n.decode_header d bytes ≡ done_with d'
        → (8 ≤ length bytes) × (n.header_size_bytes d' ≡ size_of (take 8 bytes)))

length-read_bytes :
    (memory : ℕ → ℕ) (address size : ℕ) → length (read_bytes memory address size) ≡ size
unfolding read_bytes
length-read_bytes memory address zero = refl
length-read_bytes memory address (suc size) = ap suc (length-read_bytes memory (suc address) size)

-- A view that is cut short has the same first bytes.
take-read_bytes :
    (memory : ℕ → ℕ) (k address m size : ℕ)
    → k ≤ m
    → m ≤ size
    → take k (read_bytes memory address m) ≡ take k (read_bytes memory address size)
unfolding read_bytes
take-read_bytes memory zero address m size short within = refl
take-read_bytes memory (suc k) address zero size short within = absurd (omega arith)
take-read_bytes memory (suc k) address (suc m) zero short within = absurd (omega arith)
take-read_bytes memory (suc k) address (suc m) (suc size) short within =
    ap (λ bytes. memory address ∷ bytes)
      (take-read_bytes memory k (suc address) m size (omega arith) (omega arith))

module _ (n : Nanoarrow) (size_of : List ℕ → ℤ) (reads : ReadsHeaderSize n size_of) where
  -- The size that was peeked at in a view
  abbrev pub IsPeekedSize : (ℕ → ℕ) → ℕ → ℕ → n.Decoder → Type 0
  IsPeekedSize memory address size d =
      n.header_size_bytes d ≡ size_of (take 8 (read_bytes memory address size))

  -- Decoding a view that is cut to the size of the header reads the size that was peeked at.
  pub decoded_size :
      (memory : ℕ → ℕ) (address size m : ℕ) (d d' d'' : n.Decoder)
      → IsPeekedSize memory address size d
      → n.header_size_bytes d ≡ pos m
      → m ≤ size
      → n.decode_header d' (read_bytes memory address m) ≡ done_with d''
      → n.header_size_bytes d'' ≡ pos m
  decoded_size memory address size m d d' d'' peeked e most h =
      let (least, again) = reads.1 d' d'' (read_bytes memory address m) h in
      let enough : 8 ≤ m = omega (arith, least, length-read_bytes memory address m) in
      again ∙ ap size_of (take-read_bytes memory 8 address m size enough most) ∙ sym peeked ∙ e

  pub peek_size :
      (memory : ℕ → ℕ) (address size : ℕ) (d : n.Decoder) (bytes : ℕ)
      → (n.peek_header d (read_bytes memory address size)).0 ≡ prefix bytes
      → IsPeekedSize memory address size (n.peek_header d (read_bytes memory address size)).1
  peek_size memory address size d bytes e =
      let view = read_bytes memory address size in
      reads.0 d (n.peek_header d view).1 view bytes (ap (λ q. (q, (n.peek_header d view).1)) e)

-- A header size that passes the checks is positive and within the rest of the frame.
pub header_bounds :
    (size bytes : ℕ) (h : ℤ)
    → size < 2 ^ 63
    → (int_leb h (pos bytes) || not (int_leb h (to_int64 size))) ≡ false
    → (m : ℕ) × (h ≡ pos m) × (1 ≤ m) × (m ≤ size)
unfolding int_leb to_int64
header_bounds size bytes (pos m) small e =
    let range : ltb size (2 ^ 63) ≡ true = ground arith in
    let bound : (leb m bytes || not (leb m size)) ≡ false = rw range at e in
    (m, refl, ground arith, ground arith)
header_bounds size bytes (negsuc m) small e = cc

-- The sum of the sizes does not wrap.
pub total_bounds :
    (size m : ℕ) (body : ℤ)
    → size < 2 ^ 63
    → 1 ≤ m
    → m ≤ size
    → ((k : ℕ) → body ≡ pos k → k < 2 ^ 63)
    → is_negative body ≡ false
    → (k : ℕ) × (body ≡ pos k) × ((to_size (pos m) + to_size body) % 2 ^ 64 ≡ m + k)
unfolding is_negative to_size
total_bounds size m (pos k) small least most int fine =
    let bound = int k refl in (k, refl, omega arith)
total_bounds size m (negsuc k) small least most int fine = cc

module _ (n : Nanoarrow) (int64 : IsInt64 n) (size_of : List ℕ → ℤ)
    (reads : ReadsHeaderSize n size_of) where
  -- The loop goes on further in the frame, and within it.
  abbrev pub Advances : ℕ → ℕ → Iteration (State n) → Type 0
  Advances size off (return b st) = Unit
  Advances size off (continue off' st) = (off < off') × (off' ≤ off + size)

  after_message-Advances :
      (r : State n × Bool) (size off off' : ℕ)
      → off < off'
      → off' ≤ off + size
      → Advances size off (after_message n r off')
  unfolding after_message
  after_message-Advances (st, true) size off off' more within = (more, within)
  after_message-Advances (st, false) size off off' more within = tt

  on_header-Advances :
      (st : State n) (memory : ℕ → ℕ) (address size off m : ℕ) (d : n.Decoder)
      → size < 2 ^ 63
      → 1 ≤ m
      → m ≤ size
      → n.header_size_bytes d ≡ pos m
      → Advances size off (on_header n st memory address size off d)
  unfolding on_header failed_with
  on_header-Advances st memory address size off m d small least most e =
      rw e (elim (Bool-cases (is_negative (n.body_size_bytes d))) [
        | inl negative ↦ simp (negative) tt
        | inr fine ↦
            let total = (to_size (pos m) + to_size (n.body_size_bytes d)) % 2 ^ 64 in
            let (k, at, sum) =
              total_bounds size m (n.body_size_bytes d) small least most (int64 d) fine in
            elim (Bool-cases (ltb size total)) [
              | inl long ↦ simp (fine, long) tt
              | inr fits ↦
                  simp (fine, fits)
                    (after_message-Advances _ size off (off + total) (ground (arith, sum))
                      (ground (arith, sum)))
            ]
      ])

  on_verified-Advances :
      (st : State n) (memory : ℕ → ℕ) (address size off m : ℕ) (d : n.Decoder)
      → size < 2 ^ 63
      → 1 ≤ m
      → m ≤ size
      → n.header_size_bytes d ≡ pos m
      → IsPeekedSize n size_of reads memory address size d
      → Advances size off (
          on_verified n st memory address size off
            (read_bytes memory address m)
            (n.verify_header d (read_bytes memory address m)))
  unfolding on_verified on_decoded failed_with
  on_verified-Advances st memory address size off m d small least most e peeked =
      verified (n.verify_header d header)
    where
      header : List ℕ
      header = read_bytes memory address m

      decoded :
          (d' : n.Decoder) (o : Outcome n.Decoder)
          → n.decode_header d' header ≡ o
          → Advances size off (on_decoded n st memory address size off o)
      decoded d' (refused message) q = tt
      decoded d' (done_with d'') q =
          on_header-Advances st memory address size off m d'' small least most
            (decoded_size n size_of reads memory address size m d d' d'' peeked e most q)

      verified :
          (o : Outcome n.Decoder)
          → Advances size off (on_verified n st memory address size off header o)
      verified (refused message) = tt
      verified (done_with d') = decoded d' (n.decode_header d' header) refl

  pub on_peeked-Advances :
      (st : State n) (memory : ℕ → ℕ) (address size off : ℕ) (peeked : Peeked) (d : n.Decoder)
      → size < 2 ^ 63
      → ((bytes : ℕ) → peeked ≡ prefix bytes → IsPeekedSize n size_of reads memory address size d)
      → Advances size off (on_peeked n st memory address size off peeked d)
  unfolding on_peeked failed_with view_of
  on_peeked-Advances st memory address size off no_data d small at = tt
  on_peeked-Advances st memory address size off (peek_refused message) d small at = tt
  on_peeked-Advances st memory address size off (prefix bytes) d small at =
      elim (Bool-cases (
        int_leb (n.header_size_bytes d) (pos bytes)
        || not (int_leb (n.header_size_bytes d) (to_int64 size)))) [
          | inl bad ↦ simp (bad) tt
          | inr fine ↦
              let (m, e, least, most) =
                header_bounds size bytes (n.header_size_bytes d) small fine in
              let step =
                on_verified-Advances st memory address size off m d small least most e
                  (at bytes refl) in
              simp (fine) (
                subst
                  (λ z. Advances size off (
                    on_verified n st memory address size off (view_of memory address z)
                      (n.verify_header d (view_of memory address z))))
                  (sym e) step)
        ]

  iterate-Advances :
      (st : State n) (memory : ℕ → ℕ) (start len off : ℕ)
      → len < 2 ^ 63
      → off < len
      → Advances (len - off) off (iterate n st memory start len off)
  unfolding iterate to_int64 view_of
  iterate-Advances st memory start len off small more =
      let small_size : ltb (len - off) (2 ^ 63) ≡ true = ground arith in
      rw small_size (
        on_peeked-Advances st memory (start + off) (len - off) off _ _ (omega arith)
          (peek_size n size_of reads memory (start + off) (len - off) st.decoder))

  -- The loop returns if the fuel is no less than what is left of the frame.
  push_loop_total :
      (fuel : ℕ) (st : State n) (memory : ℕ → ℕ) (start len off : ℕ)
      → len < 2 ^ 63
      → len ≤ off + fuel
      → (st' : State n) × (b : Bool) × (push_loop n fuel st memory start len off ≡ some (st', b))
  unfolding push_loop
  push_loop_total zero st memory start len off small enough =
      let over : ltb off len ≡ false = ground arith in (st, true, rw over refl)
  push_loop_total (suc fuel) st memory start len off small enough =
      elim (Bool-cases (ltb off len)) [
        | inr over ↦ (st, true, rw over refl)
        | inl more ↦ rw more (
            go (λ off' s further. push_loop_total fuel s memory start len off' small (omega arith))
              (iterate n st memory start len off)
              (iterate-Advances st memory start len off small (ground arith)))
      ]
    where
      go :
          ((off' : ℕ) (s : State n)
            → off < off'
            → (st' : State n) × (b : Bool) × (push_loop n fuel s memory start len off'
                ≡ some (st', b)))
          → (it : Iteration (State n)) → Advances (len - off) off it
          → (st' : State n) × (b : Bool) × (elim it as (λ _. Option (State n × Bool)) [
            | return b st' ↦ some (st', b)
            | continue off' st' ↦ push_loop n fuel st' memory start len off'
          ]
              ≡ some (st', b))
      go later (return b s) advances = (s, b, refl)
      go later (continue off' s) (further, within) = later off' s further

  -- `PushFrame` of a frame shorter than 2 ^ 63 bytes returns, whatever the bytes are, if nanoarrow reads
  -- the size of a header from the first 8 bytes of the message and the body's length is an `int64_t`.
  pub push_frame_total :
      (st : State n) (memory : ℕ → ℕ) (start len : ℕ)
      → len < 2 ^ 63
      → (st' : State n) × (b : Bool) × (push_frame n st memory start len ≡ some (st', b))
  unfolding push_frame
  push_frame_total st memory start len small = elim (Bool-cases st.failed) [
    | inl failed ↦ (st, false, simp (failed) refl)
    | inr fresh ↦
        let (st', b, e) = push_loop_total len st memory start len 0 small (omega arith) in
        (st', b, simp (fresh) e)
  ]
