-- ===== src/Frames/Push.antt =====
-- provider/arrow_frame_decoder.cpp: the loop of `PushFrame` over the messages of a frame.
use duckdb_virtual_catalog.Prelude.{
  ℕ, zero, suc, ◌+◌, ◌-◌, ◌%◌, ◌^◌, ℤ, pos, negsuc, String, Bool, true, false, not, ◌||◌, List, [],
  ◌∷◌, Option, none, some, ltb, leb, if◌then◌else◌, to_string, ◌<>◌,
}
use duckdb_virtual_catalog.Frames.{
  Nanoarrow, State, Outcome, refused, done_with, Peeked, no_data, peek_refused, prefix,
}
use duckdb_virtual_catalog.Frames.Messages.{fail, on_message}

-- Signed comparison
unfoldable pub int_leb : ℤ → ℤ → Bool
int_leb (pos a) (pos b) = leb a b
int_leb (pos a) (negsuc b) = false
int_leb (negsuc a) (pos b) = true
int_leb (negsuc a) (negsuc b) = leb b a

-- `static_cast<int64_t>` of a `size_t`
unfoldable pub to_int64 : ℕ → ℤ
to_int64 m = if ltb m (2 ^ 63) then pos m else negsuc (2 ^ 64 - 1 - m)

-- `static_cast<size_t>` of a signed integer
unfoldable pub to_size : ℤ → ℕ
to_size (pos m) = m % 2 ^ 64
to_size (negsuc m) = 2 ^ 64 - 1 - m % 2 ^ 64

unfoldable pub is_negative : ℤ → Bool
is_negative (pos m) = false
is_negative (negsuc m) = true

-- The bytes of memory that a view of `size` bytes at an address covers; a negative size covers none.
unfoldable pub read_bytes : (ℕ → ℕ) → ℕ → ℕ → List ℕ
read_bytes memory address zero = []
read_bytes memory address (suc size) = memory address ∷ read_bytes memory (suc address) size

unfoldable pub view_of : (ℕ → ℕ) → ℕ → ℤ → List ℕ
unfolding read_bytes
view_of memory address (pos size) = read_bytes memory address size
view_of memory address (negsuc size) = []

-- What an iteration of the loop comes to: `PushFrame` returns, or the loop goes on at an offset.
pub data Iteration (S : Type 0) : Type 0 where
  return : Bool → S → Iteration S
  continue : ℕ → S → Iteration S

module _ (n : Nanoarrow) where
  unfoldable pub after_message : State n × Bool → ℕ → Iteration (State n)
  after_message (st, true) off = continue off st
  after_message (st, false) off = return false st

  unfoldable pub failed_with : State n → String → Iteration (State n)
  unfolding fail
  failed_with st message = return false (fail n st message).0

  -- A decoded header: the length of the body is checked before the body is read. The memory is read
  -- from `address`, where `size` bytes remain at the offset `off`.
  unfoldable pub on_header : State n → (ℕ → ℕ) → ℕ → ℕ → ℕ → n.Decoder → Iteration (State n)
  unfolding is_negative to_size view_of on_message after_message failed_with
  on_header st memory address size off d =
      let msg_total = (to_size (n.header_size_bytes d) + to_size (n.body_size_bytes d)) % 2 ^ 64 in
      let body = view_of memory (address + to_size (n.header_size_bytes d)) (n.body_size_bytes d) in
      if is_negative (n.body_size_bytes d)
      then failed_with st "Arrow IPC message declares a negative body length"
      else if ltb size msg_total
      then failed_with st (
          "truncated Arrow IPC message: the header declares "
          <> to_string msg_total
          <> " bytes but only "
          <> to_string size
          <> " remain")
      else after_message (on_message n (record st { decoder = d }) d body (n.message_type d))
          (off + msg_total)

  unfoldable pub on_decoded :
      State n → (ℕ → ℕ) → ℕ → ℕ → ℕ → Outcome n.Decoder → Iteration (State n)
  unfolding on_header failed_with
  on_decoded st memory address size off (refused message) = failed_with st message
  on_decoded st memory address size off (done_with d) = on_header st memory address size off d

  unfoldable pub on_verified :
      State n → (ℕ → ℕ) → ℕ → ℕ → ℕ → List ℕ → Outcome n.Decoder → Iteration (State n)
  unfolding on_decoded failed_with
  on_verified st memory address size off header (refused message) = failed_with st message
  on_verified st memory address size off header (done_with d) =
      on_decoded st memory address size off (n.decode_header d header)

  -- The size of the header is checked before its bytes are read.
  unfoldable pub on_peeked :
      State n → (ℕ → ℕ) → ℕ → ℕ → ℕ → Peeked → n.Decoder → Iteration (State n)
  unfolding int_leb to_int64 view_of on_verified failed_with
  on_peeked st memory address size off no_data d =
      return true (record st { decoder = d; done = true })
  on_peeked st memory address size off (peek_refused message) d = failed_with st message
  on_peeked st memory address size off (prefix bytes) d =
      if int_leb (n.header_size_bytes d) (pos bytes)
        || not (int_leb (n.header_size_bytes d) (to_int64 size))
      then failed_with st (
          "truncated Arrow IPC message: the header length prefix exceeds the "
          <> to_string size
          <> " bytes that remain")
      else on_verified st memory address size off (view_of memory address (n.header_size_bytes d))
          (n.verify_header d (view_of memory address (n.header_size_bytes d)))

  -- An iteration of the loop of `PushFrame`
  unfoldable pub iterate : State n → (ℕ → ℕ) → ℕ → ℕ → ℕ → Iteration (State n)
  unfolding to_int64 view_of on_peeked
  iterate st memory start len off =
      let view = view_of memory (start + off) (to_int64 (len - off)) in
      let peeked = n.peek_header st.decoder view in
      on_peeked st memory (start + off) (len - off) off peeked.0 peeked.1

  -- The loop, on fuel; `none`: the fuel runs out.
  unfoldable pub push_loop : ℕ → State n → (ℕ → ℕ) → ℕ → ℕ → ℕ → Option (State n × Bool)
  unfolding iterate
  push_loop zero st memory start len off = if ltb off len then none else some (st, true)
  push_loop (suc fuel) st memory start len off =
      if ltb off len
      then elim (iterate st memory start len off) [
        | return b st' ↦ some (st', b)
        | continue off' st' ↦ push_loop fuel st' memory start len off'
      ]
      else some (st, true)

  -- `PushFrame` of `len` bytes at the address `start`
  unfoldable pub push_frame : State n → (ℕ → ℕ) → ℕ → ℕ → Option (State n × Bool)
  unfolding push_loop
  push_frame st memory start len =
      if st.failed then some (st, false) else push_loop len st memory start len 0

  unfoldable pub try_pop_batch : State n → List n.Array → Option (n.Array × State n)
  try_pop_batch st [] = none
  try_pop_batch st (array ∷ rest) = some (array, record st { batches = rest })

  unfoldable pub initialised : Option n.Decoder → State n → State n
  unfolding fail
  initialised none st = (fail n st "ArrowIpcDecoderInit failed").0
  initialised (some d) st = record st { decoder = d }

  -- The constructor
  unfoldable pub new_decoder : State n
  unfolding initialised
  new_decoder = initialised (n.decoder_init n.zeroed) (record {
    decoder = n.zeroed;
    schema = none;
    encodings = none;
    dictionaries = none;
    done = false;
    failed = false;
    error_message = "";
    batches = [];
  })
