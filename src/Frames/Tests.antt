-- ===== src/Frames/Tests.antt =====
-- Runs of the frame decoder on a small message format, and its theorems on that format.
use duckdb_virtual_catalog.Prelude.{
  ℕ, zero, suc, ◌-◌, ◌+◌, ◌*◌, ◌^◌, ◌≤◌, ℤ, take, length, pos, ◌≡◌, refl, sym, ap, Bool, true,
  false, List, [], ◌∷◌, none, some, arith, if◌then◌else◌, ◌%◌, ltb, get_or, to_string,
}
use duckdb_virtual_catalog.Frames.{
  Nanoarrow, State, Outcome, refused, done_with, Peeked, no_data, prefix, MessageType,
  schema_message, record_batch, other_message,
}
use duckdb_virtual_catalog.Frames.Layout.{
  ArrowSchema, schema, nil, no_dictionary, same_layout, layout, same_layout_lem,
}
use duckdb_virtual_catalog.Frames.Messages.{on_message}
use duckdb_virtual_catalog.Frames.Push.{
  new_decoder, push_frame, int_leb, to_int64, to_size, is_negative, view_of, read_bytes,
}
use duckdb_virtual_catalog.Frames.Total.{IsInt64, ReadsHeaderSize, push_frame_total}
use duckdb_virtual_catalog.Frames.Memory.{AgreeOn, push_frame_reads_frame}
use duckdb_virtual_catalog.Frames.Stable.{Keeps, push_frame-Keeps}

-- A message of the format: 4 bytes, the length of the rest of the header in 4 bytes, and the header,
-- with a byte of the type and one of the length of the body, which follows. A header of length 0
-- ends the stream.
pub record Header : Type 0 where
  pub size : ℕ
  pub kind : ℕ
  pub body : ℕ

abbrev kind_of : ℕ → MessageType
kind_of zero = schema_message
kind_of (suc zero) = record_batch
kind_of k = other_message

abbrev length_of : List ℕ → ℕ
length_of (a ∷ b ∷ g ∷ h ∷ i ∷ j ∷ k ∷ l ∷ bytes) = i + 256 * j + 256 ^ 2 * k + 256 ^ 3 * l
length_of bytes = 0

-- The size of a header from the first bytes of its message
abbrev header_size : List ℕ → ℤ
header_size bytes = pos (8 + length_of bytes)

abbrev peek_length : Header → List ℕ → ℕ → Peeked × Header
peek_length d bytes zero = (no_data, d)
peek_length d bytes (suc m) = (prefix 8, record d { size = 8 + length_of (take 8 bytes) })

abbrev peek : Header → List ℕ → Peeked × Header
peek d bytes = peek_length d bytes (length_of bytes)

abbrev decode : Header → List ℕ → Outcome Header
decode d (a ∷ b ∷ g ∷ h ∷ i ∷ j ∷ k ∷ l ∷ kind ∷ body ∷ rest) =
    done_with (record {
      size = 8 + length_of (a ∷ b ∷ g ∷ h ∷ i ∷ j ∷ k ∷ l ∷ []);
      kind = kind;
      body = body;
    })
decode d bytes = refused "short header"

abbrev empty_schema : ArrowSchema
empty_schema = schema "" none 0 "+s" nil no_dictionary

abbrev named_schema : ArrowSchema
named_schema = schema "orders" (some (1 ∷ 0 ∷ [])) 2 "+s" nil no_dictionary

pos_injective : {a b : ℕ} → pos a ≡ pos b → a ≡ b
pos_injective e = cc

done_with_injective : {a b : Header} → done_with a ≡ done_with b → a ≡ b
done_with_injective e = cc

abbrev format : Nanoarrow
format = record {
  Decoder = Header;
  header_size_bytes = λ d. pos d.size;
  body_size_bytes = λ d. pos (d.body % 256);
  message_type = λ d. kind_of d.kind;
  Encodings = Unit;
  Dictionaries = Unit;
  Array = List ℕ;
  zeroed = record { size = 0; kind = 0; body = 0 };
  decoder_init = λ d. some d;
  peek_header = peek;
  verify_header = λ d bytes. done_with d;
  decode_header = decode;
  decode_schema = λ d. done_with empty_schema;
  append_schema = λ s. some tt;
  set_endianness = λ d. done_with d;
  set_schema_with_dictionaries = λ d s enc. done_with d;
  dictionaries_init = λ enc. done_with tt;
  decode_dictionary = λ d bytes dicts. done_with tt;
  decode_array = λ d bytes dicts. done_with bytes;
}

format-IsInt64 : IsInt64 format
format-IsInt64 d m e = let same : d.body % 256 ≡ m = pos_injective e in omega arith

peeked_size :
    (d d' : Header) (bytes : List ℕ) (m size : ℕ)
    → peek_length d bytes m ≡ (prefix size, d')
    → pos d'.size ≡ header_size (take 8 bytes)
peeked_size d d' bytes zero size e = cc
peeked_size d d' bytes (suc m) size e = ap (λ q. pos q.1.size) (sym e)

decoded_size_of :
    (d d' : Header) (bytes : List ℕ)
    → decode d bytes ≡ done_with d'
    → (8 ≤ length bytes) × (pos d'.size ≡ header_size (take 8 bytes))
decoded_size_of d d' [] e = cc
decoded_size_of d d' (a ∷ []) e = cc
decoded_size_of d d' (a ∷ b ∷ []) e = cc
decoded_size_of d d' (a ∷ b ∷ g ∷ []) e = cc
decoded_size_of d d' (a ∷ b ∷ g ∷ h ∷ []) e = cc
decoded_size_of d d' (a ∷ b ∷ g ∷ h ∷ i ∷ []) e = cc
decoded_size_of d d' (a ∷ b ∷ g ∷ h ∷ i ∷ j ∷ []) e = cc
decoded_size_of d d' (a ∷ b ∷ g ∷ h ∷ i ∷ j ∷ k ∷ []) e = cc
decoded_size_of d d' (a ∷ b ∷ g ∷ h ∷ i ∷ j ∷ k ∷ l ∷ []) e = cc
decoded_size_of d d' (a ∷ b ∷ g ∷ h ∷ i ∷ j ∷ k ∷ l ∷ kind ∷ []) e = cc
decoded_size_of d d' (a ∷ b ∷ g ∷ h ∷ i ∷ j ∷ k ∷ l ∷ kind ∷ body ∷ rest) e =
    (omega arith, ap (λ o. pos o.size) (sym (done_with_injective e)))

format-ReadsHeaderSize : ReadsHeaderSize format header_size
format-ReadsHeaderSize =
    (λ d d' bytes size e. peeked_size d d' bytes (length_of bytes) size e, decoded_size_of)

-- A schema, a batch of the bytes 7 and 8, and the end of the stream, at the address 100
abbrev frame : List ℕ
frame =
    255 ∷ 255 ∷ 255 ∷ 255 ∷ 2 ∷ 0 ∷ 0 ∷ 0 ∷ 0 ∷ 0 ∷ 255 ∷ 255 ∷ 255 ∷ 255 ∷ 2 ∷ 0 ∷ 0 ∷ 0 ∷ 1 ∷ 2
    ∷ 7 ∷ 8 ∷ 255 ∷ 255 ∷ 255 ∷ 255 ∷ 0 ∷ 0 ∷ 0 ∷ 0 ∷ []

abbrev memory : ℕ → ℕ
memory i = get_or frame (i - 100) 99

-- The same memory up to the frame's end
abbrev other_memory : ℕ → ℕ
other_memory i = if ltb i 130 then memory i else 55

abbrev after : State format
after = record {
  decoder = record { size = 10; kind = 1; body = 2 };
  schema = some empty_schema;
  encodings = some tt;
  dictionaries = some tt;
  done = true;
  failed = false;
  error_message = "";
  batches = (7 ∷ 8 ∷ []) ∷ [];
}

run : Unit {0}
unfolding push_frame new_decoder on_message int_leb to_int64 to_size is_negative view_of read_bytes
    same_layout
run = tt

frame_tests :
    (push_frame format (new_decoder format) memory 100 30 ≡ some (after, true))
    × ((push_frame format (new_decoder format) memory 100 21)
        ≡ some (
          record after {
            decoder = record { size = 10; kind = 0; body = 0 };
            done = false;
            failed = true;
            batches = [];
            error_message =
                "truncated Arrow IPC message: the header declares 12 bytes but only 11 remain";
          },
          false,
        ))
unfolding run to_string
frame_tests = (refl, refl)

push_frame_total_example :
    (st' : State format) × (b : Bool) × (push_frame format (new_decoder format) memory 100 30
      ≡ some (st', b))
push_frame_total_example =
    push_frame_total format format-IsInt64 header_size format-ReadsHeaderSize (new_decoder format)
      memory 100 30 (omega arith)

agree : AgreeOn memory other_memory 100 30
agree i least more = let below : ltb i 130 ≡ true = ground arith in rw below refl

push_frame_reads_frame_example :
    push_frame format (new_decoder format) memory 100 30
    ≡ push_frame format (new_decoder format) other_memory 100 30
push_frame_reads_frame_example =
    push_frame_reads_frame format format-IsInt64 header_size format-ReadsHeaderSize memory
      other_memory (new_decoder format) 100 30 (omega arith) agree

push_frame-Keeps_example :
    (st' : State format) × (b : Bool) × (push_frame format (new_decoder format) memory 100 30
      ≡ some (st', b))
    × Keeps format (new_decoder format) b st'
unfolding run
push_frame-Keeps_example =
    push_frame-Keeps format header_size (new_decoder format) memory 100 30 format-IsInt64
      format-ReadsHeaderSize (omega arith) refl (λ s h. cc)

same_layout_lem_example :
    (same_layout empty_schema named_schema ≡ true → layout empty_schema ≡ layout named_schema)
    × (layout empty_schema ≡ layout named_schema → same_layout empty_schema named_schema ≡ true)
same_layout_lem_example = same_layout_lem empty_schema named_schema
