-- ===== src/Frames.antt =====
-- provider/arrow_frame_decoder.cpp: frames of Arrow IPC messages, decoded as they are pushed.
pub mod Layout
pub mod Messages
pub mod Push
pub mod Steps
pub mod Total
pub mod Memory
pub mod Stable
mod Tests
use duckdb_virtual_catalog.Prelude.{
  ℕ, zero, suc, ◌+◌, ◌-◌, ◌%◌, ◌^◌, ℤ, pos, negsuc, String, Bool, true, false, not, ◌||◌, List, [],
  ◌∷◌, ◌++◌, Option, none, some, ltb, leb, if◌then◌else◌, to_string, ◌<>◌,
}
use duckdb_virtual_catalog.Frames.Layout.{ArrowSchema, same_layout}

pub data MessageType : Type 0 where
  schema_message dictionary_batch record_batch other_message : MessageType

-- What a call of nanoarrow returns: an error's text in `ArrowError`, or what it gives
pub data Outcome {ℓ} (A : Type ℓ) : Type ℓ where
  refused : String → Outcome A
  done_with : A → Outcome A

-- `ArrowIpcDecoderPeekHeader`: ENODATA, another error, or the size of the length prefix
pub data Peeked : Type 0 where
  no_data : Peeked
  peek_refused : String → Peeked
  prefix : ℕ → Peeked

-- nanoarrow, as the code calls it: each call reads the bytes it is given and nothing else.
pub record Nanoarrow : Type 1 where
  -- `ArrowIpcDecoder`, and the fields that the code reads of it
  pub Decoder : Type 0
  pub header_size_bytes : Decoder → ℤ
  pub body_size_bytes : Decoder → ℤ
  pub message_type : Decoder → MessageType
  pub Encodings : Type 0
  pub Dictionaries : Type 0
  pub Array : Type 0
  -- The decoder as the state holds it before it is initialised
  pub zeroed : Decoder
  -- `none`: an error, here and below
  pub decoder_init : Decoder → Option Decoder
  pub peek_header : Decoder → List ℕ → Peeked × Decoder
  pub verify_header : Decoder → List ℕ → Outcome Decoder
  pub decode_header : Decoder → List ℕ → Outcome Decoder
  pub decode_schema : Decoder → Outcome ArrowSchema
  pub append_schema : ArrowSchema → Option Encodings
  pub set_endianness : Decoder → Outcome Decoder
  pub set_schema_with_dictionaries : Decoder → ArrowSchema → Encodings → Outcome Decoder
  pub dictionaries_init : Encodings → Outcome Dictionaries
  -- Dictionaries that were not initialised are `none`.
  pub decode_dictionary : Decoder → List ℕ → Option Dictionaries → Outcome Dictionaries
  pub decode_array : Decoder → List ℕ → Option Dictionaries → Outcome Array

module _ (n : Nanoarrow) where
  -- `ArrowFrameDecoder::State`; a `_set` or `_init` flag and what it guards are an Option. (Only the
  -- destructor reads `decoder_init`.)
  pub record State : Type 0 where
    pub decoder : n.Decoder
    pub schema : Option ArrowSchema
    pub encodings : Option n.Encodings
    pub dictionaries : Option n.Dictionaries
    pub done : Bool
    pub failed : Bool
    pub error_message : String
    -- oldest first
    pub batches : List n.Array
