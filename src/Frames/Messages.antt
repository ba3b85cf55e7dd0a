-- ===== src/Frames/Messages.antt =====
-- provider/arrow_frame_decoder.cpp: what `PushFrame` does with a message of each type.
use duckdb_virtual_catalog.Prelude.{
  String, Bool, true, false, not, List, [], ◌∷◌, ◌++◌, ℕ, Option, none, some, if◌then◌else◌,
}
use duckdb_virtual_catalog.Frames.{
  Nanoarrow, State, Outcome, refused, done_with, MessageType, schema_message, dictionary_batch,
  record_batch, other_message,
}
use duckdb_virtual_catalog.Frames.Layout.{ArrowSchema, same_layout}

module _ (n : Nanoarrow) where
  unfoldable pub fail : State n → String → State n × Bool
  fail st message = (record st { failed = true; error_message = message }, false)

  -- The schema message behind the check of the layout
  unfoldable pub bind_dictionaries :
      State n → n.Decoder → n.Encodings → Outcome n.Dictionaries → State n × Bool
  unfolding fail
  bind_dictionaries st d enc (refused message) = fail st message
  bind_dictionaries st d enc (done_with dicts) = (record st { dictionaries = some dicts }, true)

  unfoldable pub bind_schema :
      State n → ArrowSchema → n.Encodings → Outcome n.Decoder → State n × Bool
  unfolding fail bind_dictionaries
  bind_schema st incoming enc (refused message) = fail st message
  bind_schema st incoming enc (done_with d) =
      bind_dictionaries (record st { decoder = d }) d enc (n.dictionaries_init enc)

  unfoldable pub bind_endianness :
      State n → ArrowSchema → n.Encodings → Outcome n.Decoder → State n × Bool
  unfolding fail bind_schema
  bind_endianness st incoming enc (refused message) = fail st message
  bind_endianness st incoming enc (done_with d) =
      bind_schema (record st { decoder = d }) incoming enc
        (n.set_schema_with_dictionaries d incoming enc)

  unfoldable pub bind_encodings :
      State n → n.Decoder → ArrowSchema → Option n.Encodings → State n × Bool
  unfolding fail bind_endianness
  bind_encodings st d incoming none = fail st "could not collect the schema's dictionary encodings"
  bind_encodings st d incoming (some enc) =
      bind_endianness (record st { encodings = some enc }) incoming enc (n.set_endianness d)

  unfoldable pub set_schema : State n → n.Decoder → ArrowSchema → State n × Bool
  unfolding bind_encodings
  set_schema st d incoming =
      bind_encodings (record st { schema = some incoming; dictionaries = none; encodings = none }) d
        incoming (n.append_schema incoming)

  unfoldable pub check_layout :
      State n → n.Decoder → Option ArrowSchema → ArrowSchema → State n × Bool
  unfolding fail set_schema
  check_layout st d none incoming = set_schema st d incoming
  check_layout st d (some old) incoming =
      if not (same_layout old incoming)
      then fail (record st { schema = none }) "Arrow IPC stream changed its schema mid-stream"
      else set_schema st d incoming

  unfoldable pub on_schema : State n → n.Decoder → Outcome ArrowSchema → State n × Bool
  unfolding fail check_layout
  on_schema st d (refused message) = fail st message
  on_schema st d (done_with incoming) = check_layout st d st.schema incoming

  unfoldable pub on_dictionary_batch :
      State n → Option ArrowSchema → Outcome n.Dictionaries → State n × Bool
  unfolding fail
  on_dictionary_batch st none outcome = fail st "dictionary batch arrived before schema"
  on_dictionary_batch st (some s) (refused message) = fail st message
  on_dictionary_batch st (some s) (done_with dicts) =
      (record st { dictionaries = some dicts }, true)

  unfoldable pub on_record_batch : State n → Option ArrowSchema → Outcome n.Array → State n × Bool
  unfolding fail
  on_record_batch st none outcome = fail st "record batch arrived before schema"
  on_record_batch st (some s) (refused message) = fail st message
  on_record_batch st (some s) (done_with array) =
      (record st { batches = st.batches ++ (array ∷ []) }, true)

  -- A whole message, by its type
  unfoldable pub on_message : State n → n.Decoder → List ℕ → MessageType → State n × Bool
  unfolding on_schema on_dictionary_batch on_record_batch
  on_message st d body schema_message = on_schema st d (n.decode_schema d)
  on_message st d body dictionary_batch =
      on_dictionary_batch st st.schema (n.decode_dictionary d body st.dictionaries)
  on_message st d body record_batch =
      on_record_batch st st.schema (n.decode_array d body st.dictionaries)
  on_message st d body other_message = (st, true)
