-- ===== src/Protocol/Decoders.antt =====
-- src/Cloud/SequentialProtocol.cpp: the objects of a cloud table read from their bytes. Each decoder
-- encodes what it has read, for the tests of the encoder.
use dbplayground.Base.{ℕ, List, ◌+◌, leb}
use dbplayground.Base.Result
use dbplayground.Base.Result.{Result, ok}
use dbplayground.Protocol.{
  SequentialState, Field, DataFile, SequentialManifest, SequentialBatchEntry, state_magic,
  manifest_magic, index_magic, digest_length, encode_state, encode_manifest, encode_index,
}
use dbplayground.Wire.{
  Reader, ◌>>=◌, ◌>>◌, pure, check, get_header, get_string, get_strings, get_word, get_raw,
  get_times, get_list, at_end,
}

unfoldable pub get_state : Reader SequentialState
get_state = do
  get_header state_magic
  table_id ← get_string
  state_version ← get_word 8
  schema_version ← get_word 8
  writer_epoch ← get_word 8
  indexed_seq ← get_word 8
  published_seq ← get_word 8
  manifest_key ← get_string
  pure (record {
    table_id = table_id;
    state_version = state_version;
    schema_version = schema_version;
    writer_epoch = writer_epoch;
    indexed_seq = indexed_seq;
    published_seq = published_seq;
    manifest_key = manifest_key;
  })

-- What the reader delivers, if nothing is left and the encoder takes it.
unfoldable pub decode_by {ℓ} : {A : Type ℓ} → Reader A → (A → Result (List ℕ)) → List ℕ → Result A
decode_by get encode bytes =
    Result.◌>>=◌ (Result.◌>>=◌ (get bytes) at_end) λ a. Result.◌>>=◌ (encode a) λ _. ok a

unfoldable pub decode_state : List ℕ → Result SequentialState
unfolding get_state decode_by
decode_state bytes = decode_by get_state encode_state bytes

unfoldable pub get_field : Reader Field
get_field = do name ← get_string; type ← get_word 1; pure (record { name = name; type = type })

unfoldable pub get_file : Reader DataFile
get_file = do
  path ← get_string
  first_seq ← get_word 8
  last_seq ← get_word 8
  row_count ← get_word 8
  pure (record { path = path; first_seq = first_seq; last_seq = last_seq; row_count = row_count })

unfoldable pub get_schema : Reader (List Field)
unfolding get_field
get_schema = do n ← get_word 4; check (leb n 1024); get_times n get_field

unfoldable pub get_manifest : Reader SequentialManifest
unfolding get_schema get_file
get_manifest = do
  get_header manifest_magic
  table_id ← get_string
  covered_through_seq ← get_word 8
  schema_version ← get_word 8
  schema ← get_schema
  data_files ← get_list (4 + 8 + 8 + 8) get_file
  batch_index_files ← get_strings
  pure (record {
    table_id = table_id;
    covered_through_seq = covered_through_seq;
    schema_version = schema_version;
    schema = schema;
    data_files = data_files;
    batch_index_files = batch_index_files;
  })

unfoldable pub decode_manifest : List ℕ → Result SequentialManifest
unfolding get_manifest decode_by
decode_manifest bytes = decode_by get_manifest encode_manifest bytes

unfoldable pub get_entry : Reader SequentialBatchEntry
get_entry = do
  batch_id ← get_string
  seq ← get_word 8
  operation_id ← get_string
  payload_digest ← get_raw digest_length
  pure (record {
    batch_id = batch_id;
    seq = seq;
    operation_id = operation_id;
    payload_digest = payload_digest;
  })

unfoldable pub get_index : Reader (List SequentialBatchEntry)
unfolding get_entry
get_index = do get_header index_magic; get_list (4 + 8 + 4 + digest_length) get_entry

unfoldable pub decode_index : List ℕ → Result (List SequentialBatchEntry)
unfolding get_index decode_by
decode_index bytes = decode_by get_index encode_index bytes
