-- ===== src/Tests/Objects.antt =====
-- Small objects of a cloud table, and their bytes.
use mathlib.Core.Logic.{◌↔◌}
use dbplayground.Base.{
  ℕ, ◌≡◌, refl, List, [], ◌∷◌, ◌++◌, replicate, Bool, true, All, ltb, word_bytes, arith,
}
use dbplayground.Base.Result.{ok}
use dbplayground.Codec.{IsByte}
use dbplayground.Protocol.{
  SequentialState, SequentialManifest, SequentialBatchEntry, encode_state, encode_manifest,
  encode_index, manifest_prefix, dedup_prefix, all_of,
}
use dbplayground.Protocol.Decoders.{decode_state, decode_manifest, decode_index}
use dbplayground.Protocol.Canonical.{decode_state_iff}
use dbplayground.Protocol.Manifests.{decode_manifest_iff, decode_index_iff}
use dbplayground.Wire
use dbplayground.Wire.{get_header, get_string, get_times, get_list, get_strings, at_end}

are_bytes : List ℕ → Bool
are_bytes bytes = all_of (λ b. ltb b 256) bytes

are_bytes-IsByte : (bytes : List ℕ) → are_bytes bytes ≡ true → All IsByte bytes
unfolding are_bytes all_of
are_bytes-IsByte [] h = tt
are_bytes-IsByte (b ∷ bytes) h = (ground arith, are_bytes-IsByte bytes (ground arith))

abbrev state : SequentialState
state = record {
  table_id = b't' ∷ [];
  state_version = 3;
  schema_version = 1;
  writer_epoch = 1;
  indexed_seq = 2;
  published_seq = 2;
  manifest_key = manifest_prefix ++ (b'1' ∷ []);
}

abbrev state_bytes : List ℕ
state_bytes =
    68 ∷ 66 ∷ 83 ∷ 50 ∷ 2 ∷ 0 ∷ 0 ∷ 0 ∷ 1 ∷ 0 ∷ 0 ∷ 0 ∷ 116 ∷ 3 ∷ 0 ∷ 0 ∷ 0 ∷ 0 ∷ 0 ∷ 0 ∷ 0 ∷ 1 ∷ 0
    ∷ 0 ∷ 0 ∷ 0 ∷ 0 ∷ 0 ∷ 0 ∷ 1 ∷ 0 ∷ 0 ∷ 0 ∷ 0 ∷ 0 ∷ 0 ∷ 0 ∷ 2 ∷ 0 ∷ 0 ∷ 0 ∷ 0 ∷ 0 ∷ 0 ∷ 0 ∷ 2 ∷ 0
    ∷ 0 ∷ 0 ∷ 0 ∷ 0 ∷ 0 ∷ 0 ∷ 10 ∷ 0 ∷ 0 ∷ 0 ∷ 109 ∷ 97 ∷ 110 ∷ 105 ∷ 102 ∷ 101 ∷ 115 ∷ 116 ∷ 47
    ∷ 49 ∷ []

state_bytes-IsByte : All IsByte state_bytes
unfolding are_bytes all_of
state_bytes-IsByte = are_bytes-IsByte state_bytes refl

decode_state_iff_example :
    (decode_state state_bytes ≡ ok state) ↔ (encode_state state ≡ ok state_bytes)
decode_state_iff_example =
    decode_state_iff state state_bytes
      (omega arith, omega arith, omega arith, omega arith, omega arith) state_bytes-IsByte

abbrev manifest : SequentialManifest
manifest = record {
  table_id = b't' ∷ [];
  covered_through_seq = 5;
  schema_version = 1;
  schema = record { name = b'a' ∷ []; type = 1 } ∷ [];
  data_files = record { path = b'f' ∷ []; first_seq = 1; last_seq = 5; row_count = 9 } ∷ [];
  batch_index_files = (dedup_prefix ++ (b'1' ∷ [])) ∷ [];
}

abbrev manifest_bytes : List ℕ
manifest_bytes =
    68 ∷ 66 ∷ 77 ∷ 50 ∷ 2 ∷ 0 ∷ 0 ∷ 0 ∷ 1 ∷ 0 ∷ 0 ∷ 0 ∷ 116 ∷ 5 ∷ 0 ∷ 0 ∷ 0 ∷ 0 ∷ 0 ∷ 0 ∷ 0 ∷ 1 ∷ 0
    ∷ 0 ∷ 0 ∷ 0 ∷ 0 ∷ 0 ∷ 0 ∷ 1 ∷ 0 ∷ 0 ∷ 0 ∷ 1 ∷ 0 ∷ 0 ∷ 0 ∷ 97 ∷ 1 ∷ 1 ∷ 0 ∷ 0 ∷ 0 ∷ 1 ∷ 0 ∷ 0 ∷ 0
    ∷ 102 ∷ 1 ∷ 0 ∷ 0 ∷ 0 ∷ 0 ∷ 0 ∷ 0 ∷ 0 ∷ 5 ∷ 0 ∷ 0 ∷ 0 ∷ 0 ∷ 0 ∷ 0 ∷ 0 ∷ 9 ∷ 0 ∷ 0 ∷ 0 ∷ 0 ∷ 0
    ∷ 0 ∷ 0 ∷ 1 ∷ 0 ∷ 0 ∷ 0 ∷ 7 ∷ 0 ∷ 0 ∷ 0 ∷ 100 ∷ 101 ∷ 100 ∷ 117 ∷ 112 ∷ 47 ∷ 49 ∷ []

manifest_bytes-IsByte : All IsByte manifest_bytes
unfolding are_bytes all_of
manifest_bytes-IsByte = are_bytes-IsByte manifest_bytes refl

decode_manifest_iff_example :
    (decode_manifest manifest_bytes ≡ ok manifest) ↔ (encode_manifest manifest ≡ ok manifest_bytes)
decode_manifest_iff_example =
    decode_manifest_iff manifest manifest_bytes
      (
        omega arith,
        omega arith,
        omega arith,
        (omega arith, tt),
        ((omega arith, omega arith, omega arith), tt),
      )
      manifest_bytes-IsByte

abbrev index : List SequentialBatchEntry
index =
    record {
      batch_id = b'b' ∷ [];
      seq = 7;
      operation_id = b'o' ∷ [];
      payload_digest = replicate 32 0;
    }
    ∷ []

abbrev index_bytes : List ℕ
index_bytes =
    68
    ∷ 66
    ∷ 73
    ∷ 50
    ∷ 2
    ∷ 0
    ∷ 0
    ∷ 0
    ∷ 1
    ∷ 0
    ∷ 0
    ∷ 0
    ∷ 1
    ∷ 0
    ∷ 0
    ∷ 0
    ∷ 98
    ∷ 7
    ∷ 0
    ∷ 0
    ∷ 0
    ∷ 0
    ∷ 0
    ∷ 0
    ∷ 0
    ∷ 1
    ∷ 0
    ∷ 0
    ∷ 0
    ∷ 111
    ∷ replicate 32 0

index_bytes-IsByte : All IsByte index_bytes
unfolding are_bytes all_of
index_bytes-IsByte = are_bytes-IsByte index_bytes refl

decode_index_iff_example :
    (decode_index index_bytes ≡ ok index) ↔ (encode_index index ≡ ok index_bytes)
decode_index_iff_example =
    decode_index_iff index index_bytes ((omega arith, refl), tt) index_bytes-IsByte

-- The bytes are those of the objects.
state-encoded : encode_state state ≡ ok state_bytes
unfolding encode_state word_bytes
state-encoded = refl

manifest-decoded : decode_manifest manifest_bytes ≡ ok manifest
unfolding decode_manifest Wire.◌>>=◌ get_header get_string get_times get_list get_strings at_end
    encode_manifest
manifest-decoded = refl

index-decoded : decode_index index_bytes ≡ ok index
unfolding decode_index Wire.◌>>=◌ get_header get_string get_list at_end encode_index
index-decoded = refl
