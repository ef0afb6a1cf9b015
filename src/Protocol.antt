-- ===== src/Protocol.antt =====
-- src/Cloud/SequentialProtocol.{h,cpp}: the objects of a cloud table, and the bytes that they are
-- written as. A text is a list of bytes; the type of a field is its number in the enum, which a cast
-- makes of any byte. Every exception of these functions is `std::invalid_argument`.
pub mod Decoders
pub mod Canonical
pub mod Manifests
use dbplayground.Base.{
  ℕ, ◌+◌, ◌^◌, List, [], ◌∷◌, ◌++◌, Bool, true, false, not, ◌&&◌, length, take, leb, ◌==◌,
  word_bytes,
}
use dbplayground.Base.Result.{Result, ok, ◌>>=◌}
use dbplayground.Wire.{guard, put_string, put_all, put_list, put_strings, put_header, bytes_eq}

pub record SequentialState : Type 0 where
  pub table_id : List ℕ
  pub state_version : ℕ
  pub schema_version : ℕ
  pub writer_epoch : ℕ
  pub indexed_seq : ℕ
  pub published_seq : ℕ
  pub manifest_key : List ℕ

pub record Field : Type 0 where
  pub name : List ℕ
  pub type : ℕ

pub record DataFile : Type 0 where
  pub path : List ℕ
  pub first_seq : ℕ
  pub last_seq : ℕ
  pub row_count : ℕ

pub record SequentialManifest : Type 0 where
  pub table_id : List ℕ
  pub covered_through_seq : ℕ
  pub schema_version : ℕ
  pub schema : List Field
  pub data_files : List DataFile
  pub batch_index_files : List (List ℕ)

pub record SequentialBatchEntry : Type 0 where
  pub batch_id : List ℕ
  pub seq : ℕ
  pub operation_id : List ℕ
  pub payload_digest : List ℕ

-- "DBS2", "DBM2" and "DBI2".
abbrev pub state_magic : List ℕ
state_magic = b'D' ∷ b'B' ∷ b'S' ∷ b'2' ∷ []

abbrev pub manifest_magic : List ℕ
manifest_magic = b'D' ∷ b'B' ∷ b'M' ∷ b'2' ∷ []

abbrev pub index_magic : List ℕ
index_magic = b'D' ∷ b'B' ∷ b'I' ∷ b'2' ∷ []

-- "manifest/" and "dedup/".
abbrev pub manifest_prefix : List ℕ
manifest_prefix = b'm' ∷ b'a' ∷ b'n' ∷ b'i' ∷ b'f' ∷ b'e' ∷ b's' ∷ b't' ∷ b'/' ∷ []

abbrev pub dedup_prefix : List ℕ
dedup_prefix = b'd' ∷ b'e' ∷ b'd' ∷ b'u' ∷ b'p' ∷ b'/' ∷ []

-- `SHA256_DIGEST_LENGTH`.
abbrev pub digest_length : ℕ
digest_length = 32

abbrev pub is_empty {ℓ} : {A : Type ℓ} → List A → Bool
is_empty [] = true
is_empty (x ∷ xs) = false

-- `s.compare(0, n, prefix) == 0`, for the length `n` of the prefix.
unfoldable pub has_prefix : List ℕ → List ℕ → Bool
unfolding bytes_eq
has_prefix prefix s = bytes_eq (take (length prefix) s) prefix

unfoldable pub all_of {ℓ} : {A : Type ℓ} → (A → Bool) → List A → Bool
all_of test [] = true
all_of test (x ∷ xs) = test x && all_of test xs

unfoldable pub valid_state : SequentialState → Bool
unfolding has_prefix
valid_state s =
    not (is_empty s.table_id)
    && has_prefix manifest_prefix s.manifest_key
    && leb s.indexed_seq s.published_seq
    && s.schema_version == 1

unfoldable pub write_state : SequentialState → Result (List ℕ)
unfolding put_string put_header
write_state s = do
  id ← put_string s.table_id
  key ← put_string s.manifest_key
  ok (
      put_header state_magic
      ++ (id
          ++ (word_bytes 8 s.state_version
              ++ (word_bytes 8 s.schema_version
                  ++ (word_bytes 8 s.writer_epoch
                      ++ (word_bytes 8 s.indexed_seq ++ (word_bytes 8 s.published_seq ++ key)))))))

unfoldable pub encode_state : SequentialState → Result (List ℕ)
unfolding valid_state write_state
encode_state s = guard (valid_state s) >>= λ _. write_state s

unfoldable pub valid_field : Field → Bool
valid_field f = not (is_empty f.name) && not (f.type == 0) && leb f.type 7

unfoldable pub write_field : Field → Result (List ℕ)
unfolding put_string
write_field f = do name ← put_string f.name; ok (name ++ word_bytes 1 f.type)

unfoldable pub valid_file : ℕ → DataFile → Bool
valid_file covered f =
    not (is_empty f.path)
    && not (f.first_seq == 0)
    && leb f.first_seq f.last_seq
    && leb f.last_seq covered
    && not (f.row_count == 0)

unfoldable pub write_file : DataFile → Result (List ℕ)
unfolding put_string
write_file f = do
  path ← put_string f.path
  ok (path ++ (word_bytes 8 f.first_seq ++ (word_bytes 8 f.last_seq ++ word_bytes 8 f.row_count)))

unfoldable pub valid_manifest : SequentialManifest → Bool
unfolding valid_field valid_file has_prefix all_of
valid_manifest m =
    not (is_empty m.table_id)
    && not (is_empty m.schema)
    && all_of valid_field m.schema
    && all_of (valid_file m.covered_through_seq) m.data_files
    && all_of (has_prefix dedup_prefix) m.batch_index_files

-- The number of fields is cast to 32 bits.
unfoldable pub write_manifest : SequentialManifest → Result (List ℕ)
unfolding put_string put_all put_list put_strings put_header write_field write_file
write_manifest m = do
  id ← put_string m.table_id
  fields ← put_all write_field m.schema
  files ← put_list write_file m.data_files
  keys ← put_strings m.batch_index_files
  ok (
      put_header manifest_magic
      ++ (id
          ++ (word_bytes 8 m.covered_through_seq
              ++ (word_bytes 8 m.schema_version
                  ++ (word_bytes 4 (length m.schema) ++ (fields ++ (files ++ keys)))))))

unfoldable pub encode_manifest : SequentialManifest → Result (List ℕ)
unfolding valid_manifest write_manifest
encode_manifest m = guard (valid_manifest m) >>= λ _. write_manifest m

unfoldable pub valid_entry : SequentialBatchEntry → Bool
valid_entry e =
    not (is_empty e.batch_id)
    && not (e.seq == 0)
    && not (is_empty e.operation_id)
    && length e.payload_digest == digest_length

unfoldable pub write_entry : SequentialBatchEntry → Result (List ℕ)
unfolding put_string
write_entry e = do
  id ← put_string e.batch_id
  operation ← put_string e.operation_id
  ok (id ++ (word_bytes 8 e.seq ++ (operation ++ e.payload_digest)))

unfoldable pub write_index : List SequentialBatchEntry → Result (List ℕ)
unfolding put_list put_header write_entry
write_index entries = do bytes ← put_list write_entry entries; ok (put_header index_magic ++ bytes)

unfoldable pub encode_index : List SequentialBatchEntry → Result (List ℕ)
unfolding all_of valid_entry write_index
encode_index entries = guard (all_of valid_entry entries) >>= λ _. write_index entries
