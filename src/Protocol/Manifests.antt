-- ===== src/Protocol/Manifests.antt =====
-- The decoders of manifests and of batch indexes accept what the encoders write, and nothing else.
use mathlib.Core.Logic.{◌↔◌}
use dbplayground.Base.{
  ℕ, ◌^◌, ◌≤◌, ◌<◌, ◌≡◌, refl, sym, ◌∙◌, ap, subst, List, ◌++◌, append_assoc, append-nil, All,
  length, length-append, length-word_bytes, leb, word_bytes, arith,
}
use dbplayground.Base.Result.{ok, >>=-eq-ok, ok-injective}
use dbplayground.Codec.{IsByte}
use dbplayground.Protocol.{
  Field, DataFile, SequentialManifest, SequentialBatchEntry, manifest_magic, index_magic,
  digest_length, write_field, write_file, valid_manifest, write_manifest, encode_manifest,
  valid_entry, write_entry, write_index, encode_index, all_of,
}
use dbplayground.Protocol.Decoders.{
  get_field, get_file, get_schema, get_manifest, decode_manifest, get_entry, get_index,
  decode_index,
}
use dbplayground.Protocol.Canonical.{decode_by_iff}
use dbplayground.Wire.{put_string, put_all, put_list, put_strings, put_header}
use dbplayground.Wire.Reads.{
  Reads, Reads-bind, Reads-map, Reads-check, Reads-word, Reads-raw, Reads-header, Reads-string,
  Reads-strings, Reads-list, Reads-times, ReadsEach,
}
use dbplayground.Wire.Accepts.{
  Accepts, Accepts-bind, Accepts-pure, Accepts-imp, Accepts-check, Accepts-word, Accepts-raw,
  Accepts-header, Accepts-string, Accepts-strings, Accepts-list, Accepts-times,
}

-- The numbers of an object are of the widths of their types.
abbrev pub FieldFits : Field → Type 0
FieldFits f = f.type < 256

abbrev pub FileFits : DataFile → Type 0
FileFits f = (f.first_seq < 2 ^ 64) × (f.last_seq < 2 ^ 64) × (f.row_count < 2 ^ 64)

abbrev pub ManifestFits : SequentialManifest → Type 0
ManifestFits m =
    (m.covered_through_seq < 2 ^ 64)
    × (m.schema_version < 2 ^ 64)
    × (length m.schema ≤ 1024)
    × All FieldFits m.schema
    × All FileFits m.data_files

-- The bytes that a text is written as are four at least.
put_string-length : (s : List ℕ) {out : List ℕ} → put_string s ≡ ok out → 4 ≤ length out
unfolding put_string
put_string-length s h = grind (arith, length-append, length-word_bytes)

get_field-Accepts : Accepts (λ f x. write_field f ≡ ok x) get_field
unfolding get_field write_field
get_field-Accepts = Accepts-bind _ Accepts-string λ name x₀ w₀.
    Accepts-bind _ (Accepts-word 1) λ type x₁ w₁. Accepts-pure _ (rw (w₀, w₁.0, append-nil) refl)

get_field-Reads : ReadsEach FieldFits write_field get_field 0
unfolding get_field write_field
get_field-Reads f o fits h =
    let (name, e, same) = >>=-eq-ok (put_string f.name) _ h in
    (
      subst (λ x. Reads get_field x f) (ok-injective same)
          (Reads-bind _ (Reads-string f.name e) (Reads-map _ (Reads-word 1 f.type (omega arith)))),
      omega arith,
    )

get_file-Accepts : Accepts (λ f x. write_file f ≡ ok x) get_file
unfolding get_file write_file
get_file-Accepts = Accepts-bind _ Accepts-string λ path x₀ w₀.
    Accepts-bind _ (Accepts-word 8) λ first x₁ w₁. Accepts-bind _ (Accepts-word 8) λ last x₂ w₂.
      Accepts-bind _ (Accepts-word 8)
        λ rows x₃ w₃. Accepts-pure _ (rw (w₀, w₁.0, w₂.0, w₃.0, append-nil) refl)

get_file-Reads : ReadsEach FileFits write_file get_file 28
unfolding get_file write_file
get_file-Reads f o fits h =
    let (path, e, same) = >>=-eq-ok (put_string f.path) _ h in
    let long = put_string-length f.path e in
    subst (λ x. Reads get_file x f × (28 ≤ length x)) (ok-injective same)
      (
        Reads-bind _ (Reads-string f.path e) (
            Reads-bind _ (Reads-word 8 f.first_seq (omega arith)) (
              Reads-bind _ (Reads-word 8 f.last_seq (omega arith))
                (Reads-map _ (Reads-word 8 f.row_count (omega arith))))),
        grind (arith, length-append, length-word_bytes),
      )

-- The bytes of the columns: their number, and each of them.
abbrev WroteSchema : List Field → List ℕ → Type 0
WroteSchema schema x =
    (fields : List ℕ) × (put_all write_field schema ≡ ok fields)
    × (x ≡ word_bytes 4 (length schema) ++ fields)

get_schema-Accepts : Accepts WroteSchema get_schema
unfolding get_schema
get_schema-Accepts = Accepts-bind _ (Accepts-word 4) λ n x₀ w₀.
    Accepts-bind _ (Accepts-check (leb n 1024)) λ u x₁ w₁.
      Accepts-imp (λ fs y e. (y, e.0, rw (w₀.0, w₁.1, e.1) refl))
        (Accepts-times write_field get_field get_field-Accepts n)

get_schema-Reads :
    (schema : List Field) {fields : List ℕ}
    → length schema ≤ 1024
    → All FieldFits schema
    → put_all write_field schema ≡ ok fields
    → Reads get_schema (word_bytes 4 (length schema) ++ fields) schema
unfolding get_schema
get_schema-Reads schema few fits h = Reads-bind _ (Reads-word 4 (length schema) (omega arith)) (
    Reads-bind _ (Reads-check (ground arith))
      (Reads-times FieldFits write_field get_field 0 schema get_field-Reads fits h).0)

get_manifest-Accepts : Accepts (λ m x. write_manifest m ≡ ok x) get_manifest
unfolding get_manifest write_manifest
get_manifest-Accepts = Accepts-bind _ (Accepts-header manifest_magic) λ u x₀ w₀.
    Accepts-bind _ Accepts-string λ id x₁ w₁. Accepts-bind _ (Accepts-word 8) λ covered x₂ w₂.
      Accepts-bind _ (Accepts-word 8) λ version x₃ w₃.
        Accepts-bind _ get_schema-Accepts λ schema x₄ w₄.
          Accepts-bind _ (Accepts-list write_file get_file get_file-Accepts 28) λ files x₅ w₅.
            Accepts-bind _ Accepts-strings λ keys x₆ w₆. Accepts-pure _ (
              rw
                (
                  w₀,
                  w₁,
                  w₂.0,
                  w₃.0,
                  w₄.1,
                  w₄.2,
                  w₅,
                  w₆,
                  append-nil,
                  append_assoc (word_bytes 4 (length schema)) w₄.0 (x₅ ++ x₆),
                )
                refl)

get_manifest-Reads :
    (m : SequentialManifest) (bytes : List ℕ)
    → ManifestFits m
    → write_manifest m ≡ ok bytes
    → Reads get_manifest bytes m
unfolding get_manifest write_manifest
get_manifest-Reads m bytes fits h =
    let (id, e₁, h₁) = >>=-eq-ok (put_string m.table_id) _ h in
    let (fields, e₂, h₂) = >>=-eq-ok (put_all write_field m.schema) _ h₁ in
    let (files, e₃, h₃) = >>=-eq-ok (put_list write_file m.data_files) _ h₂ in
    let (keys, e₄, same) = >>=-eq-ok (put_strings m.batch_index_files) _ h₃ in
    let (covered, version, few, columns, paths) = fits in
    subst (λ x. Reads get_manifest x m)
      (ap
          (λ l.
            put_header manifest_magic
            ++ (id ++ (word_bytes 8 m.covered_through_seq ++ (word_bytes 8 m.schema_version ++ l))))
          (append_assoc (word_bytes 4 (length m.schema)) fields (files ++ keys))
        ∙ ok-injective same)
      (Reads-bind _ (Reads-header manifest_magic refl) (
        Reads-bind _ (Reads-string m.table_id e₁) (
          Reads-bind _ (Reads-word 8 m.covered_through_seq (omega arith)) (
            Reads-bind _ (Reads-word 8 m.schema_version (omega arith)) (
              Reads-bind _ (get_schema-Reads m.schema few columns e₂) (
                Reads-bind _
                  (Reads-list FileFits write_file get_file 28 m.data_files (λ k len d. omega arith)
                    get_file-Reads paths e₃)
                  (Reads-map _ (Reads-strings m.batch_index_files e₄))))))))

-- Bytes are decoded to a manifest whose numbers are of the widths of their types, with 1024
-- columns at most, exactly if the manifest is encoded to these bytes.
pub decode_manifest_iff :
    (m : SequentialManifest) (bytes : List ℕ)
    → ManifestFits m
    → All IsByte bytes
    → (decode_manifest bytes ≡ ok m) ↔ (encode_manifest m ≡ ok bytes)
unfolding decode_manifest encode_manifest
decode_manifest_iff m bytes fits octets =
    decode_by_iff get_manifest valid_manifest write_manifest m bytes get_manifest-Accepts
      (get_manifest-Reads m bytes fits) octets

-- The sequence number of an entry is 64 bits wide, and its digest is one of SHA-256.
abbrev pub EntryFits : SequentialBatchEntry → Type 0
EntryFits e = (e.seq < 2 ^ 64) × (length e.payload_digest ≡ 32)

get_entry-Accepts : Accepts (λ e x. write_entry e ≡ ok x) get_entry
unfolding get_entry write_entry
get_entry-Accepts = Accepts-bind _ Accepts-string λ id x₀ w₀.
    Accepts-bind _ (Accepts-word 8) λ seq x₁ w₁. Accepts-bind _ Accepts-string λ operation x₂ w₂.
      Accepts-bind _ (Accepts-raw digest_length)
        λ digest x₃ w₃. Accepts-pure _ (rw (w₀, w₁.0, w₂, w₃.0, append-nil) refl)

get_entry-Reads : ReadsEach EntryFits write_entry get_entry 48
unfolding get_entry write_entry
get_entry-Reads e o fits h =
    let (id, e₁, h₁) = >>=-eq-ok (put_string e.batch_id) _ h in
    let (operation, e₂, same) = >>=-eq-ok (put_string e.operation_id) _ h₁ in
    let id_long = put_string-length e.batch_id e₁ in
    let operation_long = put_string-length e.operation_id e₂ in
    subst (λ x. Reads get_entry x e × (48 ≤ length x)) (ok-injective same)
      (
        Reads-bind _ (Reads-string e.batch_id e₁) (
            Reads-bind _ (Reads-word 8 e.seq (omega arith)) (
              Reads-bind _ (Reads-string e.operation_id e₂)
                (Reads-map _ (Reads-raw e.payload_digest 32 (sym fits.1))))),
        grind (arith, length-append, length-word_bytes),
      )

write_index-ok :
    (es : List SequentialBatchEntry) {y : List ℕ}
    → put_list write_entry es ≡ ok y
    → write_index es ≡ ok (put_header index_magic ++ y)
unfolding write_index
write_index-ok es h = rw h refl

get_index-Accepts : Accepts (λ es x. write_index es ≡ ok x) get_index
unfolding get_index
get_index-Accepts = Accepts-bind _ (Accepts-header index_magic) λ u x₀ w₀.
    Accepts-imp (λ es y w. write_index-ok es w ∙ rw w₀ refl)
      (Accepts-list write_entry get_entry get_entry-Accepts 48)

get_index-Reads :
    (es : List SequentialBatchEntry) (bytes : List ℕ)
    → All EntryFits es
    → write_index es ≡ ok bytes
    → Reads get_index bytes es
unfolding get_index write_index
get_index-Reads es bytes fits h =
    let (entries, e, same) = >>=-eq-ok (put_list write_entry es) _ h in
    subst (λ x. Reads get_index x es) (ok-injective same)
      (Reads-bind _ (Reads-header index_magic refl) (
        Reads-list EntryFits write_entry get_entry 48 es (λ k len d. omega arith) get_entry-Reads
          fits e))

-- Bytes are decoded to entries of 64-bit sequence numbers and of SHA-256 digests exactly if the
-- entries are encoded to these bytes.
pub decode_index_iff :
    (es : List SequentialBatchEntry) (bytes : List ℕ)
    → All EntryFits es
    → All IsByte bytes
    → (decode_index bytes ≡ ok es) ↔ (encode_index es ≡ ok bytes)
unfolding decode_index encode_index
decode_index_iff es bytes fits octets =
    decode_by_iff get_index (all_of valid_entry) write_index es bytes get_index-Accepts
      (get_index-Reads es bytes fits) octets
