-- ===== src/RowCodec/RoundTrip.antt =====
-- A row that is encoded is decoded to itself, whatever bytes follow.
use dbplayground.Base.{
  ℕ, suc, ◌%◌, ◌^◌, ◌<◌, ◌≡◌, refl, List, [], ◌∷◌, ◌++◌, append_assoc, Bool, true, false, length,
  arith, ap, ◌∙◌, if◌then◌else◌, word_bytes, word_value, length-append, length-word_bytes,
  take_word, drop_word, word_value-word_bytes, take-append, drop-append, capacity,
}
use dbplayground.Base.Result.{ok}
use dbplayground.RowCodec.{
  require, read_word, encode_field, encode_fields, encode, decode_bytes, decode_field, decode,
}
use dbplayground.Value.{
  FieldType, Schema, Value, FloatCasts, int32, int64, float, double, bool, string, blob, of_int32,
  of_int64, of_bool, of_double, of_float, of_string, as_int32, as_bool, as_float,
}

-- What a decoder reads where a word stands in front.
module _ (n v : ℕ) (rest : List ℕ) where
  require_word : require n (word_bytes n v ++ rest) ≡ ok (word_bytes n v ++ rest)
  require_word = ground (arith, length-append (word_bytes n v) rest, length-word_bytes n v)

  read_word-word_bytes : v < capacity n → read_word n (word_bytes n v ++ rest) ≡ v
  read_word-word_bytes h = ap word_value (take_word n v rest) ∙ word_value-word_bytes n v h

decode_bytes-encode :
    (s rest : List ℕ)
    → length s < 2 ^ 32
    → decode_bytes ((word_bytes 4 (length s % 2 ^ 32) ++ s) ++ rest) ≡ ok (of_string s, rest)
unfolding decode_bytes
decode_bytes-encode s rest h =
    let len : length s % 2 ^ 32 ≡ length s = omega arith in
    let room : require (length s) (s ++ rest) ≡ ok (s ++ rest) =
      ground (arith, length-append s rest) in
    rw (
      append_assoc,
      len,
      require_word 4 (length s) (s ++ rest),
      read_word-word_bytes 4 (length s) (s ++ rest) (omega arith),
      drop_word,
      room,
      take-append,
      drop-append,
    )

module _ (c : FloatCasts) where
  -- The value is one that the constructors of the type make. A blob is made as a string is.
  pub data Fits : FieldType → Value → Type 0 where
    fits_int32 : (x : ℕ) → x < 2 ^ 32 → Fits int32 (of_int32 x)
    fits_int64 : (x : ℕ) → x < 2 ^ 64 → Fits int64 (of_int64 x)
    fits_float : (x : ℕ) → x < 2 ^ 32 → Fits float (of_float c x)
    fits_double : (x : ℕ) → x < 2 ^ 64 → Fits double (of_double x)
    fits_bool : (b : Bool) → Fits bool (of_bool b)
    fits_string : (s : List ℕ) → length s < 2 ^ 32 → Fits string (of_string s)
    fits_blob : (s : List ℕ) → length s < 2 ^ 32 → Fits blob (of_string s)

  module _ (rest : List ℕ) where
    decode_int32 :
        (x : ℕ)
        → x < 2 ^ 32
        → decode_field c int32 (word_bytes 4 (as_int32 (of_int32 x)) ++ rest)
          ≡ ok (of_int32 x, rest)
    unfolding decode_field
    decode_int32 x h =
        let same : as_int32 (of_int32 x) ≡ x = ground arith in
        rw (same, require_word 4 x rest, read_word-word_bytes 4 x rest h, drop_word)

    decode_int64 :
        (x : ℕ) → x < 2 ^ 64 → decode_field c int64 (word_bytes 8 x ++ rest) ≡ ok (of_int64 x, rest)
    unfolding decode_field
    decode_int64 x h = rw (require_word 8 x rest, read_word-word_bytes 8 x rest h, drop_word)

    decode_float :
        (x : ℕ)
        → x < 2 ^ 32
        → decode_field c float (word_bytes 4 (as_float c (of_float c x)) ++ rest)
          ≡ ok (of_float c x, rest)
    unfolding decode_field
    decode_float x h =
        let y = as_float c (of_float c x) in
        let read = read_word-word_bytes 4 y rest (c.is_float x h) in
        rw (require_word 4 y rest, read, drop_word, c.widen-narrow x h)

    decode_double :
        (x : ℕ)
        → x < 2 ^ 64
        → decode_field c double (word_bytes 8 x ++ rest) ≡ ok (of_double x, rest)
    unfolding decode_field
    decode_double x h = rw (require_word 8 x rest, read_word-word_bytes 8 x rest h, drop_word)

    decode_bool :
        (b : Bool)
        → decode_field c bool (word_bytes 1 (if as_bool (of_bool b) then 1 else 0) ++ rest)
          ≡ ok (of_bool b, rest)
    unfolding decode_field
    decode_bool true =
        rw (require_word 1 1 rest, read_word-word_bytes 1 1 rest (omega arith), drop_word)
    decode_bool false =
        rw (require_word 1 0 rest, read_word-word_bytes 1 0 rest (omega arith), drop_word)

    decode_field-encode_field :
        {t : FieldType} {v : Value}
        → Fits t v
        → (bytes : List ℕ) × (encode_field c t v ≡ ok bytes)
          × (decode_field c t (bytes ++ rest) ≡ ok (v, rest))
    unfolding encode_field
    decode_field-encode_field (fits_int32 x h) = (_, refl, decode_int32 x h)
    decode_field-encode_field (fits_int64 x h) = (_, refl, decode_int64 x h)
    decode_field-encode_field (fits_float x h) = (_, refl, decode_float x h)
    decode_field-encode_field (fits_double x h) = (_, refl, decode_double x h)
    decode_field-encode_field (fits_bool b) = (_, refl, decode_bool b)
    decode_field-encode_field (fits_string s h) =
        (_, refl, unfold decode_field in decode_bytes-encode s rest h)
    decode_field-encode_field (fits_blob s h) =
        (_, refl, unfold decode_field in decode_bytes-encode s rest h)

  -- The values fit the fields of the schema, one to each.
  pub data AllFit : Schema → List Value → Type 0 where
    none_left : AllFit [] []
    one_more :
        {t : FieldType} {v : Value} {schema : Schema} {row : List Value}
        → Fits t v
        → AllFit schema row
        → AllFit (t ∷ schema) (v ∷ row)

  encode_fields-decode :
      {schema : Schema} {row : List Value} (rest : List ℕ)
      → AllFit schema row
      → (bytes : List ℕ) × (encode_fields c schema row ≡ ok bytes)
        × (decode c schema (bytes ++ rest) ≡ ok row)
        × (length row ≡ length schema)
  unfolding encode_fields decode
  encode_fields-decode rest none_left = ([], refl, refl, refl)
  encode_fields-decode rest (one_more {t} {v} {schema} {row} fits others) =
      let (bytes', encoded', decoded', same) = encode_fields-decode rest others in
      let (bytes, encoded, decoded) = decode_field-encode_field (bytes' ++ rest) fits in
      (bytes ++ bytes', rw (encoded, encoded'), rw (append_assoc, decoded, decoded'), ap suc same)

  -- A row of values that fit the schema can be encoded, and the bytes, with any others behind
  -- them, are decoded to that row.
  pub encode-decode :
      {schema : Schema} {row : List Value} (rest : List ℕ)
      → AllFit schema row
      → (bytes : List ℕ) × (encode c schema row ≡ ok bytes)
        × (decode c schema (bytes ++ rest) ≡ ok row)
  unfolding encode
  encode-decode rest fit =
      let (bytes, encoded, decoded, same) = encode_fields-decode rest fit in
      (bytes, ground (arith, encoded, same), decoded)
