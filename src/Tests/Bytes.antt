-- ===== src/Tests/Bytes.antt =====
-- The encodings on small inputs.
use dbplayground.Base.{
  ℕ, ◌-◌, ◌*◌, ◌/◌, ◌^◌, ◌≡◌, ◌++◌, List, [], ◌∷◌, arith, true, false, word_value, if◌then◌else◌,
  ◌<◌, ◌+◌, refl, inl,
}
use dbplayground.Base.Int.{pos, negsuc}
use dbplayground.Base.Result.{ok, ◌>>=◌}
use dbplayground.Codec.{memcmp, is_lt, key_len, encode_int, encode_double}
use dbplayground.Codec.Order.{encode_int-order, encode_double-order}
use dbplayground.Column
use dbplayground.Column.{Column}
use dbplayground.PlainCodec
use dbplayground.PlainCodec.RoundTrip.{IsStored, var_values, decode-encode}
use dbplayground.RowCodec.{encode, decode, decode_into, cell, cell_bytes}
use dbplayground.RowCodec.RoundTrip.{
  fits_int32, fits_string, fits_bool, fits_float, none_left, one_more, encode-decode,
}
use dbplayground.RowCodec.Places.{place}
use dbplayground.RowCodec.Project.{append_row, IsQuiet, decode_into-decode}
use dbplayground.Value.{
  Schema, Value, FloatCasts, is_signalling, int32, string, bool, float, of_int32, of_string,
  of_bool, of_float,
}

encode_int-order_example :
    is_lt (memcmp key_len (encode_int (negsuc 4)) (encode_int (pos 3))) ≡ true
encode_int-order_example = encode_int-order (negsuc 4) (pos 3) (omega arith) (omega arith)

-- The negative zero is below the positive one.
encode_double-order_example :
    is_lt (memcmp key_len (encode_double (2 ^ 63)) (encode_double 0)) ≡ true
encode_double-order_example = encode_double-order (2 ^ 63) 0 (omega arith) (omega arith)

-- Stand-ins for the casts: a signalling NaN becomes quiet, and 29 bits are added at the end.
abbrev quiet : ℕ → ℕ
quiet x = if is_signalling x then x + 2 ^ 22 else x

quiet_twice : (x : ℕ) → quiet (quiet x) ≡ quiet x
quiet_twice x = ground arith

quiet-lt : (x : ℕ) → x < 2 ^ 32 → quiet x < 2 ^ 32
quiet-lt x h = ground arith

quiet_calm : (x : ℕ) → is_signalling x ≡ false → quiet x * 2 ^ 29 / 2 ^ 29 ≡ x
quiet_calm x calm = let same : quiet x ≡ x = rw calm refl in omega (arith, same)

abbrev casts : FloatCasts
casts = record {
  widen = λ x. quiet x * 2 ^ 29;
  narrow = λ x. x / 2 ^ 29;
  is_float = λ x h. omega (arith, quiet-lt x h);
  widen-narrow = λ x h.
      let same : quiet x * 2 ^ 29 / 2 ^ 29 ≡ quiet x = omega arith in rw (same, quiet_twice x) refl;
  narrow-widen = λ x h calm. quiet_calm x calm;
}

abbrev schema : Schema
schema = int32 ∷ string ∷ bool ∷ float ∷ []

abbrev row : List Value
row = of_int32 (2 ^ 32 - 5) ∷ of_string (104 ∷ 105 ∷ []) ∷ of_bool true ∷ of_float casts 9 ∷ []

encode-decode_example :
    (bytes : List ℕ) × (encode casts schema row ≡ ok bytes)
    × (decode casts schema (bytes ++ (1 ∷ [])) ≡ ok row)
encode-decode_example = encode-decode casts (1 ∷ []) (
    one_more (fits_int32 (2 ^ 32 - 5) (omega arith)) (
      one_more (fits_string (104 ∷ 105 ∷ []) (omega arith))
        (one_more (fits_bool true) (one_more (fits_float 9 (omega arith)) none_left))))

abbrev row_bytes : List ℕ
row_bytes = 251 ∷ 255 ∷ 255 ∷ 255 ∷ 2 ∷ 0 ∷ 0 ∷ 0 ∷ 104 ∷ 105 ∷ 1 ∷ 9 ∷ 0 ∷ 0 ∷ 0 ∷ []

abbrev columns : List Column
columns = Column.init string ∷ Column.init float ∷ []

row_bytes-IsQuiet : IsQuiet schema row_bytes
unfolding cell cell_bytes word_value
row_bytes-IsQuiet = (tt, (tt, (tt, (refl, tt))))

decode_into-decode_example : decode_into schema row_bytes (1 ∷ 3 ∷ []) columns ≡ (
    decode casts schema row_bytes >>= λ r.
    ok (append_row casts 0 schema r (λ i. place 0 i (1 ∷ 3 ∷ [])) columns))
decode_into-decode_example =
    decode_into-decode casts schema (1 ∷ 3 ∷ []) row_bytes columns (omega arith) (omega arith)
      (omega arith) row_bytes-IsQuiet

-- Two strings, of two bytes and of none.
abbrev strings : Column
strings = record {
  type = string;
  size = 2;
  fixed = [];
  offsets = 0 ∷ 2 ∷ 2 ∷ [];
  var_bytes = 65 ∷ 66 ∷ [];
}

strings-IsStored : IsStored strings
strings-IsStored =
    var_values ((65 ∷ 66 ∷ []) ∷ [] ∷ [])
      (record { sizes = refl; no_fixed = refl; offsets = refl; bytes = refl; short = omega arith })
      (inl refl)

decode-encode_example :
    (PlainCodec.encode strings >>= λ bytes. PlainCodec.decode bytes 2 (Column.init string))
    ≡ ok strings
decode-encode_example = decode-encode strings strings-IsStored
