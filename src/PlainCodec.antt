-- ===== src/PlainCodec.antt =====
-- src/Storage/Encoding/PlainCodec.cpp: the values of a column one after the other, each of variable
-- length behind its length. The decoder keeps the bytes that are left in place of a pointer; sizes are
-- far below 2 ^ 64, so that the product of the guard does not wrap.
pub mod Runs
pub mod Strings
pub mod RoundTrip
use dbplayground.Base.{
  ℕ, zero, suc, ◌+◌, ◌*◌, ◌%◌, ◌^◌, List, [], ◌∷◌, ◌++◌, length, take, drop, ltb, if◌then◌else◌,
  word_bytes, word_value,
}
use dbplayground.Base.Result.{Result, ok, err, ◌>>=◌, invalid_type, truncated}
use dbplayground.Column.{Column, append, append_bytes, get, get_bytes}
use dbplayground.Value.{
  FieldType, fixed_width, invalid, int32, int64, float, double, bool, string, blob,
}

-- The loops run over `n` values, from the value `i` on.
unfoldable pub encode_fixed : ℕ → ℕ → ℕ → Column → List ℕ
unfolding get
encode_fixed w zero i col = []
encode_fixed w (suc n) i col = get w i col ++ encode_fixed w n (i + 1) col

unfoldable pub encode_var : ℕ → ℕ → Column → List ℕ
unfolding get_bytes
encode_var zero i col = []
encode_var (suc n) i col =
    let s = get_bytes i col in word_bytes 4 (length s % 2 ^ 32) ++ (s ++ encode_var n (i + 1) col)

unfoldable pub encode_as : ℕ → FieldType → Column → Result (List ℕ)
unfolding encode_fixed encode_var
encode_as n int32 col = ok (encode_fixed 4 n 0 col)
encode_as n int64 col = ok (encode_fixed 8 n 0 col)
encode_as n float col = ok (encode_fixed 4 n 0 col)
encode_as n double col = ok (encode_fixed 8 n 0 col)
encode_as n bool col = ok (encode_fixed 1 n 0 col)
encode_as n string col = ok (encode_var n 0 col)
encode_as n blob col = ok (encode_var n 0 col)
encode_as n invalid col = err invalid_type

unfoldable pub encode : Column → Result (List ℕ)
unfolding encode_as
encode col = encode_as col.size col.type col

unfoldable pub append_runs : ℕ → ℕ → List ℕ → Column → Column
unfolding append
append_runs w zero bytes out = out
append_runs w (suc n) bytes out = append_runs w n (drop w bytes) (append (take w bytes) out)

unfoldable pub decode_fixed : ℕ → ℕ → List ℕ → Column → Result Column
unfolding append_runs
decode_fixed w n bytes out =
    if ltb (length bytes) (n * w) then err truncated else ok (append_runs w n bytes out)

abbrev decode_value : (List ℕ → Column → Result Column) → ℕ → List ℕ → Column → Result Column
decode_value next len bytes out =
    if ltb (length bytes) len
    then err truncated
    else next (drop len bytes) (append_bytes (take len bytes) out)

unfoldable pub decode_var : ℕ → List ℕ → Column → Result Column
unfolding append_bytes
decode_var zero bytes out = ok out
decode_var (suc n) bytes out =
    if ltb (length bytes) 4
    then err truncated
    else decode_value (decode_var n) (word_value (take 4 bytes)) (drop 4 bytes) out

unfoldable pub decode_as : ℕ → FieldType → List ℕ → Column → Result Column
unfolding decode_fixed decode_var
decode_as n int32 bytes out = decode_fixed 4 n bytes out
decode_as n int64 bytes out = decode_fixed 8 n bytes out
decode_as n float bytes out = decode_fixed 4 n bytes out
decode_as n double bytes out = decode_fixed 8 n bytes out
decode_as n bool bytes out = decode_fixed 1 n bytes out
decode_as n string bytes out = decode_var n bytes out
decode_as n blob bytes out = decode_var n bytes out
decode_as n invalid bytes out = err invalid_type

unfoldable pub decode : List ℕ → ℕ → Column → Result Column
unfolding decode_as
decode bytes value_count out = decode_as value_count out.type bytes out
