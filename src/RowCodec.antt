-- ===== src/RowCodec.antt =====
-- src/Table/RowCodec.{h,cpp}: a row as one string of bytes, field after field. The decoders keep the
-- bytes that are left in place of an offset; sizes are far below 2 ^ 64, so that the sum of the
-- guard `RequireBytes` does not wrap.
pub mod RoundTrip
pub mod Places
pub mod Project
use dbplayground.Base.{
  ℕ, zero, suc, ◌+◌, ◌%◌, ◌^◌, List, [], ◌∷◌, ◌++◌, Bool, length, take, drop, ltb, ◌==◌, not,
  if◌then◌else◌, word_bytes, word_value, Option, none, some, put,
}
use dbplayground.Base.Result.{
  Result, ok, err, ◌>>=◌, arity_mismatch, invalid_type, truncated, undefined,
}
use dbplayground.Column
use dbplayground.Column.{Column}
use dbplayground.Value.{
  FieldType, Schema, Value, FloatCasts, invalid, int32, int64, float, double, bool, string, blob,
  of_int32, of_int64, of_bool, of_double, of_float, of_string, as_int32, as_bool, as_float,
}

-- `RequireBytes` at the bytes that are left: those, if they are enough.
abbrev pub require : ℕ → List ℕ → Result (List ℕ)
require need rest = if ltb (length rest) need then err truncated else ok rest

-- The next `n` bytes as a word, and the bytes after them.
abbrev pub read_word : ℕ → List ℕ → ℕ
read_word n rest = word_value (take n rest)

-- A field of variable length: its length, and its bytes.
unfoldable pub decode_bytes : List ℕ → Result (Value × List ℕ)
decode_bytes rest = do
  rest ← require 4 rest
  let len = read_word 4 rest
  rest ← require len (drop 4 rest)
  ok (of_string (take len rest), drop len rest)

module _ (c : FloatCasts) where
  unfoldable pub encode_field : FieldType → Value → Result (List ℕ)
  encode_field int32 v = ok (word_bytes 4 (as_int32 v))
  encode_field int64 v = ok (word_bytes 8 v.int_val)
  encode_field float v = ok (word_bytes 4 (as_float c v))
  encode_field double v = ok (word_bytes 8 v.dbl_val)
  encode_field bool v = ok (word_bytes 1 (if as_bool v then 1 else 0))
  encode_field string v = ok (word_bytes 4 (length v.bytes_val % 2 ^ 32) ++ v.bytes_val)
  encode_field blob v = ok (word_bytes 4 (length v.bytes_val % 2 ^ 32) ++ v.bytes_val)
  encode_field invalid v = err invalid_type

  -- The loop of `Encode`; that the row and the schema are of one length was tested before.
  unfoldable pub encode_fields : Schema → List Value → Result (List ℕ)
  unfolding encode_field
  encode_fields [] row = ok []
  encode_fields (t ∷ schema) [] = ok []
  encode_fields (t ∷ schema) (v ∷ row) = do
    bytes ← encode_field t v
    rest ← encode_fields schema row
    ok (bytes ++ rest)

  unfoldable pub encode : Schema → List Value → Result (List ℕ)
  unfolding encode_fields
  encode schema row =
      if length row == length schema then encode_fields schema row else err arity_mismatch

  unfoldable pub decode_field : FieldType → List ℕ → Result (Value × List ℕ)
  unfolding decode_bytes
  decode_field int32 rest = do rest ← require 4 rest; ok (of_int32 (read_word 4 rest), drop 4 rest)
  decode_field int64 rest = do rest ← require 8 rest; ok (of_int64 (read_word 8 rest), drop 8 rest)
  decode_field float rest = do
    rest ← require 4 rest
    ok (of_float c (read_word 4 rest), drop 4 rest)
  decode_field double rest = do
    rest ← require 8 rest
    ok (of_double (read_word 8 rest), drop 8 rest)
  decode_field bool rest = do
    rest ← require 1 rest
    ok (of_bool (not (read_word 1 rest == 0)), drop 1 rest)
  decode_field string rest = decode_bytes rest
  decode_field blob rest = decode_bytes rest
  decode_field invalid rest = err invalid_type

  -- The loop of `Decode`; bytes after the last field are left alone.
  unfoldable pub decode : Schema → List ℕ → Result (List Value)
  unfolding decode_field
  decode [] rest = ok []
  decode (t ∷ schema) rest = do
    (v, rest) ← decode_field t rest
    row ← decode schema rest
    ok (v ∷ row)

-- What `DecodeInto` does with a field: a change of the column that it is projected to, and the bytes
-- that are left.
unfoldable pub cell_bytes : List ℕ → Result ((Column → Column) × List ℕ)
cell_bytes rest = do
  rest ← require 4 rest
  let len = read_word 4 rest
  rest ← require len (drop 4 rest)
  ok (Column.append_bytes (take len rest), drop len rest)

unfoldable pub cell : FieldType → List ℕ → Result ((Column → Column) × List ℕ)
unfolding cell_bytes
cell int32 rest = do
  rest ← require 4 rest
  ok (Column.append (word_bytes 4 (read_word 4 rest)), drop 4 rest)
cell int64 rest = do
  rest ← require 8 rest
  ok (Column.append (word_bytes 8 (read_word 8 rest)), drop 8 rest)
cell float rest = do
  rest ← require 4 rest
  ok (Column.append (word_bytes 4 (read_word 4 rest)), drop 4 rest)
cell double rest = do
  rest ← require 8 rest
  ok (Column.append (word_bytes 8 (read_word 8 rest)), drop 8 rest)
cell bool rest = do
  rest ← require 1 rest
  ok (Column.append (word_bytes 1 (if not (read_word 1 rest == 0) then 1 else 0)), drop 1 rest)
cell string rest = cell_bytes rest
cell blob rest = cell_bytes rest
cell invalid rest = err invalid_type

-- The output position of each schema field: a later mention of a field replaces an earlier one. A
-- field that the schema of `n` fields lacks is written behind the positions.
unfoldable pub out_positions : ℕ → ℕ → List ℕ → (ℕ → Option ℕ) → Result (ℕ → Option ℕ)
out_positions n k [] pos = ok pos
out_positions n k (i ∷ projection) pos =
    let rest = out_positions n (k + 1) projection (put pos i (some k)) in
    if ltb i n then rest else err undefined

unfoldable pub change_at : ℕ → (Column → Column) → List Column → Result (List Column)
change_at k f [] = err undefined
change_at zero f (col ∷ cols) = ok (f col ∷ cols)
change_at (suc k) f (col ∷ cols) = change_at k f cols >>= λ cols'. ok (col ∷ cols')

unfoldable pub change_projected : Option ℕ → (Column → Column) → List Column → Result (List Column)
unfolding change_at
change_projected none f cols = ok cols
change_projected (some k) f cols = change_at k f cols

-- The loop of `DecodeInto` from the field `i` on.
unfoldable pub decode_into_from :
    ℕ → Schema → (ℕ → Option ℕ) → List ℕ → List Column → Result (List Column)
unfolding cell change_projected
decode_into_from i [] pos rest cols = ok cols
decode_into_from i (t ∷ schema) pos rest cols = do
  (f, rest) ← cell t rest
  cols' ← change_projected (pos i) f cols
  decode_into_from (i + 1) schema pos rest cols'

unfoldable pub decode_into : Schema → List ℕ → List ℕ → List Column → Result (List Column)
unfolding out_positions decode_into_from
decode_into schema bytes projection cols = do
  pos ← out_positions (length schema) 0 projection (λ _. none)
  decode_into_from 0 schema pos bytes cols
