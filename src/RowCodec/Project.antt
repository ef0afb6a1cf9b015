-- ===== src/RowCodec/Project.antt =====
-- `DecodeInto` adds to the projected columns the values that `Decode` gives.
use dbplayground.Base.{
  ℕ, zero, suc, ◌+◌, ◌<◌, ◌≤◌, false, subst, ◌≡◌, refl, List, [], ◌∷◌, length, take, drop, ltb,
  ◌==◌, not, arith, ap, ◌∙◌, sym, All, capacity, if◌then◌else◌, word_bytes, word_value, Option,
  Bool-cases, inl, inr,
}
use dbplayground.Base.Result.{Result, ok, err, ◌>>=◌}
use dbplayground.Codec.{IsByte}
use dbplayground.Column
use dbplayground.Column.{Column}
use dbplayground.RowCodec.{
  require, read_word, decode_bytes, decode_field, decode, cell, cell_bytes, decode_into_from,
  decode_into, change_projected,
}
use dbplayground.RowCodec.Places.{
  change_placed, place, place-lt, AreIn, AreIn-change_placed, change_projected-change_placed,
  out_positions-place,
}
use dbplayground.Value.{
  FieldType, Schema, Value, FloatCasts, is_signalling, invalid, int32, int64, float, double, bool,
  string, blob, of_int32, of_int64, of_bool, of_double, of_float, of_string, as_int32, as_bool,
  as_float,
}

word_value-lt : (n : ℕ) (xs : List ℕ) → All IsByte xs → word_value (take n xs) < capacity n
unfolding word_value
word_value-lt zero xs v = omega arith
word_value-lt (suc n) [] v = ground (arith, word_value-lt n [] tt)
word_value-lt (suc n) (x ∷ xs) v = omega (arith, word_value-lt n xs v.1, v.0)

All-drop : (n : ℕ) (xs : List ℕ) → All IsByte xs → All IsByte (drop n xs)
All-drop zero xs v = v
All-drop (suc n) [] v = tt
All-drop (suc n) (x ∷ xs) v = All-drop n xs v.1

-- No float field of the schema has the bits of a signalling NaN.
abbrev IsQuietAt : FieldType → List ℕ → Type 0
IsQuietAt float rest = is_signalling (read_word 4 rest) ≡ false
IsQuietAt _ rest = Unit {0}

abbrev After : (List ℕ → Type 0) → Result ((Column → Column) × List ℕ) → Type 0
After P (ok (f, rest)) = P rest
After P (err e) = Unit {0}

abbrev pub IsQuiet : Schema → List ℕ → Type 0
IsQuiet [] rest = Unit {0}
IsQuiet (t ∷ schema) rest = IsQuietAt t rest × After (IsQuiet schema) (cell t rest)

module _ (c : FloatCasts) where
  -- A value is added to a column of the type.
  abbrev pub append_value : FieldType → Value → Column → Column
  append_value int32 v = Column.append (word_bytes 4 (as_int32 v))
  append_value int64 v = Column.append (word_bytes 8 v.int_val)
  append_value float v = Column.append (word_bytes 4 (as_float c v))
  append_value double v = Column.append (word_bytes 8 v.dbl_val)
  append_value bool v = Column.append (word_bytes 1 (if as_bool v then 1 else 0))
  append_value string v = Column.append_bytes v.bytes_val
  append_value blob v = Column.append_bytes v.bytes_val
  append_value invalid v = λ col. col

  -- Each value of the row is added to the column that its field is projected to.
  pub append_row : ℕ → Schema → List Value → (ℕ → Option ℕ) → List Column → List Column
  append_row i [] row pos cols = cols
  append_row i (t ∷ schema) [] pos cols = cols
  append_row i (t ∷ schema) (v ∷ row) pos cols =
      append_row (i + 1) schema row pos (change_placed (pos i) (append_value t v) cols)

  -- Where a field is decoded, the cell is its value and the same bytes are left; where one throws,
  -- the other does.
  abbrev Agree : FieldType → Result (Value × List ℕ) → Result ((Column → Column) × List ℕ) → Type 0
  Agree t (ok (v, rest)) r = (r ≡ ok (append_value t v, rest)) × All IsByte rest
  Agree t (err e) r = r ≡ err e

  Agree-require :
      (t : FieldType) (n : ℕ) (rest : List ℕ) (v : List ℕ → Value) (f : List ℕ → Column → Column)
      → All IsByte rest
      → f rest ≡ append_value t (v rest)
      → Agree t
          (require n rest >>= (λ r. ok (v r, drop n r)))
          (require n rest >>= (λ r. ok (f r, drop n r)))
  Agree-require t n rest v f bytes same = elim (Bool-cases (ltb (length rest) n)) [
    | inl short ↦ rw short refl
    | inr enough ↦ rw enough ((λ i. ok (same i, drop n rest)), All-drop n rest bytes)
  ]

  Agree-bytes :
      (t : FieldType) (rest : List ℕ)
      → ((s : List ℕ) → append_value t (of_string s) ≡ Column.append_bytes s)
      → All IsByte rest
      → Agree t (decode_bytes rest) (cell_bytes rest)
  unfolding decode_bytes cell_bytes
  Agree-bytes t rest same bytes = elim (Bool-cases (ltb (length rest) 4)) [
    | inl short ↦ rw short refl
    | inr enough ↦ rw enough (elim (Bool-cases (ltb (length (drop 4 rest)) (read_word 4 rest))) [
      | inl short ↦ rw short refl
      | inr full ↦ rw full (
        (λ i. ok (
          sym (same (take (read_word 4 rest) (drop 4 rest))) i,
          drop (read_word 4 rest) (drop 4 rest),
        )),
        All-drop (read_word 4 rest) (drop 4 rest) (All-drop 4 rest bytes),
      )
    ])
  ]

  cell-Agrees :
      (t : FieldType) (rest : List ℕ)
      → All IsByte rest
      → IsQuietAt t rest
      → Agree t (decode_field c t rest) (cell t rest)
  unfolding decode_field cell
  cell-Agrees int32 rest bytes quiet =
      Agree-require int32 4 rest (λ r. of_int32 (read_word 4 r)) _ bytes
        (ap (λ x. Column.append (word_bytes 4 x)) (ground (arith, word_value-lt 4 rest bytes)))
  cell-Agrees int64 rest bytes quiet =
      Agree-require int64 8 rest (λ r. of_int64 (read_word 8 r)) _ bytes refl
  cell-Agrees float rest bytes quiet =
      Agree-require float 4 rest (λ r. of_float c (read_word 4 r)) _ bytes
        (ap (λ x. Column.append (word_bytes 4 x))
          (sym (c.narrow-widen (read_word 4 rest) (word_value-lt 4 rest bytes) quiet)))
  cell-Agrees double rest bytes quiet =
      Agree-require double 8 rest (λ r. of_double (read_word 8 r)) _ bytes refl
  cell-Agrees bool rest bytes quiet =
      Agree-require bool 1 rest (λ r. of_bool (not (read_word 1 r == 0))) _ bytes
        (ap (λ x. Column.append (word_bytes 1 x)) (ground arith))
  cell-Agrees string rest bytes quiet = Agree-bytes string rest (λ s. refl) bytes
  cell-Agrees blob rest bytes quiet = Agree-bytes blob rest (λ s. refl) bytes
  cell-Agrees invalid rest bytes quiet = refl

  decode_into_step :
      (i : ℕ) (t : FieldType) (schema : Schema) (pos : ℕ → Option ℕ) (cols : List Column)
      (r : Result (Value × List ℕ)) (m : Result ((Column → Column) × List ℕ))
      → Agree t r m
      → AreIn pos cols
      → After (IsQuiet schema) m
      → ((rest : List ℕ) (cols' : List Column)
          → All IsByte rest
          → IsQuiet schema rest
          → AreIn pos cols'
          → decode_into_from (i + 1) schema pos rest cols'
            ≡ (decode c schema rest >>= λ row. ok (append_row (i + 1) schema row pos cols')))
      → (m >>= λ p. change_projected (pos i) p.0 cols >>= λ cols'.
          decode_into_from (i + 1) schema pos p.1 cols')
        ≡ (r >>= λ p. decode c schema p.1 >>= λ row.
            ok
              (append_row (i + 1) schema row pos (change_placed (pos i) (append_value t p.0) cols)))
  decode_into_step i t schema pos cols (ok (v, rest)) m agree places quiet ih =
      let cols' = change_placed (pos i) (append_value t v) cols in
      rw (agree.0, change_projected-change_placed (pos i) (append_value t v) cols (places i))
        (ih rest cols' agree.1 (subst (After (IsQuiet schema)) agree.0 quiet)
          (AreIn-change_placed pos (pos i) (append_value t v) cols places))
  decode_into_step i t schema pos cols (err e) m agree places quiet ih = rw agree refl

  collect_rest :
      (i : ℕ) (t : FieldType) (schema : Schema) (pos : ℕ → Option ℕ) (cols : List Column)
      (v : Value) (rows : Result (List Value))
      → (rows >>= λ row.
          ok (append_row (i + 1) schema row pos (change_placed (pos i) (append_value t v) cols)))
        ≡ ((rows >>= λ row. ok (v ∷ row)) >>= λ row. ok (append_row i (t ∷ schema) row pos cols))
  unfolding append_row
  collect_rest i t schema pos cols v (ok row) = refl
  collect_rest i t schema pos cols v (err e) = refl

  collect_row :
      (i : ℕ) (t : FieldType) (schema : Schema) (pos : ℕ → Option ℕ) (cols : List Column)
      (r : Result (Value × List ℕ))
      → (r >>= λ p. decode c schema p.1 >>= λ row.
          ok (append_row (i + 1) schema row pos (change_placed (pos i) (append_value t p.0) cols)))
        ≡ ((r >>= λ p. decode c schema p.1 >>= λ row. ok (p.0 ∷ row)) >>= λ row.
            ok (append_row i (t ∷ schema) row pos cols))
  collect_row i t schema pos cols (ok (v, rest)) =
      collect_rest i t schema pos cols v (decode c schema rest)
  collect_row i t schema pos cols (err e) = refl

  decode_into_from-decode :
      (i : ℕ) (schema : Schema) (pos : ℕ → Option ℕ) (rest : List ℕ) (cols : List Column)
      → All IsByte rest
      → IsQuiet schema rest
      → AreIn pos cols
      → decode_into_from i schema pos rest cols
        ≡ (decode c schema rest >>= λ row. ok (append_row i schema row pos cols))
  unfolding decode_into_from decode append_row
  decode_into_from-decode i [] pos rest cols bytes quiet places = refl
  decode_into_from-decode i (t ∷ schema) pos rest cols bytes quiet places =
      decode_into_step i t schema pos cols (decode_field c t rest) (cell t rest)
        (cell-Agrees t rest bytes quiet.0) places quiet.1
        (λ r cs b q p. decode_into_from-decode (i + 1) schema pos r cs b q p)
      ∙ collect_row i t schema pos cols (decode_field c t rest)

  -- On bytes, for a projection to fields of the schema and at least as many columns, DecodeInto
  -- throws what Decode throws, and if neither does it adds each decoded value to the column of the
  -- last mention of the value's field in the projection, if it is mentioned; no float field has
  -- the bits of a signalling NaN, which the value of a row does not keep.
  pub decode_into-decode :
      (schema : Schema) (projection bytes : List ℕ) (cols : List Column)
      → All IsByte bytes
      → All (λ i. i < length schema) projection
      → length projection ≤ length cols
      → IsQuiet schema bytes
      → decode_into schema bytes projection cols ≡ (
          decode c schema bytes >>= λ row.
          ok (append_row 0 schema row (λ i. place 0 i projection) cols))
  unfolding decode_into
  decode_into-decode schema projection bytes cols valid known room quiet =
      rw (out_positions-place (length schema) 0 projection known) (
        decode_into_from-decode 0 schema (λ i. place 0 i projection) bytes cols valid quiet
          (λ i k e. omega (arith, place-lt 0 i k projection e, room)))
