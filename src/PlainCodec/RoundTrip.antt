-- ===== src/PlainCodec/RoundTrip.antt =====
-- A column is decoded from what it was encoded to.
use dbplayground.Base.{
  ℕ, ◌*◌, ◌≡◌, ◌≢◌, ◌⊎◌, inl, inr, refl, sym, ◌∙◌, ap, List, true, false, arith,
}
use dbplayground.Base.Result.{ok, ◌>>=◌}
use dbplayground.Column
use dbplayground.Column.{Column, append, append_bytes, get, get_bytes}
use dbplayground.PlainCodec.{
  encode_fixed, encode_var, encode_as, encode, decode_fixed, decode_var, decode_as, decode,
}
use dbplayground.Value.{
  FieldType, fixed_width, is_fixed_width_type, invalid, int32, int64, float, double, bool, string,
  blob,
}
use dbplayground.PlainCodec.Runs.{HoldsFixed, encode_fixed-decode}
use dbplayground.PlainCodec.Strings.{HoldsVar, encode_var-decode}

-- A column as its appends leave it: packed values, or values in turn behind their offsets.
pub data IsStored (c : Column) : Type 0 where
  fixed_values : is_fixed_width_type c.type ≡ true → HoldsFixed c → IsStored c
  var_values :
      (vs : List (List ℕ)) → HoldsVar c vs → (c.type ≡ string) ⊎ (c.type ≡ blob) → IsStored c

true-false : true ≢ false
true-false h = ground (arith, h)

invalid-string : invalid ≢ string
invalid-string h = cc h

invalid-blob : invalid ≢ blob
invalid-blob h = cc h

stored_fixed :
    (t : FieldType) (w : ℕ) (c : Column)
    → c.type ≡ t
    → fixed_width t ≡ w
    → is_fixed_width_type t ≡ true
    → IsStored c
    → decode_fixed w c.size (encode_fixed w c.size 0 c) (Column.init c.type) ≡ ok c
unfolding is_fixed_width_type
stored_fixed t w c e width fixed (fixed_values _ h) =
    encode_fixed-decode w c (h.width ∙ ap (λ k. c.size * k) (ap fixed_width e ∙ width)) h.no_offsets
      h.no_bytes
stored_fixed t w c e width fixed (var_values vs h (inl s)) =
    absurd (true-false (sym fixed ∙ ap is_fixed_width_type (sym e ∙ s)))
stored_fixed t w c e width fixed (var_values vs h (inr b)) =
    absurd (true-false (sym fixed ∙ ap is_fixed_width_type (sym e ∙ b)))

stored_var :
    (t : FieldType) (c : Column)
    → c.type ≡ t
    → is_fixed_width_type t ≡ false
    → IsStored c
    → decode_var c.size (encode_var c.size 0 c) (Column.init c.type) ≡ ok c
stored_var t c e var (fixed_values fixed h) =
    absurd (true-false (sym fixed ∙ ap is_fixed_width_type e ∙ var))
stored_var t c e var (var_values vs h k) = encode_var-decode c vs h

-- The decoder called with the type `t` of the column.
decode_as-encode_as :
    (t : FieldType) (c : Column)
    → c.type ≡ t
    → IsStored c
    → (encode_as c.size t c >>= λ bytes. decode_as c.size t bytes (Column.init c.type)) ≡ ok c
unfolding encode_as decode_as fixed_width is_fixed_width_type
decode_as-encode_as int32 c e h = stored_fixed int32 4 c e refl refl h
decode_as-encode_as int64 c e h = stored_fixed int64 8 c e refl refl h
decode_as-encode_as float c e h = stored_fixed float 4 c e refl refl h
decode_as-encode_as double c e h = stored_fixed double 8 c e refl refl h
decode_as-encode_as bool c e h = stored_fixed bool 1 c e refl refl h
decode_as-encode_as string c e h = stored_var string c e refl h
decode_as-encode_as blob c e h = stored_var blob c e refl h
decode_as-encode_as invalid c e (fixed_values fixed h) =
    absurd (true-false (sym fixed ∙ ap is_fixed_width_type e))
decode_as-encode_as invalid c e (var_values vs h (inl s)) = absurd (invalid-string (sym e ∙ s))
decode_as-encode_as invalid c e (var_values vs h (inr b)) = absurd (invalid-blob (sym e ∙ b))

-- A column that holds packed values of a fixed width, or byte strings of fewer than 2 ^ 32 bytes
-- in all behind the offsets of their ends, is encoded, and from the bytes an empty column of its
-- type is decoded to it.
pub decode-encode :
    (c : Column)
    → IsStored c
    → (encode c >>= λ bytes. decode bytes c.size (Column.init c.type)) ≡ ok c
unfolding encode decode Column.init
decode-encode c h = decode_as-encode_as c.type c refl h
