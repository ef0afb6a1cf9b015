-- ===== src/Value.antt =====
-- src/Common/Type.h, src/Table/Schema.h and src/Table/Value.h: the types of a table's fields, and one
-- cell. An int64 and a double are their bit patterns. The casts between float and double are the
-- compiler's: a parameter, with what IEEE 754 says of a float that is widened and narrowed. It comes
-- back as it was, but for a signalling NaN, which comes back quiet.
use dbplayground.Base.{
  ℕ, ◌+◌, ◌-◌, ◌*◌, ◌%◌, ◌^◌, ◌<◌, ◌≡◌, List, [], Bool, true, false, ltb, ◌==◌, not, if◌then◌else◌,
}

pub data FieldType : Type 0 where
  invalid int32 int64 float double bool string blob : FieldType

unfoldable pub is_fixed_width_type : FieldType → Bool
is_fixed_width_type int32 = true
is_fixed_width_type int64 = true
is_fixed_width_type float = true
is_fixed_width_type double = true
is_fixed_width_type bool = true
is_fixed_width_type _ = false

-- The bytes of a value of the type, 0 for the types of variable length.
unfoldable pub fixed_width : FieldType → ℕ
fixed_width int32 = 4
fixed_width int64 = 8
fixed_width float = 4
fixed_width double = 8
fixed_width bool = 1
fixed_width _ = 0

-- A field's name is of no use to the codecs.
abbrev pub Schema : Type 0
Schema = List FieldType

pub record Value : Type 0 where
  pub type : FieldType
  pub int_val : ℕ
  pub dbl_val : ℕ
  pub bytes_val : List ℕ

-- The bits of a float are those of a NaN without its quiet bit.
abbrev pub is_signalling : ℕ → Bool
is_signalling x = if ltb (255 * 2 ^ 23) (x % 2 ^ 31) then ltb (x % 2 ^ 31) (511 * 2 ^ 22) else false

pub record FloatCasts : Type 0 where
  pub widen : ℕ → ℕ
  pub narrow : ℕ → ℕ
  pub is_float : (x : ℕ) → x < 2 ^ 32 → narrow (widen x) < 2 ^ 32
  pub widen-narrow : (x : ℕ) → x < 2 ^ 32 → widen (narrow (widen x)) ≡ widen x
  pub narrow-widen : (x : ℕ) → x < 2 ^ 32 → is_signalling x ≡ false → narrow (widen x) ≡ x

-- The sign of an int32 is carried over to the int64.
abbrev pub sign_extend : ℕ → ℕ
sign_extend v = if ltb v (2 ^ 31) then v else v + (2 ^ 64 - 2 ^ 32)

abbrev pub of_int32 : ℕ → Value
of_int32 v = record { type = int32; int_val = sign_extend v; dbl_val = 0; bytes_val = [] }

abbrev pub of_int64 : ℕ → Value
of_int64 v = record { type = int64; int_val = v; dbl_val = 0; bytes_val = [] }

abbrev pub of_bool : Bool → Value
of_bool b = record { type = bool; int_val = if b then 1 else 0; dbl_val = 0; bytes_val = [] }

abbrev pub of_double : ℕ → Value
of_double v = record { type = double; int_val = 0; dbl_val = v; bytes_val = [] }

abbrev pub of_float : FloatCasts → ℕ → Value
of_float c v = record { type = float; int_val = 0; dbl_val = c.widen v; bytes_val = [] }

abbrev pub of_string : List ℕ → Value
of_string v = record { type = string; int_val = 0; dbl_val = 0; bytes_val = v }

abbrev pub as_int32 : Value → ℕ
as_int32 v = v.int_val % 2 ^ 32

abbrev pub as_bool : Value → Bool
as_bool v = not (v.int_val == 0)

abbrev pub as_float : FloatCasts → Value → ℕ
as_float c v = c.narrow v.dbl_val
