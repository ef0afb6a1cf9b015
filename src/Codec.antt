-- ===== src/Codec.antt =====
-- src/Common/Codec.h, src/Common/Slice.h and src/Common/EncodedKey.h: keys as eight bytes whose order
-- is that of the values. A byte is a number below 256, a word its bit pattern; a shift to the right
-- by 8 is `/ 256`, and the mask 0xFF is `% 256`.
pub mod Bytes
pub mod Order
use Prim.Native.Nat.{compare, Ordering}
use dbplayground.Base.{
  ℕ, zero, suc, ◌+◌, ◌-◌, ◌/◌, ◌%◌, ◌^◌, ◌<◌, ◌≡◌, List, [], ◌∷◌, Bool, true, false, length, All,
  ltb, ◌==◌, ◌&&◌, if◌then◌else◌, take,
}
use dbplayground.Base.Int.{ℤ, pos, negsuc}

abbrev pub IsByte : ℕ → Type 0
IsByte b = b < 256

abbrev pub key_len : ℕ
key_len = 8

-- `memcmp` over `n` bytes, by its sign. Bytes past the end are not read.
unfoldable pub memcmp : ℕ → List ℕ → List ℕ → Ordering
memcmp zero xs ys = Ordering.eq
memcmp (suc n) [] ys = Ordering.eq
memcmp (suc n) (x ∷ xs) [] = Ordering.eq
memcmp (suc n) (x ∷ xs) (y ∷ ys) = elim (compare x y) [
  | Ordering.lt ↦ Ordering.lt
  | Ordering.eq ↦ memcmp n xs ys
  | Ordering.gt ↦ Ordering.gt
]

abbrev pub is_lt : Ordering → Bool
is_lt Ordering.lt = true
is_lt Ordering.eq = false
is_lt Ordering.gt = false

abbrev pub is_eq : Ordering → Bool
is_eq Ordering.lt = false
is_eq Ordering.eq = true
is_eq Ordering.gt = false

-- `Slice::compare`: the shorter one first where one begins the other.
unfoldable pub slice_compare : List ℕ → List ℕ → Ordering
unfolding memcmp
slice_compare a b =
    let min_len = if ltb (length a) (length b) then length a else length b in
    let r = memcmp min_len a b in if is_eq r then compare (length a) (length b) else r

-- `operator==` of two slices.
unfoldable pub slice_eq : List ℕ → List ℕ → Bool
unfolding memcmp
slice_eq x y = length x == length y && is_eq (memcmp (length x) x y)

-- for (i = n - 1; i >= 0; i--) { dst[i] = v & 0xFF; v >>= 8; }
unfoldable pub put_big_endian : ℕ → ℕ → List ℕ → List ℕ
put_big_endian zero v rest = rest
put_big_endian (suc n) v rest = put_big_endian n (v / 256) (v % 256 ∷ rest)

unfoldable pub put_big_endian64 : ℕ → List ℕ
unfolding put_big_endian
put_big_endian64 v = put_big_endian 8 v []

-- The bit pattern of an int64.
abbrev pub pattern64 : ℤ → ℕ
pattern64 (pos n) = n
pattern64 (negsuc n) = 2 ^ 64 - 1 - n

-- The exclusive or with 1 << 63.
abbrev pub flip_sign : ℕ → ℕ
flip_sign u = if ltb u (2 ^ 63) then u + 2 ^ 63 else u - 2 ^ 63

unfoldable pub encode_int : ℤ → List ℕ
unfolding put_big_endian64
encode_int v = put_big_endian64 (flip_sign (pattern64 v))

-- The bits of the double: all are flipped if it is negative, and the sign bit is set if not.
abbrev pub order_bits : ℕ → ℕ
order_bits bits = if ltb bits (2 ^ 63) then bits + 2 ^ 63 else 2 ^ 64 - 1 - bits

unfoldable pub encode_double : ℕ → List ℕ
unfolding put_big_endian64
encode_double bits = put_big_endian64 (order_bits bits)

abbrev pub bool_int : Bool → ℤ
bool_int true = pos 1
bool_int false = pos 0

-- `KeyEncoder<bool>`.
unfoldable pub encode_bool : Bool → List ℕ
unfolding encode_int
encode_bool b = encode_int (bool_int b)
