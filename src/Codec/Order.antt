-- ===== src/Codec/Order.antt =====
-- The order of the encoded keys is the order of the values.
use Prim.Native.Nat.{compare}
use dbplayground.Base.{
  ℕ, ◌-◌, ◌^◌, ◌<◌, ◌≡◌, refl, List, arith, length, All, ltb, ◌==◌, ap, Bool, ◌&&◌, ◌||◌, ◌∙◌,
  if◌then◌else◌,
}
use dbplayground.Base.Int.{ℤ, pos, negsuc, ltb_ℤ}
use dbplayground.KeyOrder.{KeyOrder}
use dbplayground.Codec.{
  IsByte, memcmp, is_lt, is_eq, key_len, put_big_endian64, pattern64, flip_sign, encode_int,
  encode_double, order_bits,
}
use dbplayground.Codec.Bytes.{big_endian, memcmp-big_endian, big_endian-put}

-- `struct EncodedKey`.
pub record EncodedKey : Type 0 where
  pub bytes : List ℕ
  pub size_is_8 : length bytes ≡ 8
  pub are_bytes : All IsByte bytes

-- `operator<` and `operator==` of the keys.
unfoldable pub less : EncodedKey → EncodedKey → Bool
less a b = is_lt (memcmp key_len a.bytes b.bytes)

unfoldable pub same : EncodedKey → EncodedKey → Bool
same a b = is_eq (memcmp key_len a.bytes b.bytes)

abbrev pub rank : EncodedKey → ℕ
rank k = big_endian k.bytes

memcmp-rank : (a b : EncodedKey) → memcmp key_len a.bytes b.bytes ≡ compare (rank a) (rank b)
memcmp-rank a b =
    memcmp-big_endian 8 a.bytes b.bytes a.size_is_8 b.size_is_8 a.are_bytes b.are_bytes

-- The bytes of a key are compared as the numbers that they write.
pub less-rank : (a b : EncodedKey) → less a b ≡ ltb (rank a) (rank b)
unfolding less
less-rank a b = ap is_lt (memcmp-rank a b) ∙ ground arith

pub same-rank : (a b : EncodedKey) → same a b ≡ (rank a == rank b)
unfolding same
same-rank a b = ap is_eq (memcmp-rank a b) ∙ ground arith

-- The keys of the tree are ordered as its pages want.
abbrev pub encoded_keys : KeyOrder
encoded_keys = record {
  Key = EncodedKey;
  less = less;
  same = same;
  rank = rank;
  less_rank = less-rank;
  same_rank = same-rank;
}

pub put_big_endian64-length : (v : ℕ) → length (put_big_endian64 v) ≡ 8
unfolding put_big_endian64
put_big_endian64-length v = refl

pub put_big_endian64-bytes : (v : ℕ) → All IsByte (put_big_endian64 v)
unfolding put_big_endian64
put_big_endian64-bytes v = omega arith

-- `MakeEncodedKey` of a word that was made order-preserving.
abbrev pub key_of_word : ℕ → EncodedKey
key_of_word v = record {
  bytes = put_big_endian64 v;
  size_is_8 = put_big_endian64-length v;
  are_bytes = put_big_endian64-bytes v;
}

less-key_of_word :
    (a b : ℕ) → a < 2 ^ 64 → b < 2 ^ 64 → less (key_of_word a) (key_of_word b) ≡ ltb a b
less-key_of_word a b h k =
    less-rank (key_of_word a) (key_of_word b)
    ∙ ap (λ x. ltb x (rank (key_of_word b))) (big_endian-put a h)
    ∙ ap (ltb a) (big_endian-put b k)

-- An int64 stands in its range.
abbrev pub IsInt64 : ℤ → Type 0
IsInt64 (pos n) = n < 2 ^ 63
IsInt64 (negsuc n) = n < 2 ^ 63

flipped :
    (v w : ℤ)
    → IsInt64 v
    → IsInt64 w
    → (flip_sign (pattern64 v) < 2 ^ 64)
      × (flip_sign (pattern64 w) < 2 ^ 64)
      × (ltb (flip_sign (pattern64 v)) (flip_sign (pattern64 w)) ≡ ltb_ℤ v w)
flipped (pos n) (pos m) h k = ground arith
flipped (pos n) (negsuc m) h k = ground arith
flipped (negsuc n) (pos m) h k = ground arith
flipped (negsuc n) (negsuc m) h k = ground arith

-- The encodings of two int64 values are compared by their bytes as the values are.
pub encode_int-order :
    (v w : ℤ)
    → IsInt64 v
    → IsInt64 w
    → is_lt (memcmp key_len (encode_int v) (encode_int w)) ≡ ltb_ℤ v w
unfolding encode_int less
encode_int-order v w h k =
    let (a, b, e) = flipped v w h k in
    less-key_of_word (flip_sign (pattern64 v)) (flip_sign (pattern64 w)) a b ∙ e

-- A double that is a number, by its bits: the sign, and the magnitude that the other bits order.
abbrev pub sign_magnitude : ℕ → ℤ
sign_magnitude b =
    if ltb b (2 ^ 63) then pos b else if b == 2 ^ 63 then pos 0 else negsuc (b - 2 ^ 63 - 1)

ordered :
    (a b : ℕ)
    → a < 2 ^ 64
    → b < 2 ^ 64
    → (order_bits a < 2 ^ 64)
      × (order_bits b < 2 ^ 64)
      × (ltb (order_bits a) (order_bits b)
          ≡ (ltb_ℤ (sign_magnitude a) (sign_magnitude b) || (a == 2 ^ 63 && b == 0)))
ordered a b h k = ground arith

-- The encodings of two doubles, given by their bits, are compared by their bytes as sign and
-- magnitude are, but for the two zeros, of which the negative one comes before the positive one.
pub encode_double-order :
    (a b : ℕ)
    → a < 2 ^ 64
    → b < 2 ^ 64
    → is_lt (memcmp key_len (encode_double a) (encode_double b))
      ≡ (ltb_ℤ (sign_magnitude a) (sign_magnitude b) || (a == 2 ^ 63 && b == 0))
unfolding encode_double less
encode_double-order a b h k =
    let (x, y, e) = ordered a b h k in less-key_of_word (order_bits a) (order_bits b) x y ∙ e

-- Keys that are equal by `operator==` have the same bytes' number, and words give equal keys only
-- if they are equal.
pub same-key_of_word :
    (a b : ℕ) → a < 2 ^ 64 → b < 2 ^ 64 → same (key_of_word a) (key_of_word b) ≡ (a == b)
same-key_of_word a b h k =
    same-rank (key_of_word a) (key_of_word b)
    ∙ ap (λ x. x == rank (key_of_word b)) (big_endian-put a h)
    ∙ ap (λ x. a == x) (big_endian-put b k)
