-- ===== src/Codec/Bytes.antt =====
-- `memcmp` on strings of bytes of one length compares the numbers that they write in base 256.
use Prim.Native.Nat.{compare}
use dbplayground.Base.{
  ℕ, zero, suc, ◌+◌, ◌*◌, ◌^◌, ◌<◌, ◌≡◌, refl, List, [], ◌∷◌, arith, length, All, ap,
}
use dbplayground.Codec.{IsByte, memcmp, put_big_endian64}

-- 256 to the number of bytes.
pub weight : ℕ → ℕ
weight zero = 1
weight (suc n) = 256 * weight n

pub big_endian : List ℕ → ℕ
big_endian [] = 0
big_endian (x ∷ xs) = x * weight (length xs) + big_endian xs

big_endian-lt : (xs : List ℕ) → All IsByte xs → big_endian xs < weight (length xs)
unfolding big_endian weight
big_endian-lt [] v = omega arith
big_endian-lt (x ∷ xs) v = grind (arith, big_endian-lt xs v.1)

lead_less : (x y a b w : ℕ) → x < y → a < w → x * w + a < y * w + b
lead_less x y a b w h k = grind arith

pub memcmp-big_endian :
    (n : ℕ) (xs ys : List ℕ)
    → length xs ≡ n
    → length ys ≡ n
    → All IsByte xs
    → All IsByte ys
    → memcmp n xs ys ≡ compare (big_endian xs) (big_endian ys)
unfolding memcmp big_endian
memcmp-big_endian zero [] [] e f v w = refl
memcmp-big_endian zero (x ∷ xs) ys e f v w = absurd (omega arith)
memcmp-big_endian zero [] (y ∷ ys) e f v w = absurd (omega arith)
memcmp-big_endian (suc n) [] ys e f v w = absurd (omega arith)
memcmp-big_endian (suc n) (x ∷ xs) [] e f v w = absurd (omega arith)
memcmp-big_endian (suc n) (x ∷ xs) (y ∷ ys) e f v w =
    let same : weight (length ys) ≡ weight (length xs) = ap weight (omega arith) in
    ground (
      arith,
      same,
      memcmp-big_endian n xs ys (omega arith) (omega arith) v.1 w.1,
      big_endian-lt xs v.1,
      big_endian-lt ys w.1,
      lead_less x y (big_endian xs) (big_endian ys) (weight (length xs)),
      lead_less y x (big_endian ys) (big_endian xs) (weight (length xs)),
    )

pub big_endian-put : (v : ℕ) → v < 2 ^ 64 → big_endian (put_big_endian64 v) ≡ v
unfolding big_endian weight put_big_endian64
big_endian-put v h = omega arith
