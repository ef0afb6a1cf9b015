-- ===== src/Base/Words.antt =====
-- A word in memory: its bytes, the lowest one first.
use Prim.Native.Nat.{ℕ, zero, suc, ◌+◌, ◌*◌, ◌/◌, ◌%◌, ◌<◌}
use mathlib.Core.List.{List, [], ◌∷◌, ◌++◌}
use mathlib.Core.Path.{◌≡◌, refl, ap}
use native.Mathlib.Omega.{arith}
use dbplayground.Base.Lists.{length, take, drop}

unfoldable pub word_bytes : ℕ → ℕ → List ℕ
word_bytes zero v = []
word_bytes (suc n) v = v % 256 ∷ word_bytes n (v / 256)

unfoldable pub word_value : List ℕ → ℕ
word_value [] = 0
word_value (x ∷ xs) = x + 256 * word_value xs

pub length-word_bytes : (n v : ℕ) → length (word_bytes n v) ≡ n
unfolding word_bytes
length-word_bytes zero v = refl
length-word_bytes (suc n) v = ap suc (length-word_bytes n (v / 256))

-- 256 to the number of bytes.
abbrev pub capacity : ℕ → ℕ
capacity zero = 1
capacity (suc n) = 256 * capacity n

pub word_value-word_bytes : (n v : ℕ) → v < capacity n → word_value (word_bytes n v) ≡ v
unfolding word_bytes word_value
word_value-word_bytes zero v h = omega arith
word_value-word_bytes (suc n) v h = omega (arith, word_value-word_bytes n (v / 256) (omega arith))

pub take_word : (n v : ℕ) (rest : List ℕ) → take n (word_bytes n v ++ rest) ≡ word_bytes n v
unfolding word_bytes
take_word zero v rest = refl
take_word (suc n) v rest = ap (◌∷◌ (v % 256)) (take_word n (v / 256) rest)

pub drop_word : (n v : ℕ) (rest : List ℕ) → drop n (word_bytes n v ++ rest) ≡ rest
unfolding word_bytes
drop_word zero v rest = refl
drop_word (suc n) v rest = drop_word n (v / 256) rest
