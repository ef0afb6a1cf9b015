-- ===== src/PlainCodec/Runs.antt =====
-- Packed values: they are copied, one after the other.
use dbplayground.Base.{
  ℕ, zero, suc, ◌+◌, ◌-◌, ◌*◌, ◌≤◌, ◌≡◌, refl, sym, ◌∙◌, ap, List, [], ◌∷◌, ◌++◌, append_assoc,
  append-nil, length, take, drop, take-append-drop, false, ltb, arith,
}
use dbplayground.Base.Result.{ok}
use dbplayground.Column
use dbplayground.Column.{Column, append, append_bytes, get, get_bytes}
use dbplayground.PlainCodec.{encode_fixed, append_runs, decode_fixed}
use dbplayground.Value.{fixed_width}

-- The column has its values packed.
pub record HoldsFixed (c : Column) : Type 0 where
  pub width : length c.fixed ≡ c.size * fixed_width c.type
  pub no_offsets : c.offsets ≡ 0 ∷ []
  pub no_bytes : c.var_bytes ≡ []

length-drop : (n : ℕ) (xs : List ℕ) → length (drop n xs) ≡ length xs - n
length-drop zero xs = omega arith
length-drop (suc n) [] = omega arith
length-drop (suc n) (x ∷ xs) = length-drop n xs ∙ omega arith

drop-nil : (n : ℕ) → drop {A = ℕ} n [] ≡ []
drop-nil zero = refl
drop-nil (suc n) = refl

drop-drop : (m n : ℕ) (xs : List ℕ) → drop m (drop n xs) ≡ drop (n + m) xs
drop-drop m zero xs = ap (λ k. drop k xs) (omega arith)
drop-drop m (suc n) [] = drop-nil m ∙ sym (drop-nil (suc n + m))
drop-drop m (suc n) (x ∷ xs) =
    drop-drop m n xs
    ∙ ap (λ k. drop k (x ∷ xs)) (let e : suc (n + m) ≡ suc n + m = omega arith in e)

drop-all : (n : ℕ) (xs : List ℕ) → length xs ≤ n → drop n xs ≡ []
drop-all zero [] h = refl
drop-all zero (x ∷ xs) h = absurd (omega arith)
drop-all (suc n) [] h = refl
drop-all (suc n) (x ∷ xs) h = drop-all n xs (omega arith)

add_mul : (i n w : ℕ) → (i + suc n) * w ≡ (i + 1 + n) * w
add_mul i n w = ap (λ k. k * w) (omega arith)

-- What is left of `suc n` values behind the first one.
rest_size : (w n size : ℕ) → size ≡ suc n * w → size - w ≡ n * w
rest_size w n size e = omega (arith, e)

encode_fixed-drop :
    (w n i : ℕ) (c : Column)
    → length c.fixed ≡ (i + n) * w
    → encode_fixed w n i c ≡ drop (i * w) c.fixed
unfolding encode_fixed get
encode_fixed-drop w zero i c e =
    let whole : (i + 0) * w ≡ i * w = ap (λ k. k * w) (omega arith) in
    sym (drop-all (i * w) c.fixed (omega (arith, e, whole)))
encode_fixed-drop w (suc n) i c e =
    let step : i * w + w ≡ (i + 1) * w = omega arith in
    ap (λ l. take w (drop (i * w) c.fixed) ++ l)
      (encode_fixed-drop w n (i + 1) c (e ∙ add_mul i n w)
        ∙ sym (drop-drop w (i * w) c.fixed ∙ ap (λ k. drop k c.fixed) step))
    ∙ take-append-drop w (drop (i * w) c.fixed)

-- The column after the packed values were appended.
abbrev packed : ℕ → List ℕ → Column → Column
packed n bytes out = record out { fixed = out.fixed ++ bytes; size = out.size + n }

append_runs-all :
    (w n : ℕ) (bytes : List ℕ) (out : Column)
    → length bytes ≡ n * w
    → append_runs w n bytes out ≡ packed n bytes out
unfolding append_runs append
append_runs-all w zero [] out e =
    let same : out.size + 0 ≡ out.size = omega arith in
    λ i. record {
      type = out.type;
      size = sym same i;
      fixed = sym (append-nil out.fixed) i;
      offsets = out.offsets;
      var_bytes = out.var_bytes;
    }
append_runs-all w zero (b ∷ bytes) out e = absurd (omega (arith, e))
append_runs-all w (suc n) bytes out e =
    let sizes : out.size + 1 + n ≡ out.size + suc n = omega arith in
    let all =
      append_assoc out.fixed (take w bytes) (drop w bytes)
      ∙ ap (λ l. out.fixed ++ l) (take-append-drop w bytes) in
    append_runs-all w n (drop w bytes) (append (take w bytes) out)
      (length-drop w bytes ∙ rest_size w n (length bytes) e)
    ∙ (λ i. record {
      type = out.type;
      size = sizes i;
      fixed = all i;
      offsets = out.offsets;
      var_bytes = out.var_bytes;
    })

drop-zero : (w : ℕ) (xs : List ℕ) → drop (0 * w) xs ≡ xs
drop-zero w xs = let none : 0 * w ≡ 0 = omega arith in ap (λ k. drop k xs) none

pub encode_fixed-decode :
    (w : ℕ) (c : Column)
    → length c.fixed ≡ c.size * w
    → c.offsets ≡ 0 ∷ []
    → c.var_bytes ≡ []
    → decode_fixed w c.size (encode_fixed w c.size 0 c) (Column.init c.type) ≡ ok c
unfolding decode_fixed Column.init
encode_fixed-decode w c width offsets bytes =
    let size : 0 + c.size ≡ c.size = omega arith in
    let all : encode_fixed w c.size 0 c ≡ c.fixed =
      encode_fixed-drop w c.size 0 c (width ∙ ap (λ k. k * w) (sym size)) ∙ drop-zero w c.fixed in
    let enough : ltb (length c.fixed) (c.size * w) ≡ false = ground (arith, width) in
    rw (all, enough)
      (ap ok (
        append_runs-all w c.size c.fixed (Column.init c.type) width ∙ (λ i. record {
          type = c.type;
          size = size i;
          fixed = c.fixed;
          offsets = sym offsets i;
          var_bytes = sym bytes i;
        })))
