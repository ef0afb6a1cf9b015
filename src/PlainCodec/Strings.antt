-- ===== src/PlainCodec/Strings.antt =====
-- Values of variable length: what they are encoded to, and what that is decoded to.
use dbplayground.Base.{
  ℕ, suc, ◌+◌, ◌-◌, ◌%◌, ◌^◌, ◌<◌, ◌≡◌, refl, sym, ◌∙◌, ap, subst, List, [], ◌∷◌, ◌++◌,
  append_assoc, append-nil, length, take, drop, get_or, length-append, take-append, drop-append,
  false, ltb, word_bytes, word_value, length-word_bytes, word_value-word_bytes, arith,
}
use dbplayground.Base.Result.{ok}
use dbplayground.Column
use dbplayground.Column.{Column, append, append_bytes, get, get_bytes}
use dbplayground.PlainCodec.{encode_var, decode_var}

-- All values one after the other.
abbrev pub concat : List (List ℕ) → List ℕ
concat [] = []
concat (v ∷ vs) = v ++ concat vs

-- The ends of the values, from `k` on.
abbrev pub ends : ℕ → List (List ℕ) → List ℕ
ends k [] = []
ends k (v ∷ vs) = (k + length v) ∷ ends (k + length v) vs

-- The column has these values of variable length.
pub record HoldsVar (c : Column) (vs : List (List ℕ)) : Type 0 where
  pub sizes : c.size ≡ length vs
  pub no_fixed : c.fixed ≡ []
  pub offsets : c.offsets ≡ 0 ∷ ends 0 vs
  pub bytes : c.var_bytes ≡ concat vs
  pub short : length (concat vs) < 2 ^ 32

-- What the values are encoded to.
abbrev payload : List (List ℕ) → List ℕ
payload [] = []
payload (v ∷ vs) = word_bytes 4 (length v) ++ (v ++ payload vs)

get_or-append : (xs : List ℕ) (y : ℕ) (ys : List ℕ) → get_or (xs ++ (y ∷ ys)) (length xs) 0 ≡ y
get_or-append [] y ys = refl
get_or-append (x ∷ xs) y ys = get_or-append xs y ys

-- The value `v`, behind the bytes `before`, whose ends are `pre` and `length before`.
get_bytes-at :
    (c : Column) (pre later before v rest : List ℕ)
    → c.offsets ≡ pre ++ (length before ∷ (length before + length v) ∷ later)
    → c.var_bytes ≡ before ++ (v ++ rest)
    → get_bytes (length pre) c ≡ v
unfolding get_bytes
get_bytes-at c pre later before v rest offsets bytes =
    let start : get_or c.offsets (length pre) 0 ≡ length before =
      rw offsets (get_or-append pre (length before) _) in
    let next : length (pre ++ (length before ∷ [])) ≡ length pre + 1 =
      length-append pre (length before ∷ []) in
    let end : get_or c.offsets (length pre + 1) 0 ≡ length before + length v =
      rw
        (
          offsets,
          sym next,
          sym (append_assoc pre (length before ∷ []) ((length before + length v) ∷ later)),
        )
        (get_or-append (pre ++ (length before ∷ [])) (length before + length v) later) in
    let n : length before + length v - length before ≡ length v = omega arith in
    rw (start, end, bytes, n, drop-append before (v ++ rest)) (take-append v rest)

encode_var-payload :
    (c : Column) (vs : List (List ℕ)) (pre before : List ℕ)
    → c.offsets ≡ pre ++ (length before ∷ ends (length before) vs)
    → c.var_bytes ≡ before ++ concat vs
    → length before + length (concat vs) < 2 ^ 32
    → encode_var (length vs) (length pre) c ≡ payload vs
unfolding encode_var
encode_var-payload c [] pre before offsets bytes short = refl
encode_var-payload c (v ∷ vs) pre before offsets bytes short =
    let value =
      get_bytes-at c pre (ends (length before + length v) vs) before v (concat vs) offsets bytes in
    let whole = length-append v (concat vs) in
    let small : length v % 2 ^ 32 ≡ length v = omega (arith, whole, short) in
    let at : length (pre ++ (length before ∷ [])) ≡ length pre + 1 =
      length-append pre (length before ∷ []) in
    let longer = length-append before v in
    let rest =
      encode_var-payload c vs (pre ++ (length before ∷ [])) (before ++ v)
        (rw
          (
            longer,
            append_assoc pre (length before ∷ [])
                ((length before + length v) ∷ ends (length before + length v) vs),
          )
          offsets)
        (rw (append_assoc before v (concat vs)) bytes) (omega (arith, whole, longer, short)) in
    rw (value, small) (ap (λ l. word_bytes 4 (length v) ++ (v ++ l)) (rw at at rest))

-- The column after the values were appended.
abbrev filled : List (List ℕ) → Column → Column
filled vs out = record {
  type = out.type;
  size = out.size + length vs;
  fixed = out.fixed;
  offsets = out.offsets ++ ends (length out.var_bytes) vs;
  var_bytes = out.var_bytes ++ concat vs;
}

appended_short :
    (v : List ℕ) (vs : List (List ℕ)) (out : Column)
    → length out.var_bytes + length (v ++ concat vs) < 2 ^ 32
    → length (append_bytes v out).var_bytes + length (concat vs) < 2 ^ 32
unfolding append_bytes
appended_short v vs out short =
    omega (arith, length-append v (concat vs), length-append out.var_bytes v, short)

filled_cons :
    (v : List ℕ) (vs : List (List ℕ)) (out : Column)
    → length out.var_bytes + length (v ++ concat vs) < 2 ^ 32
    → filled vs (append_bytes v out) ≡ filled (v ∷ vs) out
unfolding append_bytes
filled_cons v vs out short =
    let longer = length-append out.var_bytes v in
    let small : length (out.var_bytes ++ v) % 2 ^ 32 ≡ length out.var_bytes + length v =
      omega (arith, longer, length-append v (concat vs), short) in
    let sizes : out.size + 1 + length vs ≡ out.size + suc (length vs) = omega arith in
    let offsets : (out.offsets ++ (length (out.var_bytes ++ v) % 2 ^ 32 ∷ []))
          ++ ends (length (out.var_bytes ++ v)) vs
        ≡ out.offsets
          ++ ((length out.var_bytes + length v) ∷ ends (length out.var_bytes + length v) vs) =
      rw
        (
          small,
          longer,
          append_assoc out.offsets ((length out.var_bytes + length v) ∷ [])
              (ends (length out.var_bytes + length v) vs),
        )
        refl in
    λ i. record {
      type = out.type;
      size = sizes i;
      fixed = out.fixed;
      offsets = offsets i;
      var_bytes = append_assoc out.var_bytes v (concat vs) i;
    }

decode_var-payload :
    (vs : List (List ℕ)) (out : Column)
    → length out.var_bytes + length (concat vs) < 2 ^ 32
    → decode_var (length vs) (payload vs) out ≡ ok (filled vs out)
unfolding decode_var
decode_var-payload [] out short =
    let same : out.size + 0 ≡ out.size = omega arith in
    ap ok (λ i. record {
      type = out.type;
      size = sym same i;
      fixed = out.fixed;
      offsets = sym (append-nil out.offsets) i;
      var_bytes = sym (append-nil out.var_bytes) i;
    })
decode_var-payload (v ∷ vs) out short =
    let w = word_bytes 4 (length v) in
    let rest = v ++ payload vs in
    let four : length w ≡ 4 = length-word_bytes 4 (length v) in
    let whole = length-append v (concat vs) in
    let header : ltb (length (w ++ rest)) 4 ≡ false = ground (arith, length-append w rest, four) in
    let len : word_value (take 4 (w ++ rest)) ≡ length v =
      ap word_value (subst (λ n. take n (w ++ rest) ≡ w) four (take-append w rest))
      ∙ word_value-word_bytes 4 (length v) (omega (arith, whole, short)) in
    let after : drop 4 (w ++ rest) ≡ rest =
      subst (λ n. drop n (w ++ rest) ≡ rest) four (drop-append w rest) in
    let body : ltb (length rest) (length v) ≡ false =
      ground (arith, length-append v (payload vs)) in
    let longer = length-append out.var_bytes v in
    rw (header, len, after, body, take-append v (payload vs), drop-append v (payload vs))
      (decode_var-payload vs (append_bytes v out) (appended_short v vs out short)
        ∙ ap ok (filled_cons v vs out short))

pub encode_var-decode :
    (c : Column) (vs : List (List ℕ))
    → HoldsVar c vs
    → decode_var c.size (encode_var c.size 0 c) (Column.init c.type) ≡ ok c
unfolding Column.init
encode_var-decode c vs h =
    let short : 0 + length (concat vs) < 2 ^ 32 = omega (arith, h.short) in
    let size : 0 + length vs ≡ length vs = omega arith in
    let all : encode_var (length vs) 0 c ≡ payload vs =
      encode_var-payload c vs [] [] h.offsets h.bytes short in
    subst (λ n. decode_var n (encode_var n 0 c) (Column.init c.type) ≡ ok c) (sym h.sizes)
      (rw all (
        decode_var-payload vs (Column.init c.type) short
        ∙ ap ok (λ i. record {
          type = c.type;
          size = (size ∙ sym h.sizes) i;
          fixed = sym h.no_fixed i;
          offsets = sym h.offsets i;
          var_bytes = sym h.bytes i;
        })))
