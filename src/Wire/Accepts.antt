-- ===== src/Wire/Accepts.antt =====
-- The bytes that a reader of the protocol takes are those that the writer writes for what was read.
use dbplayground.Base.{
  ℕ, zero, suc, ◌+◌, ◌-◌, ◌*◌, ◌/◌, ◌%◌, ◌^◌, ◌<◌, ◌≡◌, refl, ap, ◌∙◌, sym, subst, List, [], ◌∷◌,
  ◌++◌, append_assoc, append-nil, Bool, true, false, All, capacity, length, take, drop,
  take-append-drop, length-take_le, ltb, ◌==◌, word_bytes, arith, Bool-cases, inl, inr,
}
use dbplayground.Base.Result
use dbplayground.Base.Result.{Result, ok, err, Ensures, returned, thrown, Ensures-bind, Ensures-imp}
use dbplayground.Codec.{IsByte}
use dbplayground.Wire.{
  Reader, ◌>>=◌, pure, check, put_string, put_all, put_list, put_strings, put_header, get_raw,
  get_u8, get_word, bytes_eq, get_magic, get_string, get_times, get_list, get_counted, get_strings,
  get_header, at_end,
}

-- `p` is a value and what is left of the bytes: what was taken is as `W` says.
pub record Takes {ℓ} {A : Type ℓ} (W : A → List ℕ → Type 0) (bytes : List ℕ) (p : A × List ℕ)
    : Type 0 where
  pub out : List ℕ
  pub wrote : W p.0 out
  pub split : bytes ≡ out ++ p.1
  pub left : All IsByte p.1

pub record Accepts {ℓ} {A : Type ℓ} (W : A → List ℕ → Type 0) (r : Reader A) : Type ℓ where
  pub accept : (bytes : List ℕ) → All IsByte bytes → Ensures (Takes W bytes) (r bytes)

>>=-Ensures {ℓ κ} :
    {A : Type ℓ} {B : Type κ} (r : Reader A) (next : A → Reader B) (bytes : List ℕ)
    {P : A × List ℕ → Type 0} {Q : B × List ℕ → Type 0}
    → Ensures P (r bytes)
    → ((p : A × List ℕ) → P p → Ensures Q (next p.0 p.1))
    → Ensures Q ((r >>= next) bytes)
unfolding ◌>>=◌
>>=-Ensures r next bytes m step = Ensures-bind m step

pub Accepts-bind {ℓ κ} :
    {A : Type ℓ} {B : Type κ} {r : Reader A} (next : A → Reader B) {W : A → List ℕ → Type 0}
    {V : B → List ℕ → Type 0}
    → Accepts W r
    → ((a : A) (x : List ℕ) → W a x → Accepts (λ b y. V b (x ++ y)) (next a))
    → Accepts V (r >>= next)
Accepts-bind {r} next first later = record {
  accept = λ bytes valid. >>=-Ensures r next bytes (first.accept bytes valid) λ p t.
      Ensures-imp
        (λ q u. record {
          out = t.out ++ u.out;
          wrote = u.wrote;
          split = t.split ∙ ap (λ l. t.out ++ l) u.split ∙ sym (append_assoc t.out u.out q.1);
          left = u.left;
        })
        ((later p.0 t.out t.wrote).accept p.1 t.left);
}

pub Accepts-pure {ℓ} : {A : Type ℓ} {W : A → List ℕ → Type 0} (a : A) → W a [] → Accepts W (pure a)
unfolding pure
Accepts-pure a w = record {
  accept = λ bytes valid. returned (record { out = []; wrote = w; split = refl; left = valid });
}

pub Accepts-imp {ℓ} :
    {A : Type ℓ} {W V : A → List ℕ → Type 0} {r : Reader A}
    → ((a : A) (x : List ℕ) → W a x → V a x)
    → Accepts W r
    → Accepts V r
Accepts-imp imp acc = record {
  accept = λ bytes valid.
      Ensures-imp
        (λ p t. record {
          out = t.out;
          wrote = imp p.0 t.out t.wrote;
          split = t.split;
          left = t.left;
        })
        (acc.accept bytes valid);
}

pub Accepts-check : (t : Bool) → Accepts (λ u x. (t ≡ true) × (x ≡ [])) (check t)
unfolding check
Accepts-check true = record {
  accept = λ bytes valid.
      returned (record { out = []; wrote = (refl, refl); split = refl; left = valid });
}
Accepts-check false = record { accept = λ bytes valid. thrown }

All-drop : (n : ℕ) (xs : List ℕ) → All IsByte xs → All IsByte (drop n xs)
All-drop zero xs v = v
All-drop (suc n) [] v = tt
All-drop (suc n) (x ∷ xs) v = All-drop n xs v.1

pub Accepts-raw : (n : ℕ) → Accepts (λ s x. (x ≡ s) × (length s ≡ n)) (get_raw n)
unfolding get_raw
Accepts-raw n = record {
  accept = λ bytes valid. elim (Bool-cases (ltb (length bytes) n)) [
    | inl short ↦ rw short thrown
    | inr enough ↦ rw enough (
        returned (record {
          out = take n bytes;
          wrote = (refl, length-take_le n bytes (ground arith));
          split = sym (take-append-drop n bytes);
          left = All-drop n bytes valid;
        }))
  ];
}

Accepts-u8 : Accepts (λ v x. (x ≡ v ∷ []) × (v < 256)) get_u8
unfolding get_u8
Accepts-u8 = record { accept = λ bytes. byte bytes }
  where
    byte :
        (bytes : List ℕ)
        → All IsByte bytes
        → Ensures (Takes (λ v x. (x ≡ v ∷ []) × (v < 256)) bytes) (get_u8 bytes)
    byte [] valid = thrown
    byte (b ∷ bytes) valid =
        returned (record { out = b ∷ []; wrote = (refl, valid.0); split = refl; left = valid.1 })

pub Accepts-word : (n : ℕ) → Accepts (λ v x. (x ≡ word_bytes n v) × (v < capacity n)) (get_word n)
unfolding get_word word_bytes
Accepts-word zero = Accepts-pure 0 (refl, omega arith)
Accepts-word (suc n) = Accepts-bind _ Accepts-u8 λ b x w. Accepts-bind _ (Accepts-word n) λ v y u.
    let low : (b + 256 * v) % 256 ≡ b = omega (arith, w.1) in
    let high : (b + 256 * v) / 256 ≡ v = omega (arith, w.1) in
    Accepts-pure (b + 256 * v) (rw (w.0, u.0, append-nil, low, high) refl, omega (arith, w.1, u.1))

bytes_eq-eq : (xs ys : List ℕ) → bytes_eq xs ys ≡ true → xs ≡ ys
unfolding bytes_eq
bytes_eq-eq [] [] h = refl
bytes_eq-eq [] (y ∷ ys) h = cc
bytes_eq-eq (x ∷ xs) [] h = cc
bytes_eq-eq (x ∷ xs) (y ∷ ys) h = ground (arith, bytes_eq-eq xs ys)

Accepts-magic : (magic : List ℕ) → Accepts (λ u x. x ≡ magic) (get_magic magic)
unfolding get_magic
Accepts-magic magic = Accepts-bind _ (Accepts-raw 4) λ s x w.
    Accepts-imp (λ u y c. rw (w.0, c.1, append-nil) (bytes_eq-eq s magic c.0))
      (Accepts-check (bytes_eq s magic))

pub Accepts-header : (magic : List ℕ) → Accepts (λ u x. x ≡ put_header magic) (get_header magic)
unfolding get_header put_header
Accepts-header magic = Accepts-bind _ (Accepts-magic magic) λ u x w.
    Accepts-bind _ (Accepts-word 4) λ v y e.
      Accepts-imp
        (λ t z c. let two : v ≡ 2 = ground (arith, c.0) in rw (w, e.0, c.1, append-nil, two) refl)
        (Accepts-check (v == 2))

pub Accepts-string : Accepts (λ s x. put_string s ≡ ok x) get_string
unfolding get_string put_string
Accepts-string = Accepts-bind _ (Accepts-word 4) λ n x w.
    Accepts-imp
      (λ s y e.
        let short : ltb (2 ^ 32 - 1) (length s) ≡ false = ground (arith, e.1, w.1) in
        rw (short, w.0, e.0, e.1) refl)
      (Accepts-raw n)

module _ {ℓ} {A : Type ℓ} (put : A → Result (List ℕ)) (get : Reader A)
    (each : Accepts (λ a x. put a ≡ ok x) get) where
  pub Accepts-times :
      (n : ℕ) → Accepts (λ xs x. (put_all put xs ≡ ok x) × (length xs ≡ n)) (get_times n get)
  unfolding get_times put_all
  Accepts-times zero = Accepts-pure [] (refl, refl)
  Accepts-times (suc n) = Accepts-bind _ each λ a x w.
      Accepts-bind _ (Accepts-times n)
        λ more y u. Accepts-pure (a ∷ more) (rw (w, u.0, append-nil) refl, ap suc u.1)

  Accepts-counted :
      (least n : ℕ)
      → Accepts (λ xs x. (put_all put xs ≡ ok x) × (length xs ≡ n)) (get_counted least get n)
  unfolding get_counted
  Accepts-counted least n = record {
    accept = λ bytes valid. elim (Bool-cases (ltb (length bytes / least) n)) [
      | inl many ↦ rw many thrown
      | inr few ↦ rw few ((Accepts-times n).accept bytes valid)
    ];
  }

  pub Accepts-list : (least : ℕ) → Accepts (λ xs x. put_list put xs ≡ ok x) (get_list least get)
  unfolding get_list put_list
  Accepts-list least = Accepts-bind _ (Accepts-word 4) λ n x w.
      Accepts-imp
        (λ xs y e.
          let short : ltb (2 ^ 32 - 1) (length xs) ≡ false = ground (arith, e.1, w.1) in
          rw (short, e.0, w.0, e.1) refl)
        (Accepts-counted least n)

pub Accepts-strings : Accepts (λ xs x. put_strings xs ≡ ok x) get_strings
unfolding get_strings put_strings
Accepts-strings = Accepts-list put_string get_string Accepts-string 4

-- A whole object: what `End` lets pass was written in full.
at_end-Ensures {ℓ} :
    {A : Type ℓ} {W : A → List ℕ → Type 0} (bytes : List ℕ) (p : A × List ℕ)
    → Takes W bytes p
    → Ensures (λ a. W a bytes) (at_end p)
unfolding at_end
at_end-Ensures {W} bytes (a, []) t =
    returned (subst (W a) (sym (t.split ∙ append-nil t.out)) t.wrote)
at_end-Ensures bytes (a, x ∷ rest) t = thrown

pub Accepts-end {ℓ} :
    {A : Type ℓ} {W : A → List ℕ → Type 0} {r : Reader A} (bytes : List ℕ)
    → Accepts W r
    → All IsByte bytes
    → Ensures (λ a. W a bytes) (Result.◌>>=◌ (r bytes) at_end)
Accepts-end bytes acc valid = Ensures-bind (acc.accept bytes valid) (at_end-Ensures bytes)
