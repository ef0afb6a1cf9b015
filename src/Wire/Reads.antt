-- ===== src/Wire/Reads.antt =====
-- What a writer of the protocol wrote, the reader takes off again.
use dbplayground.Base.{
  ℕ, zero, suc, ◌-◌, ◌*◌, ◌/◌, ◌^◌, ◌≤◌, ◌<◌, ◌≡◌, refl, ◌∙◌, List, [], ◌∷◌, ◌++◌, append_assoc,
  append-nil, sym, Bool, true, false, All, capacity, length, length-append, take-append,
  drop-append, ltb, word_bytes, length-word_bytes, arith, Bool-cases, inl, inr,
}
use dbplayground.Base.Result
use dbplayground.Base.Result.{Result, ok, err, malformed, ok-injective, >>=-eq-ok}
use dbplayground.Wire.{
  Reader, ◌>>=◌, pure, check, put_string, put_all, put_list, put_header, get_raw, get_u8, get_word,
  bytes_eq, get_magic, get_string, get_times, get_list, get_counted, get_strings, put_strings,
  at_end, get_header,
}

-- The reader takes `a` off bytes that begin with `out`, and leaves what follows.
pub record Reads {ℓ} {A : Type ℓ} (r : Reader A) (out : List ℕ) (a : A) : Type ℓ where
  pub read : (rest : List ℕ) → r (out ++ rest) ≡ ok (a, rest)

pub >>=-read {ℓ κ} :
    {A : Type ℓ} {B : Type κ} (r : Reader A) (next : A → Reader B) {a : A} {bytes rest : List ℕ}
    → r bytes ≡ ok (a, rest)
    → (r >>= next) bytes ≡ next a rest
unfolding ◌>>=◌
>>=-read r next p = rw p refl

pub Reads-bind {ℓ κ} :
    {A : Type ℓ} {B : Type κ} {r : Reader A} (next : A → Reader B) {x y : List ℕ} {a : A} {b : B}
    → Reads r x a
    → Reads (next a) y b
    → Reads (r >>= next) (x ++ y) b
Reads-bind {r} next {x} {y} p q = record {
  read = λ rest. rw append_assoc (>>=-read r next (p.read (y ++ rest)) ∙ q.read rest);
}

pub Reads-pure {ℓ} : {A : Type ℓ} (a : A) → Reads (pure a) [] a
unfolding pure
Reads-pure a = record { read = λ rest. refl }

pub Reads-check : {t : Bool} → t ≡ true → Reads (check t) [] tt
unfolding check
Reads-check {t} e = record { read = λ rest. rw e refl }

pub Reads-raw : (s : List ℕ) (n : ℕ) → n ≡ length s → Reads (get_raw n) s s
unfolding get_raw
Reads-raw s n e = record {
  read =
      λ rest. rw e (ground (arith, length-append s rest, take-append s rest, drop-append s rest));
}

pub Reads-word : (n v : ℕ) → v < capacity n → Reads (get_word n) (word_bytes n v) v
unfolding get_word word_bytes get_u8
Reads-word zero v h = record { read = λ rest. ground arith }
Reads-word (suc n) v h = record {
  read = λ rest. ground (arith, (Reads-word n (v / 256) (omega arith)).read rest);
}

-- The last step of a reader: what was read is put together.
pub Reads-map {ℓ κ} :
    {A : Type ℓ} {B : Type κ} {r : Reader A} (f : A → B) {out : List ℕ} {a : A}
    → Reads r out a
    → Reads (r >>= λ x. pure (f x)) out (f a)
unfolding pure
Reads-map {r} f p = record { read = λ rest. >>=-read r (λ x. pure (f x)) (p.read rest) }

bytes_eq_refl : (s : List ℕ) → bytes_eq s s ≡ true
unfolding bytes_eq
bytes_eq_refl [] = refl
bytes_eq_refl (x ∷ s) = ground (arith, bytes_eq_refl s)

Reads-magic : (magic : List ℕ) → 4 ≡ length magic → Reads (get_magic magic) magic tt
unfolding get_magic
Reads-magic magic e = record {
  read = λ rest. rw ((Reads-raw magic 4 e).read rest, bytes_eq_refl magic) refl;
}

pub Reads-header :
    (magic : List ℕ) → 4 ≡ length magic → Reads (get_header magic) (put_header magic) tt
unfolding get_header put_header
Reads-header magic e = record {
  read = λ rest.
      rw
        (
          append_assoc,
          (Reads-magic magic e).read (word_bytes 4 2 ++ rest),
          (Reads-word 4 2 (omega arith)).read rest,
        )
        refl;
}

-- What `put_string` returned.
put_string-ok :
    (s : List ℕ) {out : List ℕ}
    → put_string s ≡ ok out
    → (length s < 2 ^ 32) × (out ≡ word_bytes 4 (length s) ++ s)
unfolding put_string
put_string-ok s h = ground arith

pub Reads-string : (s : List ℕ) {out : List ℕ} → put_string s ≡ ok out → Reads get_string out s
unfolding get_string
Reads-string s {out} h =
    let (short, e) = put_string-ok s h in
    rw e (Reads-bind _ (Reads-word 4 (length s) (omega arith)) (Reads-raw s (length s) refl))

module _ {ℓ} {A : Type ℓ} (P : A → Type 0) (put : A → Result (List ℕ)) (get : Reader A) where
  -- Each element is read back, and takes `least` bytes at least.
  abbrev pub ReadsEach : ℕ → Type ℓ
  ReadsEach least = (x : A) (o : List ℕ) → P x → put x ≡ ok o → Reads get o x × (least ≤ length o)

  -- What a list of elements is written as, from the elements' bytes.
  put_all-cons :
      (x : A) (xs : List A) {out : List ℕ}
      → put_all put (x ∷ xs) ≡ ok out
      → (o os : List ℕ) × (put x ≡ ok o) × (put_all put xs ≡ ok os) × (o ++ os ≡ out)
  unfolding put_all
  put_all-cons x xs h =
      let (o, first, h') = >>=-eq-ok (put x) _ h in
      let (os, others, same) = >>=-eq-ok (put_all put xs) _ h' in
      (o, os, first, others, ok-injective same)

  put_all-nil : {out : List ℕ} → put_all put [] ≡ ok out → [] ≡ out
  unfolding put_all
  put_all-nil h = ok-injective h

  pub Reads-times :
      (least : ℕ) (xs : List A) {out : List ℕ}
      → ReadsEach least
      → All P xs
      → put_all put xs ≡ ok out
      → Reads (get_times (length xs) get) out xs × (length xs * least ≤ length out)
  unfolding get_times
  Reads-times least [] each fit h = rw (sym (put_all-nil h)) (Reads-pure [], omega arith)
  Reads-times least (x ∷ xs) each fit h =
      let (o, os, first, others, same) = put_all-cons x xs h in
      let (read, long) = each x o fit.0 first in
      let (reads, longs) = Reads-times least xs each fit.1 others in
      rw (sym same) (Reads-bind _ read (Reads-map (λ l. x ∷ l) reads), grind (arith, length-append))

  put_list-ok :
      (xs : List A) {out : List ℕ}
      → put_list put xs ≡ ok out
      → (os : List ℕ) × (length xs < 2 ^ 32)
        × (put_all put xs ≡ ok os)
        × (word_bytes 4 (length xs) ++ os ≡ out)
  unfolding put_list
  put_list-ok xs h = elim (Bool-cases (ltb (2 ^ 32 - 1) (length xs))) [
    | inl long ↦ absurd (ground (arith, h))
    | inr short ↦
        let (os, others, same) = >>=-eq-ok (put_all put xs) _ (rw short at h) in
        (os, ground arith, others, ok-injective same)
  ]

  get_counted-read :
      (least n : ℕ) {out : List ℕ} {xs : List A}
      → ((k len : ℕ) → k * least ≤ len → k ≤ len / least)
      → n * least ≤ length out
      → Reads (get_times n get) out xs
      → Reads (get_counted least get n) out xs
  unfolding get_counted
  get_counted-read least n {out} {xs} divides long p = record {
    read = λ rest.
        let enough : ltb (length (out ++ rest) / least) n ≡ false =
          ground (arith, divides n (length (out ++ rest)), length-append out rest) in
        rw enough (p.read rest);
  }

  -- A list is read back if its elements are.
  pub Reads-list :
      (least : ℕ) (xs : List A) {out : List ℕ}
      → ((k len : ℕ) → k * least ≤ len → k ≤ len / least)
      → ReadsEach least
      → All P xs
      → put_list put xs ≡ ok out
      → Reads (get_list least get) out xs
  unfolding get_list
  Reads-list least xs divides each fit h =
      let (os, short, others, same) = put_list-ok xs h in
      let (reads, long) = Reads-times least xs each fit others in
      rw (sym same) (
        Reads-bind _ (Reads-word 4 (length xs) (omega arith))
          (get_counted-read least (length xs) divides long reads))

pub Reads-strings :
    (xs : List (List ℕ)) {out : List ℕ} → put_strings xs ≡ ok out → Reads get_strings out xs
unfolding get_strings put_strings
Reads-strings xs h =
    Reads-list (λ s. Unit {0}) put_string get_string 4 xs (λ k len e. omega arith)
      (λ s o u e.
        (Reads-string s e, grind (arith, put_string-ok, length-append, length-word_bytes)))
      (All-trivial xs) h
  where
    All-trivial : (l : List (List ℕ)) → All (λ s. Unit {0}) l
    All-trivial [] = tt
    All-trivial (x ∷ l) = (tt, All-trivial l)

-- A whole object is read, and nothing is left.
pub Reads-end {ℓ} :
    {A : Type ℓ} {r : Reader A} {out : List ℕ} {a : A}
    → Reads r out a
    → Result.◌>>=◌ (r out) at_end ≡ ok a
unfolding at_end
Reads-end {r} {out} p = let whole = p.read [] in rw (rw append-nil at whole) refl
