-- ===== src/Wire.antt =====
-- src/Cloud/SequentialProtocol.cpp, the classes `Writer` and `Reader`: what is written is a list of
-- bytes, and a reader takes a value off the bytes that are left. All their exceptions are
-- `std::invalid_argument`, the fault `malformed`.
pub mod Reads
pub mod Accepts
use dbplayground.Base.{
  ℕ, zero, suc, ◌+◌, ◌-◌, ◌*◌, ◌/◌, ◌^◌, List, [], ◌∷◌, ◌++◌, Bool, true, false, length, take, drop,
  ltb, ◌==◌, ◌&&◌, if◌then◌else◌, word_bytes,
}
use dbplayground.Base.Result
use dbplayground.Base.Result.{Result, ok, err, malformed}

abbrev pub guard : Bool → Result (Unit {0})
guard b = if b then ok tt else err malformed

-- `Writer::String`: the length and the bytes.
unfoldable pub put_string : List ℕ → Result (List ℕ)
put_string s =
    if ltb (2 ^ 32 - 1) (length s) then err malformed else ok (word_bytes 4 (length s) ++ s)

-- One thing after the other, by the writer `put`.
unfoldable pub put_all {ℓ} : {A : Type ℓ} → (A → Result (List ℕ)) → List A → Result (List ℕ)
put_all put [] = ok []
put_all put (x ∷ xs) =
    Result.◌>>=◌ (put x) λ bytes. Result.◌>>=◌ (put_all put xs) λ rest. ok (bytes ++ rest)

-- A list: its length, and its elements.
unfoldable pub put_list {ℓ} : {A : Type ℓ} → (A → Result (List ℕ)) → List A → Result (List ℕ)
unfolding put_all
put_list put xs =
    if ltb (2 ^ 32 - 1) (length xs)
    then err malformed
    else Result.◌>>=◌ (put_all put xs) λ bytes. ok (word_bytes 4 (length xs) ++ bytes)

unfoldable pub put_strings : List (List ℕ) → Result (List ℕ)
unfolding put_list put_string
put_strings xs = put_list put_string xs

abbrev pub Reader {ℓ} : Type ℓ → Type ℓ
Reader A = List ℕ → Result (A × List ℕ)

unfoldable pub pure {ℓ} : {A : Type ℓ} → A → Reader A
pure a bytes = ok (a, bytes)

module _ {ℓ κ} {A : Type ℓ} {B : Type κ} where
  infixl 5 ◌>>=◌ ◌>>◌
  unfoldable pub ◌>>=◌ : Reader A → (A → Reader B) → Reader B
  ◌>>=◌ r next bytes = Result.◌>>=◌ (r bytes) λ (a, rest). next a rest

  abbrev pub ◌>>◌ : Reader A → Reader B → Reader B
  ◌>>◌ r next = r >>= λ _. next

-- A test in the midst of reading.
unfoldable pub check : Bool → Reader (Unit {0})
check b bytes = if b then ok (tt, bytes) else err malformed

unfoldable pub get_raw : ℕ → Reader (List ℕ)
get_raw n bytes = if ltb (length bytes) n then err malformed else ok (take n bytes, drop n bytes)

unfoldable pub get_u8 : Reader ℕ
get_u8 [] = err malformed
get_u8 (x ∷ bytes) = ok (x, bytes)

-- `U32` and `U64`: the bytes one after the other, the lowest one first.
unfoldable pub get_word : ℕ → Reader ℕ
unfolding get_u8 ◌>>=◌ pure check
get_word zero = pure 0
get_word (suc n) = do b ← get_u8; v ← get_word n; pure (b + 256 * v)

unfoldable pub bytes_eq : List ℕ → List ℕ → Bool
bytes_eq [] [] = true
bytes_eq [] (y ∷ ys) = false
bytes_eq (x ∷ xs) [] = false
bytes_eq (x ∷ xs) (y ∷ ys) = x == y && bytes_eq xs ys

-- `Magic`, for a text of four bytes.
unfoldable pub get_magic : List ℕ → Reader (Unit {0})
unfolding get_raw bytes_eq ◌>>=◌ pure check
get_magic magic = do s ← get_raw 4; check (bytes_eq s magic)

unfoldable pub get_string : Reader (List ℕ)
unfolding get_word get_raw ◌>>=◌ pure check
get_string = do n ← get_word 4; get_raw n

-- The reader `get`, `n` times.
unfoldable pub get_times {ℓ} : {A : Type ℓ} → ℕ → Reader A → Reader (List A)
unfolding ◌>>=◌ pure
get_times zero get = pure []
get_times (suc n) get = do x ← get; xs ← get_times n get; pure (x ∷ xs)

-- `n` elements of `least` bytes at least: a count of more than what is left can hold is refused before
-- any element is read.
unfoldable pub get_counted {ℓ} : {A : Type ℓ} → ℕ → Reader A → ℕ → Reader (List A)
unfolding get_times
get_counted least get n bytes =
    if ltb (length bytes / least) n then err malformed else get_times n get bytes

unfoldable pub get_list {ℓ} : {A : Type ℓ} → ℕ → Reader A → Reader (List A)
unfolding get_word get_counted ◌>>=◌
get_list least get = do n ← get_word 4; get_counted least get n

unfoldable pub get_strings : Reader (List (List ℕ))
unfolding get_list get_string
get_strings = get_list 4 get_string

-- `End`: nothing is left.
unfoldable pub at_end {ℓ} : {A : Type ℓ} → A × List ℕ → Result A
at_end (a, []) = ok a
at_end (a, x ∷ bytes) = err malformed

-- The two `Header` functions: the magic bytes, and the version 2.
unfoldable pub put_header : List ℕ → List ℕ
put_header magic = magic ++ word_bytes 4 2

unfoldable pub get_header : List ℕ → Reader (Unit {0})
unfolding get_magic get_word ◌>>=◌ pure check
get_header magic = do get_magic magic; v ← get_word 4; check (v == 2)
