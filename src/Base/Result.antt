-- ===== src/Base/Result.antt =====
-- What a function of the codecs returns, or the exception that it throws in place of that.
use mathlib.Core.Path.{◌≡◌, refl, ap, subst}
use native.Mathlib.Omega.{arith}

-- `std::invalid_argument` for a row, a type or an object that does not fit, `std::runtime_error` for
-- bytes that end too soon, an identity that does not match, a store or a page that has no room, an
-- empty tree, a page that is not there, or a node that has no sibling. A null pointer that is followed
-- and an index that is out of range are `undefined`; a loop that is cut off is `out_of_fuel`.
pub data Fault : Type 0 where
  arity_mismatch invalid_type truncated malformed mismatch too_large out_of_memory page_overflow
        empty_tree null_page no_sibling undefined out_of_fuel :
      Fault

pub data Result {ℓ} (Success : Type ℓ) : Type ℓ where
  err : Fault → Result Success
  ok : Success → Result Success

-- An exception skips the steps that follow.
module _ {ℓ κ} {First : Type ℓ} {Second : Type κ} where
  infixl 5 ◌>>=◌
  abbrev pub ◌>>=◌ : Result First → (First → Result Second) → Result Second
  err fault >>= step = err fault
  ok first >>= step = step first

-- What is returned, if anything is, has the property.
pub data Ensures {ℓ} {A : Type ℓ} (P : A → Type 0) : Result A → Type ℓ where
  returned : {a : A} → P a → Ensures P (ok a)
  thrown : {e : Fault} → Ensures P (err e)

pub Ensures-imp {ℓ} :
    {A : Type ℓ} {P Q : A → Type 0} {m : Result A}
    → ((a : A) → P a → Q a)
    → Ensures P m
    → Ensures Q m
Ensures-imp imp (returned {a} p) = returned (imp a p)
Ensures-imp imp thrown = thrown

pub Ensures-bind {ℓ κ} :
    {A : Type ℓ} {B : Type κ} {P : A → Type 0} {Q : B → Type 0} {m : Result A} {f : A → Result B}
    → Ensures P m
    → ((a : A) → P a → Ensures Q (f a))
    → Ensures Q (m >>= f)
Ensures-bind (returned {a} p) next = next a p
Ensures-bind thrown next = thrown

from_ok {ℓ} : {Success : Type ℓ} → Success → Result Success → Success
from_ok default (err fault) = default
from_ok default (ok value) = value

pub ok-injective {ℓ} : {Success : Type ℓ} {x y : Success} → ok x ≡ ok y → x ≡ y
unfolding from_ok
ok-injective {x} p = ap (from_ok x) p

-- The two steps of a chain that returned.
pub >>=-eq-ok {ℓ κ} :
    {First : Type ℓ} {Second : Type κ} (first : Result First) (step : First → Result Second)
    {value : Second}
    → (first >>= step) ≡ ok value
    → (x : First) × (first ≡ ok x) × (step x ≡ ok value)
>>=-eq-ok (err fault) step h = cc
>>=-eq-ok (ok x) step h = (x, refl, h)

pub Ensures-ok {ℓ} :
    {A : Type ℓ} {P : A → Type 0} {m : Result A} {a : A} → Ensures P m → m ≡ ok a → P a
Ensures-ok {P} (returned p) h = subst P (ok-injective h) p
Ensures-ok thrown h = absurd (ground arith)
