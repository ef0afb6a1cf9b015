-- ===== src/Base/Arrays.antt =====
-- Raw arrays as functions from an index: an assignment, the loops that move a run of cells by one,
-- the loop that copies a run, and the list of the cells of a run.
use Prim.Native.Nat.{ℕ, zero, suc, ◌+◌, ◌-◌, ◌<◌}
use mathlib.Core.List.{List, [], ◌∷◌, ◌++◌}
use mathlib.Core.Path.{◌≡◌, refl, ap, ap₂, ◌∙◌}
use native.Mathlib.Omega.{arith}
use dbplayground.Base.Tests.{◌==◌, ltb, leb, if◌then◌else◌}
use dbplayground.Base.Lists.{length}

module _ {A : Type 0} where
  abbrev pub put : (ℕ → A) → ℕ → A → ℕ → A
  put a i x j = if i == j then x else a j

  -- for (i = lo + n - 1; i >= lo; i--) a[i + 1] = a[i];
  unfoldable pub shift_up : ℕ → ℕ → (ℕ → A) → ℕ → A
  shift_up zero lo a = a
  shift_up (suc n) lo a = shift_up n lo (put a (lo + n + 1) (a (lo + n)))

  -- for (i = lo + 1; i < lo + 1 + n; i++) a[i - 1] = a[i];
  unfoldable pub shift_down : ℕ → ℕ → (ℕ → A) → ℕ → A
  shift_down zero lo a = a
  shift_down (suc n) lo a = shift_down n (lo + 1) (put a lo (a (lo + 1)))

  -- for (i = 0; i < n; i++) a[at + i] = items[from + i];
  unfoldable pub copy_run : ℕ → ℕ → ℕ → (ℕ → A) → (ℕ → A) → ℕ → A
  copy_run zero at from items a = a
  copy_run (suc n) at from items a = copy_run n (at + 1) (from + 1) items (put a at (items from))

  pub shift_up_lem :
      (n lo : ℕ) (a : ℕ → A) (j : ℕ)
      → shift_up n lo a j ≡ (if leb j lo then a j else if leb j (lo + n) then a (j - 1) else a j)
  unfolding shift_up
  shift_up_lem zero lo a j = ground arith
  shift_up_lem (suc n) lo a j =
      ground (arith, shift_up_lem n lo (put a (lo + n + 1) (a (lo + n))) j)

  pub shift_down_lem :
      (n lo : ℕ) (a : ℕ → A) (j : ℕ)
      → shift_down n lo a j ≡ (if ltb j lo then a j else if ltb j (lo + n) then a (j + 1) else a j)
  unfolding shift_down
  shift_down_lem zero lo a j = ground arith
  shift_down_lem (suc n) lo a j =
      ground (arith, shift_down_lem n (lo + 1) (put a lo (a (lo + 1))) j)

  pub copy_run_lem :
      (n at from : ℕ) (items a : ℕ → A) (j : ℕ)
      → copy_run n at from items a j
        ≡ (if ltb j at then a j else if ltb j (at + n) then items (from + (j - at)) else a j)
  unfolding copy_run
  copy_run_lem zero at from items a j = ground arith
  copy_run_lem (suc n) at from items a j =
      ground (arith, copy_run_lem n (at + 1) (from + 1) items (put a at (items from)) j)

  -- The `n` cells from `i` on.
  unfoldable pub slice : ℕ → ℕ → (ℕ → A) → List A
  slice zero i a = []
  slice (suc n) i a = a i ∷ slice n (i + 1) a

  pub slice_ext :
      (n i j : ℕ) (a b : ℕ → A)
      → ((k : ℕ) → k < n → a (i + k) ≡ b (j + k))
      → slice n i a ≡ slice n j b
  unfolding slice
  slice_ext zero i j a b h = refl
  slice_ext (suc n) i j a b h =
      λ t. head t ∷ slice_ext n (i + 1) (j + 1) a b (λ k less. later k less) t
    where
      head : a i ≡ b j
      head = ground (arith, h 0)

      later : (k : ℕ) → k < n → a (i + 1 + k) ≡ b (j + 1 + k)
      later k less = ground (arith, h (k + 1))

  pub slice-split : (n m i : ℕ) (a : ℕ → A) → slice (n + m) i a ≡ slice n i a ++ slice m (i + n) a
  unfolding slice
  slice-split zero m i a =
      let e : 0 + m ≡ m = omega arith in
      let e' : i ≡ i + 0 = omega arith in ap (λ k. slice k i a) e ∙ ap (λ k. slice m k a) e'
  slice-split (suc n) m i a =
      let e : suc n + m ≡ suc (n + m) = omega arith in
      let e' : i + 1 + n ≡ i + suc n = omega arith in
      ap (λ k. slice k i a) e
      ∙ ap (◌∷◌ (a i)) (slice-split n m (i + 1) a ∙ ap (λ k. slice n (i + 1) a ++ slice m k a) e')

  pub length-slice : (n i : ℕ) (a : ℕ → A) → length (slice n i a) ≡ n
  unfolding slice
  length-slice zero i a = refl
  length-slice (suc n) i a = ap suc (length-slice n (i + 1) a)

  pub slice-put_end :
      (n : ℕ) (a : ℕ → A) (x : A) → slice (n + 1) 0 (put a n x) ≡ slice n 0 a ++ (x ∷ [])
  unfolding slice
  slice-put_end n a x =
      slice-split n 1 0 (put a n x)
      ∙ ap₂ ◌++◌ (slice_ext n 0 0 (put a n x) a (λ k h. ground arith))
          (ap (λ y. y ∷ []) (ground arith))

  pub slice-put_front :
      (n : ℕ) (a : ℕ → A) (x : A) → slice (n + 1) 0 (put (shift_up n 0 a) 0 x) ≡ x ∷ slice n 0 a
  unfolding slice
  slice-put_front n a x =
      let e : n + 1 ≡ suc n = omega arith in
      ap (λ k. slice k 0 (put (shift_up n 0 a) 0 x)) e
      ∙ ap (◌∷◌ x) (
          slice_ext n (0 + 1) 0 (put (shift_up n 0 a) 0 x) a
            (λ k h. ground (arith, shift_up_lem n 0 a (0 + 1 + k))))

  pub slice_first : (n m : ℕ) (a : ℕ → A) → n ≡ m + 1 → slice n 0 a ≡ a 0 ∷ slice m 1 a
  unfolding slice
  slice_first n m a e =
      let e' : n ≡ suc m = omega arith in
      let one : 0 + 1 ≡ 1 = omega arith in
      ap (λ k. slice k 0 a) e' ∙ ap (λ k. a 0 ∷ slice m k a) one

  pub slice_last : (n m : ℕ) (a : ℕ → A) → n ≡ m + 1 → slice n 0 a ≡ slice m 0 a ++ (a m ∷ [])
  unfolding slice
  slice_last n m a e =
      ap (λ k. slice k 0 a) e
      ∙ slice-split m 1 0 a
      ∙ ap (λ k. slice m 0 a ++ (a k ∷ [])) (omega arith)
