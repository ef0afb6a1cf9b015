-- ===== src/Internal/Moves.antt =====
-- The moves between internal pages: what a split, a merge and a borrowing leave in the two pages,
-- and which children get a new parent.
use dbplayground.Base.{
  ℕ, zero, suc, ◌+◌, ◌-◌, ◌/◌, ◌<◌, ◌≤◌, ◌≡◌, ◌≢◌, arith, ltb, [], ◌∷◌, ◌++◌, if◌then◌else◌, refl,
  ◌∙◌, sym, ap, ap₂, put, slice, slice_ext, slice_first, slice-split, copy_run, copy_run_lem,
  ℕ_discrete,
}
use dbplayground.Internal.{
  InternalPage, Parents, size, entries, value_at, adopt_run, copy_n_from, move_half_to, move_all_to,
  update_parent_page_id,
}

module _ {K : Type 0} where
  array-adopt_run :
      (n at from : ℕ) (items : ℕ → K × ℕ) (parent : ℕ) (array : ℕ → K × ℕ) (parents : Parents)
      (j : ℕ)
      → (adopt_run n at from items parent (array, parents)).0 j ≡ copy_run n at from items array j
  unfolding adopt_run copy_run
  array-adopt_run zero at from items parent array parents j = refl
  array-adopt_run (suc n) at from items parent array parents j =
      array-adopt_run n (at + 1) (from + 1) items parent _ _ j

  -- A page that is not among the children moved keeps its parent.
  parents-adopt_run_ne :
      (n at from : ℕ) (items : ℕ → K × ℕ) (parent : ℕ) (array : ℕ → K × ℕ) (parents : Parents)
      (q : ℕ)
      → ((j : ℕ) → from ≤ j → j < from + n → (items j).1 ≢ q)
      → (adopt_run n at from items parent (array, parents)).1 q ≡ parents q
  unfolding adopt_run
  parents-adopt_run_ne zero at from items parent array parents q h = refl
  parents-adopt_run_ne (suc n) at from items parent array parents q h = ground (
    arith,
    h from,
    parents-adopt_run_ne n (at + 1) (from + 1) items parent (put array at (items from))
        (update_parent_page_id (items from).1 parent parents) q
        (λ j low high. h j (omega arith) (omega arith)),
  )

  parents-adopt_run_eq :
      (n at from : ℕ) (items : ℕ → K × ℕ) (parent : ℕ) (array : ℕ → K × ℕ) (parents : Parents)
      (q : ℕ)
      → parents q ≡ parent
      → (adopt_run n at from items parent (array, parents)).1 q ≡ parent
  unfolding adopt_run
  parents-adopt_run_eq zero at from items parent array parents q h = h
  parents-adopt_run_eq (suc n) at from items parent array parents q h =
      parents-adopt_run_eq n (at + 1) (from + 1) items parent _ _ q (ground arith)

  parents-adopt_run :
      (n at from : ℕ) (items : ℕ → K × ℕ) (parent : ℕ) (array : ℕ → K × ℕ) (parents : Parents)
      (j : ℕ)
      → from ≤ j
      → j < from + n
      → (adopt_run n at from items parent (array, parents)).1 (items j).1 ≡ parent
  unfolding adopt_run
  parents-adopt_run zero at from items parent array parents j low high = absurd (omega arith)
  parents-adopt_run (suc n) at from items parent array parents j low high =
      elim (ℕ_discrete from j) [
        | yes e ↦
            parents-adopt_run_eq n (at + 1) (from + 1) items parent _ _ (items j).1 (ground arith)
        | no e ↦
            parents-adopt_run n (at + 1) (from + 1) items parent _ _ j (omega arith) (omega arith)
      ]

  copied :
      (n m from : ℕ) (items a b : ℕ → K × ℕ)
      → ((j : ℕ) → b j ≡ copy_run n m from items a j)
      → slice (m + n) 0 b ≡ slice m 0 a ++ slice n from items
  copied n m from items a b h =
      slice-split m n 0 b
      ∙ ap₂ ◌++◌
          (slice_ext m 0 0 b a
            (λ k less. ground (arith, h (0 + k), copy_run_lem n m from items a (0 + k))))
          (slice_ext n (0 + m) from b items
            (λ k less. ground (arith, h (0 + m + k), copy_run_lem n m from items a (0 + m + k))))

  slice_parts : (m n k : ℕ) (a : ℕ → K × ℕ) → m + n ≡ k → slice m 0 a ++ slice n m a ≡ slice k 0 a
  slice_parts m n k a e =
      let e' : m ≡ 0 + m = omega arith in
      ap (λ i. slice m 0 a ++ slice n i a) e' ∙ sym (slice-split m n 0 a) ∙ ap (λ i. slice i 0 a) e

  entries_empty : (r : InternalPage K) → size r ≡ 0 → entries r ≡ []
  unfolding slice
  entries_empty r e = ap (λ n. slice n 0 r.array) e

  abbrev half : InternalPage K → ℕ
  half p = (size p + 1) / 2

  half_entries :
      (p r : InternalPage K) (parents : Parents)
      → size r ≡ 0
      → entries (move_half_to p r parents).0 ++ entries (move_half_to p r parents).1 ≡ entries p
  unfolding move_half_to copy_n_from
  half_entries p r parents empty =
      let left : size p - (size p - half p) ≡ half p = omega arith in
      let right : size p - half p ≡ size r + (size p - half p - size r) = omega arith in
      let count : size p - half p - size r ≡ size p - half p = omega arith in
      let moved =
        adopt_run (size p - half p - size r) (size r) (half p) p.array r.header.page_id
          (r.array, parents) in
      ap₂ ◌++◌ (ap (λ n. slice n 0 p.array) left) (
        ap (λ n. slice n 0 moved.0) right
        ∙ copied (size p - half p - size r) (size r) (half p) p.array r.array moved.0
            (array-adopt_run _ _ _ _ _ r.array parents)
        ∙ ap₂ ◌++◌ (entries_empty r empty) (ap (λ n. slice n (half p) p.array) count))
      ∙ slice_parts (half p) (size p - half p) (size p) p.array (omega arith)

  module _ (p r : InternalPage K) (middle : K) (parents : Parents) where
    abbrev recipient : ℕ → K × ℕ
    recipient = (move_all_to p r middle parents).1.array

    abbrev renamed : ℕ → K × ℕ
    renamed = put p.array 0 (middle, value_at p 0)

    recipient_lem :
        (j : ℕ)
        → j < size r + size p
        → recipient j ≡ (if ltb j (size r) then r.array j else renamed (j - size r))
    unfolding move_all_to
    recipient_lem j h = ground (
      arith,
      array-adopt_run (size p) (size r) 0 p.array r.header.page_id r.array parents j,
      array-adopt_run (size p) (size r) 0 p.array r.header.page_id r.array parents (size r),
      copy_run_lem (size p) (size r) 0 p.array r.array j,
      copy_run_lem (size p) (size r) 0 p.array r.array (size r),
    )

    merged_entries :
        1 ≤ size p
        → slice (size r + size p) 0 recipient
          ≡ entries r ++ ((middle, value_at p 0) ∷ slice (size p - 1) 1 p.array)
    merged_entries h =
        slice-split (size r) (size p) 0 recipient
        ∙ ap₂ ◌++◌
            (slice_ext (size r) 0 0 recipient r.array
              (λ k less. ground (arith, recipient_lem (0 + k))))
            (slice_ext (size p) (0 + size r) 0 recipient renamed
                (λ k less. ground (arith, recipient_lem (0 + size r + k)))
              ∙ slice_first (size p) (size p - 1) renamed (omega arith)
              ∙ ap (◌∷◌ (middle, value_at p 0))
                  (slice_ext (size p - 1) 1 1 renamed p.array (λ k less. ground arith)))

  -- A split of an internal page moves the second half of the children to an empty page and makes
  -- that page their parent, and no other page's parent changes.
  pub move_half_to_children :
      (p r : InternalPage K) (parents : Parents)
      → size r ≡ 0
      → (entries (move_half_to p r parents).0 ++ entries (move_half_to p r parents).1 ≡ entries p)
        × (size (move_half_to p r parents).0 ≡ (size p + 1) / 2)
        × (size (move_half_to p r parents).1 ≡ size p / 2)
        × ((j : ℕ)
            → (size p + 1) / 2 ≤ j
            → j < size p
            → (move_half_to p r parents).2 (value_at p j) ≡ r.header.page_id)
        × ((q : ℕ)
            → ((j : ℕ) → (size p + 1) / 2 ≤ j → j < size p → value_at p j ≢ q)
            → (move_half_to p r parents).2 q ≡ parents q)
  unfolding move_half_to copy_n_from
  move_half_to_children p r parents empty = (
    half_entries p r parents empty,
    omega arith,
    omega arith,
    λ j low high.
        parents-adopt_run (size p - half p - size r) (size r) (half p) p.array r.header.page_id
          r.array parents j low (omega arith),
    λ q h.
        parents-adopt_run_ne (size p - half p - size r) (size r) (half p) p.array r.header.page_id
          r.array parents q (λ j low high. h j low (omega arith)),
  )

  -- A merge of an internal page that is not empty with its left sibling appends the children
  -- there, the first of them under the key that separated the two pages, empties the page and
  -- makes the sibling their parent, and no other page's parent changes.
  pub move_all_to_children :
      (p r : InternalPage K) (middle : K) (parents : Parents)
      → 1 ≤ size p
      → (entries (move_all_to p r middle parents).1
          ≡ entries r ++ ((middle, value_at p 0) ∷ slice (size p - 1) 1 p.array))
        × (size (move_all_to p r middle parents).0 ≡ 0)
        × ((j : ℕ)
            → j < size p
            → (move_all_to p r middle parents).2 (value_at p j) ≡ r.header.page_id)
        × ((q : ℕ)
            → ((j : ℕ) → j < size p → value_at p j ≢ q)
            → (move_all_to p r middle parents).2 q ≡ parents q)
  unfolding move_all_to
  move_all_to_children p r middle parents h = (
    merged_entries p r middle parents h,
    refl,
    λ j inside.
        parents-adopt_run (size p) (size r) 0 p.array r.header.page_id r.array parents j
          (omega arith) (omega arith),
    λ q absent.
        parents-adopt_run_ne (size p) (size r) 0 p.array r.header.page_id r.array parents q
          (λ j low high. absent j (omega arith)),
  )
