-- ===== src/Leaf/Moves.antt =====
-- The moves between leaf pages: what a split, a merge and a borrowing leave in the two pages.
use dbplayground.Base.{
  ℕ, ◌+◌, ◌-◌, ◌/◌, ◌≤◌, ◌≡◌, arith, [], ◌++◌, some, ◌∙◌, sym, ap, ap₂, slice, slice_ext,
  slice-split, copy_run, copy_run_lem,
}
use dbplayground.Rid.{Rid}
use dbplayground.TreePage.{get_max_size}
use dbplayground.Leaf.{LeafPage, size, set_size, entries, move_half_to, move_all_to}

module _ {K : Type 0} where
  -- The entries after a copy of the items `from`, ..., and the new size.
  copied :
      (n from : ℕ) (items : ℕ → K × Rid) (r : LeafPage K)
      → slice (size r + n) 0 (copy_run n (size r) from items r.array)
        ≡ entries r ++ slice n from items
  copied n from items r =
      slice-split (size r) n 0 _
      ∙ ap₂ ◌++◌
          (slice_ext (size r) 0 0 _ _
            (λ k h. ground (arith, copy_run_lem n (size r) from items r.array (0 + k))))
          (slice_ext n (0 + size r) from _ _
            (λ k h. ground (arith, copy_run_lem n (size r) from items r.array (0 + size r + k))))

  entries_empty : (r : LeafPage K) → size r ≡ 0 → entries r ≡ []
  unfolding slice
  entries_empty r e = ap (λ n. slice n 0 r.array) e

  slice_parts : (m n : ℕ) (a : ℕ → K × Rid) → slice m 0 a ++ slice n m a ≡ slice (m + n) 0 a
  slice_parts m n a =
      let e : m ≡ 0 + m = omega arith in
      ap (λ k. slice m 0 a ++ slice n k a) e ∙ sym (slice-split m n 0 a)

  abbrev pub half : LeafPage K → ℕ
  half p = (size p + 1) / 2

  abbrev pub half_left : LeafPage K → LeafPage K
  half_left p = set_size p (size p - (size p - half p))

  abbrev pub half_right : LeafPage K → LeafPage K → LeafPage K
  half_right p r =
      set_size (record r { array = copy_run (size p - half p) (size r) (half p) p.array r.array })
        (size r + (size p - half p))

  half_entries :
      (p r : LeafPage K)
      → size r ≡ 0
      → entries (half_left p) ++ entries (half_right p r) ≡ entries p
  half_entries p r empty =
      let e : size p - (size p - half p) ≡ half p = omega arith in
      let e' : half p + (size p - half p) ≡ size p = omega arith in
      ap₂ ◌++◌ (ap (λ k. slice k 0 p.array) e) (
        copied (size p - half p) (half p) p.array r
        ∙ ap (λ l. l ++ slice (size p - half p) (half p) p.array) (entries_empty r empty))
      ∙ slice_parts (half p) (size p - half p) p.array
      ∙ ap (λ k. slice k 0 p.array) e'

  -- A split of a leaf moves the second half, of the size rounded down, to an empty page that has
  -- room for it, and the pairs of the two pages together are those of the leaf in their order.
  pub move_half_to_split :
      (p r : LeafPage K)
      → size r ≡ 0
      → size p / 2 ≤ get_max_size r.header
      → (p' : LeafPage K) × (r' : LeafPage K) × (move_half_to p r ≡ some (p', r'))
        × (entries p' ++ entries r' ≡ entries p)
        × (size p' ≡ (size p + 1) / 2)
        × (size r' ≡ size p / 2)
  unfolding move_half_to
  move_half_to_split p r empty room =
      (half_left p, half_right p r, ground arith, half_entries p r empty, omega arith, omega arith)

  abbrev pub merged : LeafPage K → LeafPage K → LeafPage K
  merged p r =
      set_size
        (record r {
          array = copy_run (size p) (size r) 0 p.array r.array;
          next_page_id = p.next_page_id;
        })
        (size r + size p)

  -- A merge of a leaf with its left sibling, if both fit there, appends its pairs there, takes
  -- over the link to the next leaf and empties the leaf.
  pub move_all_to-merged :
      (p r : LeafPage K)
      → size r + size p ≤ get_max_size r.header
      → move_all_to p r ≡ some (set_size p 0, merged p r)
  unfolding move_all_to
  move_all_to-merged p r room = ground arith

  pub merged_entries : (p r : LeafPage K) → entries (merged p r) ≡ entries r ++ entries p
  merged_entries p r = copied (size p) 0 p.array r
