-- ===== src/Leaf/Borrow.antt =====
-- Borrowing one pair from a sibling leaf: the pairs of the two pages together stay as they are.
use dbplayground.Base.{
  ◌+◌, ◌-◌, ◌≤◌, ◌≡◌, arith, [], ◌∷◌, ◌++◌, ◌∙◌, sym, ap, slice_ext, slice-put_end, slice-put_front,
  slice_first, slice_last, shift_down_lem,
}
use dbplayground.Leaf.{LeafPage, size, entries, move_first_to_end_of, move_last_to_front_of}

module _ {K : Type 0} where
  -- The first pair of a leaf that has one becomes the last of its left sibling, and no other pair
  -- moves from its page.
  pub move_first_to_end_of_lem :
      (p r : LeafPage K)
      → 1 ≤ size p
      → (entries (move_first_to_end_of p r).1 ≡ entries r ++ (p.array 0 ∷ []))
        × (p.array 0 ∷ entries (move_first_to_end_of p r).0 ≡ entries p)
  unfolding move_first_to_end_of
  move_first_to_end_of_lem p r h = (
    slice-put_end (size r) r.array (p.array 0),
    ap (◌∷◌ (p.array 0)) (
          slice_ext (size p - 1) 0 1 _ _
            (λ k less. ground (arith, shift_down_lem (size p - 1) 0 p.array (0 + k))))
        ∙ sym (slice_first (size p) (size p - 1) p.array (omega arith)),
  )

  -- The last pair of a leaf that has one becomes the first of its right sibling, and no other pair
  -- moves from its page.
  pub move_last_to_front_of_lem :
      (p r : LeafPage K)
      → 1 ≤ size p
      → (entries (move_last_to_front_of p r).1 ≡ p.array (size p - 1) ∷ entries r)
        × (entries (move_last_to_front_of p r).0 ++ (p.array (size p - 1) ∷ []) ≡ entries p)
  unfolding move_last_to_front_of
  move_last_to_front_of_lem p r h = (
    slice-put_front (size r) r.array (p.array (size p - 1)),
    sym (slice_last (size p) (size p - 1) p.array (omega arith)),
  )
