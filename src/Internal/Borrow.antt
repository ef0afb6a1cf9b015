-- ===== src/Internal/Borrow.antt =====
-- Borrowing a child from a sibling page. From the left sibling, a child of the page is lost.
use dbplayground.Base.{
  ℕ, zero, suc, ◌+◌, ◌-◌, ◌<◌, ◌≤◌, ◌≡◌, ◌≢◌, arith, ltb, leb, ◌==◌, [], ◌∷◌, ◌++◌, if◌then◌else◌,
  refl, ◌∙◌, sym, ap, put, slice_ext, slice-put_end, slice_first, shift_down_lem, ◌&&◌,
}
use dbplayground.Disk.{invalid_page_id}
use dbplayground.Internal.{
  InternalPage, Parents, size, entries, value_at, move_first_to_end_of, move_last_to_front_of,
  shift_two,
}

module _ {K : Type 0} where
  shift_two_lem :
      (n : ℕ) (a : ℕ → K × ℕ) (j : ℕ)
      → shift_two n a j ≡ (if leb 2 j && ltb j (n + 2) then a (j - 2) else a j)
  unfolding shift_two
  shift_two_lem zero a j = ground arith
  shift_two_lem (suc n) a j = ground (arith, shift_two_lem n (put a (n + 2) (a n)) j)

  module _ (p r : InternalPage K) (middle : K) (parents : Parents) where
    abbrev borrower : InternalPage K
    borrower = (move_last_to_front_of p r middle parents).1

    value-borrower :
        (j : ℕ)
        → j ≤ size r
        → value_at borrower j ≡ (
            if j == 0
            then invalid_page_id
            else if j == 1
            then value_at p (size p - 1)
            else value_at r (j - 2))
    unfolding move_last_to_front_of
    value-borrower j h =
        ground (arith, shift_two_lem (size r) r.array j, shift_two_lem (size r) r.array 2)

    -- After an internal page borrows the last child of its left sibling, its first child is the
    -- invalid page id, its size has grown by one, and its own last child is none of its children
    -- any more, if that child is a valid page other than the one borrowed and stood in the page
    -- once.
    pub move_last_to_front_of_loses :
        1 ≤ size r
        → value_at r (size r - 1) ≢ invalid_page_id
        → value_at r (size r - 1) ≢ value_at p (size p - 1)
        → ((j : ℕ) → j + 1 < size r → value_at r j ≢ value_at r (size r - 1))
        → (value_at borrower 0 ≡ invalid_page_id)
          × (size borrower ≡ size r + 1)
          × ((j : ℕ) → j < size borrower → value_at borrower j ≢ value_at r (size r - 1))
    unfolding move_last_to_front_of
    move_last_to_front_of_loses h valid other once = (
      ground (arith, value-borrower 0),
      refl,
      λ j less. ground (arith, value-borrower j, once (j - 2)),
    )

    -- The first child of an internal page that has one becomes the last of its left sibling under
    -- the key that separated the two pages and gets it for a parent, the other children of the
    -- page stay, and no other page's parent changes.
    pub move_first_to_end_of_child :
        1 ≤ size p
        → (entries (move_first_to_end_of p r middle parents).1
            ≡ entries r ++ ((middle, value_at p 0) ∷ []))
          × (p.array 0 ∷ entries (move_first_to_end_of p r middle parents).0 ≡ entries p)
          × ((q : ℕ)
              → (move_first_to_end_of p r middle parents).2 q
                ≡ (if value_at p 0 == q then r.header.page_id else parents q))
    unfolding move_first_to_end_of
    move_first_to_end_of_child h = (
      slice-put_end (size r) r.array (middle, value_at p 0),
      ap (◌∷◌ (p.array 0)) (
            slice_ext (size p - 1) 0 1 _ _
              (λ k less. ground (arith, shift_down_lem (size p - 1) 0 p.array (0 + k))))
          ∙ sym (slice_first (size p) (size p - 1) p.array (omega arith)),
      λ q. refl,
    )
