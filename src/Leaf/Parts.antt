-- ===== src/Leaf/Parts.antt =====
-- A sorted leaf in two parts: a lookup in the part that the first key of the right one tells finds what
-- a lookup in the whole finds.
use dbplayground.Base.{
  ℕ, ◌+◌, ◌-◌, ◌/◌, ◌<◌, refl, copy_run_lem, ◌≤◌, ◌≡◌, sym, ◌∙◌, ap, inl, inr, arith, some, true,
  false, Bool-cases, if◌then◌else◌, ltb,
}
use dbplayground.KeyOrder.{KeyOrder}
use dbplayground.Leaf.{LeafPage, size, key_at, lookup, move_half_to}
use dbplayground.Leaf.Moves.{half, half_left, half_right}
use dbplayground.TreePage.{get_max_size}
use dbplayground.Leaf.Search.{rank_at, IsSorted}
use dbplayground.Leaf.Lookup.{lookup_found, lookup_missing, lookup-cases}

module _ (o : KeyOrder) where
  open o use {Key, less, rank, less_rank}

  -- The cells of the leaf `p` are those of `l` and then those of `r`, which is not empty.
  pub record AreParts (p l r : LeafPage Key) : Type 0 where
    pub sizes : size l + size r ≡ size p
    pub some_right : 1 ≤ size r
    pub lefts : (i : ℕ) → i < size l → l.array i ≡ p.array i
    pub rights : (i : ℕ) → i < size r → r.array i ≡ p.array (size l + i)

  -- A split of a leaf of two pairs at least leaves its parts.
  pub move_half_to-AreParts :
      (p r : LeafPage Key)
      → size r ≡ 0
      → 2 ≤ size p
      → size p / 2 ≤ get_max_size r.header
      → (move_half_to p r ≡ some (half_left p, half_right p r))
        × AreParts p (half_left p) (half_right p r)
  unfolding move_half_to
  move_half_to-AreParts p r empty two room = (
    ground arith,
    record {
      sizes = omega arith;
      some_right = omega arith;
      lefts = λ i h. refl;
      rights =
          λ i h. ground (arith, copy_run_lem (size p - half p) (size r) (half p) p.array r.array i);
    },
  )

  module _ (p l r : LeafPage Key) (sorted : IsSorted o p) (parts : AreParts p l r) where
    left_rank : (i : ℕ) → i < size l → rank_at o l i ≡ rank_at o p i
    left_rank i h = ap (λ c. rank c.0) (parts.lefts i h)

    right_rank : (i : ℕ) → i < size r → rank_at o r i ≡ rank_at o p (size l + i)
    right_rank i h = ap (λ c. rank c.0) (parts.rights i h)

    left-IsSorted : IsSorted o l
    left-IsSorted i j h k = ground (arith, left_rank i, left_rank j, sorted i j, parts.sizes)

    right-IsSorted : IsSorted o r
    right-IsSorted i j h k =
        ground (arith, right_rank i, right_rank j, sorted (size l + i) (size l + j), parts.sizes)

    pub lookup-parts :
        (key : Key)
        → (if less key (key_at o r 0) then lookup o l key else lookup o r key) ≡ lookup o p key
    lookup-parts key = elim (lookup-cases o p key sorted) [
      | inl (i, inside, equal, found) ↦ elim (Bool-cases (ltb i (size l))) [
        | inl left ↦
            let low : less key (key_at o r 0) ≡ true = ground (
              arith,
              less_rank key (key_at o r 0),
              right_rank 0,
              sorted i (size l + 0),
              parts.some_right,
              parts.sizes,
            ) in
            rw low (
              (lookup_found o l key left-IsSorted i (ground arith) (ground (arith, left_rank i))).0
              ∙ ap (λ c. some c.1) (parts.lefts i (ground arith))
              ∙ sym found)
        | inr right ↦
            let high : less key (key_at o r 0) ≡ false = ground (
              arith,
              less_rank key (key_at o r 0),
              right_rank 0,
              sorted (size l + 0) i,
              parts.some_right,
              parts.sizes,
            ) in
            let at : size l + (i - size l) ≡ i = ground arith in
            rw high (
              (lookup_found o r key right-IsSorted (i - size l) (ground (arith, parts.sizes))
                (ground (arith, right_rank (i - size l), parts.sizes))).0
              ∙ ap (λ c. some c.1) (parts.rights (i - size l) (ground (arith, parts.sizes)))
              ∙ ap (λ j. some (p.array j).1) at
              ∙ sym found)
      ]
      | inr (absent, missing) ↦ elim (Bool-cases (less key (key_at o r 0))) [
        | inl low ↦ rw low (
            lookup_missing o l key left-IsSorted
              (λ i h. ground (arith, left_rank i, absent i, parts.sizes))
            ∙ sym missing)
        | inr high ↦ rw high (
            lookup_missing o r key right-IsSorted
              (λ i h. ground (arith, right_rank i, absent (size l + i), parts.sizes))
            ∙ sym missing)
      ]
    ]
