-- ===== src/Internal/Split.antt =====
-- A child that was split or merged: its parent gets the new child after it, or loses the one that
-- went, and the way to every key of another child stays as it was.
use dbplayground.Base.{
  ℕ, zero, suc, ◌+◌, ◌-◌, ◌<◌, ◌≤◌, ◌≡◌, inl, inr, arith, Bool-cases, ltb, leb, ◌==◌, if◌then◌else◌,
  some, true, false, refl, ◌∙◌, shift_up_lem, shift_down_lem,
}
use dbplayground.KeyOrder.{KeyOrder}
use dbplayground.Internal.{
  InternalPage, size, value_at, lookup, value_index, value_index_from, insert_node_after, remove,
}
use dbplayground.Internal.Route.{rank_at, IsSorted, Routes, lookup-Routes, lookup_at}

module _ {K : Type 0} where
  -- No child stands twice in the page.
  abbrev pub IsInjective : InternalPage K → Type 0
  IsInjective p = (i j : ℕ) → i < size p → j < size p → value_at p i ≡ value_at p j → i ≡ j

  value_index_from_found :
      (n i j : ℕ) (p : InternalPage K)
      → IsInjective p
      → i ≤ j
      → j < i + n
      → i + n ≤ size p
      → value_index_from n i p (value_at p j) ≡ some j
  unfolding value_index_from
  value_index_from_found zero i j p injective low high inside = absurd (omega arith)
  value_index_from_found (suc n) i j p injective low high inside =
      ground (arith, injective i j, value_index_from_found n (i + 1) j p injective)

  pub value_index_found :
      (j : ℕ) (p : InternalPage K)
      → IsInjective p
      → j < size p
      → value_index p (value_at p j) ≡ some j
  unfolding value_index
  value_index_found j p injective inside =
      value_index_from_found (size p) 0 j p injective (omega arith) (omega arith) (omega arith)

module _ (o : KeyOrder) where
  open o use {Key, less, rank, less_rank}

  module _ (p : InternalPage Key) (i : ℕ) (inside : i < size p) (sorted : IsSorted o p)
      (injective : IsInjective p) where
    module _ (new_key : Key) (new_value : ℕ) (above : 1 ≤ i → rank_at o p i < rank new_key)
        (below : i + 1 < size p → rank new_key < rank_at o p (i + 1)) where
      abbrev grown : InternalPage Key
      grown = (insert_node_after (value_at p i) new_key new_value p).0

      size-grown : size grown ≡ size p + 1
      unfolding insert_node_after
      size-grown = refl

      array-grown :
          (j : ℕ)
          → j ≤ size p
          → grown.array j ≡ (
              if leb j i
              then p.array j
              else if j == i + 1
              then (new_key, new_value)
              else p.array (j - 1))
      unfolding insert_node_after
      array-grown j h =
          rw (value_index_found i p injective inside)
            (ground (arith, shift_up_lem (size p - (i + 1)) (i + 1) p.array j))

      rank-grown :
          (j : ℕ)
          → j ≤ size p
          → rank_at o grown j ≡ (
              if leb j i
              then rank_at o p j
              else if j == i + 1
              then rank new_key
              else rank_at o p (j - 1))
      rank-grown j h = ground (arith, array-grown j h)

      -- In a sorted internal page without repeated children, inserting a child behind the child i
      -- under a key between its neighbours' keeps the keys in order.
      pub insert_node_after-IsSorted :
          IsSorted o (insert_node_after (value_at p i) new_key new_value p).0
      insert_node_after-IsSorted j k low less' h = ground (
        arith,
        rank-grown j,
        rank-grown k,
        size-grown,
        sorted j k,
        sorted (j - 1) (k - 1),
        sorted j (k - 1),
        sorted j i,
        sorted i j,
        sorted (i + 1) (k - 1),
        above,
        below,
      )

      module _ (key : Key) (c : ℕ) (r : Routes o p key c) where
        Routes-before : c < i → Routes o grown key c
        Routes-before h = record {
          inside = omega (arith, r.inside, size-grown);
          from = λ k. ground (arith, rank-grown c, r.from, r.inside);
          below = λ k. ground (arith, rank-grown (c + 1), r.below, inside);
        }

        Routes-left : c ≡ i → less key new_key ≡ true → Routes o grown key c
        Routes-left h e = record {
          inside = omega (arith, r.inside, size-grown);
          from = λ k. ground (arith, rank-grown c, r.from, r.inside);
          below = λ k. ground (arith, rank-grown (c + 1), less_rank key new_key, inside);
        }

        Routes-right : c ≡ i → less key new_key ≡ false → Routes o grown key (c + 1)
        Routes-right h e = record {
          inside = omega (arith, r.inside, size-grown);
          from = λ k. ground (arith, rank-grown (c + 1), less_rank key new_key, inside);
          below = λ k. ground (arith, rank-grown (c + 1 + 1), r.below, size-grown);
        }

        Routes-after : i < c → Routes o grown key (c + 1)
        Routes-after h = record {
          inside = omega (arith, r.inside, size-grown);
          from = λ k. ground (arith, rank-grown (c + 1), r.from, r.inside);
          below = λ k. ground (arith, rank-grown (c + 1 + 1), r.below, size-grown);
        }

        at_grown : (j : ℕ) → Routes o grown key j → lookup o grown key ≡ value_at grown j
        at_grown j q = lookup_at o grown key insert_node_after-IsSorted j q

        lookup_split : lookup o grown key ≡ (
            if value_at p c == value_at p i
            then if less key new_key then value_at p i else new_value
            else value_at p c)
        lookup_split = elim (Bool-cases (ltb c i)) [
          | inl before ↦
              at_grown c (Routes-before (ground arith))
              ∙ ground (arith, array-grown c, injective c i, r.inside, inside)
          | inr reached ↦ elim (Bool-cases (c == i)) [
            | inl equal ↦ elim (Bool-cases (less key new_key)) [
              | inl left ↦
                  at_grown c (Routes-left (ground arith) left)
                  ∙ ground (arith, array-grown c, r.inside)
              | inr right ↦
                  at_grown (c + 1) (Routes-right (ground arith) right)
                  ∙ ground (arith, array-grown (c + 1), r.inside)
            ]
            | inr other ↦
                at_grown (c + 1) (Routes-after (ground arith))
                ∙ ground (arith, array-grown (c + 1), injective c i, r.inside, inside)
          ]
        ]

      -- In a sorted internal page without repeated children, after a new child is inserted behind
      -- the child i under a key between its neighbours', a key that led to i leads to it if it is
      -- smaller than the new key and to the new child if not, and every other key leads where it
      -- led.
      pub lookup-insert_node_after :
          (key : Key)
          → lookup o (insert_node_after (value_at p i) new_key new_value p).0 key ≡ (
              if lookup o p key == value_at p i
              then if less key new_key then value_at p i else new_value
              else lookup o p key)
      lookup-insert_node_after key =
          let (c, r, found, only) = lookup-Routes o p key sorted (omega (arith, inside)) in
          rw found (lookup_split key c r)

    -- Below, the child `i` was merged into the one before it.
    module _ (later : 1 ≤ i) where
      size-remove : size (remove i p) + 1 ≡ size p
      unfolding remove
      size-remove = omega arith

      array-remove :
          (j : ℕ)
          → j < size (remove i p)
          → (remove i p).array j ≡ (if ltb j i then p.array j else p.array (j + 1))
      unfolding remove
      array-remove j h = ground (arith, shift_down_lem (size p - (i + 1)) i p.array j)

      rank-remove :
          (j : ℕ)
          → j < size (remove i p)
          → rank_at o (remove i p) j ≡ (if ltb j i then rank_at o p j else rank_at o p (j + 1))
      rank-remove j h = ground (arith, array-remove j h)

      pub remove-IsSorted : IsSorted o (remove i p)
      remove-IsSorted j k low less' h = ground (
        arith,
        rank-remove j,
        rank-remove k,
        size-remove,
        sorted j k,
        sorted (j + 1) (k + 1),
        sorted j (k + 1),
      )

      module _ (key : Key) (c : ℕ) (r : Routes o p key c) where
        Routes-kept : c < i → Routes o (remove i p) key c
        Routes-kept h = record {
          inside = omega (arith, r.inside, size-remove);
          from = λ k. ground (arith, rank-remove c, r.from, size-remove);
          below = λ k. ground (arith, rank-remove (c + 1), r.below, size-remove, sorted i (i + 1));
        }

        Routes-moved : i ≤ c → Routes o (remove i p) key (c - 1)
        Routes-moved h = record {
          inside = omega (arith, r.inside, size-remove);
          from = λ k.
              ground (arith, rank-remove (c - 1), r.from, r.inside, size-remove, sorted (c - 1) c);
          below = λ k. ground (arith, rank-remove (c - 1 + 1), r.below, size-remove);
        }

        at_removed :
            (j : ℕ)
            → Routes o (remove i p) key j
            → lookup o (remove i p) key ≡ value_at (remove i p) j
        at_removed j q = lookup_at o (remove i p) key remove-IsSorted j q

        lookup_merged :
            lookup o (remove i p) key
            ≡ (if value_at p c == value_at p i then value_at p (i - 1) else value_at p c)
        lookup_merged = elim (Bool-cases (ltb c i)) [
          | inl before ↦
              at_removed c (Routes-kept (ground arith))
              ∙ ground (arith, array-remove c, injective c i, r.inside, inside, size-remove)
          | inr reached ↦
              at_removed (c - 1) (Routes-moved (ground arith))
              ∙ ground (arith, array-remove (c - 1), injective c i, r.inside, inside, size-remove)
        ]

      -- In a sorted internal page without repeated children, after a child other than the first is
      -- removed, a key that led to it leads to the one before it, and every other key leads where
      -- it led.
      pub lookup-remove_child :
          (key : Key)
          → lookup o (remove i p) key
            ≡ (if lookup o p key == value_at p i then value_at p (i - 1) else lookup o p key)
      lookup-remove_child key =
          let (c, r, found, only) = lookup-Routes o p key sorted (omega (arith, inside)) in
          rw found (lookup_merged key c r)
