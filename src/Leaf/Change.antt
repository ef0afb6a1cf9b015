-- ===== src/Leaf/Change.antt =====
-- Insertion into a leaf page and removal from it keep the order of the keys, and change what a
-- lookup finds for the one key only.
use dbplayground.Base.{
  ℕ, ◌+◌, ◌-◌, ◌<◌, ◌≡◌, ◌≢◌, arith, Bool-cases, inl, inr, ltb, leb, ◌==◌, none, some,
  if◌then◌else◌, refl, ◌∙◌, sym, shift_up_lem,
}
use dbplayground.KeyOrder.{KeyOrder}
use dbplayground.Rid.{Rid}
use dbplayground.Leaf.{LeafPage, size, key_index, lookup, insert}
use dbplayground.Leaf.Search.{rank_at, IsSorted, Splits, key_index-Splits}
use dbplayground.Leaf.Lookup.{lookup-cases, lookup_found, lookup_missing}

module _ (o : KeyOrder) where
  open o use {Key, less, same, rank, same_rank}

  module _ (p : LeafPage Key) (key : Key) (value : Rid) (sorted : IsSorted o p) where
    array-insert :
        (j : ℕ)
        → (insert o p key value).0.array j ≡ (
            if ltb j (key_index o p key)
            then p.array j
            else if j == key_index o p key
            then (key, value)
            else if leb j (size p)
            then p.array (j - 1)
            else p.array j)
    unfolding insert
    array-insert j = ground (
      arith,
      shift_up_lem (size p - key_index o p key) (key_index o p key) p.array j,
      (key_index-Splits o p key sorted).bound,
    )

    size-insert : size (insert o p key value).0 ≡ size p + 1
    unfolding insert
    size-insert = refl

    rank-insert :
        (j : ℕ)
        → rank_at o (insert o p key value).0 j ≡ (
            if ltb j (key_index o p key)
            then rank_at o p j
            else if j == key_index o p key
            then rank key
            else if leb j (size p)
            then rank_at o p (j - 1)
            else rank_at o p j)
    rank-insert j = ground (arith, array-insert j)

    absent_ne : lookup o p key ≡ none → (i : ℕ) → i < size p → rank_at o p i ≢ rank key
    absent_ne missing = elim (lookup-cases o p key sorted) [
      | inl (i, inside, equal, found) ↦ cc
      | inr (absent, same') ↦ absent
    ]

    -- Inserting a key that a sorted leaf lacks keeps the keys in order.
    pub insert-IsSorted : lookup o p key ≡ none → IsSorted o (insert o p key value).0
    insert-IsSorted missing i j less' inside = ground (
      arith,
      rank-insert i,
      rank-insert j,
      sorted i j,
      sorted (i - 1) (j - 1),
      sorted i (j - 1),
      splits.bound,
      splits.below i,
      splits.below j,
      splits.above (i - 1),
      splits.above (j - 1),
      absent_ne missing (j - 1),
      absent_ne missing (i - 1),
      size-insert,
    )
      where
        splits : Splits o p key (key_index o p key)
        splits = key_index-Splits o p key sorted

    -- After a key that a sorted leaf lacks is inserted, a lookup finds the new value for that key,
    -- and for any other key what it found before.
    pub lookup-insert :
        (k : Key)
        → lookup o p key ≡ none
        → lookup o (insert o p key value).0 k ≡ (if same key k then some value else lookup o p k)
    lookup-insert k missing = elim (Bool-cases (same key k)) [
      | inl equal ↦ rw equal (
          (lookup_found o q k sorted' (key_index o p key) (omega (arith, size-insert, splits.bound))
            (ground (arith, rank-insert (key_index o p key), same_rank key k))).0
          ∙ ground (arith, array-insert (key_index o p key)))
      | inr other ↦ rw other (elim (lookup-cases o p k sorted) [
        | inl (i, inside, hit, found) ↦ elim (Bool-cases (ltb i (key_index o p key))) [
          | inl before ↦
              (lookup_found o q k sorted' i (omega (arith, size-insert))
                (ground (arith, rank-insert i))).0
              ∙ ground (arith, array-insert i)
          | inr after ↦
              (lookup_found o q k sorted' (i + 1) (omega (arith, size-insert))
                (ground (arith, rank-insert (i + 1)))).0
              ∙ ground (arith, array-insert (i + 1))
        ]
        | inr (absent, none') ↦
            lookup_missing o q k sorted' (λ i inside. ground (
              arith,
              rank-insert i,
              absent i,
              absent (i - 1),
              size-insert,
              same_rank key k,
              splits.bound,
            ))
            ∙ sym none'
      ])
    ]
      where
        q : LeafPage Key
        q = (insert o p key value).0

        sorted' : IsSorted o q
        sorted' = insert-IsSorted missing

        splits : Splits o p key (key_index o p key)
        splits = key_index-Splits o p key sorted
