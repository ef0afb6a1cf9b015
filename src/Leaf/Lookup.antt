-- ===== src/Leaf/Lookup.antt =====
-- A lookup in a leaf page, by the binary search, finds the pair with the key wherever it stands.
use dbplayground.Base.{
  ℕ, zero, suc, ◌+◌, ◌<◌, ◌≤◌, ◌≡◌, ◌≢◌, ◌⊎◌, arith, Bool-cases, inl, inr, List, [], ◌∷◌, Option,
  none, some, if◌then◌else◌, slice, refl, ◌∙◌, sym, true,
}
use dbplayground.KeyOrder.{KeyOrder}
use dbplayground.Rid.{Rid}
use dbplayground.Leaf.{LeafPage, size, key_at, key_index, lookup, is_hit, entries}
use dbplayground.Leaf.Search.{rank_at, IsSorted, Splits, key_index-Splits}

module _ (o : KeyOrder) where
  open o use {Key, less, same, rank, same_rank}

  -- The first pair with the key, from the front of a list.
  pub assoc : List (Key × Rid) → Key → Option Rid
  assoc [] key = none
  assoc ((k, v) ∷ l) key = if same k key then some v else assoc l key

  module _ (p : LeafPage Key) (key : Key) (sorted : IsSorted o p) where
    pub is_hit_rank : (i : ℕ) → is_hit o p i key ≡ true → (i < size p) × (rank_at o p i ≡ rank key)
    is_hit_rank i h = ground (arith, same_rank (key_at o p i) key)

    pub lookup_found :
        (i : ℕ)
        → i < size p
        → rank_at o p i ≡ rank key
        → (lookup o p key ≡ some (p.array i).1) × (key_index o p key ≡ i)
    unfolding lookup
    lookup_found i inside hit = ground (arith, at, same_rank (key_at o p i) key)
      where
        splits : Splits o p key (key_index o p key)
        splits = key_index-Splits o p key sorted

        at : key_index o p key ≡ i
        at = ground (
          arith,
          splits.below i,
          splits.above (key_index o p key),
          splits.bound,
          sorted (key_index o p key) i,
        )

    pub lookup_missing : ((i : ℕ) → i < size p → rank_at o p i ≢ rank key) → lookup o p key ≡ none
    unfolding lookup
    lookup_missing absent =
        ground (arith, absent (key_index o p key), same_rank (key_at o p (key_index o p key)) key)

    -- A key of the page, and where it stands, or none.
    pub lookup-cases :
        ((i : ℕ) × (i < size p)
          × (rank_at o p i ≡ rank key)
          × (lookup o p key ≡ some (p.array i).1))
        ⊎ (((i : ℕ) → i < size p → rank_at o p i ≢ rank key) × (lookup o p key ≡ none))
    lookup-cases = elim (Bool-cases (is_hit o p (key_index o p key) key)) [
      | inl hit ↦
          let (inside, equal) = is_hit_rank (key_index o p key) hit in
          inl (key_index o p key, inside, equal, (lookup_found (key_index o p key) inside equal).0)
      | inr miss ↦
          let absent : (i : ℕ) → i < size p → rank_at o p i ≢ rank key = λ i inside equal.
            ground (arith, (lookup_found i inside equal).1, same_rank (key_at o p i) key) in
          inr (absent, lookup_missing absent)
    ]

    assoc-slice_found :
        (n i j : ℕ)
        → i ≤ j
        → j < i + n
        → i + n ≤ size p
        → rank_at o p j ≡ rank key
        → assoc (slice n i p.array) key ≡ some (p.array j).1
    unfolding assoc slice
    assoc-slice_found zero i j low high inside equal = absurd (omega arith)
    assoc-slice_found (suc n) i j low high inside equal =
        ground (arith, assoc-slice_found n (i + 1) j, same_rank (key_at o p i) key, sorted i j)

    assoc-slice_missing :
        (n i : ℕ)
        → i + n ≤ size p
        → ((j : ℕ) → j < size p → rank_at o p j ≢ rank key)
        → assoc (slice n i p.array) key ≡ none
    unfolding assoc slice
    assoc-slice_missing zero i inside absent = refl
    assoc-slice_missing (suc n) i inside absent = ground (
      arith,
      assoc-slice_missing n (i + 1) (omega arith) absent,
      same_rank (key_at o p i) key,
      absent i,
    )

    -- On a sorted leaf the binary search finds what a walk over the pairs finds.
    pub lookup-assoc : lookup o p key ≡ assoc (entries p) key
    lookup-assoc = elim lookup-cases [
      | inl (i, inside, equal, found) ↦
          found
          ∙ sym (assoc-slice_found (size p) 0 i (omega arith) (omega arith) (omega arith) equal)
      | inr (absent, missing) ↦ missing ∙ sym (assoc-slice_missing (size p) 0 (omega arith) absent)
    ]
