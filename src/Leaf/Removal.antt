-- ===== src/Leaf/Removal.antt =====
-- Removal from a leaf page keeps the order of the keys and takes out the one key only.
use dbplayground.Base.{
  ℕ, ◌+◌, ◌-◌, ◌<◌, ◌≡◌, ◌≢◌, arith, Bool-cases, inl, inr, ltb, none, if◌then◌else◌, ◌∙◌, sym, true,
  false, shift_down_lem,
}
use dbplayground.KeyOrder.{KeyOrder}
use dbplayground.Leaf.{LeafPage, size, key_at, key_index, lookup, is_hit, remove_and_delete_record}
use dbplayground.Leaf.Search.{rank_at, IsSorted}
use dbplayground.Leaf.Lookup.{lookup-cases, lookup_found, lookup_missing}

module _ (o : KeyOrder) where
  open o use {Key, same, rank, same_rank}

  module _ (p : LeafPage Key) (key : Key) (sorted : IsSorted o p) where
    abbrev after : LeafPage Key
    after = (remove_and_delete_record o p key).0

    remove_missing : lookup o p key ≡ none → after ≡ p
    unfolding remove_and_delete_record lookup
    remove_missing h = ground arith

    module _ (i : ℕ) (inside : i < size p) (equal : rank_at o p i ≡ rank key) where
      at : key_index o p key ≡ i
      at = (lookup_found o p key sorted i inside equal).1

      hit : is_hit o p (key_index o p key) key ≡ true
      hit = ground (arith, at, same_rank (key_at o p i) key)

      size-remove : size after + 1 ≡ size p
      unfolding remove_and_delete_record
      size-remove = ground (arith, hit)

      array-remove :
          (j : ℕ)
          → j < size after
          → after.array j ≡ (if ltb j i then p.array j else p.array (j + 1))
      unfolding remove_and_delete_record
      array-remove j h = ground (
        arith,
        at,
        hit,
        size-remove,
        shift_down_lem (size p - (key_index o p key + 1)) (key_index o p key) p.array j,
      )

      rank-remove :
          (j : ℕ)
          → j < size after
          → rank_at o after j ≡ (if ltb j i then rank_at o p j else rank_at o p (j + 1))
      rank-remove j h = ground (arith, array-remove j h)

      removed-IsSorted : IsSorted o after
      removed-IsSorted j k less' h = ground (
        arith,
        rank-remove j,
        rank-remove k,
        sorted j k,
        sorted (j + 1) (k + 1),
        sorted j (k + 1),
        size-remove,
      )

      removed_missing : (k : Key) → same key k ≡ true → lookup o after k ≡ none
      removed_missing k e = lookup_missing o after k removed-IsSorted (λ j h.
          ground (arith, rank-remove j, sorted j i, sorted i (j + 1), size-remove, same_rank key k))

      removed_other : (k : Key) → same key k ≡ false → lookup o after k ≡ lookup o p k
      removed_other k e = elim (lookup-cases o p k sorted) [
        | inl (j, below, match, found) ↦ elim (Bool-cases (ltb j i)) [
          | inl before ↦
              (lookup_found o after k removed-IsSorted j (ground (arith, size-remove))
                (ground (arith, rank-remove j, size-remove))).0
              ∙ ground (arith, array-remove j, size-remove)
          | inr later ↦
              (lookup_found o after k removed-IsSorted (j - 1)
                (ground (arith, size-remove, same_rank key k))
                (ground (arith, rank-remove (j - 1), size-remove, same_rank key k))).0
              ∙ ground (arith, array-remove (j - 1), size-remove, same_rank key k)
        ]
        | inr (absent, none') ↦
            lookup_missing o after k removed-IsSorted
              (λ j h. ground (arith, rank-remove j, absent j, absent (j + 1), size-remove))
            ∙ sym none'
      ]

    -- Removing a key from a sorted leaf keeps the keys in order, whether the leaf has it or not.
    pub remove-IsSorted : IsSorted o (remove_and_delete_record o p key).0
    remove-IsSorted = elim (lookup-cases o p key sorted) [
      | inl (i, inside, equal, found) ↦ removed-IsSorted i inside equal
      | inr (absent, missing) ↦ rw (remove_missing missing) sorted
    ]

    -- After a removal from a sorted leaf a lookup misses the key, and finds for any other key what
    -- it found before.
    pub lookup-remove :
        (k : Key)
        → lookup o (remove_and_delete_record o p key).0 k
          ≡ (if same key k then none else lookup o p k)
    lookup-remove k = elim (lookup-cases o p key sorted) [
      | inl (i, inside, equal, found) ↦
          ground (arith, removed_missing i inside equal k, removed_other i inside equal k)
      | inr (absent, missing) ↦
          rw (remove_missing missing) (ground (arith, same_rank key k, missing_same absent k))
    ]
      where
        missing_same :
            ((i : ℕ) → i < size p → rank_at o p i ≢ rank key)
            → (k : Key) → rank key ≡ rank k
            → lookup o p k ≡ none
        missing_same absent k e =
            lookup_missing o p k sorted (λ i inside. ground (arith, absent i inside))
