-- ===== src/BPlusTree/Merges/Leaves.antt =====
-- `CoalesceOrRedistribute` at a leaf that fits into one page with a sibling.
use dbplayground.Base.{
  ℕ, suc, ◌+◌, ◌-◌, ◌<◌, ◌≡◌, ◌≢◌, refl, sym, ◌∙◌, ap, none, some, Bool, true, false, arith, ltb,
  ◌==◌,
}
use dbplayground.Base.Result.{Result, ok, ◌>>=◌}
use dbplayground.BPlusTree.{leaf, internal, Setup, Tree, fit_one, fetch, fetch_internal}
use dbplayground.BPlusTree.Siblings.{Rebalance, delete_if}
use dbplayground.BPlusTree.Removal.{
  with_sibling, left_of, place_of, coalesce_left, coalesce_right, rebalance,
  coalesce_or_redistribute,
}
use dbplayground.Disk.{invalid_page_id}
use dbplayground.Internal
use dbplayground.Internal.{InternalPage, value_at, value_index, value_index_from}
use dbplayground.KeyOrder.{KeyOrder}
use dbplayground.Leaf.{LeafPage}
use dbplayground.TreePage.{get_max_size}
use dbplayground.BPlusTree.Merges.{
  IsMerged, balance_parent, follow, leaf_internal, value_index_first, fit_one-room,
  fit_one-room_right, merged_tree, merged_tree-IsMerged, coalesce-merged, or_else-some,
}

module _ (o : KeyOrder) (s : Setup (o.Key)) where
  open o use {Key}

  module _ (n id : ℕ) (t : Tree Key) (p : LeafPage Key) (parent : InternalPage Key)
      (here : t.pages id ≡ some (leaf p)) (not_root : p.header.parent_page_id ≢ invalid_page_id)
      (above : t.pages p.header.parent_page_id ≡ some (internal parent)) where
    abbrev parent_id : ℕ
    parent_id = p.header.parent_page_id

    other_page : (q : ℕ) (l : LeafPage Key) → t.pages q ≡ some (leaf l) → q ≢ parent_id
    other_page q l there e = leaf_internal o s (sym there ∙ ap t.pages e ∙ above)

    rebalanced :
        coalesce_or_redistribute o s (suc n) id t
        ≡ rebalance o s (coalesce_or_redistribute o s n) (place_of o s id (leaf p) parent) t
    unfolding coalesce_or_redistribute fetch fetch_internal
    rebalanced =
        let inner : (parent_id == invalid_page_id) ≡ false = ground arith in
        rw (here, inner, above) refl

    abbrev next : Rebalance o s
    next = coalesce_or_redistribute o s n

    -- The attempt to merge with the left sibling `l`, the child `i`.
    left_attempt :
        (i : ℕ) (l : LeafPage Key)
        → value_at parent i ≢ id
        → suc i < Internal.size parent
        → t.pages (value_at parent i) ≡ some (leaf l)
        → get_max_size l.header ≡ s.leaf_max_size - 1
        → fit_one s (leaf l) (leaf p) ≡ true
        → coalesce_left o s next (place_of o s id (leaf p) parent) t i (value_at parent i) (leaf l)
          ≡ (follow o s next parent_id
                (Internal.size parent - 1)
                (merged_tree o s (value_at parent i) id parent_id (suc i) l p parent t)
              >>= λ r. ok (some (false, delete_if o s r.0 parent_id r.1)))
    unfolding coalesce_left place_of
    left_attempt i l apart inside beside max fits =
        let room = fit_one-room o s l p max fits in
        let e : i + 1 ≡ suc i = omega arith in
        let made =
          coalesce-merged o s (value_at parent i) id parent_id (suc i) l p parent t apart
            (other_page _ l beside) (other_page id p here) inside above next room in
        rw (fits, e, made) refl

    balanced :
        (t' : Tree Key) (smaller : InternalPage Key)
        → Internal.size smaller + 1 ≡ Internal.size parent
        → (follow o s next parent_id (Internal.size parent - 1) t' >>= λ r.
            ok (false, delete_if o s r.0 parent_id r.1))
          ≡ balance_parent o s next parent_id smaller t'
    balanced t' smaller fewer =
        let same : Internal.size parent - 1 ≡ Internal.size smaller = omega (arith, fewer) in
        ap
          (λ k. follow o s next parent_id k t' >>= λ r. ok (false, delete_if o s r.0 parent_id r.1))
          same

    rebalance-left :
        (i : ℕ) (l : LeafPage Key) (r : Result (Bool × Tree Key))
        → value_index parent id ≡ some (suc i)
        → t.pages (value_at parent i) ≡ some (leaf l)
        → coalesce_left o s next (place_of o s id (leaf p) parent) t i (value_at parent i) (leaf l)
          ≡ (r >>= λ q. ok (some (false, delete_if o s q.0 parent_id q.1)))
        → rebalance o s next (place_of o s id (leaf p) parent) t
          ≡ (r >>= λ q. ok (false, delete_if o s q.0 parent_id q.1))
    unfolding rebalance place_of fetch
    rebalance-left i l r place beside attempt =
        rw (place, beside, attempt) (or_else-some o s r parent_id _)

    -- A leaf that is not the root, which its parent has behind another leaf, is coalesced with it,
    -- if this left sibling is made with the tree's size and the two fit into one page: the sibling
    -- has its own pairs with the leaf's behind them and the leaf's link, the leaf's page is
    -- deleted, the parent has lost the pair of the leaf, and no other page changes; then the
    -- parent is balanced if it has too few children, and deleted if that says so.
    pub coalesce_or_redistribute-merges_left :
        (i : ℕ) (l : LeafPage Key)
        → value_index parent id ≡ some (suc i)
        → t.pages (value_at parent i) ≡ some (leaf l)
        → get_max_size l.header ≡ s.leaf_max_size - 1
        → fit_one s (leaf l) (leaf p) ≡ true
        → (t' : Tree Key) × (m : IsMerged o s t t'
            (value_at parent i)
            l
            id
            p
            parent_id
            parent
            (suc i))
          × (coalesce_or_redistribute o s (suc n) id t
              ≡ balance_parent o s (coalesce_or_redistribute o s n) parent_id m.smaller t')
    coalesce_or_redistribute-merges_left i l place beside max fits =
        let (low, inside, first) = value_index_first o s parent id (suc i) place in
        let apart = first i (omega arith) (omega arith) in
        let t' = merged_tree o s (value_at parent i) id parent_id (suc i) l p parent t in
        let m =
          merged_tree-IsMerged o s (value_at parent i) id parent_id (suc i) l p parent t apart
            (other_page _ l beside) (other_page id p here) inside above in
        (
          t',
          m,
          rebalanced
              ∙ rebalance-left i l _ place beside (left_attempt i l apart inside beside max fits)
              ∙ balanced t' m.smaller m.fewer,
        )

    -- The leaf has no left sibling, or one that it does not fit into one page with.
    pub data NoRoomLeft (i : ℕ) : Type 0 where
      leftmost : i ≡ 0 → NoRoomLeft i
      too_large :
          (j : ℕ) (l : LeafPage Key)
          → i ≡ suc j
          → t.pages (value_at parent j) ≡ some (leaf l)
          → fit_one s (leaf l) (leaf p) ≡ false
          → NoRoomLeft i

    none_left :
        (i : ℕ)
        → NoRoomLeft i
        → with_sibling o s
            (left_of (some i))
            parent
            t
            (coalesce_left o s next (place_of o s id (leaf p) parent) t)
          ≡ ok none
    unfolding coalesce_left place_of fetch
    none_left i (leftmost e) = rw e refl
    none_left i (too_large j l e beside large) = rw (e, beside, large) refl

    right_attempt :
        (i : ℕ) (r : LeafPage Key)
        → value_at parent (i + 1) ≢ id
        → i + 1 < Internal.size parent
        → t.pages (value_at parent (i + 1)) ≡ some (leaf r)
        → get_max_size p.header ≡ s.leaf_max_size - 1
        → fit_one s (leaf r) (leaf p) ≡ true
        → coalesce_right o s next
            (place_of o s id (leaf p) parent)
            t
            (i + 1)
            (value_at parent (i + 1))
            (leaf r)
          ≡ (follow o s next parent_id
                (Internal.size parent - 1)
                (merged_tree o s id (value_at parent (i + 1)) parent_id (i + 1) p r parent t)
              >>= λ q. ok (some (false, delete_if o s q.0 parent_id q.1)))
    unfolding coalesce_right place_of
    right_attempt i r apart inside beside max fits =
        let room = fit_one-room_right o s p r max fits in
        let made =
          coalesce-merged o s id (value_at parent (i + 1)) parent_id (i + 1) p r parent t
            (λ e. apart (sym e)) (other_page id p here) (other_page _ r beside) inside above next
            room in
        rw (fits, made) refl

    rebalance-right :
        (i : ℕ) (l : LeafPage Key) (r : Result (Bool × Tree Key))
        → value_index parent id ≡ some i
        → NoRoomLeft i
        → i + 1 < Internal.size parent
        → t.pages (value_at parent (i + 1)) ≡ some (leaf l)
        → coalesce_right o s next
            (place_of o s id (leaf p) parent)
            t
            (i + 1)
            (value_at parent (i + 1))
            (leaf l)
          ≡ (r >>= λ q. ok (some (false, delete_if o s q.0 parent_id q.1)))
        → rebalance o s next (place_of o s id (leaf p) parent) t
          ≡ (r >>= λ q. ok (false, delete_if o s q.0 parent_id q.1))
    unfolding rebalance place_of fetch
    rebalance-right i l r place left inside beside attempt =
        let more : ltb (i + 1) (Internal.size parent) ≡ true = ground (arith, inside) in
        rw (place, none_left i left, more, beside, attempt) (or_else-some o s r parent_id _)

    -- A leaf that is not the root, without a left sibling or with one that it does not fit into
    -- one page with, is coalesced with the leaf behind it in their parent, if that is another
    -- page, the leaf is made with the tree's size and the two fit into one page: the leaf has its
    -- own pairs with the right sibling's behind them and the sibling's link, the sibling's page is
    -- deleted, the parent has lost the pair of the sibling, and no other page changes; then the
    -- parent is balanced if it has too few children, and deleted if that says so.
    pub coalesce_or_redistribute-merges_right :
        (i : ℕ) (r : LeafPage Key)
        → value_index parent id ≡ some i
        → NoRoomLeft i
        → i + 1 < Internal.size parent
        → value_at parent (i + 1) ≢ id
        → t.pages (value_at parent (i + 1)) ≡ some (leaf r)
        → get_max_size p.header ≡ s.leaf_max_size - 1
        → fit_one s (leaf r) (leaf p) ≡ true
        → (t' : Tree Key) × (m : IsMerged o s t t' id p
            (value_at parent (i + 1))
            r
            parent_id
            parent
            (i + 1))
          × (coalesce_or_redistribute o s (suc n) id t
              ≡ balance_parent o s (coalesce_or_redistribute o s n) parent_id m.smaller t')
    coalesce_or_redistribute-merges_right i r place left inside apart beside max fits =
        let t' = merged_tree o s id (value_at parent (i + 1)) parent_id (i + 1) p r parent t in
        let m =
          merged_tree-IsMerged o s id (value_at parent (i + 1)) parent_id (i + 1) p r parent t
            (λ e. apart (sym e)) (other_page id p here) (other_page _ r beside) inside above in
        let attempt = right_attempt i r apart inside beside max fits in
        (
          t',
          m,
          rebalanced
              ∙ rebalance-right i r _ place left inside beside attempt
              ∙ balanced t' m.smaller m.fewer,
        )
