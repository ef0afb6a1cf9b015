-- ===== src/BPlusTree/Halves.antt =====
-- The halves of a leaf that was split.
use dbplayground.Base.{ℕ, ◌+◌, ◌≤◌, ◌≡◌, ◌≢◌, refl, ◌++◌, some, true, false, arith, ◌==◌}
use dbplayground.Base.Result.{ok}
use dbplayground.BPlusTree.{leaf, Setup, Tree, new_page, put_page, blank_leaf, min_size, max_size}
use dbplayground.BPlusTree.Insertion.{split_leaf}
use dbplayground.KeyOrder.{KeyOrder}
use dbplayground.Leaf
use dbplayground.Leaf.{LeafPage}
use dbplayground.Leaf.Moves.{move_half_to_split}

module _ (o : KeyOrder) (s : Setup (o.Key)) where
  open o use {Key}

  -- The size of a page lies between the least and the greatest of its kind.
  abbrev pub IsBalanced : LeafPage Key → Type 0
  IsBalanced p = (min_size s (leaf p) ≤ Leaf.size p) × (Leaf.size p ≤ max_size s (leaf p))

  -- A leaf of one pair too many, in a tree whose leaves hold two pairs at least before they are
  -- full, is split, if the pool has a frame for the new page, into two pages whose sizes are
  -- within their bounds; together they have the leaf's pairs in their order, and the new page
  -- stands between the leaf and the leaf's successor.
  pub split_leaf-halves :
      (id : ℕ) (p : LeafPage Key) (t : Tree Key)
      → s.has_frame t.next_page_id ≡ true
      → id ≢ t.next_page_id
      → 2 ≤ s.leaf_max_size
      → Leaf.size p ≡ max_size s (leaf p) + 1
      → (l : LeafPage Key) × (r : LeafPage Key) × (t' : Tree Key) × (split_leaf o s id p t
          ≡ ok (t.next_page_id, t'))
        × (t'.pages id ≡ some (leaf l))
        × (t'.pages t.next_page_id ≡ some (leaf r))
        × (Leaf.entries l ++ Leaf.entries r ≡ Leaf.entries p)
        × IsBalanced l
        × IsBalanced r
        × (l.next_page_id ≡ t.next_page_id)
        × (r.next_page_id ≡ p.next_page_id)
  unfolding split_leaf new_page Leaf.init min_size max_size
  split_leaf-halves id p t frame other big full =
      let blank = Leaf.init t.next_page_id p.header.parent_page_id s.leaf_max_size (blank_leaf s) in
      let (p', r', moved, entries, left_size, right_size) =
        move_half_to_split p blank refl (omega arith) in
      let distinct : (t.next_page_id == id) ≡ false = ground arith in
      let left = record p' { next_page_id = t.next_page_id } in
      let right = record r' { next_page_id = p.next_page_id } in
      let t' = record t { next_page_id = t.next_page_id + 1 } in
      (
        left,
        right,
        put_page t.next_page_id (leaf right) (put_page id (leaf left) t'),
        rw (frame, moved) refl,
        rw distinct (ground arith),
        ground arith,
        entries,
        (omega arith, omega arith),
        (omega arith, omega arith),
        refl,
        refl,
      )
