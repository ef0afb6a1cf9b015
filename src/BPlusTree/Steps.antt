-- ===== src/BPlusTree/Steps.antt =====
-- The steps of an insertion into a full leaf whose parent has room.
use dbplayground.Base.{
  ℕ, suc, ◌+◌, ◌≤◌, ◌<◌, ◌≡◌, ◌≢◌, refl, ◌∙◌, some, true, false, arith, ◌==◌, ==_refl,
}
use dbplayground.Base.Result.{ok}
use dbplayground.BPlusTree.{
  Node, leaf, internal, Setup, Tree, header_of, fetch, fetch_internal, put_page, max_size, new_page,
  blank_leaf,
}
use dbplayground.BPlusTree.Insertion.{split_leaf, split, split_full_leaf, insert_into_parent}
use dbplayground.Disk.{invalid_page_id}
use dbplayground.Internal
use dbplayground.Internal.{InternalPage}
use dbplayground.KeyOrder.{KeyOrder}
use dbplayground.Leaf
use dbplayground.Leaf.{LeafPage}
use dbplayground.Leaf.Moves.{half_left, half_right}
use dbplayground.Leaf.Parts.{AreParts, move_half_to-AreParts}

module _ (o : KeyOrder) (s : Setup (o.Key)) where
  open o use {Key}

  insert_into_parent-room :
      (n old_id : ℕ) (key : Key) (new_id : ℕ) (t : Tree Key) (old new : Node Key)
      (parent : InternalPage Key)
      → t.pages old_id ≡ some old
      → t.pages new_id ≡ some new
      → (header_of old).parent_page_id ≢ invalid_page_id
      → t.pages (header_of old).parent_page_id ≡ some (internal parent)
      → Internal.size parent < s.internal_max_size
      → insert_into_parent o s (suc n) old_id key new_id t
        ≡ ok (
            put_page
              (header_of old).parent_page_id
              (internal (Internal.insert_node_after old_id key new_id parent).0)
              t)
  unfolding insert_into_parent fetch fetch_internal max_size Internal.insert_node_after
  insert_into_parent-room n old_id key new_id t old new parent here there inner above room =
      let not_root : ((header_of old).parent_page_id == invalid_page_id) ≡ false = ground arith in
      let fits : (Internal.size parent + 1 == s.internal_max_size + 1) ≡ false = ground arith in
      rw (here, there, not_root, above, fits) refl

  -- The two pages of the leaf `p`.
  abbrev pub left_part : ℕ → LeafPage Key → LeafPage Key
  left_part new_id p = record (half_left p) { next_page_id = new_id }

  abbrev pub blank_at : ℕ → LeafPage Key → LeafPage Key
  blank_at new_id p = Leaf.init new_id p.header.parent_page_id s.leaf_max_size (blank_leaf s)

  abbrev pub right_part : ℕ → LeafPage Key → LeafPage Key
  right_part new_id p = record (half_right p (blank_at new_id p)) { next_page_id = p.next_page_id }

  module _ (id : ℕ) (p : LeafPage Key) (t : Tree Key) (frame : s.has_frame t.next_page_id ≡ true)
      (distinct : id ≢ t.next_page_id) (two : 2 ≤ s.leaf_max_size)
      (full : Leaf.size p ≡ s.leaf_max_size) where
    abbrev new_id : ℕ
    new_id = t.next_page_id

    abbrev pub split_tree : Tree Key
    split_tree =
        put_page new_id (leaf (right_part new_id p))
          (put_page id (leaf (left_part new_id p)) (record t { next_page_id = new_id + 1 }))

    halves :
        (Leaf.move_half_to p (blank_at new_id p)
          ≡ some (half_left p, half_right p (blank_at new_id p)))
        × AreParts o p (half_left p) (half_right p (blank_at new_id p))
    unfolding Leaf.init
    halves = move_half_to-AreParts o p (blank_at new_id p) refl (omega arith) (omega arith)

    pub parts : AreParts o p (left_part new_id p) (right_part new_id p)
    parts = record {
      sizes = halves.1.sizes;
      some_right = halves.1.some_right;
      lefts = halves.1.lefts;
      rights = halves.1.rights;
    }

    split_leaf-ok : split_leaf o s id p t ≡ ok (new_id, split_tree)
    unfolding split_leaf new_page
    split_leaf-ok = rw (frame, halves.0) refl

    pub split_left : split_tree.pages id ≡ some (leaf (left_part new_id p))
    split_left = let other : (new_id == id) ≡ false = ground arith in rw (other, ==_refl id) refl

    pub split_right : split_tree.pages new_id ≡ some (leaf (right_part new_id p))
    split_right = rw (==_refl new_id) refl

    pub split_other : (i : ℕ) → i ≢ id → i ≢ new_id → split_tree.pages i ≡ t.pages i
    split_other i a b = ground arith

    pub split_full_leaf-room :
        (n : ℕ) (parent : InternalPage Key)
        → p.header.parent_page_id ≢ invalid_page_id
        → p.header.parent_page_id ≢ id
        → p.header.parent_page_id ≢ new_id
        → t.pages p.header.parent_page_id ≡ some (internal parent)
        → Internal.size parent < s.internal_max_size
        → split_full_leaf o s (suc n) id p t
          ≡ ok (
              put_page p.header.parent_page_id
                (internal
                  (Internal.insert_node_after id
                    (Leaf.key_at o (right_part new_id p) 0)
                    new_id
                    parent).0)
                split_tree)
    unfolding split_full_leaf split fetch
    split_full_leaf-room n parent inner a b above room =
        rw (split_leaf-ok, split_right)
          (insert_into_parent-room n id (Leaf.key_at o (right_part new_id p) 0) new_id split_tree
            (leaf (left_part new_id p)) (leaf (right_part new_id p)) parent split_left split_right
            inner (split_other p.header.parent_page_id a b ∙ above) room)
