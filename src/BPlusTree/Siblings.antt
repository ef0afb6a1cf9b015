-- ===== src/BPlusTree/Siblings.antt =====
-- src/Container/BPlusTree.cpp: the steps that a page with too few pairs takes part in: a root that is
-- taken off, a merge of two siblings, and a pair borrowed from a sibling.
use dbplayground.Base.{ℕ, Option, none, some, Bool, true, false, leb, ltb, ◌==◌, if◌then◌else◌}
use dbplayground.Base.Result.{Result, err, ok, ◌>>=◌, page_overflow, undefined}
use dbplayground.BPlusTree.{
  Node, leaf, internal, Setup, Tree, size_of, fetch, fetch_internal, put_page, delete_page,
  set_parent, parents_of, set_parents, min_size,
}
use dbplayground.Disk.{invalid_page_id}
use dbplayground.Internal
use dbplayground.Internal.{InternalPage, Parents}
use dbplayground.KeyOrder.{KeyOrder}
use dbplayground.Leaf
use dbplayground.Leaf.{LeafPage}

module _ (o : KeyOrder) (s : Setup (o.Key)) where
  open o use {Key}

  -- The new root has no parent.
  unfoldable pub promote : ℕ → Tree Key → Result (Tree Key)
  unfolding fetch
  promote id t = fetch id t >>= λ node.
      ok (put_page id (set_parent invalid_page_id node) (record t { root_page_id = id }))

  abbrev adjust_internal : ℕ → InternalPage Key → Tree Key → Result (Bool × Tree Key)
  adjust_internal id p t =
      let (p', child) = Internal.remove_and_return_only_child p in
      if Internal.size p == 1
      then (promote child (put_page id (internal p') t) >>= λ t'. ok (true, t'))
      else ok (false, t)

  abbrev adjust_leaf : LeafPage Key → Tree Key → Result (Bool × Tree Key)
  adjust_leaf p t =
      if Leaf.size p == 0
      then ok (true, record t { root_page_id = invalid_page_id })
      else ok (false, t)

  -- The result says whether the old root is to be deleted.
  unfoldable pub adjust_root : ℕ → Node Key → Tree Key → Result (Bool × Tree Key)
  unfolding promote Internal.remove_and_return_only_child
  adjust_root id (internal p) t = adjust_internal id p t
  adjust_root id (leaf p) t = adjust_leaf p t

  abbrev pub delete_if : Bool → ℕ → Tree Key → Tree Key
  delete_if b id t = if b then delete_page id t else t

  unfoldable pub shrink_root : ℕ → Node Key → Tree Key → Result (Bool × Tree Key)
  unfolding adjust_root delete_page
  shrink_root id node t =
      if leb (size_of node) 1
      then (adjust_root id node t >>= λ (del_root, t'). ok (false, delete_if del_root id t'))
      else ok (false, t)

  abbrev put_merged : ℕ → ℕ → Tree Key → Option (LeafPage Key × LeafPage Key) → Result (Tree Key)
  put_merged id neighbor_id t none = err page_overflow
  put_merged id neighbor_id t (some (p, neighbor)) =
      let linked = record neighbor { next_page_id = p.next_page_id } in
      ok (put_page neighbor_id (leaf linked) (put_page id (leaf p) t))

  -- The entries of the node go to its left neighbour.
  unfoldable pub merge : ℕ → Node Key → ℕ → Node Key → Key → Tree Key → Result (Tree Key)
  unfolding Leaf.move_all_to Internal.move_all_to set_parents
  merge neighbor_id (leaf l) id (leaf p) middle_key t =
      put_merged id neighbor_id t (Leaf.move_all_to p l)
  merge neighbor_id (internal l) id (internal p) middle_key t =
      let (p', l', parents) = Internal.move_all_to p l middle_key (parents_of t) in
      ok (set_parents parents (put_page neighbor_id (internal l') (put_page id (internal p') t)))
  merge neighbor_id (leaf l) id (internal p) middle_key t = err undefined
  merge neighbor_id (internal l) id (leaf p) middle_key t = err undefined

  abbrev pub Rebalance : Type 0
  Rebalance = ℕ → Tree Key → Result (Bool × Tree Key)

  abbrev drop_entry : Rebalance → ℕ → InternalPage Key → ℕ → Tree Key → Result (Bool × Tree Key)
  drop_entry next parent_id parent index t =
      let p = Internal.remove index parent in
      let t' = put_page parent_id (internal p) t in
      if ltb (Internal.size p) (min_size s (internal p)) then next parent_id t' else ok (false, t')

  -- The parent is read again after the merge, which may have set its header.
  unfoldable pub coalesce :
      Rebalance
      → ℕ
      → Node Key
      → ℕ
      → Node Key
      → ℕ
      → InternalPage Key
      → ℕ
      → Tree Key
      → Result (Bool × Tree Key)
  unfolding merge delete_page Internal.remove min_size fetch_internal
  coalesce next neighbor_id neighbor id node parent_id parent index t =
      merge neighbor_id neighbor id node (Internal.key_at parent index) t >>= λ t'.
      fetch_internal parent_id t' >>= λ parent'.
      drop_entry next parent_id parent' index (delete_page id t')

  -- The key of the parent at the place of a child, if the child has a place.
  abbrev set_key_of : Option ℕ → Key → ℕ → InternalPage Key → Tree Key → Result (Tree Key)
  set_key_of none key parent_id parent t = err undefined
  set_key_of (some i) key parent_id parent t =
      ok (put_page parent_id (internal (Internal.set_key_at i key parent)) t)

  abbrev key_of : Option ℕ → InternalPage Key → Result Key
  key_of none parent = err undefined
  key_of (some i) parent = ok (Internal.key_at parent i)

  -- From the right sibling: its first pair goes to the end of the node.
  unfoldable pub redistribute_right :
      ℕ → Node Key → ℕ → Node Key → ℕ → InternalPage Key → Tree Key → Result (Tree Key)
  unfolding Leaf.move_first_to_end_of Internal.move_first_to_end_of Internal.value_index
      Internal.set_key_at set_parents fetch_internal
  redistribute_right neighbor_id (leaf r) id (leaf p) parent_id parent t =
      let (r', p') = Leaf.move_first_to_end_of r p in
      set_key_of (Internal.value_index parent neighbor_id) (Leaf.key_at o r' 0) parent_id parent
        (put_page neighbor_id (leaf r') (put_page id (leaf p') t))
  redistribute_right neighbor_id (internal r) id (internal p) parent_id parent t =
      key_of (Internal.value_index parent neighbor_id) parent >>= λ middle_key.
      let (r', p', parents) = Internal.move_first_to_end_of r p middle_key (parents_of t) in
      let moved =
        set_parents parents (put_page neighbor_id (internal r') (put_page id (internal p') t)) in
      fetch_internal parent_id moved >>= λ parent'.
      set_key_of (Internal.value_index parent' neighbor_id) (Internal.key_at r' 0) parent_id parent'
        moved
  redistribute_right neighbor_id (leaf r) id (internal p) parent_id parent t = err undefined
  redistribute_right neighbor_id (internal r) id (leaf p) parent_id parent t = err undefined

  -- From the left sibling: its last pair goes to the front of the node.
  unfoldable pub redistribute_left :
      ℕ → Node Key → ℕ → Node Key → ℕ → InternalPage Key → Tree Key → Result (Tree Key)
  unfolding Leaf.move_last_to_front_of Internal.move_last_to_front_of Internal.value_index
      Internal.set_key_at set_parents fetch_internal
  redistribute_left neighbor_id (leaf l) id (leaf p) parent_id parent t =
      let (l', p') = Leaf.move_last_to_front_of l p in
      set_key_of (Internal.value_index parent id) (Leaf.key_at o p' 0) parent_id parent
        (put_page neighbor_id (leaf l') (put_page id (leaf p') t))
  redistribute_left neighbor_id (internal l) id (internal p) parent_id parent t =
      key_of (Internal.value_index parent id) parent >>= λ middle_key.
      let (l', p', parents) = Internal.move_last_to_front_of l p middle_key (parents_of t) in
      let moved =
        set_parents parents (put_page neighbor_id (internal l') (put_page id (internal p') t)) in
      fetch_internal parent_id moved >>= λ parent'.
      set_key_of (Internal.value_index parent' id) (Internal.key_at p' 0) parent_id parent' moved
  redistribute_left neighbor_id (leaf l) id (internal p) parent_id parent t = err undefined
  redistribute_left neighbor_id (internal l) id (leaf p) parent_id parent t = err undefined
