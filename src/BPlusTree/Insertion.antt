-- ===== src/BPlusTree/Insertion.antt =====
-- src/Container/BPlusTree.cpp: inserting. A page pointer is the page's id; the page is read where the
-- source reads it, and written where it changes it. The recursion up the tree is on fuel, a round for
-- each level.
use dbplayground.Base.{
  ℕ, zero, suc, ◌+◌, Option, none, some, Bool, true, false, ◌==◌, if◌then◌else◌,
}
use dbplayground.Base.Result.{Result, err, ok, ◌>>=◌, page_overflow, out_of_fuel}
use dbplayground.BPlusTree.{
  Node, leaf, internal, Setup, Tree, for_insert, header_of, fetch, fetch_internal, put_page,
  set_parent, parents_of, set_parents, is_empty, max_size, new_page, blank_leaf, blank_internal,
}
use dbplayground.BPlusTree.Descent.{find_leaf_page_rw}
use dbplayground.Disk.{invalid_page_id}
use dbplayground.Internal
use dbplayground.Internal.{InternalPage, Parents}
use dbplayground.KeyOrder.{KeyOrder}
use dbplayground.Leaf
use dbplayground.Leaf.{LeafPage}
use dbplayground.Rid.{Rid}
use dbplayground.TreePage.{is_root_page}

module _ (o : KeyOrder) (s : Setup (o.Key)) where
  open o use {Key}

  unfoldable pub start_new_tree : Key → Rid → Tree Key → Result (Tree Key)
  unfolding new_page Leaf.init Leaf.insert
  start_new_tree key value t = new_page s t >>= λ (id, t').
      let page = Leaf.init id invalid_page_id s.leaf_max_size (blank_leaf s) in
      ok (put_page id (leaf (Leaf.insert o page key value).0) (record t' { root_page_id = id }))

  -- The halves of a leaf are linked and put in their pages; `none` is the exception of a page that
  -- would overflow.
  abbrev link_halves :
      ℕ → ℕ → ℕ → Tree Key → Option (LeafPage Key × LeafPage Key) → Result (ℕ × Tree Key)
  link_halves id new_id next t none = err page_overflow
  link_halves id new_id next t (some (left, right)) =
      let left' = record left { next_page_id = new_id } in
      let right' = record right { next_page_id = next } in
      ok (new_id, put_page new_id (leaf right') (put_page id (leaf left') t))

  unfoldable pub split_leaf : ℕ → LeafPage Key → Tree Key → Result (ℕ × Tree Key)
  unfolding new_page Leaf.init Leaf.move_half_to
  split_leaf id p t = new_page s t >>= λ (new_id, t').
      let blank = Leaf.init new_id p.header.parent_page_id s.leaf_max_size (blank_leaf s) in
      link_halves id new_id p.next_page_id t' (Leaf.move_half_to p blank)

  unfoldable pub split_internal : ℕ → InternalPage Key → Tree Key → Result (ℕ × Tree Key)
  unfolding new_page Internal.init Internal.move_half_to set_parents
  split_internal id p t = new_page s t >>= λ (new_id, t').
      let blank =
        Internal.init new_id p.header.parent_page_id s.internal_max_size (blank_internal s) in
      let placed = put_page new_id (internal blank) t' in
      let (left, right, parents) = Internal.move_half_to p blank (parents_of placed) in
      ok (
        new_id,
        set_parents parents (put_page new_id (internal right) (put_page id (internal left) placed)),
      )

  -- `Split`, of either kind of page: the id of the new page is returned.
  unfoldable pub split : ℕ → Node Key → Tree Key → Result (ℕ × Tree Key)
  unfolding split_leaf split_internal
  split id (leaf p) t = split_leaf id p t
  split id (internal p) t = split_internal id p t

  -- A root that was split gets a parent, the new root.
  unfoldable pub grow_root : ℕ → Node Key → Key → ℕ → Node Key → Tree Key → Result (Tree Key)
  unfolding new_page Internal.init Internal.populate_new_root
  grow_root old_id old key new_id new t = new_page s t >>= λ (root_id, t').
      let blank = Internal.init root_id invalid_page_id s.internal_max_size (blank_internal s) in
      let root = Internal.populate_new_root old_id key new_id blank in
      ok (
        put_page new_id (set_parent root_id new) (
          put_page old_id (set_parent root_id old)
            (put_page root_id (internal root) (record t' { root_page_id = root_id }))))

  abbrev Climb : Type 0
  Climb = ℕ → Key → ℕ → Tree Key → Result (Tree Key)

  -- The first key of an internal page, which the split pushes up.
  abbrev push_up : Climb → ℕ → ℕ → Tree Key → Result (Tree Key)
  push_up next id new_id t =
      fetch_internal new_id t >>= λ new. next id (Internal.key_at new 0) new_id t

  abbrev split_parent : Climb → ℕ → InternalPage Key → Tree Key → Result (Tree Key)
  split_parent next id p t = split_internal id p t >>= λ (new_id, t'). push_up next id new_id t'

  abbrev add_child : Climb → ℕ → ℕ → Key → ℕ → InternalPage Key → Tree Key → Result (Tree Key)
  add_child next parent_id old_id key new_id parent t =
      let (p, n) = Internal.insert_node_after old_id key new_id parent in
      let t' = put_page parent_id (internal p) t in
      if n == max_size s (internal p) + 1 then split_parent next parent_id p t' else ok t'

  abbrev add_to_parent : Climb → ℕ → Node Key → Key → ℕ → Tree Key → Result (Tree Key)
  add_to_parent next old_id old key new_id t =
      let parent_id = (header_of old).parent_page_id in
      fetch_internal parent_id t >>= λ parent. add_child next parent_id old_id key new_id parent t

  abbrev climb_from : Climb → ℕ → Node Key → Key → ℕ → Node Key → Tree Key → Result (Tree Key)
  climb_from next old_id old key new_id new t =
      if is_root_page (header_of old)
      then grow_root old_id old key new_id new t
      else add_to_parent next old_id old key new_id t

  unfoldable pub insert_into_parent : ℕ → ℕ → Key → ℕ → Tree Key → Result (Tree Key)
  unfolding fetch fetch_internal max_size split_internal grow_root Internal.insert_node_after
  insert_into_parent zero old_id key new_id t = err out_of_fuel
  insert_into_parent (suc n) old_id key new_id t = fetch old_id t >>= λ old.
      fetch new_id t >>= λ new. climb_from (insert_into_parent n) old_id old key new_id new t

  -- The first key of the new leaf is copied up.
  abbrev copy_up : ℕ → ℕ → ℕ → Tree Key → Node Key → Result (Tree Key)
  copy_up fuel id new_id t (leaf p) = insert_into_parent fuel id (Leaf.key_at o p 0) new_id t
  copy_up fuel id new_id t (internal p) = insert_into_parent fuel id (Internal.key_at p 0) new_id t

  unfoldable pub split_full_leaf : ℕ → ℕ → LeafPage Key → Tree Key → Result (Tree Key)
  unfolding split fetch insert_into_parent
  split_full_leaf fuel id p t =
      split id (leaf p) t >>= λ (new_id, t'). fetch new_id t' >>= copy_up fuel id new_id t'

  unfoldable pub add_to_leaf : ℕ → ℕ → LeafPage Key → Key → Rid → Tree Key → Result (Tree Key)
  unfolding Leaf.insert max_size split_full_leaf
  add_to_leaf fuel id p key value t =
      let p' = (Leaf.insert o p key value).0 in
      let t' = put_page id (leaf p') t in
      if Leaf.size p' == max_size s (leaf p') + 1 then split_full_leaf fuel id p' t' else ok t'

  abbrev insert_unless :
      Option Rid → ℕ → ℕ → LeafPage Key → Key → Rid → Tree Key → Result (Bool × Tree Key)
  insert_unless (some found) fuel id p key value t = ok (false, t)
  insert_unless none fuel id p key value t =
      add_to_leaf fuel id p key value t >>= λ t'. ok (true, t')

  unfoldable pub insert_into_leaf : ℕ → Key → Rid → Tree Key → Result (Bool × Tree Key)
  unfolding is_empty start_new_tree find_leaf_page_rw Leaf.lookup add_to_leaf
  insert_into_leaf fuel key value t =
      if is_empty t
      then (start_new_tree key value t >>= λ t'. ok (true, t'))
      else find_leaf_page_rw o s fuel key false for_insert t >>= λ (p, id, held).
          insert_unless (Leaf.lookup o p key) fuel id p key value t

  unfoldable pub insert : ℕ → Key → Rid → Tree Key → Result (Bool × Tree Key)
  unfolding insert_into_leaf
  insert fuel key value t = insert_into_leaf fuel key value t
