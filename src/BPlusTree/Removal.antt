-- ===== src/BPlusTree/Removal.antt =====
-- src/Container/BPlusTree.cpp: removing. A page that has too few pairs left is merged with a sibling, or
-- borrows a pair from one; the recursion up the tree is on fuel, a round for each level.
use dbplayground.Base.{ℕ, zero, suc, ◌+◌, Option, none, some, Bool, false, ltb, if◌then◌else◌}
use dbplayground.Base.Result.{Result, err, ok, ◌>>=◌, out_of_fuel, no_sibling, empty_tree}
use dbplayground.BPlusTree.{
  Node, leaf, Setup, Tree, for_remove, header_of, size_of, fetch, fetch_internal, put_page,
  delete_page, is_empty, min_size, fit_one,
}
use dbplayground.BPlusTree.Descent.{find_leaf_page_rw}
use dbplayground.BPlusTree.Siblings.{
  Rebalance, shrink_root, coalesce, redistribute_left, redistribute_right, delete_if,
}
use dbplayground.Internal
use dbplayground.Internal.{InternalPage}
use dbplayground.KeyOrder.{KeyOrder}
use dbplayground.Leaf
use dbplayground.Leaf.{LeafPage}
use dbplayground.TreePage.{is_root_page}

-- The indices of the siblings in the parent; the index -1 of a page that is not found has 0 to its
-- right.
abbrev pub left_of : Option ℕ → Option ℕ
left_of none = none
left_of (some zero) = none
left_of (some (suc i)) = some i

abbrev right_of : Option ℕ → ℕ
right_of none = 0
right_of (some i) = i + 1

abbrev pub right_in : ℕ → Option ℕ → Option ℕ
right_in n index = if ltb (right_of index) n then some (right_of index) else none

module _ (o : KeyOrder) (s : Setup (o.Key)) where
  open o use {Key}

  -- What one of the attempts made of the tree, or `none` if it does not apply.
  abbrev pub Attempt : Type 0
  Attempt = Result (Option (Bool × Tree Key))

  abbrev pub or_else : Attempt → Result (Bool × Tree Key) → Result (Bool × Tree Key)
  or_else (err e) next = err e
  or_else (ok none) next = next
  or_else (ok (some r)) next = ok r

  -- An attempt with the sibling at this index, if there is one.
  abbrev pub with_sibling :
      Option ℕ → InternalPage Key → Tree Key → (ℕ → ℕ → Node Key → Attempt) → Attempt
  with_sibling none parent t attempt = ok none
  with_sibling (some i) parent t attempt =
      let id = Internal.value_at parent i in fetch id t >>= λ sibling. attempt i id sibling

  -- The page, its parent, and its index in the parent.
  pub record Place : Type 0 where
    pub id : ℕ
    pub node : Node Key
    pub parent_id : ℕ
    pub parent : InternalPage Key
    pub index : Option ℕ

  unfoldable pub place_of : ℕ → Node Key → InternalPage Key → Place
  unfolding Internal.value_index
  place_of id node parent = record {
    id = id;
    node = node;
    parent_id = (header_of node).parent_page_id;
    parent = parent;
    index = Internal.value_index parent id;
  }

  module _ (next : Rebalance o s) (p : Place) (t : Tree Key) where
    -- The parent is deleted if the merge says so.
    abbrev merged : Result (Bool × Tree Key) → Attempt
    merged r = r >>= λ (del_parent, t'). ok (some (false, delete_if o s del_parent p.parent_id t'))

    unfoldable pub coalesce_left : ℕ → ℕ → Node Key → Attempt
    unfolding fit_one coalesce delete_page
    coalesce_left i sibling_id sibling =
        if fit_one s sibling p.node
        then merged
            (coalesce o s next sibling_id sibling p.id p.node p.parent_id p.parent (i + 1) t)
        else ok none

    unfoldable pub coalesce_right : ℕ → ℕ → Node Key → Attempt
    unfolding fit_one coalesce delete_page
    coalesce_right i sibling_id sibling =
        if fit_one s sibling p.node
        then merged (coalesce o s next p.id p.node sibling_id sibling p.parent_id p.parent i t)
        else ok none

    abbrev borrowed : Result (Tree Key) → Attempt
    borrowed r = r >>= λ t'. ok (some (false, t'))

    unfoldable pub borrow_left : ℕ → ℕ → Node Key → Attempt
    unfolding min_size redistribute_left
    borrow_left i sibling_id sibling =
        if ltb (min_size s sibling) (size_of sibling)
        then borrowed (redistribute_left o s sibling_id sibling p.id p.node p.parent_id p.parent t)
        else ok none

    unfoldable pub borrow_right : ℕ → ℕ → Node Key → Attempt
    unfolding min_size redistribute_right
    borrow_right i sibling_id sibling =
        if ltb (min_size s sibling) (size_of sibling)
        then borrowed (redistribute_right o s sibling_id sibling p.id p.node p.parent_id p.parent t)
        else ok none

    -- A merge with the left sibling, with the right one, then a pair from the left, from the right.
    unfoldable pub rebalance : Result (Bool × Tree Key)
    unfolding fetch coalesce_left coalesce_right borrow_left borrow_right
    rebalance =
        let left = left_of p.index in
        let right = right_in (Internal.size p.parent) p.index in
        or_else (with_sibling left p.parent t coalesce_left) (
          or_else (with_sibling right p.parent t coalesce_right) (
            or_else (with_sibling left p.parent t borrow_left)
              (or_else (with_sibling right p.parent t borrow_right) (err no_sibling))))

  abbrev pub rebalance_child : Rebalance o s → ℕ → Node Key → Tree Key → Result (Bool × Tree Key)
  rebalance_child next id node t =
      let parent_id = (header_of node).parent_page_id in
      fetch_internal parent_id t >>= λ parent. rebalance next (place_of id node parent) t

  unfoldable pub coalesce_or_redistribute : ℕ → ℕ → Tree Key → Result (Bool × Tree Key)
  unfolding fetch fetch_internal shrink_root rebalance place_of
  coalesce_or_redistribute zero id t = err out_of_fuel
  coalesce_or_redistribute (suc n) id t = fetch id t >>= λ node.
      if is_root_page (header_of node)
      then shrink_root o s id node t
      else rebalance_child (coalesce_or_redistribute n) id node t

  abbrev remove_from : ℕ → Key → ℕ → LeafPage Key → Tree Key → Result (Tree Key)
  remove_from fuel key id p t =
      let (p', n) = Leaf.remove_and_delete_record o p key in
      let t' = put_page id (leaf p') t in
      if ltb (Leaf.size p') (min_size s (leaf p'))
      then (coalesce_or_redistribute fuel id t' >>= λ (delete_leaf, t'').
          ok (delete_if o s delete_leaf id t''))
      else ok t'

  unfoldable pub remove : ℕ → Key → Tree Key → Result (Tree Key)
  unfolding is_empty find_leaf_page_rw Leaf.remove_and_delete_record min_size
      coalesce_or_redistribute delete_page
  remove fuel key t =
      if is_empty t
      then err empty_tree
      else (find_leaf_page_rw o s fuel key false for_remove t >>= λ (p, id, held).
          remove_from fuel key id p t)
