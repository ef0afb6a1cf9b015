-- ===== src/BPlusTree/Descent.antt =====
-- src/Container/BPlusTree.cpp: the ways from the root to a leaf. A loop is recursion on fuel; a tree of
-- height `h` needs `h + 1` rounds.
use dbplayground.Base.{
  ℕ, zero, suc, List, [], ◌∷◌, ◌++◌, Option, none, some, Bool, false, if◌then◌else◌,
}
use dbplayground.Base.Result.{Result, err, ok, ◌>>=◌, null_page, out_of_fuel}
use dbplayground.BPlusTree.{
  Node, leaf, internal, Setup, Tree, OpType, for_read, for_insert, for_remove, fetch, is_safe,
  is_empty,
}
use dbplayground.Disk.{invalid_page_id}
use dbplayground.Internal
use dbplayground.Internal.{InternalPage, value_at}
use dbplayground.KeyOrder.{KeyOrder}
use dbplayground.Leaf
use dbplayground.Leaf.{LeafPage}
use dbplayground.Rid.{Rid}

module _ (o : KeyOrder) where
  open o use {Key}

  -- The child to go to.
  unfoldable pub child_for : Bool → Key → InternalPage Key → ℕ
  unfolding Internal.lookup
  child_for left_most key p = if left_most then value_at p 0 else Internal.lookup o p key

  -- The pages that the transaction holds once `node` is latched: those above are released by a reader,
  -- and by a writer at a page that is safe.
  unfoldable pub held_at : Setup Key → OpType → Node Key → ℕ → List ℕ → List ℕ
  unfolding is_safe
  held_at s for_read node id held = id ∷ []
  held_at s for_insert node id held = (if is_safe s for_insert node then [] else held) ++ (id ∷ [])
  held_at s for_remove node id held = (if is_safe s for_remove node then [] else held) ++ (id ∷ [])

  -- The leaf, its id and the pages that are held.
  abbrev pub Found : Type 0
  Found = LeafPage Key × ℕ × List ℕ

  abbrev pub step_to :
      (ℕ → List ℕ → Result Found) → Bool → Key → ℕ → List ℕ → Node Key → Result Found
  step_to next left_most key id held (leaf p) = ok (p, id, held)
  step_to next left_most key id held (internal p) = next (child_for left_most key p) held

  abbrev pub visit :
      Setup Key
      → (ℕ → List ℕ → Result Found)
      → Bool
      → OpType
      → Key
      → ℕ
      → List ℕ
      → Option (Node Key)
      → Result Found
  visit s next left_most op key id held none = err null_page
  visit s next left_most op key id held (some node) =
      step_to next left_most key id (held_at s op node id held) node

  unfoldable pub find_leaf_from :
      Setup Key → Bool → OpType → Key → Tree Key → ℕ → ℕ → List ℕ → Result Found
  unfolding held_at child_for
  find_leaf_from s left_most op key t zero id held = err out_of_fuel
  find_leaf_from s left_most op key t (suc n) id held =
      visit s (find_leaf_from s left_most op key t n) left_most op key id held (t.pages id)

  -- `FindLeafPageRW`.
  unfoldable pub find_leaf_page_rw : Setup Key → ℕ → Key → Bool → OpType → Tree Key → Result Found
  unfolding find_leaf_from
  find_leaf_page_rw s fuel key left_most op t =
      find_leaf_from s left_most op key t fuel t.root_page_id []

  unfoldable pub get_value : Setup Key → ℕ → Key → Tree Key → Result (Option Rid)
  unfolding find_leaf_page_rw Leaf.lookup is_empty
  get_value s fuel key t =
      if is_empty t
      then ok none
      else find_leaf_page_rw s fuel key false for_read t >>= λ (p, id, held).
          ok (Leaf.lookup o p key)

  abbrev walk_on :
      (ℕ → Result (ℕ × LeafPage Key)) → Bool → Key → ℕ → Node Key → Result (ℕ × LeafPage Key)
  walk_on next left_most key id (leaf p) = ok (id, p)
  walk_on next left_most key id (internal p) = next (child_for left_most key p)

  unfoldable pub find_leaf_page_from : Bool → Key → Tree Key → ℕ → ℕ → Result (ℕ × LeafPage Key)
  unfolding fetch child_for
  find_leaf_page_from left_most key t zero id = err out_of_fuel
  find_leaf_page_from left_most key t (suc n) id =
      fetch id t >>= walk_on (find_leaf_page_from left_most key t n) left_most key id

  -- `FindLeafPage`.
  unfoldable pub find_leaf_page : ℕ → Key → Bool → Tree Key → Result (ℕ × LeafPage Key)
  unfolding find_leaf_page_from
  find_leaf_page fuel key left_most t = find_leaf_page_from left_most key t fuel t.root_page_id

  abbrev go_left : (ℕ → Result ℕ) → ℕ → Node Key → Result ℕ
  go_left next id (leaf p) = ok id
  go_left next id (internal p) = next (value_at p 0)

  unfoldable pub first_leaf_from : Tree Key → ℕ → ℕ → Result ℕ
  unfolding fetch
  first_leaf_from t zero id = err out_of_fuel
  first_leaf_from t (suc n) id = fetch id t >>= go_left (first_leaf_from t n) id

  unfoldable pub first_leaf_page_id : ℕ → Tree Key → Result ℕ
  unfolding first_leaf_from is_empty
  first_leaf_page_id fuel t =
      if is_empty t then ok invalid_page_id else first_leaf_from t fuel t.root_page_id
