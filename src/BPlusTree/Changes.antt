-- ===== src/BPlusTree/Changes.antt =====
-- Inserting into a leaf that has room, and removing from a leaf that keeps enough pairs.
use dbplayground.Base.{
  ℕ, ◌+◌, ◌-◌, ◌/◌, ◌≤◌, ◌<◌, ◌≡◌, ◌≢◌, refl, List, none, some, true, false, arith, if◌then◌else◌,
  ◌==◌, ltb,
}
use dbplayground.Base.Result.{ok}
use dbplayground.BPlusTree.{
  leaf, Setup, Tree, for_insert, for_remove, put_page, is_empty, max_size, min_size,
}
use dbplayground.BPlusTree.Descent.{find_leaf_page_rw, get_value}
use dbplayground.BPlusTree.Insertion.{insert, insert_into_leaf, add_to_leaf}
use dbplayground.BPlusTree.Places.{get_value-put_page}
use dbplayground.BPlusTree.Removal.{remove}
use dbplayground.BPlusTree.Shape.{IsSearchable}
use dbplayground.Disk.{invalid_page_id}
use dbplayground.KeyOrder.{KeyOrder}
use dbplayground.Leaf
use dbplayground.Leaf.{LeafPage}
use dbplayground.Leaf.Change.{lookup-insert}
use dbplayground.Leaf.Removal.{lookup-remove}
use dbplayground.Rid.{Rid}

module _ (o : KeyOrder) where
  open o use {Key, same}

  size-remove :
      (p : LeafPage Key) (key : Key)
      → Leaf.size p ≤ Leaf.size (Leaf.remove_and_delete_record o p key).0 + 1
  unfolding Leaf.remove_and_delete_record
  size-remove p key = ground arith

  module _ (s : Setup Key) (fuel h : ℕ) (key : Key) (t : Tree Key) {p : LeafPage Key} {id : ℕ}
      {held : List ℕ} (enough : h < fuel) (some_root : t.root_page_id ≢ invalid_page_id)
      (w : IsSearchable o t.pages h t.root_page_id) where
    inserted :
        (value : Rid)
        → find_leaf_page_rw o s fuel key false for_insert t ≡ ok (p, id, held)
        → Leaf.lookup o p key ≡ none
        → Leaf.size p + 1 < s.leaf_max_size
        → insert o s fuel key value t
          ≡ ok (true, put_page id (leaf (Leaf.insert o p key value).0) t)
    unfolding insert insert_into_leaf add_to_leaf is_empty max_size Leaf.insert
    inserted value way missing room =
        let nonempty : (t.root_page_id == invalid_page_id) ≡ false = ground arith in
        let fits : (Leaf.size p + 1 == s.leaf_max_size - 1 + 1) ≡ false = ground arith in
        rw (nonempty, way, missing, fits) refl

    -- A key that such a tree lacks is inserted, if the leaf that its descent ends at has room for
    -- one more pair; then a search finds the new value for the key, and for any other key what it
    -- found before.
    pub get_value-insert :
        (value : Rid)
        → find_leaf_page_rw o s fuel key false for_insert t ≡ ok (p, id, held)
        → Leaf.lookup o p key ≡ none
        → Leaf.size p + 1 < s.leaf_max_size
        → (t' : Tree Key) × (insert o s fuel key value t ≡ ok (true, t'))
          × ((k : Key)
              → get_value o s fuel k t'
                ≡ (if same key k then ok (some value) else get_value o s fuel k t))
    get_value-insert value way missing room = (
      put_page id (leaf (Leaf.insert o p key value).0) t,
      inserted value way missing room,
      get_value-put_page o s fuel h key for_insert t enough some_root w way _ (some value)
          (λ sorted k. lookup-insert o p key value sorted k missing),
    )

    removed :
        find_leaf_page_rw o s fuel key false for_remove t ≡ ok (p, id, held)
        → s.leaf_max_size / 2 < Leaf.size p
        → remove o s fuel key t
          ≡ ok (put_page id (leaf (Leaf.remove_and_delete_record o p key).0) t)
    unfolding remove is_empty min_size
    removed way many =
        let nonempty : (t.root_page_id == invalid_page_id) ≡ false = ground arith in
        let left : ltb (Leaf.size (Leaf.remove_and_delete_record o p key).0) (s.leaf_max_size / 2)
            ≡ false =
          ground (arith, size-remove p key) in
        rw (nonempty, way, left) refl

    -- A key is removed from such a tree, if the leaf that its descent ends at has a pair more than
    -- it must keep; then a search misses the key, and finds for any other key what it found
    -- before.
    pub get_value-remove :
        find_leaf_page_rw o s fuel key false for_remove t ≡ ok (p, id, held)
        → s.leaf_max_size / 2 < Leaf.size p
        → (t' : Tree Key) × (remove o s fuel key t ≡ ok t')
          × ((k : Key)
              → get_value o s fuel k t' ≡ (if same key k then ok none else get_value o s fuel k t))
    get_value-remove way many = (
      put_page id (leaf (Leaf.remove_and_delete_record o p key).0) t,
      removed way many,
      get_value-put_page o s fuel h key for_remove t enough some_root w way _ none
          (λ sorted k. lookup-remove o p key sorted k),
    )
