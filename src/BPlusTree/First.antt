-- ===== src/BPlusTree/First.antt =====
-- The walk to the leftmost leaf ends, at the leaf with the smallest keys.
use dbplayground.Base.{
  ℕ, zero, suc, ◌<◌, ◌≡◌, ◌≢◌, ◌⊎◌, refl, subst, some, true, false, arith, inl, inr, ◌==◌,
}
use dbplayground.Base.Result.{ok}
use dbplayground.BPlusTree.{leaf, Tree, is_empty, fetch}
use dbplayground.BPlusTree.Descent.{
  child_for, find_leaf_page_from, find_leaf_page, first_leaf_from, first_leaf_page_id,
}
use dbplayground.BPlusTree.Shape.{Stored, IsSearchable, internal-injective}
use dbplayground.Disk.{invalid_page_id}
use dbplayground.Internal
use dbplayground.Internal.{InternalPage, value_at}
use dbplayground.KeyOrder.{KeyOrder}
use dbplayground.Leaf
use dbplayground.Leaf.{LeafPage, key_at}
use dbplayground.Leaf.Search.{rank_at}
use dbplayground.Rid.{Rid}

module _ (o : KeyOrder) (t : Tree (o.Key)) where
  open o use {Key, rank}

  -- Each key of the subtree is in this leaf, or is greater than all the keys of the leaf.
  abbrev pub IsLeast : ℕ → ℕ → ℕ → LeafPage Key → Type 0
  IsLeast h id leaf_id p =
      (key : Key) (value : Rid)
      → Stored o t.pages h id key value
      → Stored o t.pages 0 leaf_id key value
        ⊎ ((i : ℕ) → i < Leaf.size p → rank_at o p i < rank key)

  -- What the walk from the page `id` finds.
  pub record Leftmost (h id : ℕ) (n : ℕ) (key : Key) : Type 0 where
    pub leaf_id : ℕ
    pub page : LeafPage Key
    pub first : first_leaf_from o t n id ≡ ok leaf_id
    pub walked : find_leaf_page_from o true key t n id ≡ ok (leaf_id, page)
    pub there : t.pages leaf_id ≡ some (leaf page)
    pub inside :
        (i : ℕ) → i < Leaf.size page → Stored o t.pages h id (key_at o page i) (page.array i).1
    pub least : IsLeast h id leaf_id page

  first_leaf_from-Leftmost :
      (h n id : ℕ) (key : Key) → h < n → IsSearchable o t.pages h id → Leftmost h id n key
  unfolding first_leaf_from find_leaf_page_from fetch child_for
  first_leaf_from-Leftmost h zero id key enough w = absurd (omega arith)
  first_leaf_from-Leftmost zero (suc n) id key enough (p, here, sorted) = record {
    leaf_id = id;
    page = p;
    first = rw here refl;
    walked = rw here refl;
    there = here;
    inside = λ i less. (p, here, i, less, refl, refl);
    least = λ k v stored. inl stored;
  }
  first_leaf_from-Leftmost (suc h) (suc n) id key enough
        (p, here, some_child, keys, below, routes) =
      let rest =
        first_leaf_from-Leftmost h n (value_at p 0) key (omega arith) (below 0 (omega arith)) in
      record {
        leaf_id = rest.leaf_id;
        page = rest.page;
        first = rw here rest.first;
        walked = rw here rest.walked;
        there = rest.there;
        inside = λ i less. (p, here, 0, omega arith, rest.inside i less);
        least = λ k v stored.
            later rest.page rest.leaf_id rest.inside rest.least k v (subst_child k v stored);
      }
    where
      subst_child :
          (k : Key) (v : Rid)
          → Stored o t.pages (suc h) id k v
          → (c : ℕ) × (c < Internal.size p) × Stored o t.pages h (value_at p c) k v
      subst_child k v (q, there, c, inside, stored) =
          let e = internal-injective there here in
          (
            c,
            subst (λ l. c < Internal.size l) e inside,
            subst (λ l. Stored o t.pages h (value_at l c) k v) e stored,
          )

      later :
          (page : LeafPage Key) (leaf_id : ℕ)
          → ((i : ℕ)
              → i < Leaf.size page
              → Stored o t.pages h (value_at p 0) (key_at o page i) (page.array i).1)
          → IsLeast h (value_at p 0) leaf_id page
          → (k : Key) (v : Rid)
          → (c : ℕ) × (c < Internal.size p) × Stored o t.pages h (value_at p c) k v
          → Stored o t.pages 0 leaf_id k v
            ⊎ ((i : ℕ) → i < Leaf.size page → rank_at o page i < rank k)
      later page leaf_id inside least k v (zero, inner, stored) = least k v stored
      later page leaf_id inside least k v (suc c, inner, stored) = inr λ i less.
          let way = routes (suc c) k v inner stored in
          let first_way =
            routes 0 (key_at o page i) (page.array i).1 (omega arith) (inside i less) in
          ground (arith, way.from (omega arith), first_way.below (omega arith), keys 1 (suc c))

  -- On a tree that is not empty and in order, the walk to the first leaf ends, with more rounds
  -- than the tree is high, where the walk to the leftmost leaf for any key ends; each key that the
  -- tree stores is in this leaf, or is greater than all the leaf's keys.
  pub first_leaf_page_id-IsLeast :
      (fuel h : ℕ) (key : Key)
      → h < fuel
      → t.root_page_id ≢ invalid_page_id
      → IsSearchable o t.pages h t.root_page_id
      → (id : ℕ) × (p : LeafPage Key) × (first_leaf_page_id o fuel t ≡ ok id)
        × (find_leaf_page o fuel key true t ≡ ok (id, p))
        × IsLeast h t.root_page_id id p
  unfolding first_leaf_page_id find_leaf_page is_empty
  first_leaf_page_id-IsLeast fuel h key enough some_root w =
      let found = first_leaf_from-Leftmost h fuel t.root_page_id key enough w in
      let nonempty : (t.root_page_id == invalid_page_id) ≡ false = ground arith in
      (found.leaf_id, found.page, rw nonempty found.first, found.walked, found.least)
