-- ===== src/BPlusTree/Search.antt =====
-- A search from the root of a tree finds what the tree stores.
use mathlib.Core.Logic.{◌↔◌}
use dbplayground.Base.{
  ℕ, zero, suc, ◌<◌, ◌≡◌, ◌≢◌, refl, ◌∙◌, ap, subst, List, [], Option, some, false, arith, inl, inr,
  ◌==◌,
}
use dbplayground.Base.Result.{Result, ok}
use dbplayground.BPlusTree.{Node, leaf, internal, Setup, Tree, OpType, for_read, is_empty}
use dbplayground.BPlusTree.Descent.{
  child_for, held_at, find_leaf_from, find_leaf_page_rw, get_value,
}
use dbplayground.BPlusTree.Shape.{Stored, IsSearchable, leaf-injective, internal-injective}
use dbplayground.Disk.{invalid_page_id}
use dbplayground.Internal
use dbplayground.Internal.{InternalPage, value_at}
use dbplayground.Internal.Route.{lookup-Routes}
use dbplayground.KeyOrder.{KeyOrder}
use dbplayground.Leaf
use dbplayground.Leaf.{LeafPage}
use dbplayground.Leaf.Search.{IsSorted, rank_at}
use dbplayground.Leaf.Lookup.{lookup-cases, lookup_found}
use dbplayground.Rid.{Rid}

module _ (o : KeyOrder) where
  open o use {Key, rank}

  -- The leaf finds what it stores.
  pub leaf_iff :
      (pages : ℕ → Option (Node Key)) (id : ℕ) (p : LeafPage Key) (key : Key) (value : Rid)
      → pages id ≡ some (leaf p)
      → IsSorted o p
      → (Leaf.lookup o p key ≡ some value) ↔ Stored o pages 0 id key value
  leaf_iff pages id p key value here sorted = (
    λ found. elim (lookup-cases o p key sorted) [
      | inl (i, inside, equal, hit) ↦ (p, here, i, inside, equal, cc)
      | inr (absent, miss) ↦ absurd (ground (arith, miss))
    ],
    λ (q, there, i, inside, equal, same).
        let e = leaf-injective there here in
        (lookup_found o p key sorted i (subst (λ l. i < Leaf.size l) e inside)
          (subst (λ l. rank_at o l i ≡ rank key) e equal)).0
        ∙ ap some (subst (λ l. (l.array i).1 ≡ value) e same),
  )

  module _ (s : Setup Key) (op : OpType) (key : Key) (t : Tree Key) where
    -- What a descent into a subtree finds: its leaf, in which the lookup finds what is stored in the
    -- subtree.
    pub record Finds (h id : ℕ) (r : Result (LeafPage Key × ℕ × List ℕ)) : Type 0 where
      pub page : LeafPage Key
      pub leaf_id : ℕ
      pub held : List ℕ
      pub found : r ≡ ok (page, leaf_id, held)
      pub there : t.pages leaf_id ≡ some (leaf page)
      pub sorted : IsSorted o page
      pub stores :
          (value : Rid) → (Leaf.lookup o page key ≡ some value) ↔ Stored o t.pages h id key value

    pub find_leaf_from-Finds :
        (h n id : ℕ) (held : List ℕ)
        → h < n
        → IsSearchable o t.pages h id
        → Finds h id (find_leaf_from o s false op key t n id held)
    unfolding find_leaf_from child_for
    find_leaf_from-Finds h zero id held enough w = absurd (omega arith)
    find_leaf_from-Finds zero (suc n) id held enough (p, here, sorted) = record {
      page = p;
      leaf_id = id;
      held = held_at o s op (leaf p) id held;
      found = rw here refl;
      there = here;
      sorted = sorted;
      stores = λ value. leaf_iff t.pages id p key value here sorted;
    }
    find_leaf_from-Finds (suc h) (suc n) id held enough (p, here, some_child, keys, below, routes) =
        let (c, way, taken, only) = lookup-Routes o p key keys some_child in
        let child = value_at p c in
        let held' = held_at o s op (internal p) id held in
        let rest = find_leaf_from-Finds h n child held' (omega arith) (below c way.inside) in
        record {
          page = rest.page;
          leaf_id = rest.leaf_id;
          held = rest.held;
          found = rw (here, taken) rest.found;
          there = rest.there;
          sorted = rest.sorted;
          stores = λ value. (
            λ hit. (p, here, c, way.inside, (rest.stores value).0 hit),
            λ (q, there, i, inside, stored).
                let e = internal-injective there here in
                let inside' = subst (λ l. i < Internal.size l) e inside in
                let stored' = subst (λ l. Stored o t.pages h (value_at l i) key value) e stored in
                let at = only i (routes i key value inside' stored') in
                (rest.stores value).1
                  (subst (λ j. Stored o t.pages h (value_at p j) key value) at stored'),
          );
        }

  pub get_value-found :
      (s : Setup Key) (fuel : ℕ) (key : Key) (t : Tree Key) {p : LeafPage Key} {id : ℕ}
      {held : List ℕ}
      → t.root_page_id ≢ invalid_page_id
      → find_leaf_from o s false for_read key t fuel t.root_page_id [] ≡ ok (p, id, held)
      → get_value o s fuel key t ≡ ok (Leaf.lookup o p key)
  unfolding get_value find_leaf_page_rw is_empty
  get_value-found s fuel key t some_root found =
      let nonempty : (t.root_page_id == invalid_page_id) ≡ false = ground arith in
      rw (nonempty, found) refl

  -- On a tree that is not empty, whose leaves are at one depth, whose pages are in the order of
  -- their keys and whose children store keys of their ranges only, a search with more rounds than
  -- the tree is high returns, and it returns a value exactly if some leaf of the tree stores it
  -- with the key.
  pub get_value_iff :
      (s : Setup Key) (fuel h : ℕ) (key : Key) (t : Tree Key)
      → h < fuel
      → t.root_page_id ≢ invalid_page_id
      → IsSearchable o t.pages h t.root_page_id
      → (r : Option Rid) × (get_value o s fuel key t ≡ ok r)
        × ((value : Rid) → (r ≡ some value) ↔ Stored o t.pages h t.root_page_id key value)
  get_value_iff s fuel h key t enough some_root w =
      let f = find_leaf_from-Finds s for_read key t h fuel t.root_page_id [] enough w in
      (Leaf.lookup o f.page key, get_value-found s fuel key t some_root f.found, f.stores)
