-- ===== src/BPlusTree/Shape.antt =====
-- What a tree of some height stores, and when a search in it can be right.
use dbplayground.Base.{ℕ, zero, suc, ◌≤◌, ◌<◌, ◌≡◌, sym, ◌∙◌, ap, Option, none, some}
use dbplayground.Base.Result.{Result, err, ok-injective, undefined}
use dbplayground.BPlusTree.{Node, leaf, internal, as_leaf, as_internal}
use dbplayground.Internal
use dbplayground.Internal.{InternalPage, value_at}
use dbplayground.Internal.Route
use dbplayground.KeyOrder.{KeyOrder}
use dbplayground.Leaf
use dbplayground.Leaf.{LeafPage}
use dbplayground.Leaf.Search
use dbplayground.Rid.{Rid}

module _ {K : Type 0} where
  abbrev to_leaf : Option (Node K) → Result (LeafPage K)
  to_leaf none = err undefined
  to_leaf (some n) = as_leaf n

  abbrev to_internal : Option (Node K) → Result (InternalPage K)
  to_internal none = err undefined
  to_internal (some n) = as_internal n

  pub leaf-injective :
      {n : Option (Node K)} {p q : LeafPage K} → n ≡ some (leaf p) → n ≡ some (leaf q) → p ≡ q
  leaf-injective {n} {p} {q} e f =
      let same : to_leaf (some (leaf p)) ≡ to_leaf (some (leaf q)) = ap to_leaf (sym e ∙ f) in
      ok-injective same

  pub internal-injective :
      {n : Option (Node K)} {p q : InternalPage K}
      → n ≡ some (internal p)
      → n ≡ some (internal q)
      → p ≡ q
  internal-injective {n} {p} {q} e f =
      let same : to_internal (some (internal p)) ≡ to_internal (some (internal q)) =
        ap to_internal (sym e ∙ f) in
      ok-injective same

module _ (o : KeyOrder) (pages : ℕ → Option (Node (o.Key))) where
  open o use {Key, rank}

  -- The pair stands in a leaf of the subtree of this height at the page `id`, whatever the keys above
  -- it say.
  abbrev pub Stored : ℕ → ℕ → Key → Rid → Type 0
  Stored zero id key value =
      (p : LeafPage Key) × (pages id ≡ some (leaf p))
      × (i : ℕ) × (i < Leaf.size p)
      × (Search.rank_at o p i ≡ rank key)
      × ((p.array i).1 ≡ value)
  Stored (suc h) id key value =
      (p : InternalPage Key) × (pages id ≡ some (internal p))
      × (i : ℕ) × (i < Internal.size p)
      × Stored h (value_at p i) key value

  -- All leaves are at one depth, the pages are in the order of their keys, and what is stored below a
  -- child has keys of that child's range.
  abbrev pub IsSearchable : ℕ → ℕ → Type 0
  IsSearchable zero id = (p : LeafPage Key) × (pages id ≡ some (leaf p)) × Search.IsSorted o p
  IsSearchable (suc h) id =
      (p : InternalPage Key) × (pages id ≡ some (internal p))
      × (1 ≤ Internal.size p)
      × Route.IsSorted o p
      × ((i : ℕ) → i < Internal.size p → IsSearchable h (value_at p i))
      × ((i : ℕ) (key : Key) (value : Rid)
          → i < Internal.size p
          → Stored h (value_at p i) key value
          → Route.Routes o p key i)
