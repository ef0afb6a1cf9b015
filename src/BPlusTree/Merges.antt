-- ===== src/BPlusTree/Merges.antt =====
-- A leaf with too few pairs and a sibling: what `Coalesce` makes of the two pages and of their parent.
pub mod Leaves
use dbplayground.Base.{
  ℕ, zero, suc, ◌+◌, ◌-◌, ◌/◌, ◌≤◌, ◌<◌, ◌≡◌, ◌≢◌, refl, sym, ◌∙◌, ap, ◌++◌, Option, none, some,
  Bool, true, false, arith, ltb, leb, if◌then◌else◌, ◌==◌, put, shift_down_lem, Bool-cases, inl,
  inr,
}
use dbplayground.Base.Result.{Result, ok, err, ◌>>=◌}
use dbplayground.BPlusTree.{
  Node, leaf, internal, Setup, Tree, fit_one, min_size, fetch, fetch_internal, delete_page,
  put_page, header_of,
}
use dbplayground.BPlusTree.Siblings.{Rebalance, coalesce, merge, delete_if}
use dbplayground.BPlusTree.Removal.{
  Attempt, or_else, place_of, coalesce_left, coalesce_right, rebalance, coalesce_or_redistribute,
}
use dbplayground.Disk.{invalid_page_id}
use dbplayground.Internal
use dbplayground.Internal.{InternalPage, value_at, value_index, value_index_from}
use dbplayground.KeyOrder.{KeyOrder}
use dbplayground.Leaf
use dbplayground.Leaf.{LeafPage, move_all_to}
use dbplayground.Leaf.Moves.{merged, move_all_to-merged, merged_entries}
use dbplayground.TreePage.{get_max_size}

module _ (o : KeyOrder) (s : Setup (o.Key)) where
  open o use {Key}

  -- In `t'` the pairs of the leaf `r` at `gone_id` are behind those of the leaf `l` at `left_id`, and
  -- the parent has lost its pair `index`.
  pub record IsMerged (t t' : Tree Key) (left_id : ℕ) (l : LeafPage Key) (gone_id : ℕ)
      (r : LeafPage Key) (parent_id : ℕ) (parent : InternalPage Key) (index : ℕ) : Type 0 where
    pub both : LeafPage Key
    pub kept : t'.pages left_id ≡ some (leaf both)
    pub pairs : Leaf.entries both ≡ Leaf.entries l ++ Leaf.entries r
    pub link : both.next_page_id ≡ r.next_page_id
    pub gone : t'.pages gone_id ≡ none
    pub smaller : InternalPage Key
    pub parent_there : t'.pages parent_id ≡ some (internal smaller)
    pub fewer : Internal.size smaller + 1 ≡ Internal.size parent
    pub children :
        (j : ℕ)
        → j < Internal.size smaller
        → smaller.array j ≡ (if ltb j index then parent.array j else parent.array (j + 1))
    pub others : (q : ℕ) → q ≢ left_id → q ≢ gone_id → q ≢ parent_id → t'.pages q ≡ t.pages q
    pub same_root : t'.root_page_id ≡ t.root_page_id

  pub leaf_internal : {l : LeafPage Key} {p : InternalPage Key} → some (leaf l) ≢ some (internal p)
  leaf_internal e = cc e

  value_index_from_first :
      (n k : ℕ) (p : InternalPage Key) (v j : ℕ)
      → value_index_from n k p v ≡ some j
      → (k ≤ j) × (j < k + n) × ((m : ℕ) → k ≤ m → m < j → value_at p m ≢ v)
  unfolding value_index_from
  value_index_from_first zero k p v j e = absurd (cc e)
  value_index_from_first (suc n) k p v j e = elim (Bool-cases (value_at p k == v)) [
    | inl found ↦
        let same : k ≡ j = ground (arith, found, e) in
        (omega (arith, same), omega (arith, same), λ m a b. absurd (omega (arith, same)))
    | inr next ↦
        let (a, b, c) = value_index_from_first n (k + 1) p v j (ground (arith, next, e)) in
        (omega (arith, a), omega (arith, b), λ m d f. ground (arith, next, c m))
  ]

  pub value_index_first :
      (p : InternalPage Key) (v j : ℕ)
      → value_index p v ≡ some j
      → (0 ≤ j) × (j < Internal.size p) × ((m : ℕ) → 0 ≤ m → m < j → value_at p m ≢ v)
  unfolding value_index
  value_index_first p v j e =
      let (a, b, c) = value_index_from_first (Internal.size p) 0 p v j e in (a, omega (arith, b), c)

  -- What follows a merge: the parent is balanced, if it has too few children left, and deleted if
  -- that says so.
  abbrev pub follow : Rebalance o s → ℕ → ℕ → Tree Key → Result (Bool × Tree Key)
  follow next parent_id size t =
      if ltb size ((s.internal_max_size + 1) / 2) then next parent_id t else ok (false, t)

  abbrev pub balance_parent :
      Rebalance o s → ℕ → InternalPage Key → Tree Key → Result (Bool × Tree Key)
  balance_parent next parent_id smaller t = follow next parent_id (Internal.size smaller) t >>= λ r.
      ok (false, delete_if o s r.0 parent_id r.1)

  pub fit_one-room :
      (l p : LeafPage Key)
      → get_max_size l.header ≡ s.leaf_max_size - 1
      → fit_one s (leaf l) (leaf p) ≡ true
      → Leaf.size l + Leaf.size p ≤ get_max_size l.header
  unfolding fit_one
  fit_one-room l p max fits = ground (arith, max, fits)

  pub or_else-some :
      (r : Result (Bool × Tree Key)) (id : ℕ) (rest : Result (Bool × Tree Key))
      → or_else o s (r >>= λ p. ok (some (false, delete_if o s p.0 id p.1))) rest
        ≡ (r >>= λ p. ok (false, delete_if o s p.0 id p.1))
  or_else-some (ok r) id rest = refl
  or_else-some (err e) id rest = refl

  pub fit_one-room_right :
      (p r : LeafPage Key)
      → get_max_size p.header ≡ s.leaf_max_size - 1
      → fit_one s (leaf r) (leaf p) ≡ true
      → Leaf.size p + Leaf.size r ≤ get_max_size p.header
  unfolding fit_one
  fit_one-room_right p r max fits = ground (arith, max, fits)

  module _ (left_id gone_id parent_id index : ℕ) (l r : LeafPage Key) (parent : InternalPage Key)
      (t : Tree Key) where
    abbrev pub merged_tree : Tree Key
    merged_tree = put_page parent_id (internal (Internal.remove index parent)) (
        delete_page gone_id
          (put_page left_id (leaf (merged r l)) (put_page gone_id (leaf (Leaf.set_size r 0)) t)))

    module _ (apart : left_id ≢ gone_id) (apart_l : left_id ≢ parent_id)
        (apart_r : gone_id ≢ parent_id) (inside : index < Internal.size parent)
        (above : t.pages parent_id ≡ some (internal parent)) where
      pub merged_tree-IsMerged : IsMerged t merged_tree left_id l gone_id r parent_id parent index
      unfolding delete_page Internal.remove
      merged_tree-IsMerged = record {
        both = merged r l;
        kept = ground arith;
        pairs = merged_entries r l;
        link = refl;
        gone = ground arith;
        smaller = Internal.remove index parent;
        parent_there = ground arith;
        fewer = omega (arith, inside);
        children = λ j h.
            ground
              (arith, shift_down_lem (Internal.size parent - (index + 1)) index parent.array j);
        others = λ q a b c. ground arith;
        same_root = refl;
      }

      pub coalesce-merged :
          (next : Rebalance o s)
          → Leaf.size l + Leaf.size r ≤ get_max_size l.header
          → coalesce o s next left_id (leaf l) gone_id (leaf r) parent_id parent index t
            ≡ follow next parent_id (Internal.size parent - 1) merged_tree
      unfolding coalesce merge fetch_internal fetch min_size Internal.remove
      coalesce-merged next room =
          let moved = move_all_to-merged r l room in
          let t₁ =
            put_page left_id (leaf (merged r l)) (put_page gone_id (leaf (Leaf.set_size r 0)) t) in
          let there : t₁.pages parent_id ≡ some (internal parent) = ground (arith, above) in
          rw (moved, there) refl
