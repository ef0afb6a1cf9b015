-- ===== src/BPlusTree/Overflow.antt =====
-- An insertion into a full leaf, whose parent has room for the new page: the leaf, the last step of the
-- descent to it, and the keys of the leaf.
pub mod Pages
pub mod Searches
use dbplayground.Base.{
  ℕ, suc, ◌+◌, ◌-◌, ◌≤◌, ◌<◌, ◌≡◌, ◌≢◌, refl, sym, ◌∙◌, ap, subst, List, [], Option, none, some,
  Bool, true, false, arith, inl, inr, Bool-cases, if◌then◌else◌, ◌==◌, ==_refl,
}
use dbplayground.Base.Result.{Result, err, ok, ◌>>=◌, ok-injective}
use dbplayground.BPlusTree.{
  leaf, internal, Setup, Tree, for_read, for_insert, put_page, is_empty, max_size, parent_in,
}
use dbplayground.BPlusTree.Descent.{Found, find_leaf_from, find_leaf_page_rw, get_value}
use dbplayground.BPlusTree.Insertion.{insert, insert_into_leaf, add_to_leaf, split_full_leaf}
use dbplayground.BPlusTree.Linked.{IsLinked, LastStep, find_leaf_from-LastStep}
use dbplayground.BPlusTree.Places.{leaf_of, find_leaf_from_same}
use dbplayground.BPlusTree.Search.{find_leaf_from-Finds, leaf_iff}
use dbplayground.BPlusTree.Shape.{IsSearchable, leaf-injective}
use dbplayground.BPlusTree.Splits.{
  SplitAt, Follows, page_of, leaf_not_internal, find_leaf_from-Follows,
}
use dbplayground.BPlusTree.Steps.{
  left_part, right_part, split_tree, parts, split_left, split_right, split_other,
  split_full_leaf-room,
}
use dbplayground.Disk.{invalid_page_id}
use dbplayground.Internal
use dbplayground.Internal.{InternalPage, value_at}
use dbplayground.Internal.Route
use dbplayground.Internal.Route.{Routes}
use dbplayground.Internal.Split.{lookup-insert_node_after}
use dbplayground.KeyOrder.{KeyOrder}
use dbplayground.Leaf
use dbplayground.Leaf.{LeafPage}
use dbplayground.Leaf.Change.{insert-IsSorted, lookup-insert}
use dbplayground.Leaf.Lookup.{lookup_found}
use dbplayground.Leaf.Parts.{AreParts, lookup-parts}
use dbplayground.Leaf.Search.{IsSorted, rank_at}
use dbplayground.Rid.{Rid}

module _ (o : KeyOrder) where
  open o use {Key, less, same, rank, same_rank}

  -- A key is to go into the leaf at `id`, which is full and not the root, and whose parent has room.
  pub record FullCase (s : Setup Key) (n h : ℕ) (key : Key) (value : Rid) (t : Tree Key)
      (p : LeafPage Key) (id : ℕ) (held : List ℕ) : Type 0 where
    pub enough : h < suc n
    pub some_root : t.root_page_id ≢ invalid_page_id
    pub searchable : IsSearchable o t.pages h t.root_page_id
    pub linked : IsLinked o t
    pub way : find_leaf_page_rw o s (suc n) key false for_insert t ≡ ok (p, id, held)
    pub not_root : t.root_page_id ≢ id
    pub missing : Leaf.lookup o p key ≡ none
    pub full : Leaf.size p + 1 ≡ s.leaf_max_size
    pub two : 2 ≤ s.leaf_max_size
    pub frame : s.has_frame t.next_page_id ≡ true
    pub room :
        (parent : InternalPage Key)
        → t.pages p.header.parent_page_id ≡ some (internal parent)
        → Internal.size parent < s.internal_max_size

  module _ {s : Setup Key} {n h : ℕ} {key : Key} {value : Rid} {t : Tree Key} {p : LeafPage Key}
      {id : ℕ} {held : List ℕ} (it : FullCase s n h key value t p id held) where
    open it use {
      enough, some_root, searchable, linked, way, not_root, missing, full, two, frame, room,
    }

    pub here : (t.pages id ≡ some (leaf p)) × IsSorted o p
    unfolding find_leaf_page_rw
    here =
        let f =
          find_leaf_from-Finds o s for_insert key t h (suc n) t.root_page_id [] enough searchable in
        let same_leaf : (f.page, f.leaf_id, f.held) ≡ (p, id, held) =
          ok-injective (sym f.found ∙ way) in
        (
          subst (λ x. t.pages x.1 ≡ some (leaf x.0)) same_leaf f.there,
          subst (λ x. IsSorted o x.0) same_leaf f.sorted,
        )

    pub step : LastStep o t key id
    unfolding find_leaf_page_rw
    step =
        find_leaf_from-LastStep o s for_insert key t h (suc n) t.root_page_id [] not_root enough
          searchable here.0 way

    pub at_parent : step.parent_id ≡ p.header.parent_page_id
    at_parent =
        let (m, there, up) =
          linked.agree step.parent_id step.parent step.child step.there step.routes.inside in
        let same_node : some m ≡ some (leaf p) = sym there ∙ ap t.pages step.taken ∙ here.0 in
        sym up ∙ ap parent_in same_node

    pub above : t.pages p.header.parent_page_id ≡ some (internal step.parent)
    above = ap t.pages (sym at_parent) ∙ step.there

    abbrev pub p₁ : LeafPage Key
    p₁ = (Leaf.insert o p key value).0

    pub p₁-fields :
        (Leaf.size p₁ ≡ s.leaf_max_size) × (p₁.header.parent_page_id ≡ p.header.parent_page_id)
    unfolding Leaf.insert
    p₁-fields = (full, refl)

    pub p₁-IsSorted : IsSorted o p₁
    p₁-IsSorted = insert-IsSorted o p key value here.1 missing

    -- The keys of the filled leaf are of its range in the parent.
    pub in_range :
        (j : ℕ)
        → j < Leaf.size p₁
        → (1 ≤ step.child → Route.rank_at o step.parent step.child ≤ rank_at o p₁ j)
          × (step.child + 1 < Internal.size step.parent
              → rank_at o p₁ j < Route.rank_at o step.parent (step.child + 1))
    in_range j inside =
        let k = Leaf.key_at o p₁ j in
        let found = (lookup_found o p₁ k p₁-IsSorted j inside refl).0 in
        let origin = sym (lookup-insert o p key value here.1 k missing) ∙ found in
        elim (Bool-cases (same key k)) [
          | inl equal ↦
              let e : rank key ≡ rank_at o p₁ j = ground (arith, same_rank key k) in
              (
                λ b. omega (arith, step.routes.from b, e),
                λ b. omega (arith, step.routes.below b, e),
              )
          | inr other ↦
              let hit : Leaf.lookup o p k ≡ some (p₁.array j).1 = rw other at origin in
              let routes =
                step.ranges k (p₁.array j).1
                  ((leaf_iff o t.pages id p k (p₁.array j).1 here.0 here.1).0 hit) in
              (routes.from, routes.below)
        ]

    pub id-new : id ≢ t.next_page_id
    id-new e = ground (arith, sym here.0 ∙ ap t.pages e ∙ linked.fresh)

    pub parent-id : p₁.header.parent_page_id ≢ id
    parent-id e = leaf_not_internal o here.0 (ap t.pages (sym e ∙ p₁-fields.1) ∙ above)

    pub parent-new : p₁.header.parent_page_id ≢ t.next_page_id
    parent-new e = ground (arith, sym (ap t.pages (sym e ∙ p₁-fields.1) ∙ above) ∙ linked.fresh)

    pub parent-valid : p₁.header.parent_page_id ≢ invalid_page_id
    parent-valid e = ground (arith, sym (ap t.pages (sym e ∙ p₁-fields.1) ∙ above) ∙ linked.valid)
