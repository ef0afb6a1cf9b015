-- ===== src/BPlusTree/Overflow/Pages.antt =====
-- The pages after an insertion into a full leaf, and that the insertion makes them.
use dbplayground.Base.{
  ℕ, suc, ◌+◌, ◌-◌, ◌≤◌, ◌<◌, ◌≡◌, refl, sym, ◌∙◌, ap, subst, List, some, true, false, arith,
  if◌then◌else◌, ◌==◌, ==_refl,
}
use dbplayground.Base.Result.{ok}
use dbplayground.BPlusTree.{leaf, internal, Setup, Tree, put_page, is_empty, max_size}
use dbplayground.BPlusTree.Insertion.{insert, insert_into_leaf, add_to_leaf, split_full_leaf}
use dbplayground.BPlusTree.Splits.{SplitAt}
use dbplayground.BPlusTree.Steps.{
  left_part, right_part, split_tree, parts, split_left, split_right, split_other,
  split_full_leaf-room,
}
use dbplayground.Disk.{invalid_page_id}
use dbplayground.Internal
use dbplayground.Internal.{InternalPage, value_at}
use dbplayground.Internal.Route
use dbplayground.Internal.Route.{Routes}
use dbplayground.Internal.Split.{lookup-insert_node_after}
use dbplayground.KeyOrder.{KeyOrder}
use dbplayground.Leaf
use dbplayground.Leaf.{LeafPage}
use dbplayground.Leaf.Parts.{AreParts}
use dbplayground.Leaf.Search.{rank_at}
use dbplayground.Rid.{Rid}
use dbplayground.BPlusTree.Overflow.{
  FullCase, here, step, above, p₁, p₁-fields, p₁-IsSorted, in_range, id-new, parent-id, parent-new,
  parent-valid,
}

module _ (o : KeyOrder) where
  open o use {Key, less, same, rank, same_rank}

  module _ {s : Setup Key} {n h : ℕ} {key : Key} {value : Rid} {t : Tree Key} {p : LeafPage Key}
      {id : ℕ} {held : List ℕ} (it : FullCase o s n h key value t p id held) where
    open it use {
      enough, some_root, searchable, linked, way, not_root, missing, full, two, frame, room,
    }

    abbrev pub t₁ : Tree Key
    t₁ = put_page id (leaf (p₁ o it)) t

    abbrev pub t₂ : Tree Key
    t₂ = split_tree o s id (p₁ o it) t₁ frame (id-new o it) two (p₁-fields o it).0

    abbrev pub left : LeafPage Key
    left = left_part o s t.next_page_id (p₁ o it)

    abbrev pub right : LeafPage Key
    right = right_part o s t.next_page_id (p₁ o it)

    abbrev pub middle : Key
    middle = Leaf.key_at o right 0

    abbrev pub grown : InternalPage Key
    grown = (Internal.insert_node_after id middle t.next_page_id (step o it).parent).0

    abbrev pub after : Tree Key
    after = put_page (p₁ o it).header.parent_page_id (internal grown) t₂

    pub split-ok : split_full_leaf o s (suc n) id (p₁ o it) t₁ ≡ ok after
    split-ok =
        split_full_leaf-room o s id (p₁ o it) t₁ frame (id-new o it) two (p₁-fields o it).0 n
          (step o it).parent (parent-valid o it) (parent-id o it) (parent-new o it) parent_there
          (room (step o it).parent (above o it))
      where
        parent_there : t₁.pages (p₁ o it).header.parent_page_id ≡ some (internal (step o it).parent)
        parent_there =
            let other : (id == (p₁ o it).header.parent_page_id) ≡ false =
              ground (arith, (parent-id o it)) in
            rw other (ap t.pages (p₁-fields o it).1 ∙ (above o it))

    pub inserted : insert o s (suc n) key value t ≡ ok (true, after)
    unfolding insert insert_into_leaf add_to_leaf is_empty max_size
    inserted =
        let nonempty : (t.root_page_id == invalid_page_id) ≡ false = ground arith in
        let over : (Leaf.size (p₁ o it) == s.leaf_max_size - 1 + 1) ≡ true =
          ground (arith, (p₁-fields o it).0) in
        rw (nonempty, way, missing, over, split-ok) refl

    pub cells : AreParts o (p₁ o it) left right
    cells = parts o s id (p₁ o it) t₁ frame (id-new o it) two (p₁-fields o it).0

    pub middle_rank :
        (0 < Leaf.size left)
        × (Leaf.size left < Leaf.size (p₁ o it))
        × (rank middle ≡ rank_at o (p₁ o it) (Leaf.size left + 0))
    middle_rank = (
      omega (arith, (p₁-fields o it).0, two),
      omega (arith, (p₁-fields o it).0, two),
      ap (λ c. rank c.0) (cells.rights 0 cells.some_right),
    )

    pub leads :
        (k : Key)
        → Internal.lookup o grown k ≡ (
            if Internal.lookup o (step o it).parent k == id
            then if less k middle then id else t.next_page_id
            else Internal.lookup o (step o it).parent k)
    leads k =
        subst
          (λ c.
            Internal.lookup o
              (Internal.insert_node_after c middle t.next_page_id (step o it).parent).0 k
            ≡ (if Internal.lookup o (step o it).parent k == c
                then if less k middle then c else t.next_page_id
                else Internal.lookup o (step o it).parent k))
          (step o it).taken
          (lookup-insert_node_after o (step o it).parent (step o it).child (step o it).routes.inside
            (step o it).keys
            (linked.distinct (step o it).parent_id (step o it).parent (step o it).there) middle
            t.next_page_id over_left under_right k)
      where
        over_left :
            1 ≤ (step o it).child
            → Route.rank_at o (step o it).parent (step o it).child < rank middle
        over_left b = omega (
          arith,
          ((in_range o it) 0 (omega (arith, middle_rank.0, middle_rank.1))).0 b,
          (p₁-IsSorted o it) 0 (Leaf.size left + 0) (omega (arith, middle_rank.0))
              (omega (arith, middle_rank.1)),
          middle_rank.2,
        )

        under_right :
            (step o it).child + 1 < Internal.size (step o it).parent
            → rank middle < Route.rank_at o (step o it).parent ((step o it).child + 1)
        under_right b = omega (
          arith,
          ((in_range o it) (Leaf.size left + 0) (omega (arith, middle_rank.1))).1 b,
          middle_rank.2,
        )

    pub did :
        SplitAt o t after id t.next_page_id
          (p₁ o it).header.parent_page_id
          p
          left
          right
          (step o it).parent
          grown
          middle
    did = record {
      was = (here o it).0;
      child = sym (p₁-fields o it).1;
      was_parent = ap t.pages (p₁-fields o it).1 ∙ (above o it);
      fresh = linked.fresh;
      at_left =
          let other : ((p₁ o it).header.parent_page_id == id) ≡ false =
            ground (arith, (parent-id o it)) in
          rw other (split_left o s id (p₁ o it) t₁ frame (id-new o it) two (p₁-fields o it).0);
      at_right =
          let other : ((p₁ o it).header.parent_page_id == t.next_page_id) ≡ false =
            ground (arith, (parent-new o it)) in
          rw other (split_right o s id (p₁ o it) t₁ frame (id-new o it) two (p₁-fields o it).0);
      at_parent = rw (==_refl (p₁ o it).header.parent_page_id) refl;
      elsewhere = λ i a b c.
          let other : ((p₁ o it).header.parent_page_id == i) ≡ false = ground arith in
          let apart : (id == i) ≡ false = ground arith in
          rw other (
            split_other o s id (p₁ o it) t₁ frame (id-new o it) two (p₁-fields o it).0 i a b
            ∙ rw apart refl);
      leads = leads;
    }
