-- ===== src/Tests/Pages.antt =====
-- The pages of the tree on small inputs, with numbers for keys.
use dbplayground.Base.{
  ℕ, ◌+◌, ◌*◌, ◌<◌, ◌≤◌, ◌≡◌, ◌≢◌, ◌++◌, refl, ◌∷◌, none, some, arith, if◌then◌else◌, ◌==◌, ltb,
  slice,
}
use dbplayground.Disk.{invalid_page_id}
use dbplayground.KeyOrder.{KeyOrder}
use dbplayground.Rid.{Rid}
use dbplayground.TreePage.{leaf_page, internal_page}
use dbplayground.Leaf
use dbplayground.Leaf.{LeafPage}
use dbplayground.Leaf.Search
use dbplayground.Leaf.Lookup.{assoc, lookup-assoc}
use dbplayground.Leaf.Change.{lookup-insert}
use dbplayground.Leaf.Removal.{lookup-remove}
use dbplayground.Internal
use dbplayground.Internal.{InternalPage, Parents}
use dbplayground.Internal.Route
use dbplayground.Internal.Route.{Routes, lookup-Routes}
use dbplayground.Internal.Split.{IsInjective, lookup-insert_node_after, lookup-remove_child}
use dbplayground.Internal.Moves.{move_half_to_children, move_all_to_children}
use dbplayground.Internal.Borrow.{move_last_to_front_of_loses}

abbrev pub numbers : KeyOrder
numbers = record {
  Key = ℕ;
  less = ltb;
  same = ◌==◌;
  rank = λ n. n;
  less_rank = λ a b. refl;
  same_rank = λ a b. refl;
}

-- The keys 10, 20, 30, ... with records of the same number.
abbrev leaf : ℕ → LeafPage ℕ
leaf n = record {
  header = record {
    page_type = leaf_page;
    size = n;
    max_size = 8;
    parent_page_id = 0;
    page_id = 1;
  };
  next_page_id = invalid_page_id;
  array = λ i. (10 + 10 * i, record { page_id = i; slot_id = 0 });
}

leaf-IsSorted : Leaf.Search.IsSorted numbers (leaf 3)
leaf-IsSorted i j h k = omega arith

missing : Leaf.lookup numbers (leaf 3) 15 ≡ none
unfolding Leaf.lookup Leaf.key_index
missing = refl

abbrev place : Rid
place = record { page_id = 9; slot_id = 9 }

lookup-insert_example :
    Leaf.lookup numbers (Leaf.insert numbers (leaf 3) 15 place).0 15 ≡ some place
lookup-insert_example = lookup-insert numbers (leaf 3) 15 place leaf-IsSorted 15 missing

lookup-remove_example :
    Leaf.lookup numbers (Leaf.remove_and_delete_record numbers (leaf 3) 20).0 20 ≡ none
lookup-remove_example = lookup-remove numbers (leaf 3) 20 leaf-IsSorted 20

lookup-assoc_example : Leaf.lookup numbers (leaf 3) 30 ≡ assoc numbers (Leaf.entries (leaf 3)) 30
lookup-assoc_example = lookup-assoc numbers (leaf 3) 30 leaf-IsSorted

abbrev first_pair : ℕ × Rid
first_pair = (leaf 3).array 0

-- The children are the pages `base`, `base` + 1, ...
abbrev node : ℕ → ℕ → InternalPage ℕ
node base n = record {
  header = record {
    page_type = internal_page;
    size = n;
    max_size = 8;
    parent_page_id = 0;
    page_id = base;
  };
  array = λ i. (10 * i, base + i);
}

abbrev parents : Parents
parents q = 77

node-IsSorted : Internal.Route.IsSorted numbers (node 100 3)
node-IsSorted i j low h k = omega arith

node-IsInjective : IsInjective (node 100 3)
node-IsInjective i j h k e = omega (arith, e)

lookup-Routes_example :
    (c : ℕ) × Routes numbers (node 100 3) 15 c
    × (Internal.lookup numbers (node 100 3) 15 ≡ 100 + c)
    × ((i : ℕ) → Routes numbers (node 100 3) 15 i → i ≡ c)
lookup-Routes_example = lookup-Routes numbers (node 100 3) 15 node-IsSorted (omega arith)

lookup-insert_node_after_example :
    Internal.lookup numbers (Internal.insert_node_after 101 15 200 (node 100 3)).0 17 ≡ (
      if Internal.lookup numbers (node 100 3) 17 == 101
      then 200
      else Internal.lookup numbers (node 100 3) 17)
lookup-insert_node_after_example =
    lookup-insert_node_after numbers (node 100 3) 1 (omega arith) node-IsSorted node-IsInjective 15
      200 (λ h. omega arith) (λ h. omega arith) 17

lookup-remove_child_example : Internal.lookup numbers (Internal.remove 1 (node 100 3)) 15 ≡ (
    if Internal.lookup numbers (node 100 3) 15 == 101
    then 100
    else Internal.lookup numbers (node 100 3) 15)
lookup-remove_child_example =
    lookup-remove_child numbers (node 100 3) 1 (omega arith) node-IsSorted node-IsInjective
      (omega arith) 15

move_half_to_children_example :
    (Internal.entries (Internal.move_half_to (node 100 5) (node 200 0) parents).0
        ++ Internal.entries (Internal.move_half_to (node 100 5) (node 200 0) parents).1
      ≡ Internal.entries (node 100 5))
    × (Internal.size (Internal.move_half_to (node 100 5) (node 200 0) parents).0 ≡ 3)
    × (Internal.size (Internal.move_half_to (node 100 5) (node 200 0) parents).1 ≡ 2)
    × ((j : ℕ)
        → 3 ≤ j
        → j < 5
        → (Internal.move_half_to (node 100 5) (node 200 0) parents).2 (100 + j) ≡ 200)
    × ((q : ℕ)
        → ((j : ℕ) → 3 ≤ j → j < 5 → 100 + j ≢ q)
        → (Internal.move_half_to (node 100 5) (node 200 0) parents).2 q ≡ 77)
move_half_to_children_example = move_half_to_children (node 100 5) (node 200 0) parents refl

move_all_to_children_example :
    (Internal.entries (Internal.move_all_to (node 100 3) (node 200 2) 55 parents).1
      ≡ Internal.entries (node 200 2) ++ ((55, 100) ∷ slice 2 1 (node 100 3).array))
    × (Internal.size (Internal.move_all_to (node 100 3) (node 200 2) 55 parents).0 ≡ 0)
    × ((j : ℕ)
        → j < 3
        → (Internal.move_all_to (node 100 3) (node 200 2) 55 parents).2 (100 + j) ≡ 200)
    × ((q : ℕ)
        → ((j : ℕ) → j < 3 → 100 + j ≢ q)
        → (Internal.move_all_to (node 100 3) (node 200 2) 55 parents).2 q ≡ 77)
move_all_to_children_example =
    move_all_to_children (node 100 3) (node 200 2) 55 parents (omega arith)

abbrev borrower : InternalPage ℕ
borrower = (Internal.move_last_to_front_of (node 200 2) (node 100 3) 55 parents).1

move_last_to_front_of_loses_example :
    (Internal.value_at borrower 0 ≡ invalid_page_id)
    × (Internal.size borrower ≡ 4)
    × ((j : ℕ) → j < Internal.size borrower → Internal.value_at borrower j ≢ 102)
move_last_to_front_of_loses_example =
    move_last_to_front_of_loses (node 200 2) (node 100 3) 55 parents (omega arith)
      (λ e. omega (arith, e)) (λ e. omega (arith, e)) (λ j h e. omega (arith, e))
