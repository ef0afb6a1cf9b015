-- ===== src/Tests/Trees.antt =====
-- A tree of a root and two leaves, with numbers for keys: 10, 20, 30 and 40, 50, 60.
use mathlib.Core.Logic.{◌↔◌}
use dbplayground.Base.{
  ℕ, zero, suc, ◌+◌, ◌*◌, ◌<◌, ◌≤◌, ◌≡◌, ◌≢◌, refl, sym, ap, inl, inr, Bool-cases, subst, [], ◌∷◌,
  ◌++◌, Option, none, some, true, false, arith, if◌then◌else◌, ◌==◌,
}
use dbplayground.Base.Result.{ok, Ensures}
use dbplayground.BPlusTree
use dbplayground.BPlusTree.{Node, Setup, Tree, for_insert, for_remove, fit_one, min_size, size_of}
use dbplayground.BPlusTree.Descent.{
  find_leaf_page_rw, find_leaf_page, first_leaf_page_id, get_value,
}
use dbplayground.BPlusTree.Insertion.{insert, split_leaf}
use dbplayground.BPlusTree.Removal.{remove, coalesce_or_redistribute}
use dbplayground.BPlusTree.Shape.{Stored, IsSearchable, leaf-injective, internal-injective}
use dbplayground.BPlusTree.Linked.{IsLinked}
use dbplayground.BPlusTree.Overflow.Searches.{get_value-insert_full}
use dbplayground.BPlusTree.Search.{get_value_iff}
use dbplayground.BPlusTree.Changes.{get_value-insert, get_value-remove}
use dbplayground.BPlusTree.First.{IsLeast, first_leaf_page_id-IsLeast}
use dbplayground.BPlusTree.Latches.{EndsAtLeaf, find_leaf_page_rw-AreHeld}
use dbplayground.BPlusTree.Balance.{fit_one-lends}
use dbplayground.BPlusTree.Merges.{IsMerged, balance_parent}
use dbplayground.BPlusTree.Merges.Leaves.{
  leftmost, coalesce_or_redistribute-merges_left, coalesce_or_redistribute-merges_right,
}
use dbplayground.BPlusTree.Halves.{IsBalanced, split_leaf-halves}
use dbplayground.Disk.{invalid_page_id}
use dbplayground.Internal.{InternalPage, value_index}
use dbplayground.Internal.Route.{Routes}
use dbplayground.Leaf
use dbplayground.Leaf.{LeafPage}
use dbplayground.Rid.{Rid}
use dbplayground.Tests.Pages.{numbers}
use dbplayground.TreePage.{leaf_page, internal_page}

abbrev rid : ℕ → Rid
rid n = record { page_id = n; slot_id = 0 }

-- The leaf at page 2 + `i`, of `n` pairs.
abbrev leaf_at : ℕ → ℕ → LeafPage ℕ
leaf_at i n = record {
  header = record {
    page_type = leaf_page;
    size = n;
    max_size = 5;
    parent_page_id = 1;
    page_id = 2 + i;
  };
  next_page_id = if i == 0 then 3 else invalid_page_id;
  array = λ j. (10 + 30 * i + 10 * j, rid (10 + 30 * i + 10 * j));
}

abbrev root : InternalPage ℕ
root = record {
  header = record {
    page_type = internal_page;
    size = 2;
    max_size = 4;
    parent_page_id = invalid_page_id;
    page_id = 1;
  };
  array = λ i. (10 + 30 * i, 2 + i);
}

-- The pages, of which the second leaf has `m` pairs.
abbrev page_with : ℕ → ℕ → Option (Node ℕ)
page_with m id =
    if id == 1
    then some (Node.internal root)
    else if id == 2
    then some (Node.leaf (leaf_at 0 3))
    else if id == 3
    then some (Node.leaf (leaf_at 1 m))
    else none

abbrev page : ℕ → Option (Node ℕ)
page id = page_with 3 id

abbrev setup : Setup ℕ
setup = record { leaf_max_size = 5; internal_max_size = 4; zero_key = 0; has_frame = λ id. true }

abbrev tree_with : ℕ → Tree ℕ
tree_with m = record { root_page_id = 1; next_page_id = 4; pages = page_with m }

abbrev tree : Tree ℕ
tree = record { root_page_id = 1; next_page_id = 4; pages = page }

module _ (m : ℕ) where
  child : (i : ℕ) → i < 2 → IsSearchable numbers (page_with m) 0 (2 + i)
  child zero h = (leaf_at 0 3, refl, λ i j b c. omega arith)
  child (suc zero) h = (leaf_at 1 m, refl, λ i j b c. omega arith)
  child (suc (suc i)) h = absurd (omega arith)

  -- The keys of a leaf.
  range :
      (i n k key : ℕ) (p : LeafPage ℕ)
      → p ≡ leaf_at i k
      → n < Leaf.size p
      → (p.array n).0 ≡ key
      → (10 + 30 * i ≤ key) × (key < 10 + 30 * i + 10 * k)
  range i n k key p e inside equal =
      let inside' = subst (λ l. n < Leaf.size l) e inside in
      let equal' = subst (λ l. (l.array n).0 ≡ key) e equal in
      (omega (arith, inside', equal'), omega (arith, inside', equal'))

  child-Routes :
      (i key : ℕ) (value : Rid)
      → i < 2
      → Stored numbers (page_with m) 0 (2 + i) key value
      → Routes numbers root key i
  child-Routes zero key value h (p, here, n, inside, equal, same) =
      let bounds = range 0 n 3 key p (leaf-injective here refl) inside equal in
      record {
        inside = omega arith;
        from = λ b. omega (arith, bounds.0);
        below = λ b. omega (arith, bounds.1);
      }
  child-Routes (suc zero) key value h (p, here, n, inside, equal, same) =
      let bounds = range 1 n m key p (leaf-injective here refl) inside equal in
      record {
        inside = omega arith;
        from = λ b. omega (arith, bounds.0);
        below = λ b. absurd (omega arith);
      }
  child-Routes (suc (suc i)) key value h stored = absurd (omega arith)

  tree_with-IsSearchable : IsSearchable numbers (page_with m) 1 1
  tree_with-IsSearchable = (
    root,
    refl,
    omega arith,
    λ i j a b c. omega arith,
    child,
    λ i key value. child-Routes i key value,
  )

tree-IsSearchable : IsSearchable numbers page 1 1
tree-IsSearchable = tree_with-IsSearchable 3

some_root : tree.root_page_id ≢ invalid_page_id
some_root e = omega arith

get_value_iff_example :
    (r : Option Rid) × (get_value numbers setup 2 50 tree ≡ ok r)
    × ((value : Rid) → (r ≡ some value) ↔ Stored numbers page 1 1 50 value)
get_value_iff_example =
    get_value_iff numbers setup 2 1 50 tree (omega arith) some_root tree-IsSearchable

way_in : find_leaf_page_rw numbers setup 2 45 false for_insert tree ≡ ok (leaf_at 1 3, 3, 3 ∷ [])
unfolding find_leaf_page_rw
way_in = refl

missing : Leaf.lookup numbers (leaf_at 1 3) 45 ≡ none
unfolding Leaf.lookup Leaf.key_index
missing = refl

get_value-insert_example :
    (t' : Tree ℕ) × (insert numbers setup 2 45 (rid 45) tree ≡ ok (true, t'))
    × ((k : ℕ)
        → get_value numbers setup 2 k t'
          ≡ (if 45 == k then ok (some (rid 45)) else get_value numbers setup 2 k tree))
get_value-insert_example =
    get_value-insert numbers setup 2 1 45 tree (omega arith) some_root tree-IsSearchable (rid 45)
      way_in missing (omega arith)

way_out : find_leaf_page_rw numbers setup 2 50 false for_remove tree ≡ ok (leaf_at 1 3, 3, 3 ∷ [])
unfolding find_leaf_page_rw
way_out = refl

get_value-remove_example :
    (t' : Tree ℕ) × (remove numbers setup 2 50 tree ≡ ok t')
    × ((k : ℕ)
        → get_value numbers setup 2 k t'
          ≡ (if 50 == k then ok none else get_value numbers setup 2 k tree))
get_value-remove_example =
    get_value-remove numbers setup 2 1 50 tree (omega arith) some_root tree-IsSearchable way_out
      (omega arith)

first_leaf_page_id-IsLeast_example :
    (id : ℕ) × (p : LeafPage ℕ) × (first_leaf_page_id numbers 2 tree ≡ ok id)
    × (find_leaf_page numbers 2 0 true tree ≡ ok (id, p))
    × IsLeast numbers tree 1 1 id p
first_leaf_page_id-IsLeast_example =
    first_leaf_page_id-IsLeast numbers tree 2 1 0 (omega arith) some_root tree-IsSearchable

find_leaf_page_rw-AreHeld_example :
    Ensures
      (EndsAtLeaf numbers setup for_insert tree)
      (find_leaf_page_rw numbers setup 2 45 false for_insert tree)
find_leaf_page_rw-AreHeld_example =
    find_leaf_page_rw-AreHeld numbers setup for_insert tree 2 45 false (λ e. ground arith)

-- The leaves have `m` and `n` pairs.
abbrev leaves : ℕ → ℕ → Tree ℕ
leaves m n = record {
  root_page_id = 1;
  next_page_id = 4;
  pages = λ id.
      if id == 2
      then some (Node.leaf (leaf_at 0 m))
      else if id == 3
      then some (Node.leaf (leaf_at 1 n))
      else page id;
}

second_child : value_index root 3 ≡ some 1
unfolding value_index
second_child = refl

first_child : value_index root 2 ≡ some 0
unfolding value_index
first_child = refl

fits_left : fit_one setup (Node.leaf (leaf_at 0 3)) (Node.leaf (leaf_at 1 1)) ≡ true
unfolding fit_one
fits_left = refl

fits_right : fit_one setup (Node.leaf (leaf_at 1 3)) (Node.leaf (leaf_at 0 1)) ≡ true
unfolding fit_one
fits_right = refl

coalesce_or_redistribute-merges_left_example :
    (t' : Tree ℕ) × (m : IsMerged numbers setup
      (leaves 3 1)
      t'
      2
      (leaf_at 0 3)
      3
      (leaf_at 1 1)
      1
      root
      1)
    × (coalesce_or_redistribute numbers setup 2 3 (leaves 3 1)
        ≡ balance_parent numbers setup (coalesce_or_redistribute numbers setup 1) 1 m.smaller t')
coalesce_or_redistribute-merges_left_example =
    coalesce_or_redistribute-merges_left numbers setup 1 3 (leaves 3 1) (leaf_at 1 1) root refl
      (omega arith) refl 0 (leaf_at 0 3) second_child refl refl fits_left

coalesce_or_redistribute-merges_right_example :
    (t' : Tree ℕ) × (m : IsMerged numbers setup
      (leaves 1 3)
      t'
      2
      (leaf_at 0 1)
      3
      (leaf_at 1 3)
      1
      root
      1)
    × (coalesce_or_redistribute numbers setup 2 2 (leaves 1 3)
        ≡ balance_parent numbers setup (coalesce_or_redistribute numbers setup 1) 1 m.smaller t')
coalesce_or_redistribute-merges_right_example =
    coalesce_or_redistribute-merges_right numbers setup 1 2 (leaves 1 3) (leaf_at 0 1) root refl
      (omega arith) refl 0 (leaf_at 1 3) first_child (leftmost refl) (omega arith) (omega arith)
      refl refl fits_right

unfit : fit_one setup (Node.leaf (leaf_at 0 4)) (Node.leaf (leaf_at 1 1)) ≡ false
unfolding fit_one
unfit = refl

few : size_of (Node.leaf (leaf_at 1 1)) < min_size setup (Node.leaf (leaf_at 1 1))
unfolding min_size
few = omega arith

fit_one-lends_example : min_size setup (Node.leaf (leaf_at 0 4)) < size_of (Node.leaf (leaf_at 0 4))
fit_one-lends_example =
    fit_one-lends numbers setup (Node.leaf (leaf_at 0 4)) (Node.leaf (leaf_at 1 1)) refl unfit few

full : Leaf.size (leaf_at 0 5) ≡ BPlusTree.max_size setup (Node.leaf (leaf_at 0 5)) + 1
unfolding BPlusTree.max_size
full = refl

split_leaf-halves_example :
    (l : LeafPage ℕ) × (r : LeafPage ℕ) × (t' : Tree ℕ) × (split_leaf numbers setup 2
        (leaf_at 0 5)
        tree
      ≡ ok (4, t'))
    × (t'.pages 2 ≡ some (Node.leaf l))
    × (t'.pages 4 ≡ some (Node.leaf r))
    × (Leaf.entries l ++ Leaf.entries r ≡ Leaf.entries (leaf_at 0 5))
    × IsBalanced numbers setup l
    × IsBalanced numbers setup r
    × (l.next_page_id ≡ 4)
    × (r.next_page_id ≡ 3)
split_leaf-halves_example =
    split_leaf-halves numbers setup 2 (leaf_at 0 5) tree refl (λ e. omega arith) (omega arith) full

-- The second leaf is full.
is_root :
    (id : ℕ) (p : InternalPage ℕ) → page_with 4 id ≡ some (Node.internal p) → (id ≡ 1) × (p ≡ root)
is_root id p here = elim (Bool-cases (id == 1)) [
  | inl first ↦ let e : id ≡ 1 = ground arith in (e, internal-injective here (ap (page_with 4) e))
  | inr other ↦ elim (Bool-cases (id == 2)) [
    | inl second ↦ absurd (ground (arith, here))
    | inr other' ↦ elim (Bool-cases (id == 3)) [
      | inl third ↦ absurd (ground (arith, here))
      | inr none_there ↦ absurd (ground (arith, here))
    ]
  ]
]

child_parent :
    (i : ℕ)
    → i < 2
    → (n : Node ℕ) × (page_with 4 (2 + i) ≡ some n) × ((BPlusTree.header_of n).parent_page_id ≡ 1)
child_parent zero h = (Node.leaf (leaf_at 0 3), refl, refl)
child_parent (suc zero) h = (Node.leaf (leaf_at 1 4), refl, refl)
child_parent (suc (suc i)) h = absurd (omega arith)

full_tree-IsLinked : IsLinked numbers (tree_with 4)
full_tree-IsLinked = record {
  agree = λ id p i here inside.
      let (e, same) = is_root id p here in
      subst
        (λ q.
          (n : Node ℕ) × (page_with 4 (q.array i).1 ≡ some n)
          × ((BPlusTree.header_of n).parent_page_id ≡ id))
        (sym same)
        (subst
          (λ j.
            (n : Node ℕ) × (page_with 4 (2 + i) ≡ some n)
            × ((BPlusTree.header_of n).parent_page_id ≡ j))
          (sym e) (child_parent i (subst (λ q. i < q.header.size) same inside)));
  distinct = λ id p here.
      subst
        (λ q.
          (i j : ℕ) → i < q.header.size → j < q.header.size → (q.array i).1 ≡ (q.array j).1 → i ≡ j)
        (sym (is_root id p here).1) (λ i j a b e. omega (arith, e));
  valid = refl;
  fresh = refl;
}

way_full :
    find_leaf_page_rw numbers setup 2 45 false for_insert (tree_with 4)
    ≡ ok (leaf_at 1 4, 3, 1 ∷ 3 ∷ [])
unfolding find_leaf_page_rw
way_full = refl

missing_full : Leaf.lookup numbers (leaf_at 1 4) 45 ≡ none
unfolding Leaf.lookup Leaf.key_index
missing_full = refl

get_value-insert_full_example :
    (t' : Tree ℕ) × (insert numbers setup 2 45 (rid 45) (tree_with 4) ≡ ok (true, t'))
    × ((k : ℕ)
        → get_value numbers setup 2 k t'
          ≡ (if 45 == k then ok (some (rid 45)) else get_value numbers setup 2 k (tree_with 4)))
get_value-insert_full_example =
    get_value-insert_full numbers setup 1 1 45 (rid 45) (tree_with 4) (omega arith) some_root
      (tree_with-IsSearchable 4) full_tree-IsLinked way_full (λ e. omega (arith, e)) missing_full
      refl (omega arith) refl
      (λ parent here. subst (λ q. q.header.size < 4) (sym (is_root 1 parent here).1) (omega arith))
