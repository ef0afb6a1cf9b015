-- ===== src/BPlusTree.antt =====
-- src/Container/BPlusTree.{h,cpp}: the tree over its pages. The buffer pool's pages are a function from
-- a page id: what was written to a page is read from it, as the theorems on the pool say. Pins and
-- latches are not part of the state; the set of the pages that a transaction holds is returned. A page
-- that is asked to be deleted is gone, whether or not it is pinned.
pub mod Descent
pub mod Insertion
pub mod Siblings
pub mod Removal
pub mod Shape
pub mod Search
pub mod Places
pub mod Changes
pub mod Halves
pub mod Splits
pub mod Linked
pub mod Steps
pub mod Overflow
pub mod First
pub mod Latches
pub mod Balance
pub mod Merges
use dbplayground.Base.{
  ℕ, ◌+◌, ◌-◌, ◌/◌, ◌≤◌, Option, none, some, Bool, true, false, leb, ltb, ◌==◌, not, if◌then◌else◌,
  put,
}
use dbplayground.Base.Result.{Result, err, ok, ◌>>=◌, out_of_memory, null_page, undefined}
use dbplayground.Disk.{invalid_page_id}
use dbplayground.Internal
use dbplayground.Internal.{InternalPage, Parents}
use dbplayground.KeyOrder.{KeyOrder}
use dbplayground.Leaf
use dbplayground.Leaf.{LeafPage}
use dbplayground.Rid.{Rid}
use dbplayground.TreePage.{Header, invalid_index_page, is_root_page}

pub data Node (K : Type 0) : Type 0 where
  leaf : LeafPage K → Node K
  internal : InternalPage K → Node K

-- The sizes that the tree is made with, the key of a page of zeroes, and whether the pool has a frame
-- for a new page of this id.
pub record Setup (K : Type 0) : Type 0 where
  pub leaf_max_size : ℕ
  pub internal_max_size : ℕ
  pub zero_key : K
  pub has_frame : ℕ → Bool

pub record Tree (K : Type 0) : Type 0 where
  pub root_page_id : ℕ
  pub next_page_id : ℕ
  pub pages : ℕ → Option (Node K)

pub data OpType : Type 0 where
  for_read for_insert for_remove : OpType

module _ {K : Type 0} where
  abbrev pub header_of : Node K → Header
  header_of (leaf p) = p.header
  header_of (internal p) = p.header

  abbrev pub is_leaf : Node K → Bool
  is_leaf (leaf p) = true
  is_leaf (internal p) = false

  abbrev pub size_of : Node K → ℕ
  size_of n = (header_of n).size

  abbrev pub set_parent : ℕ → Node K → Node K
  set_parent id (leaf p) = leaf (record p { header = record (p.header) { parent_page_id = id } })
  set_parent id (internal p) =
      internal (record p { header = record (p.header) { parent_page_id = id } })

  unfoldable pub is_empty : Tree K → Bool
  is_empty t = t.root_page_id == invalid_page_id

  abbrev pub put_page : ℕ → Node K → Tree K → Tree K
  put_page id n t = record t { pages = put t.pages id (some n) }

  unfoldable pub delete_page : ℕ → Tree K → Tree K
  delete_page id t = record t { pages = put t.pages id none }

  -- The pointer that the pool returns is followed.
  abbrev page_at : Option (Node K) → Result (Node K)
  page_at none = err undefined
  page_at (some n) = ok n

  unfoldable pub fetch : ℕ → Tree K → Result (Node K)
  fetch id t = page_at (t.pages id)

  -- The casts of a page to the class of its kind.
  abbrev pub as_leaf : Node K → Result (LeafPage K)
  as_leaf (leaf p) = ok p
  as_leaf (internal p) = err undefined

  abbrev pub as_internal : Node K → Result (InternalPage K)
  as_internal (leaf p) = err undefined
  as_internal (internal p) = ok p

  unfoldable pub fetch_internal : ℕ → Tree K → Result (InternalPage K)
  unfolding fetch
  fetch_internal id t = fetch id t >>= as_internal

  -- The parent ids in the headers, and the headers with these parent ids: `UpdateParentPageId`.
  abbrev pub parent_in : Option (Node K) → ℕ
  parent_in none = invalid_page_id
  parent_in (some n) = (header_of n).parent_page_id

  abbrev pub parents_of : Tree K → Parents
  parents_of t id = parent_in (t.pages id)

  abbrev with_parent : ℕ → Option (Node K) → Option (Node K)
  with_parent parent none = none
  with_parent parent (some n) = some (set_parent parent n)

  unfoldable pub set_parents : Parents → Tree K → Tree K
  set_parents parents t = record t { pages = λ id. with_parent (parents id) (t.pages id) }

  module _ (s : Setup K) where
    unfoldable pub min_size : Node K → ℕ
    min_size n = if is_leaf n then s.leaf_max_size / 2 else (s.internal_max_size + 1) / 2

    unfoldable pub max_size : Node K → ℕ
    max_size n = if is_leaf n then s.leaf_max_size - 1 else s.internal_max_size

    unfoldable pub fit_one : Node K → Node K → Bool
    fit_one a b =
        leb (size_of a + size_of b) (if is_leaf a then s.leaf_max_size - 1 else s.internal_max_size)

    abbrev is_safe_root : Node K → Bool
    is_safe_root n = if is_leaf n then true else ltb 2 (size_of n)

    abbrev is_safe_remove : Node K → Bool
    is_safe_remove n =
        if is_root_page (header_of n) then is_safe_root n else ltb (min_size n) (size_of n)

    unfoldable pub is_safe : OpType → Node K → Bool
    unfolding min_size max_size
    is_safe for_insert n = ltb (size_of n) (max_size n)
    is_safe for_remove n = is_safe_remove n
    is_safe for_read n = is_safe_remove n

    -- `NewPage`: the next page id, or a null pointer and an exception of the caller.
    unfoldable pub new_page : Tree K → Result (ℕ × Tree K)
    new_page t =
        if s.has_frame t.next_page_id
        then ok (t.next_page_id, record t { next_page_id = t.next_page_id + 1 })
        else err out_of_memory

    abbrev zero_header : Header
    zero_header = record {
      page_type = invalid_index_page;
      size = 0;
      max_size = 0;
      parent_page_id = 0;
      page_id = 0;
    }

    -- A page of zeroes, read as a leaf or as an internal page.
    abbrev pub blank_leaf : LeafPage K
    blank_leaf = record {
      header = zero_header;
      next_page_id = 0;
      array = λ i. (s.zero_key, record { page_id = 0; slot_id = 0 });
    }

    abbrev pub blank_internal : InternalPage K
    blank_internal = record { header = zero_header; array = λ i. (s.zero_key, 0) }
