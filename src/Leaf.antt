-- ===== src/Leaf.antt =====
-- src/Storage/Page/BPlusTreeLeafPage.{h,cpp}: keys and record ids in the order of the keys. The
-- flexible array is a function from an index, of which the first `size` cells are the page's.
pub mod Search
pub mod Lookup
pub mod Change
pub mod Removal
pub mod Moves
pub mod Borrow
pub mod Parts
use dbplayground.Base.{
  ℕ, zero, suc, ◌+◌, ◌-◌, ◌/◌, List, Option, none, some, Bool, true, false, ◌&&◌, ltb, ◌==◌,
  if◌then◌else◌, put, shift_up, shift_down, copy_run, slice,
}
use dbplayground.Disk.{invalid_page_id}
use dbplayground.KeyOrder.{KeyOrder}
use dbplayground.Rid.{Rid}
use dbplayground.TreePage.{Header, leaf_page, get_max_size}

pub record LeafPage (K : Type 0) : Type 0 where
  pub header : Header
  pub next_page_id : ℕ
  pub array : ℕ → K × Rid

module _ {K : Type 0} where
  abbrev pub size : LeafPage K → ℕ
  size p = p.header.size

  abbrev pub set_size : LeafPage K → ℕ → LeafPage K
  set_size p n = record p { header = record (p.header) { size = n } }

  unfoldable pub init : ℕ → ℕ → ℕ → LeafPage K → LeafPage K
  init page_id parent_id max_size p = record p {
    header = record {
      page_type = leaf_page;
      size = 0;
      max_size = max_size;
      parent_page_id = parent_id;
      page_id = page_id;
    };
    next_page_id = invalid_page_id;
  }

  -- `none` is the exception "will overflow page".
  unfoldable pub copy_n_from : ℕ → ℕ → (ℕ → K × Rid) → LeafPage K → Option (LeafPage K)
  copy_n_from n from items p =
      if ltb (get_max_size p.header) (size p + n)
      then none
      else some (record p { array = copy_run n (size p) from items p.array })

  -- Each of the moves returns the page itself and the recipient.
  moved_half : LeafPage K → Option (LeafPage K) → Option (LeafPage K × LeafPage K)
  moved_half p none = none
  moved_half p (some r) =
      let num_moved = size p - (size p + 1) / 2 in
      some (set_size p (size p - num_moved), set_size r (size r + num_moved))

  unfoldable pub move_half_to : LeafPage K → LeafPage K → Option (LeafPage K × LeafPage K)
  unfolding moved_half copy_n_from
  move_half_to p recipient =
      let move_start = (size p + 1) / 2 in
      moved_half p (copy_n_from (size p - move_start) move_start p.array recipient)

  moved_all : LeafPage K → Option (LeafPage K) → Option (LeafPage K × LeafPage K)
  moved_all p none = none
  moved_all p (some r) =
      some (set_size p 0, set_size (record r { next_page_id = p.next_page_id }) (size r + size p))

  unfoldable pub move_all_to : LeafPage K → LeafPage K → Option (LeafPage K × LeafPage K)
  unfolding moved_all copy_n_from
  move_all_to p recipient = moved_all p (copy_n_from (size p) 0 p.array recipient)

  unfoldable pub copy_last_from : K × Rid → LeafPage K → LeafPage K
  copy_last_from item p = record p { array = put p.array (size p) item }

  unfoldable pub copy_first_from : K × Rid → LeafPage K → LeafPage K
  copy_first_from item p = record p { array = put (shift_up (size p) 0 p.array) 0 item }

  unfoldable pub move_first_to_end_of : LeafPage K → LeafPage K → LeafPage K × LeafPage K
  unfolding copy_last_from
  move_first_to_end_of p recipient = (
    set_size (record p { array = shift_down (size p - 1) 0 p.array }) (size p - 1),
    set_size (copy_last_from (p.array 0) recipient) (size recipient + 1),
  )

  unfoldable pub move_last_to_front_of : LeafPage K → LeafPage K → LeafPage K × LeafPage K
  unfolding copy_first_from
  move_last_to_front_of p recipient = (
    set_size p (size p - 1),
    set_size (copy_first_from (p.array (size p - 1)) recipient) (size recipient + 1),
  )

  -- The page's pairs, in order.
  abbrev pub entries : LeafPage K → List (K × Rid)
  entries p = slice (size p) 0 p.array

module _ (o : KeyOrder) where
  open o use {Key, less, same}

  abbrev pub key_at : LeafPage Key → ℕ → Key
  key_at p i = (p.array i).0

  -- `std::lower_bound`: the search for the first item that is not less than the key halves the run
  -- of `n` items from `first` on. Each round leaves fewer, so `n` rounds are enough.
  unfoldable pub lower_bound : ℕ → ℕ → ℕ → LeafPage Key → Key → ℕ
  lower_bound zero first n p key = first
  lower_bound (suc fuel) first n p key =
      let half = n / 2 in
      let right = lower_bound fuel (first + half + 1) (n - (half + 1)) p key in
      let left = lower_bound fuel first half p key in
      if n == 0 then first else if less (key_at p (first + half)) key then right else left

  unfoldable pub key_index : LeafPage Key → Key → ℕ
  unfolding lower_bound
  key_index p key = lower_bound (size p) 0 (size p) p key

  -- The size of the page is returned beside it.
  unfoldable pub insert : LeafPage Key → Key → Rid → LeafPage Key × ℕ
  insert p key value =
      let position = key_index p key in
      let shifted = shift_up (size p - position) position p.array in
      (set_size (record p { array = put shifted position (key, value) }) (size p + 1), size p + 1)

  abbrev pub is_hit : LeafPage Key → ℕ → Key → Bool
  is_hit p i key = ltb i (size p) && same (key_at p i) key

  unfoldable pub lookup : LeafPage Key → Key → Option Rid
  lookup p key = let i = key_index p key in if is_hit p i key then some (p.array i).1 else none

  unfoldable pub remove_and_delete_record : LeafPage Key → Key → LeafPage Key × ℕ
  remove_and_delete_record p key =
      let i = key_index p key in
      if is_hit p i key
      then (
        set_size (record p { array = shift_down (size p - (i + 1)) i p.array }) (size p - 1),
        size p - 1,
      )
      else (p, size p)
