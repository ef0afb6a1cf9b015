-- ===== src/Internal.antt =====
-- src/Storage/Page/BPlusTreeInternalPage.{h,cpp}: child page ids with the keys that separate them.
-- The key of the first pair means nothing. The parent ids in the headers of the child pages, which
-- `UpdateParentPageId` writes through the buffer pool, are a function from a page id; the page that
-- it fetches is there, as its `assert` says.
pub mod Route
pub mod Split
pub mod Moves
pub mod Borrow
use dbplayground.Base.{
  ℕ, zero, suc, ◌+◌, ◌-◌, ◌/◌, ◌≤◌, List, Option, none, some, Bool, leb, ◌==◌, if◌then◌else◌, put,
  shift_up, shift_down, slice,
}
use dbplayground.Disk.{invalid_page_id}
use dbplayground.KeyOrder.{KeyOrder}
use dbplayground.TreePage.{Header, internal_page}

pub record InternalPage (K : Type 0) : Type 0 where
  pub header : Header
  pub array : ℕ → K × ℕ

-- The parent ids of all pages.
abbrev pub Parents : Type 0
Parents = ℕ → ℕ

unfoldable pub update_parent_page_id : ℕ → ℕ → Parents → Parents
update_parent_page_id page_id parent_page_id parents = put parents page_id parent_page_id

-- The cell after that of the old value; the first cell if there is none, with a warning.
abbrev pub cell_after : Option ℕ → ℕ
cell_after none = 0
cell_after (some i) = i + 1

module _ {K : Type 0} where
  abbrev pub size : InternalPage K → ℕ
  size p = p.header.size

  abbrev pub set_size : InternalPage K → ℕ → InternalPage K
  set_size p n = record p { header = record (p.header) { size = n } }

  abbrev pub key_at : InternalPage K → ℕ → K
  key_at p i = (p.array i).0

  abbrev pub value_at : InternalPage K → ℕ → ℕ
  value_at p i = (p.array i).1

  abbrev pub entries : InternalPage K → List (K × ℕ)
  entries p = slice (size p) 0 p.array

  unfoldable pub init : ℕ → ℕ → ℕ → InternalPage K → InternalPage K
  init page_id parent_id max_size p = record p {
    header = record {
      page_type = internal_page;
      size = 0;
      max_size = max_size;
      parent_page_id = parent_id;
      page_id = page_id;
    };
  }

  -- A warning is printed at index 0, and the key is set all the same.
  unfoldable pub set_key_at : ℕ → K → InternalPage K → InternalPage K
  set_key_at i key p = record p { array = put p.array i (key, value_at p i) }

  abbrev pub set_value_at : ℕ → ℕ → (ℕ → K × ℕ) → ℕ → K × ℕ
  set_value_at i value array = put array i ((array i).0, value)

  -- The loop of `ValueIndex` from `i` on, `n` rounds; `none` is -1.
  unfoldable pub value_index_from : ℕ → ℕ → InternalPage K → ℕ → Option ℕ
  value_index_from zero i p value = none
  value_index_from (suc n) i p value =
      if value_at p i == value then some i else value_index_from n (i + 1) p value

  unfoldable pub value_index : InternalPage K → ℕ → Option ℕ
  unfolding value_index_from
  value_index p value = value_index_from (size p) 0 p value

  unfoldable pub populate_new_root : ℕ → K → ℕ → InternalPage K → InternalPage K
  unfolding set_key_at
  populate_new_root old_value new_key new_value p =
      let keyed = set_key_at 1 new_key p in
      let first = if leb old_value new_value then old_value else new_value in
      let second = if leb old_value new_value then new_value else old_value in
      set_size (record keyed { array = set_value_at 1 second (set_value_at 0 first keyed.array) }) 2

  unfoldable pub insert_node_after : ℕ → K → ℕ → InternalPage K → InternalPage K × ℕ
  insert_node_after old_value new_key new_value p =
      let cell = cell_after (value_index p old_value) in
      (
        set_size
            (record p {
              array = put (shift_up (size p - cell) cell p.array) cell (new_key, new_value);
            })
            (size p + 1),
        size p + 1,
      )

  unfoldable pub remove : ℕ → InternalPage K → InternalPage K
  remove index p =
      set_size (record p { array = shift_down (size p - (index + 1)) index p.array }) (size p - 1)

  unfoldable pub remove_and_return_only_child : InternalPage K → InternalPage K × ℕ
  remove_and_return_only_child p = (set_size p 0, value_at p 0)

  -- The loop of `CopyNFrom` and of `MoveAllTo`: the items `from`, ... go to the cells `at`, ..., and
  -- their pages get the recipient for a parent.
  unfoldable pub adopt_run :
      ℕ → ℕ → ℕ → (ℕ → K × ℕ) → ℕ → (ℕ → K × ℕ) × Parents → (ℕ → K × ℕ) × Parents
  unfolding update_parent_page_id
  adopt_run zero at from items parent s = s
  adopt_run (suc n) at from items parent (array, parents) =
      adopt_run n (at + 1) (from + 1) items parent
        (put array at (items from), update_parent_page_id (items from).1 parent parents)

  -- The loop runs from the old size up to `n`, as the source has it.
  unfoldable pub copy_n_from :
      ℕ → ℕ → (ℕ → K × ℕ) → InternalPage K → Parents → InternalPage K × Parents
  unfolding adopt_run
  copy_n_from n from items p parents =
      let (array, parents') =
        adopt_run (n - size p) (size p) from items p.header.page_id (p.array, parents) in
      (record p { array = array }, parents')

  -- Each of the moves returns the page itself, the recipient and the parents.
  unfoldable pub move_half_to :
      InternalPage K → InternalPage K → Parents → InternalPage K × InternalPage K × Parents
  unfolding copy_n_from
  move_half_to p recipient parents =
      let move_start = (size p + 1) / 2 in
      let num_moved = size p - move_start in
      let (recipient', parents') = copy_n_from num_moved move_start p.array recipient parents in
      (set_size p (size p - num_moved), set_size recipient' num_moved, parents')

  unfoldable pub move_all_to :
      InternalPage K → InternalPage K → K → Parents → InternalPage K × InternalPage K × Parents
  unfolding adopt_run
  move_all_to p recipient middle_key parents =
      let n = size recipient in
      let (array, parents') =
        adopt_run (size p) n 0 p.array recipient.header.page_id (recipient.array, parents) in
      (
        set_size p 0,
        set_size (record recipient { array = put array n (middle_key, (array n).1) }) (n + size p),
        parents',
      )

  unfoldable pub move_first_to_end_of :
      InternalPage K → InternalPage K → K → Parents → InternalPage K × InternalPage K × Parents
  unfolding update_parent_page_id
  move_first_to_end_of p recipient middle_key parents =
      let n = size recipient in
      (
        set_size (record p { array = shift_down (size p - 1) 0 p.array }) (size p - 1),
        set_size (record recipient { array = put recipient.array n (middle_key, value_at p 0) })
            (n + 1),
        update_parent_page_id (value_at p 0) recipient.header.page_id parents,
      )

  -- for (i = n - 1; i >= 0; i--) a[i + 2] = a[i];
  unfoldable pub shift_two : ℕ → (ℕ → K × ℕ) → ℕ → K × ℕ
  shift_two zero a = a
  shift_two (suc n) a = shift_two n (put a (n + 2) (a n))

  unfoldable pub move_last_to_front_of :
      InternalPage K → InternalPage K → K → Parents → InternalPage K × InternalPage K × Parents
  unfolding shift_two update_parent_page_id
  move_last_to_front_of p recipient middle_key parents =
      let shifted = shift_two (size recipient) recipient.array in
      let keyed = put shifted 2 (middle_key, (shifted 2).1) in
      let moved = put keyed 1 (p.array (size p - 1)) in
      (
        set_size p (size p - 1),
        set_size (record recipient { array = set_value_at 0 invalid_page_id moved })
            (size recipient + 1),
        update_parent_page_id (value_at p (size p - 1)) recipient.header.page_id parents,
      )

module _ (o : KeyOrder) where
  open o use {Key, less}

  -- The loop of `Lookup` from the key `i` on, `n` rounds.
  unfoldable pub lookup_from : ℕ → ℕ → InternalPage Key → Key → ℕ
  lookup_from zero i p key = value_at p (size p - 1)
  lookup_from (suc n) i p key =
      if less key (key_at p i) then value_at p (i - 1) else lookup_from n (i + 1) p key

  unfoldable pub lookup : InternalPage Key → Key → ℕ
  unfolding lookup_from
  lookup p key = lookup_from (size p - 1) 1 p key
