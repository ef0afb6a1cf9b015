-- ===== src/TreePage.antt =====
-- src/Storage/Page/BPlusTreePage.{h,cpp}: the header that the pages of the tree share. A size is an
-- int of the source that stays at 0 or above.
use dbplayground.Base.{ℕ, ◌+◌, ◌-◌, ◌/◌, Bool, true, false, ◌==◌, if◌then◌else◌}
use dbplayground.Disk.{invalid_page_id}

pub data IndexPageType : Type 0 where
  invalid_index_page leaf_page internal_page : IndexPageType

pub record Header : Type 0 where
  pub page_type : IndexPageType
  pub size : ℕ
  pub max_size : ℕ
  pub parent_page_id : ℕ
  pub page_id : ℕ

abbrev pub is_leaf_type : IndexPageType → Bool
is_leaf_type leaf_page = true
is_leaf_type invalid_index_page = false
is_leaf_type internal_page = false

abbrev pub is_leaf_page : Header → Bool
is_leaf_page h = is_leaf_type h.page_type

abbrev pub is_root_page : Header → Bool
is_root_page h = h.parent_page_id == invalid_page_id

abbrev pub get_max_size : Header → ℕ
get_max_size h = if is_leaf_page h then h.max_size - 1 else h.max_size

abbrev pub get_min_size : Header → ℕ
get_min_size h = if is_leaf_page h then h.max_size / 2 else (h.max_size + 1) / 2
