-- ===== src/Pool/Methods.antt =====
-- src/Storage/BufferPool/BufferPoolManager.cpp: `UnpinPage`, `FlushPage`, `NewPage`, `DeletePage`,
-- `FlushAllPages`, and a caller's write to the memory of a page that it holds.
use dbplayground.Base.{
  ℕ, ◌-◌, List, [], ◌∷◌, ◌++◌, Option, none, some, Bool, true, false, if◌then◌else◌, ◌==◌,
}
use dbplayground.Disk.{invalid_page_id, write_page, allocate_page}
use dbplayground.Replacer
use dbplayground.Pool.{Pool, find, remove, assign, set_page, ensure_free}

module _ {A : Type 0} where
  -- The page is marked dirty before the pin count is looked at.
  unfoldable pub unpin_frame : ℕ → Bool → Pool A → Pool A × Bool
  unpin_frame f is_dirty s =
      let page = s.pages f in
      let marked = record page { is_dirty = if page.is_dirty then true else is_dirty } in
      if page.pin_count == 0 then (record s { pages = set_page f marked s.pages }, false) else (
        record s {
          pages = set_page f (record marked { pin_count = page.pin_count - 1 }) s.pages;
          replacer = if page.pin_count - 1 == 0 then Replacer.unpin f s.replacer else s.replacer;
        },
        true,
      )

  unfoldable pub unpin_found : Option ℕ → Bool → Pool A → Pool A × Bool
  unfolding unpin_frame
  unpin_found none is_dirty s = (s, false)
  unpin_found (some f) is_dirty s = unpin_frame f is_dirty s

  unfoldable pub unpin_page : ℕ → Bool → Pool A → Pool A × Bool
  unfolding unpin_found
  unpin_page page_id is_dirty s = unpin_found (find s.page_table page_id) is_dirty s

  -- A caller that holds the page of frame `f` overwrites its memory.
  unfoldable pub write_frame : ℕ → A → Pool A → Pool A
  write_frame f content s = record s {
    pages = set_page f (record (s.pages f) { content = content }) s.pages;
  }

  module _ (blank : A) where
    unfoldable pub flush_frame : ℕ → ℕ → Pool A → Pool A
    flush_frame page_id f s = record s {
      disk = write_page blank s.disk page_id (s.pages f).content;
      pages = set_page f (record (s.pages f) { is_dirty = false }) s.pages;
    }

    unfoldable pub flush_found : ℕ → Option ℕ → Pool A → Pool A × Bool
    unfolding flush_frame
    flush_found page_id none s = (s, false)
    flush_found page_id (some f) s = (flush_frame page_id f s, true)

    unfoldable pub flush_page : ℕ → Pool A → Pool A × Bool
    unfolding flush_found
    flush_page page_id s = flush_found page_id (find s.page_table page_id) s

    -- The loop over the page table.
    unfoldable pub flush_entries : List (ℕ × ℕ) → Pool A → Pool A
    unfolding flush_frame
    flush_entries [] s = s
    flush_entries ((page_id, f) ∷ t) s = flush_entries t (flush_frame page_id f s)

    unfoldable pub flush_all_pages : Pool A → Pool A
    unfolding flush_entries
    flush_all_pages s = flush_entries s.page_table s

    -- The frame at the front of the free list gets a page id of its own.
    unfoldable pub take_front : List ℕ → Pool A → Pool A × Option ℕ
    unfolding allocate_page
    take_front [] s = (s, none)
    take_front (f ∷ fs) s =
        let (disk, page_id) = allocate_page s.disk in
        (
          record s {
            disk = disk;
            free_list = fs;
            replacer = Replacer.pin f s.replacer;
            page_table = assign s.page_table page_id f;
            pages =
                set_page f
                  (record (s.pages f) { page_id = page_id; pin_count = 1; is_dirty = false })
                  s.pages;
          },
          some f,
        )

    unfoldable pub take_ensured : Option (Pool A) → Pool A → Pool A × Option ℕ
    unfolding take_front
    take_ensured none s = (s, none)
    take_ensured (some s') s = take_front s'.free_list s'

    -- The first test: no frame is free, and the replacer has none to give.
    unfoldable pub exhausted : List ℕ → Pool A → Bool
    exhausted [] s = Replacer.size s.replacer == 0
    exhausted (f ∷ fs) s = false

    unfoldable pub new_page : Pool A → Pool A × Option ℕ
    unfolding exhausted take_ensured ensure_free
    new_page s = if exhausted s.free_list s then (s, none) else take_ensured (ensure_free blank s) s

    -- The test of the pin count has an empty body in the source: it stops nothing.
    unfoldable pub delete_frame : ℕ → ℕ → Pool A → Pool A
    delete_frame page_id f s = record s {
      pages =
          set_page f
            (record (s.pages f) { content = blank; is_dirty = false; page_id = invalid_page_id })
            s.pages;
      page_table = remove s.page_table page_id;
      replacer = Replacer.unpin f s.replacer;
      free_list = s.free_list ++ (f ∷ []);
    }

    unfoldable pub delete_found : ℕ → Option ℕ → Pool A → Pool A × Bool
    unfolding delete_frame
    delete_found page_id none s = (s, true)
    delete_found page_id (some f) s = (delete_frame page_id f s, true)

    unfoldable pub delete_page : ℕ → Pool A → Pool A × Bool
    unfolding delete_found
    delete_page page_id s = delete_found page_id (find s.page_table page_id) s
