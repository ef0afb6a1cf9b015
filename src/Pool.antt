-- ===== src/Pool.antt =====
-- src/Storage/BufferPool/BufferPoolManager.{h,cpp} and the page of src/Storage/Page/Page.h. A
-- `shared_ptr<Page>` is the number of its frame, and `none` is a null pointer.
pub mod Methods
pub mod Frames
pub mod Freed
pub mod Invariant
pub mod Releases
pub mod Valid
pub mod View
pub mod Shows
pub mod Fetch
pub mod Durable
pub mod Runs
pub mod Results
use dbplayground.Base.{
  ℕ, zero, suc, ◌+◌, ◌-◌, ◌<◌, List, [], ◌∷◌, ◌++◌, Option, none, some, Bool, true, false,
  if◌then◌else◌, ◌==◌, back?, pop_back,
}
use dbplayground.Disk.{Disk, invalid_page_id, read_page, write_page, allocate_page}
use dbplayground.Replacer
use dbplayground.Replacer.{Replacer}

pub record Page (A : Type 0) : Type 0 where
  pub content : A
  pub page_id : ℕ
  pub pin_count : ℕ
  pub is_dirty : Bool

-- The vector `pages_` is read at frame numbers below `slot_num` only, an invariant of the pool.
pub record Pool (A : Type 0) : Type 0 where
  pub slot_num : ℕ
  pub disk : Disk A
  pub replacer : Replacer
  pub pages : ℕ → Page A
  pub free_list : List ℕ
  pub page_table : List (ℕ × ℕ)

-- The map `page_table_`.
abbrev pub find : List (ℕ × ℕ) → ℕ → Option ℕ
find [] p = none
find ((q, f) ∷ t) p = if q == p then some f else find t p

abbrev pub remove : List (ℕ × ℕ) → ℕ → List (ℕ × ℕ)
remove [] p = []
remove ((q, f) ∷ t) p = if q == p then remove t p else (q, f) ∷ remove t p

abbrev pub assign : List (ℕ × ℕ) → ℕ → ℕ → List (ℕ × ℕ)
assign t p f = (p, f) ∷ remove t p

-- The frames `i`, `i + 1`, ..., `n` of them.
unfoldable pub frames_from : ℕ → ℕ → List ℕ
frames_from i zero = []
frames_from i (suc n) = i ∷ frames_from (i + 1) n

module _ {A : Type 0} where
  abbrev pub set_page : ℕ → Page A → (ℕ → Page A) → ℕ → Page A
  set_page f page pages g = if f == g then page else pages g

  -- A page that is in the pool is pinned once more.
  unfoldable pub repin : ℕ → Pool A → Pool A
  repin f s = record s {
    pages = set_page f (record (s.pages f) { pin_count = (s.pages f).pin_count + 1 }) s.pages;
    replacer = Replacer.pin f s.replacer;
  }

  module _ (blank : A) where
    abbrev pub fresh_page : Page A
    fresh_page = record {
      content = blank;
      page_id = invalid_page_id;
      pin_count = 0;
      is_dirty = false;
    }

    unfoldable pub init : ℕ → Disk A → Pool A
    unfolding frames_from
    init slot_num disk = record {
      slot_num = slot_num;
      disk = disk;
      replacer = Replacer.init slot_num;
      pages = λ _. fresh_page;
      free_list = frames_from 0 slot_num;
      page_table = [];
    }

    -- A dirty page is written to its place in the file.
    abbrev pub write_back : Page A → Disk A → Disk A
    write_back page d = if page.is_dirty then write_page blank d page.page_id page.content else d

    -- The frame `f` that `Victim` chose gives its page up and joins the free list.
    unfoldable pub evict : ℕ → Replacer → Pool A → Pool A
    evict f replacer s = record s {
      disk = write_back (s.pages f) s.disk;
      replacer = replacer;
      page_table = remove s.page_table (s.pages f).page_id;
      pages =
          set_page f
            (record (s.pages f) { content = blank; page_id = invalid_page_id; is_dirty = false })
            s.pages;
      free_list = s.free_list ++ (f ∷ []);
    }

    evict_victim : Replacer × Option ℕ → Pool A → Option (Pool A)
    unfolding evict
    evict_victim (replacer, none) s = none
    evict_victim (replacer, some f) s = some (evict f replacer s)

    -- Where no frame is free, `none` if none can be evicted either.
    free_a_frame : List ℕ → Pool A → Option (Pool A)
    unfolding evict_victim
    free_a_frame (f ∷ fs) s = some s
    free_a_frame [] s = evict_victim (Replacer.victim s.replacer) s

    unfoldable pub ensure_free : Pool A → Option (Pool A)
    unfolding free_a_frame
    ensure_free s = free_a_frame s.free_list s

    -- What `ReadPage` leaves in the page's memory: an exception is swallowed.
    abbrev pub read_into : Disk A → ℕ → A → A
    read_into d page_id old = elim (read_page blank d page_id) [ none ↦ old | some c ↦ c ]

    -- The free frame `f` is pinned once more and takes the page in from the file.
    unfoldable pub load : ℕ → ℕ → Pool A → Pool A
    load page_id f s = record s {
      free_list = pop_back s.free_list;
      replacer = Replacer.pin f s.replacer;
      page_table = assign s.page_table page_id f;
      pages =
          set_page f
            (record {
              content = read_into s.disk page_id (s.pages f).content;
              page_id = page_id;
              pin_count = (s.pages f).pin_count + 1;
              is_dirty = false;
            })
            s.pages;
    }

    load_into : ℕ → Option ℕ → Pool A → Pool A × Option ℕ
    unfolding load
    load_into page_id none s = (s, none)
    load_into page_id (some f) s = (load page_id f s, some f)

    fetch_missing : ℕ → Option (Pool A) → Pool A → Pool A × Option ℕ
    unfolding load_into
    fetch_missing page_id none s = (s, none)
    fetch_missing page_id (some s') s = load_into page_id (back? s'.free_list) s'

    fetch_found : ℕ → Option ℕ → Pool A → Pool A × Option ℕ
    unfolding repin fetch_missing ensure_free
    fetch_found page_id (some f) s = (repin f s, some f)
    fetch_found page_id none s = fetch_missing page_id (ensure_free s) s

    unfoldable pub fetch_page : ℕ → Pool A → Pool A × Option ℕ
    unfolding fetch_found
    fetch_page page_id s = fetch_found page_id (find s.page_table page_id) s
