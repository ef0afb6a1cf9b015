-- ===== src/Pool/Runs.antt =====
-- The pool under any sequence of calls of its users, who report what they change.
use dbplayground.Base.{
  ℕ, ◌+◌, ◌<◌, ◌≤◌, ◌^◌, ◌≡◌, refl, List, [], ◌∷◌, Option, none, some, arith, Bool, false, length,
  count-append,
}
use dbplayground.Disk.{reopen}
use dbplayground.Disk.Reads.{stored}
use dbplayground.Pool.{Pool, find, init, fetch_page}
use dbplayground.Pool.Methods.{
  unpin_found, unpin_page, write_frame, flush_all_pages, flush_page, delete_found, delete_page,
  new_page,
}
use dbplayground.Pool.Valid
use dbplayground.Pool.Valid.{IsValid, find-remove}
use dbplayground.Pool.View.{IsCoherent}
use dbplayground.Pool.Fetch.{fetch_page-Keeps, new_page-Keeps}
use dbplayground.Pool.Durable.{flush_page-Keeps, flush_all_pages-Keeps}
use dbplayground.Pool.Releases.{write_frame-IsValid}
use dbplayground.Pool.Invariant.{unpin_page-IsValid, delete_page-IsValid}

module _ {A : Type 0} (blank : A) where
  -- A page id is fetched once it was allocated. Pages are fetched and flushed while fewer than
  -- 2 ^ 17 ids are allocated, and made while at most that many are. A user writes to a
  -- page that is pinned and in the pool. Whoever unpins a page that is not marked dirty says so if
  -- its bytes are not those of the file.
  pub data Step (s : Pool A) : Pool A → Type 0 where
    fetch :
        (p : ℕ)
        → p < s.disk.next_page_id
        → s.disk.next_page_id < 2 ^ 17
        → Step s (fetch_page blank p s).0
    new : s.disk.next_page_id + 1 ≤ 2 ^ 17 → Step s (new_page blank s).0
    unpin :
        (p : ℕ) (is_dirty : Bool)
        → ((f : ℕ)
            → find s.page_table p ≡ some f
            → is_dirty ≡ false
            → (s.pages f).is_dirty ≡ false
            → (s.pages f).content ≡ stored blank s.disk p)
        → Step s (unpin_page p is_dirty s).0
    write :
        (p f : ℕ) (content : A)
        → find s.page_table p ≡ some f
        → 1 ≤ (s.pages f).pin_count
        → Step s (write_frame f content s)
    flush : (p : ℕ) → s.disk.next_page_id < 2 ^ 17 → Step s (flush_page blank p s).0
    flush_all : s.disk.next_page_id < 2 ^ 17 → Step s (flush_all_pages blank s)
    delete : (p : ℕ) → Step s (delete_page blank p s).0

  pub data Reach (s : Pool A) : Pool A → Type 0 where
    here : Reach s s
    next : {t u : Pool A} → Reach s t → Step t u → Reach s u

  write_frame-IsCoherent :
      (p f : ℕ) (content : A) (s : Pool A)
      → find s.page_table p ≡ some f
      → 1 ≤ (s.pages f).pin_count
      → IsValid s
      → IsCoherent blank s
      → IsCoherent blank (write_frame f content s)
  unfolding write_frame
  write_frame-IsCoherent p f content s found pinned v k = record {
    clean = λ q g h unpinned same. ground (arith, k.clean q g);
    zeroed = λ g h. ground (arith, k.zeroed g, v.mapped_busy p f found);
    file_bound = k.file_bound;
    ids_bound = k.ids_bound;
    size_bound = k.size_bound;
  }

  unpin_found-IsCoherent :
      (p : ℕ) (is_dirty : Bool) (o : Option ℕ) (s : Pool A)
      → find s.page_table p ≡ o
      → ((f : ℕ)
          → find s.page_table p ≡ some f
          → is_dirty ≡ false
          → (s.pages f).is_dirty ≡ false
          → (s.pages f).content ≡ stored blank s.disk p)
      → IsValid s
      → IsCoherent blank s
      → IsCoherent blank (unpin_found o is_dirty s).0
  unfolding unpin_found
  unpin_found-IsCoherent p is_dirty none s e honest v k = k
  unpin_found-IsCoherent p is_dirty (some f) s e honest v k = record {
    clean = λ q g h unpinned same.
        ground (arith, k.clean q g, honest f e, v.mapped_id q g, v.mapped_id p f e);
    zeroed = λ g h. ground (arith, k.zeroed g);
    file_bound = ground (arith, k.file_bound);
    ids_bound = ground (arith, k.ids_bound);
    size_bound = ground (arith, k.size_bound);
  }

  delete_found-IsCoherent :
      (p : ℕ) (o : Option ℕ) (s : Pool A)
      → find s.page_table p ≡ o
      → IsValid s
      → IsCoherent blank s
      → IsCoherent blank (delete_found blank p o s).0
  unfolding delete_found
  delete_found-IsCoherent p none s e v k = k
  delete_found-IsCoherent p (some f) s e v k = record {
    clean = λ q g h unpinned same.
        ground
          (arith, k.clean q g, v.mapped_id q g, v.mapped_id p f e, find-remove s.page_table p q);
    zeroed = λ g h. ground (arith, k.zeroed g, count-append g s.free_list (f ∷ []));
    file_bound = k.file_bound;
    ids_bound = k.ids_bound;
    size_bound = k.size_bound;
  }

  Step-IsSound :
      {s t : Pool A} → Step s t → IsValid s → IsCoherent blank s → IsValid t × IsCoherent blank t
  unfolding unpin_page delete_page
  Step-IsSound {s} (fetch p allocated room) v k =
      let kept = fetch_page-Keeps blank p s allocated room v k in (kept.valid, kept.coherent)
  Step-IsSound {s} (new small) v k =
      let kept = new_page-Keeps blank s small v k in (kept.valid, kept.coherent)
  Step-IsSound {s} (unpin p is_dirty honest) v k =
      (unpin_page-IsValid p is_dirty s v, unpin_found-IsCoherent p is_dirty _ s refl honest v k)
  Step-IsSound {s} (write p f content found pinned) v k =
      (write_frame-IsValid f content s v, write_frame-IsCoherent p f content s found pinned v k)
  Step-IsSound {s} (flush p room) v k =
      let kept = flush_page-Keeps blank p s room v k in (kept.valid, kept.coherent)
  Step-IsSound {s} (flush_all room) v k =
      let kept = flush_all_pages-Keeps blank s room v k in (kept.valid, kept.coherent)
  Step-IsSound {s} (delete p) v k =
      (delete_page-IsValid blank p s v, delete_found-IsCoherent p _ s refl v k)

  init-IsCoherent :
      (n : ℕ) (file : List A) → length file < 2 ^ 17 → IsCoherent blank (init blank n (reopen file))
  unfolding init reopen
  init-IsCoherent n file small = record {
    clean = λ p f h. cc;
    zeroed = λ g h. refl;
    file_bound = ground (arith, small);
    ids_bound = ground (arith, small);
    size_bound = small;
  }

  -- From a pool of any size over a file of fewer than 2 ^ 17 pages, every sequence of fetches of
  -- pages whose id was allocated, new pages, unpins, writes to pinned pages, flushes and deletes
  -- keeps the page table, the free list and the replacer in agreement, and keeps every page that
  -- nobody holds and that is not dirty as it is in the file, if pages are fetched and flushed
  -- while fewer than 2 ^ 17 ids are allocated and made while this leaves at most 2 ^ 17, and if
  -- whoever unpins a page that is not marked dirty says so when its bytes are not those of the
  -- file.
  pub Reach-IsSound :
      (n : ℕ) (file : List A) {t : Pool A}
      → length file < 2 ^ 17
      → Reach (init blank n (reopen file)) t
      → IsValid t × IsCoherent blank t
  Reach-IsSound n file small here =
      (Valid.init-IsValid blank n (reopen file), init-IsCoherent n file small)
  Reach-IsSound n file small (next r step) =
      let (v, k) = Reach-IsSound n file small r in Step-IsSound step v k
