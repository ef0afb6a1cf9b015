-- ===== src/Pool/Releases.antt =====
-- The steps of `UnpinPage`, `FlushPage`, `NewPage` and `DeletePage` keep the pool well formed.
use dbplayground.Base.{
  ℕ, ◌+◌, ◌<◌, ◌≡◌, ◌^◌, List, [], ◌∷◌, some, arith, count, Bool, count-append, if◌then◌else◌, ◌==◌,
  ap,
}
use dbplayground.Disk.{write_page, allocate_page}
use dbplayground.Replacer.Bounds.{pin-IsValid, unpin-IsValid}
use dbplayground.Replacer.Counts.{count-pin, count-unpin}
use dbplayground.Pool.{Pool, find}
use dbplayground.Pool.Methods.{unpin_frame, write_frame, flush_frame, take_front, delete_frame}
use dbplayground.Pool.Valid.{IsValid, Distinct-remove, Distinct-assign, find-remove, find-assign}

module _ {A : Type 0} where
  -- `f` holds the page `page_id`.
  pub unpin_frame-IsValid :
      (page_id f : ℕ) (is_dirty : Bool) (s : Pool A)
      → find s.page_table page_id ≡ some f
      → IsValid s
      → IsValid (unpin_frame f is_dirty s).0
  unfolding unpin_frame
  unpin_frame-IsValid page_id f is_dirty s mapped v = record {
    replacer_valid = ground (arith, unpin-IsValid f s.replacer v.replacer_valid);
    distinct = ground (arith, v.distinct);
    mapped_bound = λ p g h. ground (arith, v.mapped_bound p g);
    mapped_id = λ p g h. ground (arith, v.mapped_id p g);
    mapped_busy = λ p g h. ground (arith, v.mapped_busy p g);
    mapped_allocated = λ p g h. ground (arith, v.mapped_allocated p g);
    free_once = λ g. ground (arith, v.free_once g);
    free_bound = λ g h. ground (arith, v.free_bound g);
    idle_unpinned =
        λ g h e. ground (arith, v.idle_unpinned g, count-unpin f g s.replacer v.replacer_valid);
    idle_mapped = λ g h e. ground (
      arith,
      v.idle_mapped g,
      v.mapped_id page_id f,
      count-unpin f g s.replacer v.replacer_valid,
    );
  }

  pub write_frame-IsValid :
      (f : ℕ) (content : A) (s : Pool A) → IsValid s → IsValid (write_frame f content s)
  unfolding write_frame
  write_frame-IsValid f content s v = record {
    replacer_valid = v.replacer_valid;
    distinct = v.distinct;
    mapped_bound = v.mapped_bound;
    mapped_id = λ p g h. ground (arith, v.mapped_id p g);
    mapped_busy = v.mapped_busy;
    mapped_allocated = v.mapped_allocated;
    free_once = v.free_once;
    free_bound = v.free_bound;
    idle_unpinned = λ g h e. ground (arith, v.idle_unpinned g);
    idle_mapped = λ g h e. ground (arith, v.idle_mapped g);
  }

  module _ (blank : A) where
    pub flush_frame-IsValid :
        (page_id f : ℕ) (s : Pool A) → IsValid s → IsValid (flush_frame blank page_id f s)
    unfolding flush_frame write_page
    flush_frame-IsValid page_id f s v = record {
      replacer_valid = v.replacer_valid;
      distinct = v.distinct;
      mapped_bound = v.mapped_bound;
      mapped_id = λ p g h. ground (arith, v.mapped_id p g);
      mapped_busy = v.mapped_busy;
      mapped_allocated = λ p g h. ground (arith, v.mapped_allocated p g);
      free_once = v.free_once;
      free_bound = v.free_bound;
      idle_unpinned = λ g h e. ground (arith, v.idle_unpinned g);
      idle_mapped = λ g h e. ground (arith, v.idle_mapped g);
    }

    -- The id of the next page is the largest so far, and the counter does not wrap.
    pub take_front-IsValid :
        (f : ℕ) (fs : List ℕ) (s : Pool A)
        → s.free_list ≡ f ∷ fs
        → s.disk.next_page_id + 1 < 2 ^ 32
        → IsValid s
        → IsValid (take_front blank (f ∷ fs) s).0
    unfolding take_front allocate_page
    take_front-IsValid f fs s free small v = record {
      replacer_valid = pin-IsValid f s.replacer v.replacer_valid;
      distinct = Distinct-assign s.page_table s.disk.next_page_id f v.distinct;
      mapped_bound = λ p g h. ground (
        arith,
        v.mapped_bound p g,
        v.free_bound f,
        counted f,
        find-assign s.page_table s.disk.next_page_id f p,
      );
      mapped_id = λ p g h. ground (
        arith,
        v.mapped_id p g,
        v.mapped_busy p g,
        counted f,
        find-assign s.page_table s.disk.next_page_id f p,
      );
      mapped_busy = λ p g h. ground (
        arith,
        v.mapped_busy p g,
        v.free_once f,
        counted g,
        counted f,
        find-assign s.page_table s.disk.next_page_id f p,
      );
      mapped_allocated = λ p g h.
          ground (arith, v.mapped_allocated p g, find-assign s.page_table s.disk.next_page_id f p);
      free_once = λ g. omega (arith, v.free_once g, counted g);
      free_bound = λ g h. v.free_bound g (omega (arith, counted g));
      idle_unpinned = λ g h e.
          ground (arith, v.idle_unpinned g, counted g, count-pin f g s.replacer v.replacer_valid);
      idle_mapped = λ g h e. ground (
        arith,
        v.idle_mapped g,
        v.mapped_allocated (s.pages g).page_id g,
        counted g,
        count-pin f g s.replacer v.replacer_valid,
        find-assign s.page_table s.disk.next_page_id f (s.pages g).page_id,
      );
    }
      where
        counted : (g : ℕ) → count g s.free_list ≡ (if f == g then 1 else 0) + count g fs
        counted g = ap (count g) free

    pub delete_frame-IsValid :
        (page_id f : ℕ) (s : Pool A)
        → find s.page_table page_id ≡ some f
        → IsValid s
        → IsValid (delete_frame blank page_id f s)
    unfolding delete_frame
    delete_frame-IsValid page_id f s mapped v = record {
      replacer_valid = unpin-IsValid f s.replacer v.replacer_valid;
      distinct = Distinct-remove s.page_table page_id v.distinct;
      mapped_bound =
          λ p g h. ground (arith, v.mapped_bound p g, find-remove s.page_table page_id p);
      mapped_id = λ p g h.
          ground
            (arith, v.mapped_id p g, v.mapped_id page_id f, find-remove s.page_table page_id p);
      mapped_busy = λ p g h. ground (
        arith,
        v.mapped_busy p g,
        v.mapped_id p g,
        v.mapped_id page_id f,
        find-remove s.page_table page_id p,
        count-append g s.free_list (f ∷ []),
      );
      mapped_allocated =
          λ p g h. ground (arith, v.mapped_allocated p g, find-remove s.page_table page_id p);
      free_once = λ g.
          ground
            (arith, v.free_once g, v.mapped_busy page_id f, count-append g s.free_list (f ∷ []));
      free_bound = λ g h.
          ground
            (arith, v.free_bound g, v.mapped_bound page_id f, count-append g s.free_list (f ∷ []));
      idle_unpinned = λ g h e. ground (
        arith,
        v.idle_unpinned g,
        count-unpin f g s.replacer v.replacer_valid,
        count-append g s.free_list (f ∷ []),
      );
      idle_mapped = λ g h e. ground (
        arith,
        v.idle_mapped g,
        v.mapped_id page_id f,
        count-unpin f g s.replacer v.replacer_valid,
        count-append g s.free_list (f ∷ []),
        find-remove s.page_table page_id (s.pages g).page_id,
      );
    }
