-- ===== src/Pool/Frames.antt =====
-- Each step of the pool on one frame keeps the pool well formed.
use dbplayground.Base.{ℕ, ◌<◌, ◌≡◌, [], ◌∷◌, none, some, arith, count-append, count-pop_back, back?}
use dbplayground.Disk.{Disk}
use dbplayground.Disk.Reads.{next_page_id-write_page}
use dbplayground.Replacer
use dbplayground.Replacer.{Replacer}
use dbplayground.Replacer.Bounds.{pin-IsValid, victim-IsValid}
use dbplayground.Replacer.Counts.{count-pin, count-victim}
use dbplayground.Pool.{Page, Pool, find, evict, load, repin, write_back}
use dbplayground.Pool.Valid.{IsValid, Distinct-remove, Distinct-assign, find-remove, find-assign}

module _ {A : Type 0} (blank : A) where
  pub next_page_id-write_back :
      (page : Page A) (d : Disk A) → (write_back blank page d).next_page_id ≡ d.next_page_id
  next_page_id-write_back page d =
      ground (arith, next_page_id-write_page blank d page.page_id page.content)

  pub evict-IsValid :
      (f : ℕ) (s : Pool A)
      → (Replacer.victim s.replacer).1 ≡ some f
      → s.free_list ≡ []
      → IsValid s
      → IsValid (evict blank f (Replacer.victim s.replacer).0 s)
  unfolding evict
  evict-IsValid f s chosen empty v = record {
    replacer_valid = victim-IsValid s.replacer v.replacer_valid;
    distinct = Distinct-remove s.page_table (s.pages f).page_id v.distinct;
    mapped_bound =
        λ p g h. ground (arith, v.mapped_bound p g, find-remove s.page_table (s.pages f).page_id p);
    mapped_id =
        λ p g h. ground (arith, v.mapped_id p g, find-remove s.page_table (s.pages f).page_id p);
    mapped_busy = λ p g h. ground (
      arith,
      v.mapped_id p g,
      v.mapped_busy p g,
      find-remove s.page_table (s.pages f).page_id p,
      count-append g s.free_list (f ∷ []),
    );
    mapped_allocated = λ p g h. ground (
      arith,
      v.mapped_allocated p g,
      find-remove s.page_table (s.pages f).page_id p,
      next_page_id-write_back (s.pages f) s.disk,
    );
    free_once = λ g. rw empty (ground arith);
    free_bound = λ g h. ground (
      arith,
      chosen_mapped,
      v.mapped_bound (s.pages f).page_id f,
      count-append g s.free_list (f ∷ []),
    );
    idle_unpinned = λ g h e. ground (
      arith,
      v.idle_unpinned g,
      count-victim g f s.replacer chosen,
      count-append g s.free_list (f ∷ []),
    );
    idle_mapped = λ g h e. ground (
      arith,
      chosen_mapped,
      v.idle_mapped g,
      count-victim g f s.replacer chosen,
      count-append g s.free_list (f ∷ []),
      find-remove s.page_table (s.pages f).page_id (s.pages g).page_id,
    );
  }
    where
      chosen_mapped : find s.page_table (s.pages f).page_id ≡ some f
      chosen_mapped = ground (arith, v.idle_mapped f, count-victim f f s.replacer chosen)

  -- `page_id` is not in the pool, and `f` is the last of the free frames.
  pub load-IsValid :
      (page_id f : ℕ) (s : Pool A)
      → find s.page_table page_id ≡ none
      → page_id < s.disk.next_page_id
      → back? s.free_list ≡ some f
      → IsValid s
      → IsValid (load blank page_id f s)
  unfolding load
  load-IsValid page_id f s absent allocated last v = record {
    replacer_valid = pin-IsValid f s.replacer v.replacer_valid;
    distinct = Distinct-assign s.page_table page_id f v.distinct;
    mapped_bound = λ p g h. ground (
      arith,
      v.mapped_bound p g,
      v.free_bound f,
      count-pop_back f f s.free_list last,
      find-assign s.page_table page_id f p,
    );
    mapped_id = λ p g h. ground (
      arith,
      v.mapped_id p g,
      v.mapped_busy p g,
      count-pop_back f f s.free_list last,
      find-assign s.page_table page_id f p,
    );
    mapped_busy = λ p g h. ground (
      arith,
      v.free_once f,
      v.mapped_busy p g,
      count-pop_back g f s.free_list last,
      find-assign s.page_table page_id f p,
    );
    mapped_allocated =
        λ p g h. ground (arith, v.mapped_allocated p g, find-assign s.page_table page_id f p);
    free_once = λ g. ground (arith, v.free_once g, count-pop_back g f s.free_list last);
    free_bound = λ g h. ground (arith, v.free_bound g, count-pop_back g f s.free_list last);
    idle_unpinned = λ g h e. ground (
      arith,
      v.idle_unpinned g,
      count-pop_back g f s.free_list last,
      count-pin f g s.replacer v.replacer_valid,
    );
    idle_mapped = λ g h e. ground (
      arith,
      v.idle_mapped g,
      count-pop_back g f s.free_list last,
      count-pin f g s.replacer v.replacer_valid,
      find-assign s.page_table page_id f (s.pages g).page_id,
    );
  }

  pub next_page_id-evict :
      (f : ℕ) (r : Replacer) (s : Pool A)
      → (evict blank f r s).disk.next_page_id ≡ s.disk.next_page_id
  unfolding evict
  next_page_id-evict f r s = next_page_id-write_back (s.pages f) s.disk

  pub find-evict :
      (f p : ℕ) (r : Replacer) (s : Pool A)
      → find s.page_table p ≡ none
      → find (evict blank f r s).page_table p ≡ none
  unfolding evict
  find-evict f p r s h = ground (arith, find-remove s.page_table (s.pages f).page_id p)

module _ {A : Type 0} where
  pub repin-IsValid : (f : ℕ) (s : Pool A) → IsValid s → IsValid (repin f s)
  unfolding repin
  repin-IsValid f s v = record {
    replacer_valid = pin-IsValid f s.replacer v.replacer_valid;
    distinct = v.distinct;
    mapped_bound = v.mapped_bound;
    mapped_id = λ p g h. ground (arith, v.mapped_id p g);
    mapped_busy = v.mapped_busy;
    mapped_allocated = v.mapped_allocated;
    free_once = v.free_once;
    free_bound = v.free_bound;
    idle_unpinned =
        λ g h e. ground (arith, v.idle_unpinned g, count-pin f g s.replacer v.replacer_valid);
    idle_mapped =
        λ g h e. ground (arith, v.idle_mapped g, count-pin f g s.replacer v.replacer_valid);
  }
