-- ===== src/Pool/Invariant.antt =====
-- Every operation of the buffer pool keeps it well formed.
use dbplayground.Base.{
  ℕ, ◌+◌, ◌<◌, ◌^◌, ◌≡◌, refl, sym, List, [], ◌∷◌, Option, none, some, arith, Bool, back?, subst,
}
use dbplayground.Pool.{Pool, find, ensure_free, load_into, fetch_missing, fetch_found, fetch_page}
use dbplayground.Pool.Methods.{
  unpin_page, unpin_found, flush_page, flush_found, flush_entries, flush_all_pages, take_front,
  take_ensured, new_page, delete_page, delete_found,
}
use dbplayground.Pool.Frames.{load-IsValid, repin-IsValid}
use dbplayground.Pool.Valid.{IsValid}
use dbplayground.Pool.Freed.{
  ensure_free-Freed, Freed-IsValid, Freed-find, Freed-next_page_id, Freed-front,
}
use dbplayground.Pool.Releases.{
  unpin_frame-IsValid, flush_frame-IsValid, take_front-IsValid, delete_frame-IsValid,
}

module _ {A : Type 0} (blank : A) where
  load_into-IsValid :
      (p : ℕ) (o : Option ℕ) (s : Pool A)
      → back? s.free_list ≡ o
      → find s.page_table p ≡ none
      → p < s.disk.next_page_id
      → IsValid s
      → IsValid (load_into blank p o s).0
  unfolding load_into
  load_into-IsValid p none s e absent allocated v = v
  load_into-IsValid p (some f) s e absent allocated v =
      load-IsValid blank p f s absent allocated e v

  fetch_missing-IsValid :
      (p : ℕ) (o : Option (Pool A)) (s : Pool A)
      → ensure_free blank s ≡ o
      → find s.page_table p ≡ none
      → p < s.disk.next_page_id
      → IsValid s
      → IsValid (fetch_missing blank p o s).0
  unfolding fetch_missing
  fetch_missing-IsValid p none s e absent allocated v = v
  fetch_missing-IsValid p (some s') s e absent allocated v =
      let freed = ensure_free-Freed blank s s' e in
      load_into-IsValid p (back? s'.free_list) s' refl (Freed-find blank p freed absent)
        (omega (arith, Freed-next_page_id blank freed)) (Freed-IsValid blank freed v)

  fetch_found-IsValid :
      (p : ℕ) (o : Option ℕ) (s : Pool A)
      → find s.page_table p ≡ o
      → p < s.disk.next_page_id
      → IsValid s
      → IsValid (fetch_found blank p o s).0
  unfolding fetch_found
  fetch_found-IsValid p (some f) s e allocated v = repin-IsValid f s v
  fetch_found-IsValid p none s e allocated v =
      fetch_missing-IsValid p (ensure_free blank s) s refl e allocated v

  -- Fetching a page that was allocated keeps the pool well formed.
  pub fetch_page-IsValid :
      (p : ℕ) (s : Pool A) → p < s.disk.next_page_id → IsValid s → IsValid (fetch_page blank p s).0
  unfolding fetch_page
  fetch_page-IsValid p s allocated v =
      fetch_found-IsValid p (find s.page_table p) s refl allocated v

  take_ensured-IsValid :
      (o : Option (Pool A)) (s : Pool A)
      → ensure_free blank s ≡ o
      → s.disk.next_page_id + 1 < 2 ^ 32
      → IsValid s
      → IsValid (take_ensured blank o s).0
  unfolding take_ensured
  take_ensured-IsValid none s e small v = v
  take_ensured-IsValid (some s') s e small v =
      let freed = ensure_free-Freed blank s s' e in
      let (f, fs, front) = Freed-front blank freed in
      subst (λ l. IsValid (take_front blank l s').0) (sym front)
        (take_front-IsValid blank f fs s' front (omega (arith, Freed-next_page_id blank freed))
          (Freed-IsValid blank freed v))

  -- A new page keeps the pool well formed, as long as the page ids have not wrapped.
  pub new_page-IsValid :
      (s : Pool A) → s.disk.next_page_id + 1 < 2 ^ 32 → IsValid s → IsValid (new_page blank s).0
  unfolding new_page
  new_page-IsValid s small v =
      ground (arith, take_ensured-IsValid (ensure_free blank s) s refl small v)

  flush_found-IsValid :
      (p : ℕ) (o : Option ℕ) (s : Pool A) → IsValid s → IsValid (flush_found blank p o s).0
  unfolding flush_found
  flush_found-IsValid p none s v = v
  flush_found-IsValid p (some f) s v = flush_frame-IsValid blank p f s v

  pub flush_page-IsValid : (p : ℕ) (s : Pool A) → IsValid s → IsValid (flush_page blank p s).0
  unfolding flush_page
  flush_page-IsValid p s v = flush_found-IsValid p (find s.page_table p) s v

  flush_entries-IsValid :
      (t : List (ℕ × ℕ)) (s : Pool A) → IsValid s → IsValid (flush_entries blank t s)
  unfolding flush_entries
  flush_entries-IsValid [] s v = v
  flush_entries-IsValid ((p, f) ∷ t) s v =
      flush_entries-IsValid t _ (flush_frame-IsValid blank p f s v)

  pub flush_all_pages-IsValid : (s : Pool A) → IsValid s → IsValid (flush_all_pages blank s)
  unfolding flush_all_pages
  flush_all_pages-IsValid s v = flush_entries-IsValid s.page_table s v

  delete_found-IsValid :
      (p : ℕ) (o : Option ℕ) (s : Pool A)
      → find s.page_table p ≡ o
      → IsValid s
      → IsValid (delete_found blank p o s).0
  unfolding delete_found
  delete_found-IsValid p none s e v = v
  delete_found-IsValid p (some f) s e v = delete_frame-IsValid blank p f s e v

  pub delete_page-IsValid : (p : ℕ) (s : Pool A) → IsValid s → IsValid (delete_page blank p s).0
  unfolding delete_page
  delete_page-IsValid p s v = delete_found-IsValid p (find s.page_table p) s refl v

module _ {A : Type 0} where
  unpin_found-IsValid :
      (p : ℕ) (is_dirty : Bool) (o : Option ℕ) (s : Pool A)
      → find s.page_table p ≡ o
      → IsValid s
      → IsValid (unpin_found o is_dirty s).0
  unfolding unpin_found
  unpin_found-IsValid p is_dirty none s e v = v
  unpin_found-IsValid p is_dirty (some f) s e v = unpin_frame-IsValid p f is_dirty s e v

  pub unpin_page-IsValid :
      (p : ℕ) (is_dirty : Bool) (s : Pool A) → IsValid s → IsValid (unpin_page p is_dirty s).0
  unfolding unpin_page
  unpin_page-IsValid p is_dirty s v = unpin_found-IsValid p is_dirty (find s.page_table p) s refl v
