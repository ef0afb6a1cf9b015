-- ===== src/Pool/Fetch.antt =====
-- `FetchPage` and `NewPage` show every page as it was, whatever they evict.
use dbplayground.Base.{
  ℕ, ◌+◌, ◌<◌, ◌≤◌, ◌^◌, ◌≡◌, refl, ap, sym, List, ◌∷◌, Option, none, some, arith, count, back?,
  subst, if◌then◌else◌, ◌==◌, Option-cases, inl, inr, Bool-cases,
}
use dbplayground.Disk.{allocate_page, read_page}
use dbplayground.Disk.Reads.{stored, stored_unwritten}
use dbplayground.Pool.{Pool, find, ensure_free, load_into, fetch_missing, fetch_found, fetch_page}
use dbplayground.Pool.Methods.{take_front, take_ensured, new_page, exhausted}
use dbplayground.Pool.Freed.{ensure_free-Freed, Freed-find, Freed-next_page_id, Freed-front}
use dbplayground.Pool.Shows.{Keeps, Keeps-refl, Keeps-trans, Freed-Keeps, load-Keeps, repin-Keeps}
use dbplayground.Pool.Releases.{take_front-IsValid}
use dbplayground.Pool.Valid.{IsValid, find-assign}
use dbplayground.Pool.View.{IsCoherent}

module _ {A : Type 0} (blank : A) where
  load_into-Keeps :
      (p : ℕ) (o : Option ℕ) (s : Pool A)
      → back? s.free_list ≡ o
      → find s.page_table p ≡ none
      → p < s.disk.next_page_id
      → IsValid s
      → IsCoherent blank s
      → Keeps blank s (load_into blank p o s).0
  unfolding load_into
  load_into-Keeps p none s e absent allocated v k = Keeps-refl blank s v k
  load_into-Keeps p (some f) s e absent allocated v k =
      load-Keeps blank p f s absent e v k allocated

  fetch_missing-Keeps :
      (p : ℕ) (o : Option (Pool A)) (s : Pool A)
      → ensure_free blank s ≡ o
      → find s.page_table p ≡ none
      → p < s.disk.next_page_id
      → s.disk.next_page_id < 2 ^ 17
      → IsValid s
      → IsCoherent blank s
      → Keeps blank s (fetch_missing blank p o s).0
  unfolding fetch_missing
  fetch_missing-Keeps p none s e absent allocated room v k = Keeps-refl blank s v k
  fetch_missing-Keeps p (some s') s e absent allocated room v k =
      let freed = ensure_free-Freed blank s s' e in
      let kept = Freed-Keeps blank s v k room freed in
      Keeps-trans blank kept (
        load_into-Keeps p (back? s'.free_list) s' refl (Freed-find blank p freed absent)
          (omega (arith, Freed-next_page_id blank freed)) kept.valid kept.coherent)

  fetch_found-Keeps :
      (p : ℕ) (o : Option ℕ) (s : Pool A)
      → find s.page_table p ≡ o
      → p < s.disk.next_page_id
      → s.disk.next_page_id < 2 ^ 17
      → IsValid s
      → IsCoherent blank s
      → Keeps blank s (fetch_found blank p o s).0
  unfolding fetch_found
  fetch_found-Keeps p (some f) s e allocated room v k = repin-Keeps blank s v k f
  fetch_found-Keeps p none s e allocated room v k =
      fetch_missing-Keeps p (ensure_free blank s) s refl e allocated room v k

  -- Fetching a page whose id was allocated, while fewer than 2 ^ 17 ids are, from a valid and
  -- coherent pool, leaves one, shows the bytes of every page as before, and keeps every page that
  -- is held where it is.
  pub fetch_page-Keeps :
      (p : ℕ) (s : Pool A)
      → p < s.disk.next_page_id
      → s.disk.next_page_id < 2 ^ 17
      → IsValid s
      → IsCoherent blank s
      → Keeps blank s (fetch_page blank p s).0
  unfolding fetch_page
  fetch_page-Keeps p s allocated room v k =
      fetch_found-Keeps p (find s.page_table p) s refl allocated room v k

  take_front-Keeps :
      (f : ℕ) (fs : List ℕ) (s : Pool A)
      → s.free_list ≡ f ∷ fs
      → s.disk.next_page_id + 1 ≤ 2 ^ 17
      → IsValid s
      → IsCoherent blank s
      → Keeps blank s (take_front blank (f ∷ fs) s).0
  unfolding take_front allocate_page read_page
  take_front-Keeps f fs s free small v k = record {
    valid = take_front-IsValid blank f fs s free (omega arith) v;
    coherent = record {
      clean = λ p g h unpinned same. ground (
        arith,
        k.clean p g,
        v.mapped_busy p g,
        counted f,
        find-assign s.page_table s.disk.next_page_id f p,
      );
      zeroed = λ g h. ground (arith, k.zeroed g, v.free_once f, counted g, counted f);
      file_bound = omega (arith, k.file_bound);
      ids_bound = omega arith;
      size_bound = k.size_bound;
    };
    same_view = λ q. elim (Option-cases (find s.page_table q)) [
      | inl missing ↦ ground (
        arith,
        k.zeroed f,
        counted f,
        unwritten,
        find-assign s.page_table s.disk.next_page_id f q,
      )
      | inr (g, found) ↦ ground (
        arith,
        v.mapped_busy q g found,
        v.mapped_allocated q g found,
        counted f,
        find-assign s.page_table s.disk.next_page_id f q,
      )
    ];
    held = λ q g h pinned. ground (
      arith,
      v.mapped_busy q g h,
      v.mapped_allocated q g h,
      counted f,
      find-assign s.page_table s.disk.next_page_id f q,
    );
  }
    where
      counted : (g : ℕ) → count g s.free_list ≡ (if f == g then 1 else 0) + count g fs
      counted g = ap (count g) free

      unwritten : stored blank s.disk s.disk.next_page_id ≡ blank
      unwritten = stored_unwritten blank s.disk s.disk.next_page_id (omega arith) k.file_bound

  take_ensured-Keeps :
      (o : Option (Pool A)) (s : Pool A)
      → ensure_free blank s ≡ o
      → s.disk.next_page_id + 1 ≤ 2 ^ 17
      → IsValid s
      → IsCoherent blank s
      → Keeps blank s (take_ensured blank o s).0
  unfolding take_ensured
  take_ensured-Keeps none s e small v k = Keeps-refl blank s v k
  take_ensured-Keeps (some s') s e small v k =
      let freed = ensure_free-Freed blank s s' e in
      let kept = Freed-Keeps blank s v k (omega (arith, small)) freed in
      let (f, fs, front) = Freed-front blank freed in
      Keeps-trans blank kept (
        subst (λ l. Keeps blank s' (take_front blank l s').0) (sym front)
          (take_front-Keeps f fs s' front (omega (arith, Freed-next_page_id blank freed)) kept.valid
            kept.coherent))

  -- Making a new page while the ids stay below 2 ^ 17, in a valid and coherent pool, leaves one,
  -- shows the bytes of every page as before, and keeps every page that is held where it is.
  pub new_page-Keeps :
      (s : Pool A)
      → s.disk.next_page_id + 1 ≤ 2 ^ 17
      → IsValid s
      → IsCoherent blank s
      → Keeps blank s (new_page blank s).0
  unfolding new_page
  new_page-Keeps s small v k = elim (Bool-cases (exhausted blank s.free_list s)) [
    | inl full ↦ rw full (Keeps-refl blank s v k)
    | inr room ↦ rw room (take_ensured-Keeps (ensure_free blank s) s refl small v k)
  ]
