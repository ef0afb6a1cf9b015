-- ===== src/Pool/Durable.antt =====
-- `FlushPage` and `FlushAllPages`: what the file holds afterwards.
use dbplayground.Base.{
  ℕ, ◌+◌, ◌-◌, ◌<◌, ◌^◌, ◌≡◌, refl, ap, ◌∙◌, List, [], ◌∷◌, Option, none, some, arith, inl, inr,
  Option-cases, All, length,
}
use dbplayground.Disk.Reads.{
  stored, stored-write_page, next_page_id-write_page, file-write_page, length-write_file_le,
}
use dbplayground.Pool.{Pool, find}
use dbplayground.Pool.Methods.{flush_frame, flush_entries, flush_all_pages, flush_page, flush_found}
use dbplayground.Pool.Releases.{flush_frame-IsValid}
use dbplayground.Pool.Shows.{Keeps, Keeps-refl, Keeps-trans}
use dbplayground.Pool.Valid.{IsValid, Distinct}
use dbplayground.Pool.View.{view, view_at, IsCoherent}

-- The page ids of the entries are below the last one.
abbrev Small : List (ℕ × ℕ) → Type 0
Small = All (λ e. e.0 + 1 < 2 ^ 17)

Small-of_find :
    (t : List (ℕ × ℕ)) (n : ℕ)
    → Distinct t
    → n < 2 ^ 17
    → ((p f : ℕ) → find t p ≡ some f → p < n)
    → Small t
Small-of_find [] n d small h = tt
Small-of_find ((p, f) ∷ t) n d small h = (
  omega (arith, h p f (ground arith)),
  Small-of_find t n d.1 small (λ q g e. h q g (ground (arith, d.0))),
)

module _ {A : Type 0} (blank : A) where
  flush_entries-table :
      (t : List (ℕ × ℕ)) (s : Pool A) → (flush_entries blank t s).page_table ≡ s.page_table
  unfolding flush_entries
  flush_entries-table [] s = refl
  flush_entries-table ((p, f) ∷ t) s = flush_entries-table t (flush_frame blank p f s)

  flush_entries-content :
      (t : List (ℕ × ℕ)) (s : Pool A) (g : ℕ)
      → ((flush_entries blank t s).pages g).content ≡ (s.pages g).content
  unfolding flush_entries
  flush_entries-content [] s g = refl
  flush_entries-content ((p, f) ∷ t) s g =
      flush_entries-content t (flush_frame blank p f s) g ∙ ground arith

  flush_frame-size :
      (p f : ℕ) (s : Pool A)
      → p + 1 < 2 ^ 17
      → length s.disk.file < 2 ^ 17
      → length (flush_frame blank p f s).disk.file < 2 ^ 17
  unfolding flush_frame
  flush_frame-size p f s h size =
      rw (file-write_page blank s.disk p (s.pages f).content (omega arith)) (
        omega (
          arith,
          length-write_file_le blank s.disk.file p (2 ^ 17 - 1) (s.pages f).content (omega arith)
              (omega (arith, size)),
        ))

  -- The page of each entry is in the file, and the file is as it was elsewhere.
  flush_entries-stored :
      (t : List (ℕ × ℕ)) (s : Pool A) (q : ℕ)
      → Distinct t
      → Small t
      → length s.disk.file < 2 ^ 17
      → stored blank (flush_entries blank t s).disk q ≡ view_at blank (find t q) s q
  unfolding flush_entries
  flush_entries-stored [] s q d small size = refl
  flush_entries-stored ((p, f) ∷ t) s q d small size = ground (
    arith,
    d.0,
    flush_entries-stored t (flush_frame blank p f s) q d.1 small.1
        (flush_frame-size p f s small.0 size),
    stored-write_page blank s.disk p q (s.pages f).content small.0 size,
  )

  flush_entries-view :
      (t : List (ℕ × ℕ)) (s : Pool A) (q : ℕ) (o : Option ℕ)
      → find t q ≡ o
      → Distinct t
      → Small t
      → length s.disk.file < 2 ^ 17
      → view_at blank o (flush_entries blank t s) q ≡ view_at blank o s q
  flush_entries-view t s q none e d small size =
      flush_entries-stored t s q d small size ∙ ap (λ r. view_at blank r s q) e
  flush_entries-view t s q (some f) e d small size = flush_entries-content t s f

  -- After FlushAllPages of a valid and coherent pool, in which fewer than 2 ^ 17 ids are
  -- allocated, the file has the bytes of every page as the pool shows it, and the pool shows every
  -- page as before.
  pub flush_all_pages-durable :
      (s : Pool A) (q : ℕ)
      → s.disk.next_page_id < 2 ^ 17
      → IsValid s
      → IsCoherent blank s
      → (stored blank (flush_all_pages blank s).disk q ≡ view blank s q)
        × (view blank (flush_all_pages blank s) q ≡ view blank s q)
  unfolding flush_all_pages
  flush_all_pages-durable s q room v k =
      let small =
        Small-of_find s.page_table s.disk.next_page_id v.distinct room v.mapped_allocated in
      (
        flush_entries-stored s.page_table s q v.distinct small k.size_bound,
        rw flush_entries-table (
            flush_entries-view s.page_table s q (find s.page_table q) refl v.distinct small
              k.size_bound),
      )

  module _ (p f : ℕ) (s : Pool A) (found : find s.page_table p ≡ some f) (v : IsValid s)
      (k : IsCoherent blank s) (room : s.disk.next_page_id < 2 ^ 17) where
    allocated : p < s.disk.next_page_id
    allocated = v.mapped_allocated p f found

    pub flush_frame-IsCoherent : IsCoherent blank (flush_frame blank p f s)
    unfolding flush_frame
    flush_frame-IsCoherent = record {
      clean = λ q g h unpinned same. ground (
        arith,
        found,
        k.clean q g,
        v.mapped_id q g,
        v.mapped_id p f,
        stored-write_page blank s.disk p q (s.pages f).content (omega (arith, allocated, room))
            k.size_bound,
      );
      zeroed = λ g h. ground (arith, k.zeroed g);
      file_bound =
          rw
            (
              next_page_id-write_page,
              file-write_page blank s.disk p (s.pages f).content (omega (arith, allocated, room)),
            )
            (length-write_file_le blank s.disk.file p s.disk.next_page_id (s.pages f).content
              allocated k.file_bound);
      ids_bound = rw next_page_id-write_page k.ids_bound;
      size_bound = flush_frame-size p f s (omega (arith, allocated, room)) k.size_bound;
    }

    pub flush_frame-Keeps : Keeps blank s (flush_frame blank p f s)
    unfolding flush_frame
    flush_frame-Keeps = record {
      valid = flush_frame-IsValid blank p f s v;
      coherent = flush_frame-IsCoherent;
      same_view = λ q. elim (Option-cases (find s.page_table q)) [
        | inl missing ↦ ground (
          arith,
          found,
          stored-write_page blank s.disk p q (s.pages f).content (omega (arith, allocated, room))
              k.size_bound,
        )
        | inr (g, e) ↦ ground arith
      ];
      held = λ q g h pinned. ground arith;
    }

  flush_frame-next :
      (p f : ℕ) (s : Pool A)
      → s.disk.next_page_id < 2 ^ 17
      → (flush_frame blank p f s).disk.next_page_id < 2 ^ 17
  unfolding flush_frame
  flush_frame-next p f s room = rw next_page_id-write_page room

  flush_frame-entries :
      (p f : ℕ) (t : List (ℕ × ℕ)) (s : Pool A)
      → All (λ e. find s.page_table e.0 ≡ some e.1) t
      → All (λ e. find (flush_frame blank p f s).page_table e.0 ≡ some e.1) t
  unfolding flush_frame
  flush_frame-entries p f t s h = h

  -- Each entry is one of the page table's.
  flush_entries-Keeps :
      (t : List (ℕ × ℕ)) (s : Pool A)
      → All (λ e. find s.page_table e.0 ≡ some e.1) t
      → s.disk.next_page_id < 2 ^ 17
      → IsValid s
      → IsCoherent blank s
      → Keeps blank s (flush_entries blank t s)
  unfolding flush_entries
  flush_entries-Keeps [] s found room v k = Keeps-refl blank s v k
  flush_entries-Keeps ((p, f) ∷ t) s found room v k =
      let first = flush_frame-Keeps p f s found.0 v k room in
      Keeps-trans blank first (
        flush_entries-Keeps t (flush_frame blank p f s) (flush_frame-entries p f t s found.1)
          (flush_frame-next p f s room) first.valid first.coherent)

  All-cons :
      (p f : ℕ) (t u : List (ℕ × ℕ))
      → find t p ≡ none
      → Distinct u
      → ((q : ℕ) (g : ℕ) → find u q ≡ some g → find t q ≡ some g)
      → All (λ e. find ((p, f) ∷ t) e.0 ≡ some e.1) u
  All-cons p f t [] absent d h = tt
  All-cons p f t ((q, g) ∷ u) absent d h =
      (ground (arith, h q g), All-cons p f t u absent d.1 (λ r j e. h r j (ground (arith, d.0))))

  entries_found : (t : List (ℕ × ℕ)) → Distinct t → All (λ e. find t e.0 ≡ some e.1) t
  entries_found [] d = tt
  entries_found ((p, f) ∷ t) d = (ground arith, All-cons p f t t d.0 d.1 (λ q g e. e))

  pub flush_all_pages-Keeps :
      (s : Pool A)
      → s.disk.next_page_id < 2 ^ 17
      → IsValid s
      → IsCoherent blank s
      → Keeps blank s (flush_all_pages blank s)
  unfolding flush_all_pages
  flush_all_pages-Keeps s room v k =
      flush_entries-Keeps s.page_table s (entries_found s.page_table v.distinct) room v k

  flush_found-Keeps :
      (p : ℕ) (o : Option ℕ) (s : Pool A)
      → find s.page_table p ≡ o
      → s.disk.next_page_id < 2 ^ 17
      → IsValid s
      → IsCoherent blank s
      → Keeps blank s (flush_found blank p o s).0
  unfolding flush_found
  flush_found-Keeps p none s e room v k = Keeps-refl blank s v k
  flush_found-Keeps p (some f) s e room v k = flush_frame-Keeps p f s e v k room

  pub flush_page-Keeps :
      (p : ℕ) (s : Pool A)
      → s.disk.next_page_id < 2 ^ 17
      → IsValid s
      → IsCoherent blank s
      → Keeps blank s (flush_page blank p s).0
  unfolding flush_page
  flush_page-Keeps p s room v k = flush_found-Keeps p (find s.page_table p) s refl room v k
