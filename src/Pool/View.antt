-- ===== src/Pool/View.antt =====
-- What the users of the pool see: each page's bytes, in the pool or in the file, whatever is evicted.
use dbplayground.Base.{
  ◌+◌, ℕ, ◌<◌, ◌≤◌, ◌^◌, ◌≡◌, ap, [], ◌∷◌, Option, none, some, arith, count, false, if◌then◌else◌,
  ◌==◌, length, count-append, Option-cases, Bool-cases, inl, inr,
}
use dbplayground.Disk.Reads.{stored, stored-write_page, file-write_page, length-write_file_le}
use dbplayground.Replacer
use dbplayground.Replacer.{Replacer}
use dbplayground.Replacer.Counts.{count-victim}
use dbplayground.Pool.{Pool, find, evict, write_back}
use dbplayground.Pool.Frames.{next_page_id-write_back}
use dbplayground.Pool.Valid.{IsValid, find-remove}

module _ {A : Type 0} (blank : A) where
  abbrev pub view_at : Option ℕ → Pool A → ℕ → A
  view_at (some f) s p = (s.pages f).content
  view_at none s p = stored blank s.disk p

  abbrev pub view : Pool A → ℕ → A
  view s p = view_at (find s.page_table p) s p

  -- The pages that nobody holds and that are not dirty are as in the file; a free frame is zeroed;
  -- the file has only pages that were allocated, and its size in bytes is an int.
  pub record IsCoherent (s : Pool A) : Type 0 where
    pub clean :
        (p f : ℕ)
        → find s.page_table p ≡ some f
        → (s.pages f).pin_count ≡ 0
        → (s.pages f).is_dirty ≡ false
        → (s.pages f).content ≡ stored blank s.disk p
    pub zeroed : (f : ℕ) → 1 ≤ count f s.free_list → (s.pages f).content ≡ blank
    pub file_bound : length s.disk.file ≤ s.disk.next_page_id
    pub ids_bound : s.disk.next_page_id ≤ 2 ^ 17
    pub size_bound : length s.disk.file < 2 ^ 17

  module _ (f : ℕ) (s : Pool A) (chosen : (Replacer.victim s.replacer).1 ≡ some f)
      (empty : s.free_list ≡ []) (v : IsValid s) (k : IsCoherent s)
      (room : s.disk.next_page_id < 2 ^ 17) where
    chosen_mapped : find s.page_table (s.pages f).page_id ≡ some f
    chosen_mapped =
        ground (arith, v.idle_mapped f, count-victim f f s.replacer chosen, ap (count f) empty)

    chosen_unpinned : (s.pages f).pin_count ≡ 0
    chosen_unpinned =
        ground (arith, v.idle_unpinned f, count-victim f f s.replacer chosen, ap (count f) empty)

    small : (s.pages f).page_id + 1 < 2 ^ 17
    small = omega (arith, v.mapped_allocated (s.pages f).page_id f chosen_mapped, room)

    length-write_back : length (write_back blank (s.pages f) s.disk).file ≤ s.disk.next_page_id
    length-write_back = elim (Bool-cases (s.pages f).is_dirty) [
      | inl dirty ↦
          rw
            (
              dirty,
              file-write_page blank s.disk (s.pages f).page_id (s.pages f).content
                  (omega (arith, small)),
            )
            (length-write_file_le blank s.disk.file (s.pages f).page_id s.disk.next_page_id
              (s.pages f).content (v.mapped_allocated (s.pages f).page_id f chosen_mapped)
              k.file_bound)
      | inr same ↦ rw same k.file_bound
    ]

    stored-write_back :
        (q : ℕ)
        → stored blank (write_back blank (s.pages f) s.disk) q
          ≡ (if (s.pages f).page_id == q then (s.pages f).content else stored blank s.disk q)
    stored-write_back q = elim (Bool-cases (s.pages f).is_dirty) [
      | inl dirty ↦ rw dirty (
          stored-write_page blank s.disk (s.pages f).page_id q (s.pages f).content small
            k.size_bound)
      | inr same ↦ ground (arith, k.clean (s.pages f).page_id f chosen_mapped chosen_unpinned same)
    ]

    pub evict-view : (q : ℕ) → view (evict blank f (Replacer.victim s.replacer).0 s) q ≡ view s q
    unfolding evict
    evict-view q = elim (Option-cases (find s.page_table q)) [
      | inl absent ↦ ground (
        arith,
        chosen_mapped,
        find-remove s.page_table (s.pages f).page_id q,
        stored-write_back q,
      )
      | inr (g, found) ↦ ground (
        arith,
        chosen_mapped,
        v.mapped_id q g found,
        find-remove s.page_table (s.pages f).page_id q,
        stored-write_back q,
      )
    ]

    pub evict-IsCoherent : IsCoherent (evict blank f (Replacer.victim s.replacer).0 s)
    unfolding evict
    evict-IsCoherent = record {
      clean = λ p g h unpinned same. ground (
        arith,
        k.clean p g,
        v.mapped_id p g,
        chosen_mapped,
        find-remove s.page_table (s.pages f).page_id p,
        stored-write_back p,
      );
      zeroed = λ g h. ground (arith, count-append g s.free_list (f ∷ []), ap (count g) empty);
      file_bound = rw next_page_id-write_back length-write_back;
      ids_bound = rw next_page_id-write_back k.ids_bound;
      size_bound = omega (arith, length-write_back, room);
    }
