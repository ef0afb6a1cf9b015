-- ===== src/Pool/Valid.antt =====
-- The well-formedness of the buffer pool: the page table, the free list and the replacer agree on
-- what each frame is for.
use dbplayground.Base.{
  ℕ, zero, suc, ◌+◌, ◌≤◌, ◌<◌, ◌≡◌, List, [], ◌∷◌, none, some, arith, count, if◌then◌else◌, ◌==◌,
}
use dbplayground.Disk.{Disk}
use dbplayground.Replacer
use dbplayground.Replacer.Bounds
use dbplayground.Pool.{Pool, find, remove, assign, init, frames_from}

pub find-remove :
    (t : List (ℕ × ℕ)) (p q : ℕ) → find (remove t p) q ≡ (if p == q then none else find t q)
find-remove [] p q = ground arith
find-remove ((r, f) ∷ t) p q = ground (arith, find-remove t p q)

pub find-assign :
    (t : List (ℕ × ℕ)) (p f q : ℕ) → find (assign t p f) q ≡ (if p == q then some f else find t q)
find-assign t p f q = ground (arith, find-remove t p q)

-- No page id stands twice in the table.
abbrev pub Distinct : List (ℕ × ℕ) → Type 0
Distinct [] = Unit
Distinct ((p, f) ∷ t) = (find t p ≡ none) × Distinct t

pub Distinct-remove : (t : List (ℕ × ℕ)) (p : ℕ) → Distinct t → Distinct (remove t p)
Distinct-remove [] p d = tt
Distinct-remove ((q, f) ∷ t) p d = ground (arith, Distinct-remove t p d.1, find-remove t p q, d.0)

pub Distinct-assign : (t : List (ℕ × ℕ)) (p f : ℕ) → Distinct t → Distinct (assign t p f)
Distinct-assign t p f d = (ground (arith, find-remove t p p), Distinct-remove t p d)

-- A frame is idle if it may be evicted: the replacer has it, and it is not free.
pub record IsValid {A : Type 0} (s : Pool A) : Type 0 where
  pub replacer_valid : Bounds.IsValid s.replacer
  pub distinct : Distinct s.page_table
  pub mapped_bound : (p f : ℕ) → find s.page_table p ≡ some f → f < s.slot_num
  pub mapped_id : (p f : ℕ) → find s.page_table p ≡ some f → (s.pages f).page_id ≡ p
  pub mapped_busy : (p f : ℕ) → find s.page_table p ≡ some f → count f s.free_list ≡ 0
  pub mapped_allocated : (p f : ℕ) → find s.page_table p ≡ some f → p < s.disk.next_page_id
  pub free_once : (f : ℕ) → count f s.free_list ≤ 1
  pub free_bound : (f : ℕ) → 1 ≤ count f s.free_list → f < s.slot_num
  pub idle_unpinned :
      (f : ℕ)
      → 1 ≤ count f s.replacer.unpinned_pages
      → count f s.free_list ≡ 0
      → (s.pages f).pin_count ≡ 0
  pub idle_mapped :
      (f : ℕ)
      → 1 ≤ count f s.replacer.unpinned_pages
      → count f s.free_list ≡ 0
      → find s.page_table (s.pages f).page_id ≡ some f

count-frames_from :
    (f i n : ℕ)
    → (count f (frames_from i n) ≤ 1) × (1 ≤ count f (frames_from i n) → (i ≤ f) × (f < i + n))
unfolding frames_from
count-frames_from f i zero = (omega arith, λ h. absurd (omega arith))
count-frames_from f i (suc n) = let (once, bound) = count-frames_from f (i + 1) n in ground arith

module _ {A : Type 0} (blank : A) where
  pub init-IsValid : (n : ℕ) (d : Disk A) → IsValid (init blank n d)
  unfolding init Replacer.init
  init-IsValid n d = record {
    replacer_valid = Bounds.init-IsValid n;
    distinct = tt;
    mapped_bound = λ p f h. cc;
    mapped_id = λ p f h. cc;
    mapped_busy = λ p f h. cc;
    mapped_allocated = λ p f h. cc;
    free_once = λ f. (count-frames_from f 0 n).0;
    free_bound = λ f h. omega (arith, (count-frames_from f 0 n).1 h);
    idle_unpinned = λ f h e. absurd (omega arith);
    idle_mapped = λ f h e. absurd (omega arith);
  }
