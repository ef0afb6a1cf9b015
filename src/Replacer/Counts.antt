-- ===== src/Replacer/Counts.antt =====
-- How the operations of the replacer change the number of times a frame stands among the unpinned.
use dbplayground.Base.{
  ℕ, ◌+◌, ◌≤◌, ◌≡◌, refl, [], ◌∷◌, List, some, arith, count, count-append, count-erase,
  if◌then◌else◌, ◌==◌,
}
use dbplayground.Replacer.{Replacer, victim, victim_of, pin, unpin, unpin_to_back, forget_pinned}
use dbplayground.Replacer.Bounds.{IsValid}

pub count-pin :
    (f g : ℕ) (r : Replacer)
    → IsValid r
    → count g (pin f r).unpinned_pages ≡ (if f == g then 0 else count g r.unpinned_pages)
unfolding pin
count-pin f g r v = ground (arith, v.unpinned f, v.unpinned g, count-erase f g r.unpinned_pages)

pub count-unpin :
    (f g : ℕ) (r : Replacer)
    → IsValid r
    → count g (unpin f r).unpinned_pages ≤ (if f == g then 1 else count g r.unpinned_pages)
unfolding unpin unpin_to_back forget_pinned
count-unpin f g r v =
    ground (arith, v.unpinned f, v.unpinned g, v.apart f, count-append g r.unpinned_pages (f ∷ []))

count-victim_of :
    (g f : ℕ) (xs : List ℕ) (r : Replacer)
    → r.unpinned_pages ≡ xs
    → (victim_of xs r).1 ≡ some f
    → count g r.unpinned_pages
      ≡ (if f == g then 1 else 0) + count g (victim_of xs r).0.unpinned_pages
unfolding victim_of
count-victim_of g f [] r e h = ground arith
count-victim_of g f (x ∷ xs) r e h = ground arith

pub count-victim :
    (g f : ℕ) (r : Replacer)
    → (victim r).1 ≡ some f
    → count g r.unpinned_pages ≡ (if f == g then 1 else 0) + count g (victim r).0.unpinned_pages
unfolding victim
count-victim g f r h = count-victim_of g f r.unpinned_pages r refl h
