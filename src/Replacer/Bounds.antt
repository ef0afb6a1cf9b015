-- ===== src/Replacer/Bounds.antt =====
-- The lists of the replacer and the keys of their maps agree: no frame stands twice, and the
-- unpinned frames never pass the capacity.
use dbplayground.Base.{
  ℕ, ◌+◌, ◌≤◌, ◌≡◌, refl, Bool, [], ◌∷◌, List, arith, length, count, count-append, count-erase,
  length-append, length-erase, if◌then◌else◌,
}
use dbplayground.Replacer.{
  Replacer, init, victim, victim_of, pin, unpin, unpin_to_back, forget_pinned,
}

abbrev pub Agrees : List ℕ → (ℕ → Bool) → Type 0
Agrees xs m = (f : ℕ) → count f xs ≡ (if m f then 1 else 0)

pub record IsValid (r : Replacer) : Type 0 where
  pub unpinned : Agrees r.unpinned_pages r.unpinned_iter_map
  pub pinned : Agrees r.pinned_pages r.pinned_iter_map
  pub apart : (f : ℕ) → count f r.unpinned_pages + count f r.pinned_pages ≤ 1
  pub bounded : length r.unpinned_pages ≤ r.num_pages

pub init-IsValid : (n : ℕ) → IsValid (init n)
unfolding init
init-IsValid n = record {
  unpinned = λ f. refl;
  pinned = λ f. refl;
  apart = λ f. omega arith;
  bounded = omega arith;
}

victim_of-IsValid :
    (xs : List ℕ) (r : Replacer) → r.unpinned_pages ≡ xs → IsValid r → IsValid (victim_of xs r).0
unfolding victim_of
victim_of-IsValid [] r e v = v
victim_of-IsValid (x ∷ xs) r e v = record {
  unpinned = λ f. ground (arith, v.unpinned f);
  pinned = v.pinned;
  apart = λ f. ground (arith, v.apart f);
  bounded = ground (arith, v.bounded);
}

pub victim-IsValid : (r : Replacer) → IsValid r → IsValid (victim r).0
unfolding victim
victim-IsValid r v = victim_of-IsValid r.unpinned_pages r refl v

pub pin-IsValid : (f : ℕ) (r : Replacer) → IsValid r → IsValid (pin f r)
unfolding pin
pin-IsValid f r v = record {
  unpinned = λ g. ground (arith, v.unpinned g, v.unpinned f, count-erase f g r.unpinned_pages);
  pinned = λ g. ground (
    arith,
    v.pinned g,
    v.pinned f,
    v.unpinned f,
    v.apart f,
    count-append g r.pinned_pages (f ∷ []),
  );
  apart = λ g. ground (
    arith,
    v.apart g,
    v.apart f,
    v.unpinned g,
    v.pinned g,
    count-append g r.pinned_pages (f ∷ []),
    count-erase f g r.unpinned_pages,
  );
  bounded = ground (arith, v.bounded, length-erase f r.unpinned_pages);
}

forget_pinned-IsValid : (f : ℕ) (r : Replacer) → IsValid r → IsValid (forget_pinned f r)
unfolding forget_pinned
forget_pinned-IsValid f r v = record {
  unpinned = λ g. ground (arith, v.unpinned g);
  pinned = λ g. ground (arith, v.pinned g, v.pinned f, count-erase f g r.pinned_pages);
  apart = λ g. ground (arith, v.apart g, count-erase f g r.pinned_pages);
  bounded = ground (arith, v.bounded);
}

forget_pinned-absent :
    (f : ℕ) (r : Replacer) → IsValid r → count f (forget_pinned f r).pinned_pages ≡ 0
unfolding forget_pinned
forget_pinned-absent f r v = ground (arith, v.pinned f, count-erase f f r.pinned_pages)

unpin_to_back-IsValid :
    (f : ℕ) (r : Replacer) → count f r.pinned_pages ≡ 0 → IsValid r → IsValid (unpin_to_back f r)
unfolding unpin_to_back
unpin_to_back-IsValid f r e v = record {
  unpinned =
      λ g. ground (arith, v.unpinned g, v.unpinned f, count-append g r.unpinned_pages (f ∷ []));
  pinned = λ g. ground (arith, v.pinned g);
  apart = λ g.
      ground
        (arith, v.apart g, v.unpinned g, v.unpinned f, count-append g r.unpinned_pages (f ∷ []));
  bounded = ground (arith, v.bounded, length-append r.unpinned_pages (f ∷ []));
}

pub unpin-IsValid : (f : ℕ) (r : Replacer) → IsValid r → IsValid (unpin f r)
unfolding unpin
unpin-IsValid f r v =
    unpin_to_back-IsValid f (forget_pinned f r) (forget_pinned-absent f r v)
      (forget_pinned-IsValid f r v)
