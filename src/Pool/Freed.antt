-- ===== src/Pool/Freed.antt =====
-- What freeing a frame does, the first step of `FetchPage` and of `NewPage`.
use dbplayground.Base.{
  ℕ, ◌≡◌, refl, ap, sym, ◌∙◌, List, [], ◌∷◌, ◌++◌, Option, none, some, subst, some-injective,
}
use dbplayground.Replacer
use dbplayground.Replacer.{Replacer}
use dbplayground.Pool.{Pool, find, evict, evict_victim, free_a_frame, ensure_free}
use dbplayground.Pool.Frames.{evict-IsValid, find-evict, next_page_id-evict}
use dbplayground.Pool.Valid.{IsValid}

module _ {A : Type 0} (blank : A) where
  -- What `ensure_free` leaves: the same pool, which has a free frame, or the pool with one page
  -- evicted.
  pub data Freed (s s' : Pool A) : Type 0 where
    already : (f : ℕ) (fs : List ℕ) → s.free_list ≡ f ∷ fs → s' ≡ s → Freed s s'
    evicted :
        (f : ℕ)
        → s.free_list ≡ []
        → (Replacer.victim s.replacer).1 ≡ some f
        → s' ≡ evict blank f (Replacer.victim s.replacer).0 s
        → Freed s s'

  evict_victim-Freed :
      (c : Replacer × Option ℕ) (s s' : Pool A)
      → Replacer.victim s.replacer ≡ c
      → s.free_list ≡ []
      → evict_victim blank c s ≡ some s'
      → Freed s s'
  unfolding evict_victim
  evict_victim-Freed (r, none) s s' e empty h = cc
  evict_victim-Freed (r, some f) s s' e empty h =
      evicted f empty (ap (λ c. c.1) e)
        (sym (some-injective _ _ h) ∙ (λ i. evict blank f (sym e i).0 s))

  free_a_frame-Freed :
      (fs : List ℕ) (s s' : Pool A)
      → s.free_list ≡ fs
      → free_a_frame blank fs s ≡ some s'
      → Freed s s'
  unfolding free_a_frame
  free_a_frame-Freed [] s s' e h = evict_victim-Freed _ s s' refl e h
  free_a_frame-Freed (f ∷ fs) s s' e h = already f fs e (sym (some-injective _ _ h))

  pub ensure_free-Freed : (s s' : Pool A) → ensure_free blank s ≡ some s' → Freed s s'
  unfolding ensure_free
  ensure_free-Freed s s' h = free_a_frame-Freed s.free_list s s' refl h

  pub Freed-IsValid : {s s' : Pool A} → Freed s s' → IsValid s → IsValid s'
  Freed-IsValid (already f fs e same) v = subst IsValid (sym same) v
  Freed-IsValid {s} (evicted f e chosen same) v =
      subst IsValid (sym same) (evict-IsValid blank f s chosen e v)

  -- Freeing a frame brings no page in, and leaves the counter of page ids.
  pub Freed-find :
      {s s' : Pool A} (p : ℕ)
      → Freed s s'
      → find s.page_table p ≡ none
      → find s'.page_table p ≡ none
  Freed-find p (already f fs e same) h = subst (λ t. find t.page_table p ≡ none) (sym same) h
  Freed-find {s} p (evicted f e chosen same) h =
      subst (λ t. find t.page_table p ≡ none) (sym same)
        (find-evict blank f p (Replacer.victim s.replacer).0 s h)

  pub Freed-next_page_id : {s s' : Pool A} → Freed s s' → s'.disk.next_page_id ≡ s.disk.next_page_id
  Freed-next_page_id (already f fs e same) = ap (λ t. t.disk.next_page_id) same
  Freed-next_page_id {s} (evicted f e chosen same) =
      ap (λ t. t.disk.next_page_id) same
      ∙ next_page_id-evict blank f (Replacer.victim s.replacer).0 s

  -- The frame that `FetchPage` and `NewPage` take exists.
  pub Freed-front : {s s' : Pool A} → Freed s s' → (f : ℕ) × (fs : List ℕ) × (s'.free_list ≡ f ∷ fs)
  unfolding evict
  Freed-front (already f fs e same) = (f, fs, ap (λ t. t.free_list) same ∙ e)
  Freed-front (evicted f e chosen same) =
      (f, [], ap (λ t. t.free_list) same ∙ ap (λ l. l ++ (f ∷ [])) e)
