-- ===== src/Pool/Results.antt =====
-- What the operations of the pool return.
use dbplayground.Base.{
  ℕ, ◌^◌, ◌<◌, ◌≤◌, ◌≡◌, refl, ap, ◌∙◌, List, [], ◌∷◌, Option, none, some, arith, back?, back?-some,
}
use dbplayground.Replacer
use dbplayground.Replacer.{Replacer, victim_of}
use dbplayground.Pool.{
  Pool, find, ensure_free, free_a_frame, evict_victim, load, load_into, fetch_missing, fetch_found,
  fetch_page, repin,
}
use dbplayground.Pool.Fetch.{fetch_page-Keeps}
use dbplayground.Pool.Freed.{ensure_free-Freed, Freed-front}
use dbplayground.Pool.Valid.{IsValid, find-assign}
use dbplayground.Pool.View.{view, IsCoherent}

module _ {A : Type 0} (blank : A) where
  -- The page `p` is in the frame `f`, and pinned.
  abbrev pub Holds : ℕ → ℕ → Pool A → Type 0
  Holds p f s = (find s.page_table p ≡ some f) × (1 ≤ (s.pages f).pin_count)

  load_into-Holds :
      (p f : ℕ) (o : Option ℕ) (s : Pool A)
      → (load_into blank p o s).1 ≡ some f
      → Holds p f (load_into blank p o s).0
  unfolding load_into load
  load_into-Holds p f none s h = cc
  load_into-Holds p f (some g) s h = ground (arith, find-assign s.page_table p g p)

  fetch_missing-Holds :
      (p f : ℕ) (o : Option (Pool A)) (s : Pool A)
      → (fetch_missing blank p o s).1 ≡ some f
      → Holds p f (fetch_missing blank p o s).0
  unfolding fetch_missing
  fetch_missing-Holds p f none s h = cc
  fetch_missing-Holds p f (some s') s h = load_into-Holds p f (back? s'.free_list) s' h

  fetch_found-Holds :
      (p f : ℕ) (o : Option ℕ) (s : Pool A)
      → find s.page_table p ≡ o
      → (fetch_found blank p o s).1 ≡ some f
      → Holds p f (fetch_found blank p o s).0
  unfolding fetch_found repin
  fetch_found-Holds p f (some g) s e h = ground arith
  fetch_found-Holds p f none s e h = fetch_missing-Holds p f (ensure_free blank s) s h

  -- A page that is fetched from a valid and coherent pool, its id allocated and fewer than 2 ^ 17
  -- ids in all, is in the frame that is returned, is pinned, and has the bytes that the pool
  -- showed for it before.
  pub fetch_page-Holds :
      (p f : ℕ) (s : Pool A)
      → p < s.disk.next_page_id
      → s.disk.next_page_id < 2 ^ 17
      → IsValid s
      → IsCoherent blank s
      → (fetch_page blank p s).1 ≡ some f
      → Holds p f (fetch_page blank p s).0
        × (((fetch_page blank p s).0.pages f).content ≡ view blank s p)
  fetch_page-Holds p f s allocated room v k h =
      let holds : Holds p f (fetch_page blank p s).0 =
        unfold fetch_page in fetch_found-Holds p f (find s.page_table p) s refl h in
      (holds, ground (arith, holds.0, (fetch_page-Keeps blank p s allocated room v k).same_view p))

  victim-none :
      (xs : List ℕ) (s : Pool A) → evict_victim blank (victim_of xs s.replacer) s ≡ none → xs ≡ []
  unfolding victim_of evict_victim
  victim-none [] s h = refl
  victim-none (x ∷ xs) s h = cc

  ensure_free-none :
      (fs : List ℕ) (s : Pool A)
      → free_a_frame blank fs s ≡ none
      → (fs ≡ []) × (s.replacer.unpinned_pages ≡ [])
  unfolding free_a_frame Replacer.victim
  ensure_free-none [] s h = (refl, victim-none s.replacer.unpinned_pages s h)
  ensure_free-none (f ∷ fs) s h = cc

  load_into_back :
      (p f : ℕ) (fs : List ℕ) (s : Pool A)
      → s.free_list ≡ f ∷ fs
      → (load_into blank p (back? s.free_list) s).1 ≡ none
      → ⊥
  unfolding load_into
  load_into_back p f fs s e h =
      let (b, last) = back?-some f fs in
      let last' : back? s.free_list ≡ some b = ap back? e ∙ last in
      cc (ap (λ o. (load_into blank p o s).1) last')

  fetch_missing_fails :
      (p : ℕ) (o : Option (Pool A)) (s : Pool A)
      → ensure_free blank s ≡ o
      → (fetch_missing blank p o s).1 ≡ none
      → (ensure_free blank s ≡ none) × ((fetch_missing blank p o s).0 ≡ s)
  unfolding fetch_missing
  fetch_missing_fails p none s e h = (e, refl)
  fetch_missing_fails p (some s') s e h =
      let (f, fs, front) = Freed-front blank (ensure_free-Freed blank s s' e) in
      absurd (load_into_back p f fs s' front h)

  fetch_found_fails :
      (p : ℕ) (o : Option ℕ) (s : Pool A)
      → (fetch_found blank p o s).1 ≡ none
      → (o ≡ none) × (ensure_free blank s ≡ none) × ((fetch_found blank p o s).0 ≡ s)
  unfolding fetch_found
  fetch_found_fails p (some f) s h = cc
  fetch_found_fails p none s h =
      let (full, same) = fetch_missing_fails p (ensure_free blank s) s refl h in (refl, full, same)

  -- A fetch returns a null pointer only if the page is not in the pool, no frame is free and the
  -- replacer has no frame to give, and then the pool is as before.
  pub fetch_page_fails :
      (p : ℕ) (s : Pool A)
      → (fetch_page blank p s).1 ≡ none
      → (find s.page_table p ≡ none)
        × (s.free_list ≡ [])
        × (s.replacer.unpinned_pages ≡ [])
        × ((fetch_page blank p s).0 ≡ s)
  unfolding fetch_page ensure_free
  fetch_page_fails p s h =
      let (absent, full, same) = fetch_found_fails p (find s.page_table p) s h in
      let (empty, busy) = ensure_free-none s.free_list s full in (absent, empty, busy, same)
