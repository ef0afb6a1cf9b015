-- ===== src/Replacer/Order.antt =====
-- The replacer is a queue: whatever calls are made, it answers as one list of frames would, from
-- which the front is evicted, a pinned frame is taken out, and an unpinned frame joins at the back.
use dbplayground.Base.{
  ℕ, ◌≡◌, refl, ◌∙◌, [], ◌∷◌, List, Option, none, some, arith, length, leb, ltb, ◌++◌, count, erase,
  if◌then◌else◌, ◌||◌,
}
use dbplayground.Replacer.{
  Replacer, victim, victim_of, pin, unpin, unpin_to_back, forget_pinned, size,
}
use dbplayground.Replacer.Bounds.{IsValid, victim-IsValid, pin-IsValid, unpin-IsValid}

-- A call, and what it answers: `Victim` the frame, `Size` the number.
pub data Call : Type 0 where
  call_victim call_size : Call
  call_pin call_unpin : ℕ → Call

pub data Answer : Type 0 where
  evicted : Option ℕ → Answer
  sized : ℕ → Answer
  done : Answer

unfoldable pub perform : Call → Replacer → Replacer × Answer
perform call_victim r = ((victim r).0, evicted (victim r).1)
perform call_size r = (r, sized (size r))
perform (call_pin f) r = (pin f r, done)
perform (call_unpin f) r = (unpin f r, done)

unfoldable pub run : List Call → Replacer → List Answer
run [] r = []
run (c ∷ cs) r = (perform c r).1 ∷ run cs (perform c r).0

-- The queue of at most `n` frames.
unfoldable pub queue_call : ℕ → Call → List ℕ → List ℕ × Answer
queue_call n call_victim [] = ([], evicted none)
queue_call n call_victim (f ∷ q) = (q, evicted (some f))
queue_call n call_size q = (q, sized (length q))
queue_call n (call_pin f) q = (erase f q, done)
queue_call n (call_unpin f) q =
    (if ltb 0 (count f q) || leb n (length q) then q else q ++ (f ∷ []), done)

unfoldable pub queue_run : ℕ → List Call → List ℕ → List Answer
queue_run n [] q = []
queue_run n (c ∷ cs) q = (queue_call n c q).1 ∷ queue_run n cs (queue_call n c q).0

victim_of-queue :
    (n : ℕ) (xs : List ℕ) (r : Replacer)
    → r.unpinned_pages ≡ xs
    → ((victim_of xs r).0.unpinned_pages ≡ (queue_call n call_victim xs).0)
      × (evicted (victim_of xs r).1 ≡ (queue_call n call_victim xs).1)
      × ((victim_of xs r).0.num_pages ≡ r.num_pages)
unfolding victim_of queue_call
victim_of-queue n [] r e = (e, refl, refl)
victim_of-queue n (x ∷ xs) r e = (refl, refl, refl)

-- A frame that is not listed is not taken out.
erase_absent : (f : ℕ) (xs : List ℕ) → count f xs ≡ 0 → erase f xs ≡ xs
erase_absent f [] h = refl
erase_absent f (x ∷ xs) h = ground (arith, erase_absent f xs)

perform-queue :
    (c : Call) (r : Replacer)
    → IsValid r
    → ((perform c r).0.unpinned_pages ≡ (queue_call r.num_pages c r.unpinned_pages).0)
      × ((perform c r).1 ≡ (queue_call r.num_pages c r.unpinned_pages).1)
      × ((perform c r).0.num_pages ≡ r.num_pages)
unfolding perform queue_call victim pin unpin unpin_to_back forget_pinned size
perform-queue call_victim r v = victim_of-queue r.num_pages r.unpinned_pages r refl
perform-queue call_size r v = (refl, refl, refl)
perform-queue (call_pin f) r v = ground (arith, v.unpinned f, erase_absent f r.unpinned_pages)
perform-queue (call_unpin f) r v = ground (arith, v.unpinned f)

perform-IsValid : (c : Call) (r : Replacer) → IsValid r → IsValid (perform c r).0
unfolding perform
perform-IsValid call_victim r v = victim-IsValid r v
perform-IsValid call_size r v = v
perform-IsValid (call_pin f) r v = pin-IsValid f r v
perform-IsValid (call_unpin f) r v = unpin-IsValid f r v

-- From a valid replacer, every sequence of calls gets the answers of a queue of at most num_pages
-- frames from which the front is evicted, a pinned frame is taken out, and an unpinned one joins
-- at the back.
pub run-queue_run :
    (cs : List Call) (r : Replacer)
    → IsValid r
    → run cs r ≡ queue_run r.num_pages cs r.unpinned_pages
unfolding run queue_run
run-queue_run [] r v = refl
run-queue_run (c ∷ cs) r v =
    let (same_queue, same_answer, same_size) = perform-queue c r v in
    let rest = run-queue_run cs (perform c r).0 (perform-IsValid c r v) in
    λ i. same_answer i ∷ (rest ∙ (λ j. queue_run (same_size j) cs (same_queue j))) i

-- The replacer after the calls.
pub perform_all : List Call → Replacer → Replacer
perform_all [] r = r
perform_all (c ∷ cs) r = perform_all cs (perform c r).0

-- After any sequence of calls on a valid replacer its lists and maps agree, no frame stands twice
-- or both pinned and unpinned, and the unpinned frames do not pass the capacity.
pub perform_all-IsValid : (cs : List Call) (r : Replacer) → IsValid r → IsValid (perform_all cs r)
unfolding perform_all
perform_all-IsValid [] r v = v
perform_all-IsValid (c ∷ cs) r v = perform_all-IsValid cs (perform c r).0 (perform-IsValid c r v)
