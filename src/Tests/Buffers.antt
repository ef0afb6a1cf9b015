-- ===== src/Tests/Buffers.antt =====
-- The replacer, the file and the buffer pool on small inputs.
use dbplayground.Base.{ℕ, ◌≡◌, refl, List, [], ◌∷◌, none, some, arith, true}
use dbplayground.Replacer
use dbplayground.Replacer.{Replacer}
use dbplayground.Replacer.Bounds
use dbplayground.Replacer.Order.{
  Call, call_victim, call_size, call_pin, call_unpin, run, queue_run, run-queue_run, perform_all,
  perform_all-IsValid,
}
use dbplayground.Disk.{Disk, reopen, read_page, write_page}
use dbplayground.Disk.Reads.{stored}
use dbplayground.Pool.{Pool, find, init, fetch_page}
use dbplayground.Pool.Methods.{write_frame, unpin_page, new_page, flush_all_pages}
use dbplayground.Pool.Valid.{IsValid}
use dbplayground.Pool.View.{view, IsCoherent}
use dbplayground.Pool.Shows.{Keeps}
use dbplayground.Pool.Fetch.{fetch_page-Keeps, new_page-Keeps}
use dbplayground.Pool.Durable.{flush_all_pages-durable}
use dbplayground.Pool.Runs.{fetch, write, unpin, Reach, here, next, Reach-IsSound}
use dbplayground.Pool.Results.{Holds, fetch_page-Holds, fetch_page_fails}

abbrev calls : List Call
calls =
    call_unpin 4
    ∷ call_unpin 7
    ∷ call_unpin 4
    ∷ call_size
    ∷ call_pin 4
    ∷ call_victim
    ∷ call_victim
    ∷ []

run-queue_run_example :
    run calls (Replacer.init 3) ≡ queue_run 3 calls (Replacer.init 3).unpinned_pages
unfolding Replacer.init
run-queue_run_example = run-queue_run calls (Replacer.init 3) (Bounds.init-IsValid 3)

perform_all-IsValid_example : Bounds.IsValid (perform_all calls (Replacer.init 3))
perform_all-IsValid_example = perform_all-IsValid calls (Replacer.init 3) (Bounds.init-IsValid 3)

-- Pages are numbers here, with 0 for the page of zeros.
abbrev file : List ℕ
file = 10 ∷ 11 ∷ 12 ∷ []

abbrev disk : Disk ℕ
disk = reopen file

-- A pool of one frame, in which page 0 is written and released, and page 1 evicts it.
abbrev started : Pool ℕ
started = init 0 1 disk

abbrev fetched : Pool ℕ
fetched = (fetch_page 0 0 started).0

abbrev written : Pool ℕ
written = write_frame 0 99 fetched

abbrev released : Pool ℕ
released = (unpin_page 0 true written).0

abbrev evicted : Pool ℕ
evicted = (fetch_page 0 1 released).0

fetched_facts : (find fetched.page_table 0 ≡ some 0) × ((fetched.pages 0).pin_count ≡ 1)
unfolding init reopen fetch_page Replacer.init Replacer.pin
fetched_facts = (refl, refl)

released_facts : released.disk.next_page_id ≡ 3
unfolding init reopen fetch_page Replacer.init Replacer.pin write_frame unpin_page
released_facts = refl

use_of_pages : Reach 0 started evicted
unfolding init reopen
use_of_pages =
    next
      (next
        (next (next here (fetch 0 (omega arith) (omega arith)))
          (write 0 0 99 fetched_facts.0 (omega (arith, fetched_facts.1))))
        (unpin 0 true (λ f h e. cc)))
      (fetch 1 (omega (arith, released_facts)) (omega (arith, released_facts)))

Reach-IsSound_example : IsValid evicted × IsCoherent 0 evicted
Reach-IsSound_example = Reach-IsSound 0 1 file (omega arith) use_of_pages

evicted_sound : IsValid evicted × IsCoherent 0 evicted
evicted_sound = Reach-IsSound 0 1 file (omega arith) use_of_pages

to_released : Reach 0 started released
unfolding init reopen
to_released =
    next
      (next (next here (fetch 0 (omega arith) (omega arith)))
        (write 0 0 99 fetched_facts.0 (omega (arith, fetched_facts.1))))
      (unpin 0 true (λ f h e. cc))

released_sound : IsValid released × IsCoherent 0 released
released_sound = Reach-IsSound 0 1 file (omega arith) to_released

-- The evicted page is in the file as it was written.
evicted_stored : stored 0 evicted.disk 0 ≡ 99
unfolding init reopen fetch_page Replacer.init Replacer.pin Replacer.unpin write_frame unpin_page
    read_page Replacer.victim Replacer.unpin_to_back write_page
evicted_stored = refl

fetch_page-Keeps_example : Keeps 0 released (fetch_page 0 1 released).0
fetch_page-Keeps_example =
    fetch_page-Keeps 0 1 released (omega (arith, released_facts)) (omega (arith, released_facts))
      released_sound.0 released_sound.1

evicting : (fetch_page 0 1 released).1 ≡ some 0
unfolding init reopen fetch_page Replacer.init Replacer.pin Replacer.unpin write_frame unpin_page
    Replacer.victim Replacer.unpin_to_back
evicting = refl

fetch_page-Holds_example : Holds 0 1 0 evicted × ((evicted.pages 0).content ≡ view 0 released 1)
fetch_page-Holds_example =
    fetch_page-Holds 0 1 0 released (omega (arith, released_facts)) (omega (arith, released_facts))
      released_sound.0 released_sound.1 evicting

new_page-Keeps_example : Keeps 0 released (new_page 0 released).0
new_page-Keeps_example =
    new_page-Keeps 0 released (omega (arith, released_facts)) released_sound.0 released_sound.1

flush_all_pages-durable_example :
    (stored 0 (flush_all_pages 0 released).disk 0 ≡ view 0 released 0)
    × (view 0 (flush_all_pages 0 released) 0 ≡ view 0 released 0)
flush_all_pages-durable_example =
    flush_all_pages-durable 0 released 0 (omega (arith, released_facts)) released_sound.0
      released_sound.1

-- The one frame is held, so another page cannot be fetched.
full : (fetch_page 0 1 fetched).1 ≡ none
unfolding init reopen fetch_page Replacer.init Replacer.pin Replacer.victim
full = refl

fetch_page_fails_example :
    (find fetched.page_table 1 ≡ none)
    × (fetched.free_list ≡ [])
    × (fetched.replacer.unpinned_pages ≡ [])
    × ((fetch_page 0 1 fetched).0 ≡ fetched)
fetch_page_fails_example = fetch_page_fails 0 1 fetched full
