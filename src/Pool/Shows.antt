-- ===== src/Pool/Shows.antt =====
-- What the steps of a fetch and of a new page show: no page's bytes change, and a page that is held
-- stays in its frame.
use dbplayground.Base.{
  ℕ, ◌<◌, ◌≤◌, ◌^◌, ◌≡◌, refl, ap, sym, ◌∙◌, [], none, some, arith, count, back?, subst,
  count-pop_back, Option-cases, inl, inr,
}
use dbplayground.Replacer
use dbplayground.Pool.{Pool, find, evict, load, repin}
use dbplayground.Replacer.Counts.{count-victim}
use dbplayground.Pool.Frames.{evict-IsValid, load-IsValid, repin-IsValid}
use dbplayground.Pool.Freed.{Freed, already, evicted}
use dbplayground.Pool.Valid.{IsValid, find-remove, find-assign}
use dbplayground.Pool.View.{view, IsCoherent, evict-view, evict-IsCoherent}

-- `s'` has the bytes of every page of `s`, and keeps every page that is held where it is.
pub record Keeps {A : Type 0} (blank : A) (s s' : Pool A) : Type 0 where
  pub valid : IsValid s'
  pub coherent : IsCoherent blank s'
  pub same_view : (q : ℕ) → view blank s' q ≡ view blank s q
  pub held :
      (q g : ℕ)
      → find s.page_table q ≡ some g
      → 1 ≤ (s.pages g).pin_count
      → (find s'.page_table q ≡ some g) × ((s.pages g).pin_count ≤ (s'.pages g).pin_count)

module _ {A : Type 0} (blank : A) where
  -- `page_id` is not in the pool, and `f` is the last of the free frames.
  module _ (page_id f : ℕ) (s : Pool A) (absent : find s.page_table page_id ≡ none)
      (last : back? s.free_list ≡ some f) (v : IsValid s) (k : IsCoherent blank s) where
    free_frame : 1 ≤ count f s.free_list
    free_frame = ground (arith, count-pop_back f f s.free_list last)

    load-view : (q : ℕ) → view blank (load blank page_id f s) q ≡ view blank s q
    unfolding load
    load-view q = elim (Option-cases (find s.page_table q)) [
      | inl missing ↦
          ground (arith, absent, k.zeroed f free_frame, find-assign s.page_table page_id f q)
      | inr (g, found) ↦
          ground (
            arith,
            absent,
            v.mapped_busy q g found,
            free_frame,
            find-assign s.page_table page_id f q,
          )
    ]

    load-IsCoherent : IsCoherent blank (load blank page_id f s)
    unfolding load
    load-IsCoherent = record {
      clean = λ p g h unpinned same.
          ground (
            arith,
            k.clean p g,
            v.mapped_busy p g,
            free_frame,
            find-assign s.page_table page_id f p,
          );
      zeroed =
          λ g h. ground (arith, k.zeroed g, v.free_once f, count-pop_back g f s.free_list last);
      file_bound = k.file_bound;
      ids_bound = k.ids_bound;
      size_bound = k.size_bound;
    }

    pub load-Keeps : page_id < s.disk.next_page_id → Keeps blank s (load blank page_id f s)
    unfolding load
    load-Keeps allocated = record {
      valid = load-IsValid blank page_id f s absent allocated last v;
      coherent = load-IsCoherent;
      same_view = load-view;
      held = λ q g h pinned.
          ground
            (arith, absent, v.mapped_busy q g h, free_frame, find-assign s.page_table page_id f q);
    }

  module _ (s : Pool A) (v : IsValid s) (k : IsCoherent blank s) where
    pub Keeps-refl : Keeps blank s s
    Keeps-refl = record {
      valid = v;
      coherent = k;
      same_view = λ q. refl;
      held = λ q g h pinned. (h, omega arith);
    }

    pub repin-Keeps : (f : ℕ) → Keeps blank s (repin f s)
    unfolding repin
    repin-Keeps f = record {
      valid = repin-IsValid f s v;
      coherent = record {
        clean = λ p g h unpinned same. ground (arith, k.clean p g);
        zeroed = λ g h. ground (arith, k.zeroed g);
        file_bound = k.file_bound;
        ids_bound = k.ids_bound;
        size_bound = k.size_bound;
      };
      same_view = λ q. ground arith;
      held = λ q g h pinned. ground arith;
    }

    pub evict-Keeps :
        (f : ℕ)
        → (Replacer.victim s.replacer).1 ≡ some f
        → s.free_list ≡ []
        → s.disk.next_page_id < 2 ^ 17
        → Keeps blank s (evict blank f (Replacer.victim s.replacer).0 s)
    unfolding evict
    evict-Keeps f chosen empty room = record {
      valid = evict-IsValid blank f s chosen empty v;
      coherent = evict-IsCoherent blank f s chosen empty v k room;
      same_view = evict-view blank f s chosen empty v k room;
      held = λ q g h pinned. ground (
        arith,
        v.mapped_id q g h,
        v.idle_unpinned f,
        v.idle_mapped f,
        count-victim f f s.replacer chosen,
        ap (count f) empty,
        find-remove s.page_table (s.pages f).page_id q,
      );
    }

    pub Freed-Keeps :
        {s' : Pool A} → s.disk.next_page_id < 2 ^ 17 → Freed blank s s' → Keeps blank s s'
    Freed-Keeps room (already f fs e same) = subst (Keeps blank s) (sym same) Keeps-refl
    Freed-Keeps room (evicted f e chosen same) =
        subst (Keeps blank s) (sym same) (evict-Keeps f chosen e room)

  pub Keeps-trans : {s t u : Pool A} → Keeps blank s t → Keeps blank t u → Keeps blank s u
  Keeps-trans {s} {t} {u} a b = record {
    valid = b.valid;
    coherent = b.coherent;
    same_view = λ q. b.same_view q ∙ a.same_view q;
    held = λ q g h pinned.
        let (still, more) = a.held q g h pinned in
        let (stays, most) = b.held q g still (omega arith) in (stays, omega arith);
  }
