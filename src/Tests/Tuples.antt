-- ===== src/Tests/Tuples.antt =====
-- A tuple store that is empty, and one of one page with one value.
use dbplayground.Base.{
  ℕ, ◌≡◌, refl, subst, List, [], ◌∷◌, none, some, Bool, true, ◌==◌, if◌then◌else◌, arith, inl, inr,
  Bool-cases,
}
use dbplayground.Base.Result.{ok}
use dbplayground.Disk.{invalid_page_id}
use dbplayground.Rid.{Rid}
use dbplayground.TupleStore.{
  ValuePage, TupleStore, init_value_page, add_value, free_space, put_tuple, get_tuple, delete_tuple,
  update_tuple,
}
use dbplayground.TupleStore.Slots.{IsValidPage, init_value_page-IsValidPage, add_value-IsValidPage}
use dbplayground.TupleStore.Chain.{IsSound, IsChain}
use dbplayground.TupleStore.Stores.{PutAt}
use dbplayground.TupleStore.Calls.{put_tuple-PutAt, is_some, Deleted, delete_tuple-Deleted}
use dbplayground.TupleStore.Updates.{Updated, update_tuple-Updated}

abbrev empty : TupleStore
empty = record { first_page_id = invalid_page_id; next_page_id = 0; pages = λ id. none }

empty-IsSound : IsSound empty
empty-IsSound = record { valid = λ id p here. absurd (ground (arith, here)); fresh = λ id h. refl }

abbrev two_bytes : List ℕ
two_bytes = 7 ∷ 8 ∷ []

abbrev frames : ℕ → Bool
frames id = true

put_tuple-PutAt_example :
    (rid : Rid) × (t' : TupleStore) × (put_tuple frames 0 two_bytes empty ≡ ok (rid, t'))
    × PutAt empty 0 two_bytes rid t'
put_tuple-PutAt_example =
    put_tuple-PutAt frames 0 two_bytes (omega arith) empty empty-IsSound refl refl
      (λ e. omega (arith, e))

abbrev page : ValuePage
page = add_value two_bytes (init_value_page invalid_page_id)

abbrev one : TupleStore
one = record {
  first_page_id = 0;
  next_page_id = 1;
  pages = λ id. if id == 0 then some page else none;
}

page-IsValidPage : IsValidPage page
unfolding free_space init_value_page
page-IsValidPage =
    add_value-IsValidPage two_bytes (init_value_page invalid_page_id)
      (init_value_page-IsValidPage invalid_page_id) (omega arith)

one-IsSound : IsSound one
one-IsSound = record {
  valid = λ id p here. elim (Bool-cases (id == 0)) [
    | inl first ↦
        let e : page ≡ p = ground (arith, here, first) in subst IsValidPage e page-IsValidPage
    | inr other ↦ absurd (ground (arith, here, other))
  ];
  fresh = λ id h. ground arith;
}

one-IsChain : IsChain one.pages 1 0
unfolding add_value init_value_page
one-IsChain = inr (λ e. omega (arith, e), page, refl, refl)

abbrev rid : Rid
rid = record { page_id = 0; slot_id = 0 }

delete_tuple-Deleted_example :
    ((delete_tuple rid one).0 ≡ is_some (get_tuple rid one))
    × Deleted one rid (delete_tuple rid one).1
delete_tuple-Deleted_example = delete_tuple-Deleted one one-IsSound rid

update_tuple-Updated_example :
    (rid' : Rid) × (t' : TupleStore) × (update_tuple frames 1 rid (1 ∷ 2 ∷ 3 ∷ []) one
      ≡ ok (rid', t'))
    × Updated one 1 rid (1 ∷ 2 ∷ 3 ∷ []) rid' t'
update_tuple-Updated_example =
    update_tuple-Updated frames 1 rid (1 ∷ 2 ∷ 3 ∷ []) (omega arith) one one-IsSound one-IsChain
      refl (λ e. omega (arith, e))
