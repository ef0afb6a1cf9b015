-- ===== src/TupleStore/Calls.antt =====
-- The calls of the tuple store: what each record id reads after them.
use dbplayground.Base.{
  ℕ, ◌+◌, ◌≤◌, ◌≡◌, ◌≢◌, inl, inr, refl, ◌∙◌, ap, List, length, Option, none, some, Bool, true,
  false, ltb, if◌then◌else◌, arith, Bool-cases, Option-cases,
}
use dbplayground.Base.Result.{Result, ok}
use dbplayground.Disk.{invalid_page_id}
use dbplayground.Rid.{Rid}
use dbplayground.TupleStore.{
  ValuePage, TupleStore, slot_size, max_value_size, free_space, init_value_page, add_value,
  find_page, create_page, find_or_create_page_with_space, put_page, put_tuple, get_tuple,
  delete_tuple, is_live, read_slot, set_length, tombstone,
}
use dbplayground.TupleStore.Slots.{init_value_page-IsValidPage, free_space_lem}
use dbplayground.TupleStore.Changes.{deleted-IsValidPage, read_slot-deleted}
use dbplayground.TupleStore.Chain.{IsSound, IsChain, IsChain-suc, HasRoom, find_page-HasRoom}
use dbplayground.TupleStore.Stores.{
  is_rid, rid_at, put_page-IsSound, put_page-IsChain, get_tuple-put_page, PutAt, after-PutAt, grown,
  grown-IsSound, grown-IsChain, grown-PutAt,
}

module _ (has_frame : ℕ → Bool) (fuel : ℕ) (value : List ℕ)
    (small : length value ≤ max_value_size) where
  -- The result of putting a value.
  abbrev pub Puts : TupleStore → Result (Rid × TupleStore) → Type 0
  Puts t result =
      (rid : Rid) × (t' : TupleStore) × (result ≡ ok (rid, t')) × PutAt t fuel value rid t'

  not_large : ltb max_value_size (length value) ≡ false
  not_large = ground arith

  new_page_room : (next : ℕ) → slot_size + length value ≤ free_space (init_value_page next)
  unfolding init_value_page
  new_page_room next =
      omega (arith, free_space_lem (init_value_page next) (init_value_page-IsValidPage next), small)

  module _ (t : TupleStore) (sound : IsSound t) (chain : IsChain t.pages fuel t.first_page_id) where
    put_found :
        (at : ℕ)
        → find_page fuel (slot_size + length value) t.first_page_id t ≡ ok (some at)
        → HasRoom t (slot_size + length value) at
        → Puts t (put_tuple has_frame fuel value t)
    unfolding put_tuple find_or_create_page_with_space
    put_found at found (p, here, room) = (
      rid_at at p.num_slots,
      put_page at (add_value value p) t,
      rw (not_large, found, here) refl,
      after-PutAt t sound at p here value room fuel
          (IsChain-suc t.pages fuel t.first_page_id chain),
    )

    put_created :
        has_frame t.next_page_id ≡ true
        → t.next_page_id ≢ invalid_page_id
        → find_page fuel (slot_size + length value) t.first_page_id t ≡ ok none
        → Puts t (put_tuple has_frame fuel value t)
    unfolding put_tuple find_or_create_page_with_space create_page
    put_created frame valid missing =
        let page = init_value_page t.first_page_id in
        let here : (grown t sound).pages t.next_page_id ≡ some page = ground arith in
        (
          rid_at t.next_page_id page.num_slots,
          put_page t.next_page_id (add_value value page) (grown t sound),
          rw (not_large, missing, frame, here) refl,
          grown-PutAt t sound (
              after-PutAt (grown t sound) (grown-IsSound t sound) t.next_page_id page here value
                (new_page_room t.first_page_id) fuel (grown-IsChain t sound fuel valid chain)),
        )

    -- In a sound store, whose chain is as long as the fuel at most, a value that a page can hold
    -- is put, if the pool has a frame for a page more: the call returns a record id that read
    -- nothing before and reads the value now, every other one reads what it read, and the store
    -- stays sound: in each page the slots end before the values begin, the values lie in the page,
    -- and no two share a byte.
    pub put_tuple-PutAt :
        has_frame t.next_page_id ≡ true
        → t.next_page_id ≢ invalid_page_id
        → Puts t (put_tuple has_frame fuel value t)
    put_tuple-PutAt frame valid =
        elim (find_page-HasRoom t fuel (slot_size + length value) t.first_page_id chain) [
          | inl missing ↦ put_created frame valid missing
          | inr (at, found, room) ↦ put_found at found room
        ]

abbrev pub is_some : Option (List ℕ) → Bool
is_some none = false
is_some (some value) = true

pub is_rid-eq : (a b : Rid) → is_rid a b ≡ true → a ≡ b
is_rid-eq a b h =
    let pages : a.page_id ≡ b.page_id = ground arith in
    let slots : a.slot_id ≡ b.slot_id = ground arith in
    λ i. record { page_id = pages i; slot_id = slots i }

-- What a deletion leaves.
pub record Deleted (t : TupleStore) (rid : Rid) (t' : TupleStore) : Type 0 where
  pub sound : IsSound t'
  pub chain : (n first : ℕ) → IsChain t.pages n first → IsChain t'.pages n first
  pub heads : (t'.first_page_id ≡ t.first_page_id) × (t'.next_page_id ≡ t.next_page_id)
  pub reads : (r : Rid) → get_tuple r t' ≡ (if is_rid r rid then none else get_tuple r t)

module _ (t : TupleStore) (sound : IsSound t) (rid : Rid) where
  unread-Deleted : get_tuple rid t ≡ none → Deleted t rid t
  unread-Deleted unread = record {
    sound = sound;
    chain = λ n first chain. chain;
    heads = (refl, refl);
    reads = λ r. elim (Bool-cases (is_rid r rid)) [
      | inl same ↦ rw same (ap (λ l. get_tuple l t) (is_rid-eq r rid same) ∙ unread)
      | inr other ↦ rw other refl
    ];
  }

  next_same : (p : ValuePage) → (set_length rid.slot_id tombstone p).next_page_id ≡ p.next_page_id
  unfolding set_length
  next_same p = refl

  -- Deleting in a sound store returns whether the record id read a value; after that it reads
  -- nothing, every other one reads what it read, and the store stays sound.
  pub delete_tuple-Deleted :
      ((delete_tuple rid t).0 ≡ is_some (get_tuple rid t)) × Deleted t rid (delete_tuple rid t).1
  unfolding delete_tuple get_tuple read_slot
  delete_tuple-Deleted = elim (Option-cases (t.pages rid.page_id)) [
    | inl missing ↦ rw missing (refl, unread-Deleted (rw missing refl))
    | inr (p, here) ↦ elim (Bool-cases (is_live rid.slot_id p)) [
      | inl live ↦
          rw (here, live)
            (
              refl,
              record {
                sound =
                    put_page-IsSound t sound rid.page_id p _ here
                      (deleted-IsValidPage rid.slot_id p (sound.valid rid.page_id p here) live);
                chain = put_page-IsChain t sound rid.page_id p _ here (next_same p);
                heads = (refl, refl);
                reads =
                    get_tuple-put_page t sound rid.page_id p _ here rid.slot_id none
                      (read_slot-deleted rid.slot_id p (sound.valid rid.page_id p here) live);
              },
            )
      | inr dead ↦ rw (here, dead) (refl, unread-Deleted (rw (here, dead) refl))
    ]
  ]
