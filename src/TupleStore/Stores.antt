-- ===== src/TupleStore/Stores.antt =====
-- Changes to one page of the store, and a new page, as changes to what each record id reads.
use dbplayground.Base.{
  ℕ, suc, ◌+◌, ◌≤◌, ◌≡◌, ◌≢◌, inl, inr, refl, sym, ◌∙◌, ap, subst, List, length, Option, none, some,
  Bool, true, false, ◌&&◌, ◌==◌, if◌then◌else◌, put, arith, Bool-cases,
}
use dbplayground.Disk.{invalid_page_id}
use dbplayground.Rid.{Rid}
use dbplayground.TupleStore.{
  ValuePage, TupleStore, slot_size, free_space, init_value_page, add_value, put_page, get_tuple,
  is_live, read_slot,
}
use dbplayground.TupleStore.Slots.{
  IsValidPage, init_value_page-IsValidPage, add_value-IsValidPage, read_slot-add_value,
}
use dbplayground.TupleStore.Chain.{IsSound, IsChain, IsChain-same}

abbrev pub is_rid : Rid → Rid → Bool
is_rid a b = a.page_id == b.page_id && a.slot_id == b.slot_id

abbrev pub rid_at : ℕ → ℕ → Rid
rid_at id i = record { page_id = id; slot_id = i }

-- A change to one page.
module _ (t : TupleStore) (sound : IsSound t) (id : ℕ) (p q : ValuePage)
    (here : t.pages id ≡ some p) where
  pub put_page-IsSound : IsValidPage q → IsSound (put_page id q t)
  put_page-IsSound v = record {
    valid = λ i r there. elim (Bool-cases (i == id)) [
      | inl same ↦
          let at : put t.pages id (some q) i ≡ some q = ground arith in
          let e : q ≡ r = cc in subst IsValidPage e v
      | inr other ↦ sound.valid i r (ground (arith, there))
    ];
    fresh = λ i later.
        let old = sound.fresh i later in
        elim (Bool-cases (i == id)) [
          | inl same ↦
              let e : i ≡ id = ground arith in absurd (ground (arith, ap t.pages e, old, here))
          | inr other ↦ ground (arith, old)
        ];
  }

  pub put_page-IsChain :
      q.next_page_id ≡ p.next_page_id
      → (n first : ℕ) → IsChain t.pages n first
      → IsChain (put t.pages id (some q)) n first
  put_page-IsChain next = IsChain-same t.pages (put t.pages id (some q)) λ i r there.
      elim (Bool-cases (i == id)) [
        | inl same ↦
            let e : i ≡ id = ground arith in
            let rp : r ≡ p = cc in (q, ground arith, next ∙ ap (λ l. l.next_page_id) (sym rp))
        | inr other ↦ (r, ground (arith, there), refl)
      ]

  -- If the page reads something else at one slot only, so does the store at one record id.
  pub get_tuple-put_page :
      (i : ℕ) (x : Option (List ℕ))
      → ((j : ℕ) → read_slot j q ≡ (if j == i then x else read_slot j p))
      → (r : Rid)
      → get_tuple r (put_page id q t) ≡ (if is_rid r (rid_at id i) then x else get_tuple r t)
  unfolding get_tuple
  get_tuple-put_page i x reads r = elim (Bool-cases (r.page_id == id)) [
    | inl same ↦
        let e : r.page_id ≡ id = ground arith in
        let put_there : (id == r.page_id) ≡ true = ground arith in
        rw (same, put_there, ap t.pages e ∙ here) (reads r.slot_id)
    | inr other ↦
        let not_there : (id == r.page_id) ≡ false = ground arith in rw (other, not_there) refl
  ]

-- What a call that puts a value leaves: a sound store, whose chain has one page more at most, and in
-- which one record id, which read nothing, reads the value.
pub record PutAt (t : TupleStore) (fuel : ℕ) (value : List ℕ) (rid : Rid) (t' : TupleStore)
    : Type 0 where
  pub sound : IsSound t'
  pub chain : IsChain t'.pages (suc fuel) t'.first_page_id
  pub unread : get_tuple rid t ≡ none
  pub reads : (r : Rid) → get_tuple r t' ≡ (if is_rid r rid then some value else get_tuple r t)

module _ (t : TupleStore) (sound : IsSound t) (id : ℕ) (p : ValuePage) (here : t.pages id ≡ some p)
    (value : List ℕ) (room : slot_size + length value ≤ free_space p) where
  abbrev after : TupleStore
  after = put_page id (add_value value p) t

  add_value-next : (add_value value p).next_page_id ≡ p.next_page_id
  unfolding add_value
  add_value-next = refl

  after-IsSound : IsSound after
  after-IsSound =
      put_page-IsSound t sound id p (add_value value p) here
        (add_value-IsValidPage value p (sound.valid id p here) room)

  after-unread : get_tuple (rid_at id p.num_slots) t ≡ none
  unfolding get_tuple read_slot is_live
  after-unread = rw here (ground arith)

  pub after-PutAt :
      (fuel : ℕ)
      → IsChain t.pages (suc fuel) t.first_page_id
      → PutAt t fuel value (rid_at id p.num_slots) after
  after-PutAt fuel chain = record {
    sound = after-IsSound;
    chain =
        put_page-IsChain t sound id p (add_value value p) here add_value-next (suc fuel)
          t.first_page_id chain;
    unread = after-unread;
    reads =
        get_tuple-put_page t sound id p (add_value value p) here p.num_slots (some value)
          (read_slot-add_value value p (sound.valid id p here) room);
  }

-- A new page at the head of the chain.
module _ (t : TupleStore) (sound : IsSound t) where
  abbrev pub grown : TupleStore
  grown = record {
    first_page_id = t.next_page_id;
    next_page_id = t.next_page_id + 1;
    pages = put t.pages t.next_page_id (some (init_value_page t.first_page_id));
  }

  pub grown-IsSound : IsSound grown
  grown-IsSound = record {
    valid = λ i r there. elim (Bool-cases (t.next_page_id == i)) [
      | inl same ↦
          let at : grown.pages i ≡ some (init_value_page t.first_page_id) = rw same refl in
          let e : init_value_page t.first_page_id ≡ r = cc in
          subst IsValidPage e (init_value_page-IsValidPage t.first_page_id)
      | inr other ↦ sound.valid i r (rw other at there)
    ];
    fresh = λ i later.
        let other : (t.next_page_id == i) ≡ false = ground arith in
        rw other (sound.fresh i (omega arith));
  }

  get_tuple-grown : (r : Rid) → get_tuple r grown ≡ get_tuple r t
  unfolding get_tuple read_slot is_live init_value_page
  get_tuple-grown r = elim (Bool-cases (t.next_page_id == r.page_id)) [
    | inl same ↦
        let none_yet = sound.fresh r.page_id (ground arith) in rw (same, none_yet) (ground arith)
    | inr other ↦ rw other refl
  ]

  pub grown-IsChain :
      (n : ℕ)
      → t.next_page_id ≢ invalid_page_id
      → IsChain t.pages n t.first_page_id
      → IsChain grown.pages (suc n) t.next_page_id
  unfolding init_value_page
  grown-IsChain n valid chain = inr (
    valid,
    init_value_page t.first_page_id,
    ground arith,
    IsChain-same t.pages grown.pages
        (λ i p here.
          let other : (t.next_page_id == i) ≡ false = elim (Bool-cases (t.next_page_id == i)) [
            | inl same ↦ absurd (ground (arith, sound.fresh i (ground arith), here))
            | inr other ↦ other
          ] in
          (p, rw other here, refl))
        n t.first_page_id chain,
  )

  -- What was put in the store after a page was added was put in the store.
  pub grown-PutAt :
      {fuel : ℕ} {value : List ℕ} {rid : Rid} {t' : TupleStore}
      → PutAt grown fuel value rid t'
      → PutAt t fuel value rid t'
  grown-PutAt {rid} put' = record {
    sound = put'.sound;
    chain = put'.chain;
    unread = sym (get_tuple-grown rid) ∙ put'.unread;
    reads = λ r. rw (sym (get_tuple-grown r)) (put'.reads r);
  }
