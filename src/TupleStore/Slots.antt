-- ===== src/TupleStore/Slots.antt =====
-- A value page: its slots stay within the page and apart from one another, and each reads back what was
-- put there.
use dbplayground.Base.{
  ℕ, ◌+◌, ◌-◌, ◌*◌, ◌≤◌, ◌<◌, ◌≡◌, ◌≢◌, ◌⊎◌, inl, inr, refl, sym, ◌∙◌, ap, List, [], ◌∷◌, length,
  none, some, true, false, ◌==◌, if◌then◌else◌, put, slice, slice_ext, arith, Bool-cases,
}
use dbplayground.TupleStore.{
  ValuePage, page_size, header_size, slot_size, write_run, add_value, is_live, read_slot,
  init_value_page, free_space,
}

-- What is not in the run stays.
pub write_run_other :
    (at : ℕ) (xs : List ℕ) (bytes : ℕ → ℕ) (j : ℕ)
    → (j < at) ⊎ (at + length xs ≤ j)
    → write_run at xs bytes j ≡ bytes j
unfolding write_run
write_run_other at [] bytes j out = refl
write_run_other at (x ∷ xs) bytes j out =
    write_run_other (at + 1) xs (put bytes at x) j (ground arith) ∙ ground arith

pub slice-write_run :
    (at : ℕ) (xs : List ℕ) (bytes : ℕ → ℕ) → slice (length xs) at (write_run at xs bytes) ≡ xs
unfolding write_run slice
slice-write_run at [] bytes = refl
slice-write_run at (x ∷ xs) bytes =
    rw
      (
        slice-write_run (at + 1) xs (put bytes at x),
        write_run_other (at + 1) xs (put bytes at x) at (inl (omega arith)),
      )
      (ground arith)

pub slice-write_run_other :
    (at : ℕ) (xs : List ℕ) (bytes : ℕ → ℕ) (n from : ℕ)
    → (from + n ≤ at) ⊎ (at + length xs ≤ from)
    → slice n from (write_run at xs bytes) ≡ slice n from bytes
slice-write_run_other at xs bytes n from out =
    slice_ext n from from (write_run at xs bytes) bytes
      λ k less. write_run_other at xs bytes (from + k) (ground arith)

abbrev pub offset_at : ValuePage → ℕ → ℕ
offset_at p i = (p.slots i).offset

abbrev pub length_at : ValuePage → ℕ → ℕ
length_at p i = (p.slots i).length

-- The slots end before the values begin; each value lies in the page, and no two share a byte.
pub record IsValidPage (p : ValuePage) : Type 0 where
  pub room : header_size + p.num_slots * slot_size ≤ p.free_ptr
  pub top : p.free_ptr ≤ page_size
  pub above : (i : ℕ) → is_live i p ≡ true → p.free_ptr ≤ offset_at p i
  pub inside : (i : ℕ) → is_live i p ≡ true → offset_at p i + length_at p i ≤ page_size
  pub apart :
      (i j : ℕ)
      → is_live i p ≡ true
      → is_live j p ≡ true
      → i ≢ j
      → (offset_at p i + length_at p i ≤ offset_at p j)
        ⊎ (offset_at p j + length_at p j ≤ offset_at p i)

pub read_slot_live :
    (i : ℕ) (p : ValuePage)
    → is_live i p ≡ true
    → read_slot i p ≡ some (slice (length_at p i) (offset_at p i) p.bytes)
unfolding read_slot
read_slot_live i p live = rw live refl

pub read_slot_dead : (i : ℕ) (p : ValuePage) → is_live i p ≡ false → read_slot i p ≡ none
unfolding read_slot
read_slot_dead i p dead = rw dead refl

-- A slot that is the same in both pages, over the same bytes.
pub read_slot_same :
    (p q : ValuePage) (i : ℕ)
    → is_live i q ≡ is_live i p
    → q.slots i ≡ p.slots i
    → (is_live i p ≡ true
        → slice (length_at p i) (offset_at p i) q.bytes
          ≡ slice (length_at p i) (offset_at p i) p.bytes)
    → read_slot i q ≡ read_slot i p
read_slot_same p q i lives slots bytes = elim (Bool-cases (is_live i p)) [
  | inl live ↦
      read_slot_live i q (lives ∙ live)
      ∙ rw (ap (λ s. s.offset) slots, ap (λ s. s.length) slots) (ap some (bytes live))
      ∙ sym (read_slot_live i p live)
  | inr dead ↦ read_slot_dead i q (lives ∙ dead) ∙ sym (read_slot_dead i p dead)
]

pub init_value_page-IsValidPage : (next : ℕ) → IsValidPage (init_value_page next)
unfolding init_value_page is_live
init_value_page-IsValidPage next = record {
  room = omega arith;
  top = omega arith;
  above = λ i live. absurd (ground (arith, live));
  inside = λ i live. absurd (ground (arith, live));
  apart = λ i j live. absurd (ground (arith, live));
}

pub free_space_lem :
    (p : ValuePage)
    → IsValidPage p
    → free_space p ≡ p.free_ptr - (header_size + p.num_slots * slot_size)
unfolding free_space
free_space_lem p v = omega (arith, v.room, v.top)

module _ (value : List ℕ) (p : ValuePage) (v : IsValidPage p)
    (fits : slot_size + length value ≤ free_space p) where
  enough : header_size + p.num_slots * slot_size + slot_size + length value ≤ p.free_ptr
  enough = omega (arith, v.room, v.top, fits, free_space_lem p v)

  -- Where the new value is put.
  abbrev q : ValuePage
  q = add_value value p

  q-fields :
      (q.num_slots ≡ p.num_slots + 1)
      × (q.free_ptr ≡ p.free_ptr - length value)
      × (offset_at q p.num_slots ≡ p.free_ptr - length value)
      × (length_at q p.num_slots ≡ length value)
  unfolding add_value
  q-fields = (
    refl,
    omega (arith, v.top, enough),
    ground (arith, v.top, enough),
    ground (arith, v.top, enough),
  )

  q-old : (i : ℕ) → i ≢ p.num_slots → q.slots i ≡ p.slots i
  unfolding add_value
  q-old i other = ground arith

  q-live : (i : ℕ) → i ≢ p.num_slots → is_live i q ≡ is_live i p
  unfolding is_live add_value
  q-live i other = ground arith

  q-live_new : is_live p.num_slots q ≡ true
  unfolding is_live add_value
  q-live_new = ground (arith, v.top, enough)

  q-bytes : q.bytes ≡ write_run (p.free_ptr - length value) value p.bytes
  unfolding add_value
  q-bytes = ap (λ at. write_run at value p.bytes) q-fields.1

  read_new : read_slot p.num_slots q ≡ some value
  read_new =
      read_slot_live p.num_slots q q-live_new
      ∙ rw (q-fields.2, q-fields.3, q-bytes)
          (ap some (slice-write_run (p.free_ptr - length value) value p.bytes))

  read_old : (i : ℕ) → i ≢ p.num_slots → read_slot i q ≡ read_slot i p
  read_old i other = read_slot_same p q i (q-live i other) (q-old i other) λ live. rw q-bytes (
      slice-write_run_other (p.free_ptr - length value) value p.bytes (length_at p i)
        (offset_at p i) (inr (omega (arith, v.above i live, enough))))

  -- The new slot reads back the value, and the others what they read before.
  pub read_slot-add_value :
      (i : ℕ) → read_slot i q ≡ (if i == p.num_slots then some value else read_slot i p)
  read_slot-add_value i = elim (Bool-cases (i == p.num_slots)) [
    | inl new ↦
        let e : i ≡ p.num_slots = ground arith in rw new (ap (λ j. read_slot j q) e ∙ read_new)
    | inr old ↦ rw old (read_old i (λ e. ground arith))
  ]

  q-slot :
      (i : ℕ)
      → is_live i q ≡ true
      → ((i ≡ p.num_slots)
          × (offset_at q i ≡ p.free_ptr - length value)
          × (length_at q i ≡ length value))
        ⊎ ((i ≢ p.num_slots)
            × (is_live i p ≡ true)
            × (offset_at q i ≡ offset_at p i)
            × (length_at q i ≡ length_at p i))
  q-slot i live = elim (Bool-cases (i == p.num_slots)) [
    | inl new ↦
        let e : i ≡ p.num_slots = ground arith in
        inl (e, ap (offset_at q) e ∙ q-fields.2, ap (length_at q) e ∙ q-fields.3)
    | inr old ↦
        let other : i ≢ p.num_slots = λ e. ground arith in
        let same = q-old i other in
        inr (other, sym (q-live i other) ∙ live, ap (λ s. s.offset) same, ap (λ s. s.length) same)
  ]

  q-apart :
      (i j : ℕ)
      → is_live i q ≡ true
      → is_live j q ≡ true
      → i ≢ j
      → (offset_at q i + length_at q i ≤ offset_at q j)
        ⊎ (offset_at q j + length_at q j ≤ offset_at q i)
  q-apart i j live live' distinct = elim (q-slot i live) [
    | inl (e, a, b) ↦ elim (q-slot j live') [
      | inl (e', a', b') ↦ absurd (distinct (e ∙ sym e'))
      | inr (other, old, a', b') ↦ inl (omega (arith, a, b, a', b', v.above j old, enough))
    ]
    | inr (other, old, a, b) ↦ elim (q-slot j live') [
      | inl (e', a', b') ↦ inr (omega (arith, a, b, a', b', v.above i old, enough))
      | inr (other', old', a', b') ↦ elim (v.apart i j old old' distinct) [
        | inl before ↦ inl (omega (arith, a, b, a', b', before))
        | inr after ↦ inr (omega (arith, a, b, a', b', after))
      ]
    ]
  ]

  pub add_value-IsValidPage : IsValidPage q
  add_value-IsValidPage = record {
    room = omega (arith, enough, q-fields.0, q-fields.1);
    top = omega (arith, v.top, enough, q-fields.1);
    above = λ i live. elim (q-slot i live) [
      | inl (e, a, b) ↦ omega (arith, a, q-fields.1)
      | inr (other, old, a, b) ↦ omega (arith, a, v.above i old, q-fields.1)
    ];
    inside = λ i live. elim (q-slot i live) [
      | inl (e, a, b) ↦ omega (arith, a, b, v.top, enough)
      | inr (other, old, a, b) ↦ omega (arith, a, b, v.inside i old)
    ];
    apart = q-apart;
  }
