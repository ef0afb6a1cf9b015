-- ===== src/TupleStore/Changes.antt =====
-- A slot of a value page that is deleted, or whose value is overwritten by one that is no longer.
use dbplayground.Base.{
  ℕ, ◌≤◌, ◌≡◌, ◌≢◌, inl, inr, refl, sym, ◌∙◌, ap, List, length, none, some, true, false, ◌==◌,
  if◌then◌else◌, slice, arith, Bool-cases,
}
use dbplayground.TupleStore.{
  ValuePage, tombstone, write_run, is_live, read_slot, set_length, overwrite,
}
use dbplayground.TupleStore.Slots.{
  IsValidPage, offset_at, length_at, read_slot_live, read_slot_dead, read_slot_same,
  slice-write_run, slice-write_run_other,
}

-- A page whose live slots are some of those of a valid one, each no longer than it was.
shrunk-IsValidPage :
    (p q : ValuePage)
    → IsValidPage p
    → q.num_slots ≡ p.num_slots
    → q.free_ptr ≡ p.free_ptr
    → ((j : ℕ)
        → is_live j q ≡ true
        → (is_live j p ≡ true) × (offset_at q j ≡ offset_at p j) × (length_at q j ≤ length_at p j))
    → IsValidPage q
shrunk-IsValidPage p q v slots free less = record {
  room = omega (arith, v.room, slots, free);
  top = omega (arith, v.top, free);
  above = λ j live. let (old, at, n) = less j live in omega (arith, v.above j old, at, free);
  inside = λ j live. let (old, at, n) = less j live in omega (arith, v.inside j old, at, n);
  apart = λ j k live live' distinct.
      let (old, at, n) = less j live in
      let (old', at', n') = less k live' in
      elim (v.apart j k old old' distinct) [
        | inl before ↦ inl (omega (arith, before, at, at', n, n'))
        | inr after ↦ inr (omega (arith, after, at, at', n, n'))
      ];
}

module _ (i : ℕ) (p : ValuePage) (v : IsValidPage p) (live : is_live i p ≡ true) where
  abbrev deleted : ValuePage
  deleted = set_length i tombstone p

  deleted-live : (j : ℕ) → is_live j deleted ≡ (if j == i then false else is_live j p)
  unfolding is_live set_length
  deleted-live j = ground arith

  deleted-slot : (j : ℕ) → j ≢ i → deleted.slots j ≡ p.slots j
  unfolding set_length
  deleted-slot j other = ground arith

  deleted-bytes : deleted.bytes ≡ p.bytes
  unfolding set_length
  deleted-bytes = refl

  pub deleted-IsValidPage : IsValidPage deleted
  unfolding set_length
  deleted-IsValidPage = shrunk-IsValidPage p deleted v refl refl λ j live'.
      let other : j ≢ i = λ e. ground (arith, deleted-live j) in
      let old : is_live j p ≡ true = ground (arith, deleted-live j) in
      let same = deleted-slot j other in
      (old, ap (λ s. s.offset) same, omega (arith, ap (λ s. s.length) same))

  pub read_slot-deleted : (j : ℕ) → read_slot j deleted ≡ (if j == i then none else read_slot j p)
  read_slot-deleted j = elim (Bool-cases (j == i)) [
    | inl here ↦ rw here (read_slot_dead j deleted (deleted-live j ∙ rw here refl))
    | inr there ↦ rw there (
        read_slot_same p deleted j (deleted-live j ∙ rw there refl)
          (deleted-slot j (λ e. ground arith)) (λ old. same_bytes (length_at p j) (offset_at p j)))
  ]
    where
      same_bytes : (n at : ℕ) → slice n at deleted.bytes ≡ slice n at p.bytes
      same_bytes n at = ap (slice n at) deleted-bytes

  module _ (value : List ℕ) (fits : length value ≤ length_at p i) where
    abbrev replaced : ValuePage
    replaced = overwrite i value p

    replaced-live : (j : ℕ) → is_live j replaced ≡ is_live j p
    unfolding is_live overwrite set_length
    replaced-live j = ground (arith, v.inside i live, fits, live)

    replaced-slot : (j : ℕ) → j ≢ i → replaced.slots j ≡ p.slots j
    unfolding overwrite set_length
    replaced-slot j other = ground arith

    replaced-new : (offset_at replaced i ≡ offset_at p i) × (length_at replaced i ≡ length value)
    unfolding overwrite set_length
    replaced-new = (ground arith, ground (arith, v.inside i live, fits))

    replaced-bytes : replaced.bytes ≡ write_run (offset_at p i) value p.bytes
    unfolding overwrite set_length
    replaced-bytes = refl

    pub replaced-IsValidPage : IsValidPage replaced
    unfolding overwrite set_length
    replaced-IsValidPage = shrunk-IsValidPage p replaced v refl refl λ j live'.
        let old = sym (replaced-live j) ∙ live' in
        elim (Bool-cases (j == i)) [
          | inl here ↦
              let e : j ≡ i = ground arith in
              (
                old,
                ap (offset_at replaced) e ∙ replaced-new.0 ∙ ap (offset_at p) (sym e),
                omega (arith, ap (length_at replaced) e, replaced-new.1, ap (length_at p) e, fits),
              )
          | inr there ↦
              let same = replaced-slot j (λ e. ground arith) in
              (old, ap (λ s. s.offset) same, omega (arith, ap (λ s. s.length) same))
        ]

    pub read_slot-overwrite :
        (j : ℕ) → read_slot j replaced ≡ (if j == i then some value else read_slot j p)
    read_slot-overwrite j = elim (Bool-cases (j == i)) [
      | inl here ↦
          let e : j ≡ i = ground arith in rw here (ap (λ k. read_slot k replaced) e ∙ read_here)
      | inr there ↦ rw there (
          read_slot_same p replaced j (replaced-live j) (replaced-slot j (λ e. ground arith))
            (λ old. elsewhere j (λ e. ground arith) old))
    ]
      where
        read_here : read_slot i replaced ≡ some value
        read_here =
            read_slot_live i replaced (replaced-live i ∙ live)
            ∙ rw (replaced-new.0, replaced-new.1, replaced-bytes)
                (ap some (slice-write_run (offset_at p i) value p.bytes))

        elsewhere :
            (j : ℕ)
            → j ≢ i
            → is_live j p ≡ true
            → slice (length_at p j) (offset_at p j) replaced.bytes
              ≡ slice (length_at p j) (offset_at p j) p.bytes
        elsewhere j other old = rw replaced-bytes (
            slice-write_run_other (offset_at p i) value p.bytes (length_at p j) (offset_at p j)
              (elim (v.apart j i old live other) [
                | inl before ↦ inl before
                | inr after ↦ inr (omega (arith, after, fits))
              ]))
