-- ===== src/Disk/Reads.antt =====
-- What is read after a write to the database file.
use dbplayground.Base.{
  ◌+◌, ◌-◌, ◌*◌, ◌%◌, ℕ, zero, suc, ◌^◌, ◌≤◌, ◌<◌, ◌≡◌, refl, List, [], ◌∷◌, none, some, arith,
  length, get_or, if◌then◌else◌, ◌==◌, ◌∙◌, sym, ap, dec_lt, false,
}
use dbplayground.Disk.{Disk, read_page, write_file, write_page}

module _ {A : Type 0} (blank : A) where
  -- The page as the file has it: zeros where it has none. `ReadPage` puts it in a zeroed page.
  abbrev pub stored : Disk A → ℕ → A
  stored d p = elim (read_page blank d p) [ none ↦ blank | some c ↦ c ]

  get_or-write_file :
      (xs : List A) (p q : ℕ) (c : A)
      → get_or (write_file blank xs p c) q blank ≡ (if p == q then c else get_or xs q blank)
  unfolding write_file
  get_or-write_file [] zero zero c = refl
  get_or-write_file [] zero (suc q) c = ground arith
  get_or-write_file [] (suc p) zero c = ground arith
  get_or-write_file [] (suc p) (suc q) c = ground (arith, get_or-write_file [] p q c)
  get_or-write_file (x ∷ xs) zero zero c = refl
  get_or-write_file (x ∷ xs) zero (suc q) c = ground arith
  get_or-write_file (x ∷ xs) (suc p) zero c = ground arith
  get_or-write_file (x ∷ xs) (suc p) (suc q) c = ground (arith, get_or-write_file xs p q c)

  pub length-write_file_le :
      (xs : List A) (p n : ℕ) (c : A) → p < n → length xs ≤ n → length (write_file blank xs p c) ≤ n
  unfolding write_file
  length-write_file_le [] zero n c h k = omega arith
  length-write_file_le [] (suc p) zero c h k = absurd (omega arith)
  length-write_file_le [] (suc p) (suc n) c h k =
      omega (arith, length-write_file_le [] p n c (omega arith) (omega arith))
  length-write_file_le (x ∷ xs) zero n c h k = omega arith
  length-write_file_le (x ∷ xs) (suc p) zero c h k = absurd (omega arith)
  length-write_file_le (x ∷ xs) (suc p) (suc n) c h k =
      omega (arith, length-write_file_le xs p n c (omega arith) (omega arith))

  get_or_beyond : (xs : List A) (p : ℕ) → length xs ≤ p → get_or xs p blank ≡ blank
  get_or_beyond [] p h = refl
  get_or_beyond (x ∷ xs) zero h = absurd (omega arith)
  get_or_beyond (x ∷ xs) (suc p) h = get_or_beyond xs p (omega arith)

  stored-get_or :
      (d : Disk A) (p : ℕ)
      → p < 2 ^ 31
      → length d.file < 2 ^ 17
      → stored d p ≡ get_or d.file p blank
  unfolding read_page
  stored-get_or d p h small =
      let size : length d.file * 2 ^ 14 % 2 ^ 32 ≡ length d.file * 2 ^ 14 = omega (arith, small) in
      ground (arith, small, size, get_or_beyond d.file p)

  stored_negative : (d : Disk A) (p : ℕ) → 2 ^ 31 ≤ p → stored d p ≡ blank
  unfolding read_page
  stored_negative d p h = ground arith

  pub stored_unwritten : (d : Disk A) (p : ℕ) → p < 2 ^ 17 → length d.file ≤ p → stored d p ≡ blank
  stored_unwritten d p h k =
      stored-get_or d p (omega arith) (omega arith) ∙ get_or_beyond d.file p k

  pub file-write_page :
      (d : Disk A) (p : ℕ) (c : A)
      → p < 2 ^ 17
      → (write_page blank d p c).file ≡ write_file blank d.file p c
  unfolding write_page
  file-write_page d p c h = ground arith

  pub next_page_id-write_page :
      (d : Disk A) (p : ℕ) (c : A) → (write_page blank d p c).next_page_id ≡ d.next_page_id
  unfolding write_page
  next_page_id-write_page d p c = ground arith

  -- In a file of fewer than 2 ^ 17 pages, a page whose id is below 2 ^ 17 - 1 reads back from the file as it was written, and no other page
  -- changes, also where the write leaves a gap.
  pub stored-write_page :
      (d : Disk A) (p q : ℕ) (c : A)
      → p + 1 < 2 ^ 17
      → length d.file < 2 ^ 17
      → stored (write_page blank d p c) q ≡ (if p == q then c else stored d q)
  stored-write_page d p q c h small = elim (dec_lt q (2 ^ 31)) [
    | yes k ↦
        let same = file-write_page d p c (omega arith) in
        let fits =
          length-write_file_le d.file p (2 ^ 17 - 1) c (omega arith) (omega (arith, small)) in
        stored-get_or (write_page blank d p c) q k (rw same (omega (arith, fits)))
        ∙ ap (λ l. get_or l q blank) same
        ∙ get_or-write_file d.file p q c
        ∙ ap (λ r. if p == q then c else r) (sym (stored-get_or d q k small))
    | no k ↦
        let apart : (p == q) ≡ false = ground arith in
        let before = stored_negative d q (omega arith) in
        let after = stored_negative (write_page blank d p c) q (omega arith) in
        rw apart (after ∙ sym before)
  ]
