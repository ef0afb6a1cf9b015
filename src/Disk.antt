-- ===== src/Disk.antt =====
-- src/Storage/Disk/DiskManager.{h,cpp}: the database file as a list of pages. A page's bytes are of
-- a type of their own, with `blank` for the page of zeros. A `page_id_t` is the bit pattern of an
-- int32, so -1 is `2 ^ 32 - 1`; so is the size of the file, which the source casts to an int. The
-- product of a page id that is not negative with the size of a page is taken as it is: from the id
-- 2 ^ 17 on it overflows an int, which is undefined.
pub mod Reads
use dbplayground.Base.{
  ℕ, zero, suc, ◌+◌, ◌-◌, ◌*◌, ◌/◌, ◌%◌, ◌^◌, List, [], ◌∷◌, Option, none, some, length, get_or,
  ltb, leb, if◌then◌else◌, Bool, true, false,
}

abbrev pub invalid_page_id : ℕ
invalid_page_id = 2 ^ 32 - 1

abbrev pub page_size : ℕ
page_size = 2 ^ 14

-- Of the bit pattern of an int32.
abbrev pub is_negative : ℕ → Bool
is_negative x = leb (2 ^ 31) x

-- The offset of the page is greater than the size of the file.
abbrev pub out_of_range : ℕ → ℕ → Bool
out_of_range page_id size =
    if is_negative page_id
    then (if is_negative size then ltb ((2 ^ 32 - page_id) * page_size) (2 ^ 32 - size) else false)
    else if is_negative size
    then true
    else ltb size (page_id * page_size)

pub record Disk (A : Type 0) : Type 0 where
  pub next_page_id : ℕ
  pub file : List A

module _ {A : Type 0} where
  -- `GetFileSize`: the size in bytes, cast to an int32.
  abbrev pub get_file_size : List A → ℕ
  get_file_size file = length file * page_size % 2 ^ 32

  -- The constructor on a file that holds these pages. A size that is not above 0 leaves the id 0.
  unfoldable pub reopen : List A → Disk A
  reopen file =
      let size = get_file_size file in
      record { next_page_id = if is_negative size then 0 else size / page_size; file = file }

  unfoldable pub allocate_page : Disk A → Disk A × ℕ
  allocate_page d = (record d { next_page_id = (d.next_page_id + 1) % 2 ^ 32 }, d.next_page_id)

  module _ (blank : A) where
    -- `none` is the exception "page id out of range". A seek to a negative offset fails, and the
    -- read then delivers nothing, so that the page is all zeros.
    unfoldable pub read_page : Disk A → ℕ → Option A
    read_page d page_id =
        if out_of_range page_id (get_file_size d.file)
        then none
        else if is_negative page_id
        then some blank
        else some (get_or d.file page_id blank)

    -- A write past the end fills the gap with zeros.
    unfoldable pub write_file : List A → ℕ → A → List A
    write_file [] zero c = c ∷ []
    write_file [] (suc n) c = blank ∷ write_file [] n c
    write_file (x ∷ xs) zero c = c ∷ xs
    write_file (x ∷ xs) (suc n) c = x ∷ write_file xs n c

    -- A seek to a negative offset fails, and so does the write.
    unfoldable pub write_page : Disk A → ℕ → A → Disk A
    unfolding write_file
    write_page d page_id c =
        if is_negative page_id then d else record d { file = write_file d.file page_id c }
