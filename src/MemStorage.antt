-- ===== src/MemStorage.antt =====
-- src/Storage/File/MemStorage.{h,cpp}: files in memory. A stream collects bytes and publishes them when
-- it is closed; a file that is open for reading is a snapshot. Paths are of any type, with the equality
-- of `std::string`; the mutex makes each call one step. A closed stream's buffer was moved away, and is
-- empty.
pub mod Streams
use dbplayground.Base.{
  ℕ, ◌-◌, List, [], ◌∷◌, ◌++◌, Option, none, some, Bool, true, false, ◌||◌, ltb, length, take, drop,
  if◌then◌else◌,
}

pub data CreateFileResult : Type 0 where
  created already_exists retryable_conflict : CreateFileResult

-- `MemInputFile::ReadAt`: `none` is a range outside of the file.
unfoldable pub read_at : ℕ → ℕ → List ℕ → Option (List ℕ)
read_at offset len bytes =
    if ltb (length bytes) offset || ltb (length bytes - offset) len
    then none
    else some (take len (drop offset bytes))

-- The map `files_`.
abbrev pub Files : Type 0 → Type 0
Files Name = Name → Option (List ℕ)

pub record Stream (Name : Type 0) : Type 0 where
  pub path : Name
  pub buf : List ℕ
  pub closed : Bool

module _ {Name : Type 0} where
  unfoldable pub open_input : Name → Files Name → Option (List ℕ)
  open_input path files = files path

  unfoldable pub open_output : Name → Stream Name
  open_output path = record { path = path; buf = []; closed = false }

  unfoldable pub append : List ℕ → Stream Name → Stream Name
  append bytes s = record s { buf = s.buf ++ bytes }

  module _ (same : Name → Name → Bool) where
    unfoldable pub put_file : Name → List ℕ → Files Name → Files Name
    put_file path bytes files p = if same path p then some bytes else files p

    unfoldable pub close : Stream Name → Files Name → Stream Name × Files Name
    unfolding put_file
    close s files =
        if s.closed
        then (s, files)
        else (record s { closed = true; buf = [] }, put_file s.path s.buf files)

    unfoldable pub create_at :
        Option (List ℕ) → Name → List ℕ → Files Name → Files Name × CreateFileResult
    unfolding put_file
    create_at (some old) path bytes files = (files, already_exists)
    create_at none path bytes files = (put_file path bytes files, created)

    unfoldable pub create_if_absent : Name → List ℕ → Files Name → Files Name × CreateFileResult
    unfolding create_at
    create_if_absent path bytes files = create_at (files path) path bytes files

    unfoldable pub delete : Name → Files Name → Files Name
    delete path files p = if same path p then none else files p
