-- ===== src/MemStorage/Streams.antt =====
-- What was written to a stream is read back from the file.
use dbplayground.Base.{
  ℕ, ◌≡◌, refl, List, [], ◌∷◌, ◌++◌, append_assoc, append-nil, length-append, take-append,
  drop-append, some, Bool, length, if◌then◌else◌, arith, ap, sym, ◌∙◌,
}
use dbplayground.MemStorage.{
  Files, Stream, read_at, open_input, open_output, append, put_file, close,
}

-- The chunks one after the other.
abbrev pub concat : List (List ℕ) → List ℕ
concat [] = []
concat (c ∷ cs) = c ++ concat cs

module _ {Name : Type 0} where
  -- A stream to which the chunks are appended.
  abbrev pub append_all : List (List ℕ) → Stream Name → Stream Name
  append_all [] s = s
  append_all (c ∷ cs) s = append_all cs (append c s)

  append_all_lem :
      (cs : List (List ℕ)) (s : Stream Name)
      → append_all cs s ≡ record s { buf = s.buf ++ concat cs }
  unfolding append
  append_all_lem [] s = ap (λ b. record s { buf = b }) (sym (append-nil s.buf))
  append_all_lem (c ∷ cs) s =
      append_all_lem cs (append c s)
      ∙ ap (λ b. record s { buf = b }) (append_assoc s.buf c (concat cs))

  -- The file that a new stream publishes when it is closed is the chunks that were appended to it,
  -- in their order, and no other file changes; closing the stream again changes nothing.
  pub stream_round_trip :
      (same : Name → Name → Bool) (path : Name) (cs : List (List ℕ)) (files : Files Name) (p : Name)
      → (open_input p (close same (append_all cs (open_output path)) files).1
          ≡ (if same path p then some (concat cs) else open_input p files))
        × (close same
              (close same (append_all cs (open_output path)) files).0
              (close same (append_all cs (open_output path)) files).1
            ≡ close same (append_all cs (open_output path)) files)
  unfolding close put_file open_input open_output
  stream_round_trip same path cs files p = rw append_all_lem (refl, refl)

-- A read of a range that lies in the file delivers its bytes.
pub read_at-append :
    (before range after : List ℕ)
    → read_at (length before) (length range) (before ++ (range ++ after)) ≡ some range
unfolding read_at
read_at-append before range after = ground (
  arith,
  length-append before (range ++ after),
  length-append range after,
  take-append range after,
  drop-append before (range ++ after),
)
