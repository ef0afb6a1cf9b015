-- ===== src/Tests/Files.antt =====
-- The memory storage on small inputs, with numbers for paths.
use dbplayground.Base.{ℕ, ◌≡◌, List, [], ◌∷◌, none, some, ◌==◌}
use dbplayground.MemStorage.{Files, open_input, open_output, close}
use dbplayground.MemStorage.Streams.{append_all, stream_round_trip}

abbrev files : Files ℕ
files p = none

abbrev chunks : List (List ℕ)
chunks = (1 ∷ 2 ∷ []) ∷ (3 ∷ []) ∷ []

stream_round_trip_example :
    (open_input 7 (close ◌==◌ (append_all chunks (open_output 7)) files).1 ≡ some (1 ∷ 2 ∷ 3 ∷ []))
    × (close ◌==◌
          (close ◌==◌ (append_all chunks (open_output 7)) files).0
          (close ◌==◌ (append_all chunks (open_output 7)) files).1
        ≡ close ◌==◌ (append_all chunks (open_output 7)) files)
stream_round_trip_example = stream_round_trip ◌==◌ 7 chunks files 7
