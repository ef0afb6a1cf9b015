-- ===== src/Rid.antt =====
-- src/Common/RID.h: a record's place. The int64 form is a bit pattern, and so is the int32 page id.
use dbplayground.Base.{ℕ, ◌+◌, ◌*◌, ◌/◌, ◌%◌, ◌^◌, ◌<◌, ◌≡◌, arith}

pub record Rid : Type 0 where
  pub page_id : ℕ
  pub slot_id : ℕ

-- `RID(int64_t)`: the shift keeps the high word, the cast the low one.
unfoldable pub of_int64 : ℕ → Rid
of_int64 rid = record { page_id = rid / 2 ^ 32 % 2 ^ 32; slot_id = rid % 2 ^ 32 }

unfoldable pub get : Rid → ℕ
get r = (r.page_id * 2 ^ 32 % 2 ^ 64 + r.slot_id) % 2 ^ 64

pub of_int64-get : (r : Rid) → r.page_id < 2 ^ 32 → r.slot_id < 2 ^ 32 → of_int64 (get r) ≡ r
unfolding of_int64 get
of_int64-get r p q = ground arith

-- A page id and a slot of 32 bits and the int64 that packs them determine one another.
pub rid_round_trip :
    (r : Rid) (n : ℕ)
    → r.page_id < 2 ^ 32
    → r.slot_id < 2 ^ 32
    → n < 2 ^ 64
    → (of_int64 (get r) ≡ r) × (get (of_int64 n) ≡ n)
unfolding of_int64 get
rid_round_trip r n p q h = (of_int64-get r p q, omega arith)
