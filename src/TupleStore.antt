-- ===== src/TupleStore.antt =====
-- src/Storage/TupleStore/TupleStore.{h,cpp}: values in slotted pages, which are a chain. A page's
-- header, its slots and its bytes are apart here, where the source lays them over one another; the
-- pages are a function from a page id. Offsets and lengths are of 32 bits, and free space of 64.
pub mod Slots
pub mod Changes
pub mod Chain
pub mod Stores
pub mod Calls
pub mod Updates
use dbplayground.Base.{
  ℕ, zero, suc, ◌+◌, ◌-◌, ◌*◌, ◌%◌, ◌^◌, List, [], ◌∷◌, length, Option, none, some, Bool, true,
  false, not, ◌&&◌, leb, ltb, ◌==◌, if◌then◌else◌, put, slice,
}
use dbplayground.Base.Result.{
  Result, err, ok, ◌>>=◌, too_large, out_of_memory, undefined, out_of_fuel,
}
use dbplayground.Disk.{invalid_page_id}
use dbplayground.Rid.{Rid}

abbrev pub page_size : ℕ
page_size = 16384

-- `sizeof(ValuePageHeader)` and `sizeof(ValueSlot)`.
abbrev pub header_size : ℕ
header_size = 12

abbrev pub slot_size : ℕ
slot_size = 8

abbrev pub tombstone : ℕ
tombstone = 2 ^ 32 - 1

pub record Slot : Type 0 where
  pub offset : ℕ
  pub length : ℕ

pub record ValuePage : Type 0 where
  pub next_page_id : ℕ
  pub num_slots : ℕ
  pub free_ptr : ℕ
  pub slots : ℕ → Slot
  pub bytes : ℕ → ℕ

pub record TupleStore : Type 0 where
  pub first_page_id : ℕ
  pub next_page_id : ℕ
  pub pages : ℕ → Option ValuePage

unfoldable pub free_space : ValuePage → ℕ
free_space p = (p.free_ptr + 2 ^ 64 - (header_size + p.num_slots * slot_size)) % 2 ^ 64

-- A page of zeroes, made the first of a chain.
unfoldable pub init_value_page : ℕ → ValuePage
init_value_page next = record {
  next_page_id = next;
  num_slots = 0;
  free_ptr = page_size;
  slots = λ i. record { offset = 0; length = 0 };
  bytes = λ i. 0;
}

abbrev pub max_value_size : ℕ
max_value_size = page_size - header_size - slot_size

-- `memcpy`, to the offset `at`.
unfoldable pub write_run : ℕ → List ℕ → (ℕ → ℕ) → ℕ → ℕ
write_run at [] bytes = bytes
write_run at (x ∷ xs) bytes = write_run (at + 1) xs (put bytes at x)

abbrev pub put_page : ℕ → ValuePage → TupleStore → TupleStore
put_page id p t = record t { pages = put t.pages id (some p) }

-- The value is put below those of the page, and gets the next slot.
unfoldable pub add_value : List ℕ → ValuePage → ValuePage
unfolding write_run
add_value value p =
    let data_off = (p.free_ptr + 2 ^ 32 - length value % 2 ^ 32) % 2 ^ 32 in
    record {
      next_page_id = p.next_page_id;
      num_slots = p.num_slots + 1;
      free_ptr = data_off;
      slots =
          put p.slots p.num_slots (record { offset = data_off; length = length value % 2 ^ 32 });
      bytes = write_run data_off value p.bytes;
    }

abbrev step_chain : (ℕ → Result (Option ℕ)) → ℕ → ℕ → Option ValuePage → Result (Option ℕ)
step_chain next need id none = err undefined
step_chain next need id (some p) =
    if leb need (free_space p) then ok (some id) else next p.next_page_id

-- The walk over the chain for a page with `need` bytes; a round for each page.
unfoldable pub find_page : ℕ → ℕ → ℕ → TupleStore → Result (Option ℕ)
unfolding free_space
find_page zero need id t = if id == invalid_page_id then ok none else err out_of_fuel
find_page (suc n) need id t =
    if id == invalid_page_id
    then ok none
    else step_chain (λ next. find_page n need next t) need id (t.pages id)

-- `NewPage`, with a parameter that says whether the pool has a frame; the page is the first one.
unfoldable pub create_page : (ℕ → Bool) → TupleStore → Result (ℕ × TupleStore)
unfolding init_value_page
create_page has_frame t =
    let id = t.next_page_id in
    if has_frame id
    then ok (
      id,
      record {
        first_page_id = id;
        next_page_id = id + 1;
        pages = put t.pages id (some (init_value_page t.first_page_id));
      },
    )
    else err out_of_memory

abbrev found_or_create : (ℕ → Bool) → TupleStore → Option ℕ → Result (ℕ × TupleStore)
found_or_create has_frame t (some id) = ok (id, t)
found_or_create has_frame t none = create_page has_frame t

unfoldable pub find_or_create_page_with_space :
    (ℕ → Bool) → ℕ → ℕ → TupleStore → Result (ℕ × TupleStore)
unfolding find_page create_page
find_or_create_page_with_space has_frame fuel need t =
    find_page fuel need t.first_page_id t >>= found_or_create has_frame t

abbrev put_value : List ℕ → ℕ → TupleStore → Option ValuePage → Result (Rid × TupleStore)
put_value value id t none = err undefined
put_value value id t (some p) =
    ok (record { page_id = id; slot_id = p.num_slots }, put_page id (add_value value p) t)

unfoldable pub put_tuple : (ℕ → Bool) → ℕ → List ℕ → TupleStore → Result (Rid × TupleStore)
unfolding find_or_create_page_with_space add_value
put_tuple has_frame fuel value t =
    if ltb max_value_size (length value)
    then err too_large
    else (find_or_create_page_with_space has_frame fuel (slot_size + length value) t >>= λ (id, t').
        put_value value id t' (t'.pages id))

-- The slot is there and not deleted.
unfoldable pub is_live : ℕ → ValuePage → Bool
is_live i p = ltb i p.num_slots && not ((p.slots i).length == tombstone)

unfoldable pub read_slot : ℕ → ValuePage → Option (List ℕ)
unfolding is_live
read_slot i p =
    if is_live i p then some (slice (p.slots i).length (p.slots i).offset p.bytes) else none

abbrev read_in : ℕ → Option ValuePage → Option (List ℕ)
read_in i none = none
read_in i (some p) = read_slot i p

-- `none` is the result false.
unfoldable pub get_tuple : Rid → TupleStore → Option (List ℕ)
unfolding read_slot
get_tuple rid t = read_in rid.slot_id (t.pages rid.page_id)

unfoldable pub set_length : ℕ → ℕ → ValuePage → ValuePage
set_length i n p = record p {
  slots = put p.slots i (record { offset = (p.slots i).offset; length = n });
}

abbrev delete_in : Rid → TupleStore → Option ValuePage → Bool × TupleStore
delete_in rid t none = (false, t)
delete_in rid t (some p) =
    if is_live rid.slot_id p
    then (true, put_page rid.page_id (set_length rid.slot_id tombstone p) t)
    else (false, t)

unfoldable pub delete_tuple : Rid → TupleStore → Bool × TupleStore
unfolding is_live set_length
delete_tuple rid t = delete_in rid t (t.pages rid.page_id)

-- The value goes over the old one.
unfoldable pub overwrite : ℕ → List ℕ → ValuePage → ValuePage
unfolding set_length write_run
overwrite i value p =
    set_length i (length value % 2 ^ 32)
      (record p { bytes = write_run (p.slots i).offset value p.bytes })

unfoldable pub fits_in_place : ℕ → List ℕ → ValuePage → Bool
unfolding is_live
fits_in_place i value p = is_live i p && leb (length value) (p.slots i).length

abbrev update_in :
    (ℕ → Bool) → ℕ → Rid → List ℕ → TupleStore → Option ValuePage → Result (Rid × TupleStore)
update_in has_frame fuel rid value t none = put_tuple has_frame fuel value (delete_tuple rid t).1
update_in has_frame fuel rid value t (some p) =
    if fits_in_place rid.slot_id value p
    then ok (rid, put_page rid.page_id (overwrite rid.slot_id value p) t)
    else put_tuple has_frame fuel value (delete_tuple rid t).1

unfoldable pub update_tuple : (ℕ → Bool) → ℕ → Rid → List ℕ → TupleStore → Result (Rid × TupleStore)
unfolding put_tuple delete_tuple fits_in_place overwrite
update_tuple has_frame fuel rid value t = update_in has_frame fuel rid value t (t.pages rid.page_id)
