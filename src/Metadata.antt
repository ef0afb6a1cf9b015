-- ===== src/Metadata.antt =====
-- src/Metadata/IMetadataStore.h and src/Metadata/MemMetadataStore.{h,cpp}: values with versions, which
-- are changed by compare and exchange. The version of the source is a number that `std::to_string`
-- writes out; the model keeps the number, since two of them are written alike only if they are equal.
-- Keys and values are of any type, keys with the equality of `std::string`. The mutex makes each call
-- one step.
pub mod Versions
use dbplayground.Base.{ℕ, ◌+◌, ◌%◌, ◌^◌, Option, none, some, Bool, ◌==◌, if◌then◌else◌}

pub data ConditionalWriteResult : Type 0 where
  applied precondition_failed retryable_conflict : ConditionalWriteResult

pub record Entry (V : Type 0) : Type 0 where
  pub value : V
  pub version : ℕ

pub record Store (K V : Type 0) : Type 0 where
  pub entries : K → Option (Entry V)
  pub next_version : ℕ

module _ {K V : Type 0} where
  unfoldable pub init : Store K V
  init = record { entries = λ _. none; next_version = 1 }

  unfoldable pub get : K → Store K V → Option (Entry V)
  get key s = s.entries key

  module _ (same : K → K → Bool) where
    abbrev pub set_entry : K → Option (Entry V) → (K → Option (Entry V)) → K → Option (Entry V)
    set_entry key e entries k = if same key k then e else entries k

    -- `NextVersionLocked`, and the value under it.
    unfoldable pub write_next : K → V → Store K V → Store K V
    write_next key value s = record {
      entries = set_entry key (some (record { value = value; version = s.next_version })) s.entries;
      next_version = (s.next_version + 1) % 2 ^ 64;
    }

    -- What is written to `new_version` is the option beside the result.
    unfoldable pub put_at :
        Option (Entry V) → K → V → Store K V → Store K V × ConditionalWriteResult × Option ℕ
    unfolding write_next
    put_at (some e) key value s = (s, precondition_failed, none)
    put_at none key value s = (write_next key value s, applied, some s.next_version)

    unfoldable pub put_if_absent : K → V → Store K V → Store K V × ConditionalWriteResult × Option ℕ
    unfolding put_at
    put_if_absent key value s = put_at (s.entries key) key value s

    unfoldable pub exchange_at :
        Option (Entry V) → K → ℕ → V → Store K V → Store K V × ConditionalWriteResult × Option ℕ
    unfolding write_next
    exchange_at none key expected value s = (s, precondition_failed, none)
    exchange_at (some e) key expected value s =
        if e.version == expected
        then (write_next key value s, applied, some s.next_version)
        else (s, precondition_failed, none)

    unfoldable pub compare_exchange :
        K → ℕ → V → Store K V → Store K V × ConditionalWriteResult × Option ℕ
    unfolding exchange_at
    compare_exchange key expected value s = exchange_at (s.entries key) key expected value s

    unfoldable pub delete_for_test : K → Store K V → Store K V
    delete_for_test key s = record s { entries = set_entry key none s.entries }
