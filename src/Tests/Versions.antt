-- ===== src/Tests/Versions.antt =====
-- The metadata store on a small input: two writers race for version 1 of key 5.
use dbplayground.Base.{ℕ, some, ◌≡◌, refl, none, arith, ◌==◌}
use dbplayground.Metadata.{
  applied, precondition_failed, Entry, Store, init, put_if_absent, put_at, exchange_at, write_next,
  compare_exchange, delete_for_test,
}
use dbplayground.Metadata.Versions.{
  Reach, here, next, put, delete, IsFresh, Reach-IsFresh, stale_exchange,
}

abbrev shared : Store ℕ ℕ
shared = (put_if_absent ◌==◌ 5 100 init).0

shared-Reach : Reach ◌==◌ init shared
unfolding init
shared-Reach = next here (put 5 100 (omega arith))

abbrev first : Entry ℕ
first = record { value = 100; version = 1 }

shared_entry : shared.entries 5 ≡ some first
unfolding init put_if_absent
shared_entry = refl

abbrev won : Store ℕ ℕ
won = (compare_exchange ◌==◌ 5 1 101 shared).0

-- Afterwards the key is deleted and put again.
abbrev again : Store ℕ ℕ
again = (put_if_absent ◌==◌ 5 102 (delete_for_test ◌==◌ 5 won)).0

to_again : Reach ◌==◌ won again
unfolding init put_if_absent put_at exchange_at write_next compare_exchange delete_for_test
to_again = next (next here (delete 5)) (put 5 102 (omega arith))

won_counter : shared.next_version ≡ 2
unfolding init put_if_absent
won_counter = refl

won_applied : (compare_exchange ◌==◌ 5 1 101 shared).1 ≡ applied
unfolding init put_if_absent compare_exchange
won_applied = refl

shared-IsFresh : IsFresh ◌==◌ shared
shared-IsFresh = Reach-IsFresh ◌==◌ shared-Reach

stale_exchange_example : compare_exchange ◌==◌ 5 1 103 again ≡ (again, precondition_failed, none)
stale_exchange_example =
    stale_exchange ◌==◌ 5 1 101 103 shared refl shared-IsFresh (omega (arith, won_counter))
      won_applied to_again
