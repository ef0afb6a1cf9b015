-- ===== src/Metadata/Versions.antt =====
-- A version that was exchanged away never comes back, so that no other writer can exchange it too.
use dbplayground.Base.{
  ℕ, ◌+◌, ◌^◌, ◌<◌, ◌≡◌, ◌≢◌, refl, Option, none, some, Bool, true, ◌==◌, arith, inl, inr,
  Bool-cases,
}
use dbplayground.Metadata.{
  applied, precondition_failed, Entry, Store, init, write_next, put_at, put_if_absent, exchange_at,
  compare_exchange, delete_for_test,
}

module _ {K V : Type 0} (same : K → K → Bool) where
  -- A call of a writer, while the counter of the versions does not wrap.
  pub data Step (s : Store K V) : Store K V → Type 0 where
    put :
        (key : K) (value : V)
        → s.next_version + 1 < 2 ^ 64
        → Step s (put_if_absent same key value s).0
    exchange :
        (key : K) (expected : ℕ) (value : V)
        → s.next_version + 1 < 2 ^ 64
        → Step s (compare_exchange same key expected value s).0
    delete : (key : K) → Step s (delete_for_test same key s)

  pub data Reach (s : Store K V) : Store K V → Type 0 where
    here : Reach s s
    next : {t u : Store K V} → Reach s t → Step t u → Reach s u

  -- The store is past the version `n` of the key.
  pub record Past (k : K) (n : ℕ) (s : Store K V) : Type 0 where
    pub older : n < s.next_version
    pub gone : (e : Entry V) → s.entries k ≡ some e → e.version ≢ n

  -- Every version in the store was given out before.
  abbrev pub IsFresh : Store K V → Type 0
  IsFresh s = (k : K) (e : Entry V) → s.entries k ≡ some e → e.version < s.next_version

  write_next-Past :
      (k : K) (n : ℕ) (key : K) (value : V) (s : Store K V)
      → s.next_version + 1 < 2 ^ 64
      → Past k n s
      → Past k n (write_next same key value s)
  unfolding write_next
  write_next-Past k n key value s small p = record {
    older = ground (arith, p.older);
    gone = λ e h. ground (arith, p.older, p.gone e);
  }

  put_at-Past :
      (o : Option (Entry V)) (k : K) (n : ℕ) (key : K) (value : V) (s : Store K V)
      → s.next_version + 1 < 2 ^ 64
      → Past k n s
      → Past k n (put_at same o key value s).0
  unfolding put_at
  put_at-Past none k n key value s small p = write_next-Past k n key value s small p
  put_at-Past (some e) k n key value s small p = p

  exchange_at-Past :
      (o : Option (Entry V)) (k : K) (n : ℕ) (key : K) (expected : ℕ) (value : V) (s : Store K V)
      → s.next_version + 1 < 2 ^ 64
      → Past k n s
      → Past k n (exchange_at same o key expected value s).0
  unfolding exchange_at
  exchange_at-Past none k n key expected value s small p = p
  exchange_at-Past (some e) k n key expected value s small p =
      elim (Bool-cases (e.version == expected)) [
        | inl equal ↦ rw equal (write_next-Past k n key value s small p)
        | inr other ↦ rw other p
      ]

  Step-Past : (k : K) (n : ℕ) {s t : Store K V} → Step s t → Past k n s → Past k n t
  unfolding put_if_absent compare_exchange delete_for_test
  Step-Past k n {s} (put key value small) p = put_at-Past (s.entries key) k n key value s small p
  Step-Past k n {s} (exchange key expected value small) p =
      exchange_at-Past (s.entries key) k n key expected value s small p
  Step-Past k n {s} (delete key) p = record {
    older = p.older;
    gone = λ e h. ground (arith, p.gone e);
  }

  Reach-Past : (k : K) (n : ℕ) {s t : Store K V} → Reach s t → Past k n s → Past k n t
  Reach-Past k n here p = p
  Reach-Past k n (next r step) p = Step-Past k n step (Reach-Past k n r p)

  exchange_at-Past_expected :
      (o : Option (Entry V)) (k : K) (n : ℕ) (value : V) (s : Store K V)
      → same k k ≡ true
      → ((e : Entry V) → o ≡ some e → e.version < s.next_version)
      → s.next_version + 1 < 2 ^ 64
      → (exchange_at same o k n value s).1 ≡ applied
      → Past k n (exchange_at same o k n value s).0
  unfolding exchange_at write_next
  exchange_at-Past_expected none k n value s reflexive fresh small h = absurd (ground arith)
  exchange_at-Past_expected (some e) k n value s reflexive fresh small h =
      elim (Bool-cases (e.version == n)) [
        | inl equal ↦ rw equal (record {
          older = ground (arith, fresh e refl);
          gone = λ e' h'. ground (arith, fresh e refl);
        })
        | inr other ↦ absurd (ground arith)
      ]

  exchange_at_refused :
      (o : Option (Entry V)) (k : K) (n : ℕ) (value : V) (s : Store K V)
      → ((e : Entry V) → o ≡ some e → e.version ≢ n)
      → exchange_at same o k n value s ≡ (s, precondition_failed, none)
  unfolding exchange_at
  exchange_at_refused none k n value s gone = refl
  exchange_at_refused (some e) k n value s gone = ground (arith, gone e refl)

  -- Once a writer has exchanged a version of a key for the next one, in a store whose versions are
  -- all below the next one, no writer can exchange it again, whatever was put, exchanged or
  -- deleted in between while the version counter does not wrap: the call fails and the store
  -- stays.
  pub stale_exchange :
      (k : K) (n : ℕ) (value value' : V) (s : Store K V) {t : Store K V}
      → same k k ≡ true
      → IsFresh s
      → s.next_version + 1 < 2 ^ 64
      → (compare_exchange same k n value s).1 ≡ applied
      → Reach (compare_exchange same k n value s).0 t
      → compare_exchange same k n value' t ≡ (t, precondition_failed, none)
  unfolding compare_exchange
  stale_exchange k n value value' s {t} reflexive fresh small won r =
      let past =
        exchange_at-Past_expected (s.entries k) k n value s reflexive (fresh k) small won in
      exchange_at_refused (t.entries k) k n value' t (Reach-Past k n r past).gone

  write_next-IsFresh :
      (key : K) (value : V) (s : Store K V)
      → s.next_version + 1 < 2 ^ 64
      → IsFresh s
      → IsFresh (write_next same key value s)
  unfolding write_next
  write_next-IsFresh key value s small fresh k e h = ground (arith, fresh k e)

  put_at-IsFresh :
      (o : Option (Entry V)) (key : K) (value : V) (s : Store K V)
      → s.next_version + 1 < 2 ^ 64
      → IsFresh s
      → IsFresh (put_at same o key value s).0
  unfolding put_at
  put_at-IsFresh none key value s small fresh = write_next-IsFresh key value s small fresh
  put_at-IsFresh (some e) key value s small fresh = fresh

  exchange_at-IsFresh :
      (o : Option (Entry V)) (key : K) (expected : ℕ) (value : V) (s : Store K V)
      → s.next_version + 1 < 2 ^ 64
      → IsFresh s
      → IsFresh (exchange_at same o key expected value s).0
  unfolding exchange_at
  exchange_at-IsFresh none key expected value s small fresh = fresh
  exchange_at-IsFresh (some e) key expected value s small fresh =
      elim (Bool-cases (e.version == expected)) [
        | inl equal ↦ rw equal (write_next-IsFresh key value s small fresh)
        | inr other ↦ rw other fresh
      ]

  -- Every version in a store that calls made from the empty one is below the next version, while
  -- the counter does not wrap.
  pub Reach-IsFresh : {t : Store K V} → Reach init t → IsFresh t
  unfolding init put_if_absent compare_exchange delete_for_test
  Reach-IsFresh here = λ k e h. cc
  Reach-IsFresh (next {t} r (put key value small)) =
      put_at-IsFresh (t.entries key) key value t small (Reach-IsFresh r)
  Reach-IsFresh (next {t} r (exchange key expected value small)) =
      exchange_at-IsFresh (t.entries key) key expected value t small (Reach-IsFresh r)
  Reach-IsFresh (next {t} r (delete key)) = λ k e h. ground (arith, Reach-IsFresh r k e)
