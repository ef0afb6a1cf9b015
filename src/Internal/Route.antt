-- ===== src/Internal/Route.antt =====
-- The lookup in an internal page takes the child whose range of keys has the key; inserting a new
-- child after a split, or removing one after a merge, changes the way only for the keys concerned.
use dbplayground.Base.{
  ℕ, zero, suc, ◌+◌, ◌-◌, ◌<◌, ◌≤◌, ◌≡◌, inl, inr, arith, Bool-cases, ◌∙◌, sym, ap,
}
use dbplayground.KeyOrder.{KeyOrder}
use dbplayground.Internal.{InternalPage, size, key_at, value_at, lookup, lookup_from}

module _ (o : KeyOrder) where
  open o use {Key, less, rank, less_rank}

  abbrev pub rank_at : InternalPage Key → ℕ → ℕ
  rank_at p i = rank (key_at p i)

  -- The keys from the second pair on go up.
  abbrev pub IsSorted : InternalPage Key → Type 0
  IsSorted p = (i j : ℕ) → 1 ≤ i → i < j → j < size p → rank_at p i < rank_at p j

  -- The child `i` is for the keys from its own on and below that of the next child.
  pub record Routes (p : InternalPage Key) (key : Key) (i : ℕ) : Type 0 where
    pub inside : i < size p
    pub from : 1 ≤ i → rank_at p i ≤ rank key
    pub below : i + 1 < size p → rank key < rank_at p (i + 1)

  module _ (p : InternalPage Key) (key : Key) (sorted : IsSorted p) where
    lookup_from-Routes :
        (n i : ℕ)
        → 1 ≤ i
        → i + n ≡ size p
        → (2 ≤ i → rank_at p (i - 1) ≤ rank key)
        → (c : ℕ) × Routes p key c × (lookup_from o n i p key ≡ value_at p c)
    unfolding lookup_from
    lookup_from-Routes zero i low end passed = (
      i - 1,
      record {
        inside = omega arith;
        from = λ h. passed (omega arith);
        below = λ h. absurd (omega arith);
      },
      ap (value_at p) (omega arith),
    )
    lookup_from-Routes (suc n) i low end passed = elim (Bool-cases (less key (key_at p i))) [
      | inl here ↦ (
        i - 1,
        record {
          inside = omega arith;
          from = λ h. passed (omega arith);
          below = λ h. ground (arith, less_rank key (key_at p i));
        },
        rw here,
      )
      | inr later ↦ rw later (
          lookup_from-Routes n (i + 1) (omega arith) (omega arith)
            (λ h. ground (arith, less_rank key (key_at p i))))
    ]

    Routes-unique : (i j : ℕ) → Routes p key i → Routes p key j → i ≡ j
    Routes-unique i j a b = ground (
      arith,
      a.inside,
      b.inside,
      a.from,
      b.from,
      a.below,
      b.below,
      sorted (i + 1) j,
      sorted (j + 1) i,
    )

    -- The lookup in a sorted internal page that is not empty finds the child whose range of keys
    -- has the key, and there is one such child.
    pub lookup-Routes :
        1 ≤ size p
        → (c : ℕ) × Routes p key c
          × (lookup o p key ≡ value_at p c)
          × ((i : ℕ) → Routes p key i → i ≡ c)
    unfolding lookup
    lookup-Routes h =
        let (c, routes, found) =
          lookup_from-Routes (size p - 1) 1 (omega arith) (omega arith)
            (λ k. absurd (omega arith)) in
        (c, routes, found, λ i r. Routes-unique i c r routes)

    pub lookup_at : (i : ℕ) → Routes p key i → lookup o p key ≡ value_at p i
    lookup_at i r =
        let (c, routes, found, only) = lookup-Routes (omega (arith, r.inside)) in
        found ∙ ap (value_at p) (sym (only i r))
