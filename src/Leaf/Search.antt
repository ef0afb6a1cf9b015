-- ===== src/Leaf/Search.antt =====
-- The binary search of a leaf page finds where the smaller keys end.
use dbplayground.Base.{ℕ, zero, suc, ◌+◌, ◌-◌, ◌/◌, ◌<◌, ◌≤◌, arith, Bool-cases, inl, inr, ◌==◌}
use dbplayground.KeyOrder.{KeyOrder}
use dbplayground.Leaf.{LeafPage, size, key_at, lower_bound, key_index}

module _ (o : KeyOrder) where
  open o use {Key, less, same, rank, less_rank}

  abbrev pub rank_at : LeafPage Key → ℕ → ℕ
  rank_at p i = rank (key_at o p i)

  -- The keys of the page go up.
  abbrev pub IsSorted : LeafPage Key → Type 0
  IsSorted p = (i j : ℕ) → i < j → j < size p → rank_at p i < rank_at p j

  -- Before `r` all keys of the page are smaller than `key`, and from `r` on none is.
  pub record Splits (p : LeafPage Key) (key : Key) (r : ℕ) : Type 0 where
    pub bound : r ≤ size p
    pub below : (i : ℕ) → i < r → rank_at p i < rank key
    pub above : (i : ℕ) → r ≤ i → i < size p → rank key ≤ rank_at p i

  module _ (p : LeafPage Key) (key : Key) (sorted : IsSorted p) where
    lower_bound-Splits :
        (fuel first n : ℕ)
        → n ≤ fuel
        → first + n ≤ size p
        → ((i : ℕ) → i < first → rank_at p i < rank key)
        → ((i : ℕ) → first + n ≤ i → i < size p → rank key ≤ rank_at p i)
        → Splits p key (lower_bound o fuel first n p key)
    unfolding lower_bound
    lower_bound-Splits zero first n enough inside low high = record {
      bound = omega arith;
      below = low;
      above = λ i h less'. high i (omega arith) less';
    }
    lower_bound-Splits (suc fuel) first n enough inside low high = elim (Bool-cases (n == 0)) [
      | inl done ↦ rw done (record {
        bound = omega arith;
        below = low;
        above = λ i h less'. high i (ground arith) less';
      })
      | inr more ↦ rw more (elim (Bool-cases (less (key_at o p middle) key)) [
        | inl smaller ↦ rw smaller (
            lower_bound-Splits fuel (first + n / 2 + 1) (n - (n / 2 + 1)) (omega arith)
              (ground arith)
              (λ i h. ground (arith, less_rank (key_at o p middle) key, sorted i middle))
              (λ i h less'. high i (ground arith) less'))
        | inr larger ↦ rw larger (
            lower_bound-Splits fuel first (n / 2) (ground arith) (omega arith) low
              (λ i h less'. ground (arith, less_rank (key_at o p middle) key, sorted middle i)))
      ])
    ]
      where
        middle : ℕ
        middle = first + n / 2

    pub key_index-Splits : Splits p key (key_index o p key)
    unfolding key_index
    key_index-Splits =
        lower_bound-Splits (size p) 0 (size p) (omega arith) (omega arith)
          (λ i h. absurd (omega arith)) (λ i h less'. absurd (omega arith))
