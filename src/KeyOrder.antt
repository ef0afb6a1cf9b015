-- ===== src/KeyOrder.antt =====
-- What the pages of the tree use of a key: the operators `<` and `==` of
-- src/Common/EncodedKey.h. The laws say that they compare by a number.
use dbplayground.Base.{ℕ, ◌≡◌, Bool, ltb, ◌==◌}

pub record KeyOrder : Type 1 where
  pub Key : Type 0
  pub less : Key → Key → Bool
  pub same : Key → Key → Bool
  pub rank : Key → ℕ
  pub less_rank : (a b : Key) → less a b ≡ ltb (rank a) (rank b)
  pub same_rank : (a b : Key) → same a b ≡ (rank a == rank b)
