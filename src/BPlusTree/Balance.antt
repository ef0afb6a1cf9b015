-- ===== src/BPlusTree/Balance.antt =====
-- When a page with too few pairs does not fit into one page with a sibling.
use dbplayground.Base.{◌<◌, ◌≡◌, false, arith, inl, inr, Bool-cases}
use dbplayground.BPlusTree.{Node, Setup, is_leaf, size_of, fit_one, min_size}
use dbplayground.KeyOrder.{KeyOrder}

module _ (o : KeyOrder) (s : Setup (o.Key)) where
  open o use {Key}

  -- A page with too few pairs that does not fit into one page with a sibling of its kind has a
  -- sibling that can lend a pair.
  pub fit_one-lends :
      (a b : Node Key)
      → is_leaf a ≡ is_leaf b
      → fit_one s a b ≡ false
      → size_of b < min_size s b
      → min_size s a < size_of a
  unfolding fit_one min_size
  fit_one-lends a b kinds large few = elim (Bool-cases (is_leaf a)) [
    | inl leaves ↦ ground (arith, kinds)
    | inr others ↦ ground (arith, kinds)
  ]
