-- ===== src/BPlusTree/Latches.antt =====
-- The pages that a writer still holds when it has come to the leaf.
use dbplayground.Base.{
  ℕ, zero, suc, ◌≡◌, ◌≢◌, ◌⊎◌, refl, List, [], ◌∷◌, ◌++◌, All, back?, back?-append, some, Bool,
  true, false, inl, inr, Bool-cases, Option-cases, if◌then◌else◌,
}
use dbplayground.Base.Result.{Ensures, returned, thrown}
use dbplayground.BPlusTree.{
  Node, leaf, internal, Setup, Tree, OpType, for_read, for_insert, for_remove, is_safe,
}
use dbplayground.BPlusTree.Descent.{Found, held_at, visit, find_leaf_from, find_leaf_page_rw}
use dbplayground.KeyOrder.{KeyOrder}

module _ (o : KeyOrder) (s : Setup (o.Key)) (op : OpType) (t : Tree (o.Key)) where
  open o use {Key}

  -- The page is there, and the test of its being safe says this.
  abbrev pub SafeAs : Bool → ℕ → Type 0
  SafeAs b id = (n : Node Key) × (t.pages id ≡ some n) × (is_safe s op n ≡ b)

  -- The first page is safe or the root, and those below it are not safe.
  abbrev pub AreHeld : List ℕ → Type 0
  AreHeld [] = ⊥
  AreHeld (id ∷ ids) = ((id ≡ t.root_page_id) ⊎ SafeAs true id) × All (SafeAs false) ids

  abbrev AreHeldAbove : ℕ → List ℕ → Type 0
  AreHeldAbove id [] = id ≡ t.root_page_id
  AreHeldAbove id (x ∷ held) = AreHeld (x ∷ held)

  All-last :
      (ids : List ℕ) (id : ℕ)
      → All (SafeAs false) ids
      → SafeAs false id
      → All (SafeAs false) (ids ++ (id ∷ []))
  All-last [] id all last = (last, tt)
  All-last (x ∷ ids) id all last = (all.0, All-last ids id all.1 last)

  held_lem :
      (held : List ℕ) (id : ℕ) (n : Node Key)
      → t.pages id ≡ some n
      → AreHeldAbove id held
      → AreHeld ((if is_safe s op n then [] else held) ++ (id ∷ []))
  held_lem held id n here above = elim (Bool-cases (is_safe s op n)) [
    | inl safe ↦ rw safe (inr (n, here, safe), tt)
    | inr unsafe ↦ rw unsafe (unsafe_lem held above unsafe)
  ]
    where
      unsafe_lem :
          (held : List ℕ)
          → AreHeldAbove id held
          → is_safe s op n ≡ false
          → AreHeld (held ++ (id ∷ []))
      unsafe_lem [] root unsafe = (inl root, tt)
      unsafe_lem (x ∷ held) (first, others) unsafe =
          (first, All-last held id others (n, here, unsafe))

  -- A writer's pages.
  abbrev writer_held : ℕ → Node Key → List ℕ → List ℕ
  writer_held id n held = (if is_safe s op n then [] else held) ++ (id ∷ [])

  held_at_writer :
      (n : Node Key) (id : ℕ) (held : List ℕ)
      → op ≢ for_read
      → held_at o s op n id held ≡ writer_held id n held
  unfolding held_at
  held_at_writer n id held writes =
      elim op
          as (λ p.
            p ≢ for_read
            → held_at o s p n id held ≡ (if is_safe s p n then [] else held) ++ (id ∷ [])) [
              | for_read ↦ λ w. absurd (w refl)
              | for_insert ↦ λ w. refl
              | for_remove ↦ λ w. refl
            ]
        writes

  AreHeld-above : (held : List ℕ) (id : ℕ) → AreHeld held → AreHeldAbove id held
  AreHeld-above [] id h = elim h [ ]
  AreHeld-above (x ∷ held) id h = h

  -- The last page that is held is that of the leaf.
  abbrev pub EndsAtLeaf : Found o → Type 0
  EndsAtLeaf (p, id, held) = AreHeld held × (back? held ≡ some id) × (t.pages id ≡ some (leaf p))

  find_leaf_from-AreHeld :
      (left_most : Bool) (key : Key) (n id : ℕ) (held : List ℕ)
      → op ≢ for_read
      → AreHeldAbove id held
      → Ensures EndsAtLeaf (find_leaf_from o s left_most op key t n id held)
  unfolding find_leaf_from
  find_leaf_from-AreHeld left_most key zero id held writes above = thrown
  find_leaf_from-AreHeld left_most key (suc n) id held writes above =
      elim (Option-cases (t.pages id)) [
        | inl missing ↦ rw missing thrown
        | inr (node, here) ↦
            rw here (go node here (λ i l. find_leaf_from-AreHeld left_most key n i l writes))
      ]
    where
      go :
          (node : Node Key)
          → t.pages id ≡ some node
          → ((i : ℕ) (l : List ℕ)
              → AreHeldAbove i l
              → Ensures EndsAtLeaf (find_leaf_from o s left_most op key t n i l))
          → Ensures EndsAtLeaf (
              visit o s
                (find_leaf_from o s left_most op key t n)
                left_most
                op
                key
                id
                held
                (some node))
      go (leaf p) here below = rw (held_at_writer (leaf p) id held writes) (
          returned (
            held_lem held id (leaf p) here above,
            back?-append (if is_safe s op (leaf p) then [] else held) id,
            here,
          ))
      go (internal p) here below =
          rw (held_at_writer (internal p) id held writes)
            (below _ _ (AreHeld-above _ _ (held_lem held id (internal p) here above)))

  -- A writer that has come to a leaf of any tree holds it last; of the pages it holds the first is
  -- the root or is safe, and none of those below the first is safe.
  pub find_leaf_page_rw-AreHeld :
      (fuel : ℕ) (key : Key) (left_most : Bool)
      → op ≢ for_read
      → Ensures EndsAtLeaf (find_leaf_page_rw o s fuel key left_most op t)
  unfolding find_leaf_page_rw
  find_leaf_page_rw-AreHeld fuel key left_most writes =
      find_leaf_from-AreHeld left_most key fuel t.root_page_id [] writes refl
