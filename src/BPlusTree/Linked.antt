-- ===== src/BPlusTree/Linked.antt =====
-- A tree whose pages are linked as they are read, and the last step of a descent.
use dbplayground.Base.{
  ℕ, zero, suc, ◌<◌, ◌≡◌, ◌≢◌, refl, sym, ◌∙◌, ap, subst, List, none, some, false, arith, inl, inr,
  Bool-cases, ◌==◌,
}
use dbplayground.Base.Result.{ok, ok-injective}
use dbplayground.BPlusTree.{leaf, internal, Setup, Tree, OpType}
use dbplayground.BPlusTree.Descent.{child_for, held_at, find_leaf_from}
use dbplayground.BPlusTree.Shape.{Stored, IsSearchable}
use dbplayground.BPlusTree.Splits.{ParentsAgree, leaf_not_internal}
use dbplayground.Disk.{invalid_page_id}
use dbplayground.Internal.{InternalPage, value_at}
use dbplayground.Rid.{Rid}
use dbplayground.Internal.Route.{IsSorted, Routes, lookup-Routes}
use dbplayground.Internal.Split.{IsInjective}
use dbplayground.KeyOrder.{KeyOrder}
use dbplayground.Leaf.{LeafPage}

module _ (o : KeyOrder) where
  open o use {Key}

  -- The parent ids are right, no page has a child twice, no page has the invalid id, and the next page
  -- is not there yet.
  pub record IsLinked (t : Tree Key) : Type 0 where
    pub agree : ParentsAgree o t
    pub distinct : (id : ℕ) (p : InternalPage Key) → t.pages id ≡ some (internal p) → IsInjective p
    pub valid : t.pages invalid_page_id ≡ none
    pub fresh : t.pages t.next_page_id ≡ none

  -- The page from which the descent for the key comes to the leaf at `id`, and the child taken there.
  pub record LastStep (t : Tree Key) (key : Key) (id : ℕ) : Type 0 where
    pub parent_id : ℕ
    pub parent : InternalPage Key
    pub child : ℕ
    pub there : t.pages parent_id ≡ some (internal parent)
    pub routes : Routes o parent key child
    pub taken : value_at parent child ≡ id
    pub keys : IsSorted o parent
    pub ranges : (k : Key) (value : Rid) → Stored o t.pages 0 id k value → Routes o parent k child

  -- The subtree at a leaf is not high.
  leaf_height :
      (t : Tree Key) (h id : ℕ) {p : LeafPage Key}
      → t.pages id ≡ some (leaf p)
      → IsSearchable o t.pages h id
      → h ≡ 0
  leaf_height t zero id here w = refl
  leaf_height t (suc h) id here (q, there, some_child, keys, below, routes) =
      absurd (leaf_not_internal o here there)

  pub find_leaf_from-LastStep :
      (s : Setup Key) (op : OpType) (key : Key) (t : Tree Key) (h n at : ℕ) (held : List ℕ)
      {p : LeafPage Key} {id : ℕ} {last : List ℕ}
      → at ≢ id
      → h < n
      → IsSearchable o t.pages h at
      → t.pages id ≡ some (leaf p)
      → find_leaf_from o s false op key t n at held ≡ ok (p, id, last)
      → LastStep t key id
  unfolding find_leaf_from child_for
  find_leaf_from-LastStep s op key t h zero at held other enough w here_leaf found =
      absurd (omega arith)
  find_leaf_from-LastStep s op key t zero (suc n) at held {p} {id} {last} other enough
        (q, here, sorted) here_leaf found =
      let ends : (q, at, held_at o s op (leaf q) at held) ≡ (p, id, last) =
        ok-injective (rw here at found) in
      absurd (other (ap (λ x. x.1) ends))
  find_leaf_from-LastStep s op key t (suc h) (suc n) at held {p} {id} {last} other enough
        (q, here, some_child, keys, below, routes) here_leaf found =
      let (c, way, taken, only) = lookup-Routes o q key keys some_child in
      let child = value_at q c in
      let rest : find_leaf_from o s false op key t n child (held_at o s op (internal q) at held)
          ≡ ok (p, id, last) =
        rw taken at (rw here at found) in
      elim (Bool-cases (child == id)) [
        | inl arrived ↦
            let e : child ≡ id = ground arith in
            let low = leaf_height t h child (ap t.pages e ∙ here_leaf) (below c way.inside) in
            record {
              parent_id = at;
              parent = q;
              child = c;
              there = here;
              routes = way;
              taken = e;
              keys = keys;
              ranges = λ k value stored. routes c k value way.inside (
                  subst (λ i. Stored o t.pages i child k value) (sym low)
                    (subst (λ i. Stored o t.pages 0 i k value) (sym e) stored));
            }
        | inr onward ↦
            find_leaf_from-LastStep s op key t h n child (held_at o s op (internal q) at held)
              (λ e. ground arith) (omega arith) (below c way.inside) here_leaf rest
      ]
