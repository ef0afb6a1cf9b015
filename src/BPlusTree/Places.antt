-- ===== src/BPlusTree/Places.antt =====
-- A change to one leaf leaves the ways to the leaves as they are.
use dbplayground.Base.{
  ℕ, zero, suc, ◌+◌, ◌-◌, ◌<◌, ◌≡◌, ◌≢◌, refl, sym, ◌∙◌, ap, subst, List, [], Option, none, some,
  true, false, arith, inl, inr, Bool-cases, if◌then◌else◌, ◌==◌, ltb,
}
use dbplayground.Base.Result.{Result, ok, ◌>>=◌, ok-injective}
use dbplayground.BPlusTree.{Node, leaf, internal, Setup, Tree, OpType, for_read, put_page}
use dbplayground.BPlusTree.Descent.{
  Found, child_for, held_at, visit, find_leaf_from, find_leaf_page_rw, get_value,
}
use dbplayground.BPlusTree.Shape.{IsSearchable, leaf-injective}
use dbplayground.BPlusTree.Search.{Finds, find_leaf_from-Finds, get_value-found}
use dbplayground.Disk.{invalid_page_id}
use dbplayground.Internal
use dbplayground.Internal.{InternalPage, lookup_from}
use dbplayground.KeyOrder.{KeyOrder}
use dbplayground.Leaf
use dbplayground.Leaf.{LeafPage}
use dbplayground.Leaf.Search.{IsSorted}
use dbplayground.Rid.{Rid}

module _ (o : KeyOrder) where
  open o use {Key, less, same, rank, less_rank, same_rank}

  -- The leaf that a descent found, without the pages it holds.
  abbrev pub leaf_of : Result (Found o) → Result (LeafPage Key × ℕ)
  leaf_of r = r >>= λ (p, id, held). ok (p, id)

  lookup_from_same :
      (n i : ℕ) (p : InternalPage Key) (k k' : Key)
      → rank k ≡ rank k'
      → lookup_from o n i p k ≡ lookup_from o n i p k'
  unfolding lookup_from
  lookup_from_same zero i p k k' e = refl
  lookup_from_same (suc n) i p k k' e =
      let tests : less k (Internal.key_at p i) ≡ less k' (Internal.key_at p i) =
        less_rank k (Internal.key_at p i)
        ∙ ap (λ r. ltb r (rank (Internal.key_at p i))) e
        ∙ sym (less_rank k' (Internal.key_at p i)) in
      rw (tests, lookup_from_same n (i + 1) p k k' e) refl

  child_for_same :
      (p : InternalPage Key) (k k' : Key)
      → rank k ≡ rank k'
      → child_for o false k p ≡ child_for o false k' p
  unfolding child_for Internal.lookup
  child_for_same p k k' e = lookup_from_same (Internal.size p - 1) 1 p k k' e

  module _ (s : Setup Key) (t : Tree Key) where
    -- A descent for a key ends at the same leaf, whatever it is for.
    pub find_leaf_from_same :
        (op op' : OpType) (k k' : Key)
        → rank k ≡ rank k'
        → (n id : ℕ) (held held' : List ℕ)
        → leaf_of (find_leaf_from o s false op k t n id held)
          ≡ leaf_of (find_leaf_from o s false op' k' t n id held')
    unfolding find_leaf_from
    find_leaf_from_same op op' k k' e zero id held held' = refl
    find_leaf_from_same op op' k k' e (suc n) id held held' =
        go (find_leaf_from_same op op' k k' e n) (t.pages id)
      where
        go :
            ((at : ℕ) (l l' : List ℕ)
              → leaf_of (find_leaf_from o s false op k t n at l)
                ≡ leaf_of (find_leaf_from o s false op' k' t n at l'))
            → (node : Option (Node Key))
            → leaf_of (visit o s (find_leaf_from o s false op k t n) false op k id held node)
              ≡ leaf_of (visit o s (find_leaf_from o s false op' k' t n) false op' k' id held' node)
        go below none = refl
        go below (some (leaf p)) = refl
        go below (some (internal p)) =
            rw (child_for_same p k k' e) (below (child_for o false k' p) _ _)

    module _ (id : ℕ) (p p' : LeafPage Key) (here : t.pages id ≡ some (leaf p)) where
      -- What was found, once the leaf has changed.
      abbrev changed : Result (Found o) → Result (Found o)
      changed r = r >>= λ (q, at, held). ok (if at == id then p' else q, at, held)

      -- A change to a leaf does not change the way to any leaf.
      find_leaf_from-put_page :
          (k : Key) (n at : ℕ) (held : List ℕ)
          → find_leaf_from o s false for_read k (put_page id (leaf p') t) n at held
            ≡ changed (find_leaf_from o s false for_read k t n at held)
      unfolding find_leaf_from held_at
      find_leaf_from-put_page k zero at held = refl
      find_leaf_from-put_page k (suc n) at held = elim (Bool-cases (id == at)) [
        | inl equal ↦ let same_id : at ≡ id = ground arith in rw (same_id, here) (ground arith)
        | inr other ↦ rw other (go other (find_leaf_from-put_page k n) (t.pages at))
      ]
        where
          go :
              (id == at) ≡ false
              → ((i : ℕ) (l : List ℕ)
                  → find_leaf_from o s false for_read k (put_page id (leaf p') t) n i l
                    ≡ changed (find_leaf_from o s false for_read k t n i l))
              → (node : Option (Node Key))
              → visit o s
                  (find_leaf_from o s false for_read k (put_page id (leaf p') t) n)
                  false
                  for_read
                  k
                  at
                  held
                  node
                ≡ changed (
                    visit o s
                      (find_leaf_from o s false for_read k t n)
                      false
                      for_read
                      k
                      at
                      held
                      node)
          go other below none = refl
          go other below (some (leaf q)) = let e : (at == id) ≡ false = ground arith in rw e refl
          go other below (some (internal q)) = below (child_for o false k q) _

  module _ (s : Setup Key) (fuel h : ℕ) (key : Key) (op : OpType) (t : Tree Key) {p : LeafPage Key}
      {id : ℕ} {held : List ℕ} (enough : h < fuel) (some_root : t.root_page_id ≢ invalid_page_id)
      (w : IsSearchable o t.pages h t.root_page_id)
      (way : find_leaf_page_rw o s fuel key false op t ≡ ok (p, id, held)) (p' : LeafPage Key)
      (x : Option Rid)
      (effect : IsSorted o p
        → (k : Key) → Leaf.lookup o p' k ≡ (if same key k then x else Leaf.lookup o p k)) where
    abbrev after : Tree Key
    after = put_page id (leaf p') t

    -- The descent for the key, as a search makes it.
    Finds-key : Finds o s op key t h t.root_page_id (find_leaf_page_rw o s fuel key false op t)
    unfolding find_leaf_page_rw
    Finds-key = find_leaf_from-Finds o s op key t h fuel t.root_page_id [] enough w

    same_way :
        (k : Key)
        → rank key ≡ rank k
        → leaf_of (find_leaf_page_rw o s fuel key false op t)
          ≡ leaf_of (find_leaf_from o s false for_read k t fuel t.root_page_id [])
    unfolding find_leaf_page_rw
    same_way k e = find_leaf_from_same s t op for_read key k e fuel t.root_page_id [] []

    here : (t.pages id ≡ some (leaf p)) × IsSorted o p
    here =
        let f = Finds-key in
        let same_leaf : (f.page, f.leaf_id, f.held) ≡ (p, id, held) =
          ok-injective (sym f.found ∙ way) in
        (
          subst (λ x. t.pages x.1 ≡ some (leaf x.0)) same_leaf f.there,
          subst (λ x. IsSorted o x.0) same_leaf f.sorted,
        )

    -- What a search for another key finds, from where its descent ends.
    found_after :
        (k : Key)
        → (q : LeafPage Key) × (at : ℕ) × (t.pages at ≡ some (leaf q))
          × (leaf_of (find_leaf_from o s false for_read k t fuel t.root_page_id []) ≡ ok (q, at))
          × (get_value o s fuel k t ≡ ok (Leaf.lookup o q k))
          × (get_value o s fuel k after ≡ ok (Leaf.lookup o (if at == id then p' else q) k))
    found_after k =
        let f = find_leaf_from-Finds o s for_read k t h fuel t.root_page_id [] enough w in
        let now : find_leaf_from o s false for_read k after fuel after.root_page_id []
            ≡ ok (if f.leaf_id == id then p' else f.page, f.leaf_id, f.held) =
          find_leaf_from-put_page s t id p p' here.0 k fuel t.root_page_id [] ∙ rw (f.found) refl in
        (
          f.page,
          f.leaf_id,
          f.there,
          rw (f.found) refl,
          get_value-found o s fuel k t some_root f.found,
          get_value-found o s fuel k after some_root now,
        )

    -- Once the leaf that a descent for the key ended at has changed for that key alone, so have the
    -- searches in the tree.
    pub get_value-put_page :
        (k : Key)
        → get_value o s fuel k (put_page id (leaf p') t)
          ≡ (if same key k then ok x else get_value o s fuel k t)
    get_value-put_page k =
        let (q, at, there, ends, before, now) = found_after k in
        let changed_leaf = effect here.1 k in
        elim (Bool-cases (same key k)) [
          | inl equal ↦
              let ranks : rank key ≡ rank k = ground (arith, same_rank key k) in
              let same_leaf : (p, id) ≡ (q, at) =
                ok-injective (sym (ap leaf_of way) ∙ same_way k ranks ∙ ends) in
              let at_id : (at == id) ≡ true = ground (arith, ap (λ x. x.1) same_leaf) in
              rw equal (now ∙ rw at_id (ap ok (changed_leaf ∙ rw equal refl)))
          | inr other ↦ elim (Bool-cases (at == id)) [
            | inl at_id ↦
                let e : at ≡ id = ground arith in
                let pages : q ≡ p =
                  leaf-injective (subst (λ i. t.pages i ≡ some (leaf q)) e there) here.0 in
                rw other (
                  now
                  ∙ rw at_id (ap ok (changed_leaf ∙ rw other refl))
                  ∙ sym (before ∙ ap (λ l. ok (Leaf.lookup o l k)) pages))
            | inr elsewhere ↦ rw other (now ∙ rw elsewhere (sym before))
          ]
        ]
