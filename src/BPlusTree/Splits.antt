-- ===== src/BPlusTree/Splits.antt =====
-- The way to a leaf after the leaf was split and its parent got the new page.
use dbplayground.Base.{
  ℕ, zero, suc, ◌≤◌, ◌<◌, ◌≡◌, ◌≢◌, refl, sym, ◌∙◌, ap, subst, List, Option, none, some, true,
  false, arith, inl, inr, Bool-cases, if◌then◌else◌, ◌==◌, ==_refl,
}
use dbplayground.Base.Result.{Result, ok, ◌>>=◌}
use dbplayground.BPlusTree.{Node, leaf, internal, Setup, Tree, for_read, header_of, parent_in}
use dbplayground.BPlusTree.Descent.{Found, child_for, held_at, find_leaf_from}
use dbplayground.BPlusTree.Shape.{IsSearchable, leaf-injective, internal-injective}
use dbplayground.Internal
use dbplayground.Internal.{InternalPage, value_at}
use dbplayground.Internal.Route.{lookup-Routes}
use dbplayground.KeyOrder.{KeyOrder}
use dbplayground.Leaf.{LeafPage}
use dbplayground.Leaf.Search.{IsSorted}

module _ (o : KeyOrder) where
  open o use {Key, less}

  -- Each child of an internal page has this page for its parent.
  abbrev pub ParentsAgree : Tree Key → Type 0
  ParentsAgree t =
      (id : ℕ) (p : InternalPage Key) (i : ℕ)
      → t.pages id ≡ some (internal p)
      → i < Internal.size p
      → (n : Node Key) × (t.pages (value_at p i) ≡ some n) × ((header_of n).parent_page_id ≡ id)

  abbrev pub page_of : Result (Found o) → Result (LeafPage Key)
  page_of r = r >>= λ (p, id, held). ok p

  pub leaf_not_internal :
      {n : Option (Node Key)} {q : LeafPage Key} {m : InternalPage Key}
      → n ≡ some (leaf q)
      → n ≢ some (internal m)
  leaf_not_internal e f = ground (arith, sym e ∙ f)

  at_leaf :
      (s : Setup Key) (key : Key) (t : Tree Key) (n id : ℕ) (p : LeafPage Key) (held : List ℕ)
      → 1 ≤ n
      → t.pages id ≡ some (leaf p)
      → find_leaf_from o s false for_read key t n id held
        ≡ ok (p, id, held_at o s for_read (leaf p) id held)
  unfolding find_leaf_from
  at_leaf s key t zero id p held more here = absurd (omega arith)
  at_leaf s key t (suc n) id p held more here = rw here refl

  -- The leaf `p` at `id` has become `l` there and `r` at `new_id`, and its parent at `parent_id` has
  -- the new page behind it, from the key `middle` on.
  pub record SplitAt (t t' : Tree Key) (id new_id parent_id : ℕ) (p l r : LeafPage Key)
      (parent parent' : InternalPage Key) (middle : Key) : Type 0 where
    pub was : t.pages id ≡ some (leaf p)
    pub child : p.header.parent_page_id ≡ parent_id
    pub was_parent : t.pages parent_id ≡ some (internal parent)
    pub fresh : t.pages new_id ≡ none
    pub at_left : t'.pages id ≡ some (leaf l)
    pub at_right : t'.pages new_id ≡ some (leaf r)
    pub at_parent : t'.pages parent_id ≡ some (internal parent')
    pub elsewhere : (i : ℕ) → i ≢ id → i ≢ new_id → i ≢ parent_id → t'.pages i ≡ t.pages i
    pub leads :
        (key : Key)
        → Internal.lookup o parent' key ≡ (
            if Internal.lookup o parent key == id
            then if less key middle then id else new_id
            else Internal.lookup o parent key)

  module _ (s : Setup Key) {t t' : Tree Key} {id new_id parent_id : ℕ} {p l r : LeafPage Key}
      {parent parent' : InternalPage Key} {middle : Key} (agree : ParentsAgree t)
      (d : SplitAt t t' id new_id parent_id p l r parent parent' middle) (key : Key) where
    -- What a descent in the old tree ends at, and one in the new tree.
    pub record Follows (n at : ℕ) (held held' : List ℕ) : Type 0 where
      pub page : LeafPage Key
      pub leaf_id : ℕ
      pub last : List ℕ
      pub before : find_leaf_from o s false for_read key t n at held ≡ ok (page, leaf_id, last)
      pub there : t.pages leaf_id ≡ some (leaf page)
      pub sorted : IsSorted o page
      pub after :
          page_of (find_leaf_from o s false for_read key t' n at held')
          ≡ ok (if leaf_id == id then if less key middle then l else r else page)

    leaf-IsSorted : (h at : ℕ) → at ≡ id → IsSearchable o t.pages h at → IsSorted o p
    leaf-IsSorted zero at e (q, here, sorted) =
        subst (IsSorted o) (leaf-injective here (ap t.pages e ∙ d.was)) sorted
    leaf-IsSorted (suc h) at e (q, here, some_child, keys, below, routes) =
        absurd (leaf_not_internal (ap t.pages e ∙ d.was) here)

    -- Both descents go on at the same child, which is not the leaf that was split.
    follow :
        {n at : ℕ} {held held' : List ℕ} (q q' : InternalPage Key) (child : ℕ)
        → t.pages at ≡ some (internal q)
        → t'.pages at ≡ some (internal q')
        → Internal.lookup o q key ≡ child
        → Internal.lookup o q' key ≡ child
        → Follows n child
            (held_at o s for_read (internal q) at held)
            (held_at o s for_read (internal q') at held')
        → Follows (suc n) at held held'
    unfolding find_leaf_from child_for
    follow q q' child here here' taken taken' f = record {
      page = f.page;
      leaf_id = f.leaf_id;
      last = f.last;
      before = rw (here, taken) f.before;
      there = f.there;
      sorted = f.sorted;
      after = rw (here', taken') f.after;
    }

    -- The descent comes to the leaf that was split, by its parent.
    split_here :
        {n at : ℕ} {held held' : List ℕ}
        → 1 ≤ n
        → at ≡ parent_id
        → IsSorted o p
        → (Internal.lookup o parent key == id) ≡ true
        → Follows (suc n) at held held'
    unfolding find_leaf_from child_for
    split_here {n} {at} {held} {held'} more e sorted hit =
        let taken : Internal.lookup o parent key ≡ id = ground arith in
        let led : Internal.lookup o parent' key ≡ (if less key middle then id else new_id) =
          d.leads key ∙ rw hit refl in
        let held₁ = held_at o s for_read (internal parent) at held in
        let held₂ = held_at o s for_read (internal parent') at held' in
        record {
          page = p;
          leaf_id = id;
          last = held_at o s for_read (leaf p) id held₁;
          before =
              rw (ap t.pages e ∙ d.was_parent, taken) (at_leaf s key t n id p held₁ more d.was);
          there = d.was;
          sorted = sorted;
          after =
              rw (ap t'.pages e ∙ d.at_parent, led)
                (elim (Bool-cases (less key middle)) [
                  | inl low ↦
                      rw (low, ==_refl id)
                        (ap page_of (at_leaf s key t' n id l held₂ more d.at_left))
                  | inr high ↦
                      rw (high, ==_refl id)
                        (ap page_of (at_leaf s key t' n new_id r held₂ more d.at_right))
                ]);
        }

    same_page :
        (at : ℕ) {n : Node Key}
        → at ≢ id
        → at ≢ parent_id
        → t.pages at ≡ some n
        → t'.pages at ≡ some n
    same_page at other not_parent here =
        d.elsewhere at other (λ e. ground (arith, sym (ap t.pages e ∙ d.fresh) ∙ here)) not_parent
        ∙ here

    pub find_leaf_from-Follows :
        (h n at : ℕ) (held held' : List ℕ)
        → at ≢ id
        → h < n
        → IsSearchable o t.pages h at
        → Follows n at held held'
    unfolding find_leaf_from
    find_leaf_from-Follows h zero at held held' other enough w = absurd (omega arith)
    find_leaf_from-Follows zero (suc n) at held held' other enough (q, here, sorted) =
        let not_parent : at ≢ parent_id =
          λ e. leaf_not_internal here (ap t.pages e ∙ d.was_parent) in
        let not_id : (at == id) ≡ false = ground arith in
        record {
          page = q;
          leaf_id = at;
          last = held_at o s for_read (leaf q) at held;
          before = rw here refl;
          there = here;
          sorted = sorted;
          after = rw (same_page at other not_parent here, not_id) refl;
        }
    find_leaf_from-Follows (suc h) (suc n) at held held' other enough
          (q, here, some_child, keys, below, routes) =
        let (c, way, taken, only) = lookup-Routes o q key keys some_child in
        let child = value_at q c in
        let down : child ≢ id → (l₁ l₂ : List ℕ) → Follows n child l₁ l₂ = λ away l₁ l₂.
          find_leaf_from-Follows h n child l₁ l₂ away (omega arith) (below c way.inside) in
        elim (Bool-cases (at == parent_id)) [
          | inl is_parent ↦
              let e : at ≡ parent_id = ground arith in
              let same : q ≡ parent = internal-injective here (ap t.pages e ∙ d.was_parent) in
              let taken' : Internal.lookup o parent key ≡ child =
                ap (λ m. Internal.lookup o m key) (sym same) ∙ taken in
              elim (Bool-cases (Internal.lookup o parent key == id)) [
                | inl hit ↦
                    split_here (omega arith) e
                      (leaf-IsSorted h child (ground (arith, taken', hit)) (below c way.inside)) hit
                | inr miss ↦
                    follow q parent' child here (ap t'.pages e ∙ d.at_parent) taken
                      (d.leads key ∙ rw miss taken') (down (λ f. ground (arith, taken', miss)) _ _)
              ]
          | inr inner ↦
              let (m, there, up) = agree at q c here way.inside in
              let away : child ≢ id = λ f.
                let leaf_there : some m ≡ some (leaf p) = sym there ∙ ap t.pages f ∙ d.was in
                let same_parent : at ≡ parent_id = sym up ∙ ap parent_in leaf_there ∙ d.child in
                ground (arith, same_parent, inner) in
              follow q q child here (same_page at other (λ e. ground arith) here) taken taken
                (down away _ _)
        ]
