-- ===== src/BPlusTree/Overflow/Searches.antt =====
-- The searches after an insertion into a full leaf.
use dbplayground.Base.{
  ℕ, suc, ◌+◌, ◌≤◌, ◌<◌, ◌≡◌, ◌≢◌, refl, sym, ◌∙◌, ap, List, [], Option, none, some, Bool, true,
  false, arith, inl, inr, Bool-cases, if◌then◌else◌, ◌==◌,
}
use dbplayground.Base.Result.{Result, err, ok, ◌>>=◌, ok-injective}
use dbplayground.BPlusTree.{internal, Setup, Tree, for_read, for_insert, is_empty}
use dbplayground.BPlusTree.Descent.{Found, find_leaf_from, find_leaf_page_rw, get_value}
use dbplayground.BPlusTree.Insertion.{insert}
use dbplayground.BPlusTree.Linked.{IsLinked}
use dbplayground.BPlusTree.Places.{leaf_of, find_leaf_from_same}
use dbplayground.BPlusTree.Shape.{IsSearchable, leaf-injective}
use dbplayground.BPlusTree.Splits.{Follows, page_of, find_leaf_from-Follows}
use dbplayground.Disk.{invalid_page_id}
use dbplayground.Internal
use dbplayground.Internal.{InternalPage, value_at}
use dbplayground.KeyOrder.{KeyOrder}
use dbplayground.Leaf
use dbplayground.Leaf.{LeafPage}
use dbplayground.Leaf.Change.{lookup-insert}
use dbplayground.Leaf.Parts.{lookup-parts}
use dbplayground.Rid.{Rid}
use dbplayground.BPlusTree.Overflow.{FullCase, here, p₁, p₁-IsSorted}
use dbplayground.BPlusTree.Overflow.Pages.{left, right, middle, after, inserted, cells, did}

module _ (o : KeyOrder) where
  open o use {Key, less, same, rank, same_rank}

  lookup_in : Key → Result (Found o) → Result (Option Rid)
  lookup_in key r = r >>= λ (p, id, held). ok (Leaf.lookup o p key)

  lookup_in-page_of :
      (key : Key) (r : Result (Found o)) {p : LeafPage Key}
      → page_of o r ≡ ok p
      → lookup_in key r ≡ ok (Leaf.lookup o p key)
  unfolding lookup_in
  lookup_in-page_of key (err e) h = cc
  lookup_in-page_of key (ok (q, id, held)) h = ap (λ l. ok (Leaf.lookup o l key)) (ok-injective h)

  get_value-page_of :
      (s : Setup Key) (fuel : ℕ) (key : Key) (t : Tree Key) {p : LeafPage Key}
      → t.root_page_id ≢ invalid_page_id
      → page_of o (find_leaf_from o s false for_read key t fuel t.root_page_id []) ≡ ok p
      → get_value o s fuel key t ≡ ok (Leaf.lookup o p key)
  unfolding get_value find_leaf_page_rw is_empty lookup_in
  get_value-page_of s fuel key t some_root h =
      let nonempty : (t.root_page_id == invalid_page_id) ≡ false = ground arith in
      rw nonempty
        (lookup_in-page_of key (find_leaf_from o s false for_read key t fuel t.root_page_id []) h)

  module _ {s : Setup Key} {n h : ℕ} {key : Key} {value : Rid} {t : Tree Key} {p : LeafPage Key}
      {id : ℕ} {held : List ℕ} (it : FullCase o s n h key value t p id held) where
    open it use {
      enough, some_root, searchable, linked, way, not_root, missing, full, two, frame, room,
    }

    -- The two halves find what the filled leaf finds, and that is what is asked.
    in_halves :
        (k : Key)
        → Leaf.lookup o (if less k (middle o it) then (left o it) else (right o it)) k
          ≡ (if same key k then some value else Leaf.lookup o p k)
    in_halves k =
        push (less k (middle o it))
        ∙ lookup-parts o (p₁ o it) (left o it) (right o it) (p₁-IsSorted o it) (cells o it) k
        ∙ lookup-insert o p key value (here o it).1 k missing
      where
        push :
            (b : Bool)
            → Leaf.lookup o (if b then (left o it) else (right o it)) k
              ≡ (if b then Leaf.lookup o (left o it) k else Leaf.lookup o (right o it) k)
        push true = refl
        push false = refl

    -- A key whose descent ends elsewhere is not the one that was (inserted o it).
    ends_here :
        (k : Key) (f : Follows o s linked.agree (did o it) k (suc n) t.root_page_id [] [])
        → same key k ≡ true
        → id ≡ f.leaf_id
    unfolding find_leaf_page_rw
    ends_here k f equal =
        let e : rank key ≡ rank k = ground (arith, same_rank key k) in
        let same_way : leaf_of o
              (find_leaf_from o s false for_insert key t (suc n) t.root_page_id [])
            ≡ leaf_of o (find_leaf_from o s false for_read k t (suc n) t.root_page_id []) =
          find_leaf_from_same o s t for_insert for_read key k e (suc n) t.root_page_id [] [] in
        let ends : (p, id) ≡ (f.page, f.leaf_id) =
          ok-injective (sym (ap (leaf_of o) way) ∙ same_way ∙ ap (leaf_of o) f.before) in
        ap (λ x. x.1) ends

    searched :
        (k : Key)
        → get_value o s (suc n) k (after o it)
          ≡ (if same key k then ok (some value) else get_value o s (suc n) k t)
    searched k =
        let f =
          find_leaf_from-Follows o s linked.agree (did o it) k h (suc n) t.root_page_id [] []
            not_root enough searchable in
        let before = get_value-page_of s (suc n) k t some_root (ap (page_of o) f.before) in
        let now = get_value-page_of s (suc n) k (after o it) some_root f.after in
        elim (Bool-cases (f.leaf_id == id)) [
          | inl hit ↦
              let e : f.leaf_id ≡ id = ground arith in
              let page : f.page ≡ p = leaf-injective f.there (ap t.pages e ∙ (here o it).0) in
              now
              ∙ rw hit (ap ok (in_halves k) ∙ split_if (same key k) page)
              ∙ ap (λ x. if same key k then ok (some value) else x) (sym before)
          | inr miss ↦ elim (Bool-cases (same key k)) [
            | inl equal ↦ absurd (ground (arith, ends_here k f equal, miss))
            | inr other ↦ rw other (now ∙ rw miss (sym before))
          ]
        ]
      where
        split_if :
            (b : Bool) {q : LeafPage Key}
            → q ≡ p
            → ok (if b then some value else Leaf.lookup o p k)
              ≡ (if b then ok (some value) else ok (Leaf.lookup o q k))
        split_if true e = refl
        split_if false e = ap (λ l. ok (Leaf.lookup o l k)) (sym e)

  -- A key that a tree lacks, whose pages are in order and linked, is inserted into a full leaf, if
  -- the leaf is not the root, its parent has room and the pool has a frame for a new page: the
  -- leaf is split; then a search finds the new value for the key, and for any other key what it
  -- found before; a tree is linked if the parent ids are right, no page has a child twice, no page
  -- has the invalid id, and the next page is not there yet.
  pub get_value-insert_full :
      (s : Setup Key) (n h : ℕ) (key : Key) (value : Rid) (t : Tree Key) {p : LeafPage Key} {id : ℕ}
      {held : List ℕ}
      → h < suc n
      → t.root_page_id ≢ invalid_page_id
      → IsSearchable o t.pages h t.root_page_id
      → IsLinked o t
      → find_leaf_page_rw o s (suc n) key false for_insert t ≡ ok (p, id, held)
      → t.root_page_id ≢ id
      → Leaf.lookup o p key ≡ none
      → Leaf.size p + 1 ≡ s.leaf_max_size
      → 2 ≤ s.leaf_max_size
      → s.has_frame t.next_page_id ≡ true
      → ((parent : InternalPage Key)
          → t.pages p.header.parent_page_id ≡ some (internal parent)
          → Internal.size parent < s.internal_max_size)
      → (t' : Tree Key) × (insert o s (suc n) key value t ≡ ok (true, t'))
        × ((k : Key)
            → get_value o s (suc n) k t'
              ≡ (if same key k then ok (some value) else get_value o s (suc n) k t))
  get_value-insert_full s n h key value t {p} {id} {held} enough some_root w linked way not_root
        missing full two frame room =
      let c : FullCase o s n h key value t p id held = record {
        enough = enough;
        some_root = some_root;
        searchable = w;
        linked = linked;
        way = way;
        not_root = not_root;
        missing = missing;
        full = full;
        two = two;
        frame = frame;
        room = room;
      } in
      (after o c, inserted o c, searched c)
