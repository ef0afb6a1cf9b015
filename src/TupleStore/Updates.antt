-- ===== src/TupleStore/Updates.antt =====
-- An update, in place or by a deletion and a new value.
use dbplayground.Base.{
  ℕ, suc, ◌≤◌, ◌≡◌, ◌≢◌, ◌⊎◌, inl, inr, refl, sym, ◌∙◌, ap, subst, List, length, Option, none, some,
  Bool, true, false, if◌then◌else◌, arith, Bool-cases, Option-cases,
}
use dbplayground.Base.Result.{Result, ok}
use dbplayground.Disk.{invalid_page_id}
use dbplayground.Rid.{Rid}
use dbplayground.TupleStore.{
  ValuePage, TupleStore, max_value_size, put_page, put_tuple, get_tuple, delete_tuple, update_tuple,
  is_live, fits_in_place, overwrite, set_length,
}
use dbplayground.TupleStore.Slots.{length_at}
use dbplayground.TupleStore.Changes.{replaced-IsValidPage, read_slot-overwrite}
use dbplayground.TupleStore.Chain.{IsSound, IsChain, IsChain-suc}
use dbplayground.TupleStore.Stores.{is_rid, put_page-IsSound, put_page-IsChain, get_tuple-put_page}
use dbplayground.TupleStore.Calls.{put_tuple-PutAt, is_rid-eq, delete_tuple-Deleted}

-- The new record id is the old one or read nothing; it reads the value, the old one nothing if it is
-- another, and every other one reads what it read.
pub record Updated (t : TupleStore) (fuel : ℕ) (rid : Rid) (value : List ℕ) (rid' : Rid)
    (t' : TupleStore) : Type 0 where
  pub sound : IsSound t'
  pub chain : IsChain t'.pages (suc fuel) t'.first_page_id
  pub place : (rid' ≡ rid) ⊎ (get_tuple rid' t ≡ none)
  pub reads :
      (r : Rid)
      → get_tuple r t'
        ≡ (if is_rid r rid' then some value else if is_rid r rid then none else get_tuple r t)

module _ (has_frame : ℕ → Bool) (fuel : ℕ) (rid : Rid) (value : List ℕ)
    (small : length value ≤ max_value_size) (t : TupleStore) (sound : IsSound t)
    (chain : IsChain t.pages fuel t.first_page_id) (frame : has_frame t.next_page_id ≡ true)
    (valid : t.next_page_id ≢ invalid_page_id) where
  abbrev Updates : Result (Rid × TupleStore) → Type 0
  Updates result =
      (rid' : Rid) × (t' : TupleStore) × (result ≡ ok (rid', t')) × Updated t fuel rid value rid' t'

  relocated : Updates (put_tuple has_frame fuel value (delete_tuple rid t).1)
  relocated =
      let d = (delete_tuple-Deleted t sound rid).1 in
      let t₁ = (delete_tuple rid t).1 in
      let chain₁ : IsChain t₁.pages fuel t₁.first_page_id =
        subst (IsChain t₁.pages fuel) (sym d.heads.0) (d.chain fuel t.first_page_id chain) in
      let (rid', t', put', at) =
        put_tuple-PutAt has_frame fuel value small t₁ d.sound chain₁
          (ap has_frame d.heads.1 ∙ frame) (λ e. valid (sym d.heads.1 ∙ e)) in
      (
        rid',
        t',
        put',
        record {
          sound = at.sound;
          chain = at.chain;
          place = elim (Bool-cases (is_rid rid' rid)) [
            | inl same ↦ inl (is_rid-eq rid' rid same)
            | inr other ↦ inr (sym (d.reads rid' ∙ rw other refl) ∙ at.unread)
          ];
          reads = λ r. at.reads r ∙ ap (λ x. if is_rid r rid' then some value else x) (d.reads r);
        },
      )

  in_place :
      (p : ValuePage)
      → t.pages rid.page_id ≡ some p
      → fits_in_place rid.slot_id value p ≡ true
      → Updated t fuel rid value rid (put_page rid.page_id (overwrite rid.slot_id value p) t)
  unfolding fits_in_place overwrite set_length
  in_place p here fits =
      let live : is_live rid.slot_id p ≡ true = ground (arith, fits) in
      let short : length value ≤ length_at p rid.slot_id = ground (arith, fits) in
      let page_valid = sound.valid rid.page_id p here in
      record {
        sound =
            put_page-IsSound t sound rid.page_id p _ here
              (replaced-IsValidPage rid.slot_id p page_valid live value short);
        chain =
            put_page-IsChain t sound rid.page_id p (overwrite rid.slot_id value p) here refl
              (suc fuel) t.first_page_id (IsChain-suc t.pages fuel t.first_page_id chain);
        place = inl refl;
        reads = λ r.
            get_tuple-put_page t sound rid.page_id p _ here rid.slot_id (some value)
              (read_slot-overwrite rid.slot_id p page_valid live value short) r
            ∙ twice (is_rid r rid) (get_tuple r t);
      }
    where
      twice :
          (b : Bool) (x : Option (List ℕ))
          → (if b then some value else x) ≡ (if b then some value else if b then none else x)
      twice true x = refl
      twice false x = refl

  -- In a sound store, whose chain is as long as the fuel at most, for a value that a page can hold
  -- and a pool with a frame for a page more, an update returns a record id that reads the value;
  -- it is the old one, or one that read nothing and then the old one reads nothing any more; every
  -- other one reads what it read, and the store stays sound.
  pub update_tuple-Updated : Updates (update_tuple has_frame fuel rid value t)
  unfolding update_tuple
  update_tuple-Updated = elim (Option-cases (t.pages rid.page_id)) [
    | inl missing ↦ rw missing relocated
    | inr (p, here) ↦ elim (Bool-cases (fits_in_place rid.slot_id value p)) [
      | inl fits ↦ rw (here, fits) (rid, _, refl, in_place p here fits)
      | inr large ↦ rw (here, large) relocated
    ]
  ]
