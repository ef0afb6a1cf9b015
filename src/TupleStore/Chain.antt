-- ===== src/TupleStore/Chain.antt =====
-- The chain of value pages: the walk over it ends, at a page with room if there is one.
use dbplayground.Base.{
  ℕ, zero, suc, ◌≤◌, ◌≡◌, ◌≢◌, ◌⊎◌, inl, inr, refl, sym, subst, Option, none, some, false, leb,
  ◌==◌, arith, Bool-cases,
}
use dbplayground.Base.Result.{ok}
use dbplayground.Disk.{invalid_page_id}
use dbplayground.TupleStore.{ValuePage, TupleStore, free_space, find_page}
use dbplayground.TupleStore.Slots.{IsValidPage}

-- The pages that there are are valid, and those to come are not there.
pub record IsSound (t : TupleStore) : Type 0 where
  pub valid : (id : ℕ) (p : ValuePage) → t.pages id ≡ some p → IsValidPage p
  pub fresh : (id : ℕ) → t.next_page_id ≤ id → t.pages id ≡ none

-- From the page `id` on, a chain of `n` pages at most.
abbrev pub IsChain : (ℕ → Option ValuePage) → ℕ → ℕ → Type 0
IsChain pages zero id = id ≡ invalid_page_id
IsChain pages (suc n) id =
    (id ≡ invalid_page_id)
    ⊎ ((id ≢ invalid_page_id)
        × (p : ValuePage) × (pages id ≡ some p)
        × IsChain pages n p.next_page_id)

pub IsChain-suc :
    (pages : ℕ → Option ValuePage) (n id : ℕ) → IsChain pages n id → IsChain pages (suc n) id
IsChain-suc pages zero id end = inl end
IsChain-suc pages (suc n) id (inl end) = inl end
IsChain-suc pages (suc n) id (inr (valid, p, here, rest)) =
    inr (valid, p, here, IsChain-suc pages n p.next_page_id rest)

-- The chain is the same in a store whose pages have the same next pages.
pub IsChain-same :
    (pages pages' : ℕ → Option ValuePage)
    → ((id : ℕ) (p : ValuePage)
        → pages id ≡ some p
        → (q : ValuePage) × (pages' id ≡ some q) × (q.next_page_id ≡ p.next_page_id))
    → (n id : ℕ) → IsChain pages n id
    → IsChain pages' n id
IsChain-same pages pages' same zero id end = end
IsChain-same pages pages' same (suc n) id (inl end) = inl end
IsChain-same pages pages' same (suc n) id (inr (valid, p, here, rest)) =
    let (q, there, next) = same id p here in
    inr (
      valid,
      q,
      there,
      subst (IsChain pages' n) (sym next) (IsChain-same pages pages' same n p.next_page_id rest),
    )

abbrev pub HasRoom : TupleStore → ℕ → ℕ → Type 0
HasRoom t need id = (p : ValuePage) × (t.pages id ≡ some p) × (need ≤ free_space p)

pub find_page-HasRoom :
    (t : TupleStore) (n need id : ℕ)
    → IsChain t.pages n id
    → (find_page n need id t ≡ ok none)
      ⊎ ((at : ℕ) × (find_page n need id t ≡ ok (some at)) × HasRoom t need at)
unfolding find_page
find_page-HasRoom t zero need id end = inl (rw end refl)
find_page-HasRoom t (suc n) need id (inl end) = inl (rw end refl)
find_page-HasRoom t (suc n) need id (inr (valid, p, here, rest)) =
    let more : (id == invalid_page_id) ≡ false = ground arith in
    elim (Bool-cases (leb need (free_space p))) [
      | inl room ↦ inr (id, rw (more, here, room) refl, (p, here, ground arith))
      | inr full ↦ rw (more, here, full) (find_page-HasRoom t n need p.next_page_id rest)
    ]
