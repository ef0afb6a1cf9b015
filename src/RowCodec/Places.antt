-- ===== src/RowCodec/Places.antt =====
-- The output positions of the fields, and the change of a column at a position.
use dbplayground.Base.{
  ℕ, zero, suc, ◌+◌, ◌<◌, some, true, put, Option-cases, ◌≡◌, refl, List, [], ◌∷◌, length, ltb,
  ◌==◌, arith, ap, ◌∙◌, All, if◌then◌else◌, Option, none, inl, inr,
}
use dbplayground.Base.Result.{ok}
use dbplayground.Column.{Column}
use dbplayground.RowCodec.{change_projected, change_at, out_positions}

-- The column at a place is changed.
abbrev pub change_nth : ℕ → (Column → Column) → List Column → List Column
change_nth k f [] = []
change_nth zero f (col ∷ cols) = f col ∷ cols
change_nth (suc k) f (col ∷ cols) = col ∷ change_nth k f cols

abbrev pub change_placed : Option ℕ → (Column → Column) → List Column → List Column
change_placed none f cols = cols
change_placed (some k) f cols = change_nth k f cols

-- The place of the last mention of a field, from the place `k` on.
abbrev pub place : ℕ → ℕ → List ℕ → Option ℕ
place k i [] = none
place k i (j ∷ projection) = elim (place (k + 1) i projection) [
  | some r ↦ some r
  | none ↦ if i == j then some k else none
]

length-change_nth :
    (k : ℕ) (f : Column → Column) (cols : List Column) → length (change_nth k f cols) ≡ length cols
length-change_nth k f [] = refl
length-change_nth zero f (col ∷ cols) = refl
length-change_nth (suc k) f (col ∷ cols) = ap suc (length-change_nth k f cols)

change_at-change_nth :
    (k : ℕ) (f : Column → Column) (cols : List Column)
    → k < length cols
    → change_at k f cols ≡ ok (change_nth k f cols)
unfolding change_at
change_at-change_nth k f [] h = absurd (omega arith)
change_at-change_nth zero f (col ∷ cols) h = refl
change_at-change_nth (suc k) f (col ∷ cols) h =
    rw (change_at-change_nth k f cols (omega arith)) refl

-- The positions are those of columns.
abbrev pub AreIn : (ℕ → Option ℕ) → List Column → Type 0
AreIn pos cols = (i k : ℕ) → pos i ≡ some k → k < length cols

pub change_projected-change_placed :
    (o : Option ℕ) (f : Column → Column) (cols : List Column)
    → ((k : ℕ) → o ≡ some k → k < length cols)
    → change_projected o f cols ≡ ok (change_placed o f cols)
unfolding change_projected
change_projected-change_placed none f cols h = refl
change_projected-change_placed (some k) f cols h = change_at-change_nth k f cols (h k refl)

pub AreIn-change_placed :
    (pos : ℕ → Option ℕ) (o : Option ℕ) (f : Column → Column) (cols : List Column)
    → AreIn pos cols
    → AreIn pos (change_placed o f cols)
AreIn-change_placed pos none f cols h = h
AreIn-change_placed pos (some k) f cols h =
    λ i j e. omega (arith, h i j e, length-change_nth k f cols)

pub place-lt :
    (k i r : ℕ) (projection : List ℕ) → place k i projection ≡ some r → r < k + length projection
place-lt k i r [] e = cc e
place-lt k i r (j ∷ projection) e = elim (Option-cases (place (k + 1) i projection)) [
  | inl absent ↦ ground (arith, absent, e)
  | inr (q, found) ↦ ground (arith, found, e, place-lt (k + 1) i q projection found)
]

abbrev or_before : Option ℕ → Option ℕ → Option ℕ
or_before (some r) o = some r
or_before none o = o

or_before-place :
    (k i j : ℕ) (projection : List ℕ) (pos : ℕ → Option ℕ)
    → or_before (place (k + 1) i projection) (put pos j (some k) i)
      ≡ or_before (place k i (j ∷ projection)) (pos i)
or_before-place k i j projection pos = elim (Option-cases (place (k + 1) i projection)) [
  | inl absent ↦ ground (arith, absent)
  | inr (q, found) ↦ ground (arith, found)
]

or_before-none : (o : Option ℕ) → or_before o none ≡ o
or_before-none none = refl
or_before-none (some r) = refl

out_positions_from :
    (n k : ℕ) (projection : List ℕ) (pos : ℕ → Option ℕ)
    → All (λ i. i < n) projection
    → out_positions n k projection pos ≡ ok (λ i. or_before (place k i projection) (pos i))
unfolding out_positions
out_positions_from n k [] pos known = refl
out_positions_from n k (j ∷ projection) pos known =
    let inside : ltb j n ≡ true = ground (arith, known.0) in
    rw inside (
      out_positions_from n (k + 1) projection (put pos j (some k)) known.1
      ∙ (λ m. ok (λ i. or_before-place k i j projection pos m)))

pub out_positions-place :
    (n k : ℕ) (projection : List ℕ)
    → All (λ i. i < n) projection
    → out_positions n k projection (λ _. none) ≡ ok (λ i. place k i projection)
out_positions-place n k projection known =
    out_positions_from n k projection (λ _. none) known
    ∙ (λ m. ok (λ i. or_before-none (place k i projection) m))
