-- ===== src/Replacer.antt =====
-- src/Storage/BufferPool/LRUReplacer.{h,cpp}: the frames that may be evicted, the least recently
-- unpinned one first. A list of frames is paired with a map from a frame to its place in the list;
-- of the map the model keeps which keys it has, and the element at the place of `f` is `f`.
pub mod Bounds
pub mod Counts
pub mod Order
use dbplayground.Base.{
  ℕ, Bool, true, false, List, [], ◌∷◌, ◌++◌, Option, none, some, length, erase, leb, ◌==◌, ◌||◌,
  if◌then◌else◌,
}

pub record Replacer : Type 0 where
  pub num_pages : ℕ
  pub pinned_pages : List ℕ
  pub unpinned_pages : List ℕ
  pub pinned_iter_map : ℕ → Bool
  pub unpinned_iter_map : ℕ → Bool

-- `map[f] = ...` and `map.erase(f)`, as far as the keys go.
abbrev pub mark : ℕ → Bool → (ℕ → Bool) → ℕ → Bool
mark f b m g = if f == g then b else m g

unfoldable pub init : ℕ → Replacer
init num_pages = record {
  num_pages = num_pages;
  pinned_pages = [];
  unpinned_pages = [];
  pinned_iter_map = λ _. false;
  unpinned_iter_map = λ _. false;
}

-- `victim_of` is given the list again, to read its front.
unfoldable pub victim_of : List ℕ → Replacer → Replacer × Option ℕ
victim_of [] r = (r, none)
victim_of (f ∷ rest) r = (
  record r { unpinned_pages = rest; unpinned_iter_map = mark f false r.unpinned_iter_map },
  some f,
)

unfoldable pub victim : Replacer → Replacer × Option ℕ
unfolding victim_of
victim r = victim_of r.unpinned_pages r

unfoldable pub pin : ℕ → Replacer → Replacer
pin f r =
    if r.unpinned_iter_map f
    then record r {
      unpinned_pages = erase f r.unpinned_pages;
      unpinned_iter_map = mark f false r.unpinned_iter_map;
      pinned_pages = r.pinned_pages ++ (f ∷ []);
      pinned_iter_map = mark f true r.pinned_iter_map;
    }
    else r

-- The first statement of `Unpin`: the frame leaves the pinned frames, if it is one.
unfoldable pub forget_pinned : ℕ → Replacer → Replacer
forget_pinned f r =
    if r.pinned_iter_map f
    then record r {
      pinned_pages = erase f r.pinned_pages;
      pinned_iter_map = mark f false r.pinned_iter_map;
    }
    else r

-- The rest of `Unpin`.
unfoldable pub unpin_to_back : ℕ → Replacer → Replacer
unpin_to_back f r =
    if r.unpinned_iter_map f || leb r.num_pages (length r.unpinned_pages) then r else record r {
      unpinned_pages = r.unpinned_pages ++ (f ∷ []);
      unpinned_iter_map = mark f true r.unpinned_iter_map;
    }

unfoldable pub unpin : ℕ → Replacer → Replacer
unfolding forget_pinned
unpin f r = unpin_to_back f (forget_pinned f r)

unfoldable pub size : Replacer → ℕ
size r = length r.unpinned_pages
