-- ===== src/Column.antt =====
-- src/Table/Column.h: the values of one column, packed if they are of a fixed width, and one after
-- the other with the offsets of their ends if they are not.
use dbplayground.Base.{ℕ, ◌+◌, ◌-◌, ◌*◌, ◌%◌, ◌^◌, List, [], ◌∷◌, ◌++◌, length, take, drop, get_or}
use dbplayground.Value.{FieldType}

pub record Column : Type 0 where
  pub type : FieldType
  pub size : ℕ
  pub fixed : List ℕ
  pub offsets : List ℕ
  pub var_bytes : List ℕ

unfoldable pub init : FieldType → Column
init t = record { type = t; size = 0; fixed = []; offsets = 0 ∷ []; var_bytes = [] }

-- `Append` of a value by its bytes in memory.
unfoldable pub append : List ℕ → Column → Column
append bytes c = record c { fixed = c.fixed ++ bytes; size = c.size + 1 }

unfoldable pub append_bytes : List ℕ → Column → Column
append_bytes s c = record c {
  var_bytes = c.var_bytes ++ s;
  offsets = c.offsets ++ (length (c.var_bytes ++ s) % 2 ^ 32 ∷ []);
  size = c.size + 1;
}

-- The bytes of the value `i`, of width `w`.
unfoldable pub get : ℕ → ℕ → Column → List ℕ
get w i c = take w (drop (i * w) c.fixed)

unfoldable pub get_bytes : ℕ → Column → List ℕ
get_bytes i c =
    let start = get_or c.offsets i 0 in
    let end = get_or c.offsets (i + 1) 0 in take (end - start) (drop start c.var_bytes)
