-- ===== src/Distance.antt =====
-- `MinEditDist::editDistance` of include/recommander/minDistance.h. A cell of the table that is
-- out of bounds or not yet written is `none`. The sizes are taken to fit an `int`.
pub mod Loops
pub mod Edits
pub mod Minimal
pub mod Zero
mod Runs
use simple_search_enginer.Prelude.{
  ℕ, zero, suc, ◌+◌, ◌≡◌, Bool, ◌&&◌, Option, none, some, List, [], ◌∷◌, Bytes, Bytes_discrete, ltb,
  ite, ◌==◌, if◌then◌else◌, ◌>>=◌,
}
use simple_search_enginer.Utf8.{length?, next_char}

-- `int editDist[rows][cols]`
pub record Table : Type 0 where
  pub rows : ℕ
  pub cols : ℕ
  pub cell : ℕ → ℕ → Option ℕ

unfoldable pub write : ℕ → ℕ → ℕ → Table → Option Table
write i j v t =
    if ltb i t.rows && ltb j t.cols
    then some (record t { cell = λ a b. if a == i && b == j then some v else t.cell a b })
    else none

unfoldable pub triple_min : ℕ → ℕ → ℕ → ℕ
triple_min a b c = if ltb a b then if ltb a c then a else c else if ltb b c then b else c

-- `for (idx = 0; idx <= lhs_len; ++idx) editDist[idx][0] = idx;`, with the rounds left.
unfoldable pub fill_column : ℕ → ℕ → Table → Option Table
fill_column zero idx t = some t
fill_column (suc n) idx t = do t' ← write idx 0 idx t; fill_column n (suc idx) t'

unfoldable pub fill_row : ℕ → ℕ → Table → Option Table
fill_row zero idx t = some t
fill_row (suc n) idx t = do t' ← write 0 idx idx t; fill_row n (suc idx) t'

-- One round of the inner loop, at `(i + 1, j + 1)`.
unfoldable pub relax : ℕ → ℕ → Bytes → Bytes → Table → Option Table
unfolding triple_min
relax i j sublhs subrhs t = do
  left ← t.cell (suc i) j
  up ← t.cell i (suc j)
  corner ← t.cell i j
  write (suc i) (suc j)
      (ite (Bytes_discrete sublhs subrhs) corner (triple_min (left + 1) (up + 1) (corner + 1))) t

-- The inner loop over the rest of `rhs`, with the rounds left.
unfoldable pub row_loop : ℕ → ℕ → ℕ → Bytes → Bytes → Table → Option Table
row_loop zero i j sublhs rhs t = some t
row_loop (suc n) i j sublhs rhs t = do
  (subrhs, rest) ← next_char rhs
  t' ← relax i j sublhs subrhs t
  row_loop n i (suc j) sublhs rest t'

-- The outer loop over the rest of `lhs`.
unfoldable pub table_loop : ℕ → ℕ → ℕ → Bytes → Bytes → Table → Option Table
table_loop zero m i lhs rhs t = some t
table_loop (suc n) m i lhs rhs t = do
  (sublhs, rest) ← next_char lhs
  t' ← row_loop m i 0 sublhs rhs t
  table_loop n m (suc i) rest rhs t'

unfoldable pub edit_distance : Bytes → Bytes → Option ℕ
edit_distance lhs rhs = do
  lhs_len ← length? lhs
  rhs_len ← length? rhs
  t ←
      fill_column (suc lhs_len) 0
        (record { rows = suc lhs_len; cols = suc rhs_len; cell = λ a b. none })
  t' ← fill_row (suc rhs_len) 0 t
  t'' ← table_loop lhs_len rhs_len 0 lhs rhs t'
  t''.cell lhs_len rhs_len
