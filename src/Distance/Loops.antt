-- ===== src/Distance/Loops.antt =====
-- The loops of `editDistance` in include/recommander/minDistance.h fill the table with distances.
use simple_search_enginer.Prelude.{
  ℕ, zero, suc, ◌+◌, ◌≤◌, ◌<◌, ◌≡◌, refl, ap, ◌∙◌, sym, none, some, List, [], ◌∷◌, reverse, arith,
  Bytes, Bytes_discrete, length, drop, min, ite, if◌then◌else◌, ◌==◌, ◌&&◌,
}
use simple_search_enginer.Utf8.Chars.{Splits, done, char, length?-Splits}
use simple_search_enginer.Distance.{
  Table, write, triple_min, fill_column, fill_row, relax, row_loop, table_loop, edit_distance,
}
use simple_search_enginer.Distance.Edits.{
  dist, prefix, prefix_from, prefix-next, prefix-length, length-prefix, dist-nil,
}

triple_min-min : (a b c : ℕ) → triple_min (a + 1) (b + 1) (c + 1) ≡ suc (min a (min b c))
unfolding triple_min
triple_min-min a b c = ground arith

-- The value that the body of the inner loop writes.
cell_value :
    (x y : Bytes) (xs zs : List Bytes)
    → dist (x ∷ xs) (y ∷ zs)
      ≡ ite
          (Bytes_discrete x y)
          (dist xs zs)
          (triple_min (dist (x ∷ xs) zs + 1) (dist xs (y ∷ zs) + 1) (dist xs zs + 1))
unfolding dist
cell_value x y xs zs =
    ground (arith, triple_min-min (dist (x ∷ xs) zs) (dist xs (y ∷ zs)) (dist xs zs))

module _ (height : ℕ) (ys : List Bytes) where
  -- Row `a` holds the distances of `xs` to the prefixes of `ys` up to `j`.
  abbrev RowDone : Table → ℕ → List Bytes → ℕ → Type 0
  RowDone t a xs j = (b : ℕ) → b ≤ j → t.cell a b ≡ some (dist xs (prefix b ys))

  record Filled (t : Table) : Type 0 where
    tall : t.rows ≡ suc height
    wide : t.cols ≡ suc (length ys)
    column : (a : ℕ) → a ≤ height → t.cell a 0 ≡ some a

  -- One round of the inner loop.
  relax_lem :
      (t : Table) (i j : ℕ) (xs rest : List Bytes) (x y : Bytes)
      → Filled t
      → i < height
      → j < length ys
      → drop j ys ≡ y ∷ rest
      → RowDone t i xs (length ys)
      → RowDone t (suc i) (x ∷ xs) j
      → (t' : Table) × (relax i j x y t ≡ some t')
        × Filled t'
        × RowDone t' i xs (length ys)
        × RowDone t' (suc i) (x ∷ xs) (suc j)
  unfolding relax write
  relax_lem t i j xs rest x y filled hi hj at above before =
      let (next, _) = prefix-next j ys rest y at in
      let left = before j (omega arith) in
      let up = above (suc j) (omega arith) in
      let corner = above j (omega arith) in
      (
        record t {
          cell = λ a b.
              if a == suc i && b == suc j
              then some (dist (x ∷ xs) (prefix (suc j) ys))
              else t.cell a b;
        },
        ground (
          arith,
          left,
          up,
          corner,
          filled.tall,
          filled.wide,
          cell_value x y xs (prefix j ys),
          next,
        ),
        record {
          tall = filled.tall;
          wide = filled.wide;
          column = λ a h. ground (arith, filled.column a h);
        },
        λ b h. ground (arith, above b h),
        λ b h. ground (arith, before b),
      )

  -- The inner loop finishes a row.
  row_loop_lem :
      (t : Table) (i j : ℕ) (xs rest : List Bytes) (x text : Bytes)
      → Splits text rest
      → Filled t
      → i < height
      → j + length rest ≡ length ys
      → drop j ys ≡ rest
      → RowDone t i xs (length ys)
      → RowDone t (suc i) (x ∷ xs) j
      → (t' : Table) × (row_loop (length rest) i j x text t ≡ some t')
        × Filled t'
        × RowDone t' (suc i) (x ∷ xs) (length ys)
  unfolding row_loop
  row_loop_lem t i j xs rest x text done filled hi len at above before =
      (t, refl, filled, λ b h. before b (omega arith))
  row_loop_lem t i j xs (y ∷ rest) x text (char e split) filled hi len at above before =
      let (t₁, ran, filled₁, above₁, before₁) =
        relax_lem t i j xs rest x y filled hi (omega arith) at above before in
      let (_, at₁) = prefix-next j ys rest y at in
      let (t', ran', filled', row) =
        row_loop_lem t₁ i (suc j) xs rest x _ split filled₁ hi (omega arith) at₁ above₁ before₁ in
      (t', rw (e, ran) ran', filled', row)

  -- A row begins with a distance to the empty prefix.
  first_cell :
      (t : Table) (i : ℕ) (xs : List Bytes) (x : Bytes)
      → Filled t
      → suc i ≤ height
      → length xs ≡ i
      → RowDone t (suc i) (x ∷ xs) 0
  unfolding prefix_from
  first_cell t i xs x filled hi deep zero h =
      filled.column (suc i) hi ∙ ap some (omega (arith, dist-nil (x ∷ xs)))
  first_cell t i xs x filled hi deep (suc b) h = absurd (omega arith)

  -- The outer loop, from a finished row on.
  table_loop_lem :
      (t : Table) (i : ℕ) (xs rest : List Bytes) (text rhs : Bytes)
      → Splits text rest
      → Splits rhs ys
      → Filled t
      → i + length rest ≡ height
      → length xs ≡ i
      → RowDone t i xs (length ys)
      → (t' : Table) × (table_loop (length rest) (length ys) i text rhs t ≡ some t')
        × RowDone t' height (prefix_from xs (length rest) rest) (length ys)
  unfolding table_loop prefix_from
  table_loop_lem t i xs rest text rhs done split_rhs filled len deep row =
      let e : i ≡ height = omega arith in (t, refl, λ b h. rw (← e) (row b h))
  table_loop_lem t i xs (x ∷ rest) text rhs (char e split) split_rhs filled len deep row =
      let (t₁, ran, filled₁, row₁) =
        row_loop_lem t i 0 xs ys x rhs split_rhs filled (omega arith) (omega arith) refl row
          (first_cell t i xs x filled (omega arith) deep) in
      let (t', ran', row') =
        table_loop_lem t₁ (suc i) (x ∷ xs) rest _ rhs split split_rhs filled₁ (omega arith)
          (omega arith) row₁ in
      (t', rw (e, ran) ran', row')

  -- The first two loops.
  fill_column_lem :
      (t : Table) (n idx : ℕ)
      → idx + n ≡ suc height
      → t.rows ≡ suc height
      → t.cols ≡ suc (length ys)
      → ((a : ℕ) → a < idx → t.cell a 0 ≡ some a)
      → (t' : Table) × (fill_column n idx t ≡ some t') × Filled t'
  unfolding fill_column write
  fill_column_lem t zero idx e tall wide before =
      (t, refl, record { tall = tall; wide = wide; column = λ a h. before a (omega arith) })
  fill_column_lem t (suc n) idx e tall wide before =
      let t₁ = record t { cell = λ a b. if a == idx && b == 0 then some idx else t.cell a b } in
      let (t', ran, filled) =
        fill_column_lem t₁ n (suc idx) (omega arith) tall wide (λ a h. ground (arith, before a)) in
      (t', ground (arith, ran), filled)

  fill_row_lem :
      (t : Table) (n idx : ℕ)
      → idx + n ≡ suc (length ys)
      → Filled t
      → ((b : ℕ) → b < idx → t.cell 0 b ≡ some b)
      → (t' : Table) × (fill_row n idx t ≡ some t')
        × Filled t'
        × ((b : ℕ) → b ≤ length ys → t'.cell 0 b ≡ some b)
  unfolding fill_row write
  fill_row_lem t zero idx e filled before = (t, refl, filled, λ b h. before b (omega arith))
  fill_row_lem t (suc n) idx e filled before =
      let t₁ = record t { cell = λ a b. if a == 0 && b == idx then some idx else t.cell a b } in
      let (t', ran, filled', row) =
        fill_row_lem t₁ n (suc idx) (omega arith)
          (record {
            tall = filled.tall;
            wide = filled.wide;
            column = λ a h. ground (arith, filled.column a h);
          })
          (λ b h. ground (arith, before b)) in
      (t', ground (arith, ran, filled.tall, filled.wide), filled', row)

  dist-nil_left : (b : ℕ) → b ≤ length ys → dist [] (prefix b ys) ≡ b
  unfolding dist
  dist-nil_left b h = length-prefix b ys h

-- On two texts that split into characters, `editDistance` reads no cell that is not written, stays
-- within its table, and returns the distance of the two character sequences.
pub edit_distance-dist :
    (lhs rhs : Bytes) (xs ys : List Bytes)
    → Splits lhs xs
    → Splits rhs ys
    → edit_distance lhs rhs ≡ some (dist (reverse xs) (reverse ys))
unfolding edit_distance
edit_distance-dist lhs rhs xs ys split_l split_r =
    let start : Table = record {
      rows = suc (length xs);
      cols = suc (length ys);
      cell = λ a b. none;
    } in
    let (t, ran, filled) =
      fill_column_lem (length xs) ys start (suc (length xs)) 0 (omega arith) refl refl
        (λ a h. absurd (omega arith)) in
    let (t₁, ran₁, filled₁, row) =
      fill_row_lem (length xs) ys t (suc (length ys)) 0 (omega arith) filled
        (λ b h. absurd (omega arith)) in
    let (t₂, ran₂, row₂) =
      table_loop_lem (length xs) ys t₁ 0 [] xs lhs rhs split_l split_r filled₁ (omega arith) refl
        (λ b h. row b h ∙ ap some (sym (dist-nil_left (length xs) ys b h))) in
    ground (
      arith,
      length?-Splits split_l,
      length?-Splits split_r,
      ran,
      ran₁,
      ran₂,
      row₂ (length ys) (omega arith),
      prefix-length xs,
      prefix-length ys,
    )
