-- ===== src/Lru/File/RoundTrip.antt =====
-- The cache file of src/cache/LRUCache.cc is read back as it was written.
use simple_search_enginer.Prelude.{
  ℕ, ◌≡◌, refl, ap, ◌∙◌, true, false, List, [], ◌∷◌, ◌++◌, map, arith, Bytes, each_byte,
  each_byte-append, getlines, getlines-line, All, Without, All-append, ◌≤◌, some, reverse, length,
  lookup, Bytes_discrete,
}
use mathlib.Core.List.{append-nil, append_assoc}
use simple_search_enginer.Lru.{Cell, LruCache, init}
use simple_search_enginer.Lru.Invariant.{View, view, IsValid, init-IsValid}
use simple_search_enginer.Lru.Puts.{put_all-stored_all}
use simple_search_enginer.Lru.Reversal.{
  entries-Distinct, Absent-nil, stored_all-reverse, lookup-reverse,
}
use simple_search_enginer.Lru.Cells.{entries}
use simple_search_enginer.Lru.File.{
  write_values, write_line, write_cells, write_to_file, read_from_file, LineState, line_start,
  read_byte, read_line,
}

-- The texts that the format can hold.
abbrev pub IsWord : Bytes → Type 0
IsWord v = Without b':' v × Without b' ' v × Without 10 v

abbrev pub IsPrintable : Bytes × List Bytes → Type 0
IsPrintable e = Without b':' e.0 × Without 10 e.0 × All IsWord e.1

read_key :
    (s : LineState) (xs : Bytes)
    → s.flag ≡ false
    → Without b':' xs
    → each_byte read_byte s xs ≡ record s { key = s.key ++ xs }
unfolding each_byte read_byte
read_key s [] f h = ground (arith, append-nil s.key)
read_key s (x ∷ xs) f h = ground (
  arith,
  h.0,
  read_key (record s { key = s.key ++ (x ∷ []) }) xs f h.1,
  append_assoc s.key (x ∷ []) xs,
)

read_word :
    (s : LineState) (xs : Bytes)
    → s.flag ≡ true
    → Without b':' xs
    → Without b' ' xs
    → each_byte read_byte s xs ≡ record s { str = s.str ++ xs }
unfolding each_byte read_byte
read_word s [] f h g = ground (arith, append-nil s.str)
read_word s (x ∷ xs) f h g = ground (
  arith,
  h.0,
  g.0,
  read_word (record s { str = s.str ++ (x ∷ []) }) xs f h.1 g.1,
  append_assoc s.str (x ∷ []) xs,
)

read_values :
    (s : LineState) (vs : List Bytes)
    → s.flag ≡ true
    → s.str ≡ []
    → All IsWord vs
    → each_byte read_byte s (write_values vs) ≡ record s { value = s.value ++ vs }
unfolding write_values each_byte read_byte
read_values s [] f e h = ground (arith, append-nil s.value)
read_values s (v ∷ vs) f e h = ground (
  arith,
  each_byte-append read_byte s v (b' ' ∷ write_values vs),
  read_word s v f h.0.0 h.0.1,
  read_values (record s { value = s.value ++ (v ∷ []); str = [] }) vs f refl h.1,
  append_assoc s.value (v ∷ []) vs,
)

-- A line is parsed into the key and the values that were written.
pub read_line-write_line :
    (key : Bytes) (value : List Bytes)
    → IsPrintable (key, value)
    → read_line (write_line key value) ≡ (key, value)
unfolding read_line write_line each_byte
read_line-write_line key value p = ground (
  arith,
  each_byte-append read_byte line_start key (b':' ∷ write_values value),
  read_key line_start key refl p.0,
  read_values (record line_start { key = key; flag = true }) value refl refl p.2,
)

write_values-Without : (vs : List Bytes) → All IsWord vs → Without 10 (write_values vs)
unfolding write_values
write_values-Without [] h = tt
write_values-Without (v ∷ vs) h =
    All-append _ v (b' ' ∷ write_values vs) h.0.2 (omega arith, write_values-Without vs h.1)

write_line-Without :
    (key : Bytes) (value : List Bytes)
    → IsPrintable (key, value)
    → Without 10 (write_line key value)
unfolding write_line
write_line-Without key value p =
    All-append _ key (b':' ∷ write_values value) p.1 (omega arith, write_values-Without value p.2)

-- The lines of a cache file are its entries, in order.
pub read_lines-write_cells :
    (cs : List Cell)
    → All IsPrintable (entries cs)
    → map read_line (getlines (write_cells cs)) ≡ entries cs
unfolding write_cells getlines
read_lines-write_cells [] p = refl
read_lines-write_cells (c ∷ cs) p = ground (
  arith,
  getlines-line (write_line c.key c.value) (write_cells cs) (write_line-Without c.key c.value p.0),
  read_line-write_line c.key c.value p.0,
  read_lines-write_cells cs p.1,
)

-- An empty cache that reads the file which a valid cache wrote holds the same entries with the
-- same values, if it has room and the texts avoid the separators; the order of use is reversed,
-- and every entry is pending.
pub read_from_file-write_to_file :
    (c : LruCache) (cap : ℕ)
    → IsValid c
    → All IsPrintable (view c).entries
    → length (view c).entries ≤ cap
    → (c' : LruCache) × (read_from_file (init cap) (write_to_file c) ≡ some c')
      × IsValid c'
      × ((view c').entries ≡ reverse (view c).entries)
      × ((view c').pending ≡ reverse (view c).entries)
      × ((k : Bytes)
          → lookup Bytes_discrete k (view c').entries ≡ lookup Bytes_discrete k (view c).entries)
unfolding read_from_file write_to_file init
read_from_file-write_to_file c cap valid p room =
    let distinct = entries-Distinct c.lru valid.proper in
    let (c', ran, valid', seen) =
      put_all-stored_all (init cap) (entries c.lru) (init-IsValid cap) in
    let kept =
      seen
      ∙ stored_all-reverse (entries c.lru) (view (init cap)) (Absent-nil (entries c.lru)) distinct
          (omega arith) in
    let order : (view c').entries ≡ reverse (entries c.lru) =
      ap (λ (w : View). w.entries) kept ∙ append-nil (reverse (entries c.lru)) in
    (
      c',
      rw (read_lines-write_cells c.lru p) ran,
      valid',
      order,
      ap (λ (w : View). w.pending) kept ∙ append-nil (reverse (entries c.lru)),
      λ k. ap (lookup Bytes_discrete k) order ∙ lookup-reverse k (entries c.lru) distinct,
    )
