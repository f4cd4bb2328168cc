-- ===== src/Lru/Refinement.antt =====
-- `get` and `put` of src/cache/LRUCache.cc keep the invariant and do what the view says.
use simple_search_enginer.Prelude.{
  ℕ, ◌<◌, ◌≡◌, refl, sym, ◌∙◌, inl, inr, some, List, ◌∷◌, arith, Bytes, Bytes_discrete, lookup,
  assign, Distinct, length, take_of_length-le, Option-cases, assign-Distinct, lookup-assign_same,
  length-assign_old,
}
use mathlib.Core.Option
use simple_search_enginer.Lru.{
  Cell, LruCache, get, put_old, splice_front, write_cell, find_cell, front,
}
use simple_search_enginer.Lru.Cells.{
  find_key, drop_key, entries, lookup-entries, lookup-entries_none, find_cell_of_key,
  drop_key-IsProper, dropped_key_gone, find_key-drop_ne, length-drop_key, entries-drop_key,
  drop_key-All, find_key-All, length-entries,
}
use simple_search_enginer.Lru.Invariant.{view, IsLinked, IsValid, used, stored}

-- The key's cell, moved to the front with the value `v`.
module _ (c : LruCache) (key : Bytes) (x : Cell) (v : List Bytes) (valid : IsValid c)
    (found : find_key key c.lru ≡ some x) where
  abbrev moved : List Cell
  moved = record x { value = v } ∷ drop_key key c.lru

  find_key-moved :
      (q : Bytes)
      → Option.map (λ (y : Cell). y.iter) (find_key q moved)
        ≡ Option.map (λ (y : Cell). y.iter) (find_key q c.lru)
  unfolding find_key
  find_key-moved q = ground (arith, lookup-entries key c.lru x, find_key-drop_ne key q c.lru)

  moved-IsLinked :
      (m : List (Bytes × ℕ))
      → ((q : Bytes) → lookup Bytes_discrete q m ≡ lookup Bytes_discrete q c.umap)
      → Distinct Bytes_discrete m
      → length m ≡ length c.umap
      → IsLinked (record c { lru = moved; umap = m })
  moved-IsLinked m same distinct size = record {
    proper = ground (
      arith,
      lookup-entries key c.lru x,
      dropped_key_gone key c.lru x,
      drop_key-IsProper key c.lru,
    );
    fresh = (
      find_key-All (λ y. y.iter < c.next_iter) key c.lru x valid.fresh found,
      drop_key-All (λ y. y.iter < c.next_iter) key c.lru valid.fresh,
    );
    agree = λ q. same q ∙ valid.agree q ∙ sym (find_key-moved q);
    unique = distinct;
    size = omega (arith, length-drop_key key c.lru x found, valid.size);
  }

  moved-IsValid :
      (m : List (Bytes × ℕ))
      → ((q : Bytes) → lookup Bytes_discrete q m ≡ lookup Bytes_discrete q c.umap)
      → Distinct Bytes_discrete m
      → length m ≡ length c.umap
      → IsValid (record c { lru = moved; umap = m })
  moved-IsValid m same distinct size = record {
    linked = moved-IsLinked m same distinct size;
    bounded = omega (arith, length-drop_key key c.lru x found, valid.bounded);
  }

  -- The splice of the key's iterator brings that cell to the front, and reads through it succeed.
  splice_front-moved :
      (splice_front x.iter c.lru ≡ some (x ∷ drop_key key c.lru))
      × (find_cell x.iter (x ∷ drop_key key c.lru) ≡ some x)
      × (write_cell x.iter v (x ∷ drop_key key c.lru) ≡ some moved)
  unfolding splice_front find_cell write_cell
  splice_front-moved =
      let (at, rest) = find_cell_of_key key c.lru x valid.proper found in
      (ground (arith, at, rest), ground arith, ground arith)

-- On a valid cache `get` never faults, keeps the cache valid, answers what the entries hold for
-- the key, and moves the key to the front when it is there.
pub get-used :
    (c : LruCache) (key : Bytes)
    → IsValid c
    → (c' : LruCache) × (get c key ≡ some (c', lookup Bytes_discrete key (view c).entries))
      × IsValid c'
      × (view c' ≡ used key (view c))
unfolding get used
get-used c key valid = elim (Option-cases (find_key key c.lru)) [
  | inl miss ↦ (
    c,
    ground (arith, valid.agree key, lookup-entries_none key c.lru miss),
    valid,
    ground (arith, lookup-entries_none key c.lru miss),
  )
  | inr (x, found) ↦
      let (spliced, at, _) = splice_front-moved c key x x.value valid found in
      (
        record c { lru = moved c key x x.value valid found },
        ground (arith, valid.agree key, lookup-entries key c.lru x found, spliced, at),
        moved-IsValid c key x x.value valid found c.umap (λ q. refl) valid.unique refl,
        ground (arith, lookup-entries key c.lru x found, entries-drop_key key c.lru),
      )
]

-- `put` on a key that is there.
pub put_old-stored :
    (c : LruCache) (key : Bytes) (v : List Bytes) (x : Cell)
    → IsValid c
    → find_key key c.lru ≡ some x
    → (c' : LruCache) × (put_old c key v x.iter ≡ some c')
      × IsValid c'
      × (view c' ≡ stored key v (view c))
unfolding put_old stored front
put_old-stored c key v x valid found =
    let (spliced, at, written) = splice_front-moved c key x v valid found in
    let hit : lookup Bytes_discrete key c.umap ≡ some x.iter = ground (arith, valid.agree key) in
    let kept =
      moved-IsValid c key x v valid found _
        (λ q. lookup-assign_same Bytes_discrete key q x.iter c.umap hit)
        (assign-Distinct Bytes_discrete key x.iter c.umap valid.unique)
        (length-assign_old Bytes_discrete key x.iter x.iter c.umap hit) in
    (
      record c {
        lru = moved c key x v valid found;
        umap = assign Bytes_discrete key x.iter c.umap;
      },
      ground (arith, spliced, written),
      kept,
      ground (
        arith,
        lookup-entries key c.lru x found,
        entries-drop_key key c.lru,
        length-entries (moved c key x v valid found),
        take_of_length-le c.capacity (entries (moved c key x v valid found)),
        kept.bounded,
      ),
    )
