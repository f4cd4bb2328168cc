-- ===== src/Lru/Puts.antt =====
-- `put` of src/cache/LRUCache.cc: a new key, the eviction, and runs of `put`.
use simple_search_enginer.Prelude.{
  ℕ, suc, ◌<◌, ◌≡◌, refl, ap, subst, suc, ◌∙◌, inl, inr, none, some, List, [], ◌∷◌, arith, Bytes,
  Bytes_discrete, lookup, assign, erase, length, All, All-map, dec_lt, take_of_length-le,
  length-take-le, Option-cases, lookup-assign_self, lookup-assign_ne, assign-Distinct,
  lookup-erase_self, lookup-erase_ne, erase-Distinct, erase_absent, length-assign_new, length-erase,
}
use simple_search_enginer.Lru.{Cell, LruCache, put, put_new, put_all, pop_back, evict}
use simple_search_enginer.Lru.Cells.{
  IsProper, find_key, drop_key, entries, lookup-entries_none, drop_key-IsProper, dropped_key_gone,
  find_key-drop_ne, length-drop_key, drop_key-All, find_cell_fresh, back-pop_back, length-entries,
  entries-take,
}
use simple_search_enginer.Lru.Invariant.{View, view, IsLinked, IsValid, stored}
use simple_search_enginer.Lru.Refinement.{put_old-stored}

-- A new cell at the front, before the eviction.
abbrev pushed : LruCache → Bytes → List Bytes → LruCache
pushed c key v = record c {
  lru = record { iter = c.next_iter; key = key; value = v } ∷ c.lru;
  umap = assign Bytes_discrete key c.next_iter c.umap;
  next_iter = suc c.next_iter;
}

pushed-IsLinked :
    (c : LruCache) (key : Bytes) (v : List Bytes)
    → IsValid c
    → find_key key c.lru ≡ none
    → IsLinked (pushed c key v)
unfolding find_key
pushed-IsLinked c key v valid miss = record {
  proper = (miss, find_cell_fresh c.next_iter c.lru valid.fresh, valid.proper);
  fresh = (omega arith, All-map _ _ c.lru (λ y h. omega arith) valid.fresh);
  agree = λ q. ground (
    arith,
    valid.agree q,
    lookup-assign_self Bytes_discrete key c.next_iter c.umap,
    lookup-assign_ne Bytes_discrete key q c.next_iter c.umap,
  );
  unique = assign-Distinct Bytes_discrete key c.next_iter c.umap valid.unique;
  size =
      ground (
        arith,
        valid.agree key,
        valid.size,
        length-assign_new Bytes_discrete key c.next_iter c.umap,
      );
}

-- Taking the last cell out of both containers.
popped-IsLinked :
    (c : LruCache) (d : Cell) (n : ℕ)
    → IsLinked c
    → length c.lru ≡ suc n
    → find_key d.key c.lru ≡ some d
    → drop_key d.key c.lru ≡ pop_back c.lru
    → IsLinked (record c { umap = erase Bytes_discrete d.key c.umap; lru = pop_back c.lru })
popped-IsLinked c d n linked len found rest = record {
  proper = subst IsProper rest (drop_key-IsProper d.key c.lru linked.proper);
  fresh =
      subst (All (λ (x : Cell). x.iter < c.next_iter)) rest
        (drop_key-All _ d.key c.lru linked.fresh);
  agree = λ q. ground (
    arith,
    rest,
    linked.agree q,
    lookup-erase_ne Bytes_discrete d.key q c.umap,
    lookup-erase_self Bytes_discrete d.key c.umap linked.unique,
    dropped_key_gone d.key c.lru d linked.proper found,
    find_key-drop_ne d.key q c.lru,
  );
  unique = erase-Distinct Bytes_discrete d.key c.umap linked.unique;
  size = ground (
    arith,
    rest,
    linked.size,
    linked.agree d.key,
    length-erase Bytes_discrete d.key d.iter c.umap,
    length-drop_key d.key c.lru d,
  );
}

-- The pending list has no part in the links.
pub relink :
    (c : LruCache) (es : List (Bytes × List Bytes))
    → IsLinked c
    → IsLinked (record c { pending = es })
relink c es l = record {
  proper = l.proper;
  fresh = l.fresh;
  agree = l.agree;
  unique = l.unique;
  size = l.size;
}

-- A new key on a cache that is not full, and on a full one.
put_new-stored :
    (c : LruCache) (key : Bytes) (v : List Bytes)
    → IsValid c
    → find_key key c.lru ≡ none
    → (c' : LruCache) × (put_new c key v ≡ some c') × IsValid c' × (view c' ≡ stored key v (view c))
unfolding put_new evict stored
put_new-stored c key v valid miss = elim (dec_lt (length c.lru) c.capacity) [
  | yes room ↦ (
    record (pushed c key v) { pending = (key, v) ∷ c.pending },
    ground (arith, linked.size),
    record { linked = relink _ ((key, v) ∷ c.pending) linked; bounded = omega arith },
    ground (
      arith,
      absent,
      erase_absent Bytes_discrete key (entries c.lru),
      length-entries c.lru,
      take_of_length-le c.capacity ((key, v) ∷ entries c.lru),
    ),
  )
  | no full ↦
      let (d, last, kept, found) =
        back-pop_back (pushed c key v).lru c.capacity (omega (arith, valid.bounded)) in
      let (at, rest) = found linked.proper in
      let popped =
        popped-IsLinked (pushed c key v) d c.capacity linked (omega (arith, valid.bounded)) at
          rest in
      (
        record (pushed c key v) {
          umap = erase Bytes_discrete d.key (pushed c key v).umap;
          lru = pop_back (pushed c key v).lru;
          pending = (key, v) ∷ c.pending;
        },
        ground (arith, linked.size, last),
        record {
          linked = relink _ ((key, v) ∷ c.pending) popped;
          bounded = rw kept (length-take-le c.capacity (pushed c key v).lru);
        },
        ground (
          arith,
          absent,
          kept,
          erase_absent Bytes_discrete key (entries c.lru),
          entries-take c.capacity (pushed c key v).lru,
        ),
      )
]
  where
    linked : IsLinked (pushed c key v)
    linked = pushed-IsLinked c key v valid miss

    absent : lookup Bytes_discrete key (entries c.lru) ≡ none
    absent = lookup-entries_none key c.lru miss

-- On a valid cache `put` never faults, keeps the cache valid, and is the storing of the pair in
-- the view: an old key is moved to the front with its new value; a new key goes to the front and
-- to the pending list, and the least recent key goes when there is no room.
pub put-stored :
    (c : LruCache) (key : Bytes) (v : List Bytes)
    → IsValid c
    → (c' : LruCache) × (put c key v ≡ some c') × IsValid c' × (view c' ≡ stored key v (view c))
unfolding put
put-stored c key v valid = elim (Option-cases (find_key key c.lru)) [
  | inl miss ↦
      let absent : lookup Bytes_discrete key c.umap ≡ none = ground (arith, valid.agree key) in
      rw (absent, put) (put_new-stored c key v valid miss)
  | inr (x, found) ↦
      let present : lookup Bytes_discrete key c.umap ≡ some x.iter =
        ground (arith, valid.agree key) in
      rw (present, put) (put_old-stored c key v x valid found)
]

-- A run of `put` stores the pairs one after the other.
unfoldable pub stored_all : List (Bytes × List Bytes) → View → View
stored_all [] w = w
stored_all ((k, v) ∷ es) w = stored_all es (stored k v w)

pub put_all-stored_all :
    (c : LruCache) (es : List (Bytes × List Bytes))
    → IsValid c
    → (c' : LruCache) × (put_all c es ≡ some c') × IsValid c' × (view c' ≡ stored_all es (view c))
unfolding put_all stored_all
put_all-stored_all c [] valid = (c, refl, valid, refl)
put_all-stored_all c ((k, v) ∷ es) valid =
    let (c', put_ok, valid', seen) = put-stored c k v valid in
    let (c'', rest_ok, valid'', seen') = put_all-stored_all c' es valid' in
    (c'', rw put_ok rest_ok, valid'', seen' ∙ ap (stored_all es) seen)
