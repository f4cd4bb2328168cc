-- ===== src/Lru/Map.antt =====
-- A cache of src/cache/LRUCache.cc as a map: what it answers, with the order of use forgotten.
use mathlib.Core.Quot
use mathlib.Core.Quot.{Quot, Quot-set}
use simple_search_enginer.Prelude.{
  ◌<◌, ◌≡◌, ◌≢◌, refl, ap, ◌∙◌, sym, inl, inr, ite, Option, some, List, arith, Bytes,
  Bytes_discrete, lookup, length, lookup-erase_ne, erase_absent, length-erase, Option-cases,
  take_of_length-le,
}
use simple_search_enginer.Lru.{LruCache, get, put}
use simple_search_enginer.Lru.Invariant.{View, view, IsValid, used, stored, touched}
use simple_search_enginer.Lru.Puts.{put-stored}
use simple_search_enginer.Lru.Refinement.{get-used}
use simple_search_enginer.Lru.Reversal.{Entry}

-- Entries that answer each key alike.
abbrev pub SameAnswers : List Entry → List Entry → Type 0
SameAnswers es fs = (k : Bytes) → lookup Bytes_discrete k es ≡ lookup Bytes_discrete k fs

abbrev pub Contents : Type 0
Contents = Quot SameAnswers

abbrev pub contents : LruCache → Contents
contents c = Quot.mk (view c).entries

unfoldable pub find : Bytes → Contents → Option (List Bytes)
find k = Quot.lift (hlevel) (lookup Bytes_discrete k) (λ es fs h. h k)

lookup-touched :
    (k q : Bytes) (v : List Bytes) (es : List Entry)
    → lookup Bytes_discrete q (touched k v es)
      ≡ ite (Bytes_discrete k q) (some v) (lookup Bytes_discrete q es)
unfolding touched
lookup-touched k q v es = elim (Bytes_discrete k q) [
  | yes e ↦ ground (arith, e)
  | no n ↦ ground (arith, n, lookup-erase_ne Bytes_discrete k q es)
]

touched-SameAnswers :
    (k : Bytes) (v : List Bytes) (es fs : List Entry)
    → SameAnswers es fs
    → SameAnswers (touched k v es) (touched k v fs)
touched-SameAnswers k v es fs h q =
    lookup-touched k q v es
    ∙ ap (ite (Bytes_discrete k q) (some v)) (h q)
    ∙ sym (lookup-touched k q v fs)

-- The map with one answer more, or another one.
pub remember : Bytes → List Bytes → Contents → Contents
remember k v =
    Quot.lift Quot-set (λ es. Quot.mk (touched k v es))
      (λ es fs h. Quot.sound (touched-SameAnswers k v es fs h))

pub find-remember_self :
    (k : Bytes) (v : List Bytes) (m : Contents) → find k (remember k v m) ≡ some v
unfolding find remember
find-remember_self k v = Quot.ind (λ m. hlevel) (λ es. ground (arith, lookup-touched k k v es))

pub find-remember_ne :
    (k q : Bytes) (v : List Bytes) (m : Contents) → q ≢ k → find q (remember k v m) ≡ find q m
unfolding find remember
find-remember_ne k q v =
    Quot.ind (λ m. hlevel) (λ es other. ground (arith, other, lookup-touched k q v es))

used-SameAnswers : (k : Bytes) (w : View) → SameAnswers (used k w).entries w.entries
unfolding used
used-SameAnswers k w q = elim (Option-cases (lookup Bytes_discrete k w.entries)) [
  | inl e ↦ rw (used, e) refl
  | inr (v, e) ↦ rw (used, e) (lookup-touched k q v w.entries ∙ ground (arith, e))
]

-- On a valid cache `get` answers what the map holds, and leaves the map as it was.
pub get-contents :
    (c : LruCache) (key : Bytes)
    → IsValid c
    → (c' : LruCache) × (get c key ≡ some (c', find key (contents c)))
      × IsValid c'
      × (contents c' ≡ contents c)
unfolding find
get-contents c key valid =
    let (c', got, valid', seen) = get-used c key valid in
    (
      c',
      got,
      valid',
      ap (λ (w : View). Quot.mk w.entries) seen ∙ Quot.sound (used-SameAnswers key (view c)),
    )

stored_with_room :
    (k : Bytes) (v : List Bytes) (w : View)
    → length w.entries < w.capacity
    → (stored k v w).entries ≡ touched k v w.entries
unfolding stored touched
stored_with_room k v w room =
    take_of_length-le w.capacity (touched k v w.entries)
      (elim (Option-cases (lookup Bytes_discrete k w.entries)) [
        | inl e ↦ omega (arith, room, ap length (erase_absent Bytes_discrete k w.entries e))
        | inr (u, e) ↦ omega (arith, room, length-erase Bytes_discrete k u w.entries e)
      ])

-- On a valid cache with room `put` adds the answer to the map and changes no other.
pub put-contents :
    (c : LruCache) (key : Bytes) (v : List Bytes)
    → IsValid c
    → length (view c).entries < c.capacity
    → (c' : LruCache) × (put c key v ≡ some c')
      × IsValid c'
      × (contents c' ≡ remember key v (contents c))
unfolding remember
put-contents c key v valid room =
    let (c', ran, valid', seen) = put-stored c key v valid in
    (
      c',
      ran,
      valid',
      ap (λ (w : View). Quot.mk w.entries) seen ∙ ap Quot.mk (stored_with_room key v (view c) room),
    )

-- On a valid cache with room, a `put` followed by a `get` of any key: neither faults, and the
-- answer is the value put for that key, and for another key what the cache held before.
pub put-get :
    (c : LruCache) (key q : Bytes) (v : List Bytes)
    → IsValid c
    → length (view c).entries < c.capacity
    → (c' : LruCache) × (c'' : LruCache) × (put c key v ≡ some c')
      × (get c' q ≡ some (c'', ite (Bytes_discrete q key) (some v) (find q (contents c))))
      × (contents c'' ≡ remember key v (contents c))
put-get c key q v valid room =
    let (c', ran, valid', seen) = put-contents c key v valid room in
    let (c'', got, _, kept) = get-contents c' q valid' in
    (c', c'', ran, got ∙ ap (λ o. some (c'', o)) (ap (find q) seen ∙ answered), kept ∙ seen)
  where
    answered :
        find q (remember key v (contents c))
        ≡ ite (Bytes_discrete q key) (some v) (find q (contents c))
    answered = elim (Bytes_discrete q key) [
      | yes e ↦
          ap (λ k. find k (remember key v (contents c))) e
          ∙ find-remember_self key v (contents c)
          ∙ ground (arith, e)
      | no n ↦ find-remember_ne key q v (contents c) n ∙ ground (arith, n)
    ]
