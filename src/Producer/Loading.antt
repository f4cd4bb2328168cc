-- ===== src/Producer/Loading.antt =====
-- From recommanderDump/DictProducer.cc to src/recommander/Dictionary.cc: the index that
-- `createIndex` makes can be written and read back.
use simple_search_enginer.Prelude.{
  ℕ, suc, ◌+◌, ◌≤◌, ◌<◌, ◌≡◌, ◌≢◌, refl, sym, inl, inr, true, Option, some, List, [], ◌∷◌, ◌++◌,
  arith, Bytes, Bytes_discrete, ℤ, pos, negsuc, ltz, lookup, assign, Distinct, assign-Distinct,
  absent-All, lookup-All, All, All-append, All-map, length, if_pos, if_neg, Option-cases, get_elem?,
}
use simple_search_enginer.Dictionary.{set_at, split_sought}
use simple_search_enginer.Dictionary.Files.{insert_int, init_dict, init_index}
use simple_search_enginer.Producer.{store_dict, store_index}
use simple_search_enginer.Producer.CharIndex.{
  index_chars, create_index, has_int, has_bytes, create_index-has,
}
use simple_search_enginer.Producer.DictFile.{IsStorable, init_dict-store_dict}
use simple_search_enginer.Producer.IndexFile.{IsIndex, init_index-store_index}
use simple_search_enginer.Producer.IndexSteps.{Index, IsName, Climbs}

insert_int-Climbs :
    (low i : ℕ) (ns : List ℤ)
    → low ≤ i
    → i < 2147483648
    → Climbs low ns
    → Climbs low (insert_int (pos i) ns)
unfolding insert_int ltz
insert_int-Climbs low i [] lo hi h = (lo, hi, tt)
insert_int-Climbs low i (negsuc n ∷ ns) lo hi h = elim h [ ]
insert_int-Climbs low i (pos n ∷ ns) lo hi h =
    ground (arith, h.0, h.1, h.2, insert_int-Climbs (suc n) i ns)

insert_int_nonempty : (x : ℤ) (ns : List ℤ) → insert_int x ns ≢ []
unfolding insert_int
insert_int_nonempty x [] e = cc
insert_int_nonempty x (n ∷ ns) e = ground (arith, e)

pub assign-All :
    (P : Bytes × List ℤ → Type 0) (ch : Bytes) (ns : List ℤ) (index : Index)
    → P (ch, ns)
    → All P index
    → All P (assign Bytes_discrete ch ns index)
unfolding assign
assign-All P ch ns [] p h = (p, tt)
assign-All P ch ns ((w, ms) ∷ index) p h = elim (Bytes_discrete w ch) [
  | yes e ↦ rw (if_pos _ e) (p, h.1)
  | no n ↦ rw (if_neg _ n) (h.0, assign-All P ch ns index p h.1)
]

-- One line of the file.
abbrev pub IsLine : Bytes × List ℤ → Type 0
IsLine e = IsName e.0 × (e.1 ≢ []) × Climbs 0 e.1

pub set_at-Climbs : (ch : Bytes) (index : Index) → All IsLine index → Climbs 0 (set_at ch index)
unfolding set_at
set_at-Climbs ch index h = elim (Option-cases (lookup Bytes_discrete ch index)) [
  | inl e ↦ rw (Climbs, e) tt
  | inr (ns, e) ↦ rw (Climbs, e) (lookup-All Bytes_discrete IsLine ch ns index h e).2
]

-- Lines under different names.
pub record IsMade (index : Index) : Type 0 where
  pub apart : Distinct Bytes_discrete index
  pub lines : All IsLine index

index_chars-IsMade :
    (i : ℕ) (chs : List Bytes) (index : Index)
    → i < 2147483648
    → All IsName chs
    → IsMade index
    → IsMade (index_chars i chs index)
unfolding index_chars
index_chars-IsMade i [] index hi names h = h
index_chars-IsMade i (ch ∷ chs) index hi names h =
    let ns = insert_int (pos i) (set_at ch index) in
    index_chars-IsMade i chs (assign Bytes_discrete ch ns index) hi names.1 (record {
      apart = assign-Distinct Bytes_discrete ch ns index h.apart;
      lines =
          assign-All IsLine ch ns index
            (
              names.0,
              insert_int_nonempty (pos i) (set_at ch index),
              insert_int-Climbs 0 i (set_at ch index) (omega arith) hi
                  (set_at-Climbs ch index h.lines),
            )
            h.lines;
    })

-- Different names, one list after another.
apart-IsIndex :
    (before index : Index)
    → All IsLine index
    → Distinct Bytes_discrete index
    → All (λ (e : Bytes × List ℤ). All (λ (b : Bytes × List ℤ). b.0 ≢ e.0) before) index
    → IsIndex before index
apart-IsIndex before [] lines apart other = tt
apart-IsIndex before ((w, ns) ∷ index) lines apart other = (
  lines.0.0,
  lines.0.1,
  lines.0.2,
  other.0,
  apart-IsIndex (before ++ ((w, ns) ∷ [])) index lines.1 apart.1
      (later index other.1 (absent-All Bytes_discrete w index apart.0)),
)
  where
    later :
        (rest : Index)
        → All (λ (e : Bytes × List ℤ). All (λ (b : Bytes × List ℤ). b.0 ≢ e.0) before) rest
        → All (λ (e : Bytes × List ℤ). e.0 ≢ w) rest
        → All
            (λ (e : Bytes × List ℤ).
              All (λ (b : Bytes × List ℤ). b.0 ≢ e.0) (before ++ ((w, ns) ∷ [])))
            rest
    later [] h k = tt
    later (e ∷ rest) h k = (
      All-append (λ (b : Bytes × List ℤ). b.0 ≢ e.0) before ((w, ns) ∷ []) h.0
          (λ g. k.0 (sym g), tt),
      later rest h.1 k.1,
    )

pub IsMade-IsIndex : (index : Index) → IsMade index → IsIndex [] index
IsMade-IsIndex index h =
    apart-IsIndex [] index h.lines h.apart (All-map IsLine _ index (λ e l. tt) h.lines)

module _ (next : Bytes → Option (Bytes × Bytes)) where
  -- A word that is cut into characters, none of them a digit, a blank or a newline.
  abbrev pub IsNamed : Bytes × ℤ → Type 0
  IsNamed entry = (chs : List Bytes) × (split_sought next entry.0 ≡ some chs) × All IsName chs

  pub create_index-IsMade :
      (i : ℕ) (dict : List (Bytes × ℤ)) (index : Index)
      → i + length dict ≤ 2147483648
      → All IsNamed dict
      → IsMade index
      → (index' : Index) × (create_index next i dict index ≡ some index') × IsMade index'
  unfolding create_index
  create_index-IsMade i [] index few names h = (index, refl, h)
  create_index-IsMade i (entry ∷ dict) index few names h =
      let (chs, cut, named) = names.0 in
      let (index', made, h') =
        create_index-IsMade (suc i) dict (index_chars i chs index) (omega arith) names.1
          (index_chars-IsMade i chs index (omega arith) named h) in
      (index', rw cut made, h')

  -- The words of a dictionary hold no blanks and no newlines, their frequencies and their number
  -- fit an `int`, and each is cut into characters that hold no digit. Then `createIndex` makes an
  -- index of it, `initDict` and `initIndex` read that dictionary and that index from the files
  -- that `store` writes of them, and in the index that was read the place of each word is in the
  -- set of each of its characters.
  pub create_index-loaded :
      (dict : List (Bytes × ℤ))
      → All IsStorable dict
      → length dict ≤ 2147483648
      → All IsNamed dict
      → (index : Index) × (create_index next 0 dict [] ≡ some index)
        × (init_dict (store_dict dict) ≡ some dict)
        × (init_index (store_index index) ≡ some index)
        × ((j : ℕ) (entry : Bytes × ℤ) (chs : List Bytes) (ch : Bytes)
            → get_elem? dict j ≡ some entry
            → split_sought next entry.0 ≡ some chs
            → has_bytes ch chs ≡ true
            → has_int (pos j) (set_at ch index) ≡ true)
  create_index-loaded dict storable few names =
      let (index, made, h) =
        create_index-IsMade 0 dict [] (omega arith) names (record { apart = tt; lines = tt }) in
      (
        index,
        made,
        init_dict-store_dict dict storable,
        init_index-store_index index (IsMade-IsIndex index h),
        λ j entry chs ch at cut has.
            create_index-has next 0 j j dict [] index entry chs ch made at (omega arith) cut has,
      )
