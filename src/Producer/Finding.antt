-- ===== src/Producer/Finding.antt =====
-- From recommanderDump/DictProducer.cc to `doQuery` of src/recommander/Dictionary.cc: a word that
-- was put into the dictionary is found.
use simple_search_enginer.Prelude.{
  ℕ, zero, suc, ◌+◌, ◌≤◌, ◌<◌, ◌≡◌, ◌≢◌, refl, sym, ◌∙◌, subst, inl, inr, true, Option, some, List,
  [], ◌∷◌, map, arith, Bytes, Bytes_discrete, ℤ, ℤ_discrete, pos, negsuc, ltz, lookup, Distinct,
  absent-All, lookup-All, All, All-map, length, get_elem?, get_elem?_of_lt, get_elem?-All,
  bind-some, Option-cases,
}
use simple_search_enginer.Utf8.Chars.{Splits}
use simple_search_enginer.Distance.{edit_distance}
use simple_search_enginer.Distance.Minimal.{edit_distance-minimal}
use simple_search_enginer.Dictionary.{Candidate, candidate, set_at, split_sought}
use simple_search_enginer.Dictionary.Files.{insert_int}
use simple_search_enginer.Dictionary.Filling.{set_candidates}
use simple_search_enginer.Dictionary.Popping.{Occurs}
use simple_search_enginer.Dictionary.Distinct.{Different}
use simple_search_enginer.Producer.CharIndex.{index_chars, create_index, has_int}
use simple_search_enginer.Producer.IndexSteps.{Index, Climbs}
use simple_search_enginer.Producer.Loading.{assign-All}

-- A position of a dictionary of `n` words.
abbrev pub Inside : ℕ → ℤ → Type 0
Inside n (pos i) = i < n
Inside n (negsuc i) = ⊥

insert_int-Inside :
    (n i : ℕ) (ns : List ℤ) → i < n → All (Inside n) ns → All (Inside n) (insert_int (pos i) ns)
unfolding insert_int ltz
insert_int-Inside n i [] h k = (h, tt)
insert_int-Inside n i (negsuc m ∷ ns) h k = elim k.0 [ ]
insert_int-Inside n i (pos m ∷ ns) h k = ground (arith, h, k.0, k.1, insert_int-Inside n i ns)

abbrev pub AllInside : ℕ → Index → Type 0
AllInside n = All (λ (e : Bytes × List ℤ). All (Inside n) e.1)

pub set_at-Inside :
    (n : ℕ) (ch : Bytes) (index : Index) → AllInside n index → All (Inside n) (set_at ch index)
unfolding set_at
set_at-Inside n ch index h = elim (Option-cases (lookup Bytes_discrete ch index)) [
  | inl e ↦ rw (All, e) tt
  | inr (ns, e) ↦
      rw (All, e)
        (lookup-All Bytes_discrete (λ (e : Bytes × List ℤ). All (Inside n) e.1) ch ns index h e)
]

index_chars-Inside :
    (n i : ℕ) (chs : List Bytes) (index : Index)
    → i < n
    → AllInside n index
    → AllInside n (index_chars i chs index)
unfolding index_chars
index_chars-Inside n i [] index h k = k
index_chars-Inside n i (ch ∷ chs) index h k = index_chars-Inside n i chs _ h (
    assign-All (λ (e : Bytes × List ℤ). All (Inside n) e.1) ch
      (insert_int (pos i) (set_at ch index)) index
      (insert_int-Inside n i (set_at ch index) h (set_at-Inside n ch index k)) k)

pub create_index-Inside :
    (next : Bytes → Option (Bytes × Bytes)) (n i : ℕ) (dict : List (Bytes × ℤ))
    (index index' : Index)
    → i + length dict ≤ n
    → create_index next i dict index ≡ some index'
    → AllInside n index
    → AllInside n index'
unfolding create_index
create_index-Inside next n i [] index index' few e h =
    let same : index ≡ index' = ground (arith, e) in subst (AllInside n) same h
create_index-Inside next n i (entry ∷ dict) index index' few e h =
    let (chs, cut, more) =
      bind-some (split_sought next entry.0)
        (λ cs. create_index next (suc i) dict (index_chars i cs index)) e in
    create_index-Inside next n (suc i) dict (index_chars i chs index) index' (omega arith) more
      (index_chars-Inside n i chs index (omega arith) h)

-- A word that splits into the characters that the distance counts.
abbrev pub IsSplit : Bytes → Type 0
IsSplit w = (xs : List Bytes) × Splits w xs

place :
    (dict : List (Bytes × ℤ)) (j m : ℕ) (e entry : Bytes × ℤ)
    → get_elem? dict j ≡ some e
    → get_elem? dict m ≡ some entry
    → pos m ≡ pos j
    → e.0 ≡ entry.0
place dict j m e entry at there same = ground (arith, at, there, same)

-- The candidates at positions of the dictionary exist, and are its words.
pub set_candidates-made :
    (dict : List (Bytes × ℤ)) (sought : Bytes) (ns : List ℤ)
    → IsSplit sought
    → All (λ (e : Bytes × ℤ). IsSplit e.0) dict
    → All (Inside (length dict)) ns
    → (cs : List Candidate) × (set_candidates dict sought ns ≡ some cs)
      × All (λ (c : Candidate). IsSplit c.word) cs
      × ((j : ℕ) (e : Bytes × ℤ)
          → get_elem? dict j ≡ some e
          → has_int (pos j) ns ≡ true
          → Occurs e.0 (map (λ (c : Candidate). c.word) cs))
unfolding set_candidates candidate
set_candidates-made dict sought [] own splits h = ([], refl, tt, λ j e at has. cc)
set_candidates-made dict sought (negsuc m ∷ ns) own splits h = elim h.0 [ ]
set_candidates-made dict sought (pos m ∷ ns) own splits h =
    let (entry, there) = get_elem?_of_lt dict m h.0 in
    let split = get_elem?-All (λ (e : Bytes × ℤ). IsSplit e.0) dict m {a = entry} splits there in
    let (n, measured, _, _) = edit_distance-minimal sought entry.0 own.0 split.0 own.1 split.1 in
    let (cs, made, all, found) = set_candidates-made dict sought ns own splits h.1 in
    let c : Candidate = record { word = entry.0; fre = entry.1; dis = n } in
    (
      c ∷ cs,
      rw (there, measured, made) refl,
      (split, all),
      λ j e at has. elim (ℤ_discrete (pos m) (pos j)) [
        | yes same ↦ inl (place dict j m e entry at there same)
        | no other ↦ inr (found j e at (ground (arith, has, other)))
      ],
    )

-- Different places of a dictionary have different words.
places_apart :
    (dict : List (Bytes × ℤ)) (i j : ℕ) (a b : Bytes × ℤ)
    → Distinct Bytes_discrete dict
    → i < j
    → get_elem? dict i ≡ some a
    → get_elem? dict j ≡ some b
    → a.0 ≢ b.0
places_apart [] i j a b h lt at_i at_j = cc
places_apart (e ∷ dict) i zero a b h lt at_i at_j = absurd (omega arith)
places_apart (e ∷ dict) zero (suc j) a b h lt at_i at_j =
    let other =
      get_elem?-All (λ (x : Bytes × ℤ). x.0 ≢ e.0) dict j {a = b}
        (absent-All Bytes_discrete e.0 dict h.0) at_j in
    λ same. other (ground (arith, at_i, same))
places_apart (e ∷ dict) (suc i) (suc j) a b h lt at_i at_j =
    places_apart dict i j a b h.1 (omega arith) at_i at_j

-- A candidate that stands in the dictionary at `low` or later.
abbrev pub IsFrom : List (Bytes × ℤ) → ℕ → Candidate → Type 0
IsFrom dict low c =
    (k : ℕ) × (e : Bytes × ℤ) × (low ≤ k) × (get_elem? dict k ≡ some e) × (c.word ≡ e.0)

pub set_candidates-Different :
    (dict : List (Bytes × ℤ)) (sought : Bytes) (low : ℕ) (ns : List ℤ) (cs : List Candidate)
    → Distinct Bytes_discrete dict
    → Climbs low ns
    → set_candidates dict sought ns ≡ some cs
    → Different cs × All (IsFrom dict low) cs
unfolding set_candidates candidate
set_candidates-Different dict sought low [] cs h climbs e =
    let none_left : [] ≡ cs = ground (arith, e) in
    subst (λ us. Different us × All (IsFrom dict low) us) none_left (tt, tt)
set_candidates-Different dict sought low (negsuc m ∷ ns) cs h climbs e = elim climbs [ ]
set_candidates-Different dict sought low (pos m ∷ ns) cs h climbs e =
    let (c, known, e₁) = bind-some (candidate dict sought (pos m)) _ e in
    let (rest, more, e₂) = bind-some (set_candidates dict sought ns) _ e₁ in
    let (entry, there, k₁) = bind-some (get_elem? dict m) _ known in
    let (n, measured, k₂) = bind-some (edit_distance sought entry.0) _ k₁ in
    let word : c.word ≡ entry.0 = ground (arith, k₂) in
    let whole : c ∷ rest ≡ cs = ground (arith, e₂) in
    let (apart, from) = set_candidates-Different dict sought (suc m) ns rest h climbs.2 more in
    subst (λ us. Different us × All (IsFrom dict low) us) whole
      (
        (
          All-map (IsFrom dict (suc m)) (λ (d : Candidate). c.word ≢ d.word) rest
              (λ (d : Candidate) f same.
                places_apart dict m f.0 entry f.1 h (omega (arith, f.2)) there f.3
                  (sym word ∙ same ∙ f.4))
              from,
          apart,
        ),
        (
          (m, entry, climbs.0, there, word),
          All-map (IsFrom dict (suc m)) (IsFrom dict low) rest
              (λ (d : Candidate) f. (f.0, f.1, omega (arith, climbs.0, f.2), f.3, f.4)) from,
        ),
      )
