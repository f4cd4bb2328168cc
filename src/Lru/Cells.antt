-- ===== src/Lru/Cells.antt =====
-- The list of cells of src/cache/LRUCache.cc: finding and removing a cell by iterator and by key.
use simple_search_enginer.Prelude.{
  ℕ, zero, suc, ◌+◌, ◌<◌, ◌≡◌, refl, ap, ◌≢◌, Option, none, some, List, [], ◌∷◌, map, arith, Bytes,
  Bytes_discrete, ite, if_pos, if_neg, lookup, erase, length, length-map, All, take,
}
use simple_search_enginer.Lru.{Cell, find_cell, remove_cell, back, pop_back}

unfoldable pub find_key : Bytes → List Cell → Option Cell
find_key k [] = none
find_key k (c ∷ cs) = ite (Bytes_discrete c.key k) (some c) (find_key k cs)

pub drop_key : Bytes → List Cell → List Cell
drop_key k [] = []
drop_key k (c ∷ cs) = ite (Bytes_discrete c.key k) cs (c ∷ drop_key k cs)

abbrev pub entries : List Cell → List (Bytes × List Bytes)
entries = map (λ c. (c.key, c.value))

pub length-entries : (cs : List Cell) → length (entries cs) ≡ length cs
length-entries cs = length-map _ cs

pub entries-take : (n : ℕ) (cs : List Cell) → entries (take n cs) ≡ take n (entries cs)
entries-take zero cs = refl
entries-take (suc n) [] = refl
entries-take (suc n) (c ∷ cs) = ap (◌∷◌ (c.key, c.value)) (entries-take n cs)

-- No key and no iterator stands twice.
abbrev pub IsProper : List Cell → Type 0
IsProper [] = Unit {0}
IsProper (c ∷ cs) = (find_key c.key cs ≡ none) × (find_cell c.iter cs ≡ none) × IsProper cs

-- The value that the entries give a key is that of the cell with the key.
pub lookup-entries :
    (k : Bytes) (cs : List Cell) (c : Cell)
    → find_key k cs ≡ some c
    → (lookup Bytes_discrete k (entries cs) ≡ some c.value) × (c.key ≡ k)
unfolding find_key
lookup-entries k [] c e = cc
lookup-entries k (x ∷ cs) c e = ground (arith, lookup-entries k cs c)

pub lookup-entries_none :
    (k : Bytes) (cs : List Cell)
    → find_key k cs ≡ none
    → lookup Bytes_discrete k (entries cs) ≡ none
unfolding find_key
lookup-entries_none k [] e = refl
lookup-entries_none k (x ∷ cs) e = ground (arith, lookup-entries_none k cs)

-- In a proper list a cell is found by its iterator as by its key, and removed alike.
pub find_cell_of_key :
    (k : Bytes) (cs : List Cell) (c : Cell)
    → IsProper cs
    → find_key k cs ≡ some c
    → (find_cell c.iter cs ≡ some c) × (remove_cell c.iter cs ≡ drop_key k cs)
unfolding find_key find_cell remove_cell drop_key
find_cell_of_key k [] c p e = cc
find_cell_of_key k (x ∷ cs) c p e = ground (arith, find_cell_of_key k cs c p.2)

find_key-drop_none :
    (k q : Bytes) (cs : List Cell) → find_key q cs ≡ none → find_key q (drop_key k cs) ≡ none
unfolding find_key drop_key
find_key-drop_none k q [] h = refl
find_key-drop_none k q (x ∷ cs) h = ground (arith, find_key-drop_none k q cs)

find_cell-drop_none :
    (k : Bytes) (i : ℕ) (cs : List Cell)
    → find_cell i cs ≡ none
    → find_cell i (drop_key k cs) ≡ none
unfolding find_cell drop_key
find_cell-drop_none k i [] h = refl
find_cell-drop_none k i (x ∷ cs) h = ground (arith, find_cell-drop_none k i cs)

pub drop_key-IsProper : (k : Bytes) (cs : List Cell) → IsProper cs → IsProper (drop_key k cs)
unfolding drop_key
drop_key-IsProper k [] p = tt
drop_key-IsProper k (x ∷ cs) p = ground (
  arith,
  drop_key-IsProper k cs p.2,
  find_key-drop_none k x.key cs p.0,
  find_cell-drop_none k x.iter cs p.1,
)

-- Dropping the key leaves neither the key nor the iterator of its cell.
pub dropped_key_gone :
    (k : Bytes) (cs : List Cell) (c : Cell)
    → IsProper cs
    → find_key k cs ≡ some c
    → (find_key k (drop_key k cs) ≡ none) × (find_cell c.iter (drop_key k cs) ≡ none)
unfolding find_key find_cell drop_key
dropped_key_gone k [] c p e = cc
dropped_key_gone k (x ∷ cs) c p e =
    ground (arith, dropped_key_gone k cs c p.2, find_cell_of_key k cs c p.2)

pub find_key-drop_ne :
    (k q : Bytes) (cs : List Cell) → q ≢ k → find_key q (drop_key k cs) ≡ find_key q cs
unfolding find_key drop_key
find_key-drop_ne k q [] h = refl
find_key-drop_ne k q (x ∷ cs) h = ground (arith, find_key-drop_ne k q cs h)

pub length-drop_key :
    (k : Bytes) (cs : List Cell) (c : Cell)
    → find_key k cs ≡ some c
    → length (drop_key k cs) + 1 ≡ length cs
unfolding find_key drop_key
length-drop_key k [] c e = cc
length-drop_key k (x ∷ cs) c e = ground (arith, length-drop_key k cs c)

pub entries-drop_key :
    (k : Bytes) (cs : List Cell) → entries (drop_key k cs) ≡ erase Bytes_discrete k (entries cs)
unfolding drop_key erase
entries-drop_key k [] = refl
entries-drop_key k (x ∷ cs) = ground (arith, entries-drop_key k cs)

pub drop_key-All {ℓ} :
    (P : Cell → Type ℓ) (k : Bytes) (cs : List Cell) → All P cs → All P (drop_key k cs)
unfolding drop_key
drop_key-All P k [] h = tt
drop_key-All P k (x ∷ cs) h = elim (Bytes_discrete x.key k) [
  | yes e ↦ rw (if_pos _ e) h.1
  | no n ↦ rw (if_neg _ n) (h.0, drop_key-All P k cs h.1)
]

pub find_key-All {ℓ} :
    (P : Cell → Type ℓ) (k : Bytes) (cs : List Cell) (c : Cell)
    → All P cs
    → find_key k cs ≡ some c
    → P c
unfolding find_key
find_key-All P k [] c h e = cc
find_key-All P k (x ∷ cs) c h e = ground (arith, h.0, find_key-All P k cs c h.1)

-- An iterator that is not used yet denotes no cell.
pub find_cell_fresh : (i : ℕ) (cs : List Cell) → All (λ c. c.iter < i) cs → find_cell i cs ≡ none
unfolding find_cell
find_cell_fresh i [] h = refl
find_cell_fresh i (x ∷ cs) h = ground (arith, find_cell_fresh i cs h.1)

-- The last cell, and the list without it.
pub back-pop_back :
    (cs : List Cell) (n : ℕ)
    → length cs ≡ suc n
    → (c : Cell) × (back cs ≡ some c)
      × (pop_back cs ≡ take n cs)
      × (IsProper cs → (find_key c.key cs ≡ some c) × (drop_key c.key cs ≡ pop_back cs))
unfolding back pop_back find_key drop_key
back-pop_back [] n e = absurd (omega arith)
back-pop_back (x ∷ []) n e = (x, refl, ground arith, λ p. ground arith)
back-pop_back (x ∷ y ∷ cs) zero e = absurd (omega arith)
back-pop_back (x ∷ y ∷ cs) (suc n) e =
    let (c, last, rest, found) = back-pop_back (y ∷ cs) n (omega arith) in
    (c, last, ap (◌∷◌ x) rest, λ p. ground (arith, found p.2))
