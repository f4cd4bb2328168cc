-- ===== src/Producer/CharIndex.antt =====
-- `createIndex` of recommanderDump/DictProducer.cc. `utf8::next` is a parameter.
-- The source's map is walked in the order of its keys, the list here in the order in which the
-- characters were first seen, so `store` writes the same lines in another order.
use simple_search_enginer.Prelude.{
  ℕ, suc, ◌+◌, ◌≡◌, refl, ap, true, false, Bool, Option, some, List, [], ◌∷◌, Bytes, Bytes_discrete,
  ℤ, pos, ltz, ℤ_discrete, ite, assign, lookup-assign_self, lookup-assign_ne, ◌>>=◌, get_elem?,
  arith, All, subst, bind-some, ◌≢◌, zero,
}
use simple_search_enginer.Dictionary.{set_at, split_sought}
use simple_search_enginer.Dictionary.Files.{insert_int}

-- The loop over the characters of word `i`.
unfoldable pub index_chars : ℕ → List Bytes → List (Bytes × List ℤ) → List (Bytes × List ℤ)
index_chars i [] index = index
index_chars i (ch ∷ chs) index =
    index_chars i chs (assign Bytes_discrete ch (insert_int (pos i) (set_at ch index)) index)

-- The loop over `_dict`, from word `i` on. A word that is not UTF-8 is an uncaught exception.
unfoldable pub create_index :
    (Bytes → Option (Bytes × Bytes))
    → ℕ
    → List (Bytes × ℤ)
    → List (Bytes × List ℤ)
    → Option (List (Bytes × List ℤ))
unfolding index_chars
create_index next i [] index = some index
create_index next i (entry ∷ dict) index = do
  chs ← split_sought next entry.0
  create_index next (suc i) dict (index_chars i chs index)

-- Whether a number is in a set.
abbrev pub has_int : ℤ → List ℤ → Bool
has_int x [] = false
has_int x (y ∷ ys) = ite (ℤ_discrete y x) true (has_int x ys)

abbrev pub has_bytes : Bytes → List Bytes → Bool
has_bytes x [] = false
has_bytes x (y ∷ ys) = ite (Bytes_discrete y x) true (has_bytes x ys)

ltz-eq : (a b : ℤ) → ltz a b ≡ false → ltz b a ≡ false → a ≡ b
unfolding ltz
ltz-eq a b h k = ground arith

has_int-insert : (x y : ℤ) (xs : List ℤ) → has_int x xs ≡ true → has_int x (insert_int y xs) ≡ true
unfolding insert_int
has_int-insert x y [] h = cc
has_int-insert x y (z ∷ xs) h = ground (arith, has_int-insert x y xs)

has_int-insert_self : (x : ℤ) (xs : List ℤ) → has_int x (insert_int x xs) ≡ true
unfolding insert_int
has_int-insert_self x [] = ground arith
has_int-insert_self x (z ∷ xs) = ground (arith, has_int-insert_self x xs, ltz-eq x z)

set_at-assign_self :
    (ch : Bytes) (set : List ℤ) (index : List (Bytes × List ℤ))
    → set_at ch (assign Bytes_discrete ch set index) ≡ set
unfolding set_at
set_at-assign_self ch set index = ground (arith, lookup-assign_self Bytes_discrete ch set index)

set_at-assign_ne :
    (c ch : Bytes) (set : List ℤ) (index : List (Bytes × List ℤ))
    → ch ≢ c
    → set_at ch (assign Bytes_discrete c set index) ≡ set_at ch index
unfolding set_at
set_at-assign_ne c ch set index other =
    ground (arith, lookup-assign_ne Bytes_discrete c ch set index other)

-- A number that is in the set of a character stays there.
index_step-keeps :
    (i : ℕ) (c : Bytes) (index : List (Bytes × List ℤ)) (x : ℤ) (ch : Bytes)
    → has_int x (set_at ch index) ≡ true
    → has_int x (set_at ch (assign Bytes_discrete c (insert_int (pos i) (set_at c index)) index))
      ≡ true
index_step-keeps i c index x ch h = elim (Bytes_discrete ch c) [
  | yes same ↦
      subst
        (λ k.
          has_int x
            (set_at ch (assign Bytes_discrete k (insert_int (pos i) (set_at k index)) index))
          ≡ true)
        same
        (rw (set_at-assign_self ch (insert_int (pos i) (set_at ch index)) index)
          (has_int-insert x (pos i) (set_at ch index) h))
  | no other ↦ rw (set_at-assign_ne c ch (insert_int (pos i) (set_at c index)) index other) h
]

index_chars-keeps :
    (i : ℕ) (chs : List Bytes) (index : List (Bytes × List ℤ)) (x : ℤ) (ch : Bytes)
    → has_int x (set_at ch index) ≡ true
    → has_int x (set_at ch (index_chars i chs index)) ≡ true
unfolding index_chars
index_chars-keeps i [] index x ch h = h
index_chars-keeps i (c ∷ chs) index x ch h =
    index_chars-keeps i chs _ x ch (index_step-keeps i c index x ch h)

index_chars-has :
    (i : ℕ) (chs : List Bytes) (index : List (Bytes × List ℤ)) (ch : Bytes)
    → has_bytes ch chs ≡ true
    → has_int (pos i) (set_at ch (index_chars i chs index)) ≡ true
unfolding index_chars
index_chars-has i [] index ch h = cc
index_chars-has i (c ∷ chs) index ch h = elim (Bytes_discrete c ch) [
  | yes same ↦ index_chars-keeps i chs _ (pos i) ch (
      subst
        (λ k.
          has_int (pos i)
            (set_at k (assign Bytes_discrete c (insert_int (pos i) (set_at c index)) index))
          ≡ true)
        same
        (rw (set_at-assign_self c (insert_int (pos i) (set_at c index)) index)
          (has_int-insert_self (pos i) (set_at c index))))
  | no other ↦ index_chars-has i chs _ ch (ground (arith, h, other))
]

module _ (next : Bytes → Option (Bytes × Bytes)) where
  create_index-keeps :
      (i : ℕ) (dict : List (Bytes × ℤ)) (index index' : List (Bytes × List ℤ)) (x : ℤ) (ch : Bytes)
      → create_index next i dict index ≡ some index'
      → has_int x (set_at ch index) ≡ true
      → has_int x (set_at ch index') ≡ true
  unfolding create_index
  create_index-keeps i [] index index' x ch e h = ground (arith, e, h)
  create_index-keeps i (entry ∷ dict) index index' x ch e h =
      let (chs, cut, more) =
        bind-some (split_sought next entry.0)
          (λ cs. create_index next (suc i) dict (index_chars i cs index)) e in
      create_index-keeps (suc i) dict (index_chars i chs index) index' x ch more
        (index_chars-keeps i chs index x ch h)

  pub create_index-has :
      (i j n : ℕ) (dict : List (Bytes × ℤ)) (index index' : List (Bytes × List ℤ))
      (entry : Bytes × ℤ) (chs : List Bytes) (ch : Bytes)
      → create_index next i dict index ≡ some index'
      → get_elem? dict j ≡ some entry
      → n ≡ i + j
      → split_sought next entry.0 ≡ some chs
      → has_bytes ch chs ≡ true
      → has_int (pos n) (set_at ch index') ≡ true
  unfolding create_index
  create_index-has i j n [] index index' entry chs ch e at place cut has = cc
  create_index-has i zero n (head ∷ dict) index index' entry chs ch e at place cut has =
      let same : entry ≡ head = cc in
      let number : i ≡ n = omega arith in
      let (cs, parts, more) =
        bind-some (split_sought next head.0)
          (λ cs. create_index next (suc i) dict (index_chars i cs index)) e in
      let eq : chs ≡ cs = cc (cut, parts, ap (λ x. split_sought next x.0) same) in
      create_index-keeps (suc i) dict (index_chars i cs index) index' (pos n) ch more (
        subst (λ k. has_int (pos k) (set_at ch (index_chars i cs index)) ≡ true) number
          (index_chars-has i cs index ch (subst (λ x. has_bytes ch x ≡ true) eq has)))
  create_index-has i (suc j) n (head ∷ dict) index index' entry chs ch e at place cut has =
      let (cs, _, more) =
        bind-some (split_sought next head.0)
          (λ cs. create_index next (suc i) dict (index_chars i cs index)) e in
      create_index-has (suc i) j n dict (index_chars i cs index) index' entry chs ch more at
        (omega arith) cut has

  -- A word of the dictionary that `utf8::next` cuts into characters.
  abbrev pub IsText : Bytes × ℤ → Type 0
  IsText entry = (chs : List Bytes) × (split_sought next entry.0 ≡ some chs)

  create_index-made :
      (i : ℕ) (dict : List (Bytes × ℤ)) (index : List (Bytes × List ℤ))
      → All IsText dict
      → (index' : List (Bytes × List ℤ)) × (create_index next i dict index ≡ some index')
  unfolding create_index
  create_index-made i [] index h = (index, refl)
  create_index-made i (entry ∷ dict) index h =
      let (chs, cut) = h.0 in
      let (index', made) = create_index-made (suc i) dict (index_chars i chs index) h.1 in
      (index', rw cut made)

  -- `createIndex` makes an index of a dictionary whose words are all cut into characters, and the
  -- place of each word is in the set of each of its characters.
  pub create_index_complete :
      (dict : List (Bytes × ℤ)) (j : ℕ) (entry : Bytes × ℤ) (chs : List Bytes) (ch : Bytes)
      → All IsText dict
      → get_elem? dict j ≡ some entry
      → split_sought next entry.0 ≡ some chs
      → has_bytes ch chs ≡ true
      → (index : List (Bytes × List ℤ)) × (create_index next 0 dict [] ≡ some index)
        × (has_int (pos j) (set_at ch index) ≡ true)
  create_index_complete dict j entry chs ch texts at cut has =
      let (index, made) = create_index-made 0 dict [] texts in
      (index, made, create_index-has 0 j j dict [] index entry chs ch made at (omega arith) cut has)
