-- ===== src/Dictionary.antt =====
-- `Dictionary::doQuery` of src/recommander/Dictionary.cc, and the order of
-- include/recommander/CandidateResult.h. `utf8::next` of utf8-cpp and the heap of
-- `std::priority_queue`, which may break ties as it likes, are parameters.
pub mod Popping
pub mod Best
pub mod Filling
pub mod Distinct
pub mod Query
pub mod Answers
pub mod Itself
pub mod Splitting
pub mod Files
pub mod Solitaire
pub mod ListQueue
mod Runs
use simple_search_enginer.Prelude.{
  ℕ, zero, suc, ◌+◌, ◌≡◌, Bool, true, false, Option, none, some, List, [], ◌∷◌, ◌++◌, Bytes,
  Bytes_discrete, ℤ, pos, negsuc, ltz, ltb, ite, ◌==◌, if◌then◌else◌, ◌>>=◌, length, get_elem?,
  lookup, assign, All,
}
use mathlib.Core.Option
use mathlib.Core.List.{Permᴰ}
use simple_search_enginer.Distance.{edit_distance}

-- `CandidateResult`
pub record Candidate : Type 0 where
  pub word : Bytes
  pub fre : ℤ
  pub dis : ℕ

-- `operator<`: the far words come before the near ones, then the rare before the frequent.
unfoldable pub less : Candidate → Candidate → Bool
less a b = if a.dis == b.dis then ltz a.fre b.fre else ltb b.dis a.dis

-- `priority_queue<CandidateResult>`; `top` and `pop` of an empty queue are undefined behaviour.
pub record PriorityQueue : Type 1 where
  pub Queue : Type 0
  pub contents : Queue → List Candidate
  pub empty : Queue
  pub push : Candidate → Queue → Queue
  pub top : Queue → Option Candidate
  pub pop : Queue → Option Queue
  pub empty_lem : contents empty ≡ []
  pub push_lem : (c : Candidate) (q : Queue) → Permᴰ (contents (push c q)) (c ∷ contents q)
  pub top_none : (q : Queue) → contents q ≡ [] → top q ≡ none
  pub top_some :
      (q : Queue) (c : Candidate) (cs : List Candidate)
      → contents q ≡ c ∷ cs
      → (t : Candidate) × (q' : Queue) × (top q ≡ some t)
        × (pop q ≡ some q')
        × Permᴰ (contents q) (t ∷ contents q')
        × All (λ d. less t d ≡ false) (contents q')

pub record Dictionary : Type 0 where
  pub dict : List (Bytes × ℤ)
  pub index : List (Bytes × List ℤ)

-- The copy `_set` of `_index[key]`.
unfoldable pub set_at : Bytes → List (Bytes × List ℤ) → List ℤ
set_at key index = elim (lookup Bytes_discrete key index) [
  | Option.none ↦ []
  | Option.some set ↦ set
]

-- `_index[key]` makes an empty set for a key that is not there.
unfoldable pub touch : Bytes → List (Bytes × List ℤ) → List (Bytes × List ℤ)
touch key index = elim (lookup Bytes_discrete key index) [
  | Option.none ↦ assign Bytes_discrete key [] index
  | Option.some set ↦ index
]

-- `candidateWord` for `*it`; an index out of the dictionary is undefined behaviour.
unfoldable pub candidate : List (Bytes × ℤ) → Bytes → ℤ → Option Candidate
candidate dict sought (negsuc i) = none
candidate dict sought (pos i) = do
  entry ← get_elem? dict i
  d ← edit_distance sought entry.0
  some (record { word = entry.0; fre = entry.1; dis = d })

unfoldable pub is_empty : List Candidate → Bool
is_empty [] = true
is_empty (c ∷ cs) = false

-- The `while` loop of `splitSought`, with fuel.
unfoldable pub split_loop : (Bytes → Option (Bytes × Bytes)) → ℕ → Bytes → Option (List Bytes)
split_loop next n [] = some []
split_loop next zero (c ∷ s) = none
split_loop next (suc n) (c ∷ s) = do
  cut ← next (c ∷ s)
  words ← split_loop next n cut.1
  some (cut.0 ∷ words)

unfoldable pub split_sought : (Bytes → Option (Bytes × Bytes)) → Bytes → Option (List Bytes)
split_sought next sought = split_loop next (length sought) sought

module _ (queues : PriorityQueue) where
  open queues use {Queue, contents, empty, push, top, pop}

  -- The loop over `_set`.
  unfoldable pub push_set : List (Bytes × ℤ) → Bytes → List ℤ → Queue → Option Queue
  push_set dict sought [] que = some que
  push_set dict sought (i ∷ is) que = do
    c ← candidate dict sought i
    push_set dict sought is (push c que)

  -- The loop over the words, with the index that it changes.
  unfoldable pub push_words :
      List (Bytes × ℤ)
      → Bytes
      → List Bytes
      → List (Bytes × List ℤ)
      → Queue
      → Option (List (Bytes × List ℤ) × Queue)
  push_words dict sought [] index que = some (index, que)
  push_words dict sought (w ∷ ws) index que = do
    que' ← push_set dict sought (set_at w index) que
    push_words dict sought ws (touch w index) que'

  -- The loop over `ret` that pops words found before.
  unfoldable pub skip : List Bytes → Queue → Option Queue
  skip [] que = some que
  skip (r ∷ rs) que = do
    c ← top que
    que' ← ite (Bytes_discrete r c.word) (pop que) (some que)
    skip rs que'

  -- `while(cnt)`
  unfoldable pub collect : ℕ → List Bytes → Queue → Option (List Bytes)
  collect zero ret que = some ret
  collect (suc cnt) ret que = if is_empty (contents que) then some ret else do
    que' ← skip ret que
    c ← top que'
    que'' ← pop que'
    collect cnt (ret ++ (c.word ∷ [])) que''

  unfoldable pub do_query :
      (Bytes → Option (Bytes × Bytes)) → Dictionary → Bytes → Option (Dictionary × List Bytes)
  do_query next d sought = do
    words ← split_sought next sought
    pushed ← push_words d.dict sought words d.index empty
    ret ← collect 5 [] pushed.1
    some (record d { index = pushed.0 }, ret)
