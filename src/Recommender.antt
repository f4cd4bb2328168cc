-- ===== src/Recommender.antt =====
-- `KeyRecommander` of src/recommander/KeyRecommander.cc. The dictionary is taken by its interface,
-- which the model of Dictionary.cc fills. A query is one step, and the word that the source keeps
-- in the member `_sought` is an argument.
pub mod Choice
pub mod Transparency
pub mod Service
pub mod Keeping
pub mod Interleaving
pub mod Starting
mod Traces
pub mod Runs
use simple_search_enginer.Prelude.{
  ℕ, ◌+◌, ◌≡◌, Bool, true, false, Option, none, some, List, Bytes, get_elem?, set, if◌then◌else◌,
  ◌>>=◌,
}
use mathlib.Core.Option
use simple_search_enginer.Lru
use simple_search_enginer.Lru.{LruCache}
use simple_search_enginer.Manager.{get_cache}

-- A dictionary that is asked for the candidates of a word. A query may change the dictionary, but
-- no later answer. `none` is undefined behaviour in the query.
pub record Candidates : Type 1 where
  pub State : Type 0
  pub query : State → Bytes → Option (State × List Bytes)
  pub answer : State → Bytes → Option (List Bytes)
  pub query_lem :
      (s : State) (k : Bytes) (v : List Bytes)
      → answer s k ≡ some v
      → (s' : State) × (query s k ≡ some (s', v)) × ((q : Bytes) → answer s' q ≡ answer s q)

-- The cache that thread `idx` works on: another one while its own is being updated.
unfoldable pub choice : List LruCache → ℕ → Option ℕ
choice caches idx = do own ← get_elem? caches idx; some (idx + (if own.is_updating then 4 else 0))

module _ (d : Candidates) where
  open d use {State, query}

  pub record Outcome : Type 0 where
    pub dic : State
    pub caches : List LruCache
    pub res : List Bytes

  -- What follows a look at the chosen cache.
  unfoldable pub answer_from :
      State → List LruCache → ℕ → Bytes → LruCache × Option (List Bytes) → Option Outcome
  answer_from dic caches use_idx sought (lru, some res) =
      some (record { dic = dic; caches = set caches use_idx lru; res = res })
  answer_from dic caches use_idx sought (lru, none) = do
    (dic', res) ← query dic sought
    lru' ← Lru.put lru sought res
    some (record { dic = dic'; caches = set caches use_idx lru'; res = res })

  unfoldable pub do_query : State → List LruCache → Bytes → ℕ → Option Outcome
  unfolding answer_from
  do_query dic caches sought idx = do
    use_idx ← choice caches idx
    lru ← get_cache caches use_idx
    found ← Lru.get lru sought
    answer_from dic caches use_idx sought found
