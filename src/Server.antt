-- ===== src/Server.antt =====
-- The server of src/EchoServer.cc: the parts put together, with the random keys of
-- src/recommander/Dictionary.cc. The dictionary is taken by its interface, and `rand` and the JSON
-- printer are parameters.
pub mod Recommending
mod Runs
use mathlib.Core.Option
use simple_search_enginer.Prelude.{
  ℕ, zero, suc, ◌%◌, Option, none, some, List, [], ◌∷◌, ◌++◌, Bytes, ℤ, length, get_elem?, ◌>>=◌,
}
use simple_search_enginer.Lru.{LruCache}
use simple_search_enginer.Recommender
use simple_search_enginer.Recommender.{Candidates, Outcome}
use simple_search_enginer.Dictionary.Solitaire.{solitaire_keys}
use simple_search_enginer.Searcher.{Doubles, PageText, Searcher}
use simple_search_enginer.Searcher.Answer
use simple_search_enginer.Searcher.Answer.{PageJson}
use simple_search_enginer.Protocol.Dispatch.{Services, Reply, process}
use simple_search_enginer.Sockets.{Arrival, Reading, receive}

-- `i % n` is undefined for no words.
unfoldable pub word_at : List (Bytes × ℤ) → ℕ → Option Bytes
word_at [] i = none
word_at (w ∷ dict) i = do entry ← get_elem? (w ∷ dict) (i % length (w ∷ dict)); some entry.0

-- The loop of `getRandKeys`, with the rounds that are left; `rand` gives the numbers since `srand`.
unfoldable pub rand_loop : (ℕ → ℕ) → ℕ → ℕ → List (Bytes × ℤ) → List Bytes → Option (List Bytes)
rand_loop rand zero i dict keys = some keys
rand_loop rand (suc rounds) i dict keys = do
  key ← word_at dict (rand i)
  rand_loop rand rounds (suc i) dict (keys ++ (key ∷ []))

unfoldable pub get_rand_keys : (ℕ → ℕ) → List (Bytes × ℤ) → List Bytes → Option (List Bytes)
unfolding rand_loop
get_rand_keys rand dict keys = rand_loop rand 5 0 dict keys

-- `words` is the list of a dictionary, and `rand` depends on the time.
module _ (d : Candidates) (words : d.State → List (Bytes × ℤ)) (rand : ℕ → ℕ → ℕ)
    (doubles : Doubles) (parse_page : Bytes → Option PageText) (print : List PageJson → Bytes)
    (page_file : Bytes) where
  -- What the tasks of all threads share, and the time.
  pub record Shared : Type 0 where
    pub dic : d.State
    pub caches : List LruCache
    pub searcher : Searcher doubles parse_page
    pub clock : ℕ

  unfoldable pub recommend : Shared → Bytes → ℕ → Option (Shared × List Bytes)
  recommend s line thread = Recommender.do_query d s.dic s.caches line thread >>= λ o.
      some (record s { dic = o.dic; caches = o.caches }, o.res)

  unfoldable pub search_pages : Shared → Bytes → Option (Shared × Bytes)
  search_pages s line = Answer.do_query doubles parse_page print page_file s.searcher line >>= λ r.
      some (record s { searcher = r.0 }, r.1)

  unfoldable pub rand_dict : Shared → Option (Shared × List Bytes)
  unfolding get_rand_keys
  rand_dict s = get_rand_keys (rand s.clock) (words s.dic) [] >>= λ keys.
      some (record s { clock = suc s.clock }, keys)

  unfoldable pub last_words : Shared → Bytes → Option (Shared × List Bytes)
  last_words s line = solitaire_keys (words s.dic) line [] >>= λ keys. some (s, keys)

  -- `DataBag` as a task sees it.
  abbrev pub server_services : Services
  server_services = record {
    State = Shared;
    recommend = recommend;
    search_pages = search_pages;
    rand_dict = rand_dict;
    solitaire_keys = last_words;
  }

  -- `onMessage` and the task that it adds, run by a thread: the reply, and what is left to read.
  unfoldable pub on_message :
      Shared → ℕ → Bytes → List Arrival → Option (Shared × (Reply × Reading))
  on_message s thread incoming events = receive incoming events >>= λ r.
      process server_services s thread r.got >>= λ t. some (t.0, (t.1, r))
