-- ===== src/Server/Runs.antt =====
-- The server of src/EchoServer.cc at a small dictionary and one cache.
use simple_search_enginer.Prelude.{
  ℕ, zero, suc, ◌+◌, ◌*◌, ◌/◌, ◌≡◌, refl, true, false, Option, none, some, List, [], ◌∷◌, ◌++◌,
  Bytes, ℤ, pos, ltb, arith, All, unsigned, length,
}
use simple_search_enginer.Lru
use simple_search_enginer.Lru.{LruCache}
use simple_search_enginer.Lru.Invariant.{init-IsValid}
use simple_search_enginer.Recommender.{Candidates, choice}
use simple_search_enginer.Recommender.Transparency.{IsCoherent}
use simple_search_enginer.Searcher.{Doubles, PageText}
use simple_search_enginer.Searcher.Answer.{PageJson}
use simple_search_enginer.Protocol.{pack, int_bytes}
use simple_search_enginer.Protocol.Dispatch.{Reply}
use simple_search_enginer.Sockets.{Arrival, ready}
use simple_search_enginer.Sockets.Readn.{IsOpen}
use simple_search_enginer.Server.{word_at, rand_loop, get_rand_keys, Shared, on_message}
use simple_search_enginer.Server.Recommending

twice_lem :
    (s : Unit {0}) (k : Bytes) (v : List Bytes)
    → some (k ∷ k ∷ []) ≡ some v
    → (s' : Unit {0}) × (◌≡◌ {A = Option (Unit {0} × List Bytes)}
        (some (s, k ∷ k ∷ []))
        (some (s', v)))
      × ((q : Bytes) → some (q ∷ q ∷ []) ≡ some (q ∷ q ∷ []))
twice_lem s k v h = (s, ground arith, λ q. refl)

-- A dictionary that proposes the word itself, two times.
abbrev twice : Candidates
twice = record {
  State = Unit {0};
  query = λ s k. some (s, k ∷ k ∷ []);
  answer = λ s k. some (k ∷ k ∷ []);
  query_lem = twice_lem;
}

ltb_self : (a : ℕ) → ltb a a ≡ false
ltb_self a = ground arith

ltb_trans : (a b c : ℕ) → ltb a b ≡ true → ltb b c ≡ true → ltb a c ≡ true
ltb_trans a b c h k = ground arith

-- Whole numbers in place of `double`.
abbrev whole : Doubles
whole = record {
  Real = ℕ;
  of_nat = λ n. n;
  add = λ a b. a + b;
  mul = λ a b. a * b;
  div = λ a b. a / b;
  sqrt = λ a. a;
  log2 = λ a. a;
  lt = ltb;
  stod = unsigned;
  to_size = some;
  lt_self = ltb_self;
  lt_trans = ltb_trans;
}

abbrev no_page : Bytes → Option PageText
no_page buf = none

abbrev blank_print : List PageJson → Bytes
blank_print pages = []

-- The words "a" and "b", and `rand` that counts.
abbrev two_words : Unit {0} → List (Bytes × ℤ)
two_words s = (97 ∷ [], pos 1) ∷ (98 ∷ [], pos 1) ∷ []

abbrev counting : ℕ → ℕ → ℕ
counting time i = time + i

abbrev Small : Type 0
Small = Shared twice two_words counting whole no_page blank_print []

abbrev started : Small
started = record {
  dic = tt;
  caches = Lru.init 3 ∷ [];
  searcher = record { offsets = []; table = [] };
  clock = 0;
}

abbrev nine : ℕ → List Arrival
nine zero = []
nine (suc n) = ready 0 ∷ ready 8 ∷ nine n

nine-opened : (n : ℕ) → All IsOpen (nine n)
nine-opened zero = tt
nine-opened (suc n) = (tt, (tt, nine-opened n))

fresh-IsCoherent : IsCoherent twice tt (Lru.init 3)
unfolding Lru.init
fresh-IsCoherent = record { valid = init-IsValid 3; holds = record { entries = tt; pending = tt } }

own_chosen : choice (Lru.init 3 ∷ []) 0 ≡ some 0
unfolding choice Lru.init
own_chosen = refl

on_message-recommends_example :
    (packed : Bytes) × (t : Small) × (left : List Arrival) × (pack (98 ∷ []) 1 [] ≡ some packed)
    × (on_message twice two_words counting whole no_page blank_print [] started 0
          (packed ++ (5 ∷ []))
          (nine 10)
        ≡ some (
          t,
          (
            Reply.suggestions (98 ∷ []) ((98 ∷ []) ∷ (98 ∷ []) ∷ []),
            record { got = packed; incoming = 5 ∷ []; events = left },
          ),
        ))
    × ((q : Bytes) → twice.answer t.dic q ≡ twice.answer tt q)
    × All (IsCoherent twice t.dic) t.caches
    × (length t.caches ≡ 1)
unfolding int_bytes
on_message-recommends_example =
    Recommending.on_message-recommends twice two_words counting whole no_page blank_print [] started
      0 0 (98 ∷ []) (5 ∷ []) ((98 ∷ []) ∷ (98 ∷ []) ∷ []) (nine 10) (omega arith) (omega arith)
      (omega arith) (nine-opened 10) (omega arith) (fresh-IsCoherent, tt) own_chosen (omega arith)
      refl

-- Five words, any of them more than once.
get_rand_keys-counting :
    get_rand_keys (counting 0) (two_words tt) []
    ≡ some ((97 ∷ []) ∷ (98 ∷ []) ∷ (97 ∷ []) ∷ (98 ∷ []) ∷ (97 ∷ []) ∷ [])
unfolding get_rand_keys rand_loop word_at
get_rand_keys-counting = refl
