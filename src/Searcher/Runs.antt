-- ===== src/Searcher/Runs.antt =====
-- Tests of the model of src/WebPageSearcher.cc, and its theorems at a small index.
use simple_search_enginer.Prelude.{
  ℕ, ◌+◌, ◌-◌, ◌*◌, ◌/◌, ◌≤◌, ◌≡◌, refl, true, false, ◌&&◌, Option, none, some, List, [], ◌∷◌,
  Bytes, Bytes_discrete, ℕ_discrete, ℤ, ℤ_discrete, pos, ltz, stoi, unsigned, arith, ltb, take,
  drop, assign, at_key, touch_key, set_insert, getlines,
}
use simple_search_enginer.Utf8.{n_bytes_code}
use simple_search_enginer.Utf8.Chars.{concat}
use simple_search_enginer.Protocol.{c_str}
use simple_search_enginer.Searcher.{
  Doubles, PageText, Posting, WebPage, Searcher, Table, has_id, ids, found_ids, postings, touch,
  multi_loop, multi_query, weights_of, weights_loop, posting_less, page_less, read_between,
  get_web_page_set, posting_loop, sim_calc, query_weights, cosine, sums, cosine_loop, single_query,
}
use simple_search_enginer.Searcher.Answer.{split_keys, key_loop, do_query}
use simple_search_enginer.Searcher.Files.{
  init_offset, init_invert_index, until_empty, index_lines, index_bytes, index_byte, blank,
  take_position, offset_lines, offset_bytes, offset_blank, size_to_int,
}
use simple_search_enginer.Searcher.Snippet.{snippet}
use simple_search_enginer.Searcher.Snippet.Cuts.{IsCut}
use simple_search_enginer.Searcher.Snippet.Bounds
use simple_search_enginer.Searcher.Snippet.Bounds.{BeginsAt, EndsAt}
use simple_search_enginer.Searcher.Ids
use simple_search_enginer.Searcher.Ids.{has_key}
use simple_search_enginer.Searcher.Missing
use simple_search_enginer.Searcher.Ranking.{IsStored, IsRanking, HasWeight}
use simple_search_enginer.Searcher.Ranking.OneKey
use simple_search_enginer.Searcher.Ranking.OneKey.{Posted}
use simple_search_enginer.Searcher.Ranking.ManyKeys
use simple_search_enginer.Searcher.Ranking.ManyKeys.{Found}

ltb_self : (a : ℕ) → ltb a a ≡ false
ltb_self a = ground arith

ltb_trans : (a b c : ℕ) → ltb a b ≡ true → ltb b c ≡ true → ltb a c ≡ true
ltb_trans a b c h k = ground arith

-- Whole numbers in place of `double`, with 1 for every root.
abbrev whole : Doubles
whole = record {
  Real = ℕ;
  of_nat = λ n. n;
  add = λ a b. a + b;
  mul = λ a b. a * b;
  div = λ a b. a / b;
  sqrt = λ a. 1;
  log2 = λ a. a;
  lt = ltb;
  stod = unsigned;
  to_size = λ n. some n;
  lt_self = ltb_self;
  lt_trans = ltb_trans;
}

-- A page that consists of its number.
abbrev parse : Bytes → Option PageText
parse buf = some (record { docid = buf; title = []; link = []; description = [] })

abbrev post : ℕ → ℕ → Posting whole parse
post i weight = record { id = pos i; w = weight; at = pos 0 }

abbrev key_a : Bytes
key_a = 97 ∷ []

abbrev key_b : Bytes
key_b = 98 ∷ []

abbrev key_c : Bytes
key_c = 99 ∷ []

-- Page 1 has the first two keys, page 2 has all.
abbrev table : Table whole parse
table =
    (key_a, post 1 5 ∷ post 2 6 ∷ [])
    ∷ (key_b, post 1 4 ∷ post 2 7 ∷ [])
    ∷ (key_c, post 2 3 ∷ [])
    ∷ []

abbrev start : Searcher whole parse
start = record { offsets = (pos 1, (pos 0, pos 1)) ∷ (pos 2, (pos 1, pos 2)) ∷ []; table = table }

-- "12"
abbrev file : Bytes
file = 49 ∷ 50 ∷ []

program : Unit {0}
unfolding Bytes_discrete ℕ_discrete ℤ_discrete assign at_key touch_key set_insert stoi unsigned ltz
    has_id ids found_ids postings touch multi_loop multi_query single_query weights_of weights_loop
    posting_less page_less read_between c_str get_web_page_set posting_loop cosine_loop cosine sums
    query_weights sim_calc key_loop split_keys getlines until_empty index_lines index_bytes
    index_byte blank take_position init_invert_index offset_lines offset_bytes offset_blank
    size_to_int init_offset
program = tt

three_keys : split_keys (97 ∷ 32 ∷ 98 ∷ 32 ∷ 99 ∷ []) ≡ key_a ∷ key_b ∷ key_c ∷ []
unfolding program
three_keys = refl

both_pages : multi_query whole parse table (key_a ∷ key_b ∷ []) ≡ some (table, pos 1 ∷ pos 2 ∷ [])
unfolding program
both_pages = refl

abbrev page : ℕ → ℕ → WebPage whole parse
page i cosine = record { id = pos i; title = []; link = []; description = []; cos = cosine }

ranked :
    sim_calc whole parse file start (key_a ∷ []) (pos 1 ∷ pos 2 ∷ [])
    ≡ some (start, page 2 6 ∷ page 1 5 ∷ [])
unfolding program
ranked = refl

-- "a 1 5 0 ,2 6 0 ," and "1 0 1 \n2 1 2 \n"
read_index :
    init_invert_index whole parse
      (97 ∷ 32 ∷ 49 ∷ 32 ∷ 53 ∷ 32 ∷ 48 ∷ 32 ∷ 44 ∷ 50 ∷ 32 ∷ 54 ∷ 32 ∷ 48 ∷ 32 ∷ 44 ∷ [])
    ≡ some ((key_a, post 1 5 ∷ post 2 6 ∷ []) ∷ [])
unfolding program
read_index = refl

read_offset :
    init_offset whole parse
      (49 ∷ 32 ∷ 48 ∷ 32 ∷ 49 ∷ 32 ∷ 10 ∷ 50 ∷ 32 ∷ 49 ∷ 32 ∷ 50 ∷ 32 ∷ 10 ∷ [])
    ≡ some start.offsets
unfolding program
read_offset = refl

multi_query-has_key_example :
    (table' : Table whole parse) × (found : List ℤ) × (multi_query whole parse table
        (key_a ∷ key_c ∷ [])
      ≡ some (table', found))
    × ((j : Bytes) → postings whole parse j table' ≡ postings whole parse j table)
    × ((i : ℤ)
        → has_id i found
          ≡ has_id i (ids whole parse (postings whole parse key_a table))
            && has_key whole parse i table (key_c ∷ []))
multi_query-has_key_example = Ids.multi_query-has_key whole parse table key_a (key_c ∷ [])

first_has : has_id (pos 1) (ids whole parse (postings whole parse key_a table)) ≡ true
unfolding program
first_has = refl

second_has : has_key whole parse (pos 1) table (key_b ∷ key_c ∷ []) ≡ true
unfolding program
second_has = refl

posted_twice : Missing.posted whole parse (pos 1) table (key_a ∷ key_b ∷ key_c ∷ []) ≡ 2
unfolding program
posted_twice = refl

do_query-missing_example :
    do_query whole parse (λ pages. []) file start (97 ∷ 32 ∷ 98 ∷ 32 ∷ 99 ∷ []) ≡ none
do_query-missing_example =
    Missing.do_query-missing whole parse (λ pages. []) file start (97 ∷ 32 ∷ 98 ∷ 32 ∷ 99 ∷ [])
      key_a key_b (key_c ∷ []) (pos 1) three_keys first_has second_has (omega (arith, posted_twice))

first-IsStored : IsStored whole parse file start.offsets (pos 1) (page 1 5)
unfolding program
first-IsStored = record {
  buf = 49 ∷ [];
  text = record { docid = 49 ∷ []; title = []; link = []; description = [] };
  cut = refl;
  parsed = refl;
  numbered = refl;
  titled = refl;
  linked = refl;
  described = refl;
}

second-IsStored : IsStored whole parse file start.offsets (pos 2) (page 2 6)
unfolding program
second-IsStored = record {
  buf = 50 ∷ [];
  text = record { docid = 50 ∷ []; title = []; link = []; description = [] };
  cut = refl;
  parsed = refl;
  numbered = refl;
  titled = refl;
  linked = refl;
  described = refl;
}

both-Posted :
    Posted whole parse file start.offsets
      (postings whole parse key_a table)
      (page 1 5 ∷ page 2 6 ∷ [])
unfolding program
both-Posted = (first-IsStored, refl, (second-IsStored, refl, tt))

sim_calc-one_key_example :
    (s' : Searcher whole parse) × (pages : List (WebPage whole parse)) × (sim_calc whole parse file
        start
        (key_a ∷ [])
        (pos 1 ∷ pos 2 ∷ [])
      ≡ some (s', pages))
    × IsRanking whole parse (page 1 5 ∷ page 2 6 ∷ []) pages
    × ((i : ℤ)
        → at_key ℤ_discrete (pos 0, pos 0) i s'.offsets
          ≡ at_key ℤ_discrete (pos 0, pos 0) i start.offsets)
    × ((j : Bytes) → postings whole parse j s'.table ≡ postings whole parse j table)
sim_calc-one_key_example =
    OneKey.sim_calc-one_key whole parse file start key_a (pos 1 ∷ pos 2 ∷ [])
      (page 1 5 ∷ page 2 6 ∷ []) both-Posted

ranked_by_angle :
    sim_calc whole parse file start (key_a ∷ key_b ∷ []) (pos 1 ∷ pos 2 ∷ [])
    ≡ some (start, page 2 26 ∷ page 1 18 ∷ [])
unfolding program
ranked_by_angle = refl

-- The first posting of two.
weight_first : (v w : ℕ) → HasWeight whole parse (pos 1) (post 1 v ∷ post 2 w ∷ []) v
unfolding program
weight_first v w = record {
  before = [];
  posting = post 1 v;
  after = post 2 w ∷ [];
  parts = refl;
  same_id = refl;
  same_w = refl;
  none_before = refl;
  none_after = refl;
}

weight_second : (v w : ℕ) → HasWeight whole parse (pos 2) (post 1 v ∷ post 2 w ∷ []) w
unfolding program
weight_second v w = record {
  before = post 1 v ∷ [];
  posting = post 2 w;
  after = [];
  parts = refl;
  same_id = refl;
  same_w = refl;
  none_before = refl;
  none_after = refl;
}

page-IsStored :
    (i v w : ℕ)
    → IsStored whole parse file start.offsets (pos i) (page i v)
    → IsStored whole parse file start.offsets (pos i) (page i w)
page-IsStored i v w h = record {
  buf = h.buf;
  text = h.text;
  cut = h.cut;
  parsed = h.parsed;
  numbered = h.numbered;
  titled = h.titled;
  linked = h.linked;
  described = h.described;
}

both-Found :
    Found whole parse file start.offsets table
      (key_a ∷ key_b ∷ [])
      (pos 1 ∷ pos 2 ∷ [])
      (page 1 18 ∷ page 2 26 ∷ [])
unfolding program
both-Found = (
  page-IsStored 1 5 18 first-IsStored,
  5 ∷ 4 ∷ [],
  (weight_first 5 6, (weight_first 4 7, tt)),
  refl,
  (
    page-IsStored 2 6 26 second-IsStored,
    6 ∷ 7 ∷ [],
    (weight_second 5 6, (weight_second 4 7, tt)),
    refl,
    tt,
  ),
)

sim_calc-many_keys_example :
    (s' : Searcher whole parse) × (pages : List (WebPage whole parse)) × (sim_calc whole parse file
        start
        (key_a ∷ key_b ∷ [])
        (pos 1 ∷ pos 2 ∷ [])
      ≡ some (s', pages))
    × IsRanking whole parse (page 1 18 ∷ page 2 26 ∷ []) pages
    × ((i : ℤ)
        → at_key ℤ_discrete (pos 0, pos 0) i s'.offsets
          ≡ at_key ℤ_discrete (pos 0, pos 0) i start.offsets)
    × ((j : Bytes) → postings whole parse j s'.table ≡ postings whole parse j table)
sim_calc-many_keys_example =
    ManyKeys.sim_calc-many_keys whole parse file start key_a key_b [] (pos 1 ∷ pos 2 ∷ [])
      (page 1 18 ∷ page 2 26 ∷ []) both-Found

-- "aé"
abbrev chars : List Bytes
chars = (97 ∷ []) ∷ (0xc3 ∷ 0xa9 ∷ []) ∷ []

snippet-IsCut_example :
    (b e : ℕ) × (snippet 40 (concat chars) ≡ some (take (e - b) (drop b (concat chars))))
    × IsCut chars b
    × IsCut chars e
    × (b ≤ e)
    × BeginsAt 40 chars b
    × EndsAt 40 chars e
unfolding n_bytes_code
snippet-IsCut_example = Bounds.snippet-IsCut 40 chars (omega arith) (omega arith) (refl, (refl, tt))
