-- ===== src/Searcher.antt =====
-- `WebPageSearcher` of src/WebPageSearcher.cc: the search for the pages of some keys. `double` and
-- the XML parser of tinyxml2 are parameters.
pub mod Snippet
pub mod Files
pub mod Answer
pub mod Keys
pub mod Ids
pub mod Ranking
pub mod Missing
mod Runs
use simple_search_enginer.Prelude.{
  ℕ, zero, suc, ◌+◌, ◌-◌, ◌≡◌, Bool, true, false, not, ◌&&◌, ◌||◌, Option, none, some, List, [],
  ◌∷◌, ◌++◌, map, Bytes, Bytes_discrete, ℤ, ℤ_discrete, pos, negsuc, ltz, stoi, ltb, leb, ite, ◌==◌,
  if◌then◌else◌, ◌>>=◌, length, take, drop, replicate, at_key, touch_key, set_insert,
}
use mathlib.Core.Option
use simple_search_enginer.Protocol.{c_str}

-- `double`. The two laws hold for all values, NaN included.
pub record Doubles : Type 1 where
  pub Real : Type 0
  pub of_nat : ℕ → Real
  pub add : Real → Real → Real
  pub mul : Real → Real → Real
  pub div : Real → Real → Real
  pub sqrt : Real → Real
  pub log2 : Real → Real
  pub lt : Real → Real → Bool
  pub stod : Bytes → Option Real
  pub to_size : Real → Option ℕ
  pub lt_self : (a : Real) → lt a a ≡ false
  pub lt_trans : (a b c : Real) → lt a b ≡ true → lt b c ≡ true → lt a c ≡ true

-- The texts of the elements of a page, as tinyxml2 gives them; `none` is a null pointer that the
-- code follows.
pub record PageText : Type 0 where
  pub docid : Bytes
  pub title : Bytes
  pub link : Bytes
  pub description : Bytes

-- `char buf[65536] = {0}; ifs.read(buf, readNum)` from `beg` to `end` of the file. A number of
-- bytes below zero, or bytes that leave no room for a zero at the end, are undefined behaviour; a
-- failed seek reads nothing.
unfoldable pub read_between : ℤ → ℤ → Bytes → Option Bytes
read_between (negsuc b) end file = some []
read_between (pos b) (negsuc e) file = none
read_between (pos b) (pos e) file =
    let got = take (e - b) (drop b file) in
    if leb b e && ltb (length got) 65536 then some (c_str got) else none

-- The positions of the pages: `unordered_map<int, pair<int, int>>`.
abbrev pub Offsets : Type 0
Offsets = List (ℤ × (ℤ × ℤ))

unfoldable pub has_id : ℤ → List ℤ → Bool
has_id i [] = false
has_id i (j ∷ js) = ite (ℤ_discrete j i) true (has_id i js)

module _ (doubles : Doubles) (parse_page : Bytes → Option PageText) where
  open doubles use {Real, of_nat, add, mul, div, sqrt, log2, lt}

  -- `pair<int, pair<double, int>>`
  pub record Posting : Type 0 where
    pub id : ℤ
    pub w : Real
    pub at : ℤ

  -- `operator<` of the pairs.
  unfoldable pub posting_less : Posting → Posting → Bool
  posting_less p q =
      ltz p.id q.id || (not (ltz q.id p.id) && (lt p.w q.w || (not (lt q.w p.w) && ltz p.at q.at)))

  abbrev pub Table : Type 0
  Table = List (Bytes × List Posting)

  pub record WebPage : Type 0 where
    pub id : ℤ
    pub title : Bytes
    pub link : Bytes
    pub description : Bytes
    pub cos : Real

  -- `operator<`: the page with the greater cosine comes first.
  unfoldable pub page_less : WebPage → WebPage → Bool
  page_less p q = lt q.cos p.cos

  unfoldable pub postings : Bytes → Table → List Posting
  unfolding at_key
  postings key table = at_key Bytes_discrete [] key table

  unfoldable pub touch : Bytes → Table → Table
  unfolding touch_key
  touch key table = touch_key Bytes_discrete [] key table

  unfoldable pub ids : List Posting → List ℤ
  ids [] = []
  ids (p ∷ ps) = p.id ∷ ids ps

  unfoldable pub single_query : Table → Bytes → Table × List ℤ
  single_query table key = (touch key table, ids (postings key table))

  -- The ids of one further key that the first key has.
  unfoldable pub found_ids : List ℤ → List Posting → List ℤ
  found_ids first [] = []
  found_ids first (p ∷ ps) =
      let rest = found_ids first ps in if has_id p.id first then p.id ∷ rest else rest

  -- `for (int i = 1; i < keys.size(); ++i)`
  unfoldable pub multi_loop : List ℤ → Table → List Bytes → List ℤ → Table × List ℤ
  multi_loop first table [] ret = (table, ret)
  multi_loop first table (key ∷ keys) ret =
      multi_loop first (touch key table) keys (ret ++ found_ids first (postings key table))

  unfoldable pub multi_query : Table → List Bytes → Option (Table × List ℤ)
  multi_query table [] = none
  multi_query table (key ∷ keys) =
      some (multi_loop (ids (postings key table)) (touch key table) keys [])

  -- The weights of one page under one key.
  unfoldable pub weights_of : ℤ → List Posting → List Real
  weights_of id [] = []
  weights_of id (p ∷ ps) = let rest = weights_of id ps in ite (ℤ_discrete p.id id) (p.w ∷ rest) rest

  -- The loop over the keys that fills `obwArr`.
  unfoldable pub weights_loop : ℤ → Table → List Bytes → List Real → Table × List Real
  weights_loop id table [] arr = (table, arr)
  weights_loop id table (key ∷ keys) arr =
      weights_loop id (touch key table) keys (arr ++ weights_of id (postings key table))

  -- The loop over `wArr`; an `obwArr` that is shorter is read out of bounds.
  unfoldable pub sums : List Real → List Real → Real → Real → Real → Option (Real × (Real × Real))
  sums [] obw xy mod_x mod_y = some (xy, (mod_x, mod_y))
  sums (w ∷ ws) [] xy mod_x mod_y = none
  sums (w ∷ ws) (o ∷ os) xy mod_x mod_y =
      sums ws os (add xy (mul w o)) (add mod_x (mul w w)) (add mod_y (mul o o))

  unfoldable pub cosine : List Real → List Real → Option Real
  cosine ws obw = do
    s ← sums ws obw (of_nat 0) (of_nat 0) (of_nat 0)
    some (div s.0 (mul (sqrt s.1.0) (sqrt s.1.1)))

  -- `wArr`
  unfoldable pub query_weights : List Bytes → List Real
  query_weights keys =
      let w = log2 (add (div (of_nat 1) (of_nat 1)) (of_nat 1)) in
      replicate (length keys) (div w (sqrt (mul (mul w w) (of_nat (length keys)))))

  -- `getWebPageSet`, with the text of the page file.
  unfoldable pub get_web_page_set :
      Bytes → Offsets → ℤ → Real → List WebPage → Option (Offsets × List WebPage)
  get_web_page_set file offsets id cos pages = do
    let span = at_key ℤ_discrete (pos 0, pos 0) id offsets
    buf ← read_between span.0 span.1 file
    text ← parse_page buf
    docid ← stoi text.docid
    some (
      touch_key ℤ_discrete (pos 0, pos 0) id offsets,
      set_insert page_less
          (record {
            id = docid;
            title = text.title;
            link = text.link;
            description = text.description;
            cos = cos;
          })
          pages,
    )

  pub record Searcher : Type 0 where
    pub offsets : Offsets
    pub table : Table

  -- The loop over `calcId`.
  unfoldable pub cosine_loop :
      Bytes → List Bytes → Searcher → List ℤ → List WebPage → Option (Searcher × List WebPage)
  cosine_loop file keys s [] pages = some (s, pages)
  cosine_loop file keys s (id ∷ calc_id) pages = do
    let found = weights_loop id s.table keys []
    cos ← cosine (query_weights keys) found.1
    set ← get_web_page_set file s.offsets id cos pages
    cosine_loop file keys (record { offsets = set.0; table = found.0 }) calc_id set.1

  -- The loop over the postings of a single key.
  unfoldable pub posting_loop :
      Bytes → Offsets → List Posting → List WebPage → Option (Offsets × List WebPage)
  posting_loop file offsets [] pages = some (offsets, pages)
  posting_loop file offsets (p ∷ ps) pages = do
    set ← get_web_page_set file offsets p.id p.w pages
    posting_loop file set.0 ps set.1

  unfoldable pub sim_calc :
      Bytes → Searcher → List Bytes → List ℤ → Option (Searcher × List WebPage)
  sim_calc file s [] calc_id = none
  sim_calc file s (key ∷ []) calc_id = do
    set ← posting_loop file s.offsets (postings key s.table) []
    some (record { offsets = set.0; table = touch key s.table }, set.1)
  sim_calc file s (key ∷ second ∷ keys) calc_id =
      cosine_loop file (key ∷ second ∷ keys) s calc_id []
