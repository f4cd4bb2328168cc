-- ===== src/Indexing.antt =====
-- `PagePreProcessor` of pageDump/PagePreProcessor.cc: the inverted index of the page library. The
-- maps are association lists, and an unordered map is walked in the order of its list. jieba, the
-- XML reader, `double` and its printing are parameters.
pub mod Sets
pub mod Frequency
pub mod Fields
pub mod PostingLines
pub mod RoundTrip
pub mod OlderReader
mod Runs
use mathlib.Core.Option
use simple_search_enginer.Prelude.{
  ℕ, zero, suc, ◌+◌, Bool, true, false, ◌&&◌, ◌||◌, Option, none, some, List, [], ◌∷◌, ◌++◌, Bytes,
  Bytes_discrete, ℤ, pos, ℤ_discrete, ite, stoi, ltb, leb, is_digit, is_space, if◌then◌else◌, ◌>>=◌,
  length, at_key, assign, getlines, set_insert,
}
use simple_search_enginer.Protocol.{pop_back}
use simple_search_enginer.Producer.{decimal}
use simple_search_enginer.Searcher.{Doubles, PageText, Posting, posting_less, Table}

-- `<` on `std::string`
unfoldable pub bytes_less : Bytes → Bytes → Bool
bytes_less [] [] = false
bytes_less [] (d ∷ t) = true
bytes_less (c ∷ s) [] = false
bytes_less (c ∷ s) (d ∷ t) =
    let rest = bytes_less s t in if ltb c d then true else (if ltb d c then false else rest)

-- Whether a word is in a set.
unfoldable pub has_word : Bytes → List Bytes → Bool
has_word w [] = false
has_word w (x ∷ xs) = ite (Bytes_discrete x w) true (has_word w xs)

-- `isalnum`
unfoldable pub is_alnum : ℕ → Bool
is_alnum c = is_digit c || (leb 65 c && leb c 90 || leb 97 c && leb c 122)

unfoldable pub first_byte : Bytes → ℕ
first_byte [] = 0
first_byte (c ∷ s) = c

-- The loop that reads the stop words: the last byte of a line is dropped, which it must have.
unfoldable pub stop_words : List Bytes → List Bytes → Option (List Bytes)
stop_words [] words = some words
stop_words (l ∷ ls) words = do w ← pop_back l; stop_words ls (w ∷ words)

-- An element of the page library. The outer `none` is a missing child, the inner one a child
-- without text.
pub record XmlDoc : Type 0 where
  pub docid : Option (Option Bytes)
  pub description : Option (Option Bytes)

-- A word's number of times and last position in a page.
abbrev pub Places : Type 0
Places = List (Bytes × List (ℤ × (ℕ × ℕ)))

-- The counts that the first loop makes.
pub record Counts : Type 0 where
  pub words_freq : List (Bytes × ℕ)
  pub doc_words : List (ℤ × List Bytes)
  pub doc_freq : Places

-- The first word of its kind in a page.
unfoldable pub mark_new : ℤ → Bytes → Counts → Counts
mark_new id w st =
    let known = at_key ℤ_discrete [] id st.doc_words in
    if has_word w known then st else record st {
      words_freq =
          assign Bytes_discrete w (suc (at_key Bytes_discrete 0 w st.words_freq)) st.words_freq;
      doc_words = assign ℤ_discrete id (set_insert bytes_less w known) st.doc_words;
    }

-- A word that is not skipped.
unfoldable pub mark_word : ℤ → ℕ → Bytes → Counts → Counts
unfolding mark_new
mark_word id cur_pos w st =
    let per = at_key Bytes_discrete [] w st.doc_freq in
    let old = at_key ℤ_discrete (0, 0) id per in
    record (mark_new id w st) {
      doc_freq =
          assign Bytes_discrete w (assign ℤ_discrete id (suc old.0, cur_pos) per) st.doc_freq;
    }

unfoldable pub is_skipped : List Bytes → Bytes → Bool
is_skipped stop w = has_word w stop || (is_alnum (first_byte w) || is_space (first_byte w))

-- The loop over the words of one page.
unfoldable pub word_loop : List Bytes → ℤ → List Bytes → ℕ → Counts → Counts
unfolding mark_word is_skipped
word_loop stop id [] cur_pos st = st
word_loop stop id (w ∷ ws) cur_pos st =
    word_loop stop id ws (cur_pos + length w)
      (if is_skipped stop w then st else mark_word id cur_pos w st)

-- One round over the pages; `true` if the page counts. A text or an element that is missing and
-- followed is undefined behaviour.
unfoldable pub doc_round :
    (Bytes → List Bytes) → List Bytes → XmlDoc → Counts → Option (Bool × Counts)
doc_round cut stop doc st = elim doc.docid [
  | Option.none ↦ some (false, st)
  | Option.some text ↦ text >>= λ number. stoi number >>= λ id. doc.description >>= λ content.
      elim content [
        | Option.none ↦ some (false, st)
        | Option.some [] ↦ some (true, st)
        | Option.some (c ∷ s) ↦ some (true, word_loop stop id (cut (c ∷ s)) 0 st)
      ]
]

unfoldable pub doc_loop :
    (Bytes → List Bytes) → List Bytes → List XmlDoc → ℕ → Counts → Option (ℕ × Counts)
doc_loop cut stop [] doc_cnt st = some (doc_cnt, st)
doc_loop cut stop (doc ∷ docs) doc_cnt st = do
  r ← doc_round cut stop doc st
  doc_loop cut stop docs (if r.0 then suc doc_cnt else doc_cnt) r.1

module _ (doubles : Doubles) (parse_page : Bytes → Option PageText) where
  open doubles use {Real, of_nat, add, mul, div, sqrt, log2}

  -- The loop over the words of one page: `curW` and `sumW`. The counts are those of the page
  -- `cur_id`, and there are `n` pages.
  unfoldable pub weight_loop :
      Counts
      → ℕ
      → ℤ
      → List Bytes
      → List (Bytes × (Real × ℕ))
      → Real
      → List (Bytes × (Real × ℕ)) × Real
  weight_loop st n cur_id [] cur_w sum_w = (cur_w, sum_w)
  weight_loop st n cur_id (w ∷ ws) cur_w sum_w =
      let place = at_key ℤ_discrete (0, 0) cur_id (at_key Bytes_discrete [] w st.doc_freq) in
      let idf = log2 (div (of_nat n) (of_nat (at_key Bytes_discrete 0 w st.words_freq + 1))) in
      let x = mul (of_nat place.0) idf in
      weight_loop st n cur_id ws (assign Bytes_discrete w (x, place.1) cur_w) (add sum_w (mul x x))

  -- The loop over `curW`.
  unfoldable pub insert_loop :
      ℤ → Real → List (Bytes × (Real × ℕ)) → Table doubles parse_page → Table doubles parse_page
  insert_loop cur_id sum_w [] table = table
  insert_loop cur_id sum_w ((w, x) ∷ cur_w) table = insert_loop cur_id sum_w cur_w (
      assign Bytes_discrete w
        (set_insert (posting_less doubles parse_page)
          (record { id = cur_id; w = div x.0 (sqrt sum_w); at = pos x.1 })
          (at_key Bytes_discrete [] w table))
        table)

  -- The loop over `_docWords`.
  unfoldable pub table_loop :
      Counts → ℕ → List (ℤ × List Bytes) → Table doubles parse_page → Table doubles parse_page
  unfolding weight_loop insert_loop
  table_loop st n [] table = table
  table_loop st n ((cur_id, words) ∷ pages) table =
      let weights = weight_loop st n cur_id words [] (of_nat 0) in
      table_loop st n pages (insert_loop cur_id weights.1 weights.0 table)

  -- `invertProcess`, from the text of the stop words and the elements of the library; `none` in
  -- place of the elements if the library cannot be loaded.
  unfoldable pub invert_process :
      (Bytes → List Bytes)
      → Bytes
      → Option (List XmlDoc)
      → Counts
      → Table doubles parse_page
      → Option (Counts × Table doubles parse_page)
  unfolding stop_words doc_loop table_loop
  invert_process cut stop_text docs st table = stop_words (getlines stop_text) [] >>= λ stop.
      elim docs [
        | Option.none ↦ some (st, table)
        | Option.some elements ↦ doc_loop cut stop elements 0 st >>= λ r.
            some (r.1, table_loop r.1 r.0 r.1.doc_words table)
      ]

  -- `store`, with `print` for the output of a `double`.
  unfoldable pub store_postings : (Real → Bytes) → List (Posting doubles parse_page) → Bytes
  store_postings print [] = []
  store_postings print (p ∷ ps) =
      decimal p.id ++ (32 ∷ print p.w ++ (32 ∷ decimal p.at ++ (32 ∷ 44 ∷ store_postings print ps)))

  unfoldable pub store_table : (Real → Bytes) → Table doubles parse_page → Bytes
  unfolding store_postings
  store_table print [] = []
  store_table print ((key, ps) ∷ table) =
      key ++ (32 ∷ store_postings print ps ++ (10 ∷ store_table print table))

  -- `dump`
  unfoldable pub dump_ids : List (Posting doubles parse_page) → Bytes
  dump_ids [] = []
  dump_ids (p ∷ ps) = decimal p.id ++ (32 ∷ dump_ids ps)

  unfoldable pub dump : Table doubles parse_page → Bytes
  unfolding dump_ids
  dump [] = []
  dump ((key, ps) ∷ table) = key ++ (58 ∷ dump_ids ps ++ (10 ∷ dump table))
