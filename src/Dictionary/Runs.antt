-- ===== src/Dictionary/Runs.antt =====
-- Tests of the model of src/recommander/Dictionary.cc, and its theorems at a concrete dictionary.
use simple_search_enginer.Prelude.{
  ◌≡◌, ◌≤◌, refl, Option, some, none, List, [], ◌∷◌, ◌++◌, map, length, min, Bytes, Bytes_discrete,
  ℕ_discrete, All, pos, arith, assign, ltz,
}
use simple_search_enginer.Utf8.{n_bytes_code?, length?, next_char}
use simple_search_enginer.Distance.{
  edit_distance, fill_column, fill_row, write, table_loop, row_loop, relax,
}
use simple_search_enginer.Dictionary.{
  Candidate, Dictionary, set_at, touch, candidate, push_set, push_words, skip, collect, do_query,
  split_sought, split_loop, is_empty, less,
}
use simple_search_enginer.Dictionary.Best.{Ranked, IsServed}
use simple_search_enginer.Dictionary.Filling.{word_candidates, set_candidates}
use simple_search_enginer.Dictionary.ListQueue.{list_queue, extract, top, pop}
use simple_search_enginer.Dictionary.Query
use simple_search_enginer.Dictionary.Query.{IsOneOf}
use simple_search_enginer.Dictionary.Answers
use simple_search_enginer.Dictionary.Answers.{answer}
use simple_search_enginer.Dictionary.Splitting.{IsAdvancing}

-- `utf8::next` on text without multi-byte characters.
unfoldable ascii_next : Bytes → Option (Bytes × Bytes)
ascii_next [] = none
ascii_next (c ∷ s) = some (c ∷ [], s)

abbrev word_a : Bytes
word_a = 97 ∷ []

abbrev word_ab : Bytes
word_ab = 97 ∷ 98 ∷ []

abbrev word_ac : Bytes
word_ac = 97 ∷ 99 ∷ []

abbrev small : Dictionary
small = record {
  dict = (word_ab, pos 5) ∷ (word_ac, pos 9) ∷ [];
  index = (97 ∷ [], pos 0 ∷ pos 1 ∷ []) ∷ (98 ∷ [], pos 0 ∷ []) ∷ (99 ∷ [], pos 1 ∷ []) ∷ [];
}

abbrev single : Dictionary
single = record {
  dict = (word_ab, pos 5) ∷ [];
  index = (97 ∷ [], pos 0 ∷ []) ∷ (98 ∷ [], pos 0 ∷ []) ∷ [];
}

abbrev far_ab : Candidate
far_ab = record { word = word_ab; fre = pos 5; dis = 1 }

abbrev far_ac : Candidate
far_ac = record { word = word_ac; fre = pos 9; dis = 1 }

abbrev near_ab : Candidate
near_ab = record { word = word_ab; fre = pos 5; dis = 0 }

program : Unit {0}
unfolding edit_distance fill_column fill_row write table_loop row_loop relax next_char n_bytes_code?
    length? Bytes_discrete ℕ_discrete assign set_at touch candidate push_set push_words skip collect
    do_query split_loop split_sought list_queue extract top pop ascii_next word_candidates
    set_candidates is_empty less ltz
program = tt

split_a : split_sought ascii_next word_a ≡ some (word_a ∷ [])
unfolding program
split_a = refl

split_ab : split_sought ascii_next word_ab ≡ some (word_a ∷ (98 ∷ []) ∷ [])
unfolding program
split_ab = refl

candidates_a :
    word_candidates small.dict word_a small.index (word_a ∷ []) ≡ some (far_ab ∷ far_ac ∷ [])
unfolding program
candidates_a = refl

candidates_ab :
    word_candidates single.dict word_ab single.index (word_a ∷ (98 ∷ []) ∷ [])
    ≡ some (near_ab ∷ near_ab ∷ [])
unfolding program
candidates_ab = refl

query_a : do_query list_queue ascii_next small word_a ≡ some (small, word_ac ∷ word_ab ∷ [])
unfolding program
query_a = refl

do_query-best_example :
    (picks : List Candidate) × (word_ac ∷ word_ab ∷ [] ≡ map (λ (c : Candidate). c.word) picks)
    × (length picks ≤ 5)
    × Ranked picks
    × All (IsOneOf (far_ab ∷ far_ac ∷ [])) picks
    × All (IsServed 5 picks (word_ac ∷ word_ab ∷ [])) (far_ab ∷ far_ac ∷ [])
do_query-best_example =
    Query.do_query-best list_queue ascii_next small small word_a (word_a ∷ [])
      (word_ac ∷ word_ab ∷ []) (far_ab ∷ far_ac ∷ []) split_a candidates_a query_a

do_query_total_example :
    (d' : Dictionary) × (out : List Bytes) × (do_query list_queue ascii_next small word_a
      ≡ some (d', out))
    × (length out ≡ min 5 (length (far_ab ∷ far_ac ∷ [])))
    × (d'.dict ≡ small.dict)
    × ((k : Bytes) → set_at k d'.index ≡ set_at k small.index)
do_query_total_example =
    Query.do_query_total list_queue ascii_next small word_a (word_a ∷ []) (far_ab ∷ far_ac ∷ [])
      split_a candidates_a ((ground arith, tt), (tt, tt))

do_query-twice_example : do_query list_queue ascii_next single word_ab ≡ none
do_query-twice_example =
    Query.do_query-twice list_queue ascii_next single word_ab (word_a ∷ (98 ∷ []) ∷ []) near_ab
      near_ab split_ab candidates_ab refl

-- A character that no word has is new in the index.
abbrev grown : Dictionary
grown = record small { index = small.index ++ ((100 ∷ [], []) ∷ []) }

query_d : do_query list_queue ascii_next small (100 ∷ []) ≡ some (grown, [])
unfolding program
query_d = refl

do_query-same_answers_example :
    answer list_queue ascii_next grown word_a ≡ answer list_queue ascii_next small word_a
do_query-same_answers_example =
    Answers.do_query-same_answers list_queue ascii_next small grown (100 ∷ []) [] query_d word_a

ascii_next-IsAdvancing : IsAdvancing ascii_next
unfolding ascii_next
ascii_next-IsAdvancing [] c rest e = cc
ascii_next-IsAdvancing (b ∷ s) c rest e = (ground arith, ground arith)
