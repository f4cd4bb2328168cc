-- ===== src/Indexing/Runs.antt =====
-- Tests of the model of pageDump/PagePreProcessor.cc, and its theorem at two pages.
use simple_search_enginer.Prelude.{
  ℕ, ◌<◌, ltz, ◌+◌, ◌*◌, ◌/◌, ◌≡◌, refl, true, false, inl, inr, Option, none, some, List, [], ◌∷◌,
  Bytes, Bytes_discrete, ℤ_discrete, pos, ltb, arith, stoi, skip_spaces, signed, unsigned, is_digit,
  is_space, digits, positive, getlines, unsigned, at_key, assign, set_insert,
}
use simple_search_enginer.Protocol.{pop_back}
use simple_search_enginer.Searcher.{Doubles, PageText, Table}
use simple_search_enginer.Indexing.{
  bytes_less, has_word, is_alnum, first_byte, is_skipped, mark_new, mark_word, word_loop,
  stop_words, XmlDoc, Counts, invert_process, store_table,
}
use simple_search_enginer.Producer.{decimal}
use simple_search_enginer.Producer.Decimal.{unsigned-decimal, decimal-Without}
use simple_search_enginer.Searcher.Files.{init_invert_index}
use simple_search_enginer.Indexing.Fields.{IsWritten, decimal-IsField}
use simple_search_enginer.Indexing.RoundTrip
use simple_search_enginer.Indexing.RoundTrip.{IsTable}
use simple_search_enginer.Indexing.Frequency
use simple_search_enginer.Indexing.Frequency.{Counted, IsReadable, no_counts}

ltb_self : (a : ℕ) → ltb a a ≡ false
ltb_self a = ground arith

ltb_trans : (a b c : ℕ) → ltb a b ≡ true → ltb b c ≡ true → ltb a c ≡ true
ltb_trans a b c h k = ground arith

-- Whole numbers in place of `double`.
abbrev whole : Doubles
whole = record {
  Real = ℕ;
  of_nat = λ n. n;
  add = λ a b. a + b;
  mul = λ a b. a * b;
  div = λ a b. a / b;
  sqrt = λ a. a;
  log2 = λ a. a;
  lt = ltb;
  stod = unsigned;
  to_size = some;
  lt_self = ltb_self;
  lt_trans = ltb_trans;
}

abbrev no_page : Bytes → Option PageText
no_page buf = none

-- Every byte is a word.
abbrev letters : Bytes → List Bytes
letters [] = []
letters (c ∷ s) = (c ∷ []) ∷ letters s

-- Page 1 with two words, one of them twice, an element without a number, and page 2 with one word.
abbrev library : List XmlDoc
library =
    record { docid = some (some (49 ∷ [])); description = some (some (200 ∷ 201 ∷ 200 ∷ [])) }
    ∷ record { docid = none; description = none }
    ∷ record { docid = some (some (50 ∷ [])); description = some (some (200 ∷ [])) }
    ∷ []

-- A line with a stop word and a carriage return.
abbrev stop_text : Bytes
stop_text = 202 ∷ 13 ∷ 10 ∷ []

stops : stop_words (getlines stop_text) [] ≡ some ((202 ∷ []) ∷ [])
unfolding stop_words getlines pop_back
stops = refl

stoi-one : stoi (49 ∷ []) ≡ some (pos 1)
unfolding stoi skip_spaces signed unsigned is_digit is_space digits positive
stoi-one = refl

stoi-two : stoi (50 ∷ []) ≡ some (pos 2)
unfolding stoi skip_spaces signed unsigned is_digit is_space digits positive
stoi-two = refl

invert_process-Counted_example :
    (st : Counts) × (table : Table whole no_page) × (invert_process whole no_page letters stop_text
        (some library)
        no_counts
        []
      ≡ some (st, table))
    × Counted st
invert_process-Counted_example =
    Frequency.invert_process-Counted whole no_page letters stop_text ((202 ∷ []) ∷ []) library stops
      (
        inr (49 ∷ [], pos 1, some (200 ∷ 201 ∷ 200 ∷ []), refl, stoi-one, refl),
        (inl refl, (inr (50 ∷ [], pos 2, some (200 ∷ []), refl, stoi-two, refl), tt)),
      )

-- The positions in a page are those of the last occurrences.
word_loop-letters :
    (word_loop [] (pos 1) (letters (200 ∷ 201 ∷ 200 ∷ [])) 0 no_counts).doc_freq
    ≡ (200 ∷ [], (pos 1, (2, 2)) ∷ []) ∷ (201 ∷ [], (pos 1, (1, 1)) ∷ []) ∷ []
unfolding word_loop is_skipped mark_word mark_new at_key assign has_word is_alnum is_digit is_space
    first_byte set_insert bytes_less Bytes_discrete ℤ_discrete
word_loop-letters = refl

-- A weight is printed as its digits.
abbrev print_whole : ℕ → Bytes
print_whole n = decimal (pos n)

-- One word on two pages, and another on one.
abbrev two_words : Table whole no_page
two_words =
    (
      200 ∷ [],
      record { id = pos 1; w = 5; at = pos 0 } ∷ record { id = pos 2; w = 3; at = pos 14 } ∷ [],
    )
    ∷ (201 ∷ [], record { id = pos 1; w = 7; at = pos 1 } ∷ [])
    ∷ []

posting-IsWritten :
    (i n j : ℕ)
    → i < 2147483648
    → j < 2147483648
    → IsWritten whole no_page print_whole (record { id = pos i; w = n; at = pos j })
unfolding decimal
posting-IsWritten i n j small_i small_j = record {
  id_fits = small_i;
  at_fits = small_j;
  field = decimal-IsField (pos n);
  exact = unsigned-decimal n;
  no_newline = decimal-Without 10 (pos n) (omega arith);
}

two_words-IsTable : IsTable whole no_page print_whole [] two_words
unfolding ltz
two_words-IsTable = (
  ((ground arith, ground arith), tt),
  (ground arith, tt),
  ground arith,
  (
    posting-IsWritten 1 5 0 (omega arith) (omega arith),
    tt,
    (posting-IsWritten 2 3 14 (omega arith) (omega arith), (refl, tt), tt),
  ),
  tt,
  (
    ((ground arith, ground arith), tt),
    (ground arith, tt),
    ground arith,
    (posting-IsWritten 1 7 1 (omega arith) (omega arith), tt, tt),
    (ground arith, tt),
    tt,
  ),
)

init_invert_index-store_table_example :
    init_invert_index whole no_page (store_table whole no_page print_whole two_words)
    ≡ some two_words
init_invert_index-store_table_example =
    RoundTrip.init_invert_index-store_table whole no_page print_whole two_words two_words-IsTable
