-- ===== src/Producer/Runs.antt =====
-- Tests of the model of `store` in recommanderDump/DictProducer.cc, and its theorem at a concrete
-- dictionary.
use simple_search_enginer.Prelude.{
  Option, ◌≡◌, refl, some, none, List, [], ◌∷◌, Bytes, ℤ, pos, negsuc, arith, All, is_digit,
  getlines, each_byte, stoi, assign, Bytes_discrete, ltz,
}
use simple_search_enginer.Dictionary.Files.{
  init_dict, init_index, index_lines, index_bytes, index_byte, close_number, keep_byte, entry_lines,
  entry_line,
}
use simple_search_enginer.Dictionary.{set_at, split_loop, split_sought}
use simple_search_enginer.Dictionary.{Dictionary, do_query}
use simple_search_enginer.Dictionary.ListQueue.{list_queue}
use simple_search_enginer.Producer.CharIndex.{create_index}
use simple_search_enginer.Producer.Found
use simple_search_enginer.Producer.Found.{IsSound}
use simple_search_enginer.Producer.Loading.{IsNamed}
use simple_search_enginer.Utf8.{next_char, n_bytes_code?}
use simple_search_enginer.Utf8.Chars.{done, char}
use simple_search_enginer.Producer.{decimal, store_dict, store_index}
use simple_search_enginer.Producer.IndexFile
use simple_search_enginer.Producer.IndexFile.{IsIndex}
use simple_search_enginer.Producer.IndexSteps.{Index}
use simple_search_enginer.Producer.DictFile.{IsStorable}

abbrev entries : List (Bytes × ℤ)
entries = (97 ∷ [], pos 1039) ∷ (0xc3 ∷ 0xa9 ∷ [], pos 0) ∷ []

text_1039 : decimal (pos 1039) ≡ 49 ∷ 48 ∷ 51 ∷ 57 ∷ []
unfolding decimal
text_1039 = refl

minus_twelve : decimal (negsuc 11) ≡ 45 ∷ 49 ∷ 50 ∷ []
unfolding decimal
minus_twelve = refl

-- A line without a number is an exception.
no_number : init_dict (97 ∷ 10 ∷ []) ≡ none
unfolding init_dict entry_lines entry_line getlines each_byte stoi
no_number = refl

entries-IsStorable : All IsStorable entries
entries-IsStorable = (
  record { no_blank = (ground arith, tt); no_newline = (ground arith, tt); fits = omega arith },
  (
    record {
      no_blank = (ground arith, (ground arith, tt));
      no_newline = (ground arith, (ground arith, tt));
      fits = omega arith;
    },
    tt,
  ),
)

abbrev positions : Index
positions = (97 ∷ [], pos 0 ∷ pos 2 ∷ []) ∷ (0xc3 ∷ 0xa9 ∷ [], pos 1 ∷ []) ∷ []

positions-IsIndex : IsIndex [] positions
unfolding is_digit
positions-IsIndex = (
  ((ground arith, ground arith, refl), tt),
  ground arith,
  (omega arith, omega arith, (omega arith, omega arith, tt)),
  tt,
  (
    ((ground arith, ground arith, refl), ((ground arith, ground arith, refl), tt)),
    ground arith,
    (omega arith, omega arith, tt),
    (ground arith, tt),
    tt,
  ),
)

init_index-store_index_example : init_index (store_index positions) ≡ some positions
init_index-store_index_example = IndexFile.init_index-store_index positions positions-IsIndex

-- A character that is a digit is taken for a number, and its entry is lost: "5 0 ".
digit_lost : init_index (53 ∷ 32 ∷ 48 ∷ 32 ∷ []) ≡ some (([], pos 0 ∷ pos 5 ∷ []) ∷ [])
unfolding init_index index_lines index_bytes index_byte close_number keep_byte is_digit stoi
    getlines assign Bytes_discrete set_at ltz
digit_lost = refl

-- Every byte is a character.
abbrev byte_next : Bytes → Option (Bytes × Bytes)
byte_next [] = none
byte_next (c ∷ s) = some (c ∷ [], s)

-- The words "a" and "ba".
abbrev two_texts : List (Bytes × ℤ)
two_texts = (97 ∷ [], pos 1) ∷ (98 ∷ 97 ∷ [], pos 2) ∷ []

two_texts-IsNamed : All (IsNamed byte_next) two_texts
unfolding is_digit split_loop split_sought
two_texts-IsNamed = (
  ((97 ∷ []) ∷ [], refl, (((ground arith, ground arith, refl), tt), tt)),
  (
    (
      (98 ∷ []) ∷ (97 ∷ []) ∷ [],
      refl,
      (((ground arith, ground arith, refl), tt), (((ground arith, ground arith, refl), tt), tt)),
    ),
    tt,
  ),
)

two_texts-IsStorable : All IsStorable two_texts
two_texts-IsStorable = (
  record { no_blank = (ground arith, tt); no_newline = (ground arith, tt); fits = omega arith },
  (
    record {
      no_blank = (ground arith, (ground arith, tt));
      no_newline = (ground arith, (ground arith, tt));
      fits = omega arith;
    },
    tt,
  ),
)

two_texts-IsSound : IsSound byte_next two_texts
unfolding next_char n_bytes_code? Bytes_discrete
two_texts-IsSound = record {
  storable = two_texts-IsStorable;
  few = omega arith;
  named = two_texts-IsNamed;
  apart = (refl, (refl, tt));
  splits = (
    ((97 ∷ []) ∷ [], char refl done),
    (((98 ∷ []) ∷ (97 ∷ []) ∷ [], char refl (char refl done)), tt),
  );
}

split_first : split_sought byte_next (97 ∷ []) ≡ some ((97 ∷ []) ∷ [])
unfolding split_loop split_sought
split_first = refl

-- The word that is asked for shares its character with the other one.
produced_word-found_example :
    (index : List (Bytes × List ℤ)) × (d d' : Dictionary) × (rest : List Bytes) × (create_index
        byte_next 0 two_texts []
      ≡ some index)
    × (init_dict (store_dict two_texts) ≡ some d.dict)
    × (init_index (store_index index) ≡ some d.index)
    × (do_query list_queue byte_next d (97 ∷ []) ≡ some (d', (97 ∷ []) ∷ rest))
produced_word-found_example =
    Found.produced_word-found list_queue byte_next two_texts 0 (97 ∷ [], pos 1) (97 ∷ [])
      two_texts-IsSound refl split_first
