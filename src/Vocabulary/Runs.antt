-- ===== src/Vocabulary/Runs.antt =====
-- The dictionary of small materials (recommanderDump/DictProducer.cc). Words are single bytes.
use simple_search_enginer.Prelude.{
  ◌≡◌, refl, some, none, inl, inr, List, [], ◌∷◌, ◌++◌, map, Bytes, Bytes_discrete, ℤ, pos,
  if◌then◌else◌, ◌==◌, All, lookup, getlines,
}
use simple_search_enginer.Indexing.{stop_words, bytes_less}
use simple_search_enginer.Protocol.{pop_back}
use simple_search_enginer.Vocabulary
use simple_search_enginer.Vocabulary.{XmlItem, Loaded, count_up, build_cn_dict}
use simple_search_enginer.Vocabulary.Order.{Sorted}
use simple_search_enginer.Vocabulary.Building
use simple_search_enginer.Vocabulary.Frequency.{tally, file_words, IsLoaded}

abbrev by_byte : Bytes → List Bytes
by_byte s = map (λ c. c ∷ []) s

abbrev as_is : Bytes → Bytes
as_is s = s

-- `;` is the one stop word.
abbrev stop_text : Bytes
stop_text = 59 ∷ 13 ∷ 10 ∷ []

abbrev untitled : XmlItem
untitled = record { title = none; description = none }

abbrev item : XmlItem
item = record {
  title = some (some (201 ∷ 59 ∷ 200 ∷ []));
  description = some (some (200 ∷ 97 ∷ []));
}

abbrev material : List Loaded
material = Vocabulary.items (untitled ∷ item ∷ []) ∷ Vocabulary.items (item ∷ []) ∷ []

stop_lem : stop_words (getlines stop_text) [] ≡ some ((59 ∷ []) ∷ [])
unfolding stop_words getlines pop_back
stop_lem = refl

material-IsLoaded : All IsLoaded material
material-IsLoaded = ((inl refl, (inr (_, _, refl, refl), tt)), ((inr (_, _, refl, refl), tt), tt))

count_up_test : count_up (5 ∷ []) (((7 ∷ []), 2) ∷ []) ≡ ((5 ∷ []), 1) ∷ ((7 ∷ []), 2) ∷ []
unfolding count_up bytes_less
count_up_test = refl

build_cn_dict-counts_example :
    (dict : List (Bytes × ℤ)) × (build_cn_dict by_byte as_is stop_text material [] ≡ some dict)
    × Sorted dict
    × ((q : Bytes)
        → lookup Bytes_discrete q dict ≡ (
            let n = tally ((59 ∷ []) ∷ []) q (file_words by_byte as_is material) in
            if n == 0 then none else some (pos n)))
build_cn_dict-counts_example =
    Building.build_cn_dict-counts by_byte as_is stop_text ((59 ∷ []) ∷ []) material stop_lem
      material-IsLoaded

build_cn_dict-failed_example :
    build_cn_dict by_byte as_is stop_text (material ++ (Vocabulary.failed ∷ [])) [] ≡ some []
build_cn_dict-failed_example =
    Building.build_cn_dict-failed by_byte as_is stop_text ((59 ∷ []) ∷ []) material [] [] stop_lem
      material-IsLoaded
