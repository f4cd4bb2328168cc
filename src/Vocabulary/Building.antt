-- ===== src/Vocabulary/Building.antt =====
-- `buildCnDict` of recommanderDump/DictProducer.cc as a whole.
use simple_search_enginer.Prelude.{
  ℕ, ◌<◌, ◌≡◌, refl, ap, ◌∙◌, true, none, some, List, [], ◌∷◌, ◌++◌, arith, Bytes, Bytes_discrete,
  ℤ, pos, if◌then◌else◌, ◌==◌, All, lookup, at_key, getlines,
}
use simple_search_enginer.Indexing.{stop_words, bytes_less}
use simple_search_enginer.Vocabulary
use simple_search_enginer.Vocabulary.{WordCounts, Loaded, file_loop, push_counts, build_cn_dict}
use simple_search_enginer.Vocabulary.Order.{Sorted}
use simple_search_enginer.Vocabulary.Frequency.{
  Tallies, tally, file_words, IsLoaded, item_loop-Tallies, file_loop-Tallies,
}

lookup-push_counts :
    (q : Bytes) (m : WordCounts)
    → All (λ (e : Bytes × ℕ). 0 < e.1) m
    → lookup Bytes_discrete q (push_counts m [])
      ≡ (let n = at_key Bytes_discrete 0 q m in if n == 0 then none else some (pos n))
unfolding push_counts at_key
lookup-push_counts q [] h = refl
lookup-push_counts q ((x, n) ∷ m) h = ground (arith, h.0, lookup-push_counts q m h.1)

later_keys :
    (x : Bytes) (k : WordCounts)
    → All (λ (e : Bytes × ℕ). bytes_less x e.0 ≡ true) k
    → All (λ (e : Bytes × ℤ). bytes_less x e.0 ≡ true) (push_counts k [])
unfolding push_counts
later_keys x [] h = tt
later_keys x (e ∷ k) h = (h.0, later_keys x k h.1)

push_counts-Sorted : (m : WordCounts) → Sorted m → Sorted (push_counts m [])
unfolding push_counts
push_counts-Sorted [] h = tt
push_counts-Sorted ((x, n) ∷ m) h = (later_keys x m h.0, push_counts-Sorted m h.1)

no_words-Tallies : (stop : List Bytes) → Tallies stop [] []
unfolding at_key
no_words-Tallies stop = record { sorted = tt; positive = tt; counts = λ q. ground arith }

file_loop-failed :
    (cut : Bytes → List Bytes) (strip : Bytes → Bytes) (stop : List Bytes)
    (files after : List Loaded) (ws : List Bytes) (m : WordCounts)
    → All IsLoaded files
    → Tallies stop ws m
    → file_loop cut strip stop (files ++ (Vocabulary.failed ∷ after)) m ≡ some none
unfolding file_loop
file_loop-failed cut strip stop [] after ws m all h = refl
file_loop-failed cut strip stop (Vocabulary.failed ∷ files) after ws m all h = elim all.0 [ ]
file_loop-failed cut strip stop (Vocabulary.childless ∷ files) after ws m all h = elim all.0 [ ]
file_loop-failed cut strip stop (Vocabulary.items elements ∷ files) after ws m all h =
    let (m₁, ran, h₁) = item_loop-Tallies cut strip stop elements ws m all.0 h in
    rw ran (file_loop-failed cut strip stop files after _ m₁ all.1 h₁)

-- Where the lines of stop words are not empty, all files can be loaded, and each element that has
-- a title has both texts, `buildCnDict` ends; whatever segmentation jieba makes, the words of the
-- dictionary ascend, each word that stands in the texts and is not skipped has the number of its
-- occurrences, and no other word is in the dictionary.
pub build_cn_dict-counts :
    (cut : Bytes → List Bytes) (strip : Bytes → Bytes) (stop_text : Bytes) (stop : List Bytes)
    (files : List Loaded)
    → stop_words (getlines stop_text) [] ≡ some stop
    → All IsLoaded files
    → (dict : List (Bytes × ℤ)) × (build_cn_dict cut strip stop_text files [] ≡ some dict)
      × Sorted dict
      × ((q : Bytes)
          → lookup Bytes_discrete q dict ≡ (
              let n = tally stop q (file_words cut strip files) in
              if n == 0 then none else some (pos n)))
unfolding build_cn_dict
build_cn_dict-counts cut strip stop_text stop files e all =
    let (m, ran, h) = file_loop-Tallies cut strip stop files [] [] all (no_words-Tallies stop) in
    (
      push_counts m [],
      rw (e, ran) refl,
      push_counts-Sorted m h.sorted,
      λ q.
          lookup-push_counts q m h.positive
          ∙ ap (λ (n : ℕ). if n == 0 then none else some (pos n)) (h.counts q),
    )

-- A file that cannot be loaded, after any number of files that can, ends `buildCnDict` with the
-- dictionary as it was: what was counted in the files before is lost.
pub build_cn_dict-failed :
    (cut : Bytes → List Bytes) (strip : Bytes → Bytes) (stop_text : Bytes) (stop : List Bytes)
    (files after : List Loaded) (dict : List (Bytes × ℤ))
    → stop_words (getlines stop_text) [] ≡ some stop
    → All IsLoaded files
    → build_cn_dict cut strip stop_text (files ++ (Vocabulary.failed ∷ after)) dict ≡ some dict
unfolding build_cn_dict
build_cn_dict-failed cut strip stop_text stop files after dict e all =
    rw (e, file_loop-failed cut strip stop files after [] [] all (no_words-Tallies stop)) refl
