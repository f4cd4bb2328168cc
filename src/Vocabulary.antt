-- ===== src/Vocabulary.antt =====
-- `buildCnDict` of recommanderDump/DictProducer.cc: the words of the material and how often they
-- occur. jieba, the XML reader and `regex_replace` are parameters. A frequency is taken to fit an
-- `int`.
pub mod Order
pub mod Frequency
pub mod Building
mod Runs
use mathlib.Core.Option
use simple_search_enginer.Prelude.{
  ℕ, zero, suc, Bool, Option, none, some, List, [], ◌∷◌, ◌++◌, Bytes, ℤ, pos, map, getlines,
  if◌then◌else◌, ◌>>=◌,
}
use simple_search_enginer.Indexing.{bytes_less, stop_words, is_skipped}

-- `map<string, int>`, in the order of its keys.
abbrev pub WordCounts : Type 0
WordCounts = List (Bytes × ℕ)

-- `++_map[w]`
unfoldable pub count_up : Bytes → WordCounts → WordCounts
count_up w [] = (w, 1) ∷ []
count_up w ((x, n) ∷ m) =
    let later = (x, n) ∷ count_up w m in
    if bytes_less w x then (w, 1) ∷ (x, n) ∷ m else if bytes_less x w then later else (x, suc n) ∷ m

-- The loop over `cutWords`.
unfoldable pub count_words : List Bytes → List Bytes → WordCounts → WordCounts
unfolding count_up
count_words stop [] m = m
count_words stop (w ∷ ws) m = count_words stop ws (if is_skipped stop w then m else count_up w m)

-- An element under the channel. The outer `none` is a missing child, the inner one a child without
-- text. The description is one that follows the title.
pub record XmlItem : Type 0 where
  pub title : Option (Option Bytes)
  pub description : Option (Option Bytes)

-- What `LoadFile` gives: a failure, a document whose root has no child, or the elements from the
-- first `item` on.
pub data Loaded : Type 0 where
  failed : Loaded
  childless : Loaded
  items : List XmlItem → Loaded

module _ (cut : Bytes → List Bytes) (strip : Bytes → Bytes) (stop : List Bytes) where
  -- One round of `while (item)`. A missing text, or no description, is undefined behaviour.
  unfoldable pub item_round : XmlItem → WordCounts → Option WordCounts
  unfolding count_words
  item_round item m = elim item.title [
    | Option.none ↦ some m
    | Option.some text ↦ text >>= λ title. item.description >>= λ child. child >>= λ description.
        some (count_words stop (cut (strip description)) (count_words stop (cut (strip title)) m))
  ]

  unfoldable pub item_loop : List XmlItem → WordCounts → Option WordCounts
  item_loop [] m = some m
  item_loop (item ∷ rest) m = do m' ← item_round item m; item_loop rest m'

  -- The loop over `_files`; `some none` if it returns at a file that cannot be loaded.
  unfoldable pub file_loop : List Loaded → WordCounts → Option (Option WordCounts)
  file_loop [] m = some (some m)
  file_loop (failed ∷ files) m = some none
  file_loop (childless ∷ files) m = none
  file_loop (items elements ∷ files) m = do m' ← item_loop elements m; file_loop files m'

-- The last loop.
unfoldable pub push_counts : WordCounts → List (Bytes × ℤ) → List (Bytes × ℤ)
push_counts m dict = dict ++ map (λ e. (e.0, pos e.1)) m

unfoldable pub build_cn_dict :
    (Bytes → List Bytes)
    → (Bytes → Bytes)
    → Bytes
    → List Loaded
    → List (Bytes × ℤ)
    → Option (List (Bytes × ℤ))
unfolding file_loop push_counts
build_cn_dict cut strip stop_text files dict = stop_words (getlines stop_text) [] >>= λ stop.
    file_loop cut strip stop files [] >>= λ r. elim r [
      | Option.none ↦ some dict
      | Option.some m ↦ some (push_counts m dict)
    ]
