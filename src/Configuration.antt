-- ===== src/Configuration.antt =====
-- `Configuration` of src/Configrution.cc, from the texts of its files.
pub mod First
mod Runs
use simple_search_enginer.Prelude.{
  ℕ, Bool, true, false, Option, none, some, List, [], ◌∷◌, ◌++◌, Bytes, Bytes_discrete, is_space,
  skip_spaces, if◌then◌else◌, lookup, touch_key, at_key, getlines,
}

-- `iss >> word` behind the blanks: the word, and what follows it.
unfoldable pub cut_word : Bytes → Bytes × Bytes
cut_word [] = ([], [])
cut_word (c ∷ s) = let rest = cut_word s in if is_space c then ([], c ∷ s) else (c ∷ rest.0, rest.1)

-- `makePair`
unfoldable pub make_pair : Bytes → Bytes × Bytes
unfolding cut_word
make_pair line =
    let first = cut_word (skip_spaces line) in (first.0, (cut_word (skip_spaces first.1)).0)

-- `map::insert`, which keeps a value that is there.
unfoldable pub insert_new : Bytes × Bytes → List (Bytes × Bytes) → List (Bytes × Bytes)
insert_new entry m = elim (lookup Bytes_discrete entry.0 m) [
  | Option.none ↦ m ++ (entry ∷ [])
  | Option.some v ↦ m
]

-- `configMapInit`
unfoldable pub config_lines : List Bytes → List (Bytes × Bytes) → List (Bytes × Bytes)
unfolding make_pair insert_new
config_lines [] m = m
config_lines (l ∷ ls) m = config_lines ls (insert_new (make_pair l) m)

-- A file that cannot be opened is `none`, and changes nothing.
unfoldable pub config_map_init : Option Bytes → List (Bytes × Bytes) → List (Bytes × Bytes)
unfolding config_lines
config_map_init none m = m
config_map_init (some text) m = config_lines (getlines text) m

-- "stop"
abbrev pub stop_key : Bytes
stop_key = 115 ∷ 116 ∷ 111 ∷ 112 ∷ []

-- `stopWordListInit`, which asks for the value with `operator[]`; a set as the list of what was
-- inserted.
unfoldable pub stop_word_list_init :
    (Bytes → Option Bytes) → List (Bytes × Bytes) → List Bytes → List (Bytes × Bytes) × List Bytes
stop_word_list_init open_file m words = elim (open_file (at_key Bytes_discrete [] stop_key m)) [
  | Option.none ↦ (touch_key Bytes_discrete [] stop_key m, words)
  | Option.some text ↦ (touch_key Bytes_discrete [] stop_key m, words ++ getlines text)
]
