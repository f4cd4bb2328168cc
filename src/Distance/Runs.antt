-- ===== src/Distance/Runs.antt =====
-- Tests of the model of include/recommander/minDistance.h, and its theorems on concrete texts.
use simple_search_enginer.Prelude.{
  ℕ, ◌≡◌, ◌≤◌, refl, some, none, List, [], ◌∷◌, reverse, Bytes, Bytes_discrete, ℕ_discrete,
}
use simple_search_enginer.Utf8.{next_char, n_bytes_code?, length?}
use simple_search_enginer.Utf8.Chars.{Splits, done, char}
use simple_search_enginer.Distance.{
  edit_distance, fill_column, fill_row, write, table_loop, row_loop, relax,
}
use simple_search_enginer.Distance.Minimal
use simple_search_enginer.Distance.Minimal.{Script}

-- "aé" and "éb", in UTF-8.
abbrev text_l : Bytes
text_l = 97 ∷ 0xc3 ∷ 0xa9 ∷ []

abbrev text_r : Bytes
text_r = 0xc3 ∷ 0xa9 ∷ 98 ∷ []

abbrev chars_l : List Bytes
chars_l = (97 ∷ []) ∷ (0xc3 ∷ 0xa9 ∷ []) ∷ []

abbrev chars_r : List Bytes
chars_r = (0xc3 ∷ 0xa9 ∷ []) ∷ (98 ∷ []) ∷ []

text_l-Splits : Splits text_l chars_l
unfolding next_char n_bytes_code?
text_l-Splits = char refl (char refl done)

text_r-Splits : Splits text_r chars_r
unfolding next_char n_bytes_code?
text_r-Splits = char refl (char refl done)

program : Unit {0}
unfolding edit_distance fill_column fill_row write table_loop row_loop relax next_char n_bytes_code?
    length? Bytes_discrete ℕ_discrete
program = tt

two_edits : edit_distance text_l text_r ≡ some 2
unfolding program
two_edits = refl

edit_distance_stuck : edit_distance (0xff ∷ []) text_r ≡ none
unfolding program
edit_distance_stuck = refl

edit_distance-minimal_example :
    (n : ℕ) × (edit_distance text_l text_r ≡ some n)
    × Script (reverse chars_l) (reverse chars_r) n
    × ((m : ℕ) → Script (reverse chars_l) (reverse chars_r) m → n ≤ m)
edit_distance-minimal_example =
    Minimal.edit_distance-minimal text_l text_r chars_l chars_r text_l-Splits text_r-Splits
