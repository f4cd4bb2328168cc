-- ===== src/Utf8/Runs.antt =====
-- Tests of the model of `nBytesCode` and `length`, and its theorems at concrete bytes.
use simple_search_enginer.Prelude.{◌≡◌, refl, some, [], ◌∷◌, Bytes}
use simple_search_enginer.Utf8.{n_bytes_code, n_bytes_code?, length?, dictionary_length}

-- "aé" in UTF-8.
abbrev text : Bytes
text = 97 ∷ 0xc3 ∷ 0xa9 ∷ []

length_two : length? text ≡ some 2
unfolding length? n_bytes_code?
length_two = refl

dictionary_length_two : dictionary_length text ≡ some 2
unfolding dictionary_length n_bytes_code
dictionary_length_two = refl
