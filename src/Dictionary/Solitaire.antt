-- ===== src/Dictionary/Solitaire.antt =====
-- `getSolitaireKeys` of src/recommander/Dictionary.cc: words that begin with the last character.
pub mod Beginning
mod Runs
use simple_search_enginer.Prelude.{
  ℕ, zero, suc, ◌+◌, ◌-◌, ◌≤◌, ◌<◌, ◌≡◌, ◌≢◌, refl, sym, ap, ◌∙◌, subst, Bool, true, false, Option,
  none, some, List, [], ◌∷◌, ◌++◌, Bytes, arith, ℤ, All, length, take, drop, map, leb, ltb, ◌==◌,
  if◌then◌else◌, ◌>>=◌, Without, take-length-append, drop-length-append, length-append,
}
use mathlib.Core.List.{append_assoc, append-nil}
use simple_search_enginer.Utf8.{n_bytes_code, dictionary_length_loop, dictionary_length}
use simple_search_enginer.Utf8.Chars.{concat}

-- The first loop, with the characters left before the last one. A character that ends after the
-- key is read out of bounds.
unfoldable pub last_loop : ℕ → Bytes → Option Bytes
last_loop n [] = some []
last_loop zero (c ∷ s) =
    if leb (n_bytes_code c) (length (c ∷ s)) then some (take (n_bytes_code c) (c ∷ s)) else none
last_loop (suc n) (c ∷ s) = last_loop n (drop (n_bytes_code c) (c ∷ s))

-- The comparison with `cur_key`, whose terminating zero may be read, but nothing after it.
unfoldable pub begins : Bytes → Bytes → Option Bool
begins [] cur = some true
begins (c ∷ []) [] = some (c == 0)
begins (c ∷ d ∷ s) [] = if c == 0 then none else some false
begins (c ∷ s) (e ∷ cur) = let rest = begins s cur in if c == e then rest else some false

-- The loop over `_dict`.
unfoldable pub solitaire_loop : Bytes → List (Bytes × ℤ) → List Bytes → Option (List Bytes)
solitaire_loop last [] keys = some keys
solitaire_loop last ((word, fre) ∷ dict) keys = do
  match ← begins last word
  let more = if match then keys ++ (word ∷ []) else keys
  let rest = solitaire_loop last dict more
  if leb 5 (length more) then some more else rest

unfoldable pub solitaire_keys : List (Bytes × ℤ) → Bytes → List Bytes → Option (List Bytes)
solitaire_keys dict key keys = do
  key_len ← dictionary_length key
  last ← last_loop (key_len - 1) key
  solitaire_loop last dict keys
