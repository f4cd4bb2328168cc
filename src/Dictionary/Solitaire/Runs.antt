-- ===== src/Dictionary/Solitaire/Runs.antt =====
-- A run of `getSolitaireKeys` of src/recommander/Dictionary.cc.
use simple_search_enginer.Prelude.{◌≡◌, refl, some, List, [], ◌∷◌, ◌++◌, Bytes, ℤ, pos, arith, take}
use simple_search_enginer.Utf8.{n_bytes_code}
use simple_search_enginer.Utf8.Chars.{concat}
use simple_search_enginer.Dictionary.Solitaire.{solitaire_keys}
use simple_search_enginer.Dictionary.Solitaire.Beginning
use simple_search_enginer.Dictionary.Solitaire.Beginning.{beginning, IsWhole}

-- "é", "éa" and "b".
abbrev dict : List (Bytes × ℤ)
dict = (0xc3 ∷ 0xa9 ∷ [], pos 4) ∷ (0xc3 ∷ 0xa9 ∷ 97 ∷ [], pos 2) ∷ (98 ∷ [], pos 7) ∷ []

abbrev accent : Bytes
accent = 0xc3 ∷ 0xa9 ∷ []

letter-IsWhole : IsWhole (98 ∷ [])
unfolding n_bytes_code
letter-IsWhole = refl

accent-IsWhole : IsWhole accent
unfolding n_bytes_code
accent-IsWhole = refl

solitaire_keys-beginning_example :
    solitaire_keys dict (concat ((98 ∷ []) ∷ []) ++ accent) []
    ≡ some (take 5 (beginning accent dict))
solitaire_keys-beginning_example =
    Beginning.solitaire_keys-beginning dict ((98 ∷ []) ∷ []) accent (letter-IsWhole, tt)
      accent-IsWhole (ground arith, (ground arith, tt))
