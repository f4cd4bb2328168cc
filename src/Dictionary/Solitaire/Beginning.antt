-- ===== src/Dictionary/Solitaire/Beginning.antt =====
-- What `getSolitaireKeys` of src/recommander/Dictionary.cc finds.
use simple_search_enginer.Prelude.{
  ℕ, suc, ◌+◌, ◌-◌, ◌<◌, ◌≡◌, refl, sym, ap, ◌∙◌, inl, inr, true, false, none, some, List, [], ◌∷◌,
  ◌++◌, Bytes, Bytes_discrete, arith, ℤ, All, length, take, drop, leb, if◌then◌else◌, ite, if_pos,
  if_neg, ◌>>=◌, Without, take-length-append, drop-length-append, length-append, take_of_length-le,
  Bool-cases,
}
use mathlib.Core.List.{append_assoc, append-nil}
use simple_search_enginer.Utf8.{n_bytes_code, dictionary_length_loop, dictionary_length}
use simple_search_enginer.Utf8.Chars.{concat}
use simple_search_enginer.Dictionary.Solitaire.{last_loop, begins, solitaire_loop, solitaire_keys}

-- As long as its first byte announces.
abbrev pub IsWhole : Bytes → Type 0
IsWhole [] = ⊥
IsWhole (b ∷ t) = n_bytes_code b ≡ suc (length t)

-- The words of which the text is the beginning.
unfoldable pub beginning : Bytes → List (Bytes × ℤ) → List Bytes
beginning l [] = []
beginning l ((word, fre) ∷ dict) =
    ite (Bytes_discrete (take (length l) word) l) (word ∷ beginning l dict) (beginning l dict)

length_loop-skip :
    (t s : Bytes) → dictionary_length_loop (length t) (t ++ s) ≡ dictionary_length_loop 0 s
unfolding dictionary_length_loop
length_loop-skip [] s = refl
length_loop-skip (c ∷ t) s = length_loop-skip t s

length_loop-whole :
    (b : ℕ) (t s : Bytes)
    → n_bytes_code b ≡ suc (length t)
    → dictionary_length_loop 0 (b ∷ t ++ s) ≡ (dictionary_length_loop 0 s >>= λ n. some (suc n))
unfolding dictionary_length_loop
length_loop-whole b t s h =
    let size : n_bytes_code b - 1 ≡ length t = omega (arith, h) in
    ap (λ k. dictionary_length_loop k (t ++ s) >>= λ n. some (suc n)) size
    ∙ ap (λ o. o >>= λ n. some (suc n)) (length_loop-skip t s)

-- `length` counts the whole characters before a text.
length_loop-concat :
    (cs : List Bytes) (s : Bytes) (n : ℕ)
    → All IsWhole cs
    → dictionary_length_loop 0 s ≡ some n
    → dictionary_length_loop 0 (concat cs ++ s) ≡ some (length cs + n)
length_loop-concat [] s n h e = e ∙ ap some (omega arith)
length_loop-concat ([] ∷ cs) s n h e = absurd h.0
length_loop-concat ((b ∷ t) ∷ cs) s n h e =
    ap (λ u. dictionary_length_loop 0 (b ∷ u)) (append_assoc t (concat cs) s)
    ∙ length_loop-whole b t (concat cs ++ s) h.0
    ∙ ap (λ o. o >>= λ m. some (suc m)) (length_loop-concat cs s n h.1 e)
    ∙ ap some (omega arith)

length-IsWhole : (l : Bytes) → IsWhole l → dictionary_length_loop 0 l ≡ some 1
unfolding dictionary_length_loop
length-IsWhole [] h = absurd h
length-IsWhole (b ∷ t) h =
    ap (λ u. dictionary_length_loop 0 (b ∷ u)) (sym (append-nil t)) ∙ length_loop-whole b t [] h

drop-whole :
    (b : ℕ) (t s : Bytes) → n_bytes_code b ≡ suc (length t) → drop (n_bytes_code b) (b ∷ t ++ s) ≡ s
drop-whole b t s h = ap (λ k. drop k (b ∷ t ++ s)) h ∙ drop-length-append t s

last_whole :
    (b : ℕ) (t : Bytes) → n_bytes_code b ≡ suc (length t) → last_loop 0 (b ∷ t) ≡ some (b ∷ t)
unfolding last_loop
last_whole b t h =
    let whole = take_of_length-le (length t) t (omega arith) in
    let cut : take (n_bytes_code b) (b ∷ t) ≡ b ∷ t =
      ap (λ k. take k (b ∷ t)) h ∙ ap (◌∷◌ b) whole in
    let fits : leb (n_bytes_code b) (length (b ∷ t)) ≡ true = ground (arith, h) in
    ap (λ u. if u then some (take (n_bytes_code b) (b ∷ t)) else none) fits ∙ ap some cut

last_loop-concat :
    (cs : List Bytes) (l : Bytes)
    → All IsWhole cs
    → IsWhole l
    → last_loop (length cs) (concat cs ++ l) ≡ some l
unfolding last_loop
last_loop-concat cs [] h k = absurd k
last_loop-concat [] (b ∷ t) h k = last_whole b t k
last_loop-concat ([] ∷ cs) (b ∷ t) h k = absurd h.0
last_loop-concat ((c ∷ u) ∷ cs) (b ∷ t) h k =
    ap (λ v. last_loop (length cs) (drop (n_bytes_code c) (c ∷ v)))
      (append_assoc u (concat cs) (b ∷ t))
    ∙ ap (last_loop (length cs)) (drop-whole c u (concat cs ++ (b ∷ t)) h.0)
    ∙ last_loop-concat cs (b ∷ t) h.1 k

begins-take :
    (l word : Bytes)
    → Without 0 l
    → begins l word ≡ some (ite (Bytes_discrete (take (length l) word) l) true false)
unfolding begins
begins-take [] word h = ground arith
begins-take (c ∷ []) [] h = ground arith
begins-take (c ∷ d ∷ s) [] h = ground arith
begins-take (c ∷ s) (e ∷ word) h = ground (arith, begins-take s word h.1)

solitaire_loop-beginning :
    (l : Bytes) (dict : List (Bytes × ℤ)) (keys : List Bytes)
    → Without 0 l
    → length keys < 5
    → solitaire_loop l dict keys ≡ some (take 5 (keys ++ beginning l dict))
unfolding solitaire_loop beginning
solitaire_loop-beginning l [] keys h few =
    let whole = take_of_length-le 5 (keys ++ []) (omega (arith, length-append keys [])) in
    ground (arith, whole, append-nil keys)
solitaire_loop-beginning l ((word, fre) ∷ dict) keys h few =
    elim (Bytes_discrete (take (length l) word) l) [
      | yes same ↦
          let found : begins l word ≡ some true =
            begins-take l word h ∙ ap some (if_pos _ same true false) in
          let size = length-append keys (word ∷ []) in
          let joined = append_assoc keys (word ∷ []) (beginning l dict) in
          elim (Bool-cases (leb 5 (length (keys ++ (word ∷ []))))) [
            | inl full ↦
                let five : length (keys ++ (word ∷ [])) ≡ 5 = ground (arith, size) in
                let cut =
                  ap (λ n. take n ((keys ++ (word ∷ [])) ++ beginning l dict)) (sym five)
                  ∙ take-length-append (keys ++ (word ∷ [])) (beginning l dict) in
                rw (found, full, if_pos _ same) (ap some (sym (ap (take 5) (sym joined) ∙ cut)))
            | inr room ↦
                rw (found, room, if_pos _ same)
                  (solitaire_loop-beginning l dict (keys ++ (word ∷ [])) h (ground (arith, size))
                    ∙ ap (λ u. some (take 5 u)) joined)
          ]
      | no other ↦
          let found : begins l word ≡ some false =
            begins-take l word h ∙ ap some (if_neg _ other true false) in
          let room : leb 5 (length keys) ≡ false = ground arith in
          rw (found, room, if_neg _ other) (solitaire_loop-beginning l dict keys h few)
    ]

-- For a key of whole characters, the last one without zero bytes, `getSolitaireKeys` finds the
-- first five words of the dictionary that begin with the last character.
pub solitaire_keys-beginning :
    (dict : List (Bytes × ℤ)) (cs : List Bytes) (l : Bytes)
    → All IsWhole cs
    → IsWhole l
    → Without 0 l
    → solitaire_keys dict (concat cs ++ l) [] ≡ some (take 5 (beginning l dict))
unfolding solitaire_keys dictionary_length
solitaire_keys-beginning dict cs l h k clean =
    let len = length_loop-concat cs l 1 h (length-IsWhole l k) in
    let size : length cs + 1 - 1 ≡ length cs = omega arith in
    rw (len, size, last_loop-concat cs l h k)
      (solitaire_loop-beginning l dict [] clean (omega arith))
