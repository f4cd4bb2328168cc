-- ===== src/Producer/DictFile.antt =====
-- dict.dat: `DictProducer::store` of recommanderDump/DictProducer.cc against
-- `Dictionary::initDict` of src/recommander/Dictionary.cc.
use simple_search_enginer.Prelude.{
  ℕ, ◌≡◌, refl, sym, ap, ◌∙◌, true, some, List, [], ◌∷◌, ◌++◌, Bytes, arith, All, ℤ, each_byte,
  each_byte-append, getlines, getlines-line, Without,
}
use mathlib.Core.List.{append_assoc, append-nil}
use simple_search_enginer.Dictionary.Files.{
  entry_start, entry_byte, entry_line, entry_lines, init_dict,
}
use simple_search_enginer.Producer.{decimal, store_dict}
use simple_search_enginer.Producer.Decimal.{FitsInt, stoi-decimal, decimal-Without}

-- A word without blanks and newlines, with a frequency that fits an `int`.
pub record IsStorable (e : Bytes × ℤ) : Type 0 where
  pub no_blank : Without 32 e.0
  pub no_newline : Without 10 e.0
  pub fits : FitsInt e.1

word_bytes :
    (w word : Bytes)
    → Without 32 w
    → each_byte entry_byte (record entry_start { word = word }) w
      ≡ record entry_start { word = word ++ w }
unfolding each_byte entry_byte
word_bytes [] word h = ap (λ u. record entry_start { word = u }) (sym (append-nil word))
word_bytes (c ∷ w) word h =
    ground (arith, h.0, word_bytes w (word ++ (c ∷ [])) h.1, append_assoc word (c ∷ []) w)

fre_bytes :
    (w word fre : Bytes)
    → Without 32 w
    → each_byte entry_byte (record { flag = true; word = word; fre = fre }) w
      ≡ record { flag = true; word = word; fre = fre ++ w }
unfolding each_byte entry_byte
fre_bytes [] word fre h =
    ap (λ u. record { flag = true; word = word; fre = u }) (sym (append-nil fre))
fre_bytes (c ∷ w) word fre h =
    ground (arith, h.0, fre_bytes w word (fre ++ (c ∷ [])) h.1, append_assoc fre (c ∷ []) w)

entry_line-decimal :
    (w : Bytes) (z : ℤ) → IsStorable (w, z) → entry_line (w ++ (32 ∷ decimal z)) ≡ some (w, z)
unfolding entry_line
entry_line-decimal w z h =
    let read : each_byte entry_byte entry_start (w ++ (32 ∷ decimal z))
        ≡ record { flag = true; word = w; fre = decimal z } =
      each_byte-append entry_byte entry_start w (32 ∷ decimal z)
      ∙ ap (λ s. each_byte entry_byte s (32 ∷ decimal z)) (word_bytes w [] h.no_blank)
      ∙ (unfold each_byte in
          (unfold entry_byte in
            (fre_bytes (decimal z) w [] (decimal-Without 32 z (omega arith))))) in
    ground (arith, read, stoi-decimal z h.fits)

pub Without-append : (b : ℕ) (xs ys : Bytes) → Without b xs → Without b ys → Without b (xs ++ ys)
Without-append b [] ys h k = k
Without-append b (x ∷ xs) ys h k = (h.0, Without-append b xs ys h.1 k)

lines_eq :
    (w : Bytes) (z : ℤ) (rest : Bytes)
    → IsStorable (w, z)
    → getlines (w ++ (32 ∷ decimal z ++ (10 ∷ rest))) ≡ (w ++ (32 ∷ decimal z)) ∷ getlines rest
lines_eq w z rest h =
    ap getlines (sym (append_assoc w (32 ∷ decimal z) (10 ∷ rest)))
    ∙ getlines-line (w ++ (32 ∷ decimal z)) rest (
        Without-append 10 w (32 ∷ decimal z) h.no_newline
          (ground arith, decimal-Without 10 z (omega arith)))

-- `initDict` reads from the file what `store` wrote, if the words hold no blanks and no newlines
-- and the frequencies fit an `int`.
pub init_dict-store_dict :
    (dict : List (Bytes × ℤ)) → All IsStorable dict → init_dict (store_dict dict) ≡ some dict
unfolding init_dict entry_lines store_dict
init_dict-store_dict [] h = unfold getlines in refl
init_dict-store_dict ((w, z) ∷ dict) h =
    let lines = lines_eq w z (store_dict dict) h.0 in
    let head = entry_line-decimal w z h.0 in
    let rest = init_dict-store_dict dict h.1 in rw (lines, head, rest) refl
