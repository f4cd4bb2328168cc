-- ===== src/Indexing/Sets.antt =====
-- Sets of words, as pageDump/PagePreProcessor.cc keeps them.
use simple_search_enginer.Prelude.{
  ◌≡◌, refl, true, false, List, [], ◌∷◌, Bytes, Bytes_discrete, ite, arith, set_insert,
}
use simple_search_enginer.Indexing.{bytes_less, has_word}

-- Words that are not less than each other are equal.
pub bytes_less-eq : (a b : Bytes) → bytes_less a b ≡ false → bytes_less b a ≡ false → a ≡ b
unfolding bytes_less
bytes_less-eq [] [] h k = refl
bytes_less-eq [] (d ∷ t) h k = cc
bytes_less-eq (c ∷ s) [] h k = cc
bytes_less-eq (c ∷ s) (d ∷ t) h k = ground (arith, bytes_less-eq s t)

-- An insertion adds its word and no other.
pub has_word-set_insert :
    (q w : Bytes) (xs : List Bytes)
    → has_word q (set_insert bytes_less w xs) ≡ ite (Bytes_discrete w q) true (has_word q xs)
unfolding has_word set_insert
has_word-set_insert q w [] = refl
has_word-set_insert q w (x ∷ xs) = ground (arith, has_word-set_insert q w xs, bytes_less-eq w x)
