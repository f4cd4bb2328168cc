-- ===== src/Indexing/Frequency.antt =====
-- The document frequencies that `invertProcess` of pageDump/PagePreProcessor.cc counts.
use simple_search_enginer.Prelude.{
  ℕ, suc, ◌+◌, ◌≡◌, refl, ◌⊎◌, inl, inr, Bool, true, false, Bool-cases, Option, none, some, List,
  [], ◌∷◌, Bytes, Bytes_discrete, ℤ, ℤ_discrete, ite, if◌then◌else◌, arith, All, set_insert, at_key,
  assign, lookup-assign_self, lookup-assign_ne, stoi, getlines,
}
use simple_search_enginer.Searcher.{Doubles, PageText, Table}
use simple_search_enginer.Indexing.{
  bytes_less, has_word, stop_words, XmlDoc, Counts, mark_new, mark_word, is_skipped, word_loop,
  doc_round, doc_loop, table_loop, invert_process,
}
use simple_search_enginer.Indexing.Sets.{has_word-set_insert}

abbrev one_if : Bool → ℕ
one_if b = if b then 1 else 0

-- How many pages have the word.
abbrev pub pages_with : Bytes → List (ℤ × List Bytes) → ℕ
pages_with q [] = 0
pages_with q ((id, words) ∷ m) = one_if (has_word q words) + pages_with q m

has_word-new :
    (q w : Bytes) (xs : List Bytes)
    → has_word w xs ≡ false
    → one_if (has_word q (set_insert bytes_less w xs))
      ≡ one_if (has_word q xs) + ite (Bytes_discrete w q) 1 0
has_word-new q w xs h = ground (arith, has_word-set_insert q w xs, h)

pages_with-new :
    (q w : Bytes) (id : ℤ) (m : List (ℤ × List Bytes))
    → has_word w (at_key ℤ_discrete [] id m) ≡ false
    → pages_with q (assign ℤ_discrete id (set_insert bytes_less w (at_key ℤ_discrete [] id m)) m)
      ≡ pages_with q m + ite (Bytes_discrete w q) 1 0
unfolding at_key assign has_word
pages_with-new q w id [] h = ground (arith, has_word-new q w [])
pages_with-new q w id ((j, s) ∷ m) h = ground (arith, has_word-new q w s, pages_with-new q w id m)

at_key-assign :
    (q w : Bytes) (v : ℕ) (m : List (Bytes × ℕ))
    → at_key Bytes_discrete 0 q (assign Bytes_discrete w v m)
      ≡ ite (Bytes_discrete w q) v (at_key Bytes_discrete 0 q m)
unfolding at_key
at_key-assign q w v m = elim (Bytes_discrete w q) [
  | yes same ↦ ground (arith, same, lookup-assign_self Bytes_discrete w v m)
  | no other ↦ ground (arith, other, lookup-assign_ne Bytes_discrete w q v m)
]

-- The frequency of each word is the number of pages that have it.
abbrev pub Counted : Counts → Type 0
Counted st = (q : Bytes) → at_key Bytes_discrete 0 q st.words_freq ≡ pages_with q st.doc_words

mark_new-Counted : (id : ℤ) (w : Bytes) (st : Counts) → Counted st → Counted (mark_new id w st)
unfolding mark_new
mark_new-Counted id w st h q =
    elim (Bool-cases (has_word w (at_key ℤ_discrete [] id st.doc_words))) [
      | inl known ↦ rw known (h q)
      | inr new ↦ rw new (
          ground (
            arith,
            at_key-assign q w (suc (at_key Bytes_discrete 0 w st.words_freq)) st.words_freq,
            pages_with-new q w id st.doc_words new,
            h q,
            h w,
          ))
    ]

mark_word-Counted :
    (id : ℤ) (pos : ℕ) (w : Bytes) (st : Counts) → Counted st → Counted (mark_word id pos w st)
unfolding mark_word
mark_word-Counted id pos w st h = mark_new-Counted id w st h

word_loop-Counted :
    (stop : List Bytes) (id : ℤ) (ws : List Bytes) (pos : ℕ) (st : Counts)
    → Counted st
    → Counted (word_loop stop id ws pos st)
unfolding word_loop
word_loop-Counted stop id [] pos st h = h
word_loop-Counted stop id (w ∷ ws) pos st h =
    word_loop-Counted stop id ws _ _ (elim (Bool-cases (is_skipped stop w)) [
      | inl skip ↦ rw skip h
      | inr keep ↦ rw keep (mark_word-Counted id pos w st h)
    ])

-- A page without a number is passed over; another has a number that fits an `int`, and a description.
abbrev pub IsReadable : XmlDoc → Type 0
IsReadable doc =
    (doc.docid ≡ none)
    ⊎ ((text : Bytes) × (id : ℤ) × (content : Option Bytes) × (doc.docid ≡ some (some text))
        × (stoi text ≡ some id)
        × (doc.description ≡ some content))

module _ (cut : Bytes → List Bytes) (stop : List Bytes) where
  doc_round-Counted :
      (doc : XmlDoc) (st : Counts)
      → IsReadable doc
      → Counted st
      → (r : Bool × Counts) × (doc_round cut stop doc st ≡ some r) × Counted r.1
  unfolding doc_round
  doc_round-Counted doc st (inl e) h = ((false, st), rw e refl, h)
  doc_round-Counted doc st (inr (text, id, none, e, f, g)) h =
      ((false, st), rw e (rw (f, g) refl), h)
  doc_round-Counted doc st (inr (text, id, some [], e, f, g)) h =
      ((true, st), rw e (rw (f, g) refl), h)
  doc_round-Counted doc st (inr (text, id, some (c ∷ s), e, f, g)) h = (
    (true, word_loop stop id (cut (c ∷ s)) 0 st),
    rw e (rw (f, g) refl),
    word_loop-Counted stop id (cut (c ∷ s)) 0 st h,
  )

  doc_loop-Counted :
      (docs : List XmlDoc) (n : ℕ) (st : Counts)
      → All IsReadable docs
      → Counted st
      → (r : ℕ × Counts) × (doc_loop cut stop docs n st ≡ some r) × Counted r.1
  unfolding doc_loop
  doc_loop-Counted [] n st all h = ((n, st), refl, h)
  doc_loop-Counted (doc ∷ docs) n st all h =
      let (r, e, k) = doc_round-Counted doc st all.0 h in
      let (t, f, l) = doc_loop-Counted docs (if r.0 then suc n else n) r.1 all.1 k in (t, rw e f, l)

abbrev pub no_counts : Counts
no_counts = record { words_freq = []; doc_words = []; doc_freq = [] }

-- `invertProcess` ends on every library whose pages have a number and a description, or no number,
-- and every list of stop words without an empty line; then each word's document frequency, from
-- which its weights are computed, is the number of pages whose set of words has it, whatever
-- segmentation jieba makes.
pub invert_process-Counted :
    (doubles : Doubles) (parse_page : Bytes → Option PageText) (cut : Bytes → List Bytes)
    (stop_text : Bytes) (stop : List Bytes) (docs : List XmlDoc)
    → stop_words (getlines stop_text) [] ≡ some stop
    → All IsReadable docs
    → (st : Counts) × (table : Table doubles parse_page) × (invert_process doubles parse_page cut
          stop_text
          (some docs)
          no_counts
          []
        ≡ some (st, table))
      × Counted st
unfolding invert_process
invert_process-Counted doubles parse_page cut stop_text stop docs e all =
    let (r, f, k) = doc_loop-Counted cut stop docs 0 no_counts all (λ q. unfold at_key in refl) in
    (r.1, table_loop doubles parse_page r.1 r.0 r.1.doc_words [], rw (e, f) refl, k)
