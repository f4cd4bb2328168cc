-- ===== src/Vocabulary/Frequency.antt =====
-- The frequencies that `buildCnDict` of recommanderDump/DictProducer.cc counts.
use mathlib.Core.List.{append_assoc, append-nil}
use simple_search_enginer.Prelude.{
  ℕ, ◌+◌, ◌<◌, ◌≡◌, refl, sym, ap, subst, ◌∙◌, ◌⊎◌, inl, inr, Bool-cases, none, some, List, [], ◌∷◌,
  ◌++◌, arith, Bytes, Bytes_discrete, ite, if◌then◌else◌, All, at_key,
}
use simple_search_enginer.Indexing.{is_skipped, bytes_less}
use simple_search_enginer.Vocabulary
use simple_search_enginer.Vocabulary.{
  WordCounts, count_up, count_words, XmlItem, Loaded, item_round, item_loop, file_loop, push_counts,
  build_cn_dict,
}
use simple_search_enginer.Vocabulary.Order.{Sorted, count_up-Sorted, at_key-count_up}

-- How often a word stands in a list.
abbrev pub times : Bytes → List Bytes → ℕ
times q [] = 0
times q (w ∷ ws) = ite (Bytes_discrete w q) 1 0 + times q ws

times-append : (q : Bytes) (xs ys : List Bytes) → times q (xs ++ ys) ≡ times q xs + times q ys
times-append q [] ys = omega arith
times-append q (x ∷ xs) ys = omega (arith, times-append q xs ys)

-- Its number of occurrences, which is 0 for a word that is skipped.
abbrev pub tally : List Bytes → Bytes → List Bytes → ℕ
tally stop q ws = if is_skipped stop q then 0 else times q ws

-- The counts of the words read so far.
pub record Tallies (stop ws : List Bytes) (m : WordCounts) : Type 0 where
  pub sorted : Sorted m
  pub positive : All (λ (e : Bytes × ℕ). 0 < e.1) m
  pub counts : (q : Bytes) → at_key Bytes_discrete 0 q m ≡ tally stop q ws

count_up-positive :
    (w : Bytes) (m : WordCounts)
    → All (λ (e : Bytes × ℕ). 0 < e.1) m
    → All (λ (e : Bytes × ℕ). 0 < e.1) (count_up w m)
unfolding count_up
count_up-positive w [] h = (omega arith, tt)
count_up-positive w ((x, n) ∷ m) h = elim (Bool-cases (bytes_less w x)) [
  | inl e ↦ rw e (omega arith, h)
  | inr e ↦ elim (Bool-cases (bytes_less x w)) [
    | inl f ↦ rw (e, f) (h.0, count_up-positive w m h.1)
    | inr f ↦ rw (e, f) (omega arith, h.1)
  ]
]

word-Tallies :
    (stop ws : List Bytes) (w : Bytes) (m : WordCounts)
    → Tallies stop ws m
    → Tallies stop (ws ++ (w ∷ [])) (if is_skipped stop w then m else count_up w m)
word-Tallies stop ws w m h = elim (Bool-cases (is_skipped stop w)) [
  | inl e ↦ rw e (record {
    sorted = h.sorted;
    positive = h.positive;
    counts = λ q. ground (arith, e, h.counts q, times-append q ws (w ∷ []));
  })
  | inr e ↦ rw e (record {
    sorted = count_up-Sorted w m h.sorted;
    positive = count_up-positive w m h.positive;
    counts = λ q.
        ground (arith, e, at_key-count_up q w m h.sorted, h.counts q, times-append q ws (w ∷ []));
  })
]

count_words-Tallies :
    (stop ws vs : List Bytes) (m : WordCounts)
    → Tallies stop ws m
    → Tallies stop (ws ++ vs) (count_words stop vs m)
unfolding count_words
count_words-Tallies stop ws [] m h = rw (append-nil ws) h
count_words-Tallies stop ws (v ∷ vs) m h =
    subst
      (λ us. Tallies stop us (count_words stop vs (if is_skipped stop v then m else count_up v m)))
      (append_assoc ws (v ∷ []) vs)
      (count_words-Tallies stop (ws ++ (v ∷ [])) vs _ (word-Tallies stop ws v m h))

-- The texts of an element: none without a title.
abbrev pub item_texts : XmlItem → List Bytes
item_texts item = elim item.title [
  | none ↦ []
  | some text ↦ elim text [
    | none ↦ []
    | some title ↦ elim item.description [
      | none ↦ []
      | some child ↦ elim child [ none ↦ [] | some description ↦ title ∷ description ∷ [] ]
    ]
  ]
]

-- An element without a title is passed over; another has both texts.
abbrev pub IsWhole : XmlItem → Type 0
IsWhole item =
    (item.title ≡ none)
    ⊎ ((title description : Bytes) × (item.title ≡ some (some title))
        × (item.description ≡ some (some description)))

abbrev pub IsLoaded : Loaded → Type 0
IsLoaded Vocabulary.failed = ⊥
IsLoaded Vocabulary.childless = ⊥
IsLoaded (Vocabulary.items elements) = All IsWhole elements

module _ (cut : Bytes → List Bytes) (strip : Bytes → Bytes) where
  -- All words of some texts, in order.
  abbrev pub text_words : List Bytes → List Bytes
  text_words [] = []
  text_words (t ∷ ts) = cut (strip t) ++ text_words ts

  abbrev pub item_words : List XmlItem → List Bytes
  item_words [] = []
  item_words (item ∷ rest) = text_words (item_texts item) ++ item_words rest

  abbrev pub file_words : List Loaded → List Bytes
  file_words [] = []
  file_words (Vocabulary.items elements ∷ files) = item_words elements ++ file_words files
  file_words (file ∷ files) = file_words files

  module _ (stop : List Bytes) where
    item_round-Tallies :
        (item : XmlItem) (ws : List Bytes) (m : WordCounts)
        → IsWhole item
        → Tallies stop ws m
        → (m' : WordCounts) × (item_round cut strip stop item m ≡ some m')
          × Tallies stop (ws ++ text_words (item_texts item)) m'
    unfolding item_round
    item_round-Tallies item ws m (inl e) h = rw e (m, refl, rw (append-nil ws) h)
    item_round-Tallies item ws m (inr (t, d, e, f)) h =
        let m₁ = count_words stop (cut (strip t)) m in
        let m₂ = count_words stop (cut (strip d)) m₁ in
        rw (e, f)
          (
            m₂,
            refl,
            subst (λ us. Tallies stop us m₂)
                (append_assoc ws (cut (strip t)) (cut (strip d))
                  ∙ ap (λ us. ws ++ (cut (strip t) ++ us)) (sym (append-nil (cut (strip d)))))
                (count_words-Tallies stop (ws ++ cut (strip t)) (cut (strip d)) m₁
                  (count_words-Tallies stop ws (cut (strip t)) m h)),
          )

    pub item_loop-Tallies :
        (elements : List XmlItem) (ws : List Bytes) (m : WordCounts)
        → All IsWhole elements
        → Tallies stop ws m
        → (m' : WordCounts) × (item_loop cut strip stop elements m ≡ some m')
          × Tallies stop (ws ++ item_words elements) m'
    unfolding item_loop
    item_loop-Tallies [] ws m all h = (m, refl, rw (append-nil ws) h)
    item_loop-Tallies (item ∷ rest) ws m all h =
        let (m₁, ran, h₁) = item_round-Tallies item ws m all.0 h in
        let (m', more, h') =
          item_loop-Tallies rest (ws ++ text_words (item_texts item)) m₁ all.1 h₁ in
        (
          m',
          rw ran more,
          subst (λ us. Tallies stop us m')
              (append_assoc ws (text_words (item_texts item)) (item_words rest)) h',
        )

    pub file_loop-Tallies :
        (files : List Loaded) (ws : List Bytes) (m : WordCounts)
        → All IsLoaded files
        → Tallies stop ws m
        → (m' : WordCounts) × (file_loop cut strip stop files m ≡ some (some m'))
          × Tallies stop (ws ++ file_words files) m'
    unfolding file_loop
    file_loop-Tallies [] ws m all h = (m, refl, rw (append-nil ws) h)
    file_loop-Tallies (Vocabulary.failed ∷ files) ws m all h = elim all.0 [ ]
    file_loop-Tallies (Vocabulary.childless ∷ files) ws m all h = elim all.0 [ ]
    file_loop-Tallies (Vocabulary.items elements ∷ files) ws m all h =
        let (m₁, ran, h₁) = item_loop-Tallies elements ws m all.0 h in
        let (m', more, h') = file_loop-Tallies files (ws ++ item_words elements) m₁ all.1 h₁ in
        (
          m',
          rw ran more,
          subst (λ us. Tallies stop us m')
              (append_assoc ws (item_words elements) (file_words files)) h',
        )
