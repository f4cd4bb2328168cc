-- ===== src/Dictionary/Filling.antt =====
-- What `Dictionary::doQuery` of src/recommander/Dictionary.cc puts into its queue.
use simple_search_enginer.Prelude.{
  ◌≡◌, refl, ◌∙◌, subst, inl, inr, Option, some, List, [], ◌∷◌, ◌++◌, Bytes, Bytes_discrete, ℤ,
  arith, Option-cases, ◌>>=◌, lookup, lookup-assign_ne, lookup-assign_self,
}
use mathlib.Core.List.{Permᴰ}
use mathlib.Core.List.Permᴰ
use simple_search_enginer.Dictionary.{
  Candidate, PriorityQueue, candidate, set_at, touch, push_set, push_words,
}

-- The candidates of one character, in the order of the set.
unfoldable pub set_candidates : List (Bytes × ℤ) → Bytes → List ℤ → Option (List Candidate)
set_candidates dict sought [] = some []
set_candidates dict sought (i ∷ is) = do
  c ← candidate dict sought i
  cs ← set_candidates dict sought is
  some (c ∷ cs)

-- The words of the dictionary that share a character with the word that is sought, once for
-- each time that a character of it is shared.
unfoldable pub word_candidates :
    List (Bytes × ℤ) → Bytes → List (Bytes × List ℤ) → List Bytes → Option (List Candidate)
word_candidates dict sought index [] = some []
word_candidates dict sought index (w ∷ ws) = do
  cs ← set_candidates dict sought (set_at w index)
  ds ← word_candidates dict sought index ws
  some (cs ++ ds)

pub set_at-touch :
    (k w : Bytes) (index : List (Bytes × List ℤ)) → set_at k (touch w index) ≡ set_at k index
unfolding set_at touch
set_at-touch k w index = elim (Option-cases (lookup Bytes_discrete w index)) [
  | inr (set, there) ↦ ground (arith, there)
  | inl absent ↦ elim (Bytes_discrete k w) [
    | yes e ↦ ground (arith, absent, lookup-assign_self Bytes_discrete w [] index)
    | no n ↦ ground (arith, absent, lookup-assign_ne Bytes_discrete w k [] index n)
  ]
]

-- Equal sets give equal candidates.
pub word_candidates-index :
    (dict : List (Bytes × ℤ)) (sought : Bytes) (i j : List (Bytes × List ℤ)) (ws : List Bytes)
    → ((k : Bytes) → set_at k i ≡ set_at k j)
    → word_candidates dict sought i ws ≡ word_candidates dict sought j ws
unfolding word_candidates
word_candidates-index dict sought i j [] same = refl
word_candidates-index dict sought i j (w ∷ ws) same =
    rw (same w, word_candidates-index dict sought i j ws same) refl

module _ (queues : PriorityQueue) where
  open queues use {Queue, contents, push, push_lem}

  push_set-contents :
      (dict : List (Bytes × ℤ)) (sought : Bytes) (is : List ℤ) (q : Queue) (cs : List Candidate)
      → set_candidates dict sought is ≡ some cs
      → (q' : Queue) × (push_set queues dict sought is q ≡ some q')
        × Permᴰ (contents q') (cs ++ contents q)
  unfolding set_candidates push_set
  push_set-contents dict sought [] q cs known =
      let e : [] ≡ cs = cc in
      (q, refl, subst (λ u. Permᴰ (contents q) (u ++ contents q)) e (Permᴰ.refl (contents q)))
  push_set-contents dict sought (i ∷ is) q cs known =
      elim (Option-cases (candidate dict sought i)) [
        | inl stuck ↦ absurd (ground (arith, stuck, known))
        | inr (c, here) ↦ elim (Option-cases (set_candidates dict sought is)) [
          | inl stuck ↦ absurd (ground (arith, here, stuck, known))
          | inr (ds, rest) ↦
              let (q', ran, perm) = push_set-contents dict sought is (push c q) ds rest in
              let e : c ∷ ds ≡ cs = ground (arith, here, rest, known) in
              (
                q',
                rw here ran,
                subst (λ u. Permᴰ (contents q') (u ++ contents q)) e
                    (Permᴰ.trans perm (
                      Permᴰ.trans (Permᴰ.append_left ds (push_lem c q))
                        (Permᴰ.middle c ds (contents q)))),
              )
        ]
      ]

  -- The queue ends with the candidates of all characters, and the index keeps its sets.
  pub push_words-contents :
      (dict : List (Bytes × ℤ)) (sought : Bytes) (ws : List Bytes) (index : List (Bytes × List ℤ))
      (q : Queue) (cs : List Candidate)
      → word_candidates dict sought index ws ≡ some cs
      → (index' : List (Bytes × List ℤ)) × (q' : Queue) × (push_words queues dict sought ws index q
          ≡ some (index', q'))
        × ((k : Bytes) → set_at k index' ≡ set_at k index)
        × Permᴰ (contents q') (cs ++ contents q)
  unfolding word_candidates push_words
  push_words-contents dict sought [] index q cs known =
      let e : [] ≡ cs = cc in
      (
        index,
        q,
        refl,
        λ k. refl,
        subst (λ u. Permᴰ (contents q) (u ++ contents q)) e (Permᴰ.refl (contents q)),
      )
  push_words-contents dict sought (w ∷ ws) index q cs known =
      elim (Option-cases (set_candidates dict sought (set_at w index))) [
        | inl stuck ↦ absurd (ground (arith, stuck, known))
        | inr (ls, here) ↦ elim (Option-cases (word_candidates dict sought index ws)) [
          | inl stuck ↦ absurd (ground (arith, here, stuck, known))
          | inr (bs, rest) ↦
              let (q₁, pushed, perm₁) = push_set-contents dict sought (set_at w index) q ls here in
              let (index', q', ran, same, perm) =
                push_words-contents dict sought ws (touch w index) q₁ bs (
                  word_candidates-index dict sought (touch w index) index ws
                    (λ k. set_at-touch k w index)
                  ∙ rest) in
              let e : ls ++ bs ≡ cs = ground (arith, here, rest, known) in
              (
                index',
                q',
                rw pushed ran,
                λ k. same k ∙ set_at-touch k w index,
                subst (λ u. Permᴰ (contents q') (u ++ contents q)) e
                    (Permᴰ.trans perm
                      (Permᴰ.trans (Permᴰ.append_left bs perm₁) (rotated ls bs (contents q)))),
              )
        ]
      ]
    where
      rotated : (ls bs xs : List Candidate) → Permᴰ (bs ++ (ls ++ xs)) ((ls ++ bs) ++ xs)
      rotated [] bs xs = Permᴰ.refl (bs ++ xs)
      rotated (l ∷ ls) bs xs =
          Permᴰ.trans (Permᴰ.middle l bs (ls ++ xs)) (Permᴰ.cons refl (rotated ls bs xs))
