-- ===== src/Dictionary/Itself.antt =====
-- What `Dictionary::doQuery` of src/recommander/Dictionary.cc finds for a word of the dictionary.
use simple_search_enginer.Prelude.{
  ◌≡◌, sym, ap, subst, ◌∙◌, inl, inr, false, some, List, [], ◌∷◌, ◌++◌, map, Bytes, ℤ, pos, negsuc,
  arith, All, All-append, bind-some, get_elem?, Option,
}
use simple_search_enginer.Utf8.Chars.{Splits}
use simple_search_enginer.Distance.{edit_distance}
use simple_search_enginer.Distance.Zero.{edit_distance_self, edit_distance-zero}
use simple_search_enginer.Dictionary.{
  Candidate, PriorityQueue, Dictionary, less, candidate, split_sought, do_query,
}
use simple_search_enginer.Dictionary.Popping.{Occurs}
use simple_search_enginer.Dictionary.Best.{Ranked, IsServed}
use simple_search_enginer.Dictionary.Filling.{set_candidates, word_candidates}
use simple_search_enginer.Dictionary.Query.{IsOneOf, do_query-best}

-- The distance of a candidate is measured.
abbrev IsMeasured : Bytes → Candidate → Type 0
IsMeasured sought c = edit_distance sought c.word ≡ some c.dis

candidate-IsMeasured :
    (dict : List (Bytes × ℤ)) (sought : Bytes) (i : ℤ) (c : Candidate)
    → candidate dict sought i ≡ some c
    → IsMeasured sought c
unfolding candidate
candidate-IsMeasured dict sought (negsuc i) c e = cc
candidate-IsMeasured dict sought (pos i) c e =
    let (entry, _, e₁) = bind-some (get_elem? dict i) _ e in
    let (n, known, e₂) = bind-some (edit_distance sought entry.0) _ e₁ in ground (arith, known, e₂)

set_candidates-IsMeasured :
    (dict : List (Bytes × ℤ)) (sought : Bytes) (is : List ℤ) (cs : List Candidate)
    → set_candidates dict sought is ≡ some cs
    → All (IsMeasured sought) cs
unfolding set_candidates
set_candidates-IsMeasured dict sought [] [] e = tt
set_candidates-IsMeasured dict sought [] (c ∷ cs) e = cc
set_candidates-IsMeasured dict sought (i ∷ is) cs e =
    let (d, known, e₁) = bind-some (candidate dict sought i) _ e in
    let (ds, more, e₂) = bind-some (set_candidates dict sought is) _ e₁ in
    let whole : d ∷ ds ≡ cs = ground (arith, e₂) in
    subst (All (IsMeasured sought)) whole
      (candidate-IsMeasured dict sought i d known, set_candidates-IsMeasured dict sought is ds more)

word_candidates-IsMeasured :
    (dict : List (Bytes × ℤ)) (sought : Bytes) (index : List (Bytes × List ℤ)) (ws : List Bytes)
    (cs : List Candidate)
    → word_candidates dict sought index ws ≡ some cs
    → All (IsMeasured sought) cs
unfolding word_candidates
word_candidates-IsMeasured dict sought index [] [] e = tt
word_candidates-IsMeasured dict sought index [] (c ∷ cs) e = cc
word_candidates-IsMeasured dict sought index (w ∷ ws) cs e =
    let (front, known, e₁) = bind-some (set_candidates dict sought _) _ e in
    let (bs, more, e₂) = bind-some (word_candidates dict sought index ws) _ e₁ in
    let whole : front ++ bs ≡ cs = ground (arith, e₂) in
    subst (All (IsMeasured sought)) whole (
      All-append (IsMeasured sought) front bs (set_candidates-IsMeasured dict sought _ front known)
        (word_candidates-IsMeasured dict sought index ws bs more))

-- One that is not less than a candidate at distance 0 is at distance 0 itself.
nearest : (p c : Candidate) → less p c ≡ false → c.dis ≡ 0 → p.dis ≡ 0
unfolding less
nearest p c e z = ground arith

module _ (sought : Bytes) (xs : List Bytes) (split : Splits sought xs) where
  -- A measured candidate whose word has characters.
  pub record IsText (c : Candidate) : Type 0 where
    pub measured : IsMeasured sought c
    pub chars : List Bytes
    pub splits : Splits c.word chars

  -- Of such candidates, at most those of the word itself are at distance 0.
  at_zero : (c : Candidate) → IsText c → c.dis ≡ 0 → c.word ≡ sought
  at_zero c h z =
      sym (edit_distance-zero sought c.word xs h.chars split h.splits (h.measured ∙ ap some z))

  itself_zero : (c : Candidate) → IsText c → sought ≡ c.word → c.dis ≡ 0
  itself_zero c h e =
      let own = edit_distance_self sought xs split in ground (arith, e, own, h.measured)

  -- Where the word is among the picks, the first pick is the word.
  first_pick :
      (p : Candidate) (ps : List Candidate)
      → IsText p
      → All IsText ps
      → All (λ d. less p d ≡ false) ps
      → Occurs sought (map (λ (c : Candidate). c.word) (p ∷ ps))
      → p.word ≡ sought
  first_pick p ps h hs ranked (inl e) = sym e
  first_pick p [] h hs ranked (inr o) = elim o [ ]
  first_pick p (q ∷ qs) h hs ranked (inr (inl e)) =
      at_zero p h (nearest p q ranked.0 (itself_zero q hs.0 e))
  first_pick p (q ∷ qs) h hs ranked (inr (inr o)) = first_pick p qs h hs.1 ranked.1 (inr o)

  all-IsText :
      (cs : List Candidate)
      → All (IsMeasured sought) cs
      → All (λ (c : Candidate). (ys : List Bytes) × Splits c.word ys) cs
      → All IsText cs
  all-IsText [] h k = tt
  all-IsText (c ∷ cs) h k =
      (record { measured = h.0; chars = k.0.0; splits = k.0.1 }, all-IsText cs h.1 k.1)

  one_of-IsText : (cs : List Candidate) (c : Candidate) → All IsText cs → IsOneOf cs c → IsText c
  one_of-IsText [] c h o = absurd o
  one_of-IsText (d ∷ cs) c h (inl e) = subst IsText (sym e) h.0
  one_of-IsText (d ∷ cs) c h (inr o) = one_of-IsText cs c h.1 o

  all_of-IsText : (cs ps : List Candidate) → All IsText cs → All (IsOneOf cs) ps → All IsText ps
  all_of-IsText cs [] h o = tt
  all_of-IsText cs (p ∷ ps) h o = (one_of-IsText cs p h o.0, all_of-IsText cs ps h o.1)

  -- The candidate of the word itself, served.
  itself-IsServed :
      (picks : List Candidate) (out : List Bytes) (cs : List Candidate)
      → All IsText cs
      → All (IsServed 5 picks out) cs
      → Occurs sought (map (λ (c : Candidate). c.word) cs)
      → (c : Candidate) × IsText c × (sought ≡ c.word) × IsServed 5 picks out c
  itself-IsServed picks out [] h s o = absurd o
  itself-IsServed picks out (c ∷ cs) h s (inl e) = (c, h.0, e, s.0)
  itself-IsServed picks out (c ∷ cs) h s (inr o) = itself-IsServed picks out cs h.1 s.1 o

  first_word :
      (picks : List Candidate) (out : List Bytes) (c : Candidate)
      → out ≡ map (λ (d : Candidate). d.word) picks
      → Ranked picks
      → All IsText picks
      → IsText c
      → sought ≡ c.word
      → IsServed 5 picks out c
      → (rest : List Bytes) × (out ≡ sought ∷ rest)
  first_word [] out c e ranked texts h same (inl o) = absurd (subst (Occurs c.word) e o)
  first_word [] out c e ranked texts h same (inr full) = absurd (omega (arith, full.0))
  first_word (p ∷ ps) out c e ranked texts h same (inl o) =
      let there = subst (λ w. Occurs w out) (sym same) o in
      let own = first_pick p ps texts.0 texts.1 ranked.0 (subst (Occurs sought) e there) in
      (_, e ∙ ap (λ w. w ∷ map (λ (d : Candidate). d.word) ps) own)
  first_word (p ∷ ps) out c e ranked texts h same (inr full) =
      let own = at_zero p texts.0 (nearest p c full.1.0 (itself_zero c h same)) in
      (_, e ∙ ap (λ w. w ∷ map (λ (d : Candidate). d.word) ps) own)

module _ (queues : PriorityQueue) (next : Bytes → Option (Bytes × Bytes)) where
  -- Where the word that is sought is among the candidates, and all candidates split into
  -- characters, the first word of whatever `doQuery` returns is that word.
  pub do_query-itself :
      (d d' : Dictionary) (sought : Bytes) (ws xs out : List Bytes) (cs : List Candidate)
      → split_sought next sought ≡ some ws
      → word_candidates d.dict sought d.index ws ≡ some cs
      → do_query queues next d sought ≡ some (d', out)
      → Splits sought xs
      → All (λ (c : Candidate). (ys : List Bytes) × Splits c.word ys) cs
      → Occurs sought (map (λ (c : Candidate). c.word) cs)
      → (rest : List Bytes) × (out ≡ sought ∷ rest)
  do_query-itself d d' sought ws xs out cs cut known run split splits here =
      let (picks, e, _, ranked, origin, served) =
        do_query-best queues next d d' sought ws out cs cut known run in
      let texts =
        all-IsText sought xs split cs (word_candidates-IsMeasured d.dict sought d.index ws cs known)
          splits in
      let (c, h, same, at) = itself-IsServed sought xs split picks out cs texts served here in
      first_word sought xs split picks out c e ranked
        (all_of-IsText sought xs split cs picks texts origin) h same at
