-- ===== src/Searcher/Snippet/Cuts.antt =====
-- Where the part of a description that `outRes` of src/WebPageSearcher.cc shows is cut.
use simple_search_enginer.Prelude.{
  ℕ, zero, suc, ◌+◌, ◌≤◌, ◌<◌, ◌≡◌, refl, sym, ap, ◌∙◌, inl, inr, ◌⊎◌, Bool-cases, true, false,
  some, List, [], ◌∷◌, ◌++◌, Bytes, arith, All, length, length-append, take, drop, get_elem?, ltb,
  ◌==◌, if◌then◌else◌,
}
use mathlib.Core.List.{append_assoc, append-nil}
use simple_search_enginer.Utf8.{n_bytes_code, lead_loop}
use simple_search_enginer.Utf8.Chars.{concat}
use simple_search_enginer.Dictionary.Solitaire.Beginning.{IsWhole}
use simple_search_enginer.Searcher.Snippet.{
  below_30, above_30, Span, mark_begin, span_loop, char_at, copy_from,
}

lead_loop-le : (b n m : ℕ) → lead_loop b n m ≤ m + n
unfolding lead_loop
lead_loop-le b zero m = omega arith
lead_loop-le b (suc n) m = ground (arith, lead_loop-le b n (m + 1))

n_bytes_code-le : (b : ℕ) → n_bytes_code b ≤ 7
unfolding n_bytes_code
n_bytes_code-le b = ground (arith, lead_loop-le b 6 1)

-- The loop by characters, from position `k`.
pub char_loop : ℕ → ℕ → List Bytes → Span → Span
char_loop idx k [] span = span
char_loop idx k (c ∷ cs) span =
    let k' = k + length c in
    let span' = mark_begin idx k' span in
    let rest = char_loop idx k' cs span' in
    if ltb (above_30 idx) k' then record span' { idx_byte_end = k' } else rest

span_loop-skip :
    (idx k : ℕ) (t s : Bytes) (span : Span)
    → span_loop idx (length t) k (t ++ s) span ≡ span_loop idx 0 k s span
unfolding span_loop
span_loop-skip idx k [] s span = refl
span_loop-skip idx k (c ∷ t) s span = span_loop-skip idx k t s span

pub span_loop-char_loop :
    (idx k : ℕ) (cs : List Bytes) (span : Span)
    → All IsWhole cs
    → span_loop idx 0 k (concat cs) span ≡ char_loop idx k cs span
unfolding span_loop char_loop
span_loop-char_loop idx k [] span h = refl
span_loop-char_loop idx k ([] ∷ cs) span h = absurd h.0
span_loop-char_loop idx k ((b ∷ t) ∷ cs) span h =
    let span' = mark_begin idx (k + suc (length t)) span in
    rw h.0 (
      ap
        (λ (rest : Span).
          if ltb (above_30 idx) (k + suc (length t))
          then record span' { idx_byte_end = k + suc (length t) }
          else rest)
        (ap (λ n. span_loop idx n (k + suc (length t)) (t ++ concat cs) span') (omega arith)
          ∙ span_loop-skip idx (k + suc (length t)) t (concat cs) span'
          ∙ span_loop-char_loop idx (k + suc (length t)) cs span' h.1))

-- The position is at the border of two characters, or at an end.
abbrev pub IsCut : List Bytes → ℕ → Type 0
IsCut cs n =
    (pre : List Bytes) × (post : List Bytes) × (cs ≡ pre ++ post) × (length (concat pre) ≡ n)

length-IsWhole : (c : Bytes) → IsWhole c → (1 ≤ length c) × (length c ≤ 7)
length-IsWhole [] h = absurd h
length-IsWhole (b ∷ t) h = (omega arith, omega (arith, n_bytes_code-le b))

module _ (idx : ℕ) (chars : List Bytes) where
  -- The begin as it is found up to position `k`.
  pub record Begun (k : ℕ) (span : Span) : Type 0 where
    pub cut : IsCut chars span.idx_byte_begin
    pub low : span.ch_begin_flag ≡ true → below_30 idx < span.idx_byte_begin
    pub high : span.idx_byte_begin ≤ below_30 idx + 7
    pub late : span.ch_begin_flag ≡ false → (span.idx_byte_begin ≡ 0) × (k ≤ below_30 idx)
    pub before : span.idx_byte_begin ≤ k
    pub no_end : span.idx_byte_end ≡ 0

  mark_begin-Begun :
      (k n : ℕ) (span : Span)
      → n ≤ 7
      → IsCut chars (k + n)
      → Begun k span
      → Begun (k + n) (mark_begin idx (k + n) span)
  unfolding mark_begin
  mark_begin-Begun k n span small cut h = elim (Bool-cases span.ch_begin_flag) [
    | inl e ↦ rw e (record {
      cut = h.cut;
      low = λ _. h.low e;
      high = h.high;
      late = λ f. cc;
      before = omega (arith, h.before);
      no_end = h.no_end;
    })
    | inr e ↦
        let (zero_begin, early) = h.late e in
        elim (Bool-cases (ltb (below_30 idx) (k + n))) [
          | inl f ↦
              rw (e, f)
                (record {
                  cut = cut;
                  low = λ _. ground arith;
                  high = omega arith;
                  late = λ g. cc;
                  before = omega arith;
                  no_end = h.no_end;
                })
          | inr f ↦
              rw (e, f)
                (record {
                  cut = h.cut;
                  low = λ g. cc;
                  high = h.high;
                  late = λ _. (zero_begin, ground arith);
                  before = omega (arith, h.before);
                  no_end = h.no_end;
                })
        ]
  ]

  pub char_loop-Begun :
      (pre cs : List Bytes) (k : ℕ) (span : Span)
      → chars ≡ pre ++ cs
      → length (concat pre) ≡ k
      → All IsWhole cs
      → k ≤ above_30 idx
      → Begun k span
      → (last : ℕ) × (span' : Span) × Begun last span'
        × IsCut chars last
        × (((char_loop idx k cs span ≡ span') × (last ≡ length (concat chars)))
            ⊎ ((char_loop idx k cs span ≡ record span' { idx_byte_end = last })
                × (above_30 idx < last)
                × (last ≤ above_30 idx + 7)))
  unfolding char_loop
  char_loop-Begun pre [] k span whole at_k h low begun =
      let same : chars ≡ pre = whole ∙ append-nil pre in
      (
        k,
        span,
        begun,
        (pre, [], whole, at_k),
        inl (refl, sym at_k ∙ ap (λ u. length (concat u)) (sym same)),
      )
  char_loop-Begun pre (c ∷ cs) k span whole at_k h low begun =
      let (_, small) = length-IsWhole c h.0 in
      let whole' : chars ≡ (pre ++ (c ∷ [])) ++ cs = whole ∙ sym (append_assoc pre (c ∷ []) cs) in
      let at : length (concat (pre ++ (c ∷ []))) ≡ k + length c =
        ap length (concat-last pre c)
        ∙ length-append (concat pre) c
        ∙ ap (λ n. n + length c) at_k in
      let cut : IsCut chars (k + length c) = (pre ++ (c ∷ []), cs, whole', at) in
      let begun' = mark_begin-Begun k (length c) span small cut begun in
      elim (Bool-cases (ltb (above_30 idx) (k + length c))) [
        | inl e ↦ (
          k + length c,
          mark_begin idx (k + length c) span,
          begun',
          cut,
          inr (rw e refl, ground arith, omega arith),
        )
        | inr e ↦
            let (last, span', begun'', cut', rest) =
              char_loop-Begun (pre ++ (c ∷ [])) cs (k + length c)
                (mark_begin idx (k + length c) span) whole' at h.1 (ground arith) begun' in
            (last, span', begun'', cut', rw e rest)
      ]
    where
      concat-last : (cs : List Bytes) (c : Bytes) → concat (cs ++ (c ∷ [])) ≡ concat cs ++ c
      concat-last [] c = append-nil c
      concat-last (d ∷ cs) c =
          ap (λ u. d ++ u) (concat-last cs c) ∙ sym (append_assoc d (concat cs) c)

drop-next :
    (s : Bytes) (k : ℕ)
    → k < length s
    → (c : ℕ) × (get_elem? s k ≡ some c) × (drop k s ≡ c ∷ drop (suc k) s)
drop-next [] k h = absurd (omega arith)
drop-next (c ∷ s) zero h = (c, refl, refl)
drop-next (c ∷ s) (suc k) h = drop-next s k (omega arith)

pub copy_from-take :
    (n k : ℕ) (s : Bytes) → k + n ≤ length s → copy_from n k s ≡ some (take n (drop k s))
unfolding copy_from char_at
copy_from-take zero k s h = refl
copy_from-take (suc n) k s h =
    let (c, at, cut) = drop-next s k (omega arith) in
    let rest = copy_from-take n (suc k) s (omega arith) in
    let inside : (k == length s) ≡ false = ground arith in
    let next : k + 1 ≡ suc k = omega arith in rw (inside, at, next, rest, cut) refl
