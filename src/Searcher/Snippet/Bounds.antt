-- ===== src/Searcher/Snippet/Bounds.antt =====
-- The part of a description that `outRes` of src/WebPageSearcher.cc shows: borders and bounds.
use simple_search_enginer.Prelude.{
  ℕ, ◌+◌, ◌-◌, ◌≤◌, ◌<◌, ◌≡◌, refl, ap, ◌∙◌, subst, inl, inr, ◌⊎◌, Bool-cases, true, false, some,
  List, [], ◌∷◌, ◌++◌, Bytes, arith, All, length, length-append, take, drop, ltb, ◌==◌,
}
use simple_search_enginer.Utf8.Chars.{concat}
use simple_search_enginer.Dictionary.Solitaire.Beginning.{IsWhole}
use simple_search_enginer.Searcher.Snippet.{below_30, above_30, Span, no_span, snippet}
use simple_search_enginer.Searcher.Snippet.Cuts.{
  IsCut, Begun, char_loop-Begun, span_loop-char_loop, copy_from-take,
}

module _ (idx : ℕ) (chars : List Bytes) where
  -- Where the part begins, against `idx`.
  abbrev pub BeginsAt : ℕ → Type 0
  BeginsAt b =
      ((b ≡ 0) × ((idx < 30) ⊎ (length (concat chars) ≤ idx - 30)))
      ⊎ ((30 ≤ idx) × (idx - 30 < b) × (b ≤ idx - 23))

  -- Where it ends.
  abbrev pub EndsAt : ℕ → Type 0
  EndsAt e = (e ≡ length (concat chars)) ⊎ ((idx + 30 < e) × (e ≤ idx + 37))

module _ (idx : ℕ) (chars : List Bytes) (in_range : idx + 30 < 18446744073709551616)
    (short : length (concat chars) + 30 ≤ 18446744073709551616) where
  above_30-eq : above_30 idx ≡ idx + 30
  unfolding above_30
  above_30-eq = omega arith

  below_30-large : 30 ≤ idx → below_30 idx ≡ idx - 30
  unfolding below_30
  below_30-large h = omega arith

  below_30-small : idx < 30 → length (concat chars) ≤ below_30 idx
  unfolding below_30
  below_30-small h = omega arith

  Begun-no_span : Begun idx chars 0 no_span
  Begun-no_span = record {
    cut = ([], chars, refl, refl);
    low = λ e. cc;
    high = omega arith;
    late = λ _. (refl, omega arith);
    before = omega arith;
    no_end = refl;
  }

  begins :
      (last : ℕ) (span : Span)
      → Begun idx chars last span
      → last ≤ length (concat chars)
      → (last ≡ length (concat chars)) ⊎ (idx + 30 < last)
      → BeginsAt idx chars span.idx_byte_begin
  begins last span h inside far = elim (Bool-cases span.ch_begin_flag) [
    | inl e ↦ elim (Bool-cases (ltb idx 30)) [
      | inl f ↦ absurd (omega (arith, h.low e, h.before, below_30-small (ground arith)))
      | inr f ↦
          let large : 30 ≤ idx = ground arith in
          inr (
            large,
            omega (arith, h.low e, below_30-large large),
            omega (arith, h.high, below_30-large large),
          )
    ]
    | inr e ↦
        let (zero_begin, early) = h.late e in
        inl (
          zero_begin,
          elim (Bool-cases (ltb idx 30)) [
            | inl f ↦ inl (ground arith)
            | inr f ↦
                let large : 30 ≤ idx = ground arith in
                inr (elim far [
                  | inl all ↦ omega (arith, below_30-large large)
                  | inr past ↦ absurd (omega (arith, below_30-large large))
                ])
          ],
        )
  ]

  IsCut-le : (n : ℕ) → IsCut chars n → n ≤ length (concat chars)
  IsCut-le n (pre, post, e, size) =
      let all : length (concat chars) ≡ length (concat pre) + length (concat post) =
        ap (λ u. length (concat u)) e ∙ length-concat pre post in
      omega arith
    where
      length-concat :
          (xs ys : List Bytes)
          → length (concat (xs ++ ys)) ≡ length (concat xs) + length (concat ys)
      length-concat [] ys = omega arith
      length-concat (x ∷ xs) ys = omega (
        arith,
        length-append x (concat (xs ++ ys)),
        length-append x (concat xs),
        length-concat xs ys,
      )

  -- On a description of whole characters, where it and `idx` stay 30 below 2 ^ 64, `outRes` shows
  -- a part of it that begins and ends between characters. It begins with the description if `idx` is below 30 or 30 bytes and more after
  -- the description's end, and else less than 30 bytes and at least 23 bytes before `idx`. It
  -- ends with the description, or from 31 to 37 bytes after `idx`.
  pub snippet-IsCut :
      All IsWhole chars
      → (b e : ℕ) × (snippet idx (concat chars) ≡ some (take (e - b) (drop b (concat chars))))
        × IsCut chars b
        × IsCut chars e
        × (b ≤ e)
        × BeginsAt idx chars b
        × EndsAt idx chars e
  unfolding snippet
  snippet-IsCut whole =
      let s = concat chars in
      let loop = span_loop-char_loop idx 0 chars no_span whole in
      let (last, span, begun, cut, ends) =
        char_loop-Begun idx chars [] chars 0 no_span refl refl whole (omega arith) Begun-no_span in
      let inside = IsCut-le last cut in
      let b = span.idx_byte_begin in
      elim ends [
        | inl (ran, all) ↦
            let open_end : (span.idx_byte_end == 0) ≡ true = ground (arith, begun.no_end) in
            (
              b,
              length s,
              rw (loop ∙ ran, open_end)
                  (copy_from-take (length s - b) b s (omega (arith, begun.before))),
              begun.cut,
              subst (IsCut chars) all cut,
              omega (arith, begun.before),
              begins last span begun inside (inl all),
              inl refl,
            )
        | inr (ran, past, near) ↦
            let closed : (last == 0) ≡ false = ground arith in
            (
              b,
              last,
              rw (loop ∙ ran, closed) (copy_from-take (last - b) b s (omega (arith, begun.before))),
              begun.cut,
              cut,
              begun.before,
              begins last span begun inside (inr (omega (arith, above_30-eq))),
              inr (omega (arith, above_30-eq), omega (arith, above_30-eq)),
            )
      ]
