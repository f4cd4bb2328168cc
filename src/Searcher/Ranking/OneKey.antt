-- ===== src/Searcher/Ranking/OneKey.antt =====
-- `simCalc` of src/WebPageSearcher.cc for one key.
use simple_search_enginer.Prelude.{
  ◌≡◌, refl, sym, ◌∙◌, Option, some, List, [], ◌∷◌, Bytes, ℤ, ℤ_discrete, pos, at_key, touch_key,
  at_key-touch_key, set_insert,
}
use simple_search_enginer.Searcher.{
  Doubles, PageText, Posting, Searcher, Offsets, page_less, posting_loop, sim_calc, postings, touch,
}
use simple_search_enginer.Searcher.Ids.{postings-touch}
use simple_search_enginer.Searcher.Ranking.{Page, IsStored, IsRanking}
use simple_search_enginer.Searcher.Ranking.Collecting.{
  collected, collected-IsRanking, get_web_page_set-IsStored, same_offsets-IsStored,
}

module _ (doubles : Doubles) (parse_page : Bytes → Option PageText) where
  -- The pages of the postings, in their order: the stored pages, with the weights for cosines.
  abbrev pub Posted :
      Bytes → Offsets → List (Posting doubles parse_page) → List (Page doubles parse_page) → Type 0
  Posted file offsets [] [] = Unit {0}
  Posted file offsets [] (c ∷ cs) = ⊥
  Posted file offsets (p ∷ ps) [] = ⊥
  Posted file offsets (p ∷ ps) (c ∷ cs) =
      IsStored doubles parse_page file offsets p.id c × (c.cos ≡ p.w) × Posted file offsets ps cs

  posting_loop-Posted :
      (file : Bytes) (first offsets : Offsets) (ps : List (Posting doubles parse_page))
      (cs pages : List (Page doubles parse_page))
      → ((i : ℤ)
          → at_key ℤ_discrete (pos 0, pos 0) i offsets ≡ at_key ℤ_discrete (pos 0, pos 0) i first)
      → Posted file first ps cs
      → (out : Offsets) × (posting_loop doubles parse_page file offsets ps pages
          ≡ some (out, collected doubles parse_page cs pages))
        × ((i : ℤ)
            → at_key ℤ_discrete (pos 0, pos 0) i out ≡ at_key ℤ_discrete (pos 0, pos 0) i first)
  unfolding posting_loop
  posting_loop-Posted file first offsets [] [] pages same h = (offsets, refl, same)
  posting_loop-Posted file first offsets [] (c ∷ cs) pages same h = absurd h
  posting_loop-Posted file first offsets (p ∷ ps) [] pages same h = absurd h
  posting_loop-Posted file first offsets (p ∷ ps) (c ∷ cs) pages same h =
      let (out, ran, kept) =
        posting_loop-Posted file first (touch_key ℤ_discrete (pos 0, pos 0) p.id offsets) ps cs
          (set_insert (page_less doubles parse_page) c pages)
          (λ i. at_key-touch_key ℤ_discrete (pos 0, pos 0) i p.id offsets ∙ same i) h.2 in
      let here =
        get_web_page_set-IsStored doubles parse_page file offsets p.id c pages
          (same_offsets-IsStored doubles parse_page file first offsets p.id c (same p.id) h.0) in
      (out, rw (sym h.1, here) ran, kept)

  -- For one key: if the page file holds a readable page for each of its postings, `simCalc` comes
  -- to its end without undefined behaviour. The pages it collects are stored pages, each with the
  -- weight of its posting for cosine, in strictly falling order of that cosine; and each posting is
  -- represented: its page's cosine is tied with that of a page collected. No offset and no posting
  -- changes.
  pub sim_calc-one_key :
      (file : Bytes) (s : Searcher doubles parse_page) (key : Bytes) (ids : List ℤ)
      (cs : List (Page doubles parse_page))
      → Posted file s.offsets (postings doubles parse_page key s.table) cs
      → (s' : Searcher doubles parse_page) × (pages : List (Page doubles parse_page)) × (sim_calc
            doubles parse_page file s
            (key ∷ [])
            ids
          ≡ some (s', pages))
        × IsRanking doubles parse_page cs pages
        × ((i : ℤ)
            → at_key ℤ_discrete (pos 0, pos 0) i s'.offsets
              ≡ at_key ℤ_discrete (pos 0, pos 0) i s.offsets)
        × ((j : Bytes)
            → postings doubles parse_page j s'.table ≡ postings doubles parse_page j s.table)
  unfolding sim_calc
  sim_calc-one_key file s key ids cs h =
      let (out, ran, kept) =
        posting_loop-Posted file s.offsets s.offsets (postings doubles parse_page key s.table) cs []
          (λ i. refl) h in
      (
        record { offsets = out; table = touch doubles parse_page key s.table },
        collected doubles parse_page cs [],
        rw ran refl,
        collected-IsRanking doubles parse_page cs,
        kept,
        λ j. postings-touch doubles parse_page j key s.table,
      )
