-- ===== src/Searcher/Ranking/ManyKeys.antt =====
-- `simCalc` of src/WebPageSearcher.cc for several keys.
use simple_search_enginer.Prelude.{
  ◌≡◌, refl, sym, ap, ◌∙◌, Option, some, List, [], ◌∷◌, ◌++◌, Bytes, ℤ, ℤ_discrete, pos, at_key,
  touch_key, at_key-touch_key, set_insert, arith, length, suc, if_pos, false,
}
use mathlib.Core.List.{append-nil, append_assoc}
use simple_search_enginer.Searcher.{
  Doubles, PageText, Posting, Searcher, Offsets, Table, has_id, ids, page_less, weights_of,
  weights_loop, sums, cosine, query_weights, cosine_loop, sim_calc, postings, touch,
}
use simple_search_enginer.Searcher.Ids.{postings-touch}
use simple_search_enginer.Searcher.Missing.{length-replicate}
use simple_search_enginer.Searcher.Ranking.{
  Page, IsStored, IsRanking, HasWeight, Weights, dot_onto, angle, query_vector,
}
use simple_search_enginer.Searcher.Ranking.Collecting.{
  collected, collected-IsRanking, get_web_page_set-IsStored, same_offsets-IsStored,
}

module _ (doubles : Doubles) (parse_page : Bytes → Option PageText) where
  weights_of-absent :
      (id : ℤ) (ps : List (Posting doubles parse_page))
      → has_id id (ids doubles parse_page ps) ≡ false
      → weights_of doubles parse_page id ps ≡ []
  unfolding weights_of has_id ids
  weights_of-absent id [] h = refl
  weights_of-absent id (p ∷ ps) h = ground (arith, weights_of-absent id ps)

  weights_of-append :
      (id : ℤ) (ps qs : List (Posting doubles parse_page))
      → weights_of doubles parse_page id (ps ++ qs)
        ≡ weights_of doubles parse_page id ps ++ weights_of doubles parse_page id qs
  unfolding weights_of
  weights_of-append id [] qs = refl
  weights_of-append id (p ∷ ps) qs = ground (arith, weights_of-append id ps qs)

  weights_of-HasWeight :
      (id : ℤ) (ps : List (Posting doubles parse_page)) (w : doubles.Real)
      → HasWeight doubles parse_page id ps w
      → weights_of doubles parse_page id ps ≡ w ∷ []
  weights_of-HasWeight id ps w h =
      let one : weights_of doubles parse_page id (h.posting ∷ h.after) ≡ w ∷ [] =
        unfold weights_of in
        rw (if_pos _ h.same_id, weights_of-absent id h.after h.none_after, h.same_w) refl in
      rw
        (
          h.parts,
          weights_of-append id h.before (h.posting ∷ h.after),
          weights_of-absent id h.before h.none_before,
          one,
        )
        refl

  length-Weights :
      (id : ℤ) (table : Table doubles parse_page) (keys : List Bytes) (ws : List doubles.Real)
      → Weights doubles parse_page id table keys ws
      → length keys ≡ length ws
  length-Weights id table [] [] h = refl
  length-Weights id table [] (w ∷ ws) h = absurd h
  length-Weights id table (k ∷ ks) [] h = absurd h
  length-Weights id table (k ∷ ks) (w ∷ ws) h = ap suc (length-Weights id table ks ws h.1)

  weights_loop-Weights :
      (id : ℤ) (first table : Table doubles parse_page) (keys : List Bytes)
      (arr ws : List doubles.Real)
      → ((j : Bytes) → postings doubles parse_page j table ≡ postings doubles parse_page j first)
      → Weights doubles parse_page id first keys ws
      → (weights_loop doubles parse_page id table keys arr).1 ≡ arr ++ ws
  unfolding weights_loop
  weights_loop-Weights id first table [] arr [] same h = sym (append-nil arr)
  weights_loop-Weights id first table [] arr (w ∷ ws) same h = absurd h
  weights_loop-Weights id first table (k ∷ ks) arr [] same h = absurd h
  weights_loop-Weights id first table (k ∷ ks) arr (w ∷ ws) same h =
      let here : weights_of doubles parse_page id (postings doubles parse_page k table) ≡ w ∷ [] =
        ap (weights_of doubles parse_page id) (same k)
        ∙ weights_of-HasWeight id (postings doubles parse_page k first) w h.0 in
      weights_loop-Weights id first (touch doubles parse_page k table) ks _ ws
        (λ j. postings-touch doubles parse_page j k table ∙ same j) h.1
      ∙ rw (here, append_assoc arr (w ∷ []) ws) refl

  postings-weights_loop :
      (j : Bytes) (id : ℤ) (table : Table doubles parse_page) (keys : List Bytes)
      (arr : List doubles.Real)
      → postings doubles parse_page j (weights_loop doubles parse_page id table keys arr).0
        ≡ postings doubles parse_page j table
  unfolding weights_loop
  postings-weights_loop j id table [] arr = refl
  postings-weights_loop j id table (k ∷ ks) arr =
      postings-weights_loop j id (touch doubles parse_page k table) ks _
      ∙ postings-touch doubles parse_page j k table

  sums-dot_onto :
      (ws os : List doubles.Real) (xy mod_x mod_y : doubles.Real)
      → length ws ≡ length os
      → sums doubles parse_page ws os xy mod_x mod_y
        ≡ some (
          dot_onto doubles parse_page xy ws os,
          (dot_onto doubles parse_page mod_x ws ws, dot_onto doubles parse_page mod_y os os),
        )
  unfolding sums
  sums-dot_onto [] [] xy mod_x mod_y h = refl
  sums-dot_onto [] (o ∷ os) xy mod_x mod_y h = absurd (omega (arith, h))
  sums-dot_onto (w ∷ ws) [] xy mod_x mod_y h = absurd (omega (arith, h))
  sums-dot_onto (w ∷ ws) (o ∷ os) xy mod_x mod_y h = sums-dot_onto ws os _ _ _ (omega (arith, h))

  cosine-angle :
      (keys : List Bytes) (ws : List doubles.Real)
      → length keys ≡ length ws
      → cosine doubles parse_page (query_weights doubles parse_page keys) ws
        ≡ some (angle doubles parse_page (query_vector doubles parse_page keys) ws)
  unfolding cosine query_weights
  cosine-angle keys ws h =
      let size : length (query_vector doubles parse_page keys) ≡ length ws =
        length-replicate (length keys) _ ∙ h in
      let zero_r = doubles.of_nat 0 in
      rw (sums-dot_onto (query_vector doubles parse_page keys) ws zero_r zero_r zero_r size) refl

  -- The pages of the ids, in their order: the stored pages, with the angle between the query's
  -- vector and the weights that the page has under the keys.
  abbrev pub Found :
      Bytes
      → Offsets
      → Table doubles parse_page
      → List Bytes
      → List ℤ
      → List (Page doubles parse_page)
      → Type 0
  Found file offsets table keys [] [] = Unit {0}
  Found file offsets table keys [] (c ∷ cs) = ⊥
  Found file offsets table keys (id ∷ is) [] = ⊥
  Found file offsets table keys (id ∷ is) (c ∷ cs) =
      IsStored doubles parse_page file offsets id c
      × (ws : List doubles.Real) × Weights doubles parse_page id table keys ws
      × (c.cos ≡ angle doubles parse_page (query_vector doubles parse_page keys) ws)
      × Found file offsets table keys is cs

  cosine_loop-Found :
      (file : Bytes) (first s : Searcher doubles parse_page) (keys : List Bytes) (is : List ℤ)
      (cs pages : List (Page doubles parse_page))
      → ((i : ℤ)
          → at_key ℤ_discrete (pos 0, pos 0) i s.offsets
            ≡ at_key ℤ_discrete (pos 0, pos 0) i first.offsets)
      → ((j : Bytes)
          → postings doubles parse_page j s.table ≡ postings doubles parse_page j first.table)
      → Found file first.offsets first.table keys is cs
      → (s' : Searcher doubles parse_page) × (cosine_loop doubles parse_page file keys s is pages
          ≡ some (s', collected doubles parse_page cs pages))
        × ((i : ℤ)
            → at_key ℤ_discrete (pos 0, pos 0) i s'.offsets
              ≡ at_key ℤ_discrete (pos 0, pos 0) i first.offsets)
        × ((j : Bytes)
            → postings doubles parse_page j s'.table ≡ postings doubles parse_page j first.table)
  unfolding cosine_loop
  cosine_loop-Found file first s keys [] [] pages same kept h = (s, refl, same, kept)
  cosine_loop-Found file first s keys [] (c ∷ cs) pages same kept h = absurd h
  cosine_loop-Found file first s keys (id ∷ is) [] pages same kept h = absurd h
  cosine_loop-Found file first s keys (id ∷ is) (c ∷ cs) pages same kept
        (stored, ws, weigh, cos, h) =
      let found = weights_loop doubles parse_page id s.table keys [] in
      let arr : found.1 ≡ ws = weights_loop-Weights id first.table s.table keys [] ws kept weigh in
      let size = length-Weights id first.table keys ws weigh in
      let out =
        cosine_loop-Found file first
          (record { offsets = touch_key ℤ_discrete (pos 0, pos 0) id s.offsets; table = found.0 })
          keys is cs (set_insert (page_less doubles parse_page) c pages)
          (λ i. at_key-touch_key ℤ_discrete (pos 0, pos 0) i id s.offsets ∙ same i)
          (λ j. postings-weights_loop j id s.table keys [] ∙ kept j) h in
      let here = get_web_page_set-IsStored doubles parse_page file s.offsets id c pages (
        same_offsets-IsStored doubles parse_page file first.offsets s.offsets id c (same id)
          stored) in
      (out.0, rw (arr, cosine-angle keys ws size, sym cos, here) out.1, out.2, out.3)

  -- For two keys and more: if the page file holds a readable page for each id, and each key has
  -- one posting of that page, then `simCalc` comes to its end without undefined behaviour. The
  -- pages it collects are stored pages, each with the cosine of the angle between the query's
  -- vector and the page's weights, in strictly falling order of that cosine; and each id is
  -- represented: its page's cosine is tied with that of a page collected. No offset and no posting
  -- changes.
  pub sim_calc-many_keys :
      (file : Bytes) (s : Searcher doubles parse_page) (k l : Bytes) (keys : List Bytes)
      (is : List ℤ) (cs : List (Page doubles parse_page))
      → Found file s.offsets s.table (k ∷ l ∷ keys) is cs
      → (s' : Searcher doubles parse_page) × (pages : List (Page doubles parse_page)) × (sim_calc
            doubles parse_page file s
            (k ∷ l ∷ keys)
            is
          ≡ some (s', pages))
        × IsRanking doubles parse_page cs pages
        × ((i : ℤ)
            → at_key ℤ_discrete (pos 0, pos 0) i s'.offsets
              ≡ at_key ℤ_discrete (pos 0, pos 0) i s.offsets)
        × ((j : Bytes)
            → postings doubles parse_page j s'.table ≡ postings doubles parse_page j s.table)
  unfolding sim_calc
  sim_calc-many_keys file s k l keys is cs h =
      let out = cosine_loop-Found file s s (k ∷ l ∷ keys) is cs [] (λ i. refl) (λ j. refl) h in
      (
        out.0,
        collected doubles parse_page cs [],
        out.1,
        collected-IsRanking doubles parse_page cs,
        out.2,
        out.3,
      )
