-- ===== src/Searcher/Missing.antt =====
-- `simCalc` of src/WebPageSearcher.cc where a page lacks some of the keys.
use simple_search_enginer.Prelude.{
  ℕ, zero, suc, ◌+◌, ◌<◌, ◌≡◌, refl, sym, ap, ◌∙◌, subst, inl, inr, true, Option, none, List, [],
  ◌∷◌, ◌++◌, Bytes, ℤ, ℤ_discrete, arith, length, length-append, replicate, Option-cases, if_neg,
}
use simple_search_enginer.Searcher.{
  Doubles, PageText, WebPage, Searcher, Table, has_id, ids, postings, touch, weights_of,
  weights_loop, sums, cosine, query_weights, get_web_page_set, cosine_loop, sim_calc,
}
use simple_search_enginer.Searcher.Answer.{PageJson, split_keys, calc_ids, do_query}
use simple_search_enginer.Searcher.Ids.{postings-touch, has_key, multi_query-has_key}

pub length-replicate {ℓ} : {A : Type ℓ} (n : ℕ) (a : A) → length (replicate n a) ≡ n
length-replicate zero a = refl
length-replicate (suc n) a = ap suc (length-replicate n a)

module _ (doubles : Doubles) (parse_page : Bytes → Option PageText) where
  -- How often the page is posted under the keys.
  abbrev pub posted : ℤ → Table doubles parse_page → List Bytes → ℕ
  posted i table [] = 0
  posted i table (k ∷ ks) =
      length (weights_of doubles parse_page i (postings doubles parse_page k table))
      + posted i table ks

  posted-touch :
      (i : ℤ) (k : Bytes) (table : Table doubles parse_page) (ks : List Bytes)
      → posted i (touch doubles parse_page k table) ks ≡ posted i table ks
  posted-touch i k table [] = refl
  posted-touch i k table (j ∷ ks) =
      rw (postings-touch doubles parse_page j k table, posted-touch i k table ks) refl

  posted-same :
      (i : ℤ) (t u : Table doubles parse_page) (ks : List Bytes)
      → ((j : Bytes) → postings doubles parse_page j t ≡ postings doubles parse_page j u)
      → posted i t ks ≡ posted i u ks
  posted-same i t u [] h = refl
  posted-same i t u (j ∷ ks) h = rw (h j, posted-same i t u ks h) refl

  weights_loop-posted :
      (i : ℤ) (table : Table doubles parse_page) (ks : List Bytes) (arr : List doubles.Real)
      → length (weights_loop doubles parse_page i table ks arr).1 ≡ length arr + posted i table ks
  unfolding weights_loop
  weights_loop-posted i table [] arr = omega arith
  weights_loop-posted i table (k ∷ ks) arr =
      let here = weights_of doubles parse_page i (postings doubles parse_page k table) in
      omega (
        arith,
        weights_loop-posted i (touch doubles parse_page k table) ks (arr ++ here),
        length-append arr here,
        posted-touch i k table ks,
      )

  posted-weights_loop :
      (j i : ℤ) (table : Table doubles parse_page) (ks ls : List Bytes) (arr : List doubles.Real)
      → posted j (weights_loop doubles parse_page i table ks arr).0 ls ≡ posted j table ls
  unfolding weights_loop
  posted-weights_loop j i table [] ls arr = refl
  posted-weights_loop j i table (k ∷ ks) ls arr =
      posted-weights_loop j i (touch doubles parse_page k table) ks ls _ ∙ posted-touch j k table ls

  sums-short :
      (ws os : List doubles.Real) (x y z : doubles.Real)
      → length os < length ws
      → sums doubles parse_page ws os x y z ≡ none
  unfolding sums
  sums-short [] os x y z h = absurd (omega arith)
  sums-short (w ∷ ws) [] x y z h = refl
  sums-short (w ∷ ws) (o ∷ os) x y z h = sums-short ws os _ _ _ (omega arith)

  cosine-short :
      (keys : List Bytes) (os : List doubles.Real)
      → length os < length keys
      → cosine doubles parse_page (query_weights doubles parse_page keys) os ≡ none
  unfolding cosine query_weights
  cosine-short keys os h =
      let ws = query_weights doubles parse_page keys in
      let size : length ws ≡ length keys = length-replicate (length keys) _ in
      let zero_r = doubles.of_nat 0 in rw (sums-short ws os zero_r zero_r zero_r (omega arith)) refl

  cosine_loop-short :
      (file : Bytes) (keys : List Bytes) (s : Searcher doubles parse_page) (is : List ℤ)
      (pages : List (WebPage doubles parse_page)) (i : ℤ)
      → has_id i is ≡ true
      → posted i s.table keys < length keys
      → cosine_loop doubles parse_page file keys s is pages ≡ none
  unfolding cosine_loop has_id
  cosine_loop-short file keys s [] pages i h few = cc
  cosine_loop-short file keys s (j ∷ is) pages i h few =
      let found = weights_loop doubles parse_page j s.table keys [] in
      elim (ℤ_discrete j i) [
        | yes e ↦
            let small : length found.1 < length keys =
              omega
                (arith, weights_loop-posted j s.table keys [], ap (λ u. posted u s.table keys) e) in
            rw (cosine-short keys found.1 small) refl
        | no n ↦
            elim (Option-cases
              (cosine doubles parse_page (query_weights doubles parse_page keys) found.1)) [
                | inl stuck ↦ rw stuck refl
                | inr (cos, e) ↦
                    elim (Option-cases
                      (get_web_page_set doubles parse_page file s.offsets j cos pages)) [
                        | inl stuck ↦ rw (e, stuck) refl
                        | inr (set, f) ↦
                            rw (e, f)
                              (cosine_loop-short file keys
                                (record { offsets = set.0; table = found.0 }) is set.1 i
                                (rw (if_neg _ n) at h)
                                (omega (arith, posted-weights_loop i j s.table keys keys [])))
                      ]
              ]
      ]

  -- A query of several keys is undefined behaviour if some page has the first key and another,
  -- and is posted under the keys less often than there are keys: then `obwArr` is too short.
  pub do_query-missing :
      (dump : List PageJson → Bytes) (file : Bytes) (s : Searcher doubles parse_page)
      (query : Bytes) (k l : Bytes) (ks : List Bytes) (i : ℤ)
      → split_keys query ≡ k ∷ l ∷ ks
      → has_id i (ids doubles parse_page (postings doubles parse_page k s.table)) ≡ true
      → has_key doubles parse_page i s.table (l ∷ ks) ≡ true
      → posted i s.table (k ∷ l ∷ ks) < length (k ∷ l ∷ ks)
      → do_query doubles parse_page dump file s query ≡ none
  unfolding do_query calc_ids sim_calc
  do_query-missing dump file s query k l ks i split first other few =
      let (table', found, ran, same, has) =
        multi_query-has_key doubles parse_page s.table k (l ∷ ks) in
      let there : has_id i found ≡ true = has i ∙ ground (arith, first, other) in
      let short =
        cosine_loop-short file (k ∷ l ∷ ks) (record s { table = table' }) found [] i there
          (subst (λ n. n < length (k ∷ l ∷ ks))
            (sym (posted-same i table' s.table (k ∷ l ∷ ks) same)) few) in
      rw (split, ran, short) refl
