-- ===== src/Searcher/Ranking/Collecting.antt =====
-- The pages that go into the set of `simCalc` of src/WebPageSearcher.cc one after the other.
use simple_search_enginer.Prelude.{
  ◌≡◌, refl, true, Option, some, List, [], ◌∷◌, Bytes, ℤ, ℤ_discrete, pos, All, All-map, Any,
  All-Any_self, at_key, touch_key, set_insert, set_insert-All, set_insert-Any, set_insert-Any_self,
  Bool-cases, inl, inr,
}
use simple_search_enginer.Searcher.{Doubles, PageText, Offsets, page_less, get_web_page_set}
use simple_search_enginer.Searcher.Ranking.{Page, IsStored, Falling, Tied, IsRanking}

module _ (doubles : Doubles) (parse_page : Bytes → Option PageText) where
  abbrev pub collected :
      List (Page doubles parse_page)
      → List (Page doubles parse_page)
      → List (Page doubles parse_page)
  collected [] pages = pages
  collected (c ∷ cs) pages = collected cs (set_insert (page_less doubles parse_page) c pages)

  set_insert-Falling :
      (c : Page doubles parse_page) (pages : List (Page doubles parse_page))
      → Falling doubles parse_page pages
      → Falling doubles parse_page (set_insert (page_less doubles parse_page) c pages)
  unfolding set_insert page_less
  set_insert-Falling c [] h = (tt, tt)
  set_insert-Falling c (q ∷ qs) h = elim (Bool-cases (doubles.lt q.cos c.cos)) [
    | inl e ↦ rw e (
      (
        e,
        All-map (λ (r : Page doubles parse_page). doubles.lt r.cos q.cos ≡ true)
            (λ (r : Page doubles parse_page). doubles.lt r.cos c.cos ≡ true) qs
            (λ r k. doubles.lt_trans r.cos q.cos c.cos k e) h.0,
      ),
      h,
    )
    | inr e ↦ elim (Bool-cases (doubles.lt c.cos q.cos)) [
      | inl f ↦
          rw (e, f)
            (
              set_insert-All (page_less doubles parse_page)
                  (λ (r : Page doubles parse_page). doubles.lt r.cos q.cos ≡ true) c qs f h.0,
              set_insert-Falling c qs h.1,
            )
      | inr f ↦ rw (e, f) h
    ]
  ]

  collected-Falling :
      (cs pages : List (Page doubles parse_page))
      → Falling doubles parse_page pages
      → Falling doubles parse_page (collected cs pages)
  collected-Falling [] pages h = h
  collected-Falling (c ∷ cs) pages h = collected-Falling cs _ (set_insert-Falling c pages h)

  collected-All :
      (P : Page doubles parse_page → Type 0) (cs pages : List (Page doubles parse_page))
      → All P cs
      → All P pages
      → All P (collected cs pages)
  collected-All P [] pages k h = h
  collected-All P (c ∷ cs) pages k h =
      collected-All P cs _ k.1 (set_insert-All (page_less doubles parse_page) P c pages k.0 h)

  collected-Any :
      (P : Page doubles parse_page → Type 0) (cs pages : List (Page doubles parse_page))
      → Any P pages
      → Any P (collected cs pages)
  collected-Any P [] pages h = h
  collected-Any P (c ∷ cs) pages h =
      collected-Any P cs _ (set_insert-Any (page_less doubles parse_page) P c pages h)

  collected_complete :
      (cs pages : List (Page doubles parse_page))
      → All
          (λ (c : Page doubles parse_page). Any (Tied doubles parse_page c) (collected cs pages))
          cs
  unfolding page_less
  collected_complete [] pages = tt
  collected_complete (c ∷ cs) pages = (
    collected-Any (Tied doubles parse_page c) cs _ (
        set_insert-Any_self (page_less doubles parse_page) (Tied doubles parse_page c) c pages
          (doubles.lt_self c.cos, doubles.lt_self c.cos) (λ q e f. (f, e))),
    collected_complete cs _,
  )

  pub collected-IsRanking :
      (cs : List (Page doubles parse_page)) → IsRanking doubles parse_page cs (collected cs [])
  collected-IsRanking cs = record {
    falling = collected-Falling cs [] tt;
    origin = collected-All _ cs [] (All-Any_self cs) tt;
    complete = collected_complete cs [];
  }

  -- Offsets that read the same hold the same page.
  pub same_offsets-IsStored :
      (file : Bytes) (first offsets : Offsets) (id : ℤ) (q : Page doubles parse_page)
      → at_key ℤ_discrete (pos 0, pos 0) id offsets ≡ at_key ℤ_discrete (pos 0, pos 0) id first
      → IsStored doubles parse_page file first id q
      → IsStored doubles parse_page file offsets id q
  same_offsets-IsStored file first offsets id q same h = record {
    buf = h.buf;
    text = h.text;
    cut = rw same h.cut;
    parsed = h.parsed;
    numbered = h.numbered;
    titled = h.titled;
    linked = h.linked;
    described = h.described;
  }

  -- `getWebPageSet` inserts the stored page with the cosine.
  pub get_web_page_set-IsStored :
      (file : Bytes) (offsets : Offsets) (id : ℤ) (q : Page doubles parse_page)
      (pages : List (Page doubles parse_page))
      → IsStored doubles parse_page file offsets id q
      → get_web_page_set doubles parse_page file offsets id q.cos pages
        ≡ some (
          touch_key ℤ_discrete (pos 0, pos 0) id offsets,
          set_insert (page_less doubles parse_page) q pages,
        )
  unfolding get_web_page_set
  get_web_page_set-IsStored file offsets id q pages h =
      rw (h.cut, h.parsed, h.numbered, h.titled, h.linked, h.described) refl
