-- ===== src/Server/Recommending.antt =====
-- A recommendation from the client of client/clientTest.cc through src/EchoServer.cc and back.
use mathlib.Core.List.{append_assoc}
use simple_search_enginer.Prelude.{
  ℕ, ◌+◌, ◌*◌, ◌≤◌, ◌<◌, ◌≡◌, refl, sym, ap, ◌∙◌, Option, some, List, [], ◌∷◌, ◌++◌, Bytes, ℤ,
  arith, All, length, Without, ◌>>=◌,
}
use simple_search_enginer.Recommender.{Candidates, choice}
use simple_search_enginer.Recommender.Transparency.{IsCoherent, do_query-answer}
use simple_search_enginer.Searcher.{Doubles, PageText}
use simple_search_enginer.Searcher.Answer.{PageJson}
use simple_search_enginer.Protocol.{pack}
use simple_search_enginer.Protocol.Dispatch.{Reply, process, process-pack}
use simple_search_enginer.Sockets.{Arrival}
use simple_search_enginer.Sockets.Readn.{IsOpen, calls}
use simple_search_enginer.Sockets.Lines.{receive-line}
use simple_search_enginer.Sockets.Delivery.{body, length-body, pack-body}
use simple_search_enginer.Server.{Shared, recommend, server_services, on_message}

module _ (d : Candidates) (words : d.State → List (Bytes × ℤ)) (rand : ℕ → ℕ → ℕ)
    (doubles : Doubles) (parse_page : Bytes → Option PageText) (print : List PageJson → Bytes)
    (page_file : Bytes) where
  abbrev System : Type 0
  System = Shared d words rand doubles parse_page print page_file

  -- A request that the client packs is received whole and served.
  served :
      (s : System) (thread : ℕ) (line rest : Bytes) (op : ℕ) (events : List Arrival)
      → Without 10 (body line op)
      → length line ≤ 4088
      → All IsOpen events
      → 2 * (9 + length line) ≤ calls events
      → (left : List Arrival) × (on_message d words rand doubles parse_page print page_file s thread
            ((body line op ++ (10 ∷ [])) ++ rest)
            events
          ≡ (process
                (server_services d words rand doubles parse_page print page_file)
                s
                thread
                (body line op ++ (10 ∷ []))
              >>= λ t. some (
                t.0,
                (t.1, record { got = body line op ++ (10 ∷ []); incoming = rest; events = left }),
              )))
  unfolding on_message
  served s thread line rest op events whole fits opened enough =
      let b = body line op in
      let size = length-body line op in
      let (left, e) =
        receive-line b rest events whole (omega (arith, size)) opened (omega (arith, size)) in
      (left, rw (append_assoc b (10 ∷ []) rest, e) refl)

  -- A word that the client sends for a recommendation, in whatever pieces it arrives, is answered
  -- with the dictionary's answer for it, whether a cache has it or not, and the bytes behind the
  -- request stay; afterwards the dictionary gives the same answers, and the caches still hold
  -- nothing but answers. The packed request must hold no newline, and the word no zero byte and at
  -- most 4088 bytes; the connection stays open, enough calls of `recv` find something, the thread
  -- has a cache, the dictionary an answer, and the caches hold nothing but answers before.
  pub on_message-recommends :
      (s : System) (thread j : ℕ) (line rest : Bytes) (v : List Bytes) (events : List Arrival)
      → Without 0 line
      → Without 10 (body line 1)
      → length line ≤ 4088
      → All IsOpen events
      → 2 * (9 + length line) ≤ calls events
      → All (IsCoherent d s.dic) s.caches
      → choice s.caches thread ≡ some j
      → j < length s.caches
      → d.answer s.dic line ≡ some v
      → (packed : Bytes) × (t : System) × (left : List Arrival) × (pack line 1 [] ≡ some packed)
        × (on_message d words rand doubles parse_page print page_file s thread
              (packed ++ rest)
              events
            ≡ some (
              t,
              (Reply.suggestions line v, record { got = packed; incoming = rest; events = left }),
            ))
        × ((q : Bytes) → d.answer t.dic q ≡ d.answer s.dic q)
        × All (IsCoherent d t.dic) t.caches
        × (length t.caches ≡ length s.caches)
  unfolding recommend
  on_message-recommends s thread j line rest v events clean whole fits opened enough coherent chosen
        inside known =
      let services = server_services d words rand doubles parse_page print page_file in
      let (left, run) = served s thread line rest 1 events whole fits opened enough in
      let (o, asked, res, same, coherent', size) =
        do_query-answer d s.dic s.caches line thread j v coherent chosen inside known in
      let (packed, made, one, _, _, _) =
        process-pack services s thread line 1 clean fits (omega arith) in
      let as_packed : packed ≡ body line 1 ++ (10 ∷ []) = cc (made, pack-body line 1 fits) in
      let t : System = record s { dic = o.dic; caches = o.caches } in
      let done : process services s thread (body line 1 ++ (10 ∷ []))
          ≡ some (t, Reply.suggestions line v) =
        ap (process services s thread) (sym as_packed)
        ∙ one refl
        ∙ rw asked (ap (λ x. some (t, Reply.suggestions line x)) res) in
      (
        body line 1 ++ (10 ∷ []),
        t,
        left,
        pack-body line 1 fits,
        run ∙ rw done refl,
        same,
        coherent',
        size,
      )
