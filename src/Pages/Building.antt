-- ===== src/Pages/Building.antt =====
-- `buildripepage` of pageDump/PageProducer.cc: the items of the RSS files. The XML reader and
-- `regex_replace` are parameters.
use mathlib.Core.List.{append_assoc, append-nil}
use simple_search_enginer.Prelude.{
  ◌≡◌, refl, sym, ap, subst, ◌∙◌, ◌⊎◌, inl, inr, Option, none, some, List, [], ◌∷◌, ◌++◌, Bytes,
  All, ◌>>=◌,
}
use simple_search_enginer.Pages.{RssItem}

-- An element under the channel. The outer `none` is a missing child, the inner one a child without
-- text. The link is one that follows the title, and the description one that follows the link.
pub record RssElement : Type 0 where
  pub title : Option (Option Bytes)
  pub link : Option (Option Bytes)
  pub description : Option (Option Bytes)

-- What `LoadFile` gives: a failure, a document whose root has no child, or the elements from the
-- first `item` on.
pub data RssFile : Type 0 where
  unloaded : RssFile
  rootless : RssFile
  elements : List RssElement → RssFile

module _ (strip : Bytes → Bytes) where
  -- A child that must be there, and its text.
  abbrev pub child_text : Option (Option Bytes) → Option Bytes
  child_text child = child >>= λ text. text >>= λ t. some (strip t)

  -- One round of `while (item)`.
  unfoldable pub element_round : RssElement → List RssItem → Option (List RssItem)
  element_round e rss = elim e.title [
    | Option.none ↦ some rss
    | Option.some text ↦ child_text (some text) >>= λ title. child_text e.link >>= λ link.
        child_text e.description >>= λ description.
        some (rss ++ (record { title = title; link = link; description = description } ∷ []))
  ]

  unfoldable pub element_loop : List RssElement → List RssItem → Option (List RssItem)
  unfolding element_round
  element_loop [] rss = some rss
  element_loop (e ∷ es) rss = do rss' ← element_round e rss; element_loop es rss'

  -- The loop over `_files`, which returns at a file that cannot be loaded.
  unfoldable pub build_ripepage : List RssFile → List RssItem → Option (List RssItem)
  unfolding element_loop
  build_ripepage [] rss = some rss
  build_ripepage (unloaded ∷ files) rss = some rss
  build_ripepage (rootless ∷ files) rss = none
  build_ripepage (elements es ∷ files) rss = do
    rss' ← element_loop es rss
    build_ripepage files rss'

  -- The item of an element that has a title and both texts.
  abbrev pub IsItem : RssElement → Type 0
  IsItem e =
      (e.title ≡ none)
      ⊎ ((t l d : Bytes) × (e.title ≡ some (some t))
          × (e.link ≡ some (some l))
          × (e.description ≡ some (some d)))

  abbrev pub element_items : (es : List RssElement) → All IsItem es → List RssItem
  element_items [] h = []
  element_items (e ∷ es) (inl none_there, h) = element_items es h
  element_items (e ∷ es) (inr (t, l, d, _, _, _), h) =
      record { title = strip t; link = strip l; description = strip d } ∷ element_items es h

  element_loop-items :
      (es : List RssElement) (rss : List RssItem) (h : All IsItem es)
      → element_loop es rss ≡ some (rss ++ element_items es h)
  unfolding element_loop
  element_loop-items [] rss h = ap some (sym (append-nil rss))
  element_loop-items (e ∷ es) rss (inl absent, h) = rw absent (element_loop-items es rss h)
  element_loop-items (e ∷ es) rss (inr (t, l, d, title, link, description), h) =
      let item : RssItem = record { title = strip t; link = strip l; description = strip d } in
      rw (title, link, description) (element_loop-items es (rss ++ (item ∷ [])) h)
      ∙ ap some (append_assoc rss (item ∷ []) (element_items es h))

  abbrev pub IsReadFile : RssFile → Type 0
  IsReadFile unloaded = ⊥
  IsReadFile rootless = ⊥
  IsReadFile (elements es) = All IsItem es

  abbrev pub file_items : (files : List RssFile) → All IsReadFile files → List RssItem
  file_items [] h = []
  file_items (elements es ∷ files) h = element_items es h.0 ++ file_items files h.1
  file_items (unloaded ∷ files) h = []
  file_items (rootless ∷ files) h = []

  build_ripepage_before :
      (files after : List RssFile) (rss : List RssItem) (h : All IsReadFile files)
      → build_ripepage after (rss ++ file_items files h) ≡ some (rss ++ file_items files h)
      → build_ripepage (files ++ after) rss ≡ some (rss ++ file_items files h)
  unfolding build_ripepage
  build_ripepage_before [] after rss h e = ap (build_ripepage after) (sym (append-nil rss)) ∙ e
  build_ripepage_before (unloaded ∷ files) after rss h e = elim h.0 [ ]
  build_ripepage_before (rootless ∷ files) after rss h e = elim h.0 [ ]
  build_ripepage_before (elements es ∷ files) after rss h e =
      let items = element_items es h.0 in
      let whole = append_assoc rss items (file_items files h.1) in
      rw (element_loop-items es rss h.0) (
        build_ripepage_before files after (rss ++ items) h.1
          (subst (λ u. build_ripepage after u ≡ some u) (sym whole) e))
      ∙ ap some whole

  -- Where in each file the elements that have a title have a link and a description after it,
  -- `buildripepage` gathers the items of all files in order; and at a file that cannot be loaded
  -- it stops with the items of the files before.
  pub build_ripepage-items :
      (files after : List RssFile) (h : All IsReadFile files)
      → (build_ripepage files [] ≡ some (file_items files h))
        × (build_ripepage (files ++ (unloaded ∷ after)) [] ≡ some (file_items files h))
  unfolding build_ripepage
  build_ripepage-items files after h = (
    ap (λ fs. build_ripepage fs []) (sym (append-nil files))
        ∙ build_ripepage_before files [] [] h refl,
    build_ripepage_before files (unloaded ∷ after) [] h refl,
  )
