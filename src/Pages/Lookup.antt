-- ===== src/Pages/Lookup.antt =====
-- The pages that `store` of pageDump/PageProducer.cc wrote, found by src/WebPageSearcher.cc.
use mathlib.Core.List.{append_assoc, append-nil}
use simple_search_enginer.Prelude.{
  ℕ, zero, suc, ◌+◌, ◌-◌, ◌≤◌, ◌<◌, ◌≡◌, refl, sym, ap, ◌∙◌, subst, true, Option, some, List, [],
  ◌∷◌, ◌++◌, Bytes, arith, All, pos, ℤ_discrete, Without, length, length-append, assign, lookup,
  lookup-assign_ne, lookup-assign_self, set, get_elem?, take-length-append, drop-length-append,
}
use simple_search_enginer.Protocol.Packing.{c_str-Without}
use simple_search_enginer.Searcher.{Doubles, PageText, Offsets, read_between}
use simple_search_enginer.Searcher.Files.{init_offset}
use simple_search_enginer.Pages.{RssItem, Offset, page_text, store_loop, store_offsets, store}
use simple_search_enginer.Pages.Lines.{IsSmall, StodReads, offset_map, offset_lines-store}

-- The pages one after another, the first with the number `suc i`.
abbrev pub texts : ℕ → List RssItem → Bytes
texts i [] = []
texts i (item ∷ items) = page_text (suc i) item ++ texts (suc i) items

-- Their positions, from `b` on.
abbrev layout : ℕ → ℕ → List RssItem → List Offset
layout i b [] = []
layout i b (item ∷ items) =
    let e = b + length (page_text (suc i) item) in
    record { idx = suc i; start_pos = b; end_pos = e } ∷ layout (suc i) e items

set-last : (os : List Offset) (b v : Offset) → set (os ++ (b ∷ [])) (length os) v ≡ os ++ (v ∷ [])
set-last [] b v = refl
set-last (o ∷ os) b v = ap (◌∷◌ o) (set-last os b v)

store_loop-layout :
    (blank : Offset) (i : ℕ) (items : List RssItem) (file : Bytes) (os : List Offset)
    → i ≡ length os
    → store_loop blank i items file os ≡ (file ++ texts i items, os ++ layout i (length file) items)
unfolding store_loop
store_loop-layout blank i [] file os e = λ j. (sym (append-nil file) j, sym (append-nil os) j)
store_loop-layout blank i (item ∷ items) file os e =
    let text = page_text (suc i) item in
    let v : Offset = record {
      idx = suc i;
      start_pos = length file;
      end_pos = length (file ++ text);
    } in
    let placed : set (os ++ (blank ∷ [])) i v ≡ os ++ (v ∷ []) =
      ap (λ k. set (os ++ (blank ∷ [])) k v) e ∙ set-last os blank v in
    let kept : (os ++ (v ∷ [])) ++ layout (suc i) (length (file ++ text)) items
        ≡ os ++ layout i (length file) (item ∷ items) =
      append_assoc os (v ∷ []) (layout (suc i) (length (file ++ text)) items)
      ∙ ap
          (λ n.
            os
            ++ (record { idx = suc i; start_pos = length file; end_pos = n }
                ∷ layout (suc i) n items))
          (length-append file text) in
    ap (λ x. store_loop blank (suc i) items (file ++ text) x) placed
    ∙ store_loop-layout blank (suc i) items (file ++ text) (os ++ (v ∷ []))
        (omega (arith, length-append os (v ∷ [])))
    ∙ (λ j. (append_assoc file text (texts (suc i) items) j, kept j))

layout-IsSmall :
    (i b : ℕ) (items : List RssItem)
    → i + length items < 2147483648
    → b + length (texts i items) < 2147483648
    → All IsSmall (layout i b items)
layout-IsSmall i b [] few small = tt
layout-IsSmall i b (item ∷ items) few small =
    let size = length-append (page_text (suc i) item) (texts (suc i) items) in
    (
      record {
        idx_fits = omega arith;
        start_fits = omega (arith, size);
        end_fits = omega (arith, size);
      },
      layout-IsSmall (suc i) (b + length (page_text (suc i) item)) items (omega arith)
          (omega (arith, size)),
    )

pos_inj : (a b : ℕ) → pos a ≡ pos b → a ≡ b
pos_inj a b e = cc

-- A page that stands before the others keeps its entry.
lookup-layout :
    (i b j : ℕ) (items : List RssItem) (m : Offsets)
    → j ≤ i
    → lookup ℤ_discrete (pos j) (offset_map (layout i b items) m) ≡ lookup ℤ_discrete (pos j) m
lookup-layout i b j [] m le = refl
lookup-layout i b j (item ∷ items) m le =
    let e = b + length (page_text (suc i) item) in
    lookup-layout (suc i) e j items (assign ℤ_discrete (pos (suc i)) (pos b, pos e) m) (omega arith)
    ∙ lookup-assign_ne ℤ_discrete (pos (suc i)) (pos j) (pos b, pos e) m
        (λ q. absurd (omega (arith, pos_inj j (suc i) q)))

-- Where the page behind `k` others stands.
record Found (i : ℕ) (before : Bytes) (items : List RssItem) (m : Offsets) (id : ℕ) (text : Bytes)
    : Type 0 where
  front : Bytes
  after : Bytes
  cut : before ++ texts i items ≡ front ++ (text ++ after)
  entry :
      lookup ℤ_discrete (pos id) (offset_map (layout i (length before) items) m)
      ≡ some (pos (length front), pos (length front + length text))

layout-Found :
    (i : ℕ) (before : Bytes) (items : List RssItem) (m : Offsets) (k id : ℕ) (item : RssItem)
    → get_elem? items k ≡ some item
    → id ≡ suc (i + k)
    → Found i before items m id (page_text id item)
layout-Found i before [] m k id item h e = cc
layout-Found i before (head ∷ items) m zero id item h e =
    let text = page_text (suc i) head in
    let last = length before + length text in
    let here : Found i before (head ∷ items) m (suc i) text = record {
      front = before;
      after = texts (suc i) items;
      cut = refl;
      entry =
          lookup-layout (suc i) last (suc i) items
            (assign ℤ_discrete (pos (suc i)) (pos (length before), pos last) m) (omega arith)
          ∙ lookup-assign_self ℤ_discrete (pos (suc i)) (pos (length before), pos last) m;
    } in
    let same : head ≡ item = cc in
    let id_eq : suc i ≡ id = omega arith in
    subst (λ n. Found i before (head ∷ items) m n (page_text n item)) id_eq
      (subst (λ t. Found i before (head ∷ items) m (suc i) (page_text (suc i) t)) same here)
layout-Found i before (head ∷ items) m (suc k) id item h e =
    let text = page_text (suc i) head in
    let m' =
      assign ℤ_discrete (pos (suc i)) (pos (length before), pos (length before + length text)) m in
    let rest = layout-Found (suc i) (before ++ text) items m' k id item h (omega arith) in
    record {
      front = rest.front;
      after = rest.after;
      cut = sym (append_assoc before text (texts (suc i) items)) ∙ rest.cut;
      entry =
          ap (λ n. lookup ℤ_discrete (pos id) (offset_map (layout (suc i) n items) m'))
            (sym (length-append before text))
          ∙ rest.entry;
    }

-- A cut of a file that is a text of its own.
read_between-text :
    (front text after : Bytes)
    → Without 0 text
    → length text < 65536
    → read_between
        (pos (length front))
        (pos (length front + length text))
        (front ++ (text ++ after))
      ≡ some text
unfolding read_between
read_between-text front text after clean fits =
    let size : length front + length text - length front ≡ length text = omega arith in
    rw (drop-length-append front (text ++ after), size, take-length-append text after)
      (ground (arith, c_str-Without text clean))

module _ (doubles : Doubles) (parse_page : Bytes → Option PageText) where
  -- `initOffset` finds each page that `store` wrote, and its positions cut exactly the text of that
  -- page out of the page file: if both files open, `_offset` was empty, all positions and numbers
  -- fit an `int`, the page holds no zero byte and fits the buffer of the reader, and `std::stod`
  -- reads back such numbers.
  pub init_offset-store :
      StodReads doubles parse_page
      → (blank : Offset) (rss : List RssItem) (k : ℕ) (item : RssItem) → get_elem? rss k ≡ some item
      → length rss < 2147483648
      → length (texts 0 rss) < 2147483648
      → Without 0 (page_text (suc k) item)
      → length (page_text (suc k) item) < 65536
      → (file : Bytes) × (index : Bytes) × (offsets : Offsets) × (b : ℕ) × (e : ℕ) × ((store true
            true blank rss []).page_file
          ≡ some file)
        × ((store true true blank rss []).offset_file ≡ some index)
        × (init_offset doubles parse_page index ≡ some offsets)
        × (lookup ℤ_discrete (pos (suc k)) offsets ≡ some (pos b, pos e))
        × (read_between (pos b) (pos e) file ≡ some (page_text (suc k) item))
  unfolding store init_offset
  init_offset-store reads blank rss k item there few small clean fits =
      let made = store_loop-layout blank 0 rss [] [] refl in
      let found = layout-Found 0 [] rss [] k (suc k) item there (omega arith) in
      let text = page_text (suc k) item in
      (
        texts 0 rss,
        store_offsets (layout 0 0 rss),
        offset_map (layout 0 0 rss) [],
        length found.front,
        length found.front + length text,
        ap (λ x. some x.0) made,
        ap (λ x. some (store_offsets x.1)) made,
        offset_lines-store doubles parse_page reads (layout 0 0 rss)
            (layout-IsSmall 0 0 rss (omega arith) (omega arith)) [],
        found.entry,
        ap (read_between (pos (length found.front)) (pos (length found.front + length text)))
              found.cut
            ∙ read_between-text found.front text found.after clean fits,
      )
