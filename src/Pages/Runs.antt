-- ===== src/Pages/Runs.antt =====
-- Tests of the model of pageDump/PageProducer.cc, and its theorem at a library of two pages.
use simple_search_enginer.Prelude.{
  ℕ, ◌+◌, ◌*◌, ◌/◌, ◌≡◌, refl, true, false, Option, none, some, List, [], ◌∷◌, Bytes, ltb, arith,
  pos, ℤ_discrete, unsigned, lookup,
}
use simple_search_enginer.Producer.{decimal, decimal_before}
use simple_search_enginer.Producer.Decimal.{unsigned-decimal}
use simple_search_enginer.Searcher.{Doubles, PageText, Offsets, read_between}
use simple_search_enginer.Searcher.Files.{init_offset}
use simple_search_enginer.Pages.{RssItem, Offset, open_tag, close_tag, element, page_text, store}
use simple_search_enginer.Pages.Lines.{StodReads}
use simple_search_enginer.Pages.Lookup

ltb_self : (a : ℕ) → ltb a a ≡ false
ltb_self a = ground arith

ltb_trans : (a b c : ℕ) → ltb a b ≡ true → ltb b c ≡ true → ltb a c ≡ true
ltb_trans a b c h k = ground arith

-- Whole numbers in place of `double`.
abbrev whole : Doubles
whole = record {
  Real = ℕ;
  of_nat = λ n. n;
  add = λ a b. a + b;
  mul = λ a b. a * b;
  div = λ a b. a / b;
  sqrt = λ a. a;
  log2 = λ a. a;
  lt = ltb;
  stod = unsigned;
  to_size = some;
  lt_self = ltb_self;
  lt_trans = ltb_trans;
}

-- A parser that finds no page.
abbrev no_page : Bytes → Option PageText
no_page buf = none

whole-StodReads : StodReads whole no_page
unfolding decimal
whole-StodReads n h = (n, unsigned-decimal n, refl)

-- Two pages with one letter in each field.
abbrev two_pages : List RssItem
two_pages =
    record { title = 97 ∷ []; link = 98 ∷ []; description = 99 ∷ [] }
    ∷ record { title = 100 ∷ []; link = 101 ∷ []; description = 102 ∷ [] }
    ∷ []

abbrev second : RssItem
second = record { title = 100 ∷ []; link = 101 ∷ []; description = 102 ∷ [] }

abbrev no_offset : Offset
no_offset = record { idx = 0; start_pos = 0; end_pos = 0 }

init_offset-store_example :
    (file : Bytes) × (index : Bytes) × (offsets : Offsets) × (b : ℕ) × (e : ℕ) × ((store true true
        no_offset two_pages []).page_file
      ≡ some file)
    × ((store true true no_offset two_pages []).offset_file ≡ some index)
    × (init_offset whole no_page index ≡ some offsets)
    × (lookup ℤ_discrete (pos 2) offsets ≡ some (pos b, pos e))
    × (read_between (pos b) (pos e) file ≡ some (page_text 2 second))
unfolding page_text element open_tag close_tag decimal decimal_before
init_offset-store_example =
    Lookup.init_offset-store whole no_page whole-StodReads no_offset two_pages 1 second refl
      (omega arith) (omega arith) (omega arith) (omega arith)

store-unopened :
    (o : Offset) (rss : List RssItem)
    → store false true o rss [] ≡ record { page_file = none; offset_file = none; offsets = [] }
unfolding store
store-unopened o rss = refl
