-- ===== src/Pages.antt =====
-- `store` of pageDump/PageProducer.cc: the page library and the file of its offsets.
pub mod Lines
pub mod Lookup
pub mod Building
mod Runs
use simple_search_enginer.Prelude.{
  ℕ, zero, suc, ◌+◌, Bool, true, false, Option, none, some, List, [], ◌∷◌, ◌++◌, Bytes, ℤ, pos,
  length, set, if◌then◌else◌,
}
use simple_search_enginer.Producer.{decimal}

pub record RssItem : Type 0 where
  pub title : Bytes
  pub link : Bytes
  pub description : Bytes

pub record Offset : Type 0 where
  pub idx : ℕ
  pub start_pos : ℕ
  pub end_pos : ℕ

-- `<name>` and `</name>`
unfoldable pub open_tag : Bytes → Bytes
open_tag name = 60 ∷ name ++ (62 ∷ [])

unfoldable pub close_tag : Bytes → Bytes
close_tag name = 60 ∷ 47 ∷ name ++ (62 ∷ [])

-- A line with a tab, an element and the end of the line.
unfoldable pub element : Bytes → Bytes → Bytes
element name text = 9 ∷ open_tag name ++ text ++ close_tag name ++ (10 ∷ [])

abbrev pub doc_name : Bytes
doc_name = 100 ∷ 111 ∷ 99 ∷ []

abbrev pub docid_name : Bytes
docid_name = 100 ∷ 111 ∷ 99 ∷ 105 ∷ 100 ∷ []

abbrev pub title_name : Bytes
title_name = 116 ∷ 105 ∷ 116 ∷ 108 ∷ 101 ∷ []

abbrev pub link_name : Bytes
link_name = 108 ∷ 105 ∷ 110 ∷ 107 ∷ []

abbrev pub description_name : Bytes
description_name = 100 ∷ 101 ∷ 115 ∷ 99 ∷ 114 ∷ 105 ∷ 112 ∷ 116 ∷ 105 ∷ 111 ∷ 110 ∷ []

-- What one round writes for the page with the number `id`.
unfoldable pub page_text : ℕ → RssItem → Bytes
page_text id item =
    open_tag doc_name
    ++ (10 ∷ [])
    ++ element docid_name (decimal (pos id))
    ++ element title_name item.title
    ++ element link_name item.link
    ++ element description_name item.description
    ++ close_tag doc_name
    ++ (10 ∷ [])

-- The loop over `_rss` from item `i` on: the file so far and `_offset`. A new `Offset` holds
-- `blank`.
unfoldable pub store_loop : Offset → ℕ → List RssItem → Bytes → List Offset → Bytes × List Offset
store_loop blank i [] file offsets = (file, offsets)
store_loop blank i (item ∷ items) file offsets =
    let written = file ++ page_text (suc i) item in
    store_loop blank (suc i) items written (
      set (offsets ++ (blank ∷ [])) i
        (record { idx = suc i; start_pos = length file; end_pos = length written }))

unfoldable pub offset_text : Offset → Bytes
offset_text o =
    decimal (pos o.idx)
    ++ (32 ∷ decimal (pos o.start_pos) ++ (32 ∷ decimal (pos o.end_pos) ++ (32 ∷ 10 ∷ [])))

-- The loop over `_offset`.
unfoldable pub store_offsets : List Offset → Bytes
store_offsets [] = []
store_offsets (o ∷ os) = offset_text o ++ store_offsets os

-- The files that were written, and `_offset`.
pub record Stored : Type 0 where
  pub page_file : Option Bytes
  pub offset_file : Option Bytes
  pub offsets : List Offset

-- `store`; the two tests say whether the files can be opened.
unfoldable pub store : Bool → Bool → Offset → List RssItem → List Offset → Stored
store page_opens offset_opens blank rss offsets =
    let (file, kept) = store_loop blank 0 rss [] offsets in
    if page_opens
    then record {
      page_file = some file;
      offset_file = if offset_opens then some (store_offsets kept) else none;
      offsets = kept;
    }
    else record { page_file = none; offset_file = none; offsets = offsets }
