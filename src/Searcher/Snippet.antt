-- ===== src/Searcher/Snippet.antt =====
-- The part of a description that `WebPageSearcher::outRes` of src/WebPageSearcher.cc shows.
pub mod Cuts
pub mod Bounds
use simple_search_enginer.Prelude.{
  ℕ, zero, suc, ◌+◌, ◌-◌, ◌%◌, ◌^◌, ◌≡◌, Bool, true, false, not, ◌&&◌, Option, none, some, List, [],
  ◌∷◌, Bytes, ltb, ◌==◌, if◌then◌else◌, ◌>>=◌, length, get_elem?,
}
use simple_search_enginer.Utf8.{n_bytes_code}

-- `idx - 30` and `idx + 30` on `size_t`. The test `(idx - 30) < 0` is never true.
unfoldable pub below_30 : ℕ → ℕ
below_30 idx = (idx + 18446744073709551616 - 30) % 18446744073709551616

unfoldable pub above_30 : ℕ → ℕ
above_30 idx = (idx + 30) % 18446744073709551616

-- `ch_begin_flag`, `idx_byte_begin` and `idx_byte_end`.
pub record Span : Type 0 where
  pub ch_begin_flag : Bool
  pub idx_byte_begin : ℕ
  pub idx_byte_end : ℕ

unfoldable pub mark_begin : ℕ → ℕ → Span → Span
unfolding below_30
mark_begin idx k span =
    if not span.ch_begin_flag && ltb (below_30 idx) k
    then record span { ch_begin_flag = true; idx_byte_begin = k }
    else span

-- The loop over `k`, with the bytes to skip up to the next `k` and the rest of the description.
-- The loop is left once `idx_byte_end` is set.
unfoldable pub span_loop : ℕ → ℕ → ℕ → Bytes → Span → Span
span_loop idx skip k [] span = span
span_loop idx (suc skip) k (c ∷ s) span = span_loop idx skip k s span
span_loop idx zero k (c ∷ s) span =
    let k' = k + n_bytes_code c in
    let span' = mark_begin idx k' span in
    let rest = span_loop idx (n_bytes_code c - 1) k' s span' in
    if ltb (above_30 idx) k' then record span' { idx_byte_end = k' } else rest

abbrev pub no_span : Span
no_span = record { ch_begin_flag = false; idx_byte_begin = 0; idx_byte_end = 0 }

-- `description[k]`; the zero after the end may be read.
unfoldable pub char_at : Bytes → ℕ → Option ℕ
char_at s k = if k == length s then some 0 else get_elem? s k

-- `for(int k = idx_byte_begin; k < idx_byte_end; ++k)`, with the rounds left; `k` is taken to fit
-- its `int`.
unfoldable pub copy_from : ℕ → ℕ → Bytes → Option Bytes
copy_from zero k s = some []
copy_from (suc n) k s = do c ← char_at s k; rest ← copy_from n (k + 1) s; some (c ∷ rest)

unfoldable pub snippet : ℕ → Bytes → Option Bytes
unfolding span_loop mark_begin above_30
snippet idx description =
    let span = span_loop idx 0 0 description no_span in
    let end = if span.idx_byte_end == 0 then length description else span.idx_byte_end in
    copy_from (end - span.idx_byte_begin) span.idx_byte_begin description
