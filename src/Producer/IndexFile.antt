-- ===== src/Producer/IndexFile.antt =====
-- dictIndex.dat: `DictProducer::store` of recommanderDump/DictProducer.cc against
-- `Dictionary::initIndex` of src/recommander/Dictionary.cc.
use simple_search_enginer.Prelude.{
  ◌≡◌, ◌≢◌, sym, ap, ◌∙◌, some, List, [], ◌∷◌, ◌++◌, Bytes, arith, All, All-map, ℤ, getlines,
  getlines-line, Without,
}
use mathlib.Core.List.{append_assoc, append-nil}
use simple_search_enginer.Dictionary.Files.{index_lines, init_index}
use simple_search_enginer.Producer.{decimal, store_set, store_index}
use simple_search_enginer.Producer.Decimal.{decimal-Without}
use simple_search_enginer.Producer.DictFile.{Without-append}
use simple_search_enginer.Producer.IndexSteps.{Index, IsName, Climbs, index_bytes-store_set}

-- The rest of an index: names that differ from each other and from those before, with ascending
-- positions, at least one.
abbrev pub IsIndex : Index → Index → Type 0
IsIndex before [] = Unit
IsIndex before ((w, ns) ∷ index) =
    IsName w
    × (ns ≢ [])
    × Climbs 0 ns
    × All (λ (e : Bytes × List ℤ). e.0 ≢ w) before
    × IsIndex (before ++ ((w, ns) ∷ [])) index

store_set-Without : (ns : List ℤ) → Without 10 (store_set ns)
unfolding store_set
store_set-Without [] = tt
store_set-Without (n ∷ ns) =
    Without-append 10 (decimal n) (32 ∷ store_set ns) (decimal-Without 10 n (omega arith))
      (ground arith, store_set-Without ns)

line_eq :
    (w : Bytes) (ns : List ℤ) (rest : Bytes)
    → IsName w
    → getlines (w ++ (32 ∷ store_set ns ++ (10 ∷ rest)))
      ≡ (w ++ (32 ∷ store_set ns)) ∷ getlines rest
line_eq w ns rest name =
    ap getlines (sym (append_assoc w (32 ∷ store_set ns) (10 ∷ rest)))
    ∙ getlines-line (w ++ (32 ∷ store_set ns)) rest (
        Without-append 10 w (32 ∷ store_set ns) (All-map _ (λ c. c ≢ 10) w (λ c h. h.1) name)
          (ground arith, store_set-Without ns))

index_lines-store_index :
    (index before : Index)
    → IsIndex before index
    → index_lines (getlines (store_index index)) before ≡ some (before ++ index)
unfolding index_lines store_index
index_lines-store_index [] before h = unfold getlines in (ap some (sym (append-nil before)))
index_lines-store_index ((w, ns) ∷ index) before h =
    let lines = line_eq w ns (store_index index) h.0 in
    let line = index_bytes-store_set w ns before h.0 h.1 h.2 h.3 in
    rw (lines, line) (index_lines-store_index index (before ++ ((w, ns) ∷ [])) h.4)
    ∙ ap some (append_assoc before ((w, ns) ∷ []) index)

-- `initIndex` reads from the file what `store` wrote, if the characters differ and are no digits,
-- blanks and newlines, and each has at least one position, in ascending order and within an
-- `int`.
pub init_index-store_index :
    (index : Index) → IsIndex [] index → init_index (store_index index) ≡ some index
unfolding init_index
init_index-store_index index h = index_lines-store_index index [] h
