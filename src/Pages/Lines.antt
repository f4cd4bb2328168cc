-- ===== src/Pages/Lines.antt =====
-- `store` of pageDump/PageProducer.cc against `initOffset` of src/WebPageSearcher.cc.
use mathlib.Core.List.{append_assoc, append-nil}
use simple_search_enginer.Prelude.{
  ℕ, ◌≤◌, ◌<◌, ◌≡◌, refl, sym, ap, ◌∙◌, true, false, Option, some, List, [], ◌∷◌, ◌++◌, Bytes,
  arith, All, pos, Without, getlines, getlines-line, length, assign, ℤ_discrete, length-append,
}
use simple_search_enginer.Producer.{decimal}
use simple_search_enginer.Producer.Decimal.{decimal-Without, stoi-decimal}
use simple_search_enginer.Producer.DictFile.{Without-append}
use simple_search_enginer.Searcher.{Doubles, PageText, Offsets}
use simple_search_enginer.Searcher.Files.{
  size_to_int, OffsetState, offset_start, offset_blank, offset_bytes, offset_lines, until_empty,
}
use simple_search_enginer.Pages.{Offset, offset_text, store_offsets}

-- The numbers fit an `int`.
pub record IsSmall (o : Offset) : Type 0 where
  pub idx_fits : o.idx < 2147483648
  pub start_fits : o.start_pos < 2147483648
  pub end_fits : o.end_pos < 2147483648

-- The map that the lines make.
abbrev pub offset_map : List Offset → Offsets → Offsets
offset_map [] m = m
offset_map (o ∷ os) m =
    offset_map os (assign ℤ_discrete (pos o.idx) (pos o.start_pos, pos o.end_pos) m)

module _ (doubles : Doubles) (parse_page : Bytes → Option PageText) where
  open doubles use {Real, stod, to_size}

  -- A field is collected up to its blank.
  field_bytes :
      (w rest tmp : Bytes) (s : OffsetState doubles parse_page)
      → Without 32 w
      → offset_bytes doubles parse_page (w ++ rest) (record s { end_flag = false; tmp = tmp })
        ≡ offset_bytes doubles parse_page rest (record s { end_flag = false; tmp = tmp ++ w })
  unfolding offset_bytes
  field_bytes [] rest tmp s h =
      ap (λ t. offset_bytes doubles parse_page rest (record s { end_flag = false; tmp = t }))
        (sym (append-nil tmp))
  field_bytes (c ∷ w) rest tmp s h =
      ground (arith, h.0, field_bytes w rest (tmp ++ (c ∷ [])) s h.1, append_assoc tmp (c ∷ []) w)

  -- `operator<<` of a number that fits an `int`, read back through `std::stod`.
  abbrev pub StodReads : Type 0
  StodReads =
      (n : ℕ)
      → n < 2147483648
      → (x : Real) × (stod (decimal (pos n)) ≡ some x) × (to_size x ≡ some n)

  abbrev pub offset_line : Offset → Bytes
  offset_line o =
      decimal (pos o.idx)
      ++ (32 ∷ decimal (pos o.start_pos) ++ (32 ∷ decimal (pos o.end_pos) ++ (32 ∷ [])))

  size_to_int-small : (n : ℕ) → n < 2147483648 → size_to_int n ≡ pos n
  unfolding size_to_int
  size_to_int-small n h = ground arith

  abbrev read_back : Offset → OffsetState doubles parse_page
  read_back o = record {
    id_flag = true;
    beg_flag = true;
    end_flag = true;
    id = pos o.idx;
    beg_pos = pos o.start_pos;
    end_pos = pos o.end_pos;
    tmp = [];
  }

  id_field :
      (n : ℕ) (rest : Bytes)
      → n < 2147483648
      → offset_bytes doubles parse_page
          (decimal (pos n) ++ (32 ∷ rest))
          (offset_start doubles parse_page)
        ≡ offset_bytes doubles parse_page rest
            (record (offset_start doubles parse_page) { id_flag = true; id = pos n })
  id_field n rest h =
      field_bytes (decimal (pos n)) (32 ∷ rest) [] (offset_start doubles parse_page)
        (decimal-Without 32 (pos n) (omega arith))
      ∙ (unfold offset_bytes in (unfold offset_blank in (rw (stoi-decimal (pos n) h) refl)))

  beg_field :
      (n b : ℕ) (rest : Bytes)
      → b < 2147483648
      → offset_bytes doubles parse_page
          (decimal (pos b) ++ (32 ∷ rest))
          (record (offset_start doubles parse_page) { id_flag = true; id = pos n })
        ≡ offset_bytes doubles parse_page rest (record (offset_start doubles parse_page) {
          id_flag = true;
          beg_flag = true;
          id = pos n;
          beg_pos = pos b;
        })
  beg_field n b rest h =
      field_bytes (decimal (pos b)) (32 ∷ rest) []
        (record (offset_start doubles parse_page) { id_flag = true; id = pos n })
        (decimal-Without 32 (pos b) (omega arith))
      ∙ (unfold offset_bytes in (unfold offset_blank in (rw (stoi-decimal (pos b) h) refl)))

  end_field :
      StodReads
      → (n b e : ℕ) → e < 2147483648
      → offset_bytes doubles parse_page
          (decimal (pos e) ++ (32 ∷ []))
          (record (offset_start doubles parse_page) {
            id_flag = true;
            beg_flag = true;
            id = pos n;
            beg_pos = pos b;
          })
        ≡ some (read_back (record { idx = n; start_pos = b; end_pos = e }))
  end_field reads n b e h =
      let (x, p, q) = reads e h in
      field_bytes (decimal (pos e)) (32 ∷ []) []
        (record (offset_start doubles parse_page) {
          id_flag = true;
          beg_flag = true;
          id = pos n;
          beg_pos = pos b;
        })
        (decimal-Without 32 (pos e) (omega arith))
      ∙ (unfold offset_bytes in (unfold offset_blank in (rw (p, q, size_to_int-small e h) refl)))

  offset_bytes-line :
      StodReads
      → (o : Offset) → IsSmall o
      → offset_bytes doubles parse_page (offset_line o) (offset_start doubles parse_page)
        ≡ some (read_back o)
  offset_bytes-line reads o small =
      id_field o.idx (decimal (pos o.start_pos) ++ (32 ∷ decimal (pos o.end_pos) ++ (32 ∷ [])))
        small.idx_fits
      ∙ beg_field o.idx o.start_pos (decimal (pos o.end_pos) ++ (32 ∷ [])) small.start_fits
      ∙ end_field reads o.idx o.start_pos o.end_pos small.end_fits

  offset_line-Without : (o : Offset) → Without 10 (offset_line o)
  offset_line-Without o =
      Without-append 10 (decimal (pos o.idx)) _ (decimal-Without 10 (pos o.idx) (omega arith)) (
        ground arith,
        Without-append 10 (decimal (pos o.start_pos)) _
            (decimal-Without 10 (pos o.start_pos) (omega arith))
            (
              ground arith,
              Without-append 10 (decimal (pos o.end_pos)) (32 ∷ [])
                  (decimal-Without 10 (pos o.end_pos) (omega arith)) (ground arith, tt),
            ),
      )

  offset_text-line :
      (o : Offset) (rest : Bytes) → offset_text o ++ rest ≡ offset_line o ++ (10 ∷ rest)
  unfolding offset_text
  offset_text-line o rest = simp append_assoc

  until_empty-cons :
      (l : Bytes) (ls : List Bytes) → 1 ≤ length l → until_empty (l ∷ ls) ≡ l ∷ until_empty ls
  unfolding until_empty
  until_empty-cons [] ls h = absurd (omega arith)
  until_empty-cons (c ∷ l) ls h = refl

  pub offset_lines-store :
      StodReads
      → (os : List Offset) → All IsSmall os
      → (m : Offsets)
      → offset_lines doubles parse_page (until_empty (getlines (store_offsets os))) m
        ≡ some (offset_map os m)
  unfolding store_offsets offset_lines assign
  offset_lines-store reads [] h m =
      unfold getlines in (unfold until_empty in (unfold offset_lines in refl))
  offset_lines-store reads (o ∷ os) h m =
      let lines : until_empty (getlines (offset_text o ++ store_offsets os))
          ≡ offset_line o ∷ until_empty (getlines (store_offsets os)) =
        ap (λ t. until_empty (getlines t)) (offset_text-line o (store_offsets os))
        ∙ ap until_empty (getlines-line (offset_line o) (store_offsets os) (offset_line-Without o))
        ∙ until_empty-cons (offset_line o) _ (
            omega (
              arith,
              length-append (decimal (pos o.idx))
                  (32 ∷ decimal (pos o.start_pos) ++ (32 ∷ decimal (pos o.end_pos) ++ (32 ∷ []))),
            )) in
      rw (lines, offset_lines, offset_bytes-line reads o h.0) (offset_lines-store reads os h.1 _)
