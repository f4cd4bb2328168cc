-- ===== src/Distance/Zero.antt =====
-- The distance of include/recommander/minDistance.h is 0 between equal texts and no others.
use mathlib.Core.List.{reverse-reverse}
use simple_search_enginer.Prelude.{
  ℕ, ◌≡◌, refl, sym, ap, ◌∙◌, some, List, [], ◌∷◌, reverse, arith, Bytes,
}
use simple_search_enginer.Utf8.Chars.{Splits, concat-Splits, concat}
use simple_search_enginer.Distance.{edit_distance}
use simple_search_enginer.Distance.Minimal
use simple_search_enginer.Distance.Minimal.{Script, edit_distance-minimal}

Script-self : (xs : List Bytes) → Script xs xs 0
Script-self [] = Minimal.empty
Script-self (x ∷ xs) = Minimal.keep refl (Script-self xs)

-- A script without edits changes nothing.
Script-zero : {xs ys : List Bytes} {n : ℕ} → Script xs ys n → n ≡ 0 → xs ≡ ys
Script-zero Minimal.empty e = refl
Script-zero (Minimal.keep {x} {y} {xs} {ys} same s) e = ground (arith, same, Script-zero s e)
Script-zero (Minimal.replace s) e = absurd (omega arith)
Script-zero (Minimal.delete s) e = absurd (omega arith)
Script-zero (Minimal.insert s) e = absurd (omega arith)

pub edit_distance_self : (w : Bytes) (xs : List Bytes) → Splits w xs → edit_distance w w ≡ some 0
edit_distance_self w xs split =
    let (n, e, s, least) = edit_distance-minimal w w xs xs split split in
    let low = least 0 (Script-self (reverse xs)) in ground (arith, e, low)

pub edit_distance-zero :
    (v w : Bytes) (xs ys : List Bytes)
    → Splits v xs
    → Splits w ys
    → edit_distance v w ≡ some 0
    → v ≡ w
edit_distance-zero v w xs ys split_v split_w e =
    let (n, e', s, _) = edit_distance-minimal v w xs ys split_v split_w in
    let same : reverse xs ≡ reverse ys = Script-zero s (ground (arith, e, e')) in
    sym (concat-Splits split_v)
    ∙ ap concat (sym (reverse-reverse xs) ∙ ap reverse same ∙ reverse-reverse ys)
    ∙ concat-Splits split_w
