-- ===== src/Distance/Edits.antt =====
-- The distance that include/recommander/minDistance.h means to compute, by recursion on the last
-- characters of two texts.
use simple_search_enginer.Prelude.{
  ℕ, zero, suc, ◌+◌, ◌≤◌, ◌≡◌, refl, some, List, [], ◌∷◌, reverse, arith, Bytes, Bytes_discrete,
  length, ite, min, get_elem?, drop, reverse,
}
use mathlib.Core.List.{reverse_aux}

-- The fewest insertions, deletions and replacements that turn one text into the other; both are
-- given from the last character back.
unfoldable pub dist : List Bytes → List Bytes → ℕ
dist [] ys = length ys
dist (x ∷ xs) [] = suc (length xs)
dist (x ∷ xs) (y ∷ ys) =
    ite (Bytes_discrete x y) (dist xs ys)
      (suc (min (dist (x ∷ xs) ys) (min (dist xs (y ∷ ys)) (dist xs ys))))

-- The first `n` elements, the last of them first.
unfoldable pub prefix_from : List Bytes → ℕ → List Bytes → List Bytes
prefix_from acc zero xs = acc
prefix_from acc (suc n) [] = acc
prefix_from acc (suc n) (x ∷ xs) = prefix_from (x ∷ acc) n xs

abbrev pub prefix : ℕ → List Bytes → List Bytes
prefix n xs = prefix_from [] n xs

prefix_from-suc :
    (acc : List Bytes) (n : ℕ) (xs : List Bytes) (x : Bytes)
    → get_elem? xs n ≡ some x
    → prefix_from acc (suc n) xs ≡ x ∷ prefix_from acc n xs
unfolding prefix_from
prefix_from-suc acc n [] x e = cc
prefix_from-suc acc zero (y ∷ xs) x e = ground arith
prefix_from-suc acc (suc n) (y ∷ xs) x e = prefix_from-suc (y ∷ acc) n xs x e

drop_cons :
    (n : ℕ) (xs ys : List Bytes) (y : Bytes)
    → drop n xs ≡ y ∷ ys
    → (get_elem? xs n ≡ some y) × (drop (suc n) xs ≡ ys)
drop_cons zero [] ys y e = cc
drop_cons zero (x ∷ xs) ys y e = ground arith
drop_cons (suc n) [] ys y e = cc
drop_cons (suc n) (x ∷ xs) ys y e = drop_cons n xs ys y e

-- Where the rest of the list begins with `y`, the next prefix ends with it.
pub prefix-next :
    (n : ℕ) (xs ys : List Bytes) (y : Bytes)
    → drop n xs ≡ y ∷ ys
    → (prefix (suc n) xs ≡ y ∷ prefix n xs) × (drop (suc n) xs ≡ ys)
prefix-next n xs ys y e =
    let (at, rest) = drop_cons n xs ys y e in (prefix_from-suc [] n xs y at, rest)

prefix_from-whole : (acc xs : List Bytes) → prefix_from acc (length xs) xs ≡ reverse_aux xs acc
unfolding prefix_from
prefix_from-whole acc [] = refl
prefix_from-whole acc (x ∷ xs) = prefix_from-whole (x ∷ acc) xs

pub prefix-length : (xs : List Bytes) → prefix (length xs) xs ≡ reverse xs
prefix-length xs = prefix_from-whole [] xs

length-prefix_from :
    (acc : List Bytes) (n : ℕ) (xs : List Bytes)
    → n ≤ length xs
    → length (prefix_from acc n xs) ≡ length acc + n
unfolding prefix_from
length-prefix_from acc zero xs h = omega arith
length-prefix_from acc (suc n) [] h = absurd (omega arith)
length-prefix_from acc (suc n) (x ∷ xs) h =
    omega (arith, length-prefix_from (x ∷ acc) n xs (omega arith))

pub length-prefix : (n : ℕ) (xs : List Bytes) → n ≤ length xs → length (prefix n xs) ≡ n
length-prefix n xs h = omega (arith, length-prefix_from [] n xs h)

pub dist-nil : (xs : List Bytes) → dist xs [] ≡ length xs
unfolding dist
dist-nil [] = refl
dist-nil (x ∷ xs) = refl
