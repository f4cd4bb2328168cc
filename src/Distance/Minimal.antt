-- ===== src/Distance/Minimal.antt =====
-- The distance of include/recommander/minDistance.h is the least cost of an edit script.
use simple_search_enginer.Prelude.{
  ℕ, zero, suc, ◌≤◌, ◌≡◌, refl, ◌⊎◌, inl, inr, some, List, [], ◌∷◌, reverse, arith, Bytes,
  Bytes_discrete, length, min, if_pos, if_neg,
}
use simple_search_enginer.Utf8.Chars.{Splits}
use simple_search_enginer.Distance.{edit_distance}
use simple_search_enginer.Distance.Edits.{dist, dist-nil}
use simple_search_enginer.Distance.Loops.{edit_distance-dist}

-- A way to turn one character sequence into the other, with the number of edits.
pub data Script : List Bytes → List Bytes → ℕ → Type 0 where
  empty : Script [] [] zero
  keep :
      {x y : Bytes} {xs ys : List Bytes} {n : ℕ}
      → x ≡ y
      → Script xs ys n
      → Script (x ∷ xs) (y ∷ ys) n
  replace :
      {x y : Bytes} {xs ys : List Bytes} {n : ℕ} → Script xs ys n → Script (x ∷ xs) (y ∷ ys) (suc n)
  delete : {x : Bytes} {xs ys : List Bytes} {n : ℕ} → Script xs ys n → Script (x ∷ xs) ys (suc n)
  insert : {y : Bytes} {xs ys : List Bytes} {n : ℕ} → Script xs ys n → Script xs (y ∷ ys) (suc n)

dist_comm : (xs ys : List Bytes) → dist xs ys ≡ dist ys xs
unfolding dist
dist_comm [] [] = refl
dist_comm [] (y ∷ ys) = refl
dist_comm (x ∷ xs) [] = refl
dist_comm (x ∷ xs) (y ∷ ys) =
    ground (arith, dist_comm xs ys, dist_comm (x ∷ xs) ys, dist_comm xs (y ∷ ys))

-- One character more on either side changes the distance by one at most.
near :
    (xs ys : List Bytes)
    → ((x : Bytes) → dist (x ∷ xs) ys ≤ suc (dist xs ys))
      × ((y : Bytes) → dist xs ys ≤ suc (dist xs (y ∷ ys)))
unfolding dist
near [] [] = (λ x. omega arith, λ y. omega arith)
near [] (z ∷ ys) =
    let (_, shorter) = near [] ys in (λ x. ground (arith, shorter z), λ y. omega arith)
near (z ∷ xs) [] =
    let (longer, shorter) = near xs [] in
    (λ x. omega arith, λ y. ground (arith, longer z, shorter y, dist-nil xs))
near (z ∷ xs) (w ∷ ys) =
    let (_, left) = near (z ∷ xs) ys in
    let (longer, shorter) = near xs (w ∷ ys) in
    (λ x. ground (arith, left w), λ y. ground (arith, longer z, shorter y))

Script-length_left : (xs : List Bytes) → Script xs [] (length xs)
Script-length_left [] = empty
Script-length_left (x ∷ xs) = delete (Script-length_left xs)

Script-length_right : (ys : List Bytes) → Script [] ys (length ys)
Script-length_right [] = empty
Script-length_right (y ∷ ys) = insert (Script-length_right ys)

min_one : (a b c : ℕ) → (min a (min b c) ≡ a) ⊎ (min a (min b c) ≡ b) ⊎ (min a (min b c) ≡ c)
min_one a b c = ground arith

min_cases :
    (P : ℕ → Type 0) (a b c : ℕ) → P (suc a) → P (suc b) → P (suc c) → P (suc (min a (min b c)))
min_cases P a b c pa pb pc = elim (min_one a b c) [
  | inl e ↦ rw e pa
  | inr rest ↦ elim rest [ inl e ↦ rw e pb | inr e ↦ rw e pc ]
]

-- There is a script of that cost.
Script-dist : (xs ys : List Bytes) → Script xs ys (dist xs ys)
unfolding dist
Script-dist [] ys = Script-length_right ys
Script-dist (x ∷ xs) [] = delete (Script-length_left xs)
Script-dist (x ∷ xs) (y ∷ ys) = elim (Bytes_discrete x y) [
  | yes same ↦ rw (if_pos _ same) (keep same (Script-dist xs ys))
  | no other ↦ rw (if_neg _ other) (
      min_cases (Script (x ∷ xs) (y ∷ ys)) _ _ _ (insert (Script-dist (x ∷ xs) ys))
        (delete (Script-dist xs (y ∷ ys))) (replace (Script-dist xs ys)))
]

keep_le :
    (x y : Bytes) (xs ys : List Bytes) (n : ℕ) → x ≡ y → dist xs ys ≤ n → dist (x ∷ xs) (y ∷ ys) ≤ n
unfolding dist
keep_le x y xs ys n e h = ground arith

replace_le :
    (x y : Bytes) (xs ys : List Bytes) (n : ℕ) → dist xs ys ≤ n → dist (x ∷ xs) (y ∷ ys) ≤ suc n
unfolding dist
replace_le x y xs ys n h = ground arith

-- No script is cheaper.
dist-le-Script : {xs ys : List Bytes} {n : ℕ} → Script xs ys n → dist xs ys ≤ n
dist-le-Script empty = unfold dist in (omega arith)
dist-le-Script (keep {x} {y} {xs} {ys} {n} e s) = keep_le x y xs ys n e (dist-le-Script s)
dist-le-Script (replace {x} {y} {xs} {ys} {n} s) = replace_le x y xs ys n (dist-le-Script s)
dist-le-Script (delete {x} {xs} {ys} s) = omega (arith, (near xs ys).0 x, dist-le-Script s)
dist-le-Script (insert {y} {xs} {ys} s) =
    omega (arith, (near ys xs).0 y, dist_comm ys xs, dist_comm xs (y ∷ ys), dist-le-Script s)

-- On two texts that split into characters, `editDistance` returns a number, some script of
-- character insertions, deletions and replacements costs that much, and none costs less. The
-- script is written from the last character back.
pub edit_distance-minimal :
    (lhs rhs : Bytes) (xs ys : List Bytes)
    → Splits lhs xs
    → Splits rhs ys
    → (n : ℕ) × (edit_distance lhs rhs ≡ some n)
      × Script (reverse xs) (reverse ys) n
      × ((m : ℕ) → Script (reverse xs) (reverse ys) m → n ≤ m)
edit_distance-minimal lhs rhs xs ys split_l split_r = (
  dist (reverse xs) (reverse ys),
  edit_distance-dist lhs rhs xs ys split_l split_r,
  Script-dist (reverse xs) (reverse ys),
  λ m s. dist-le-Script s,
)
