-- ===== src/Dictionary/ListQueue.antt =====
-- A priority queue for the tests: a list that is searched for its greatest element.
use simple_search_enginer.Prelude.{
  ◌≡◌, refl, inl, inr, true, false, Option, none, some, List, [], ◌∷◌, arith, All, if◌then◌else◌,
  Bool-cases, ltz, ℤ, pos, negsuc,
}
use mathlib.Core.List.{Permᴰ}
use mathlib.Core.List.Permᴰ
use simple_search_enginer.Dictionary.{Candidate, PriorityQueue, less}

-- The greatest of the list with the others.
unfoldable pub extract : Candidate → List Candidate → Candidate × List Candidate
extract c [] = (c, [])
extract c (d ∷ ds) =
    let left = extract c ds in
    let right = extract d ds in if less c d then (right.0, c ∷ right.1) else (left.0, d ∷ left.1)

ltz_swap : (a b : ℤ) → ltz a b ≡ true → ltz b a ≡ false
unfolding ltz
ltz_swap (pos a) (pos b) h = ground arith
ltz_swap (pos a) (negsuc b) h = cc
ltz_swap (negsuc a) (pos b) h = refl
ltz_swap (negsuc a) (negsuc b) h = ground arith

ltz_trans : (a b c : ℤ) → ltz b a ≡ false → ltz c b ≡ false → ltz c a ≡ false
unfolding ltz
ltz_trans (pos a) (pos b) (pos c) h k = ground arith
ltz_trans (pos a) (pos b) (negsuc c) h k = cc
ltz_trans (pos a) (negsuc b) c h k = cc
ltz_trans (negsuc a) b (pos c) h k = refl
ltz_trans (negsuc a) (pos b) (negsuc c) h k = cc
ltz_trans (negsuc a) (negsuc b) (negsuc c) h k = ground arith

less_swap : (c d : Candidate) → less c d ≡ true → less d c ≡ false
unfolding less
less_swap c d h = ground (arith, ltz_swap c.fre d.fre)

less_trans : (c d e : Candidate) → less d c ≡ false → less e d ≡ false → less e c ≡ false
unfolding less
less_trans c d e h k = ground (arith, ltz_trans c.fre d.fre e.fre)

less_self : (c : Candidate) → less c c ≡ false
less_self c = elim (Bool-cases (less c c)) [ inl e ↦ less_swap c c e | inr e ↦ e ]

pub extract_lem :
    (c : Candidate) (cs : List Candidate)
    → Permᴰ (c ∷ cs) ((extract c cs).0 ∷ (extract c cs).1)
      × (less (extract c cs).0 c ≡ false)
      × All (λ d. less (extract c cs).0 d ≡ false) (extract c cs).1
unfolding extract
extract_lem c [] = (Permᴰ.refl (c ∷ []), less_self c, tt)
extract_lem c (d ∷ ds) = elim (Bool-cases (less c d)) [
  | inl e ↦
      let (perm, over, best) = extract_lem d ds in
      let here = less_trans c d (extract d ds).0 (less_swap c d e) over in
      rw e (Permᴰ.trans (Permᴰ.cons refl perm) (Permᴰ.swap refl refl), here, (here, best))
  | inr e ↦
      let (perm, over, best) = extract_lem c ds in
      rw e (
        Permᴰ.trans (Permᴰ.swap refl refl)
            (Permᴰ.trans (Permᴰ.cons refl perm) (Permᴰ.swap refl refl)),
        over,
        (less_trans d c (extract c ds).0 e over, best),
      )
]

unfoldable pub top : List Candidate → Option Candidate
unfolding extract
top [] = none
top (c ∷ cs) = some (extract c cs).0

unfoldable pub pop : List Candidate → Option (List Candidate)
unfolding extract
pop [] = none
pop (c ∷ cs) = some (extract c cs).1

pub top-pop :
    (q : List Candidate) (c : Candidate) (cs : List Candidate)
    → q ≡ c ∷ cs
    → (t : Candidate) × (q' : List Candidate) × (top q ≡ some t)
      × (pop q ≡ some q')
      × Permᴰ q (t ∷ q')
      × All (λ d. less t d ≡ false) q'
unfolding top pop
top-pop [] c cs e = cc
top-pop (a ∷ q) c cs e =
    let (perm, _, best) = extract_lem a q in
    ((extract a q).0, (extract a q).1, refl, refl, perm, best)

pub top_empty : (q : List Candidate) → q ≡ [] → top q ≡ none
unfolding top
top_empty q e = ground (arith, e)

unfoldable pub list_queue : PriorityQueue
unfolding top pop
list_queue = record {
  Queue = List Candidate;
  contents = λ q. q;
  empty = [];
  push = λ c q. c ∷ q;
  top = top;
  pop = pop;
  empty_lem = refl;
  push_lem = λ c q. Permᴰ.refl (c ∷ q);
  top_none = top_empty;
  top_some = top-pop;
}
