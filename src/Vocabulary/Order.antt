-- ===== src/Vocabulary/Order.antt =====
-- `<` on `std::string` is a strict order, and the map of recommanderDump/DictProducer.cc keeps it.
use simple_search_enginer.Prelude.{
  ℕ, ◌+◌, ◌≡◌, refl, inl, inr, true, false, Bool-cases, none, List, [], ◌∷◌, arith, Bytes,
  Bytes_discrete, ite, All, All-map, lookup, at_key,
}
use simple_search_enginer.Indexing.{bytes_less}
use simple_search_enginer.Indexing.Sets.{bytes_less-eq}
use simple_search_enginer.Vocabulary.{WordCounts, count_up}

pub bytes_less_irrefl : (a : Bytes) → bytes_less a a ≡ false
unfolding bytes_less
bytes_less_irrefl [] = refl
bytes_less_irrefl (c ∷ a) = ground (arith, bytes_less_irrefl a)

pub bytes_less_trans :
    (a b c : Bytes) → bytes_less a b ≡ true → bytes_less b c ≡ true → bytes_less a c ≡ true
unfolding bytes_less
bytes_less_trans [] [] c h k = cc
bytes_less_trans [] (y ∷ b) [] h k = cc
bytes_less_trans [] (y ∷ b) (z ∷ c) h k = refl
bytes_less_trans (x ∷ a) [] c h k = cc
bytes_less_trans (x ∷ a) (y ∷ b) [] h k = cc
bytes_less_trans (x ∷ a) (y ∷ b) (z ∷ c) h k = ground (arith, bytes_less_trans a b c)

-- The keys ascend.
abbrev pub Sorted : {V : Type 0} → List (Bytes × V) → Type 0
Sorted [] = Unit
Sorted {V} ((x, n) ∷ m) = All (λ (e : Bytes × V). bytes_less x e.0 ≡ true) m × Sorted m

-- What is less than all keys is no key.
pub below_absent :
    (w : Bytes) (m : WordCounts)
    → All (λ (e : Bytes × ℕ). bytes_less w e.0 ≡ true) m
    → lookup Bytes_discrete w m ≡ none
below_absent w [] h = refl
below_absent w ((x, n) ∷ m) h = ground (arith, h.0, bytes_less_irrefl w, below_absent w m h.1)

count_up-All :
    (P : Bytes → Type 0) (w : Bytes) (m : WordCounts)
    → P w
    → All (λ (e : Bytes × ℕ). P e.0) m
    → All (λ (e : Bytes × ℕ). P e.0) (count_up w m)
unfolding count_up
count_up-All P w [] p h = (p, tt)
count_up-All P w ((x, n) ∷ m) p h = elim (Bool-cases (bytes_less w x)) [
  | inl e ↦ rw e (p, h)
  | inr e ↦ elim (Bool-cases (bytes_less x w)) [
    | inl f ↦ rw (e, f) (h.0, count_up-All P w m p h.1)
    | inr f ↦ rw (e, f) h
  ]
]

pub count_up-Sorted : (w : Bytes) (m : WordCounts) → Sorted m → Sorted (count_up w m)
unfolding count_up
count_up-Sorted w [] h = (tt, tt)
count_up-Sorted w ((x, n) ∷ m) h = elim (Bool-cases (bytes_less w x)) [
  | inl e ↦ rw e ((e, All-map _ _ m (λ (y : Bytes × ℕ) k. bytes_less_trans w x y.0 e k) h.0), h)
  | inr e ↦ elim (Bool-cases (bytes_less x w)) [
    | inl f ↦
        rw (e, f) (count_up-All (λ y. bytes_less x y ≡ true) w m f h.0, count_up-Sorted w m h.1)
    | inr f ↦ rw (e, f) h
  ]
]

-- The count of `w` goes up by one, and no other.
pub at_key-count_up :
    (q w : Bytes) (m : WordCounts)
    → Sorted m
    → at_key Bytes_discrete 0 q (count_up w m)
      ≡ at_key Bytes_discrete 0 q m + ite (Bytes_discrete w q) 1 0
unfolding count_up at_key
at_key-count_up q w [] h = ground arith
at_key-count_up q w ((x, n) ∷ m) h = elim (Bool-cases (bytes_less w x)) [
  | inl e ↦ ground (
    arith,
    below_absent w ((x, n) ∷ m)
        (e, All-map _ _ m (λ (y : Bytes × ℕ) k. bytes_less_trans w x y.0 e k) h.0),
  )
  | inr e ↦ elim (Bool-cases (bytes_less x w)) [
    | inl f ↦ ground (arith, e, f, bytes_less_irrefl x, at_key-count_up q w m h.1)
    | inr f ↦ ground (arith, e, f, bytes_less-eq w x e f)
  ]
]
