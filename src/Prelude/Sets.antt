-- ===== src/Prelude/Sets.antt =====
-- `std::set` with its comparison: the elements in ascending order, each put before the first that
-- it is less than. That is what a `std::set` does where the comparison is a strict weak order.
use mathlib.Core.Path.{◌≡◌}
use mathlib.Core.Logic.{inl, inr}
use mathlib.Core.Bool.{Bool, true, false}
use mathlib.Core.List.{List, [], ◌∷◌}
use simple_search_enginer.Prelude.Tests.{if◌then◌else◌, Bool-cases}
use simple_search_enginer.Prelude.Lists.{All, All-map, Any}

module _ {ℓ} {A : Type ℓ} (less : A → A → Bool) where
  -- An element that is neither less nor greater than one there is not inserted.
  unfoldable pub set_insert : A → List A → List A
  set_insert x [] = x ∷ []
  set_insert x (y ∷ ys) =
      let rest = y ∷ set_insert x ys in
      if less x y then x ∷ y ∷ ys else if less y x then rest else y ∷ ys

  abbrev pub Ascending : List A → Type 0
  Ascending [] = Unit
  Ascending (x ∷ xs) = All (λ y. less x y ≡ true) xs × Ascending xs

  pub set_insert-All :
      (P : A → Type 0) (x : A) (xs : List A) → P x → All P xs → All P (set_insert x xs)
  unfolding set_insert
  set_insert-All P x [] p h = (p, tt)
  set_insert-All P x (y ∷ ys) p h = elim (Bool-cases (less x y)) [
    | inl e ↦ rw e (p, h)
    | inr e ↦ elim (Bool-cases (less y x)) [
      | inl f ↦ rw (e, f) (h.0, set_insert-All P x ys p h.1)
      | inr f ↦ rw (e, f) h
    ]
  ]

  pub set_insert-Any : (P : A → Type 0) (x : A) (xs : List A) → Any P xs → Any P (set_insert x xs)
  unfolding set_insert
  set_insert-Any P x [] h = absurd h
  set_insert-Any P x (y ∷ ys) h = elim (Bool-cases (less x y)) [
    | inl e ↦ rw e (inr h)
    | inr e ↦ elim (Bool-cases (less y x)) [
      | inl f ↦ rw (e, f) (elim h [ inl a ↦ inl a | inr b ↦ inr (set_insert-Any P x ys b) ])
      | inr f ↦ rw (e, f) h
    ]
  ]

  -- The set has the new element or one that is neither less nor greater.
  pub set_insert-Any_self :
      (P : A → Type 0) (x : A) (xs : List A)
      → P x
      → ((y : A) → less x y ≡ false → less y x ≡ false → P y)
      → Any P (set_insert x xs)
  unfolding set_insert
  set_insert-Any_self P x [] p h = inl p
  set_insert-Any_self P x (y ∷ ys) p h = elim (Bool-cases (less x y)) [
    | inl e ↦ rw e (inl p)
    | inr e ↦ elim (Bool-cases (less y x)) [
      | inl f ↦ rw (e, f) (inr (set_insert-Any_self P x ys p h))
      | inr f ↦ rw (e, f) (inl (h y e f))
    ]
  ]

  -- The order is kept where it is transitive.
  pub set_insert-Ascending :
      ((a b c : A) → less a b ≡ true → less b c ≡ true → less a c ≡ true)
      → (x : A) (xs : List A) → Ascending xs
      → Ascending (set_insert x xs)
  unfolding set_insert
  set_insert-Ascending trans x [] h = (tt, tt)
  set_insert-Ascending trans x (y ∷ ys) h = elim (Bool-cases (less x y)) [
    | inl e ↦
        rw e (
          (e, All-map (λ z. less y z ≡ true) (λ z. less x z ≡ true) ys (λ z. trans x y z e) h.0),
          h,
        )
    | inr e ↦ elim (Bool-cases (less y x)) [
      | inl f ↦
          rw (e, f)
            (set_insert-All (λ z. less y z ≡ true) x ys f h.0, set_insert-Ascending trans x ys h.1)
      | inr f ↦ rw (e, f) h
    ]
  ]
