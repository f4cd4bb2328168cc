-- ===== src/Prelude/Assoc.antt =====
-- Maps as association lists over keys with a decidable equality.
use Prim.Native.Nat.{◌+◌}
use mathlib.Core.Path.{◌≡◌, refl}
use mathlib.Core.Logic.{ite, ◌≢◌, if_pos, if_neg, inl, inr}
use mathlib.Core.List.{List, [], ◌∷◌}
use mathlib.Core.Option.{Option, none, some}
use native.Mathlib.Omega.{arith}
use simple_search_enginer.Prelude.Tests.{Option-cases}
use simple_search_enginer.Prelude.Lists.{length, All}

module _ {ℓ} {K V : Type ℓ} (dec : Discrete K) where
  -- `m.find(k)`
  abbrev pub lookup : K → List (K × V) → Option V
  lookup k [] = none
  lookup k ((j, v) ∷ m) = ite (dec j k) (some v) (lookup k m)

  -- `m[k] = v`
  unfoldable pub assign : K → V → List (K × V) → List (K × V)
  assign k v [] = (k, v) ∷ []
  assign k v ((j, w) ∷ m) = ite (dec j k) ((k, v) ∷ m) ((j, w) ∷ assign k v m)

  -- `m.erase(k)`
  unfoldable pub erase : K → List (K × V) → List (K × V)
  erase k [] = []
  erase k ((j, w) ∷ m) = ite (dec j k) m ((j, w) ∷ erase k m)

  -- No key stands twice.
  abbrev pub Distinct : List (K × V) → Type ℓ
  Distinct [] = Unit {ℓ}
  Distinct ((k, v) ∷ m) = (lookup k m ≡ none) × Distinct m

module _ {ℓ} {K V : Type ℓ} (dec : Discrete K) where
  pub lookup-assign_self :
      (k : K) (v : V) (m : List (K × V)) → lookup dec k (assign dec k v m) ≡ some v
  unfolding assign
  lookup-assign_self k v [] = ground arith
  lookup-assign_self k v ((j, w) ∷ m) = ground (arith, lookup-assign_self k v m)

  pub lookup-assign_ne :
      (k q : K) (v : V) (m : List (K × V))
      → q ≢ k
      → lookup dec q (assign dec k v m) ≡ lookup dec q m
  unfolding assign
  lookup-assign_ne k q v [] h = ground arith
  lookup-assign_ne k q v ((j, w) ∷ m) h = ground (arith, lookup-assign_ne k q v m)

  pub lookup-assign_same :
      (k q : K) (v : V) (m : List (K × V))
      → lookup dec k m ≡ some v
      → lookup dec q (assign dec k v m) ≡ lookup dec q m
  unfolding assign
  lookup-assign_same k q v [] h = cc
  lookup-assign_same k q v ((j, w) ∷ m) h = ground (arith, lookup-assign_same k q v m)

  pub lookup-erase_ne :
      (k q : K) (m : List (K × V)) → q ≢ k → lookup dec q (erase dec k m) ≡ lookup dec q m
  unfolding erase
  lookup-erase_ne k q [] h = refl
  lookup-erase_ne k q ((j, w) ∷ m) h = ground (arith, lookup-erase_ne k q m)

  pub lookup-erase_self :
      (k : K) (m : List (K × V)) → Distinct dec m → lookup dec k (erase dec k m) ≡ none
  unfolding erase
  lookup-erase_self k [] d = refl
  lookup-erase_self k ((j, w) ∷ m) d = ground (arith, lookup-erase_self k m d.1)

  pub erase_absent : (k : K) (m : List (K × V)) → lookup dec k m ≡ none → erase dec k m ≡ m
  unfolding erase
  erase_absent k [] h = refl
  erase_absent k ((j, w) ∷ m) h = ground (arith, erase_absent k m)

  pub assign-Distinct :
      (k : K) (v : V) (m : List (K × V)) → Distinct dec m → Distinct dec (assign dec k v m)
  unfolding assign
  assign-Distinct k v [] d = (refl, tt)
  assign-Distinct k v ((j, w) ∷ m) d = elim (dec j k) [
    | yes e ↦ rw (if_pos _ e) (ground arith, d.1)
    | no n ↦ rw (if_neg _ n) (ground (arith, lookup-assign_ne k j v m n), assign-Distinct k v m d.1)
  ]

  erase-none :
      (k j : K) (m : List (K × V)) → lookup dec j m ≡ none → lookup dec j (erase dec k m) ≡ none
  unfolding erase
  erase-none k j [] h = refl
  erase-none k j ((i, w) ∷ m) h = ground (arith, erase-none k j m)

  pub erase-Distinct : (k : K) (m : List (K × V)) → Distinct dec m → Distinct dec (erase dec k m)
  unfolding erase
  erase-Distinct k [] d = tt
  erase-Distinct k ((j, w) ∷ m) d = elim (dec j k) [
    | yes e ↦ rw (if_pos _ e) d.1
    | no n ↦ rw (if_neg _ n) (erase-none k j m d.0, erase-Distinct k m d.1)
  ]

  pub length-assign_new :
      (k : K) (v : V) (m : List (K × V))
      → lookup dec k m ≡ none
      → length (assign dec k v m) ≡ length m + 1
  unfolding assign
  length-assign_new k v [] h = omega arith
  length-assign_new k v ((j, w) ∷ m) h = ground (arith, length-assign_new k v m)

  pub length-assign_old :
      (k : K) (v w : V) (m : List (K × V))
      → lookup dec k m ≡ some w
      → length (assign dec k v m) ≡ length m
  unfolding assign
  length-assign_old k v w [] h = cc
  length-assign_old k v w ((j, u) ∷ m) h = ground (arith, length-assign_old k v w m)

  pub length-erase :
      (k : K) (v : V) (m : List (K × V))
      → lookup dec k m ≡ some v
      → length (erase dec k m) + 1 ≡ length m
  unfolding erase
  length-erase k v [] h = cc
  length-erase k v ((j, w) ∷ m) h = ground (arith, length-erase k v m)

-- A property of all entries.
module _ {ℓ} {K V : Type ℓ} (dec : Discrete K) (P : K × V → Type ℓ) where
  pub erase-All : (k : K) (m : List (K × V)) → All P m → All P (erase dec k m)
  unfolding erase
  erase-All k [] h = tt
  erase-All k ((j, w) ∷ m) h = elim (dec j k) [
    | yes e ↦ rw (if_pos _ e) h.1
    | no n ↦ rw (if_neg _ n) (h.0, erase-All k m h.1)
  ]

  pub lookup-All : (k : K) (v : V) (m : List (K × V)) → All P m → lookup dec k m ≡ some v → P (k, v)
  lookup-All k v [] h e = cc
  lookup-All k v ((j, w) ∷ m) h e = ground (arith, h.0, lookup-All k v m h.1)

module _ {ℓ} {K V : Type ℓ} (dec : Discrete K) where
  -- A key that is absent differs from every key there is.
  pub absent-All :
      (k : K) (m : List (K × V)) → lookup dec k m ≡ none → All (λ (e : K × V). e.0 ≢ k) m
  absent-All k [] h = tt
  absent-All k ((j, w) ∷ m) h = elim (dec j k) [
    | yes e ↦ absurd (ground arith)
    | no n ↦ (n, absent-All k m (ground arith))
  ]

module _ {ℓ} {K V : Type ℓ} (dec : Discrete K) (default : V) where
  -- The value that `m[k]` reads, where a missing key has the default value.
  unfoldable pub at_key : K → List (K × V) → V
  at_key k m = elim (lookup dec k m) [ Option.none ↦ default | Option.some v ↦ v ]

  -- `m[k]` adds a missing key with the default value.
  unfoldable pub touch_key : K → List (K × V) → List (K × V)
  touch_key k m = elim (lookup dec k m) [ Option.none ↦ assign dec k default m | Option.some v ↦ m ]

  pub at_key-touch_key : (j k : K) (m : List (K × V)) → at_key j (touch_key k m) ≡ at_key j m
  unfolding at_key touch_key
  at_key-touch_key j k m = elim (Option-cases (lookup dec k m)) [
    | inr (v, there) ↦ ground (arith, there)
    | inl absent ↦ elim (dec j k) [
      | yes e ↦ ground (arith, absent, lookup-assign_self dec k default m)
      | no n ↦ ground (arith, absent, lookup-assign_ne dec k j default m n)
    ]
  ]
