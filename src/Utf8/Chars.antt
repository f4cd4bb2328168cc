-- ===== src/Utf8/Chars.antt =====
-- A text as its characters, and the lengths that the source counts.
use simple_search_enginer.Prelude.{
  ℕ, zero, suc, ◌+◌, ◌≤◌, ◌<◌, ◌≡◌, refl, ap, inl, inr, some, List, [], ◌∷◌, ◌++◌, arith, Bytes,
  length, take, drop, Option-cases, All, All-map,
}
use simple_search_enginer.Utf8.Lead.{announced, n_bytes_code-announced}
use simple_search_enginer.Utf8.{n_bytes_code?, lead_loop?, length_loop?, length?, next_char}

-- The text splits into these characters, each as long as its first byte announces; the last may
-- be cut off by the end of the text.
pub data Splits : Bytes → List Bytes → Type 0 where
  done : Splits [] []
  char :
      {s c rest : Bytes} {cs : List Bytes}
      → next_char s ≡ some (c, rest)
      → Splits rest cs
      → Splits s (c ∷ cs)

lead_loop?_pos : (b n len m : ℕ) → 1 ≤ len → lead_loop? b n len ≡ some m → 1 ≤ m
unfolding lead_loop?
lead_loop?_pos b zero len m h e = cc
lead_loop?_pos b (suc n) len m h e = ground (arith, lead_loop?_pos b n (len + 1) m)

pub n_bytes_code?_pos : (b m : ℕ) → n_bytes_code? b ≡ some m → 1 ≤ m
unfolding n_bytes_code?
n_bytes_code?_pos b m e = ground (arith, lead_loop?_pos b 6 1 m)

-- Skipping is dropping.
length_loop?_skip : (k : ℕ) (s : Bytes) → length_loop? k s ≡ length_loop? 0 (drop k s)
unfolding length_loop?
length_loop?_skip zero s = refl
length_loop?_skip (suc k) [] = refl
length_loop?_skip (suc k) (c ∷ s) = length_loop?_skip k s

-- The first step of a text that has a first character.
pub next_char_cons :
    (b : ℕ) (s c rest : Bytes)
    → next_char (b ∷ s) ≡ some (c, rest)
    → (n : ℕ) × (n_bytes_code? b ≡ some (suc n)) × (c ≡ b ∷ take n s) × (rest ≡ drop n s)
unfolding next_char
next_char_cons b s c rest e = elim (Option-cases (n_bytes_code? b)) [
  | inl stuck ↦ absurd (ground arith)
  | inr (m, known) ↦ cut m known (n_bytes_code?_pos b m known)
]
  where
    cut :
        (m : ℕ)
        → n_bytes_code? b ≡ some m
        → 1 ≤ m
        → (n : ℕ) × (n_bytes_code? b ≡ some (suc n)) × (c ≡ b ∷ take n s) × (rest ≡ drop n s)
    cut zero known pos = absurd (omega arith)
    cut (suc n) known pos = (n, known, ground arith, ground arith)

-- `MinEditDist::length` counts the characters.
pub length?-Splits : {s : Bytes} {cs : List Bytes} → Splits s cs → length? s ≡ some (length cs)
unfolding length? next_char length_loop?
length?-Splits done = refl
length?-Splits (char {s = []} e split) = cc
length?-Splits (char {s = b ∷ s} {c = c} {rest = rest} e split) =
    let (n, known, _, cut) = next_char_cons b s c rest e in
    ground (arith, known, length_loop?_skip n s, cut, length?-Splits split)

drop_shorter : (n k : ℕ) (s : Bytes) → length s ≤ k → length (drop n s) ≤ k
drop_shorter zero k s h = h
drop_shorter (suc n) k [] h = h
drop_shorter (suc n) k (c ∷ s) h = drop_shorter n k s (omega arith)

drop-All {ℓ} : {A : Type ℓ} (P : A → Type 0) (n : ℕ) (s : List A) → All P s → All P (drop n s)
drop-All P zero s h = h
drop-All P (suc n) [] h = tt
drop-All P (suc n) (c ∷ s) h = drop-All P n s h.1

pub take-append-drop : (n : ℕ) (s : Bytes) → take n s ++ drop n s ≡ s
take-append-drop zero s = refl
take-append-drop (suc n) [] = refl
take-append-drop (suc n) (c ∷ s) = ap (◌∷◌ c) (take-append-drop n s)

abbrev pub concat : List Bytes → Bytes
concat [] = []
concat (c ∷ cs) = c ++ concat cs

Splits-fuel :
    (k : ℕ) (s : Bytes)
    → length s ≤ k
    → All (λ b. (m : ℕ) × (n_bytes_code? b ≡ some m)) s
    → (cs : List Bytes) × Splits s cs
Splits-fuel k [] h g = ([], done)
Splits-fuel zero (b ∷ s) h g = absurd (omega arith)
Splits-fuel (suc k) (b ∷ s) h g =
    let (m, known) = g.0 in
    first m known (n_bytes_code?_pos b m known)
      (λ n. Splits-fuel k (drop n s) (drop_shorter n k s (omega arith)) (drop-All _ n s g.1))
  where
    first :
        (m : ℕ)
        → n_bytes_code? b ≡ some m
        → 1 ≤ m
        → ((n : ℕ) → (cs : List Bytes) × Splits (drop n s) cs)
        → (cs : List Bytes) × Splits (b ∷ s) cs
    first zero known pos rec = absurd (omega arith)
    first (suc n) known pos rec =
        let (cs, split) = rec n in
        (
          (b ∷ take n s) ∷ cs,
          char {s = b ∷ s} {c = b ∷ take n s} {rest = drop n s} (unfold next_char in (rw known))
              split,
        )

-- Any text without the bytes 0xfe and 0xff splits into characters.
Splits-total : (s : Bytes) → All (λ b. b < 0xfe) s → (cs : List Bytes) × Splits s cs
Splits-total s h = Splits-fuel (length s) s (omega arith) (
    All-map (λ b. b < 0xfe) (λ b. (m : ℕ) × (n_bytes_code? b ≡ some m)) s
      (λ b lt. (announced b, (n_bytes_code-announced b (omega arith)).1 lt)) h)

pub concat-Splits : {s : Bytes} {cs : List Bytes} → Splits s cs → concat cs ≡ s
concat-Splits done = refl
concat-Splits (char {s = []} e split) = unfold next_char in cc
concat-Splits (char {s = b ∷ s} {c = c} {rest = rest} {cs = cs} e split) =
    let (n, known, head, cut) = next_char_cons b s c rest e in
    ground (arith, head, cut, take-append-drop n s, concat-Splits split)

-- A text without the bytes 0xfe and 0xff splits into characters that joined give it back, and
-- `MinEditDist::length` returns their number.
pub length?-characters :
    (s : Bytes)
    → All (λ b. b < 0xfe) s
    → (cs : List Bytes) × Splits s cs × (concat cs ≡ s) × (length? s ≡ some (length cs))
length?-characters s h =
    let (cs, split) = Splits-total s h in (cs, split, concat-Splits split, length?-Splits split)
