-- ===== src/Prelude/Text.antt =====
-- Text as bytes: `getline` over a whole stream, and loops over the bytes of a line.
use Prim.Native.Nat.{ℕ}
use mathlib.Core.Path.{◌≡◌, refl}
use mathlib.Core.Logic.{◌≢◌}
use mathlib.Core.List.{List, [], ◌∷◌, ◌++◌}
use native.Mathlib.Omega.{arith}
use simple_search_enginer.Prelude.Tests.{if◌then◌else◌, ◌==◌}
use simple_search_enginer.Prelude.Lists.{All}

abbrev newline : ℕ
newline = 10

cons_head : ℕ → List (List ℕ) → List (List ℕ)
cons_head c [] = (c ∷ []) ∷ []
cons_head c (l ∷ ls) = (c ∷ l) ∷ ls

-- The lines that `while (getline(ifs, line))` yields.
unfoldable pub getlines : List ℕ → List (List ℕ)
unfolding cons_head
getlines [] = []
getlines (c ∷ s) = let rest = getlines s in if c == newline then [] ∷ rest else cons_head c rest

-- `for (int i = 0; i < line.size(); ++i)`, one round for each byte.
unfoldable pub each_byte {ℓ} : {S : Type ℓ} → (S → ℕ → S) → S → List ℕ → S
each_byte step s [] = s
each_byte step s (c ∷ cs) = each_byte step (step s c) cs

pub each_byte-append {ℓ} :
    {S : Type ℓ} (step : S → ℕ → S) (s : S) (xs ys : List ℕ)
    → each_byte step s (xs ++ ys) ≡ each_byte step (each_byte step s xs) ys
unfolding each_byte
each_byte-append step s [] ys = refl
each_byte-append step s (x ∷ xs) ys = each_byte-append step (step s x) xs ys

-- The byte does not occur in the text.
abbrev pub Without : ℕ → List ℕ → Type 0
Without b = All (λ c. c ≢ b)

-- A line that holds no newline is read back.
pub getlines-line :
    (l s : List ℕ) → Without newline l → getlines (l ++ (newline ∷ s)) ≡ l ∷ getlines s
unfolding getlines
getlines-line [] s h = refl
getlines-line (c ∷ l) s h = ground (arith, h.0, getlines-line l s h.1)
