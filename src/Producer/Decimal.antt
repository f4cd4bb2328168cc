-- ===== src/Producer/Decimal.antt =====
-- Numbers written and read back: `operator<<` against `std::stoi`.
use simple_search_enginer.Prelude.{
  ℕ, zero, suc, ◌+◌, ◌/◌, ◌%◌, ◌≤◌, ◌<◌, ◌≡◌, ◌≢◌, refl, sym, ap, ◌∙◌, subst, dec_lt, some, [], ◌∷◌,
  Bytes, arith, All, ℤ, pos, negsuc, stoi, digits, unsigned, signed, positive, negative,
  skip_spaces, is_space, is_digit, Without, All-map,
}
use simple_search_enginer.Producer.{decimal, decimal_before}

abbrev pub IsDigit : ℕ → Type 0
IsDigit c = (48 ≤ c) × (c ≤ 57)

decimal_before-digits :
    (fuel n : ℕ) (after : Bytes)
    → n < fuel
    → digits 0 (decimal_before fuel n after) ≡ digits n after
unfolding decimal_before digits is_digit
decimal_before-digits zero n after h = absurd (omega arith)
decimal_before-digits (suc fuel) n after h =
    ground (arith, decimal_before-digits fuel (n / 10) ((48 + n % 10) ∷ after))

pub decimal_before-IsDigit :
    (fuel n : ℕ) (after : Bytes)
    → n < fuel
    → All IsDigit after
    → (c : ℕ) × (s : Bytes) × (decimal_before fuel n after ≡ c ∷ s) × IsDigit c × All IsDigit s
unfolding decimal_before
decimal_before-IsDigit zero n after h all = absurd (omega arith)
decimal_before-IsDigit (suc fuel) n after h all = elim (dec_lt n 10) [
  | yes small ↦ (48 + n, after, ground arith, (omega arith, omega arith), all)
  | no large ↦
      let (c, s, e, head, rest) =
        decimal_before-IsDigit fuel (n / 10) ((48 + n % 10) ∷ after) (omega arith)
          ((omega arith, omega arith), all) in
      (c, s, ground (arith, e), head, rest)
]

pub decimal_nonempty : (n : ℕ) → (c : ℕ) × (s : Bytes) × (decimal (pos n) ≡ c ∷ s)
unfolding decimal
decimal_nonempty n =
    let (c, s, e, _, _) = decimal_before-IsDigit (suc n) n [] (omega arith) tt in (c, s, e)

pub decimal-IsDigit : (n : ℕ) → All IsDigit (decimal (pos n))
unfolding decimal
decimal-IsDigit n =
    let (c, s, e, head, rest) = decimal_before-IsDigit (suc n) n [] (omega arith) tt in
    subst (All IsDigit) (sym e) (head, rest)

-- The value fits a 32-bit `int`.
abbrev pub FitsInt : ℤ → Type 0
FitsInt (pos n) = n < 2147483648
FitsInt (negsuc n) = n < 2147483648

pub unsigned-decimal : (n : ℕ) → unsigned (decimal_before (suc n) n []) ≡ some n
unfolding unsigned is_digit
unsigned-decimal n =
    let (c, s, e, head, _) = decimal_before-IsDigit (suc n) n [] (omega arith) tt in
    let value : digits 0 (c ∷ s) ≡ n =
      ap (digits 0) (sym e) ∙ decimal_before-digits (suc n) n [] (omega arith) in
    ground (arith, e, value)

positive-unsigned : (c : ℕ) (s : Bytes) → IsDigit c → stoi (c ∷ s) ≡ positive (unsigned (c ∷ s))
unfolding stoi skip_spaces is_space signed
positive-unsigned c s h = ground arith

-- A number that was written is read back.
pub stoi-decimal : (z : ℤ) → FitsInt z → stoi (decimal z) ≡ some z
unfolding decimal positive negative
stoi-decimal (pos n) h =
    let (c, s, e, head, _) = decimal_before-IsDigit (suc n) n [] (omega arith) tt in
    ap stoi e
    ∙ positive-unsigned c s head
    ∙ ap (λ u. positive (unsigned u)) (sym e)
    ∙ ground (arith, unsigned-decimal n)
stoi-decimal (negsuc n) h =
    unfold stoi in
    (unfold skip_spaces in
      (unfold is_space in (unfold signed in (ground (arith, unsigned-decimal (suc n))))))

-- A blank before a number is skipped.
pub stoi-blank : (s : Bytes) → stoi (32 ∷ s) ≡ stoi s
unfolding stoi skip_spaces is_space
stoi-blank s = refl

digits-Without : (b : ℕ) (s : Bytes) → b < 45 → All IsDigit s → Without b s
digits-Without b s h all = All-map IsDigit (λ c. c ≢ b) s (λ c d. ground arith) all

-- A written number holds no blank and no newline.
pub decimal-Without : (b : ℕ) (z : ℤ) → b < 45 → Without b (decimal z)
unfolding decimal
decimal-Without b (pos n) h =
    let (c, s, e, head, rest) = decimal_before-IsDigit (suc n) n [] (omega arith) tt in
    subst (Without b) (sym e) (ground arith, digits-Without b s h rest)
decimal-Without b (negsuc n) h =
    let (c, s, e, head, rest) = decimal_before-IsDigit (suc (suc n)) (suc n) [] (omega arith) tt in
    (ground arith, subst (Without b) (sym e) (ground arith, digits-Without b s h rest))
