-- ===== src/Utf8/Lead.antt =====
-- `nBytesCode` on every byte: the two versions of the source against the UTF-8 lead bytes.
use simple_search_enginer.Prelude.{
  ℕ, zero, suc, ◌+◌, ◌≤◌, ◌<◌, ◌≡◌, refl, Bool, true, false, Option, none, some, arith, ltb, ◌==◌,
  if◌then◌else◌,
}
use simple_search_enginer.Utf8.{n_bytes_code?, n_bytes_code}

-- The test on the given number of bytes, from the byte `b` on.
every_byte : (ℕ → Bool) → ℕ → ℕ → Bool
every_byte test zero b = true
every_byte test (suc left) b =
    let others = every_byte test left (b + 1) in if test b then others else false

every_byte-at :
    (test : ℕ → Bool) (left b d : ℕ)
    → d < left
    → every_byte test left b ≡ true
    → test (b + d) ≡ true
unfolding every_byte
every_byte-at test zero b d h e = absurd (omega arith)
every_byte-at test (suc left) b zero h e = ground arith
every_byte-at test (suc left) b (suc d) h e = ground (arith, every_byte-at test left (b + 1) d)

-- The length that a lead byte announces: continuation bytes count as one byte, and the bytes
-- 0xfe and 0xff as seven.
unfoldable pub announced : ℕ → ℕ
announced b =
    if ltb b 0xc0
    then 1
    else if ltb b 0xe0
    then 2
    else if ltb b 0xf0
    then 3
    else if ltb b 0xf8
    then 4
    else if ltb b 0xfc
    then 5
    else if ltb b 0xfe
    then 6
    else 7

same_option : Option ℕ → Option ℕ → Bool
same_option none none = true
same_option (some a) (some b) = a == b
same_option _ _ = false

same_option_eq : (a b : Option ℕ) → same_option a b ≡ true → a ≡ b
unfolding same_option
same_option_eq none none h = refl
same_option_eq (some a) (some b) h = ground arith
same_option_eq none (some b) h = cc
same_option_eq (some a) none h = cc

table : every_byte (λ b. n_bytes_code b == announced b) 256 0 ≡ true
unfolding every_byte n_bytes_code announced
table = refl

table? :
    every_byte
      (λ b. same_option (n_bytes_code? b) (if ltb b 0xfe then some (announced b) else none))
      256
      0
    ≡ true
unfolding every_byte n_bytes_code? announced same_option
table? = refl

-- `Dictionary` and `WebPageSearcher` give every byte the length that it announces as a UTF-8 lead
-- byte. `MinEditDist` gives the same up to 0xfd, and has no result for 0xfe and 0xff.
pub n_bytes_code-announced :
    (b : ℕ)
    → b < 256
    → (n_bytes_code b ≡ announced b)
      × (b < 0xfe → n_bytes_code? b ≡ some (announced b))
      × (0xfe ≤ b → n_bytes_code? b ≡ none)
n_bytes_code-announced b h =
    let e = every_byte-at _ 256 0 b h table in
    let f = same_option_eq _ _ (every_byte-at _ 256 0 b h table?) in
    (ground (arith, e), λ lo. ground (arith, f), λ hi. ground (arith, f))

pub announced_pos : (b : ℕ) → (1 ≤ announced b) × (announced b ≤ 7)
unfolding announced
announced_pos b = ground arith
