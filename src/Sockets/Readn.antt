-- ===== src/Sockets/Readn.antt =====
-- What `readn` of src/reactorpool/SocketIO.cc reads.
use simple_search_enginer.Prelude.{
  ℕ, zero, suc, ◌+◌, ◌-◌, ◌≤◌, ◌≡◌, refl, sym, ap, ◌∙◌, some, List, [], ◌∷◌, ◌++◌, Bytes, arith,
  All, length, length-drop, take, drop, min,
}
use simple_search_enginer.Sockets.{Arrival, closed, interrupted, failed, ready, found, readn}

-- The connection stays open: a call is interrupted or finds something.
abbrev pub IsOpen : Arrival → Type 0
IsOpen closed = ⊥
IsOpen interrupted = Unit
IsOpen failed = ⊥
IsOpen (ready n) = Unit

-- How many calls find something.
abbrev pub calls : List Arrival → ℕ
calls [] = 0
calls (closed ∷ events) = calls events
calls (interrupted ∷ events) = calls events
calls (failed ∷ events) = calls events
calls (ready n ∷ events) = suc (calls events)

pub length-take-min : (n : ℕ) (s : Bytes) → length (take n s) ≡ min n (length s)
length-take-min zero s = omega arith
length-take-min (suc n) [] = omega arith
length-take-min (suc n) (c ∷ s) = omega (arith, length-take-min n s)

-- A call that finds something finds at least one byte, and no more than was asked for.
pub length-found :
    (n left : ℕ) (b : ℕ) (s : Bytes)
    → (1 ≤ length (found n (suc left) (b ∷ s)))
      × (length (found n (suc left) (b ∷ s)) ≤ suc left)
      × (length (found n (suc left) (b ∷ s)) ≤ length (b ∷ s))
unfolding found
length-found n left b s =
    let e = length-take-min (min (suc n) (suc left)) (b ∷ s) in
    (omega (arith, e), omega (arith, e), omega (arith, e))

pub drop-le : (n : ℕ) (s : Bytes) → length (drop n s) + n ≡ length s + (n - length s)
drop-le zero s = omega arith
drop-le (suc n) [] = omega arith
drop-le (suc n) (c ∷ s) = omega (arith, drop-le n s)

pub take-nil : (n : ℕ) → take {A = ℕ} n [] ≡ []
take-nil zero = refl
take-nil (suc n) = refl

drop-nil : (n : ℕ) → drop {A = ℕ} n [] ≡ []
drop-nil zero = refl
drop-nil (suc n) = refl

take-take-length :
    (n m : ℕ) (s : Bytes)
    → n ≤ m
    → take (length (take n s)) s ++ take (m - length (take n s)) (drop (length (take n s)) s)
      ≡ take m s
take-take-length zero m s h = ap (λ k. take k s) (omega arith)
take-take-length (suc n) (suc m) [] h = take-nil (suc m - 0)
take-take-length (suc n) (suc m) (c ∷ s) h = ap (◌∷◌ c) (
    ap (λ k. take (length (take n s)) s ++ take k (drop (length (take n s)) s)) (omega arith)
    ∙ take-take-length n m s (omega arith))
take-take-length (suc n) zero s h = absurd (omega arith)

pub drop-drop : (n m : ℕ) (s : Bytes) → drop m (drop n s) ≡ drop (n + m) s
drop-drop zero m s = ap (λ k. drop k s) (omega arith)
drop-drop (suc n) m [] = drop-nil m ∙ sym (drop-nil (suc n + m))
drop-drop (suc n) m (c ∷ s) =
    let e : suc (n + m) ≡ suc n + m = omega arith in drop-drop n m s ∙ ap (λ k. drop k (c ∷ s)) e

take-length-take : (n : ℕ) (s : Bytes) → take (length (take n s)) s ≡ take n s
take-length-take zero s = refl
take-length-take (suc n) [] = refl
take-length-take (suc n) (c ∷ s) = ap (◌∷◌ c) (take-length-take n s)

-- A connection that stays open gives `n` of the bytes sent, and `left` are the events that remain.
pub record Reads (n : ℕ) (incoming : Bytes) (events left : List Arrival) : Type 0 where
  pub result :
      readn n incoming events
      ≡ some (record { got = take n incoming; incoming = drop n incoming; events = left })
  pub opened : All IsOpen left
  pub shorter : length left ≤ length events
  pub spent : calls events ≤ calls left + n

found-take :
    (k n : ℕ) (b : ℕ) (s : Bytes)
    → (found k (suc n) (b ∷ s)
          ++ take
              (suc n - length (found k (suc n) (b ∷ s)))
              (drop (length (found k (suc n) (b ∷ s))) (b ∷ s))
        ≡ take (suc n) (b ∷ s))
      × (drop
            (suc n - length (found k (suc n) (b ∷ s)))
            (drop (length (found k (suc n) (b ∷ s))) (b ∷ s))
          ≡ drop (suc n) (b ∷ s))
unfolding found
found-take k n b s =
    let m = min (suc k) (suc n) in
    let l = length (take m (b ∷ s)) in
    let e : l + (suc n - l) ≡ suc n = omega (arith, length-take-min m (b ∷ s)) in
    (
      ap (◌++ take (suc n - l) (drop l (b ∷ s))) (sym (take-length-take m (b ∷ s)))
          ∙ take-take-length m (suc n) (b ∷ s) (omega arith),
      drop-drop l (suc n - l) (b ∷ s) ∙ ap (λ x. drop x (b ∷ s)) e,
    )

-- The bytes that are asked for are got, however the calls of `recv` cut them.
pub readn-Reads :
    (n : ℕ) (incoming : Bytes) (events : List Arrival)
    → n ≤ length incoming
    → All IsOpen events
    → n ≤ calls events
    → (left : List Arrival) × Reads n incoming events left
unfolding readn found
readn-Reads zero incoming events fits op enough =
    (events, record { result = refl; opened = op; shorter = omega arith; spent = omega arith })
readn-Reads (suc n) incoming [] fits op enough = absurd (omega arith)
readn-Reads (suc n) incoming (closed ∷ events) fits op enough = absurd op.0
readn-Reads (suc n) incoming (failed ∷ events) fits op enough = absurd op.0
readn-Reads (suc n) incoming (interrupted ∷ events) fits op enough =
    let (left, r) = readn-Reads (suc n) incoming events fits op.1 enough in
    (
      left,
      record {
        result = r.result;
        opened = r.opened;
        shorter = omega (arith, r.shorter);
        spent = r.spent;
      },
    )
readn-Reads (suc n) [] (ready k ∷ events) fits op enough = absurd (omega arith)
readn-Reads (suc n) (b ∷ s) (ready k ∷ events) fits op enough =
    let few : (1 ≤ length (found k (suc n) (b ∷ s)))
        × (length (found k (suc n) (b ∷ s)) ≤ suc n)
        × (length (found k (suc n) (b ∷ s)) ≤ length (b ∷ s)) =
      length-found k n b s in
    let m = length (found k (suc n) (b ∷ s)) in
    let (left, r) =
      readn-Reads (suc n - m) (drop m (b ∷ s)) events
        (omega (arith, length-drop m (b ∷ s), fits, few.2)) op.1 (omega (arith, few.0, enough)) in
    (
      left,
      record {
        result = rw r.result (cc ((found-take k n b s).0, (found-take k n b s).1));
        opened = r.opened;
        shorter = omega (arith, r.shorter);
        spent = omega (arith, r.spent, few.0, few.1);
      },
    )
