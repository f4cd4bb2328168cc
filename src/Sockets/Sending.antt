-- ===== src/Sockets/Sending.antt =====
-- What `writen` of src/reactorpool/SocketIO.cc sends.
use simple_search_enginer.Prelude.{
  ℕ, zero, suc, ◌+◌, ◌-◌, ◌≤◌, ◌≡◌, refl, sym, ap, ◌∙◌, some, List, [], ◌∷◌, ◌++◌, Bytes, arith,
  length, take, drop, min, dec_lt,
}
use simple_search_enginer.Sockets.Readn.{take-nil}
use simple_search_enginer.Sockets.{Departure, refused, taken, writen_loop, send}

-- How many calls take something.
abbrev pub sends : List Departure → ℕ
sends [] = 0
sends (refused ∷ events) = sends events
sends (taken n ∷ events) = suc (sends events)

take-add : (n m : ℕ) (s : Bytes) → take n s ++ take m (drop n s) ≡ take (n + m) s
take-add zero m s = ap (λ k. take k s) (omega arith)
take-add (suc n) m [] = take-nil m ∙ sym (take-nil (suc n + m))
take-add (suc n) m (c ∷ s) =
    let e : suc (n + m) ≡ suc n + m = omega arith in
    ap (◌∷◌ c) (take-add n m s) ∙ ap (λ k. take k (c ∷ s)) e

take-over : (p : ℕ) (s r : Bytes) → length s ≤ p → take p (s ++ r) ≡ s ++ take (p - length s) r
take-over p [] r h = ap (λ k. take k r) (omega arith)
take-over zero (c ∷ s) r h = absurd (omega arith)
take-over (suc p) (c ∷ s) r h =
    let e : p - length s ≡ suc p - suc (length s) = omega arith in
    ap (◌∷◌ c) (take-over p s r (omega arith) ∙ ap (λ k. s ++ take k r) e)

writen-take :
    (size left : ℕ) (memory : Bytes) (events : List Departure)
    → left ≤ size
    → left ≤ sends events
    → (p : ℕ) × (writen_loop size left memory events ≡ some (take p memory))
      × (left ≤ p)
      × (p ≤ left + (size - 1))
      × (left ≡ 0 → p ≡ 0)
unfolding writen_loop
writen-take size zero memory events fits enough = (0, refl, omega arith, omega arith, λ e. e)
writen-take size (suc left) memory [] fits enough = absurd (omega arith)
writen-take size (suc left) memory (refused ∷ events) fits enough =
    writen-take size (suc left) memory events fits enough
writen-take size (suc left) memory (taken n ∷ events) fits enough =
    let ret = min (suc n) size in
    let (p, e, low, high, none_left) =
      writen-take size (suc left - ret) (drop ret memory) events (omega arith) (omega arith) in
    (
      ret + p,
      rw e (ap some (take-add ret p memory)),
      omega (arith, low),
      elim (dec_lt left ret) [
        | Dec.yes over ↦ omega (arith, none_left (omega arith))
        | Dec.no within ↦ omega (arith, high)
      ],
      λ z. absurd (omega arith),
    )

-- The message is sent whole and in order if as many calls take something as it has bytes; what
-- stands in memory behind it can follow, fewer bytes than the message has.
pub send-whole :
    (msg after : Bytes) (events : List Departure)
    → length msg ≤ sends events
    → (extra : ℕ) × (send msg after events ≡ some (msg ++ take extra after))
      × (extra ≤ length msg - 1)
unfolding send
send-whole msg after events enough =
    let (p, e, low, high, none_left) =
      writen-take (length msg) (length msg) (msg ++ after) events (omega arith) enough in
    (p - length msg, e ∙ ap some (take-over p msg after low), omega (arith, high))
