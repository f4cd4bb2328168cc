-- ===== src/Lru/Reversal.antt =====
-- Putting entries one after the other into a cache turns their order round.
use simple_search_enginer.Prelude.{
  ◌+◌, ◌≤◌, ◌≡◌, refl, ◌≢◌, ap, ◌∙◌, none, some, List, [], ◌∷◌, ◌++◌, reverse, arith, Bytes,
  Bytes_discrete, lookup, erase_absent, Distinct, absent-All, length, All, take_of_length-le,
}
use mathlib.Core.List.{reverse-cons, append_assoc}
use simple_search_enginer.Lru.{Cell}
use simple_search_enginer.Lru.Cells.{IsProper, entries, lookup-entries_none}
use simple_search_enginer.Lru.Invariant.{View, stored}
use simple_search_enginer.Lru.Puts.{stored_all}

abbrev pub Entry : Type 0
Entry = Bytes × List Bytes

-- The entries of a proper list have distinct keys.
pub entries-Distinct : (cs : List Cell) → IsProper cs → Distinct Bytes_discrete (entries cs)
entries-Distinct [] p = tt
entries-Distinct (c ∷ cs) p = (lookup-entries_none c.key cs p.0, entries-Distinct cs p.2)

pub reverse_cons_append :
    (e : Entry) (es fs : List Entry) → reverse (e ∷ es) ++ fs ≡ reverse es ++ (e ∷ fs)
reverse_cons_append e es fs =
    ap (λ xs. xs ++ fs) (reverse-cons e es) ∙ append_assoc (reverse es) (e ∷ []) fs

-- The keys of the entries are not among those of the other list.
abbrev pub Absent : List Entry → List Entry → Type 0
Absent es fs = All (λ (e : Entry). lookup Bytes_discrete e.0 fs ≡ none) es

Absent-cons :
    (k : Bytes) (v : List Bytes) (es fs : List Entry)
    → All (λ (e : Entry). e.0 ≢ k) es
    → Absent es fs
    → Absent es ((k, v) ∷ fs)
Absent-cons k v [] fs h a = tt
Absent-cons k v (e ∷ es) fs h a = (ground (arith, h.0, a.0), Absent-cons k v es fs h.1 a.1)

-- The rest of a list of new entries is new after the first is stored.
pub Absent-next :
    (k : Bytes) (v : List Bytes) (es fs : List Entry)
    → Distinct Bytes_discrete ((k, v) ∷ es)
    → Absent ((k, v) ∷ es) fs
    → Absent es ((k, v) ∷ fs)
Absent-next k v es fs d a = Absent-cons k v es fs (absent-All Bytes_discrete k es d.0) a.1

pub Absent-nil : (es : List Entry) → Absent es []
Absent-nil [] = tt
Absent-nil (e ∷ es) = (refl, Absent-nil es)

-- A new pair goes to the front of both lists where there is room.
pub stored_new :
    (k : Bytes) (v : List Bytes) (w : View)
    → lookup Bytes_discrete k w.entries ≡ none
    → length w.entries + 1 ≤ w.capacity
    → stored k v w ≡ record w { entries = (k, v) ∷ w.entries; pending = (k, v) ∷ w.pending }
unfolding stored
stored_new k v w new room = ground (
  arith,
  erase_absent Bytes_discrete k w.entries,
  take_of_length-le w.capacity ((k, v) ∷ w.entries),
)

-- What a run of `put` of new keys leaves, where nothing has to go.
pub stored_all-reverse :
    (es : List Entry) (w : View)
    → Absent es w.entries
    → Distinct Bytes_discrete es
    → length es + length w.entries ≤ w.capacity
    → stored_all es w
      ≡ record w { entries = reverse es ++ w.entries; pending = reverse es ++ w.pending }
unfolding stored_all
stored_all-reverse [] w new d room = refl
stored_all-reverse ((k, v) ∷ es) w new d room =
    ap (stored_all es) (stored_new k v w new.0 (omega arith))
    ∙ stored_all-reverse es _ (Absent-next k v es w.entries d new) d.1 (omega arith)
    ∙ ground
        (arith, reverse_cons_append (k, v) es w.entries, reverse_cons_append (k, v) es w.pending)

lookup-append :
    (k : Bytes) (es fs : List Entry)
    → lookup Bytes_discrete k (es ++ fs)
      ≡ elim (lookup Bytes_discrete k es) [ none ↦ lookup Bytes_discrete k fs | some v ↦ some v ]
lookup-append k [] fs = refl
lookup-append k ((j, w) ∷ es) fs = ground (arith, lookup-append k es fs)

-- With distinct keys the order makes no difference to what is found.
pub lookup-reverse :
    (k : Bytes) (es : List Entry)
    → Distinct Bytes_discrete es
    → lookup Bytes_discrete k (reverse es) ≡ lookup Bytes_discrete k es
lookup-reverse k [] d = refl
lookup-reverse k ((j, w) ∷ es) d =
    ap (lookup Bytes_discrete k) (reverse-cons (j, w) es)
    ∙ ground (arith, lookup-reverse k es d.1, lookup-append k (reverse es) ((j, w) ∷ []))
