-- ===== src/Configuration/First.antt =====
-- Which value a key of the configuration file of src/Configrution.cc has.
use simple_search_enginer.Prelude.{
  ◌≡◌, refl, inl, inr, Option, Option-cases, none, some, List, [], ◌∷◌, ◌++◌, Bytes, Bytes_discrete,
  ite, lookup, map, arith,
}
use simple_search_enginer.Configuration.{make_pair, insert_new, config_lines}

-- What the map has, or else what the new entries have.
abbrev or_else : Option Bytes → Option Bytes → Option Bytes
or_else none other = other
or_else (some v) other = some v

lookup-append :
    (k : Bytes) (m : List (Bytes × Bytes)) (e : Bytes × Bytes)
    → lookup Bytes_discrete k (m ++ (e ∷ []))
      ≡ or_else (lookup Bytes_discrete k m) (lookup Bytes_discrete k (e ∷ []))
lookup-append k [] e = refl
lookup-append k (x ∷ m) e = ground (arith, lookup-append k m e)

lookup-insert_new :
    (k : Bytes) (e : Bytes × Bytes) (m : List (Bytes × Bytes))
    → lookup Bytes_discrete k (insert_new e m)
      ≡ or_else (lookup Bytes_discrete k m) (ite (Bytes_discrete e.0 k) (some e.1) none)
unfolding insert_new
lookup-insert_new k e m = elim (Option-cases (lookup Bytes_discrete e.0 m)) [
  | inl absent ↦ ground (arith, absent, lookup-append k m e)
  | inr (v, there) ↦ ground (arith, there)
]

-- A key has the value of the first line that names it, and keeps the value that it had before.
pub config_lines-first :
    (k : Bytes) (ls : List Bytes) (m : List (Bytes × Bytes))
    → lookup Bytes_discrete k (config_lines ls m)
      ≡ or_else (lookup Bytes_discrete k m) (lookup Bytes_discrete k (map make_pair ls))
unfolding config_lines
config_lines-first k [] m = ground arith
config_lines-first k (l ∷ ls) m = ground (
  arith,
  config_lines-first k ls (insert_new (make_pair l) m),
  lookup-insert_new k (make_pair l) m,
)
