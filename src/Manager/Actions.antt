-- ===== src/Manager/Actions.antt =====
-- `updateCache` of src/cache/CacheManager.cc in the single actions of its thread, between which the
-- threads that answer queries may run.
use simple_search_enginer.Prelude.{
  ℕ, zero, suc, ◌-◌, ◌≡◌, refl, ap, ◌∙◌, inl, inr, Bool, true, false, Option, some, List, [], ◌∷◌,
  ◌++◌, arith, Bytes, get_elem?, set, length, length-set, Option-cases, bind-some, ◌>>=◌,
}
use simple_search_enginer.Lru.{LruCache}
use simple_search_enginer.Lru.Sync.{update_p2m}
use simple_search_enginer.Lru.File.{write_to_file}
use simple_search_enginer.Manager.{
  set_updating, set_both, merge_into, copy_out, merge_round, copy_round, rounds, update_cache,
}

-- The flags of round `i` go up, the caches are brought together, the flags go down.
pub data Action : Type 0 where
  raise : ℕ → Action
  merge : ℕ → Action
  copy : ℕ → Action
  lower : ℕ → Action
  save : Action

-- The caches, and what the cache file holds.
abbrev pub Disk : Type 0
Disk = List LruCache × Bytes

unfoldable pub act : Action → Disk → Option Disk
unfolding merge_into copy_out
act (raise i) (caches, file) = do cs ← set_both true i caches; some (cs, file)
act (merge i) (caches, file) = do cs ← merge_into i caches; some (cs, file)
act (copy i) (caches, file) = do cs ← copy_out i caches; some (cs, file)
act (lower i) (caches, file) = do cs ← set_both false i caches; some (cs, file)
act save (caches, file) = do main ← get_elem? caches 0; some (caches, write_to_file main)

unfoldable pub round_actions : (ℕ → Action) → ℕ → ℕ → List Action
round_actions inner zero i = []
round_actions inner (suc n) i = raise i ∷ inner i ∷ lower i ∷ round_actions inner n (suc i)

-- All actions of one `updateCache` on `n` caches.
unfoldable pub update_actions : ℕ → List Action
unfolding round_actions
update_actions n = round_actions merge (n - 1) 1 ++ (save ∷ round_actions copy (n - 1) 1)

unfoldable pub act_all : List Action → Disk → Option Disk
unfolding act
act_all [] s = some s
act_all (a ∷ rest) s = do s' ← act a s; act_all rest s'

act_all-append :
    (xs ys : List Action) (s : Disk) → act_all (xs ++ ys) s ≡ (act_all xs s >>= act_all ys)
unfolding act_all
act_all-append [] ys s = refl
act_all-append (x ∷ xs) ys s = elim (Option-cases (act x s)) [
  | inl e ↦ rw (act_all, e) refl
  | inr (s', e) ↦ rw (act_all, e) (act_all-append xs ys s')
]

-- A round is its three actions.
merge_round_actions :
    (i : ℕ) (caches : List LruCache) (file : Bytes)
    → act_all (raise i ∷ merge i ∷ lower i ∷ []) (caches, file)
      ≡ (merge_round i caches >>= λ cs. some (cs, file))
unfolding act_all merge_round
merge_round_actions i caches file = ground arith

copy_round_actions :
    (i : ℕ) (caches : List LruCache) (file : Bytes)
    → act_all (raise i ∷ copy i ∷ lower i ∷ []) (caches, file)
      ≡ (copy_round i caches >>= λ cs. some (cs, file))
unfolding act_all copy_round
copy_round_actions i caches file = ground arith

act_rounds :
    (inner : ℕ → Action) (round : ℕ → List LruCache → Option (List LruCache))
    → ((i : ℕ) (cs : List LruCache) (f : Bytes)
        → act_all (raise i ∷ inner i ∷ lower i ∷ []) (cs, f)
          ≡ (round i cs >>= λ cs'. some (cs', f)))
    → (n i : ℕ) (caches : List LruCache) (file : Bytes)
    → act_all (round_actions inner n i) (caches, file)
      ≡ (rounds round n i caches >>= λ cs. some (cs, file))
unfolding act_all round_actions rounds
act_rounds inner round same zero i caches file = refl
act_rounds inner round same (suc n) i caches file =
    act_all-append (raise i ∷ inner i ∷ lower i ∷ []) (round_actions inner n (suc i)) (caches, file)
    ∙ ap (◌>>= act_all (round_actions inner n (suc i))) (same i caches file)
    ∙ elim (Option-cases (round i caches)) [
      | inl e ↦ rw e refl
      | inr (cs, e) ↦ rw e (act_rounds inner round same n (suc i) cs file)
    ]

set_updating-length :
    (b : Bool) (i : ℕ) (caches cs : List LruCache)
    → set_updating b i caches ≡ some cs
    → length cs ≡ length caches
unfolding set_updating
set_updating-length b i caches cs e =
    let (c, _, e₁) = bind-some (get_elem? caches i) _ e in
    ground (arith, e₁, length-set caches i (record c { is_updating = b }))

pub set_both-length :
    (b : Bool) (i : ℕ) (caches cs : List LruCache)
    → set_both b i caches ≡ some cs
    → length cs ≡ length caches
unfolding set_both
set_both-length b i caches cs e =
    let (cs₁, e₁, e₂) = bind-some (set_updating b 0 caches) _ e in
    set_updating-length b i cs₁ cs e₂ ∙ set_updating-length b 0 caches cs₁ e₁

merge_into-length :
    (i : ℕ) (caches cs : List LruCache) → merge_into i caches ≡ some cs → length cs ≡ length caches
unfolding merge_into
merge_into-length i caches cs e =
    let (main, _, e₁) = bind-some (get_elem? caches 0) _ e in
    let (other, _, e₂) = bind-some (get_elem? caches i) _ e₁ in
    let ((main', other'), _, e₃) = bind-some (update_p2m main other) _ e₂ in
    ground (arith, e₃, length-set (set caches 0 main') i other', length-set caches 0 main')

merge_rounds-length :
    (n i : ℕ) (caches cs : List LruCache)
    → rounds merge_round n i caches ≡ some cs
    → length cs ≡ length caches
unfolding rounds merge_round
merge_rounds-length zero i caches cs e = ground (arith, e)
merge_rounds-length (suc n) i caches cs e =
    let (cs', ran, e') = bind-some (merge_round i caches) _ e in
    let (cs₁, raised, e₁) = bind-some (set_both true i caches) _ ran in
    let (cs₂, merged, lowered) = bind-some (merge_into i cs₁) _ e₁ in
    merge_rounds-length n (suc i) cs' cs e'
    ∙ set_both-length false i cs₂ cs' lowered
    ∙ merge_into-length i cs₁ cs₂ merged
    ∙ set_both-length true i caches cs₁ raised

-- The actions of `update_actions`, one after the other, are `updateCache`: the same caches and the same
-- file, whatever the file held before, and a fault in the one is a fault in the other.
act_all-update_actions :
    (caches : List LruCache) (file : Bytes)
    → act_all (update_actions (length caches)) (caches, file) ≡ update_cache caches
unfolding update_actions update_cache act_all
act_all-update_actions caches file =
    act_all-append (round_actions merge (length caches - 1) 1) _ (caches, file)
    ∙ ap (◌>>= act_all (save ∷ round_actions copy (length caches - 1) 1))
        (act_rounds merge merge_round merge_round_actions (length caches - 1) 1 caches file)
    ∙ elim (Option-cases (rounds merge_round (length caches - 1) 1 caches)) [
      | inl e ↦ rw (update_cache, e) refl
      | inr (cs, e) ↦
          let len = merge_rounds-length (length caches - 1) 1 caches cs e in
          elim (Option-cases (get_elem? cs 0)) [
            | inl none_there ↦ ground (arith, e, none_there)
            | inr (main, there) ↦ ground (
              arith,
              e,
              there,
              len,
              act_rounds copy copy_round copy_round_actions (length caches - 1) 1 cs
                  (write_to_file main),
            )
          ]
    ]
