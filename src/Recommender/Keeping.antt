-- ===== src/Recommender/Keeping.antt =====
-- The single actions of `updateCache` of src/cache/CacheManager.cc on caches that hold nothing but
-- the dictionary's answers.
use simple_search_enginer.Prelude.{
  ℕ, zero, suc, ◌+◌, ◌≤◌, ◌<◌, ◌≡◌, refl, sym, ap, ◌∙◌, subst, Bool, true, false, Option, some,
  List, [], ◌∷◌, arith, Bytes, set, length, length-set, get_elem?_of_lt, get_elem?-All, All,
  All-append,
}
use simple_search_enginer.Lru.{LruCache}
use simple_search_enginer.Lru.Cells.{length-entries}
use simple_search_enginer.Lru.File.{write_to_file}
use simple_search_enginer.Lru.Invariant.{View, view}
use simple_search_enginer.Lru.Contents.{Holds, stored_all-Holds, reverse-All}
use simple_search_enginer.Lru.Sync.Copies.{
  update_p2m-stored_all, update_m2m-reverse, cleared_if_any,
}
use simple_search_enginer.Manager.Update.{stored_all-capacity}
use simple_search_enginer.Manager.{set_updating, set_both, merge_into, copy_out}
use simple_search_enginer.Manager.Actions
use simple_search_enginer.Manager.Actions.{Action, act, update_actions, round_actions}
use simple_search_enginer.Recommender.{Candidates}
use simple_search_enginer.Recommender.Service.{Service}
use simple_search_enginer.Recommender.Transparency.{IsAnswer, IsCoherent, set-All}

-- An action on a cache other than the main one, of eight.
abbrev pub IsInside : Action → Type 0
IsInside (Actions.raise i) = i < 8
IsInside (Actions.merge i) = i < 8
IsInside (Actions.copy i) = i < 8
IsInside (Actions.lower i) = i < 8
IsInside Actions.save = Unit {0}

round_actions-IsInside :
    (inner : ℕ → Action) (n i : ℕ)
    → ((j : ℕ) → j < 8 → IsInside (inner j))
    → n + i ≤ 8
    → All IsInside (round_actions inner n i)
unfolding round_actions
round_actions-IsInside inner zero i inside h = tt
round_actions-IsInside inner (suc n) i inside h = (
  omega arith,
  (
    inside i (omega arith),
    (omega arith, round_actions-IsInside inner n (suc i) inside (omega arith)),
  ),
)

pub update_actions-IsInside : All IsInside (update_actions 8)
unfolding update_actions
update_actions-IsInside =
    All-append IsInside (round_actions Actions.merge 7 1)
      (Actions.save ∷ round_actions Actions.copy 7 1)
      (round_actions-IsInside Actions.merge 7 1 (λ j h. h) (omega arith))
      (tt, round_actions-IsInside Actions.copy 7 1 (λ j h. h) (omega arith))

module _ (d : Candidates) (n : ℕ) where
  open d use {State, answer}

  -- A cache that holds nothing but answers, of capacity `n`.
  pub record IsKept (s : State) (c : LruCache) : Type 0 where
    pub coherent : IsCoherent d s c
    pub capacity : c.capacity ≡ n

  -- The whole service: eight such caches, whatever the flags, at any point of `updateCache`.
  pub record IsServing (m : Service d) : Type 0 where
    pub kept : All (IsKept m.dic) m.caches
    pub count : length m.caches ≡ 8
    pub inside : All IsInside m.todo

  flag-IsKept :
      (s : State) (b : Bool) (c : LruCache) → IsKept s c → IsKept s (record c { is_updating = b })
  flag-IsKept s b c h = record {
    coherent = record {
      valid = record {
        linked = record {
          proper = h.coherent.valid.proper;
          fresh = h.coherent.valid.fresh;
          agree = h.coherent.valid.agree;
          unique = h.coherent.valid.unique;
          size = h.coherent.valid.size;
        };
        bounded = h.coherent.valid.bounded;
      };
      holds = record { entries = h.coherent.holds.entries; pending = h.coherent.holds.pending };
    };
    capacity = h.capacity;
  }

  -- What an action comes to: no fault, and the caches stay as they should be.
  abbrev pub Keeps : State → List LruCache → Option (List LruCache) → Type 0
  Keeps s caches o =
      (cs : List LruCache) × (o ≡ some cs) × All (IsKept s) cs × (length cs ≡ length caches)

  set_updating-Keeps :
      (s : State) (b : Bool) (i : ℕ) (caches : List LruCache)
      → All (IsKept s) caches
      → i < length caches
      → Keeps s caches (set_updating b i caches)
  unfolding set_updating
  set_updating-Keeps s b i caches all h =
      let (c, at) = get_elem?_of_lt caches i h in
      let kept = get_elem?-All (IsKept s) caches i {a = c} all at in
      let c' = record c { is_updating = b } in
      (
        set caches i c',
        rw (set_updating, at) refl,
        set-All (IsKept s) caches i c' (flag-IsKept s b c kept) all,
        length-set caches i c',
      )

  set_both-Keeps :
      (s : State) (b : Bool) (i : ℕ) (caches : List LruCache)
      → All (IsKept s) caches
      → i < length caches
      → Keeps s caches (set_both b i caches)
  unfolding set_both
  set_both-Keeps s b i caches all h =
      let (cs₁, e₁, all₁, len₁) = set_updating-Keeps s b 0 caches all (omega arith) in
      let (cs₂, e₂, all₂, len₂) = set_updating-Keeps s b i cs₁ all₁ (omega arith) in
      (cs₂, rw (set_both, e₁) e₂, all₂, len₂ ∙ len₁)

  merge_into-Keeps :
      (s : State) (i : ℕ) (caches : List LruCache)
      → All (IsKept s) caches
      → i < length caches
      → Keeps s caches (merge_into i caches)
  unfolding merge_into
  merge_into-Keeps s i caches all h =
      let (main, at) = get_elem?_of_lt caches 0 (omega arith) in
      let (other, at_i) = get_elem?_of_lt caches i h in
      let m = get_elem?-All (IsKept s) caches 0 {a = main} all at in
      let o = get_elem?-All (IsKept s) caches i {a = other} all at_i in
      let (main', other', ran, v, w, seen, seen_o) =
        update_p2m-stored_all main other m.coherent.valid o.coherent.valid in
      let m' : IsKept s main' = record {
        coherent = record {
          valid = v;
          holds = subst (Holds (IsAnswer d s)) (sym seen) (
              stored_all-Holds (IsAnswer d s) other.pending (view main) o.coherent.holds.pending
                m.coherent.holds);
        };
        capacity =
            ap (λ (u : View). u.capacity) seen
            ∙ (stored_all-capacity other.pending (view main)).0
            ∙ m.capacity;
      } in
      let o' : IsKept s other' = record {
        coherent = record {
          valid = w;
          holds =
              subst (Holds (IsAnswer d s)) (sym seen_o)
                (record { entries = o.coherent.holds.entries; pending = tt });
        };
        capacity = ap (λ (u : View). u.capacity) seen_o ∙ o.capacity;
      } in
      (
        set (set caches 0 main') i other',
        rw (merge_into, at, at_i, ran) refl,
        set-All (IsKept s) (set caches 0 main') i other' o'
            (set-All (IsKept s) caches 0 main' m' all),
        length-set (set caches 0 main') i other' ∙ length-set caches 0 main',
      )

  cleared_if_any-All :
      (s : State) (es ps : List (Bytes × List Bytes))
      → All (IsAnswer d s) ps
      → All (IsAnswer d s) (cleared_if_any es ps)
  cleared_if_any-All s [] ps h = h
  cleared_if_any-All s (e ∷ es) ps h = tt

  copy_out-Keeps :
      (s : State) (i : ℕ) (caches : List LruCache)
      → All (IsKept s) caches
      → i < length caches
      → Keeps s caches (copy_out i caches)
  unfolding copy_out
  copy_out-Keeps s i caches all h =
      let (main, at) = get_elem?_of_lt caches 0 (omega arith) in
      let (other, at_i) = get_elem?_of_lt caches i h in
      let m = get_elem?-All (IsKept s) caches 0 {a = main} all at in
      let o = get_elem?-All (IsKept s) caches i {a = other} all at_i in
      let (other', ran, v, seen, _) = update_m2m-reverse other main m.coherent.valid (
        omega (arith, length-entries main.lru, m.coherent.valid.bounded, m.capacity, o.capacity)) in
      let o' : IsKept s other' = record {
        coherent = record {
          valid = v;
          holds = subst (Holds (IsAnswer d s)) (sym seen) (record {
            entries = reverse-All (IsAnswer d s) (view main).entries m.coherent.holds.entries;
            pending =
                cleared_if_any-All s (view main).entries other.pending o.coherent.holds.pending;
          });
        };
        capacity = ap (λ (u : View). u.capacity) seen ∙ o.capacity;
      } in
      (
        set caches i other',
        rw (copy_out, at, at_i, ran) refl,
        set-All (IsKept s) caches i other' o' all,
        length-set caches i other',
      )

  -- Each action of `updateCache`, wherever it stands.
  pub act-Keeps :
      (s : State) (a : Action) (caches : List LruCache) (file : Bytes)
      → All (IsKept s) caches
      → length caches ≡ 8
      → IsInside a
      → (cs : List LruCache) × (file' : Bytes) × (act a (caches, file) ≡ some (cs, file'))
        × All (IsKept s) cs
        × (length cs ≡ length caches)
  unfolding act
  act-Keeps s (Actions.raise i) caches file all len h =
      let (cs, e, all', len') = set_both-Keeps s true i caches all (omega arith) in
      (cs, file, rw e refl, all', len')
  act-Keeps s (Actions.merge i) caches file all len h =
      let (cs, e, all', len') = merge_into-Keeps s i caches all (omega arith) in
      (cs, file, rw e refl, all', len')
  act-Keeps s (Actions.copy i) caches file all len h =
      let (cs, e, all', len') = copy_out-Keeps s i caches all (omega arith) in
      (cs, file, rw e refl, all', len')
  act-Keeps s (Actions.lower i) caches file all len h =
      let (cs, e, all', len') = set_both-Keeps s false i caches all (omega arith) in
      (cs, file, rw e refl, all', len')
  act-Keeps s Actions.save caches file all len h =
      let (main, at) = get_elem?_of_lt caches 0 (omega arith) in
      (caches, write_to_file main, rw at refl, all, refl)
