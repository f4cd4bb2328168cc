-- ===== src/Manager/Rounds.antt =====
-- The two loops of `updateCache` in src/cache/CacheManager.cc, on a main cache and its copies.
use simple_search_enginer.Prelude.{
  suc, ◌≤◌, ◌≡◌, refl, ap, ◌∙◌, Bool, true, false, some, List, [], ◌∷◌, ◌++◌, map, reverse, arith,
  get_elem?, set, length, length-append, All,
}
use simple_search_enginer.Lru.{LruCache}
use simple_search_enginer.Lru.Invariant.{View, view, IsValid}
use simple_search_enginer.Lru.Puts.{stored_all}
use simple_search_enginer.Lru.Sync.{update_p2m, update_m2m}
use simple_search_enginer.Lru.Sync.Copies.{
  update_p2m-stored_all, update_m2m-reverse, cleared_if_any,
}
use simple_search_enginer.Manager.{set_both, merge_round, copy_round, rounds}

module _ {ℓ} {A : Type ℓ} where
  get_elem?-middle : (xs ys : List A) (a : A) → get_elem? (xs ++ (a ∷ ys)) (length xs) ≡ some a
  get_elem?-middle [] ys a = refl
  get_elem?-middle (x ∷ xs) ys a = get_elem?-middle xs ys a

  set-middle : (xs ys : List A) (a b : A) → set (xs ++ (a ∷ ys)) (length xs) b ≡ xs ++ (b ∷ ys)
  set-middle [] ys a b = refl
  set-middle (x ∷ xs) ys a b = ap (◌∷◌ x) (set-middle xs ys a b)

abbrev flagged : Bool → LruCache → LruCache
flagged b c = record c { is_updating = b }

-- The flag has no part in the invariant.
flagged-IsValid : (b : Bool) (c : LruCache) → IsValid c → IsValid (flagged b c)
flagged-IsValid b c v = record {
  linked = record {
    proper = v.proper;
    fresh = v.fresh;
    agree = v.agree;
    unique = v.unique;
    size = v.size;
  };
  bounded = v.bounded;
}

set_both-flagged :
    (b : Bool) (main x : LruCache) (front after : List LruCache)
    → set_both b (suc (length front)) (main ∷ (front ++ (x ∷ after)))
      ≡ some (flagged b main ∷ (front ++ (flagged b x ∷ after)))
unfolding set_both
set_both-flagged b main x front after =
    ground (arith, get_elem?-middle front after x, set-middle front after x (flagged b x))

-- A round on the cache behind `front` changes that cache and the main one.
merge_round_lem :
    (main x : LruCache) (front after : List LruCache) (main' x' : LruCache)
    → update_p2m (flagged true main) (flagged true x) ≡ some (main', x')
    → merge_round (suc (length front)) (main ∷ (front ++ (x ∷ after)))
      ≡ some (flagged false main' ∷ (front ++ (flagged false x' ∷ after)))
unfolding merge_round
merge_round_lem main x front after main' x' ran = ground (
  arith,
  set_both-flagged true main x front after,
  get_elem?-middle front after (flagged true x),
  ran,
  set-middle front after (flagged true x) x',
  set_both-flagged false main' x' front after,
)

copy_round_lem :
    (main x : LruCache) (front after : List LruCache) (x' : LruCache)
    → main.is_updating ≡ false
    → update_m2m (flagged true x) (flagged true main) ≡ some x'
    → copy_round (suc (length front)) (main ∷ (front ++ (x ∷ after)))
      ≡ some (main ∷ (front ++ (flagged false x' ∷ after)))
unfolding copy_round
copy_round_lem main x front after x' idle ran = ground (
  arith,
  set_both-flagged true main x front after,
  get_elem?-middle front after (flagged true x),
  ran,
  set-middle front after (flagged true x) x',
  set_both-flagged false (flagged true main) x' front after,
  idle,
)

snoc_append {ℓ} : {A : Type ℓ} (xs ys : List A) (a : A) → xs ++ (a ∷ ys) ≡ (xs ++ (a ∷ [])) ++ ys
snoc_append [] ys a = refl
snoc_append (x ∷ xs) ys a = ap (◌∷◌ x) (snoc_append xs ys a)

-- The first loop on views: the main cache takes the pending pairs of each copy.
unfoldable pub merged : List LruCache → View → View
merged [] w = w
merged (o ∷ os) w =
    merged os
      (record (stored_all o.pending (record w { is_updating = true })) { is_updating = false })

abbrev pub taken : LruCache → View
taken o = record (view o) { pending = []; is_updating = false }

pub merge_rounds :
    (main : LruCache) (front todo : List LruCache)
    → IsValid main
    → All IsValid todo
    → (main' : LruCache) × (todo' : List LruCache) × (rounds merge_round
          (length todo)
          (suc (length front))
          (main ∷ (front ++ todo))
        ≡ some (main' ∷ (front ++ todo')))
      × IsValid main'
      × All IsValid todo'
      × (view main' ≡ merged todo (view main))
      × (map view todo' ≡ map taken todo)
unfolding rounds merged
merge_rounds main front [] valid valids = (main, [], refl, valid, tt, refl, refl)
merge_rounds main front (x ∷ todo) valid valids =
    let (main₁, x₁, ran, v₁, w₁, seen, seen_x) =
      update_p2m-stored_all (flagged true main) (flagged true x) (flagged-IsValid true main valid)
        (flagged-IsValid true x valids.0) in
    let x₂ = flagged false x₁ in
    let (main', todo', rest, v', vs', seen', seen_todo) =
      merge_rounds (flagged false main₁) (front ++ (x₂ ∷ [])) todo (flagged-IsValid false main₁ v₁)
        valids.1 in
    (
      main',
      x₂ ∷ todo',
      ground (
        arith,
        merge_round_lem main x front todo main₁ x₁ ran,
        rest,
        snoc_append front todo x₂,
        snoc_append front todo' x₂,
        length-append front (x₂ ∷ []),
      ),
      v',
      (flagged-IsValid false x₁ w₁, vs'),
      seen' ∙ ap (λ (w : View). merged todo (record w { is_updating = false })) seen,
      ground (arith, seen_x, seen_todo),
    )

-- A copy that was refilled from the view `w` of the main cache.
abbrev pub copied : View → LruCache → View
copied w o = record (view o) {
  entries = reverse w.entries;
  pending = cleared_if_any w.entries o.pending;
  is_updating = false;
}

-- The second loop leaves the main cache alone.
pub copy_rounds :
    (main : LruCache) (front todo : List LruCache)
    → IsValid main
    → main.is_updating ≡ false
    → All (λ (o : LruCache). length (view main).entries ≤ o.capacity) todo
    → (todo' : List LruCache) × (rounds copy_round
          (length todo)
          (suc (length front))
          (main ∷ (front ++ todo))
        ≡ some (main ∷ (front ++ todo')))
      × All IsValid todo'
      × (map view todo' ≡ map (copied (view main)) todo)
unfolding rounds
copy_rounds main front [] valid idle room = ([], refl, tt, refl)
copy_rounds main front (x ∷ todo) valid idle room =
    let (x₁, ran, v₁, seen, _) =
      update_m2m-reverse (flagged true x) (flagged true main) (flagged-IsValid true main valid)
        room.0 in
    let x₂ = flagged false x₁ in
    let (todo', rest, vs', seen_todo) =
      copy_rounds main (front ++ (x₂ ∷ [])) todo valid idle room.1 in
    (
      x₂ ∷ todo',
      ground (
        arith,
        copy_round_lem main x front todo x₁ idle ran,
        rest,
        snoc_append front todo x₂,
        snoc_append front todo' x₂,
        length-append front (x₂ ∷ []),
      ),
      (flagged-IsValid false x₁ v₁, vs'),
      ground (arith, seen, seen_todo),
    )
