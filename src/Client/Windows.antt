-- ===== src/Client/Windows.antt =====
-- What `unpack` of client/clientTest.cc shows.
use simple_search_enginer.Prelude.{
  ℕ, zero, suc, ◌+◌, ◌-◌, ◌≤◌, ◌≡◌, refl, sym, ap, some, List, [], ◌∷◌, ◌++◌, Bytes, arith, All,
  Without, length, take, drop, is_space, Bool-cases, inl, inr, ltb, if◌then◌else◌, get_elem?,
  get_elem?_of_lt,
}
use simple_search_enginer.Client.{
  ClientPage, show_loop, show, next_idx, back_idx, move, page_loop, unpack,
}

-- At most five pages in a row.
pub record IsWindow (pages screen : List ClientPage) : Type 0 where
  pub first : ℕ
  pub same : screen ≡ take (length screen) (drop first pages)
  pub few : length screen ≤ 5
  pub inside : first + length screen ≤ length pages

drop-get :
    (pages : List ClientPage) (i : ℕ) (page : ClientPage)
    → get_elem? pages i ≡ some page
    → drop i pages ≡ page ∷ drop (suc i) pages
drop-get [] i page h = cc
drop-get (p ∷ pages) zero page h = cc
drop-get (p ∷ pages) (suc i) page h = drop-get pages i page h

show_loop-take :
    (rounds i : ℕ) (pages : List ClientPage)
    → i + rounds ≤ length pages
    → (show_loop rounds i pages ≡ some (take rounds (drop i pages)))
      × (length (take rounds (drop i pages)) ≡ rounds)
unfolding show_loop
show_loop-take zero i pages h = (refl, refl)
show_loop-take (suc rounds) i pages h =
    let (page, e) = get_elem?_of_lt pages i (omega arith) in
    let (shown, size) = show_loop-take rounds (suc i) pages (omega arith) in
    let d = drop-get pages i page e in rw (e, shown, d) (refl, ap suc size)

show-IsWindow :
    (idx : ℕ) (pages : List ClientPage)
    → idx ≤ length pages
    → (screen : List ClientPage) × (show idx pages ≡ some screen) × IsWindow pages screen
unfolding show
show-IsWindow idx pages h =
    let first = if ltb idx 5 then 0 else idx - 5 in
    let low : first ≤ idx = ground arith in
    let few : idx - first ≤ 5 = ground arith in
    let (e, size) = show_loop-take (idx - first) first pages (omega arith) in
    (
      take (idx - first) (drop first pages),
      e,
      record {
        first = first;
        same = ap (λ n. take n (drop first pages)) (sym size);
        few = omega arith;
        inside = omega arith;
      },
    )

-- The index stays within the pages.
move-le : (size op idx : ℕ) → idx ≤ size → move size op idx ≤ size
unfolding move next_idx back_idx
move-le size op idx h = ground arith

-- The keys among the bytes that are typed.
abbrev pub keys : Bytes → ℕ
keys [] = 0
keys (c ∷ s) = if is_space c then keys s else suc (keys s)

page_loop-windows :
    (pages : List ClientPage) (idx : ℕ) (before after : Bytes)
    → idx ≤ length pages
    → Without 113 before
    → (screens : List (List ClientPage)) × (page_loop pages idx (before ++ (113 ∷ after))
        ≡ some (screens, drop 1 after))
      × (length screens ≡ suc (keys before))
      × All (IsWindow pages) screens
unfolding page_loop
page_loop-windows pages idx [] after h w =
    let (screen, e, win) = show-IsWindow idx pages h in
    (screen ∷ [], unfold is_space in (rw e refl), refl, (win, tt))
page_loop-windows pages idx (op ∷ before) after h w =
    let (screen, e, win) = show-IsWindow idx pages h in
    let (screens, f, size, wins) =
      page_loop-windows pages (if is_space op then idx else move (length pages) op idx) before after
        (ground (arith, move-le (length pages) op idx h)) w.1 in
    elim (Bool-cases (is_space op)) [
      | inl blank ↦ (screens, rw blank (rw blank at f), rw blank size, wins)
      | inr key ↦
          (screen ∷ screens, ground (arith, key, e, f, w.0), rw key (ap suc size), (win, wins))
    ]

-- Up to the first `q`, each key that is typed makes `unpack` show at most five pages that follow
-- each other, and no index is out of range; it ends at the `q` and leaves what is typed behind the
-- byte after it.
pub unpack-windows :
    (pages : List ClientPage) (before after : Bytes)
    → Without 113 before
    → (screens : List (List ClientPage)) × (unpack pages (before ++ (113 ∷ after))
        ≡ some (screens, drop 1 after))
      × (length screens ≡ suc (keys before))
      × All (IsWindow pages) screens
unfolding unpack next_idx
unpack-windows pages before after w =
    page_loop-windows pages (next_idx (length pages) 0) before after (ground arith) w
