-- ===== src/Action/Move/Paths.antt =====
-- internal/app/action/action_move.go: the answer of `hasPassablePath`.
use clawvival.Base.{
  ◌+◌, ◌<◌, ◌≡◌, refl, sym, ◌⊎◌, arith, true, false, Bool-cases, Option-cases, inl, inr, some, List,
  [], ◌∷◌, length,
}
use clawvival.Survival.Types.{Position}
use clawvival.Action.Move.{
  at_pos, Cells, passable_at, seen, east, west, north, south, search, has_passable_path,
}
use clawvival.Action.Move.Measure.{same_pos, at_self, unseen_bound, search_total, unseen}
use clawvival.Action.Move.Search.{
  PathTo, stay, go_east, go_west, go_north, go_south, IsSound, search_sound,
}
use clawvival.Action.Move.Closure.{covered, closed, IsPending, search_closed}

module _ (cells : Cells) (origin target : Position) where
  covers :
      (v : List Position) (n : Position)
      → covered cells target v n ≡ true
      → passable_at cells n ≡ true
      → seen v n ≡ true
  unfolding covered
  covers v n h free = ground (arith, h, free)

  settled_closed :
      (v : List Position) (p : Position)
      → IsPending cells target origin v []
      → seen v p ≡ true
      → closed cells target v p ≡ true
  unfolding seen
  settled_closed v p x h = elim (x.pending p h) [ inl waits ↦ absurd (cc waits) | inr done ↦ done ]

  sides :
      (v : List Position) (p : Position)
      → closed cells target v p ≡ true
      → (covered cells target v (east p) ≡ true)
        × (covered cells target v (west p) ≡ true)
        × (covered cells target v (north p) ≡ true)
        × (covered cells target v (south p) ≡ true)
  unfolding closed
  sides v p h = (ground (arith, h), ground (arith, h), ground (arith, h), ground (arith, h))

  -- A closed set that has the origin has all that a path leads to.
  path_seen :
      (v : List Position) {p : Position}
      → IsPending cells target origin v []
      → PathTo cells origin p
      → seen v p ≡ true
  path_seen v x stay = x.start_in
  path_seen v x (go_east {p} path free) =
      covers v (east p) (sides v p (settled_closed v p x (path_seen v x path))).0 free
  path_seen v x (go_west {p} path free) =
      covers v (west p) (sides v p (settled_closed v p x (path_seen v x path))).1 free
  path_seen v x (go_north {p} path free) =
      covers v (north p) (sides v p (settled_closed v p x (path_seen v x path))).2 free
  path_seen v x (go_south {p} path free) =
      covers v (south p) (sides v p (settled_closed v p x (path_seen v x path))).3 free

  enough : unseen cells (origin ∷ []) + 1 < length cells + 2
  enough = omega (arith, unseen_bound cells (origin ∷ []))

  begin-IsSound :
      IsSound cells origin target
        (record { found = false; visited = origin ∷ []; queue = origin ∷ [] })
  begin-IsSound = record { queued = (stay, tt); on_found = inl refl }

  begin-IsPending :
      at_pos origin target ≡ false → IsPending cells target origin (origin ∷ []) (origin ∷ [])
  unfolding seen
  begin-IsPending apart = record {
    start_in = ground (arith, at_self origin);
    target_out = ground (arith, apart);
    pending = λ p h. inl h;
  }

  no_path :
      at_pos origin target ≡ false
      → search (length cells + 2) cells target false (origin ∷ []) (origin ∷ []) ≡ some false
      → ¬ PathTo cells origin target
  no_path apart gives_up path =
      let (v, x) =
        search_closed cells target (length cells + 2) origin false (origin ∷ []) (origin ∷ [])
          gives_up (inr (begin-IsPending apart)) in
      cc (path_seen v x path, x.target_out)

  searched :
      at_pos origin target ≡ false
      → (search (length cells + 2) cells target false (origin ∷ []) (origin ∷ []) ≡ some true)
          × PathTo cells origin target
        ⊎ (search (length cells + 2) cells target false (origin ∷ []) (origin ∷ []) ≡ some false)
          × ¬ PathTo cells origin target
  searched apart =
      let total =
        search_total (length cells + 2) cells target false (origin ∷ []) (origin ∷ []) enough in
      elim (Option-cases
        (search (length cells + 2) cells target false (origin ∷ []) (origin ∷ []))) [
          | inl stuck ↦ absurd (cc (rw stuck at total))
          | inr (true, finds) ↦ inl (
            finds,
            search_sound cells origin target (length cells + 2) false _ _ begin-IsSound finds,
          )
          | inr (false, gives_up) ↦ inr (gives_up, no_path apart gives_up)
        ]

-- The search always ends with an answer. It finds the target exactly if a path of steps to the four
-- sides leads to it from the origin, each step onto a visible and passable cell.
pub has_passable_path_lem :
    (origin target : Position) (cells : Cells)
    → (has_passable_path origin target cells ≡ some true) × PathTo cells origin target
      ⊎ (has_passable_path origin target cells ≡ some false) × ¬ PathTo cells origin target
unfolding has_passable_path
has_passable_path_lem origin target cells = elim (Bool-cases (at_pos origin target)) [
  | inl here ↦ rw here (inl (refl, rw (sym (same_pos origin target here)) stay))
  | inr apart ↦ rw apart (searched cells origin target apart)
]
