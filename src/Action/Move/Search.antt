-- ===== src/Action/Move/Search.antt =====
-- internal/app/action/action_move.go: paths, and what `hasPassablePath` queues.
use clawvival.Base.{
  ℕ, zero, suc, ◌≡◌, refl, sym, ◌⊎◌, arith, Bool, true, false, not, ◌||◌, Bool-cases, inl, inr,
  some, List, [], ◌∷◌, All, All-append,
}
use clawvival.Survival.Types.{Position}
use clawvival.Action.Move.{
  at_pos, Cells, passable_at, seen, Frontier, look, expand, east, west, north, south, search,
}
use clawvival.Action.Move.Measure.{same_pos}

-- A path of steps to the four sides, each onto a passable cell.
pub data PathTo (cells : Cells) (origin : Position) : Position → Type 0 where
  stay : PathTo cells origin origin
  go_east :
      {p : Position}
      → PathTo cells origin p
      → passable_at cells (east p) ≡ true
      → PathTo cells origin (east p)
  go_west :
      {p : Position}
      → PathTo cells origin p
      → passable_at cells (west p) ≡ true
      → PathTo cells origin (west p)
  go_north :
      {p : Position}
      → PathTo cells origin p
      → passable_at cells (north p) ≡ true
      → PathTo cells origin (north p)
  go_south :
      {p : Position}
      → PathTo cells origin p
      → passable_at cells (south p) ≡ true
      → PathTo cells origin (south p)

free_passable : (a b c : Bool) → (a || b || not c) ≡ false → c ≡ true
free_passable a b c h = ground arith

module _ (cells : Cells) (origin target : Position) where
  -- All that is queued can be reached, and so can the target once it is found.
  pub record IsSound (s : Frontier) : Type 0 where
    pub queued : All (PathTo cells origin) s.queue
    pub on_found : (s.found ≡ false) ⊎ PathTo cells origin target

  look-IsSound :
      (n : Position) (s : Frontier)
      → (passable_at cells n ≡ true → PathTo cells origin n)
      → IsSound s
      → IsSound (look cells target n s)
  unfolding look
  look-IsSound n s reach x =
      elim (Bool-cases (s.found || seen s.visited n || not (passable_at cells n))) [
        | inl skip ↦ rw skip x
        | inr free ↦ elim (Bool-cases (at_pos n target)) [
          | inl hit ↦
              rw (free, hit)
                (record {
                  queued = x.queued;
                  on_found = inr (
                      rw (sym (same_pos n target hit)) (
                        reach
                          (free_passable s.found (seen s.visited n) (passable_at cells n) free)));
                })
          | inr miss ↦
              rw (free, miss)
                (record {
                  queued = All-append (PathTo cells origin) s.queue (n ∷ []) x.queued (
                    reach (free_passable s.found (seen s.visited n) (passable_at cells n) free),
                    tt,
                  );
                  on_found = x.on_found;
                })
        ]
      ]

  expand-IsSound :
      (cur : Position) (s : Frontier)
      → PathTo cells origin cur
      → IsSound s
      → IsSound (expand cells target cur s)
  unfolding expand
  expand-IsSound cur s p x = look-IsSound (south cur) _ (go_south p) (
      look-IsSound (north cur) _ (go_north p)
        (look-IsSound (west cur) _ (go_west p) (look-IsSound (east cur) s (go_east p) x)))

  pub search_sound :
      (fuel : ℕ) (found : Bool) (v q : List Position)
      → IsSound (record { found = found; visited = v; queue = q })
      → search fuel cells target found v q ≡ some true
      → PathTo cells origin target
  unfolding search
  search_sound zero found v q x h = absurd (cc h)
  search_sound (suc fuel) true v q x h = elim x.on_found [ inl lost ↦ absurd (cc lost) | inr p ↦ p ]
  search_sound (suc fuel) false v [] x h = absurd (cc h)
  search_sound (suc fuel) false v (cur ∷ q) x h =
      let s : Frontier = record { found = false; visited = v; queue = q } in
      let s' = expand cells target cur s in
      search_sound fuel s'.found s'.visited s'.queue
        (expand-IsSound cur s x.queued.0 (record { queued = x.queued.1; on_found = inl refl })) h
