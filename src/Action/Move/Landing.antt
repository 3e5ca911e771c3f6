-- ===== src/Action/Move/Landing.antt =====
-- internal/app/action/action_move.go: the intent that `resolveMoveToPositionIntent` returns.
use clawvival.Base.{
  ℤ, ◌+ℤ◌, ◌-ℤ◌, pos, ◌≡◌, sym, ap, ◌∙◌, refl, inl, inr, int_laws, Bool, true, false, Option, none,
  some, List, [],
}
use clawvival.Survival.Types.{Position, ActionIntent}
use clawvival.World.Types.{Tile}
use clawvival.Action.Move.{
  Cells, Resolved, refused, resolved, cell_at, passable_at, tile_by_pos, with_origin,
  has_passable_path, by_path, by_tile, resolve_move_to_position_intent,
}
use clawvival.Action.Move.Search.{PathTo}
use clawvival.Action.Move.Paths.{has_passable_path_lem}

-- A move is let through to a position: it goes there, and the position can be walked to.
pub record Lands (origin target : Position) (cells : Cells) (i : ActionIntent) : Type 0 where
  pub lands_x : origin.x +ℤ i.dx ≡ target.x
  pub lands_y : origin.y +ℤ i.dy ≡ target.y
  pub walkable : passable_at cells target ≡ true
  pub path : PathTo (with_origin origin cells) origin target

there_again : (a b : ℤ) → a +ℤ (b -ℤ a) ≡ b
there_again a b = grind int_laws

abbrev dx_of : Resolved → ℤ
dx_of (refused e) = pos 0
dx_of (resolved i) = i.dx

abbrev dy_of : Resolved → ℤ
dy_of (refused e) = pos 0
dy_of (resolved i) = i.dy

by_path-Lands :
    (origin target : Position) (intent i : ActionIntent) (cells : Cells)
    → passable_at cells target ≡ true
    → by_path origin intent target (has_passable_path origin target (with_origin origin cells))
      ≡ resolved i
    → Lands origin target cells i
unfolding by_path
by_path-Lands origin target intent i cells free h =
    elim (has_passable_path_lem origin target (with_origin origin cells)) [
      | inl (finds, path) ↦ record {
        lands_x =
            ap (λ (d : ℤ). origin.x +ℤ d) (sym (ap dx_of (rw finds at h)))
            ∙ there_again origin.x target.x;
        lands_y =
            ap (λ (d : ℤ). origin.y +ℤ d) (sym (ap dy_of (rw finds at h)))
            ∙ there_again origin.y target.y;
        walkable = free;
        path = path;
      }
      | inr (gives_up, _) ↦ absurd (cc (rw gives_up at h))
    ]

by_tile-Lands :
    (origin target : Position) (intent i : ActionIntent) (cells : Cells) (o : Option Bool)
    → cell_at cells target ≡ o
    → by_tile origin intent target cells o ≡ resolved i
    → Lands origin target cells i
unfolding by_tile passable_at
by_tile-Lands origin target intent i cells none e h = absurd (cc h)
by_tile-Lands origin target intent i cells (some false) e h = absurd (cc h)
by_tile-Lands origin target intent i cells (some true) e h =
    by_path-Lands origin target intent i cells (rw e refl) h

-- A move to a position that is let through goes to the position, which is visible and passable, and a
-- path of steps over visible and passable cells leads to it.
pub resolve_move_to_position_intent-Lands :
    (origin target : Position) (intent i : ActionIntent) (tiles : List Tile)
    → resolve_move_to_position_intent origin intent target tiles ≡ resolved i
    → Lands origin target (tile_by_pos tiles []) i
unfolding resolve_move_to_position_intent
resolve_move_to_position_intent-Lands origin target intent i tiles h =
    by_tile-Lands origin target intent i (tile_by_pos tiles []) _ refl h
