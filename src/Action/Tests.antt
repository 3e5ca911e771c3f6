-- ===== src/Action/Tests.antt =====
-- The theorems on the handlers, at inputs that meet their hypotheses.
use clawvival.Base.{
  ℤ, pos, ◌+ℤ◌, ◌-ℤ◌, ◌≡◌, ◌⊎◌, refl, arith, is_some, true, false, some, List, [], ◌∷◌,
}
use clawvival.Survival.Types.{Position, ActionIntent}
use clawvival.Survival.Samples.{building}
use clawvival.World.Types.{Tile, TileKind, Zone, Biome}
use clawvival.Action.Move.{
  cell_at, resolved, has_passable_path, tile_by_pos, resolve_move_to_position_intent, search,
  expand, look, seen, passable_at, with_origin,
}
use clawvival.Action.Move.Search.{PathTo}
use clawvival.Action.Move.Measure.{unseen_bound, search_total}
use clawvival.Action.Move.Paths.{has_passable_path_lem}
use clawvival.Action.Retreat.{best_retreat_step}
use clawvival.Action.Retreat.Best.{IsChoice, best_retreat_step-IsChoice}
use clawvival.Action.Move.Landing.{Lands, resolve_move_to_position_intent-Lands}

abbrev spot : ℤ → ℤ → Position
spot x y = record { x = x; y = y }

abbrev grass_at : ℤ → ℤ → Tile
grass_at x y = record {
  x = x;
  y = y;
  kind = TileKind.grass;
  zone = Zone.safe;
  biome = Biome.plain;
  passable = true;
  resource = "";
  base_threat = pos 1;
}

-- A wall stands between, with a way around it.
abbrev bend : List Tile
bend =
    grass_at (pos 0) (pos 0)
    ∷ record (grass_at (pos 1) (pos 0)) { passable = false; kind = TileKind.rock }
    ∷ grass_at (pos 0) (pos 1)
    ∷ grass_at (pos 1) (pos 1)
    ∷ grass_at (pos 2) (pos 1)
    ∷ grass_at (pos 2) (pos 0)
    ∷ []

has_passable_path_lem_example :
    (has_passable_path (spot (pos 0) (pos 0)) (spot (pos 2) (pos 0)) (tile_by_pos bend [])
        ≡ some true)
      × PathTo (tile_by_pos bend []) (spot (pos 0) (pos 0)) (spot (pos 2) (pos 0))
    ⊎ (has_passable_path (spot (pos 0) (pos 0)) (spot (pos 2) (pos 0)) (tile_by_pos bend [])
        ≡ some false)
      × ¬ PathTo (tile_by_pos bend []) (spot (pos 0) (pos 0)) (spot (pos 2) (pos 0))
has_passable_path_lem_example =
    has_passable_path_lem (spot (pos 0) (pos 0)) (spot (pos 2) (pos 0)) (tile_by_pos bend [])

search_total_example :
    is_some
      (search 9 (tile_by_pos bend []) (spot (pos 2) (pos 0)) false [] (spot (pos 0) (pos 0) ∷ []))
    ≡ true
search_total_example =
    search_total 9 (tile_by_pos bend []) (spot (pos 2) (pos 0)) false [] (spot (pos 0) (pos 0) ∷ [])
      (unfold tile_by_pos in omega (arith, unseen_bound (tile_by_pos bend []) []))

abbrev moving : ActionIntent
moving = record building { dx = pos 2; dy = pos 0 }

moves :
    resolve_move_to_position_intent (spot (pos 0) (pos 0)) building (spot (pos 2) (pos 0)) bend
    ≡ resolved moving
unfolding resolve_move_to_position_intent with_origin has_passable_path search expand look seen
    passable_at cell_at tile_by_pos ◌+ℤ◌ ◌-ℤ◌
moves = refl

resolve_move_to_position_intent-Lands_example :
    Lands (spot (pos 0) (pos 0)) (spot (pos 2) (pos 0)) (tile_by_pos bend []) moving
resolve_move_to_position_intent-Lands_example =
    resolve_move_to_position_intent-Lands (spot (pos 0) (pos 0)) (spot (pos 2) (pos 0)) building
      moving bend moves

abbrev wolf : Tile
wolf = record (grass_at (pos 2) (pos 1)) { base_threat = pos 4 }

best_retreat_step-IsChoice_example :
    IsChoice (spot (pos 1) (pos 1)) wolf bend (best_retreat_step (spot (pos 1) (pos 1)) wolf bend)
best_retreat_step-IsChoice_example = best_retreat_step-IsChoice (spot (pos 1) (pos 1)) wolf bend
