-- ===== src/Observe/Tests.antt =====
-- The theorem on the observation, at an input that meets its hypotheses.
use clawvival.Base.{◌≡◌, refl, inl, inr, sym, ◌∙◌, pos, true, false, some, [], ◌∷◌, Has, ◌+ℤ◌, ◌-ℤ◌}
use clawvival.Base.Dict.{lookup}
use clawvival.Survival.State.{count_of}
use clawvival.Base.Text.{normal}
use clawvival.Survival.Types.{ActionType, ActionIntent, Position}
use clawvival.Survival.Samples.{building}
use clawvival.World.Types.{TileKind, Zone, Biome, Tile, Snapshot}
use clawvival.Ports.{returned}
use clawvival.Engine.Context.{zero_snapshot}
use clawvival.Engine.Checks.{validate_target_visibility}
use clawvival.Observe.{
  ObservedResource, project_resources, build_window_tiles, build_resource_target_id, visible_by_pos,
  numbers_from,
}
use clawvival.Observe.Gatherable.{OneEach, project_resources-reach}

abbrev wood_tile : Tile
wood_tile = record {
  x = pos 1;
  y = pos 0;
  kind = TileKind.tree;
  zone = Zone.forest;
  biome = Biome.forest;
  passable = true;
  resource = "wood";
  base_threat = pos 1;
}

abbrev clearing : Snapshot
clearing = record zero_snapshot {
  time_of_day = "night";
  view_radius = pos 5;
  visible_tiles = wood_tile ∷ [];
}

abbrev here : Position
here = record { x = pos 0; y = pos 0 }

abbrev the_wood : ObservedResource
the_wood = record {
  id = build_resource_target_id (pos 1) (pos 0) "wood";
  resource_type = "wood";
  at = record { x = pos 1; y = pos 0 };
  is_depleted = false;
}

sees_wood :
    project_resources
      (build_window_tiles
        (record { x = pos 0; y = pos 0 })
        clearing.time_of_day
        clearing.visible_tiles)
      []
    ≡ the_wood ∷ []
unfolding project_resources build_window_tiles visible_by_pos numbers_from ◌+ℤ◌ ◌-ℤ◌ count_of lookup
sees_wood = refl

wood_is_seen : Has the_wood (
    project_resources
      (build_window_tiles
        (record { x = here.x; y = here.y })
        clearing.time_of_day
        clearing.visible_tiles)
      [])
wood_is_seen = rw sees_wood (inl refl)

one_tile : OneEach (wood_tile ∷ [])
one_tile t t' (inl e) (inl e') h k = sym e ∙ e'
one_tile t t' (inl e) (inr h') h k = absurd h'
one_tile t t' (inr h') other h k = absurd h'

wood_is_normal : normal "wood" ≡ "wood"
unfolding normal
wood_is_normal = refl

abbrev gathering : ActionIntent
gathering = record building { type = ActionType.gather; target_id = the_wood.id }

project_resources-reach_example :
    validate_target_visibility (λ raw. some ("res", pos 1, pos 0, "wood")) here gathering clearing
    ≡ returned tt
project_resources-reach_example =
    project_resources-reach (λ raw. some ("res", pos 1, pos 0, "wood")) here clearing [] the_wood
      gathering wood_is_seen refl one_tile wood_is_normal refl refl
