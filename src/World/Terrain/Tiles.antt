-- ===== src/World/Terrain/Tiles.antt =====
-- internal/adapter/world/runtime/provider.go: the tiles of `genTile`.
use clawvival.Base.{ℕ, ◌+◌, ◌≤◌, ℤ, pos, abs, String, Bool, true, false, not, ◌≡◌, refl, ◌⊎◌, arith}
use clawvival.Base.Float.{round_even-small}
use clawvival.World.Types.{TileKind, Zone}
use clawvival.World.Terrain.{Growth, growth, gen_tile, tile_seed, zone_by_distance}

pub is_obstacle : TileKind → Bool
is_obstacle TileKind.tree = true
is_obstacle TileKind.rock = true
is_obstacle TileKind.water = true
is_obstacle _ = false

pub yield : TileKind → String
yield TileKind.tree = "wood"
yield TileKind.rock = "stone"
yield _ = ""

-- Trees hold wood and rocks hold stone, only grass of the wild may hold berries.
HoldsYield : Zone → Growth → Type 0
HoldsYield z g =
    (g.resource ≡ yield g.kind)
    ⊎ (g.resource ≡ "berry") × (g.kind ≡ TileKind.grass) × (z ≡ Zone.wild)

growth-eq :
    (z : Zone) (seed : ℕ)
    → ((growth z seed).passable ≡ not (is_obstacle (growth z seed).kind))
      × HoldsYield z (growth z seed)
unfolding growth is_obstacle yield HoldsYield
growth-eq Zone.safe seed = ground arith
growth-eq Zone.forest seed = ground arith
growth-eq Zone.quarry seed = ground arith
growth-eq Zone.wild seed = ground arith

-- Every generated tile stands where it was asked for, can be walked on exactly if it is no tree, rock
-- or water, and holds wood if it is a tree, stone if it is a rock, and otherwise nothing, except that
-- grass of the wild may hold berries.
pub gen_tile_lem :
    (x y : ℤ)
    → ((gen_tile x y).x ≡ x)
      × ((gen_tile x y).y ≡ y)
      × ((gen_tile x y).passable ≡ not (is_obstacle (gen_tile x y).kind))
      × (((gen_tile x y).resource ≡ yield (gen_tile x y).kind)
          ⊎ ((gen_tile x y).resource ≡ "berry")
            × ((gen_tile x y).kind ≡ TileKind.grass)
            × ((gen_tile x y).zone ≡ Zone.wild))
unfolding gen_tile HoldsYield
gen_tile_lem x y =
    let (walks, holds) = growth-eq (zone_by_distance x y) (tile_seed x y) in
    (refl, refl, walks, holds)

zone_near : (x y : ℤ) → abs x + abs y ≤ 6 → zone_by_distance x y ≡ Zone.safe
unfolding zone_by_distance
zone_near x y near =
    rw
      (
        round_even-small (abs x) (omega arith),
        round_even-small (abs y) (omega arith),
        round_even-small (abs x + abs y) (omega arith),
      )
      (ground arith)

-- Within 6 steps of the origin every tile is safe, of threat 1, and can be walked on.
pub origin_is_safe :
    (x y : ℤ)
    → abs x + abs y ≤ 6
    → ((gen_tile x y).zone ≡ Zone.safe)
      × ((gen_tile x y).base_threat ≡ pos 1)
      × ((gen_tile x y).passable ≡ true)
unfolding gen_tile growth
origin_is_safe x y near = rw (zone_near x y near) (refl, refl, refl)
