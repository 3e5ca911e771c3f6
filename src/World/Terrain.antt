-- ===== src/World/Terrain.antt =====
-- internal/adapter/world/runtime/provider.go: the tile at each position, and the chunk it is in.
pub mod Tiles
pub mod Grid
use clawvival.Base.{
  ℕ, zero, suc, ◌+◌, ◌-◌, ◌*◌, ◌/◌, ◌%◌, ◌^◌, ℤ, pos, negsuc, ◌+ℤ◌, ◌*ℤ◌, neg, abs, ltb, leb, ◌==◌,
  String, Bool, true, false, List, [], ◌∷◌, ◌++◌, if◌then◌else◌,
}
use Prim.Native.Nat.{bit_xor}
use clawvival.Base.Float.{round_even}
use clawvival.World.Types.{Point, TileKind, Zone, Biome, Tile, Chunk}

-- `int(math.Abs(float64(x)) + math.Abs(float64(y)))`
abbrev distance : ℤ → ℤ → ℕ
distance x y = round_even (round_even (abs x) + round_even (abs y))

unfoldable pub zone_by_distance : ℤ → ℤ → Zone
zone_by_distance x y =
    let d = distance x y in
    if leb d 6
    then Zone.safe
    else if leb d 20
    then Zone.forest
    else if leb d 35
    then Zone.quarry
    else Zone.wild

abbrev pub biome_by_zone : Zone → Biome
biome_by_zone Zone.safe = Biome.plain
biome_by_zone Zone.forest = Biome.forest
biome_by_zone Zone.quarry = Biome.mountain
biome_by_zone Zone.wild = Biome.wasteland

abbrev pub zone_base_threat : Zone → ℤ
zone_base_threat Zone.safe = pos 1
zone_base_threat Zone.forest = pos 2
zone_base_threat Zone.quarry = pos 3
zone_base_threat Zone.wild = pos 4

-- The 64 bits of an `int`, in two's complement.
bits_of : ℤ → ℕ
bits_of (pos n) = n % 2 ^ 64
bits_of (negsuc n) = 2 ^ 64 - 1 - n % 2 ^ 64

-- The distance from 0 of the `int` with these bits.
magnitude : ℕ → ℕ
magnitude w = if ltb w (2 ^ 63) then w else 2 ^ 64 - w

-- `tileSeed`; of -2 ^ 63, which is its own negation, the code and this agree on divisibility.
unfoldable pub tile_seed : ℤ → ℤ → ℕ
unfolding bits_of magnitude
tile_seed x y = magnitude (bit_xor (bits_of (x *ℤ pos 73_856_093)) (bits_of (y *ℤ pos 19_349_663)))

-- What `genTile` decides: the kind, whether it can be walked on, and the resource.
pub record Growth : Type 0 where
  pub kind : TileKind
  pub passable : Bool
  pub resource : String

abbrev bare : TileKind → Growth
bare k = record { kind = k; passable = true; resource = "" }

abbrev blocked : TileKind → String → Growth
blocked k r = record { kind = k; passable = false; resource = r }

unfoldable pub growth : Zone → ℕ → Growth
growth Zone.safe seed = bare TileKind.grass
growth Zone.forest seed =
    if seed % 5 == 0 then blocked TileKind.tree "wood" else bare TileKind.grass
growth Zone.quarry seed =
    if seed % 4 == 0 then blocked TileKind.rock "stone" else bare TileKind.dirt
growth Zone.wild seed =
    if seed % 7 == 0
    then blocked TileKind.water ""
    else if seed % 11 == 0
    then record { kind = TileKind.grass; passable = true; resource = "berry" }
    else if seed % 3 == 0
    then blocked TileKind.tree "wood"
    else bare TileKind.dirt

unfoldable pub gen_tile : ℤ → ℤ → Tile
gen_tile x y =
    let z = zone_by_distance x y in
    let g = growth z (tile_seed x y) in
    record {
      x = x;
      y = y;
      kind = g.kind;
      zone = z;
      biome = biome_by_zone z;
      passable = g.passable;
      resource = g.resource;
      base_threat = zone_base_threat z;
    }

-- `floorDiv` by a positive number.
unfoldable pub floor_div : ℤ → ℕ → ℤ
floor_div (pos a) b = pos (a / b)
floor_div (negsuc a) b = neg (pos ((suc a + b - 1) / b))

-- `n` integers from `a` on.
unfoldable pub count_from : ℤ → ℕ → List ℤ
count_from a zero = []
count_from a (suc n) = a ∷ count_from (a +ℤ pos 1) n

-- The body of two nested loops, the outer one over `ys`.
row : {A : Type 0} → (ℤ → ℤ → A) → List ℤ → ℤ → List A
row f [] y = []
row f (x ∷ xs) y = f x y ∷ row f xs y

unfoldable pub grid : {A : Type 0} → (ℤ → ℤ → A) → List ℤ → List ℤ → List A
unfolding row
grid f xs [] = []
grid f xs (y ∷ ys) = row f xs y ++ grid f xs ys

abbrev pub chunk_size : ℕ
chunk_size = 8

unfoldable pub generate_chunk : Point → Chunk
generate_chunk c = record {
  coord = c;
  tiles =
      grid gen_tile (count_from (c.x *ℤ pos chunk_size) chunk_size)
        (count_from (c.y *ℤ pos chunk_size) chunk_size);
}
