-- ===== src/World/Types.antt =====
-- internal/domain/world: tiles, chunks and objects.
use clawvival.Base.Dict.{Dict}
use clawvival.Base.{ℕ, ℤ, pos, ltb_ℤ, String, Bool, List, ◌||◌, not, str_eq}

pub record Point : Type 0 where
  pub x : ℤ
  pub y : ℤ

pub data TileKind : Type 0 where
  grass tree rock dirt water : TileKind

pub data Zone : Type 0 where
  safe forest quarry wild : Zone

abbrev pub Zone_text : Zone → String
Zone_text Zone.safe = "safe"
Zone_text Zone.forest = "forest"
Zone_text Zone.quarry = "quarry"
Zone_text Zone.wild = "wild"

pub data Biome : Type 0 where
  plain forest mountain wasteland : Biome

pub record Tile : Type 0 where
  pub x : ℤ
  pub y : ℤ
  pub kind : TileKind
  pub zone : Zone
  pub biome : Biome
  pub passable : Bool
  pub resource : String
  pub base_threat : ℤ

pub record Chunk : Type 0 where
  pub coord : Point
  pub tiles : List Tile

pub record WorldObject : Type 0 where
  pub id : String
  pub kind : String
  pub position : Point
  pub hp : ℤ

-- `Validate` returns no error.
unfoldable pub is_valid_object : WorldObject → Bool
is_valid_object o = not (str_eq o.id "" || str_eq o.kind "" || ltb_ℤ o.hp (pos 0))

-- `Snapshot`, with the phase it changed from and to.
pub record Snapshot : Type 0 where
  pub world_time_seconds : ℤ
  pub time_of_day : String
  pub threat_level : ℤ
  pub visibility_penalty : ℤ
  pub nearby_resource : Dict ℤ
  pub center : Point
  pub view_radius : ℤ
  pub visible_tiles : List Tile
  pub next_phase_in_seconds : ℕ
  pub phase_changed : Bool
  pub phase_from : String
  pub phase_to : String
