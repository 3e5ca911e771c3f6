-- ===== src/Gorm/Chunks.antt =====
-- internal/adapter/repo/gorm: world_chunk_repo.go and world_clock_state_repo.go, the stores of the
-- world provider. `none` is an error; the JSON of tiles is a library's.
use clawvival.Base.{eqb_ℤ, String, str_eq, Bool, ◌&&◌, Option, none, some, List, [], ◌∷◌}
use clawvival.Base.Store.{Stored}
use clawvival.Survival.Types.{Time}
use clawvival.World.Types.{Point, Tile, Chunk}
use clawvival.World.Provider.{ChunkStore, ClockStateStore}
use clawvival.Auth.Tokens.{Bytes}
use clawvival.Gorm.Table.{Table, Answer, answered, record_not_found, broken}
use clawvival.Gorm.Rows.{int32, WorldChunkRow, WorldClockRow, zero_clock_row}

-- `json.Marshal` and `json.Unmarshal` of tiles, which may fail.
pub record TileJson : Type 0 where
  pub marshal : List Tile → Option Bytes
  pub unmarshal : Bytes → Option (List Tile)

unfoldable pub decode_chunk_tiles : TileJson → Bytes → Option (List Tile)
decode_chunk_tiles json [] = some []
decode_chunk_tiles json (b ∷ bytes) = json.unmarshal (b ∷ bytes)

abbrev chunk_of : Point → Option (List Tile) → Option (Option Chunk)
chunk_of coord none = none
chunk_of coord (some tiles) = some (some (record { coord = coord; tiles = tiles }))

-- A row that is not found is no error.
found_chunk : TileJson → Point → Answer WorldChunkRow → Option (Option Chunk)
found_chunk json coord (answered row) = chunk_of coord (decode_chunk_tiles json row.tiles)
found_chunk json coord record_not_found = some none
found_chunk json coord (broken e) = none

abbrev beside : {S A : Type 0} → S → Option A → Option (A × S)
beside s none = none
beside s (some a) = some (a, s)

abbrev done : {S : Type 0} → Answer S → Option (Unit {0} × S)
done (answered s) = some (tt, s)
done record_not_found = none
done (broken e) = none

abbrev pub at_coord : Point → String → WorldChunkRow → Bool
at_coord coord phase row =
    eqb_ℤ row.chunk_x (int32 coord.x) && eqb_ℤ row.chunk_y (int32 coord.y) && str_eq row.phase phase

unfoldable pub chunk_row : Time → Point → String → Bytes → WorldChunkRow
chunk_row now coord phase tiles = record {
  chunk_x = int32 coord.x;
  chunk_y = int32 coord.y;
  phase = phase;
  tiles = tiles;
  updated_at = now;
}

-- The columns of `DoUpdates`.
unfoldable pub assign_tiles : WorldChunkRow → WorldChunkRow → WorldChunkRow
assign_tiles old new = record old { tiles = new.tiles; updated_at = new.updated_at }

module _ {S : Type 0} (db : Table S WorldChunkRow) (json : TileJson) where
  unfoldable pub get_chunk : Point → String → Stored S (Option Chunk)
  unfolding found_chunk decode_chunk_tiles
  get_chunk coord phase s =
      beside s (found_chunk json coord (db.first_where (at_coord coord phase) s))

  -- The row is written where the tiles have been encoded.
  put_row : Time → Point → String → Option Bytes → Stored S (Unit {0})
  unfolding chunk_row assign_tiles
  put_row now coord phase none s = none
  put_row now coord phase (some tiles) s =
      done (db.create_or assign_tiles (chunk_row now coord phase tiles) s)

  unfoldable pub save_chunk : Time → Point → String → Chunk → Stored S (Unit {0})
  unfolding put_row
  save_chunk now coord phase chunk s = put_row now coord phase (json.marshal chunk.tiles) s

  abbrev pub world_chunk_repo : Time → ChunkStore S
  world_chunk_repo now = record { get_chunk = get_chunk; save_chunk = save_chunk now }

found_phase : Answer WorldClockRow → Option (Option String)
found_phase (answered row) = some (some row.phase)
found_phase record_not_found = some none
found_phase (broken e) = none

abbrev pub global_row : WorldClockRow
global_row = record zero_clock_row { state_key = "global" }

module _ {S : Type 0} (db : Table S WorldClockRow) where
  unfoldable pub get_phase : Stored S (Option String)
  unfolding found_phase
  get_phase s = beside s (found_phase (db.first global_row s))

  unfoldable pub save_phase : Time → String → Time → Stored S (Unit {0})
  save_phase now phase switched_at s = done (
      db.first_or_create global_row
        (λ row. record row { phase = phase; switched_at = switched_at; updated_at = now }) s)

  abbrev pub world_clock_state_repo : Time → ClockStateStore S
  world_clock_state_repo now = record { get_phase = get_phase; save_phase = save_phase now }
