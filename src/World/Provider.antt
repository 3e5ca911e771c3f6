-- ===== src/World/Provider.antt =====
-- internal/adapter/world/runtime/provider.go: what an agent sees of the world. The two stores are
-- parameters; `none` is an error of a store, or a panic.
pub mod Window
pub mod Sight
pub mod PhaseChange
mod Defaults
use clawvival.Base.{
  ℕ, zero, suc, ◌+◌, ◌*◌, ◌/◌, ◌%◌, ℤ, pos, negsuc, pos_part, ◌+ℤ◌, ◌-ℤ◌, neg, ltb_ℤ, leb_ℤ, ◌==◌,
  String, str_eq, Bool, true, false, ◌&&◌, ◌||◌, not, is_some, Option, none, some, List, [], ◌∷◌,
  ◌++◌, if◌then◌else◌,
}
use clawvival.Base.Store.{Stored, ◌>>=◌, ◌>>◌, return, of_option}
use clawvival.Base.Dict.{Dict, lookup, insert}
use clawvival.World.Types.{Point, Tile, Chunk, Snapshot}
use clawvival.World.Clock.{
  Phase, ClockConfig, new_clock, default_clock, phase_at, world_time_seconds_at,
}
use clawvival.World.Terrain.{floor_div, count_from, grid, chunk_size, generate_chunk}

-- `ChunkStore`: `GetChunk` finds a chunk or not.
pub record ChunkStore (S : Type 0) : Type 0 where
  pub get_chunk : Point → String → Stored S (Option Chunk)
  pub save_chunk : Point → String → Chunk → Stored S Unit

-- `ClockStateStore`, of which the time of the last switch is never used.
pub record ClockStateStore (S : Type 0) : Type 0 where
  pub get_phase : Stored S (Option String)
  pub save_phase : String → ℕ → Stored S Unit

-- `Config`. A nil map differs here from an empty one.
pub record Config (S : Type 0) : Type 0 where
  pub clock : ClockConfig
  pub threat_day : ℤ
  pub threat_night : ℤ
  pub resources_day : Option (Dict ℤ)
  pub resources_night : Option (Dict ℤ)
  pub view_radius : ℤ
  pub chunk_store : Option (ChunkStore S)
  pub clock_state_store : Option (ClockStateStore S)
  pub refresh_interval : ℤ

abbrev is_zero_clock : ClockConfig → Bool
is_zero_clock c =
    c.start_at == 0
    && leb_ℤ c.day_duration (pos 0)
    && leb_ℤ (pos 0) c.day_duration
    && leb_ℤ c.night_duration (pos 0)
    && leb_ℤ (pos 0) c.night_duration

abbrev or_map : Option (Dict ℤ) → Dict ℤ → Option (Dict ℤ)
or_map none m = some m
or_map (some m) _ = some m

-- `NewProvider`, less the time source.
unfoldable pub new_provider : {S : Type 0} → Config S → Config S
new_provider c = record c {
  clock = if is_zero_clock c.clock then default_clock else c.clock;
  resources_day = or_map c.resources_day (("wood", pos 10) ∷ ("stone", pos 5) ∷ []);
  resources_night = or_map c.resources_night (("wood", pos 6) ∷ ("stone", pos 3) ∷ []);
  view_radius = if leb_ℤ c.view_radius (pos 0) then pos 5 else c.view_radius;
  refresh_interval =
      if leb_ℤ c.refresh_interval (pos 0) then pos 300_000_000_000 else c.refresh_interval;
}

abbrev copy_map : Option (Dict ℤ) → Dict ℤ
copy_map none = []
copy_map (some m) = m

abbrev visibility_penalty : Bool → ℤ
visibility_penalty is_day = if is_day then pos 0 else pos 1

-- Division of an integer that rounds to zero.
quot : ℤ → ℕ → ℤ
quot (pos a) b = pos (a / b)
quot (negsuc a) b = neg (pos (suc a / b))

-- `now.Unix()` of a time in nanoseconds since Go's zero time.
unfoldable pub unix : ℕ → ℤ
unix now = pos (now / 1_000_000_000) -ℤ pos 62_135_596_800

-- An interval below a second is divided by as 0, which panics.
unfoldable pub resource_refresh_bucket : ℕ → ℤ → Option ℤ
unfolding quot unix
resource_refresh_bucket now interval =
    if leb_ℤ interval (pos 0)
    then some (pos 0)
    else if pos_part interval / 1_000_000_000 == 0
    then none
    else some (quot (unix now) (pos_part interval / 1_000_000_000))

-- `bucket%2 == 1`, which no negative bucket satisfies, and `bucket%2 == 0`.
is_odd : ℤ → Bool
is_odd (pos n) = n % 2 == 1
is_odd (negsuc _) = false

is_even : ℤ → Bool
is_even (pos n) = n % 2 == 0
is_even (negsuc n) = suc n % 2 == 0

unfoldable pub refreshed_resource : String → ℤ → String
unfolding is_odd is_even
refreshed_resource resource bucket =
    if str_eq resource "wood"
    then (if is_odd bucket then "" else resource)
    else if str_eq resource "stone"
    then (if is_even bucket then "" else resource)
    else resource

-- The coordinates of the chunks that the window touches.
abbrev pub steps : ℤ → ℤ → ℕ
steps from to = pos_part (to -ℤ from +ℤ pos 1)

abbrev pub coord_at : ℤ → ℤ → Point
coord_at x y = record { x = x; y = y }

unfoldable pub window_coords : Point → ℤ → List Point
window_coords center r =
    let min_x = floor_div (center.x -ℤ r) chunk_size in
    let max_x = floor_div (center.x +ℤ r) chunk_size in
    let min_y = floor_div (center.y -ℤ r) chunk_size in
    let max_y = floor_div (center.y +ℤ r) chunk_size in
    grid coord_at (count_from min_x (steps min_x max_x)) (count_from min_y (steps min_y max_y))

module _ {S : Type 0} where
  -- `GetChunk` found the chunk, or it is generated and saved.
  unfoldable pub found_or_new : ChunkStore S → String → Point → Option Chunk → Stored S Chunk
  found_or_new store phase c (some k) = return k
  found_or_new store phase c none = do
    store.save_chunk c phase (generate_chunk c)
    return (generate_chunk c)

  -- One turn of the loop of `loadChunksForWindow`.
  unfoldable pub load_chunk : Option (ChunkStore S) → String → Point → Stored S Chunk
  unfolding found_or_new
  load_chunk none phase c = return (generate_chunk c)
  load_chunk (some store) phase c = do
    found ← store.get_chunk c phase
    found_or_new store phase c found

  unfoldable pub load_chunks : Option (ChunkStore S) → String → List Point → Stored S (List Chunk)
  load_chunks store phase [] = return []
  load_chunks store phase (c ∷ cs) = do
    k ← load_chunk store phase c
    ks ← load_chunks store phase cs
    return (k ∷ ks)

  -- The phase before, where it changed.
  unfoldable pub changed : ClockStateStore S → String → ℕ → Option String → Stored S (Option String)
  changed store phase now none = do store.save_phase phase now; return none
  changed store phase now (some current) =
      if str_eq current phase
      then return none
      else do store.save_phase phase now; return (some current)

  unfoldable pub persist_phase : Option (ClockStateStore S) → String → ℕ → Stored S (Option String)
  unfolding changed
  persist_phase none phase now = return none
  persist_phase (some store) phase now = do
    current ← store.get_phase
    changed store phase now current

unfoldable pub in_window : Point → ℤ → Tile → Bool
in_window center r t = not (
    ltb_ℤ t.x (center.x -ℤ r)
    || ltb_ℤ (center.x +ℤ r) t.x
    || ltb_ℤ t.y (center.y -ℤ r)
    || ltb_ℤ (center.y +ℤ r) t.y)

abbrev pub darkened : Bool → Tile → Tile
darkened is_day t = if is_day then t else record t { base_threat = t.base_threat +ℤ pos 1 }

unfoldable pub visible : Point → ℤ → Bool → List Tile → List Tile
visible center r is_day [] = []
visible center r is_day (t ∷ ts) =
    let rest = visible center r is_day ts in
    if in_window center r t then darkened is_day t ∷ rest else rest

unfoldable pub chunk_tiles : List Chunk → List Tile
chunk_tiles [] = []
chunk_tiles (k ∷ ks) = k.tiles ++ chunk_tiles ks

-- `counts[res]++`
abbrev count_one : String → Dict ℤ → Dict ℤ
count_one k m = insert k ((elim (lookup k m) [ none ↦ pos 0 | some n ↦ n ]) +ℤ pos 1) m

unfoldable pub count_resources : ℤ → List Tile → Dict ℤ → Dict ℤ
count_resources bucket [] m = m
count_resources bucket (t ∷ ts) m =
    let r = refreshed_resource t.resource bucket in
    count_resources bucket ts (if str_eq r "" then m else count_one r m)

abbrev nearby_or : Dict ℤ → Dict ℤ → Dict ℤ
nearby_or [] nearby = nearby
nearby_or (c ∷ counts) nearby = c ∷ counts

abbrev or_empty : Option String → String
or_empty none = ""
or_empty (some s) = s

abbrev pub is_day : Phase → Bool
is_day Phase.day = true
is_day Phase.night = false

abbrev pub time_of_day : Phase → String
time_of_day Phase.day = "day"
time_of_day Phase.night = "night"

-- The snapshot from the phase, its rest, the phase change, the bucket and the chunks.
unfoldable pub snapshot_of :
    {S : Type 0} → Config S → Point → ℕ → Option String → ℤ → List Chunk → Snapshot
snapshot_of cfg center now change bucket chunks =
    let (phase, next) = phase_at cfg.clock now in
    let tiles = visible center cfg.view_radius (is_day phase) (chunk_tiles chunks) in
    record {
      world_time_seconds = pos (world_time_seconds_at cfg.clock now);
      time_of_day = time_of_day phase;
      threat_level = if is_day phase then cfg.threat_day else cfg.threat_night;
      visibility_penalty = visibility_penalty (is_day phase);
      nearby_resource =
          nearby_or (count_resources bucket tiles [])
            (copy_map (if is_day phase then cfg.resources_day else cfg.resources_night));
      center = center;
      view_radius = cfg.view_radius;
      visible_tiles = tiles;
      next_phase_in_seconds = next / 1_000_000_000;
      phase_changed = is_some change;
      phase_from = or_empty change;
      phase_to = if is_some change then time_of_day phase else "";
    }

-- `SnapshotForAgent` at a time.
unfoldable pub snapshot_for_agent : {S : Type 0} → Config S → Point → ℕ → Stored S Snapshot
snapshot_for_agent cfg center now = do
  change ← persist_phase cfg.clock_state_store (time_of_day (phase_at cfg.clock now).0) now
  bucket ← of_option (resource_refresh_bucket now cfg.refresh_interval)
  chunks ←
      load_chunks cfg.chunk_store (time_of_day (phase_at cfg.clock now).0)
        (window_coords center cfg.view_radius)
  return (snapshot_of cfg center now change bucket chunks)
