-- ===== src/World/Tests.antt =====
-- The theorems on the world, at inputs that meet their hypotheses.
use clawvival.Base.{
  String, ◌+◌, ◌-◌, ◌≤◌, pos, negsuc, ◌≡◌, ◌⊎◌, refl, arith, true, not, Option, none, some, List,
  [], ◌∷◌, All, ◌&&◌, eqb_ℤ, if◌then◌else◌,
}
use clawvival.World.Types.{Point, Chunk, TileKind, Zone}
use clawvival.World.Clock.{ClockConfig, Phase, phase_at, max_duration}
use clawvival.World.Clock.Phases.{other, span, phase_lasts, phase_turns}
use clawvival.World.Terrain.{gen_tile, generate_chunk}
use clawvival.World.Terrain.Tiles.{is_obstacle, yield, gen_tile_lem, origin_is_safe}
use clawvival.World.Provider.{ChunkStore, ClockStateStore, Config, persist_phase}
use clawvival.World.Provider.PhaseChange.{Remembers, persist_phase_lem}

gen_tile_lem_example :
    ((gen_tile (pos 9) (negsuc 3)).x ≡ pos 9)
    × ((gen_tile (pos 9) (negsuc 3)).y ≡ negsuc 3)
    × ((gen_tile (pos 9) (negsuc 3)).passable
        ≡ not (is_obstacle (gen_tile (pos 9) (negsuc 3)).kind))
    × (((gen_tile (pos 9) (negsuc 3)).resource ≡ yield (gen_tile (pos 9) (negsuc 3)).kind)
        ⊎ ((gen_tile (pos 9) (negsuc 3)).resource ≡ "berry")
          × ((gen_tile (pos 9) (negsuc 3)).kind ≡ TileKind.grass)
          × ((gen_tile (pos 9) (negsuc 3)).zone ≡ Zone.wild))
gen_tile_lem_example = gen_tile_lem (pos 9) (negsuc 3)

safe_near_origin :
    ((gen_tile (pos 2) (negsuc 1)).zone ≡ Zone.safe)
    × ((gen_tile (pos 2) (negsuc 1)).base_threat ≡ pos 1)
    × ((gen_tile (pos 2) (negsuc 1)).passable ≡ true)
safe_near_origin = origin_is_safe (pos 2) (negsuc 1) (omega arith)

-- A day of 100 and a night of 50.
abbrev short_clock : ClockConfig
short_clock = record { start_at = 1000; day_duration = pos 100; night_duration = pos 50 }

short_day : phase_at short_clock 1230 ≡ (Phase.day, 20)
unfolding phase_at
short_day = refl

phase_goes_on :
    phase_at short_clock (1230 + 7)
    ≡ ((phase_at short_clock 1230).0, (phase_at short_clock 1230).1 - 7)
phase_goes_on =
    phase_lasts short_clock (omega arith) (omega arith) 1230 (omega arith) 7 (omega arith)
      (rw short_day (omega arith))

short_fits : 1230 + (phase_at short_clock 1230).1 - 1000 ≤ max_duration
short_fits = rw short_day (omega arith)

phase_turns_example :
    phase_at short_clock (1230 + (phase_at short_clock 1230).1)
    ≡ (other (phase_at short_clock 1230).0, span 100 50 (other (phase_at short_clock 1230).0))
phase_turns_example =
    phase_turns short_clock (omega arith) (omega arith) 1230 (omega arith) short_fits

-- A store that keeps the chunks in a list.
find_chunk : Point → List Chunk → Option Chunk
find_chunk c [] = none
find_chunk c (k ∷ ks) =
    if eqb_ℤ k.coord.x c.x && eqb_ℤ k.coord.y c.y then some k else find_chunk c ks

abbrev listed : ChunkStore (List Chunk)
listed = record {
  get_chunk = λ c phase ks. some (find_chunk c ks, ks);
  save_chunk = λ c phase k ks. some (tt, k ∷ ks);
}

abbrev AllNew : List Chunk → Type 0
AllNew ks = All (λ (k : Chunk). k ≡ generate_chunk k.coord) ks

abbrev plain : Config (List Chunk)
plain = record {
  clock = short_clock;
  threat_day = pos 1;
  threat_night = pos 3;
  resources_day = none;
  resources_night = none;
  view_radius = pos 5;
  chunk_store = some listed;
  clock_state_store = none;
  refresh_interval = pos 5_000_000_000;
}

abbrev origin : Point
origin = record { x = pos 0; y = pos 0 }

-- A store of the phase.
abbrev phase_cell : ClockStateStore (Option String)
phase_cell = record {
  get_phase = λ s. some (s, s);
  save_phase = λ phase now s. some (tt, some phase);
}

phase_cell-Remembers : Remembers phase_cell
phase_cell-Remembers = record {
  after_get = λ s s' found h. cc h;
  after_save = λ phase now s s' h. cc h;
}

dawn : persist_phase (some phase_cell) "day" 10 (some "night") ≡ some (some "night", some "day")
unfolding persist_phase
dawn = refl

persist_phase_lem_example :
    persist_phase (some phase_cell) "day" 20 (some "day") ≡ some (none, some "day")
persist_phase_lem_example =
    persist_phase_lem phase_cell "day" 10 20 (some "night") (some "night") (some "day")
      phase_cell-Remembers dawn
