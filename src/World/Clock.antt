-- ===== src/World/Clock.antt =====
-- internal/domain/world/clock.go: day and night.
pub mod Phases
use clawvival.Base.{
  ℕ, ◌+◌, ◌-◌, ◌*◌, ◌/◌, ◌%◌, ◌≤◌, ◌<◌, ℤ, pos, ltb, ltb_ℤ, leb_ℤ, ◌==◌, ◌≡◌, refl, ◌≢◌, Bool,
  if◌then◌else◌, arith, inl, inr, Bool-cases, pos_part,
}

pub data Phase : Type 0 where
  day night : Phase

-- Times are nanoseconds since Go's zero time, durations are nanoseconds.
pub record ClockConfig : Type 0 where
  pub start_at : ℕ
  pub day_duration : ℤ
  pub night_duration : ℤ

abbrev unix_epoch : ℕ
unix_epoch = 62_135_596_800_000_000_000

abbrev minute : ℕ
minute = 60_000_000_000

-- The greatest `time.Duration`, at which `Sub` stops.
abbrev pub max_duration : ℕ
max_duration = 9_223_372_036_854_775_807

-- `NewClock`
unfoldable pub new_clock : ClockConfig → ClockConfig
new_clock c = record {
  start_at = if c.start_at == 0 then unix_epoch else c.start_at;
  day_duration = if leb_ℤ c.day_duration (pos 0) then pos (10 * minute) else c.day_duration;
  night_duration = if leb_ℤ c.night_duration (pos 0) then pos (5 * minute) else c.night_duration;
}

-- `now.Sub(start)`, and zero where that is negative.
unfoldable pub elapsed : ℕ → ℕ → ℕ
elapsed start now = if ltb max_duration (now - start) then max_duration else now - start

-- `PhaseAt` of a clock with positive durations, as numbers; what is left of the phase comes second.
unfoldable pub phase_at_offset : ℕ → ℕ → ℕ → Phase × ℕ
phase_at_offset d n offset =
    if ltb offset d then (Phase.day, d - offset) else (Phase.night, n - (offset - d))

unfoldable pub phase_at : ClockConfig → ℕ → Phase × ℕ
unfolding phase_at_offset elapsed
phase_at c now =
    let d = pos_part c.day_duration in
    let n = pos_part c.night_duration in
    if d + n == 0 then (Phase.day, 0) else phase_at_offset d n (elapsed c.start_at now % (d + n))

unfoldable pub world_time_seconds_at : ClockConfig → ℕ → ℕ
unfolding elapsed
world_time_seconds_at c now = elapsed c.start_at now / 1_000_000_000

-- `NewClock` of the zero configuration.
abbrev pub default_clock : ClockConfig
default_clock = new_clock (record { start_at = 0; day_duration = pos 0; night_duration = pos 0 })
