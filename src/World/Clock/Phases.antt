-- ===== src/World/Clock/Phases.antt =====
-- internal/domain/world/clock.go: `PhaseAt` as time goes on.
use clawvival.Base.{
  ℕ, ◌+◌, ◌-◌, ◌%◌, ◌≤◌, ◌<◌, pos, ◌<ℤ◌, pos_part, ◌≡◌, sym, ap, ◌∙◌, ℤ, ◌⊎◌, arith, inl, inr,
}
use native.Mathlib.Nat.{mod-lt, mod-eq_of_lt, mod_self, mod-add-mod}
use clawvival.World.Clock.{Phase, ClockConfig, max_duration, elapsed, phase_at_offset, phase_at}

pub other : Phase → Phase
other Phase.day = Phase.night
other Phase.night = Phase.day

at_offset_lasts :
    (d n o t : ℕ)
    → o < d + n
    → t < (phase_at_offset d n o).1
    → o + t < d + n
      × phase_at_offset d n (o + t) ≡ ((phase_at_offset d n o).0, (phase_at_offset d n o).1 - t)
unfolding phase_at_offset
at_offset_lasts d n o t inside before = ground arith

less : (d n : ℕ) → 0 < n → d < d + n
less d n night = omega arith

-- How long a phase is.
pub span : ℕ → ℕ → Phase → ℕ
span d n Phase.day = d
span d n Phase.night = n

at_offset_cases :
    (d n o : ℕ)
    → (o < d) × (phase_at_offset d n o ≡ (Phase.day, d - o))
      ⊎ (d ≤ o) × (phase_at_offset d n o ≡ (Phase.night, n - (o - d)))
unfolding phase_at_offset
at_offset_cases d n o = ground arith

day_total : (d o : ℕ) → o < d → o + (d - o) ≡ d
day_total d o early = omega arith

night_total : (d n o : ℕ) → d ≤ o → o < d + n → o + (n - (o - d)) ≡ d + n
night_total d n o late inside = omega arith

at_start : (d n : ℕ) → 0 < d → phase_at_offset d n 0 ≡ (Phase.day, d)
unfolding phase_at_offset
at_start d n day = ground arith

at_dusk : (d n : ℕ) → phase_at_offset d n d ≡ (Phase.night, n)
unfolding phase_at_offset
at_dusk d n = ground arith

at_offset_turns :
    (d n o : ℕ)
    → 0 < d
    → 0 < n
    → o < d + n
    → phase_at_offset d n ((o + (phase_at_offset d n o).1) % (d + n))
      ≡ (other (phase_at_offset d n o).0, span d n (other (phase_at_offset d n o).0))
unfolding other span
at_offset_turns d n o day night inside = elim (at_offset_cases d n o) [
  | inl (early, e) ↦ rw (e, day_total d o early, mod-eq_of_lt (less d n night)) (at_dusk d n)
  | inr (late, e) ↦ rw (e, night_total d n o late inside, mod_self (d + n)) (at_start d n day)
]

phase_at-eq :
    (c : ClockConfig) (now : ℕ)
    → pos 0 <ℤ c.day_duration
    → now - c.start_at ≤ max_duration
    → phase_at c now
      ≡ phase_at_offset
          (pos_part c.day_duration)
          (pos_part c.night_duration)
          ((now - c.start_at) % (pos_part c.day_duration + pos_part c.night_duration))
unfolding phase_at elapsed
phase_at-eq c now days fits = ground arith

later : (s now t : ℕ) → s ≤ now → now + t - s ≡ now - s + t
later s now t started = omega arith

sooner : (s now t : ℕ) → now + t - s ≤ max_duration → now - s ≤ max_duration
sooner s now t fits = omega arith

later_offset : (k s now t : ℕ) → s ≤ now → (now + t - s) % k ≡ ((now - s) % k + t) % k
later_offset k s now t started =
    ap (λ m. m % k) (later s now t started) ∙ sym (mod-add-mod (now - s) k t)

advance :
    (c : ClockConfig) (now t : ℕ)
    → pos 0 <ℤ c.day_duration
    → c.start_at ≤ now
    → now + t - c.start_at ≤ max_duration
    → phase_at c (now + t)
      ≡ phase_at_offset (pos_part c.day_duration) (pos_part c.night_duration) (
          ((now - c.start_at) % (pos_part c.day_duration + pos_part c.night_duration) + t)
          % (pos_part c.day_duration + pos_part c.night_duration))
advance c now t days started fits =
    phase_at-eq c (now + t) days fits
    ∙ ap (phase_at_offset (pos_part c.day_duration) (pos_part c.night_duration)) (
        later_offset (pos_part c.day_duration + pos_part c.night_duration) c.start_at now t started)

positive : (a : ℤ) → pos 0 <ℤ a → 0 < pos_part a
positive a p = omega arith

less_sum : (a b : ℕ) → 0 < a → 0 < a + b
less_sum a b p = omega arith

module _ (c : ClockConfig) (days : pos 0 <ℤ c.day_duration) (nights : pos 0 <ℤ c.night_duration)
    (now : ℕ) (started : c.start_at ≤ now) where
  -- Before the phase that `PhaseAt` returns is over the clock is still in it, with what is left
  -- counting down.
  pub phase_lasts :
      (t : ℕ)
      → now + t - c.start_at ≤ max_duration
      → t < (phase_at c now).1
      → phase_at c (now + t) ≡ ((phase_at c now).0, (phase_at c now).1 - t)
  phase_lasts t fits before =
      let d = pos_part c.day_duration in
      let n = pos_part c.night_duration in
      let o = (now - c.start_at) % (d + n) in
      let here = phase_at-eq c now days (sooner c.start_at now t fits) in
      let inside = mod-lt (now - c.start_at) (less_sum d n (positive c.day_duration days)) in
      let (fits_in, lasts) = at_offset_lasts d n o t inside (rw here at before) in
      rw (advance c now t days started fits, here, mod-eq_of_lt fits_in) lasts

  -- When the time that `PhaseAt` returns is over the other phase begins, at its full length.
  pub phase_turns :
      now + (phase_at c now).1 - c.start_at ≤ max_duration
      → phase_at c (now + (phase_at c now).1) ≡ (
        other (phase_at c now).0,
        span (pos_part c.day_duration) (pos_part c.night_duration) (other (phase_at c now).0),
      )
  phase_turns fits =
      let d = pos_part c.day_duration in
      let n = pos_part c.night_duration in
      let o = (now - c.start_at) % (d + n) in
      let here = phase_at-eq c now days (sooner c.start_at now (phase_at c now).1 fits) in
      let inside = mod-lt (now - c.start_at) (less_sum d n (positive c.day_duration days)) in
      rw (advance c now (phase_at c now).1 days started fits, here)
        (at_offset_turns d n o (positive c.day_duration days) (positive c.night_duration nights)
          inside)
