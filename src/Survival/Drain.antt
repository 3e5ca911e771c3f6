-- ===== src/Survival/Drain.antt =====
-- internal/domain/survival/service_settlement.go: scaling by the minutes that pass, and the loss of
-- health from hunger and exhaustion under its cap. The products and quotients are those of `float64`.
use clawvival.Base.{
  ℕ, ℤ, pos, negsuc, ◌-ℤ◌, ◌*◌, ◌+◌, leb_ℤ, neg, abs, neg_part, min_ℤ, if◌then◌else◌,
}
use clawvival.Base.Float.{round_even, div_even, round_half_up}
use clawvival.Survival.Tuning.{hp_drain_from_hunger_coeff, hp_drain_from_energy_coeff}

-- `x * float64(dt) / float64(StandardTickMinutes)` for a double `x`, over 2 ^ 65 times the power of
-- two that `x` stands over.
scaled_float : ℕ → ℕ → ℕ
unfolding round_even div_even
scaled_float x dt = div_even (round_even (x * round_even dt)) 30

-- The same for an integer `x`, rounded to an integer.
scaled_abs : ℕ → ℕ → ℕ
unfolding scaled_float round_half_up
scaled_abs per30 dt = round_half_up (scaled_float (round_even per30) dt) 65

with_sign : ℤ → ℕ → ℤ
with_sign (pos _) n = pos n
with_sign (negsuc _) n = neg (pos n)

unfoldable pub scaled_int : ℤ → ℕ → ℤ
unfolding scaled_abs with_sign
scaled_int per30 dt = with_sign per30 (scaled_abs (abs per30) dt)

-- `absMinZero`
unfoldable pub abs_min_zero : ℤ → ℕ
abs_min_zero v = neg_part v

-- The rounded loss for a coefficient over `2 ^ e`.
loss_potential : ℕ → ℕ → ℤ → ℕ → ℤ
unfolding scaled_float abs_min_zero round_half_up
loss_potential coeff e v dt =
    pos
      (round_half_up (scaled_float (round_even (coeff * round_even (abs_min_zero v))) dt) (e + 65))

unfoldable pub hunger_loss_potential : ℤ → ℕ → ℤ
unfolding loss_potential
hunger_loss_potential hunger dt = loss_potential hp_drain_from_hunger_coeff 57 hunger dt

unfoldable pub energy_loss_potential : ℤ → ℕ → ℤ
unfolding loss_potential
energy_loss_potential energy dt = loss_potential hp_drain_from_energy_coeff 55 energy dt

unfoldable pub apply_dual_cap : ℤ → ℤ → ℤ → ℤ × ℤ
apply_dual_cap primary secondary cap =
    if leb_ℤ cap (pos 0)
    then (pos 0, pos 0)
    else let primary_applied = min_ℤ primary cap in
      (primary_applied, min_ℤ secondary (cap -ℤ primary_applied))
