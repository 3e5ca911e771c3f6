-- ===== src/Survival/Settlement/Health.antt =====
-- internal/domain/survival/service_settlement.go: the loss of health and its cap.
use clawvival.Base.{ℕ, ℤ, pos, ◌+ℤ◌, ◌-ℤ◌, ◌≤ℤ◌, ◌≡◌, ◌⊎◌, arith}
use clawvival.Survival.Types.{Vitals}
use clawvival.Survival.Tuning.{hp_drain_cap_per30}
use clawvival.Survival.Drain.{
  scaled_int, hunger_loss_potential, energy_loss_potential, apply_dual_cap,
}
use clawvival.Survival.Settlement.{hp_losses}

-- Both parts are within their potentials, and together within the cap; the second part is cut
-- only when the cap is used up.
pub record IsCapped (primary secondary cap : ℤ) (applied : ℤ × ℤ) : Type 0 where
  pub first_nonneg : pos 0 ≤ℤ applied.0
  pub second_nonneg : pos 0 ≤ℤ applied.1
  pub first_within : applied.0 ≤ℤ primary
  pub second_within : applied.1 ≤ℤ secondary
  pub within_cap : applied.0 +ℤ applied.1 ≤ℤ cap
  pub greedy : (applied.1 ≡ secondary) ⊎ (applied.0 +ℤ applied.1 ≡ cap)
  pub first_greedy : (applied.0 ≡ primary) ⊎ (applied ≡ (cap, pos 0))

pub apply_dual_cap-IsCapped :
    (p s c : ℤ) → pos 0 ≤ℤ p → pos 0 ≤ℤ s → pos 0 ≤ℤ c → IsCapped p s c (apply_dual_cap p s c)
unfolding apply_dual_cap ◌+ℤ◌ ◌-ℤ◌
apply_dual_cap-IsCapped (pos p) (pos s) (pos c) hp hs hc = ground arith
apply_dual_cap-IsCapped _ _ _ hp hs hc = absurd (omega arith)

potentials_nonneg :
    (h : ℤ) (dt : ℕ) → (pos 0 ≤ℤ hunger_loss_potential h dt) × (pos 0 ≤ℤ energy_loss_potential h dt)
unfolding hunger_loss_potential energy_loss_potential
potentials_nonneg h dt = (omega arith, omega arith)

pos_nonneg : (n : ℕ) → pos 0 ≤ℤ pos n
pos_nonneg n = omega arith

pub cap_nonneg : (dt : ℕ) → pos 0 ≤ℤ scaled_int hp_drain_cap_per30 dt
unfolding scaled_int
cap_nonneg dt = pos_nonneg _

pub hp_losses-IsCapped :
    (v : Vitals) (dt : ℕ)
    → IsCapped
        (hunger_loss_potential v.hunger dt)
        (energy_loss_potential v.energy dt)
        (scaled_int hp_drain_cap_per30 dt)
        (hp_losses v dt)
unfolding hp_losses
hp_losses-IsCapped v dt =
    apply_dual_cap-IsCapped _ _ _ (potentials_nonneg v.hunger dt).0
      (potentials_nonneg v.energy dt).1 (cap_nonneg dt)
