-- ===== src/Survival/Settlement/Home.antt =====
-- internal/domain/survival/service_settlement.go: `moveToward` of the forced retreat.
use clawvival.Base.{ℕ, zero, suc, ◌≤◌, ◌-◌, ◌≡◌, ℤ, ◌+ℤ◌, ◌-ℤ◌, abs, arith}
use clawvival.Survival.Types.{Position}
use clawvival.Survival.Settlement.{move_toward, step_toward}

-- How far two coordinates are apart.
abbrev pub gap : ℤ → ℤ → ℕ
gap a b = abs (a -ℤ b)

step_toward-gap : (a b : ℤ) → gap (step_toward a b) b ≡ gap a b - 1
unfolding step_toward ◌+ℤ◌ ◌-ℤ◌
step_toward-gap a b = ground arith

gap_zero : (a b : ℤ) → gap a b ≡ 0 → a ≡ b
unfolding ◌-ℤ◌
gap_zero a b h = ground arith

-- `n` forced retreats in a row.
abbrev pub retreats : ℕ → Position → Position → Position
retreats zero p home = p
retreats (suc n) p home = retreats n (move_toward p home) home

-- A retreat brings each coordinate that is off one nearer to home, and after as many retreats as
-- the larger of the two distances the agent is at home, and stays there.
pub retreats_home :
    (n : ℕ) (p home : Position) → gap p.x home.x ≤ n → gap p.y home.y ≤ n → retreats n p home ≡ home
unfolding move_toward
retreats_home zero p home hx hy =
    λ i. record { x = gap_zero p.x home.x (omega arith) i; y = gap_zero p.y home.y (omega arith) i }
retreats_home (suc n) p home hx hy =
    retreats_home n (move_toward p home) home (omega (arith, step_toward-gap p.x home.x))
      (omega (arith, step_toward-gap p.y home.y))
