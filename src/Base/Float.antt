-- ===== src/Base/Float.antt =====
-- Go's `float64`, as far as the program computes with it: products and quotients of numbers that
-- are not negative, each rounded to the nearest double, ties to even. A double is held as a
-- numerator over a power of two that the caller keeps.
use Prim.Native.Nat.{ℕ, zero, suc, ◌+◌, ◌*◌, ◌/◌, ◌%◌, ◌^◌, ◌<◌}
use mathlib.Core.Path.{◌≡◌}
use native.Mathlib.Omega.{arith}
use mathlib.Core.Bool.{true, false, ◌&&◌, ◌||◌}
use clawvival.Base.Tests.{ltb, ◌==◌, if◌then◌else◌}

-- How many low bits a numerator has beyond the 53 of a double. The fuel is above the bit length
-- of every product that the program forms.
excess_bits : ℕ → ℕ → ℕ
excess_bits zero m = 0
excess_bits (suc fuel) m = elim (ltb m (2 ^ 53)) [
  | true ↦ 0
  | false ↦ suc (excess_bits fuel (m / 2))
]

-- Round to nearest, ties to even, at `s` bits above the last.
round_at : ℕ → ℕ → ℕ
round_at zero m = m
round_at (suc s) m =
    let q = m / 2 ^ suc s in
    let r = 2 * (m % 2 ^ suc s) in
    if ltb (2 ^ suc s) r || (r == 2 ^ suc s && q % 2 == 1)
    then (q + 1) * 2 ^ suc s
    else q * 2 ^ suc s

unfoldable pub round_even : ℕ → ℕ
unfolding excess_bits round_at
round_even m = round_at (excess_bits 512 m) m

-- The quotient by a small integer: 64 more bits, and a last bit that says whether a rest is left.
unfoldable pub div_even : ℕ → ℕ → ℕ
unfolding round_even
div_even m d = round_even (2 * (m * 2 ^ 64 / d) + (if m * 2 ^ 64 % d == 0 then 0 else 1))

-- `math.Round` of a numerator over `2 ^ e`: to the nearest integer, halves up.
unfoldable pub round_half_up : ℕ → ℕ → ℕ
round_half_up m e = (2 * m + 2 ^ e) / 2 ^ (e + 1)

-- An integer below 2 ^ 53 is a double.
pub round_even-small : (m : ℕ) → m < 2 ^ 53 → round_even m ≡ m
unfolding round_even excess_bits round_at
round_even-small m small = ground arith
