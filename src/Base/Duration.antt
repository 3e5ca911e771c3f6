-- ===== src/Base/Duration.antt =====
-- Go's `time.Duration`: the nanoseconds between two times, as an `int64`. A time is the number of
-- nanoseconds since the zero time.
use Prim.Native.Nat.{ℕ, ◌-◌, ◌^◌, ◌%◌, ◌≤◌, ◌<◌}
use mathlib.Core.Path.{◌≡◌}
use native.Mathlib.Nat.{mod-eq_of_lt}
use native.Mathlib.Omega.{arith}
use clawvival.Base.Tests.{ltb, if◌then◌else◌}
use clawvival.Base.Int.{ℤ, pos, negsuc, ◌≤ℤ◌, ltb_ℤ, ◌-ℤ◌}

abbrev pub max_int64 : ℕ
max_int64 = 9_223_372_036_854_775_807

abbrev low_bits : ℤ → ℕ
low_bits (pos n) = n % 2 ^ 64
low_bits (negsuc n) = 2 ^ 64 - 1 - n % 2 ^ 64

-- The `int64` with these bits.
abbrev from_bits : ℕ → ℤ
from_bits w = if ltb w (2 ^ 63) then pos w else negsuc (2 ^ 64 - 1 - w)

-- What an `int64` holds of an integer.
unfoldable pub wrap : ℤ → ℤ
wrap z = from_bits (low_bits z)

-- `t.Sub(u)`, which stops at the least and at the greatest duration.
unfoldable pub sub_time : ℕ → ℕ → ℤ
sub_time t u =
    let d = pos t -ℤ pos u in
    if ltb_ℤ (pos max_int64) d
    then pos max_int64
    else if ltb_ℤ d (negsuc max_int64)
    then negsuc max_int64
    else d

fits : (n : ℕ) → n ≤ max_int64 → n < 2 ^ 64
fits n h = omega arith

pub wrap-small : (z : ℤ) → negsuc max_int64 ≤ℤ z → z ≤ℤ pos max_int64 → wrap z ≡ z
unfolding wrap
wrap-small (pos n) low high = ground (arith, mod-eq_of_lt (fits n (omega arith)))
wrap-small (negsuc n) low high = ground (arith, mod-eq_of_lt (fits n (omega arith)))
