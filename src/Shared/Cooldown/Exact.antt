-- ===== src/Shared/Cooldown/Exact.antt =====
-- internal/app/shared/cooldown: the seconds of `RemainingForAction`.
use clawvival.Base.{
  ℕ, ◌+◌, ◌-◌, ◌*◌, ◌/◌, ◌≤◌, ◌<◌, ℤ, pos, ◌+ℤ◌, ◌-ℤ◌, leb_ℤ, ◌≡◌, refl, ap, ◌∙◌, ◌⊎◌, inl, inr,
  arith, Option, none, some, List, ◌==◌, if◌then◌else◌, true, false,
}
use mathlib.Core.Path.{subst}
use clawvival.Base.Duration.{max_int64, wrap, sub_time, wrap-small}
use clawvival.Survival.Types.{Time, ActionType, DomainEvent}
use clawvival.Survival.Tuning.{action_cooldown_durations, second}
use clawvival.Shared.Cooldown.{
  remaining_seconds, remaining_of, remaining_for_action, latest_action_at,
}

sub_time-eq : (t u : ℕ) → u ≤ t → t - u ≤ max_int64 → sub_time t u ≡ pos (t - u)
unfolding sub_time ◌-ℤ◌
sub_time-eq t u h fits = ground arith

-- Seconds, rounded up.
Ceiling : ℕ → ℕ → Type 0
Ceiling r n = (r ≤ n * second) × (n * second < r + second)

with_rest : (r : ℕ) → 0 < r → pos r +ℤ pos second -ℤ pos 1 ≡ pos (r + second - 1)
unfolding ◌+ℤ◌ ◌-ℤ◌
with_rest r p = ground arith

rounded : (r : ℕ) → 0 < r → Ceiling r ((r + second - 1) / second)
unfolding Ceiling
rounded r p = (omega arith, omega arith)

at_least_one : (r : ℕ) → 0 < r → 0 < (r + second - 1) / second
at_least_one r p = omega arith

keep : (n : ℕ) → 0 < n → (if n == 0 then 1 else n) ≡ n
keep n p = ground arith

unwrapped :
    (r : ℕ)
    → 0 < r
    → r + second ≤ max_int64
    → wrap (pos r +ℤ pos second -ℤ pos 1) ≡ pos (r + second - 1)
unwrapped r p fits =
    ap wrap (with_rest r p) ∙ wrap-small (pos (r + second - 1)) (omega arith) (omega arith)

remaining_seconds-Ceiling :
    (r : ℕ) → 0 < r → r + second ≤ max_int64 → Ceiling r (remaining_seconds (pos r))
unfolding remaining_seconds
remaining_seconds-Ceiling r p fits =
    rw (unwrapped r p fits, keep ((r + second - 1) / second) (at_least_one r p)) (rounded r p)

unclamped :
    (d e : ℕ) → d ≤ 1_000_000 * second → e ≤ max_int64 → wrap (pos d -ℤ pos e) ≡ pos d -ℤ pos e
unfolding ◌-ℤ◌
unclamped d e short fits = wrap-small (pos d -ℤ pos e) (ground arith) (ground arith)

left :
    (d last now : ℕ)
    → d ≤ 1_000_000 * second
    → last ≤ now
    → now - last ≤ max_int64
    → wrap (pos d -ℤ sub_time now last) ≡ pos d -ℤ pos (now - last)
left d last now short past fits =
    ap (λ (e : ℤ). wrap (pos d -ℤ e)) (sub_time-eq now last past fits)
    ∙ unclamped d (now - last) short fits

sub_cases :
    (d e : ℕ)
    → (d ≤ e) × (leb_ℤ (pos d -ℤ pos e) (pos 0) ≡ true) ⊎ (e < d) × (pos d -ℤ pos e ≡ pos (d - e))
unfolding ◌-ℤ◌
sub_cases d e = ground arith

not_zero : (n : ℕ) → 0 < n → (n == 0) ≡ false
not_zero n p = ground arith

not_over : (a : ℕ) → 0 < a → leb_ℤ (pos a) (pos 0) ≡ false
not_over a p = ground arith

remaining_of-cases :
    (d last now : ℕ)
    → d ≤ 1_000_000 * second
    → 0 < last
    → last ≤ now
    → now - last ≤ max_int64
    → (d ≤ now - last) × (remaining_of (some d) last now ≡ none)
      ⊎ (now - last < d)
        × (remaining_of (some d) last now ≡ some (remaining_seconds (pos (d - (now - last)))))
unfolding remaining_of
remaining_of-cases d last now short settled past fits = elim (sub_cases d (now - last)) [
  | inl (over, stops) ↦
      inl (over, rw (not_zero last settled, left d last now short past fits, stops) refl)
  | inr (ahead, rest) ↦ inr (
    ahead,
    rw
        (
          not_zero last settled,
          left d last now short past fits,
          rest,
          not_over (d - (now - last)) (omega arith),
        )
        refl,
  )
]

Short : Option ℕ → Type 0
Short none = Unit
Short (some d) = d ≤ 1_000_000 * second

action_cooldown_durations-Short : (t : ActionType) → Short (action_cooldown_durations t)
unfolding Short
action_cooldown_durations-Short ActionType.build = omega arith
action_cooldown_durations-Short ActionType.craft = omega arith
action_cooldown_durations-Short ActionType.farm_plant = omega arith
action_cooldown_durations-Short ActionType.move = omega arith
action_cooldown_durations-Short ActionType.sleep = omega arith
action_cooldown_durations-Short _ = tt

pub short_duration :
    (t : ActionType) (d : ℕ) → action_cooldown_durations t ≡ some d → d ≤ 1_000_000 * second
unfolding Short
short_duration t d h = subst Short h (action_cooldown_durations-Short t)

ceiling_of :
    (d e : ℕ)
    → e < d
    → d ≤ 1_000_000 * second
    → let n = remaining_seconds (pos (d - e)) in
      (d - e ≤ n * second) × (n * second < d - e + second)
unfolding Ceiling
ceiling_of d e ahead short = remaining_seconds-Ceiling (d - e) (omega arith) (omega arith)

-- The cooldown of a type against the last settled action of the type, which lies in the past: it is
-- over once its duration has passed, and until then the seconds that are left are returned, rounded
-- up.
pub remaining_for_action_lem :
    (events : List DomainEvent) (t : ActionType) (now : Time) {d : ℕ}
    → action_cooldown_durations t ≡ some d
    → 0 < latest_action_at events t
    → latest_action_at events t ≤ now
    → now - latest_action_at events t ≤ max_int64
    → let since = now - latest_action_at events t in
      (d ≤ since) × (remaining_for_action events t now ≡ none)
      ⊎ (since < d)
        × ((n : ℕ) × (remaining_for_action events t now ≡ some n)
            × (d - since ≤ n * second)
            × (n * second < d - since + second))
unfolding remaining_for_action
remaining_for_action_lem events t now {d} h settled past fits =
    let last = latest_action_at events t in
    let short = short_duration t d h in
    elim (remaining_of-cases d last now short settled past fits) [
      | inl (over, e) ↦ inl (over, rw h e)
      | inr (ahead, e) ↦ inr (
        ahead,
        (
          remaining_seconds (pos (d - (now - last))),
          rw h e,
          (ceiling_of d (now - last) ahead short).0,
          (ceiling_of d (now - last) ahead short).1,
        ),
      )
    ]
