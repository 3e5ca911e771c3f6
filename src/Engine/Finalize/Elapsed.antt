-- ===== src/Engine/Finalize/Elapsed.antt =====
-- internal/app/action/engine_common.go and action_rest.go: the minutes of an action that goes on.
use clawvival.Base.{
  ℕ, zero, suc, pos_part, if◌then◌else◌, ◌+◌, ◌-◌, ◌*◌, ◌/◌, ◌≤◌, ◌<◌, ◌≡◌, ◌⊎◌, inl, inr, arith,
  pos, ◌+ℤ◌, ◌-ℤ◌, ◌*ℤ◌, Bool-cases, ltb,
}
use clawvival.Base.Duration.{sub_time, max_int64}
use clawvival.Survival.Types.{Time, OngoingActionInfo}
use clawvival.Survival.Tuning.{minute}
use clawvival.Engine.Context.{ActionContext}
use clawvival.Engine.Finalize.{elapsed_minutes, add_minutes}
use clawvival.Engine.Handlers.{rest_info}

add_minutes-pos : (t m : ℕ) → add_minutes t (pos m) ≡ t + m * minute
unfolding add_minutes ◌+ℤ◌ ◌*ℤ◌
add_minutes-pos t m = ground arith

-- A time before the zero time is the zero time.
add_minutes-neg : (t m : ℕ) → add_minutes t (pos 0 -ℤ pos m) ≡ t - m * minute
unfolding add_minutes ◌-ℤ◌ ◌+ℤ◌ ◌*ℤ◌
add_minutes-neg t zero = ground arith
add_minutes-neg t (suc m) = ground arith

sub_time-pos : (t u : ℕ) → u ≤ t → t - u ≤ max_int64 → sub_time t u ≡ pos (t - u)
unfolding sub_time ◌-ℤ◌
sub_time-pos t u h k = ground arith

sub_time-neg : (t u : ℕ) → t ≤ u → pos_part (sub_time t u) ≡ 0
unfolding sub_time ◌-ℤ◌
sub_time-neg t u h = ground arith

-- The whole minutes since a time.
abbrev pub minutes_since : Time → Time → ℕ
minutes_since begun now = (now - begun) / minute

-- The minutes that are settled of an action that was begun for some minutes.
elapsed-begun :
    (g : OngoingActionInfo) (begun m now : ℕ)
    → g.minutes ≡ pos m
    → g.end_at ≡ begun + m * minute
    → begun ≤ now
    → now - begun ≤ max_int64
    → elapsed_minutes g now
      ≡ (if ltb m (minutes_since begun now) then pos m else pos (minutes_since begun now))
unfolding elapsed_minutes
elapsed-begun g begun m now e f h k =
    rw (e, f, add_minutes-neg (begun + m * minute) m)
      (rw (back begun (m * minute), sub_time-pos now begun h k) (ground arith))
  where
    back : (a b : ℕ) → a + b - b ≡ a
    back a b = omega arith

-- Before its end a rest has taken the whole minutes since it began, which are fewer than it was
-- begun for; at its end and after it, it has taken exactly those that it was begun for. This holds
-- from its beginning on, for as long as a duration can be.
pub rest-elapsed :
    (ac : ActionContext) (m : ℕ) (now : Time)
    → ac.tmp.resolved_intent.rest_minutes ≡ pos m
    → ac.input.now_at ≤ now
    → now - ac.input.now_at ≤ max_int64
    → (now < (rest_info ac).end_at)
        × (elapsed_minutes (rest_info ac) now ≡ pos (minutes_since ac.input.now_at now))
        × (minutes_since ac.input.now_at now < m)
      ⊎ ((rest_info ac).end_at ≤ now) × (elapsed_minutes (rest_info ac) now ≡ pos m)
unfolding rest_info
rest-elapsed ac m now e h k =
    let begun = ac.input.now_at in
    let ends : (rest_info ac).end_at ≡ begun + m * minute = rw e (add_minutes-pos begun m) in
    let taken = elapsed-begun (rest_info ac) begun m now e ends h k in
    elim (Bool-cases (ltb now (begun + m * minute))) [
      | inl early ↦
          let fewer : minutes_since begun now < m = ground (arith, early) in
          inl (ground (arith, early, ends), ground (arith, fewer, taken), fewer)
      | inr over ↦
          let all : m ≤ minutes_since begun now = ground (arith, over) in
          inr (ground (arith, over, ends), ground (arith, all, taken))
    ]
