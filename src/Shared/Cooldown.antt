-- ===== src/Shared/Cooldown.antt =====
-- internal/app/shared/cooldown: how long an action type is barred, by the events of the agent.
pub mod Exact
pub mod Blocking
use clawvival.Base.{
  ℕ, ◌+◌, ◌-◌, ◌/◌, ◌==◌, ltb, ℤ, pos, ◌+ℤ◌, ◌-ℤ◌, leb_ℤ, pos_part, String, str_eq, Bool, false,
  ◌&&◌, Option, none, some, List, [], ◌∷◌, ◌++◌, if◌then◌else◌,
}
use clawvival.Base.Text.{trim_space}
use clawvival.Base.Dict.{Dict, insert}
use clawvival.Base.Duration.{wrap, sub_time}
use clawvival.Survival.Value.{Fields, get, as_obj, as_text, text, obj, done, field}
use clawvival.Survival.Types.{Time, ActionType, ActionType_text, DomainEvent}
use clawvival.Survival.Tuning.{action_cooldown_durations, second}

intent_of : Option Fields → Option String
intent_of none = none
intent_of (some decision) = some (as_text (get "intent" decision))

has_intent : Option String → ActionType → Bool
has_intent none t = false
has_intent (some intent) t = str_eq (trim_space intent) (ActionType_text t)

-- The event is of a settled action of the type.
unfoldable pub is_settled : DomainEvent → ActionType → Bool
unfolding intent_of has_intent
is_settled e t =
    str_eq e.type "action_settled" && has_intent (intent_of (as_obj (get "decision" e.payload))) t

-- The loop of `latestActionAt`.
unfoldable pub latest_from : Time → List DomainEvent → ActionType → Time
latest_from last [] t = last
latest_from last (e ∷ es) t =
    latest_from (if is_settled e t && ltb last e.occurred_at then e.occurred_at else last) es t

unfoldable pub latest_action_at : List DomainEvent → ActionType → Time
latest_action_at events t = latest_from 0 events t

-- The seconds that a positive duration has begun, of which there is at least one.
unfoldable pub remaining_seconds : ℤ → ℕ
remaining_seconds remaining =
    let n = pos_part (wrap (remaining +ℤ pos second -ℤ pos 1)) / second in if n == 0 then 1 else n

unfoldable pub remaining_of : Option ℕ → Time → Time → Option ℕ
remaining_of none last now = none
remaining_of (some cooldown) last now =
    let remaining = wrap (pos cooldown -ℤ sub_time now last) in
    if last == 0
    then none
    else if leb_ℤ remaining (pos 0)
    then none
    else some (remaining_seconds remaining)

unfoldable pub remaining_for_action : List DomainEvent → ActionType → Time → Option ℕ
unfolding remaining_of
remaining_for_action events t now =
    remaining_of (action_cooldown_durations t) (latest_action_at events t) now

-- The keys of `ActionCooldownDurations`.
abbrev pub cooldown_types : List ActionType
cooldown_types =
    ActionType.build ∷ ActionType.craft ∷ ActionType.farm_plant ∷ ActionType.move ∷ ActionType.sleep
    ∷ []

put_remaining : ActionType → Option ℕ → Dict ℤ → Dict ℤ
put_remaining t none m = m
put_remaining t (some n) m = insert (ActionType_text t) (pos n) m

remaining_over : List ActionType → List DomainEvent → Time → Dict ℤ → Dict ℤ
unfolding put_remaining
remaining_over [] events now m = m
remaining_over (t ∷ ts) events now m =
    remaining_over ts events now (put_remaining t (remaining_for_action events t now) m)

unfoldable pub remaining_by_action : List DomainEvent → Time → Dict ℤ
unfolding remaining_over
remaining_by_action events now = remaining_over cooldown_types events now []

unfoldable pub event_for_intent : ActionType → Time → DomainEvent
event_for_intent t at = record {
  type = "action_settled";
  occurred_at = at;
  payload = field "decision" (obj (field "intent" (text (ActionType_text t)) done)) done;
}

unfoldable pub remaining_by_action_with_current : List DomainEvent → Time → ActionType → Dict ℤ
remaining_by_action_with_current events now current =
    remaining_by_action (events ++ event_for_intent current now ∷ []) now
