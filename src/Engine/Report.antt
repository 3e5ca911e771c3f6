-- ===== src/Engine/Report.antt =====
-- internal/app/action/engine_common.go: what the responses report of the events, and the events
-- that are read before an action.
use clawvival.Base.{
  ℤ, pos, ◌+ℤ◌, ◌*ℤ◌, String, str_eq, Option, none, some, List, [], ◌∷◌, if◌then◌else◌,
}
use clawvival.Survival.Value.{Value, int, Fields, get, as_obj, done, field}
use clawvival.Survival.Types.{DomainEvent}
use clawvival.Ports.{Error, Result, returned, raised, ActionExecutionRecord, EventRepository}

-- Where the store has no events, none are listed.
or_no_events : Result (List DomainEvent) → Result (List DomainEvent)
or_no_events (raised Error.not_found) = returned []
or_no_events r = r

unfoldable pub list_recent_events :
    {S : Type 0} → EventRepository S → String → S → Result (List DomainEvent)
unfolding or_no_events
list_recent_events repo agent_id s = or_no_events (repo.list_by_agent_id agent_id (pos 50) s)

-- `toNum`. The numbers of a payload are integers.
abbrev pub to_num : Value → ℤ
to_num (int n) = n
to_num _ = pos 0

summary_of : Option Fields → Option Fields
summary_of none = none
summary_of (some result) = some (
    field "hp_loss" (get "hp_loss" result) (
      field "inventory_delta" (get "inventory_delta" result) (
        field "vitals_delta" (get "vitals_delta" result)
          (field "vitals_change_reasons" (get "vitals_change_reasons" result) done))))

-- The first settled action decides.
unfoldable pub settlement_summary : List DomainEvent → Option Fields
unfolding summary_of
settlement_summary [] = none
settlement_summary (event ∷ events) =
    if str_eq event.type "action_settled"
    then summary_of (as_obj (get "result" event.payload))
    else settlement_summary events

abbrev pub world_time_window : ℤ → ℤ → ℤ × ℤ
world_time_window before dt_minutes = (before, before +ℤ dt_minutes *ℤ pos 60)

-- `m[k]`, with whether it is there.
unfoldable pub find : String → Fields → Option Value
find k done = none
find k (field j v m) = if str_eq j k then some v else find k m

window_or : Option Value → Option Value → Option (ℤ × ℤ) → Option (ℤ × ℤ)
window_or none after rest = rest
window_or (some before) none rest = rest
window_or (some before) (some after) rest = some (to_num before, to_num after)

unfoldable pub world_time_window_from_event_payload : List DomainEvent → Option (ℤ × ℤ)
unfolding window_or
world_time_window_from_event_payload [] = none
world_time_window_from_event_payload (event ∷ events) =
    window_or (find "world_time_before_seconds" event.payload)
      (find "world_time_after_seconds" event.payload) (world_time_window_from_event_payload events)

or_window : ℤ × ℤ → Option (ℤ × ℤ) → ℤ × ℤ
or_window fallback none = fallback
or_window fallback (some window) = window

unfoldable pub world_time_window_from_events : List DomainEvent → ℤ → ℤ → ℤ × ℤ
unfolding or_window
world_time_window_from_events events fallback_before dt_minutes =
    or_window (world_time_window fallback_before dt_minutes)
      (world_time_window_from_event_payload events)

unfoldable pub world_time_window_from_execution : ActionExecutionRecord → ℤ × ℤ
unfolding or_window
world_time_window_from_execution exec =
    or_window (pos 0, pos 0) (world_time_window_from_event_payload exec.result.events)
