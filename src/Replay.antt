-- ===== src/Replay.antt =====
-- internal/app/replay: the events of an agent, within a window of time and of one session.
pub mod Filters
pub mod Latest
pub mod Page
mod Tests
use clawvival.Base.{
  ℕ, zero, suc, ℤ, pos, leb_ℤ, ltb_ℤ, pos_part, length, String, str_eq, Bool, true, false, not,
  ◌&&◌, ◌||◌, Option, none, some, List, [], ◌∷◌, if◌then◌else◌,
}
use clawvival.Base.Text.{trim_space}
use clawvival.Survival.Value.{Value, Fields, int, time, get, as_obj, as_text}
use clawvival.Survival.Types.{AgentStateAggregate, DomainEvent}
use clawvival.World.Provider.{unix}
use clawvival.Ports.{Error, Result, returned, raised, EventRepository}
use clawvival.Engine.Context.{zero_state}

pub record Request : Type 0 where
  pub agent_id : String
  pub limit : ℤ
  pub occurred_from : ℤ
  pub occurred_to : ℤ
  pub session_id : String

pub record Response : Type 0 where
  pub events : List DomainEvent
  pub latest_state : AgentStateAggregate

unfoldable pub has_filters : Request → Bool
has_filters req =
    ltb_ℤ (pos 0) req.occurred_from
    || ltb_ℤ (pos 0) req.occurred_to
    || not (str_eq (trim_space req.session_id) "")

-- `events[:limit]`
unfoldable pub take : {A : Type 0} → ℕ → List A → List A
take zero xs = []
take (suc n) [] = []
take (suc n) (x ∷ xs) = x ∷ take n xs

unfoldable pub apply_limit : List DomainEvent → ℤ → List DomainEvent
apply_limit events limit =
    if leb_ℤ limit (pos 0) || leb_ℤ (pos (length events)) limit
    then events
    else take (pos_part limit) events

-- The events that pass a test, in their order.
unfoldable pub filter : (DomainEvent → Bool) → List DomainEvent → List DomainEvent
filter test [] = []
filter test (event ∷ events) =
    let rest = filter test events in if test event then event ∷ rest else rest

unfoldable pub within_times : ℤ → ℤ → DomainEvent → Bool
within_times from to event =
    let at = unix event.occurred_at in
    if ltb_ℤ (pos 0) from && ltb_ℤ at from then false else not (ltb_ℤ (pos 0) to && ltb_ℤ to at)

unfoldable pub filter_by_time_window : List DomainEvent → ℤ → ℤ → List DomainEvent
unfolding within_times
filter_by_time_window events from to =
    if leb_ℤ from (pos 0) && leb_ℤ to (pos 0) then events else filter (within_times from to) events

unfoldable pub of_session : String → DomainEvent → Bool
of_session session_id event = str_eq (as_text (get "session_id" event.payload)) session_id

unfoldable pub filter_by_session : List DomainEvent → String → List DomainEvent
unfolding of_session
filter_by_session events session =
    let session_id = trim_space session in
    if str_eq session_id "" then events else filter (of_session session_id) events

-- `num(v)` of an integer or a time.
unfoldable pub num : Value → ℤ
num (int n) = n
num (time t) = unix t
num _ = pos 0

unfoldable pub state_of : Fields → AgentStateAggregate
unfolding num
state_of after = record zero_state {
  vitals = record {
    hp = num (get "hp" after);
    hunger = num (get "hunger" after);
    energy = num (get "energy" after);
  };
  position = record { x = num (get "x" after); y = num (get "y" after) };
}

unfoldable pub state_or : Option Fields → AgentStateAggregate → AgentStateAggregate
unfolding state_of
state_or none rest = rest
state_or (some after) rest = state_of after

-- The first event that tells of a state decides.
unfoldable pub reconstruct : List DomainEvent → AgentStateAggregate
unfolding state_or
reconstruct [] = zero_state
reconstruct (event ∷ events) =
    state_or (as_obj (get "state_after" event.payload)) (reconstruct events)

unfoldable pub limit_of : Request → ℤ
limit_of req = if leb_ℤ req.limit (pos 0) then pos 100 else req.limit

-- What is asked of the store: all events where some are left out after.
unfoldable pub fetch_limit : Request → ℤ
unfolding has_filters limit_of
fetch_limit req = if has_filters req then pos 0 else limit_of req

unfoldable pub page : Request → List DomainEvent → Response
unfolding filter_by_time_window filter_by_session apply_limit limit_of
page req fetched =
    let events =
      apply_limit
        (filter_by_session (filter_by_time_window fetched req.occurred_from req.occurred_to)
          req.session_id)
        (limit_of req) in
    record {
      events = events;
      latest_state = record (reconstruct events) { agent_id = req.agent_id };
    }

page_of : Request → Result (List DomainEvent) → Result Response
unfolding page
page_of req (returned events) = returned (page req events)
page_of req (raised Error.not_found) = returned (page req [])
page_of req (raised e) = raised e

-- `UseCase.Execute`
unfoldable pub replay : {S : Type 0} → EventRepository S → Request → S → Result Response
unfolding page_of fetch_limit
replay repo req s =
    if str_eq (trim_space req.agent_id) ""
    then raised Error.invalid_request
    else page_of req (repo.list_by_agent_id req.agent_id (fetch_limit req) s)
