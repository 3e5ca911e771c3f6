-- ===== src/Replay/Page.antt =====
-- internal/app/replay/usecase.go: the page that a request is answered with.
use mathlib.Core.Path.{subst}
use clawvival.Base.{
  ℕ, zero, suc, ◌≡◌, ◌⊎◌, refl, sym, ap, ◌∙◌, arith, inl, inr, ℤ, pos, negsuc, leb_ℤ, pos_part,
  String, str_eq, Bool, true, false, Bool-cases, ◌&&◌, ◌||◌, List, [], if◌then◌else◌,
}
use clawvival.Base.Text.{trim_space}
use clawvival.Survival.Types.{DomainEvent}
use clawvival.Survival.Value.{get, as_text}
use clawvival.World.Provider.{unix}
use clawvival.Ports.{Error, Result, returned, raised, EventRepository}
use clawvival.Replay.{
  Request, Response, has_filters, take, apply_limit, filter, within_times, filter_by_time_window,
  of_session, filter_by_session, limit_of, fetch_limit, page, page_of, replay,
}
use clawvival.Replay.Filters.{
  take-take, above_zero, apply_limit_lem, filter-cong, filter-all, filter-filter,
}
use clawvival.Replay.Latest.{IsLatest, reconstruct-IsLatest}

-- What a list of events is cut to.
abbrev pub listed : List DomainEvent → ℤ → List DomainEvent
listed events limit = if leb_ℤ limit (pos 0) then events else take (pos_part limit) events

-- A store lists the newest events of an agent, as many as it is asked for, or all for none; where
-- there are none, it may say that they are not found.
abbrev pub Lists : {S : Type 0} → EventRepository S → S → String → List DomainEvent → Type 0
Lists repo s agent_id events =
    (limit : ℤ)
    → (repo.list_by_agent_id agent_id limit s ≡ returned (listed events limit))
      ⊎ (events ≡ []) × (repo.list_by_agent_id agent_id limit s ≡ raised Error.not_found)

-- An event no earlier than the start of the window and no later than its end, where a bound that is
-- not positive is none.
abbrev in_window : Request → DomainEvent → Bool
in_window req event =
    let at = unix event.occurred_at in
    (leb_ℤ req.occurred_from (pos 0) || leb_ℤ req.occurred_from at)
    && (leb_ℤ req.occurred_to (pos 0) || leb_ℤ at req.occurred_to)

-- An event whose payload names the session that is asked for, where one is.
abbrev in_session : Request → DomainEvent → Bool
in_session req event =
    str_eq (trim_space req.session_id) ""
    || str_eq (as_text (get "session_id" event.payload)) (trim_space req.session_id)

-- An event that is in the window of a request and of its session.
abbrev pub matches : Request → DomainEvent → Bool
matches req event = in_window req event && in_session req event

window_lem :
    (events : List DomainEvent) (req : Request)
    → filter_by_time_window events req.occurred_from req.occurred_to ≡ filter (in_window req) events
unfolding filter_by_time_window within_times
window_lem events req =
    elim (Bool-cases (leb_ℤ req.occurred_from (pos 0) && leb_ℤ req.occurred_to (pos 0))) [
      | inl unbounded ↦
          rw unbounded (sym (filter-all (in_window req) events (λ e. ground (arith, unbounded))))
      | inr bounded ↦ rw bounded (
          filter-cong (within_times req.occurred_from req.occurred_to) (in_window req) events
            (λ e. ground arith))
    ]

session_lem :
    (events : List DomainEvent) (req : Request)
    → filter_by_session events req.session_id ≡ filter (in_session req) events
unfolding filter_by_session of_session
session_lem events req = elim (Bool-cases (str_eq (trim_space req.session_id) "")) [
  | inl blank ↦ rw blank (sym (filter-all (in_session req) events (λ e. ground (arith, blank))))
  | inr named ↦ rw named (
      filter-cong (of_session (trim_space req.session_id)) (in_session req) events
        (λ e. ground (arith, named)))
]

limit_of-pos : (req : Request) → (n : ℕ) × (limit_of req ≡ pos (suc n))
unfolding limit_of
limit_of-pos req = from_limit req.limit
  where
    from_limit : (l : ℤ) → (n : ℕ) × ((if leb_ℤ l (pos 0) then pos 100 else l) ≡ pos (suc n))
    from_limit (pos zero) = (99, refl)
    from_limit (pos (suc n)) = (n, ground arith)
    from_limit (negsuc n) = (99, ground arith)

-- What is filtered and cut of the events that are fetched.
page_events :
    (req : Request) (events : List DomainEvent) (n : ℕ)
    → limit_of req ≡ pos (suc n)
    → (page req events).events ≡ take (suc n) (filter (matches req) events)
unfolding page
page_events req events n e =
    ap
      (apply_limit (
        filter_by_session (filter_by_time_window events req.occurred_from req.occurred_to)
          req.session_id))
      e
    ∙ apply_limit_lem _ n
    ∙ ap (take (suc n)) (
        session_lem _ req
        ∙ ap (filter (in_session req)) (window_lem events req)
        ∙ filter-filter (in_window req) (in_session req) events)

no_filters :
    (req : Request) → has_filters req ≡ false → (event : DomainEvent) → matches req event ≡ true
unfolding has_filters
no_filters req h event = ground (arith, h)

-- The events that match, as many as the limit.
abbrev pub shown_of : Request → List DomainEvent → List DomainEvent
shown_of req events = take (pos_part (limit_of req)) (filter (matches req) events)

-- No more is fetched than is shown where nothing is filtered.
page_fetched :
    (req : Request) (events : List DomainEvent)
    → (page req (listed events (fetch_limit req))).events ≡ shown_of req events
unfolding fetch_limit
page_fetched req events =
    let (n, positive) = limit_of-pos req in
    elim (Bool-cases (has_filters req)) [
      | inl filtered ↦ rw filtered (
          page_events req events n positive
          ∙ ap (λ l. take (pos_part l) (filter (matches req) events)) (sym positive))
      | inr unfiltered ↦
          let all : (xs : List DomainEvent) → filter (matches req) xs ≡ xs =
            λ xs. filter-all (matches req) xs (no_filters req unfiltered) in
          rw (unfiltered, positive, above_zero n)
            (page_events req (take (suc n) events) n positive
              ∙ ap (take (suc n)) (all (take (suc n) events))
              ∙ take-take (suc n) events
              ∙ ap (take (suc n)) (sym (all events)))
    ]

-- What a request is answered with: the events that match, and the state that they tell of.
pub record IsPage (req : Request) (events : List DomainEvent) (answer : Result Response)
    : Type 0 where
  pub response : Response
  pub answered : answer ≡ returned response
  pub shown : response.events ≡ shown_of req events
  pub latest : IsLatest req.agent_id (shown_of req events) response.latest_state

page-IsPage :
    (req : Request) (events fetched : List DomainEvent)
    → (page req fetched).events ≡ shown_of req events
    → IsPage req events (returned (page req fetched))
unfolding page
page-IsPage req events fetched e = record {
  response = page req fetched;
  answered = refl;
  shown = e;
  latest =
      subst (λ xs. IsLatest req.agent_id xs (page req fetched).latest_state) e
        (reconstruct-IsLatest req.agent_id (page req fetched).events);
}

nothing_listed : (limit : ℤ) → listed [] limit ≡ []
unfolding take
nothing_listed limit = none_of limit
  where
    none_of : (l : ℤ) → listed [] l ≡ []
    none_of (pos zero) = refl
    none_of (pos (suc n)) = ground arith
    none_of (negsuc n) = ground arith

-- A request for an agent is answered with the newest events that are no earlier than the start of
-- its window, no later than the end, and of its session, where it names these, as many as its limit
-- or 100, whether the store is asked for all events or for no more than that; and with the vitals
-- and the position that the newest of them that tells of a state tells of, or an empty state. The
-- store lists the newest events of the agent, or finds none where there are none.
pub replay-IsPage :
    {S : Type 0} (repo : EventRepository S) (req : Request) (s : S) (events : List DomainEvent)
    → str_eq (trim_space req.agent_id) "" ≡ false
    → Lists repo s req.agent_id events
    → IsPage req events (replay repo req s)
unfolding replay page_of
replay-IsPage repo req s events named lists = elim (lists (fetch_limit req)) [
  | inl found ↦
      rw (named, found)
        (page-IsPage req events (listed events (fetch_limit req)) (page_fetched req events))
  | inr (nothing, absent) ↦
      rw (named, absent)
        (page-IsPage req events [] (
          ap (λ xs. (page req xs).events) (sym (nothing_listed (fetch_limit req)))
          ∙ ap (λ xs. (page req (listed xs (fetch_limit req))).events) (sym nothing)
          ∙ page_fetched req events))
]
