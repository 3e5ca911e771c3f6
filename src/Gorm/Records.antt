-- ===== src/Gorm/Records.antt =====
-- internal/adapter/repo/gorm: action_execution_repo.go, event_repo.go, agent_session_repo.go and
-- tx_manager.go. The JSON of states, events and payloads is a library's.
use clawvival.Base.{ℕ, ℤ, pos, ltb_ℤ, String, Option, none, some, List, [], ◌∷◌, map, if◌then◌else◌}
use clawvival.Survival.Types.{Time, DeathCause, AgentStateAggregate, DomainEvent}
use clawvival.Survival.Value.{Fields}
use clawvival.Auth.Tokens.{Bytes}
use clawvival.Ports.{
  Error, Result, returned, raised, ActionResult, ActionExecutionRecord, ActionExecutionRepository,
  EventRepository, AgentSessionRepository,
}
use clawvival.Gorm.Table.{
  Table, Answer, answered, record_not_found, broken, passed_on, or_not_found,
}
use clawvival.Gorm.Rows.{
  ActionExecutionRow, zero_execution_row, DomainEventRow, zero_event_row, AgentSessionRow,
  zero_session_row,
}

-- `json.Marshal` and `json.Unmarshal`: what cannot be read leaves some value.
pub record RecordJson : Type 0 where
  pub marshal_state : AgentStateAggregate → Bytes
  pub unmarshal_state : Bytes → AgentStateAggregate
  pub marshal_events : List DomainEvent → Bytes
  pub unmarshal_events : Bytes → List DomainEvent
  pub marshal_payload : Fields → Bytes
  pub unmarshal_payload : Bytes → Fields

module _ (json : RecordJson) where
  unfoldable pub decode_result : ActionExecutionRow → ActionResult
  decode_result m = record {
    updated_state = json.unmarshal_state m.updated_state;
    events = json.unmarshal_events m.events;
    result_code = m.result_code;
  }

  -- The type of the intent is not read.
  unfoldable pub execution_of : ActionExecutionRow → Option ActionExecutionRecord
  unfolding decode_result
  execution_of m = some (record {
    agent_id = m.agent_id;
    idempotency_key = m.idempotency_key;
    intent_type = "";
    result = decode_result m;
    applied_at = m.applied_at;
  })

  unfoldable pub execution_row : ActionExecutionRecord → ActionExecutionRow
  execution_row execution = record {
    agent_id = execution.agent_id;
    idempotency_key = execution.idempotency_key;
    intent_type = execution.intent_type;
    dt = pos 0;
    result_code = execution.result.result_code;
    updated_state = json.marshal_state execution.result.updated_state;
    events = json.marshal_events execution.result.events;
    applied_at = execution.applied_at;
  }

  unfoldable pub event_row : String → DomainEvent → DomainEventRow
  event_row agent_id e = record {
    agent_id = agent_id;
    type = e.type;
    occurred_at = e.occurred_at;
    payload = json.marshal_payload e.payload;
  }

  payload_of : Bytes → Fields
  payload_of [] = Fields.done
  payload_of (b ∷ bytes) = json.unmarshal_payload (b ∷ bytes)

  unfoldable pub event_of : DomainEventRow → DomainEvent
  unfolding payload_of
  event_of row = record {
    type = row.type;
    occurred_at = row.occurred_at;
    payload = payload_of row.payload;
  }

  -- No rows are `ErrNotFound`.
  events_of : List DomainEventRow → Result (List DomainEvent)
  unfolding event_of
  events_of [] = raised Error.not_found
  events_of (row ∷ rows) = returned (map event_of (row ∷ rows))

  unfoldable pub listed_events : Answer (List DomainEventRow) → Result (List DomainEvent)
  unfolding events_of
  listed_events (answered rows) = events_of rows
  listed_events record_not_found = passed_on record_not_found
  listed_events (broken e) = passed_on (broken e)

  module _ {S : Type 0} where
    unfoldable pub get_by_idempotency_key :
        Table S ActionExecutionRow → String → String → S → Result (Option ActionExecutionRecord)
    unfolding execution_of
    get_by_idempotency_key db agent_id key s =
        or_not_found execution_of
          (db.first (record zero_execution_row { agent_id = agent_id; idempotency_key = key }) s)

    unfoldable pub save_execution :
        Table S ActionExecutionRow → ActionExecutionRecord → S → Result S
    unfolding execution_row
    save_execution db execution s = passed_on (db.create (execution_row execution) s)

    unfoldable pub append : Table S DomainEventRow → String → List DomainEvent → S → Result S
    unfolding event_row
    append db agent_id [] s = returned s
    append db agent_id (e ∷ events) s =
        passed_on (db.create_all (map (event_row agent_id) (e ∷ events)) s)

    unfoldable pub list_by_agent_id :
        Table S DomainEventRow → String → ℤ → S → Result (List DomainEvent)
    unfolding listed_events
    list_by_agent_id db agent_id limit s = listed_events (
        db.find_latest (record zero_event_row { agent_id = agent_id })
          (if ltb_ℤ (pos 0) limit then some limit else none) s)

    abbrev pub action_execution_repo : Table S ActionExecutionRow → ActionExecutionRepository S
    action_execution_repo db = record {
      get_by_idempotency_key = get_by_idempotency_key db;
      save_execution = save_execution db;
    }

    abbrev pub event_repo : Table S DomainEventRow → EventRepository S
    event_repo db = record { append = append db; list_by_agent_id = list_by_agent_id db }

module _ {S : Type 0} (db : Table S AgentSessionRow) where
  -- A session that is there stays as it is.
  unfoldable pub ensure_active : String → String → ℤ → S → Result S
  ensure_active session_id agent_id start_tick s = passed_on (
      db.create_or (λ old new. old)
        (record zero_session_row {
          session_id = session_id;
          agent_id = agent_id;
          start_tick = start_tick;
          status = "alive";
        })
        s)

  store_of : Answer (ℕ × S) → Result S
  store_of (answered (n, t)) = returned t
  store_of record_not_found = passed_on record_not_found
  store_of (broken e) = passed_on (broken e)

  unfoldable pub close : String → DeathCause → Time → S → Result S
  unfolding store_of
  close session_id cause ended_at s = store_of (
      db.updates (record zero_session_row { session_id = session_id })
        (λ m. record m { status = "dead"; death_cause = cause; ended_at = ended_at }) s)

  abbrev pub agent_session_repo : AgentSessionRepository S
  agent_session_repo = record { ensure_active = ensure_active; close = close }
