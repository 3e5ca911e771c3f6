-- ===== src/Engine/Persist.antt =====
-- internal/app/action/engine_pipeline_steps.go: what a planned action writes to the stores, and the
-- response that it returns.
pub mod Remembers
use clawvival.Base.{
  ℤ, pos, leb_ℤ, String, str_eq, Bool, true, false, Option, none, some, List, [], ◌∷◌, map,
  if◌then◌else◌,
}
use Prim.Native.String
use clawvival.Survival.Value.{Fields, done, get, set, as_obj, text, texts, obj}
use clawvival.Survival.Types.{AgentStateAggregate, DomainEvent}
use clawvival.Ports.{
  ActionExecutionRecord, WorldObjectRecord, WorldObjectRepository, AgentSessionRepository,
}
use clawvival.Ports.Monad.{Tx, ◌>>=◌, ◌>>◌, give, writes, skip}
use clawvival.Engine.Context.{
  ActionContext, ExecuteMode, continue, completed, Response, UseCase, ActionInput,
}
use clawvival.Engine.Report.{settlement_summary, to_num}
use clawvival.Engine.Objects.{build_object_defaults}
use clawvival.Engine.Objects.Change.{persist_object_action}
use clawvival.Engine.Checks.{persist_gather_depletion}

abbrev pub or_nil : Option (List DomainEvent) → List DomainEvent
or_nil none = []
or_nil (some events) = events

-- The events of the plan, each with the agent, the session, and the strategy if there is one.
unfoldable pub signed : ActionInput → DomainEvent → DomainEvent
signed input event =
    let named =
      set "session_id" (text input.session_id)
        (set "agent_id" (text input.agent_id) event.payload) in
    record event {
      payload =
          if str_eq input.req.strategy_hash ""
          then named
          else set "strategy_hash" (text input.req.strategy_hash) named;
    }

unfoldable pub sign_events : ActionInput → Option (List DomainEvent) → Option (List DomainEvent)
sign_events input none = none
sign_events input (some events) = some (map (signed input) events)

-- The record of the action holds the events as they are signed.
unfoldable pub with_events :
    Option (List DomainEvent) → ActionExecutionRecord → ActionExecutionRecord
with_events none exec = exec
with_events (some events) exec = record exec { result = record (exec.result) { events = events } }

abbrev built_hp : ℤ → ℤ
built_hp hp = if leb_ℤ hp (pos 0) then pos 100 else hp

abbrev pub object_id_of : ActionInput → String
object_id_of input =
    String.◌++◌ "obj-" (String.◌++◌ input.agent_id (String.◌++◌ "-" input.idempotency_key))

unfoldable pub built_object : ActionInput → String → Fields → WorldObjectRecord
built_object input object_type payload =
    let (type, quality, slots, state) = build_object_defaults object_type in
    record {
      object_id = object_id_of input;
      kind = to_num (get "kind" payload);
      x = to_num (get "x" payload);
      y = to_num (get "y" payload);
      hp = built_hp (to_num (get "hp" payload));
      object_type = type;
      quality = quality;
      capacity_slots = slots;
      used_slots = pos 0;
      object_state = state;
    }

pub is_building : DomainEvent → Bool
is_building event = str_eq event.type "build_completed"

abbrev or_empty : Option Fields → Fields
or_empty none = done
or_empty (some m) = m

name_built : List String → DomainEvent → DomainEvent
name_built ids event =
    if str_eq event.type "action_settled"
    then record event {
      payload =
          set "result"
            (obj
              (set "built_object_ids" (texts ids) (or_empty (as_obj (get "result" event.payload)))))
            event.payload;
    }
    else event

unfoldable pub attach_built_object_ids : List String → List DomainEvent → List DomainEvent
unfolding name_built
attach_built_object_ids [] events = events
attach_built_object_ids (id ∷ ids) events = map (name_built (id ∷ ids)) events

-- The events of the plan afterwards.
abbrev pub named_events : Option (List DomainEvent) → List String → Option (List DomainEvent)
named_events none ids = none
named_events (some events) ids = some (attach_built_object_ids ids events)

module _ {S : Type 0} where
  save_state : UseCase S → ℤ → Option AgentStateAggregate → Tx S (Unit {0})
  save_state u version none = skip
  save_state u version (some state) = writes (u.state_repo.save_with_version state version)

  pub save_exec :
      UseCase S → Option (List DomainEvent) → Option ActionExecutionRecord → Tx S (Unit {0})
  save_exec u events none = skip
  save_exec u events (some exec) = writes (u.action_repo.save_execution (with_events events exec))

  pub append_events : UseCase S → String → List DomainEvent → Tx S (Unit {0})
  append_events u agent_id [] = skip
  append_events u agent_id (event ∷ events) = writes (u.event_repo.append agent_id (event ∷ events))

  -- The ids of the objects that are saved, one for each report of a building.
  pub save_built :
      WorldObjectRepository S → ActionInput → String → List DomainEvent → Tx S (List String)
  unfolding is_building
  save_built repo input object_type [] = give []
  save_built repo input object_type (event ∷ events) =
      let rest = save_built repo input object_type events in
      if is_building event
      then (do
        writes (repo.save_object input.agent_id (built_object input object_type event.payload))
        ids ← rest
        give (object_id_of input ∷ ids))
      else rest

  pub save_built_objects :
      Option (WorldObjectRepository S)
      → Bool
      → ActionInput
      → String
      → List DomainEvent
      → Tx S (List String)
  unfolding save_built
  save_built_objects (some repo) true input object_type events =
      save_built repo input object_type events
  save_built_objects _ _ input object_type events = give []

  pub close_if_planned : Option (AgentSessionRepository S) → ActionContext → Tx S (Unit {0})
  close_if_planned (some sessions) ac =
      if ac.plan.close_session
      then writes (sessions.close ac.input.session_id ac.plan.close_session_cause ac.input.now_at)
      else skip
  close_if_planned none ac = skip

  gather_step : UseCase S → ActionContext → Tx S (Unit {0})
  gather_step u ac =
      if ac.plan.apply_gather_depletion
      then persist_gather_depletion u.formats.scan_target u.resource_repo ac.input.agent_id
          ac.tmp.resolved_intent ac.input.now_at
      else skip

  pub object_step : UseCase S → ActionContext → Tx S (Unit {0})
  object_step u ac =
      if ac.plan.apply_object_action
      then persist_object_action u.formats ac.input.now_at ac.input.agent_id u.object_repo
          ac.tmp.resolved_intent ac.view.prepared_obj
      else skip

  -- The writes before and after the record of the action.
  unfoldable pub persist_before : UseCase S → ActionContext → Tx S (Unit {0})
  unfolding gather_step save_state
  persist_before u ac = do
    gather_step u ac
    save_state u ac.plan.state_version ac.plan.state_to_save

  unfoldable pub persist_after :
      UseCase S → ActionContext → Option (List DomainEvent) → Tx S (List String)
  unfolding object_step append_events save_built_objects close_if_planned
  persist_after u ac events = do
    object_step u ac
    append_events u ac.input.agent_id (or_nil events)
    ids ←
        save_built_objects u.object_repo ac.plan.create_built_objects ac.input
          ac.tmp.resolved_intent.object_type (or_nil events)
    close_if_planned u.session_repo ac
    give ids

  unfoldable pub persist_plan : UseCase S → ActionContext → Tx S ActionContext
  unfolding save_exec
  persist_plan u ac = do
    let events = sign_events ac.input ac.plan.events_to_append
    persist_before u ac
    save_exec u events ac.plan.execution_to_save
    ids ← persist_after u ac events
    give (record ac { plan = record (ac.plan) { events_to_append = named_events events ids } })

  unfoldable pub persist_if : UseCase S → ActionContext → Bool → Tx S ActionContext
  persist_if u ac false = give ac
  persist_if u ac true = persist_plan u ac

  unfoldable pub persist_and_respond : UseCase S → ActionContext → Tx S ActionContext
  unfolding persist_if
  persist_and_respond u ac = persist_if u ac ac.plan.should_persist

-- `BuildCompletedResponse` and `BuildSettledResponse`
unfoldable pub build_completed_response : Option (List DomainEvent) → Response → Response
build_completed_response none out = out
build_completed_response (some events) out = record out {
  events = events;
  settlement = settlement_summary events;
}

unfoldable pub build_settled_response : Option (List DomainEvent) → Response → Response
build_settled_response events out = record out {
  events = or_nil events;
  settlement = settlement_summary (or_nil events);
}

unfoldable pub build_response : ExecuteMode → ActionContext → Response
unfolding build_completed_response build_settled_response
build_response completed ac = build_completed_response ac.plan.events_to_append ac.tmp.response
build_response continue ac = build_settled_response ac.plan.events_to_append ac.tmp.response
