-- ===== src/Engine/Execute.antt =====
-- internal/app/action/engine_pipeline_steps.go and engine_usecase.go: `Execute`, step by step.
pub mod Progress
pub mod Carried
pub mod Answered
pub mod Replays
pub mod Errors
use clawvival.Base.{String, str_eq, Option, none, some, List, [], ◌∷◌, is_some, if◌then◌else◌}
use clawvival.Base.Text.{trim_space}
use clawvival.Survival.Types.{
  Time, ActionType, ActionIntent, ResultCode, AgentStateAggregate, DomainEvent,
}
use clawvival.Action.Move.{Resolved, refused, resolved, resolve_move_intent}
use clawvival.Action.Retreat.{resolve_retreat_intent}
use clawvival.Ports.{Error, Result, returned, raised, ActionExecutionRecord}
use clawvival.Ports.Monad.{Tx, ◌>>=◌, ◌>>◌, give, fail, pure_step, reads, skip}
use clawvival.Engine.Context.{
  Request, Response, ActionSpec, ActionContext, ExecuteMode, OngoingFinalizeResult,
  PreparedObjectAction, UseCase,
}
use clawvival.Engine.Intent.{action_registry, validate_request, same_type}
use clawvival.Engine.Report.{
  settlement_summary, list_recent_events, world_time_window_from_execution,
}
use clawvival.Engine.Finalize.{finalize_ongoing_action}
use clawvival.Engine.Objects.{prepare_object_action}
use clawvival.Engine.Handlers.{precheck, execute_action_and_plan}
use clawvival.Engine.Persist.{persist_and_respond, build_response}

-- The response that is replayed.
unfoldable pub replayed : String → ActionExecutionRecord → Response
replayed session_id exec =
    let window = world_time_window_from_execution exec in
    let state = exec.result.updated_state in
    record {
      world_time_before_seconds = window.0;
      world_time_after_seconds = window.1;
      updated_state =
          if str_eq (trim_space state.session_id) ""
          then record state { session_id = session_id }
          else state;
      events = exec.result.events;
      settlement = settlement_summary exec.result.events;
      result_code = exec.result.result_code;
    }

pub replay_of : String → Result (Option ActionExecutionRecord) → Result (Option Response)
replay_of session_id (returned (some exec)) = returned (some (replayed session_id exec))
replay_of session_id (returned none) = returned none
replay_of session_id (raised Error.not_found) = returned none
replay_of session_id (raised e) = raised e

pub spec_or_error : Option ActionSpec → Result ActionSpec
spec_or_error none = raised Error.invalid_request
spec_or_error (some spec) = returned spec

abbrev pub quality_of : Option PreparedObjectAction → ActionIntent → ActionIntent
quality_of none i = i
quality_of (some bed) i = record i { bed_quality = bed.object.quality }

pub with_bed_quality : Option PreparedObjectAction → ActionIntent → ActionIntent
with_bed_quality p i = if same_type i.type ActionType.sleep then quality_of p i else i

pub moved : Resolved → Result ActionIntent
moved (refused e) = raised (Error.action_invalid_position e)
moved (resolved i) = returned i

abbrev pub working_state : OngoingFinalizeResult → AgentStateAggregate → AgentStateAggregate
working_state f state = if f.settled then f.updated_state else state

module _ {S : Type 0} (u : UseCase S) where
  unfoldable pub replay_idempotent : ActionContext → Tx S (Option Response)
  unfolding replay_of
  replay_idempotent ac = reads (λ s.
      replay_of ac.input.session_id
        (u.action_repo.get_by_idempotency_key ac.input.agent_id ac.input.idempotency_key s))

  unfoldable pub load_state_and_finalize_ongoing : ActionContext → Tx S ActionContext
  load_state_and_finalize_ongoing ac = do
    loaded ← reads (u.state_repo.get_by_agent_id ac.input.agent_id)
    let state : AgentStateAggregate = record loaded { session_id = ac.input.session_id }
    finalized ←
        finalize_ongoing_action u ac.input.agent_id state ac.input.now_at
          (same_type ac.tmp.resolved_intent.type ActionType.terminate)
    give (record ac {
      view = record (ac.view) {
        state_before = state;
        state_working = working_state finalized state;
        finalized = finalized;
      };
    })

  unfoldable pub resolve_spec : ActionContext → Tx S ActionContext
  unfolding spec_or_error
  resolve_spec ac = do
    spec ← pure_step (spec_or_error (action_registry ac.tmp.resolved_intent.type))
    give (record ac { view = record (ac.view) { spec = some spec } })

  pub recent_events : ActionContext → ActionIntent → Tx S (List DomainEvent)
  recent_events ac i =
      if same_type i.type ActionType.rest
      then give ac.view.events_before
      else reads (list_recent_events u.event_repo ac.input.agent_id)

  -- What is known of the world, and the intent as it is resolved in it.
  unfoldable pub look_around : ActionContext → Tx S ActionContext
  unfolding with_bed_quality moved recent_events
  look_around ac = do
    let state = ac.view.state_working
    snapshot ← u.world.snapshot_for_agent ac.input.agent_id state.position
    prepared ← reads (
        prepare_object_action u.formats ac.input.now_at ac.input.agent_id u.object_repo state
          ac.tmp.resolved_intent)
    let intent = with_bed_quality prepared ac.tmp.resolved_intent
    there ← pure_step (moved (resolve_move_intent state intent snapshot.visible_tiles))
    let away = resolve_retreat_intent there state.position snapshot.visible_tiles
    events ← recent_events ac away
    give (record ac {
      view = record (ac.view) {
        snapshot = snapshot;
        prepared_obj = prepared;
        events_before = events;
      };
      tmp = record (ac.tmp) { resolved_intent = away };
    })

  unfoldable pub build_context : ActionContext → Tx S ActionContext
  build_context ac =
      if same_type ac.tmp.resolved_intent.type ActionType.terminate
      then give ac
      else if is_some ac.view.state_working.ongoing_action
      then fail Error.action_in_progress
      else look_around ac

  pub run_prechecks : Option ActionSpec → ActionContext → Tx S (Unit {0})
  run_prechecks none ac = skip
  run_prechecks (some spec) ac = precheck u ac spec.handler

  pub run_handler : Option ActionSpec → ActionContext → Tx S (ExecuteMode × ActionContext)
  run_handler none ac = give (ExecuteMode.continue, ac)
  run_handler (some spec) ac = execute_action_and_plan u ac spec.handler

  -- The steps after the replay.
  unfoldable pub carry_out : ActionContext → Tx S Response
  unfolding run_prechecks run_handler
  carry_out ac = do
    loaded ← load_state_and_finalize_ongoing ac
    specified ← resolve_spec loaded
    ready ← build_context specified
    run_prechecks ready.view.spec ready
    handled ← run_handler ready.view.spec ready
    persisted ← persist_and_respond u handled.1
    give (build_response handled.0 persisted)

  pub or_carry_out : ActionContext → Option Response → Tx S Response
  or_carry_out ac none = carry_out ac
  or_carry_out ac (some response) = give response

  -- What runs in the transaction.
  unfoldable pub pipeline : ActionContext → Tx S Response
  unfolding or_carry_out
  pipeline ac = do replay ← replay_idempotent ac; or_carry_out ac replay

-- The calls of the metrics.
pub data Metric : Type 0 where
  record_success : ResultCode → Metric
  record_conflict record_failure : Metric

pub metric_of : Result Response → Metric
metric_of (returned r) = record_success r.result_code
metric_of (raised Error.conflict) = record_conflict
metric_of (raised e) = record_failure

pub record Execution (S : Type 0) : Type 0 where
  pub outcome : Result Response
  pub store : S
  pub metrics : List Metric

module _ {S : Type 0} (u : UseCase S) where
  unfoldable pub measured : Result Response × S → Execution S
  unfolding metric_of
  measured (outcome, s) = record {
    outcome = outcome;
    store = s;
    metrics = if u.has_metrics then metric_of outcome ∷ [] else [];
  }

  abbrev pub at_time : Time → ActionContext → ActionContext
  at_time now ac = record ac { input = record (ac.input) { now_at = now } }

  run_valid : Time → S → Result ActionContext → Execution S
  unfolding measured
  run_valid now s (raised e) = record { outcome = raised e; store = s; metrics = [] }
  run_valid now s (returned ac) = measured (u.run_in_tx (pipeline u (at_time now ac)) s)

  unfoldable pub execute : Request → Time → S → Execution S
  unfolding run_valid
  execute request now s = run_valid now s (validate_request request)
