-- ===== src/Engine/Execute/Progress.antt =====
-- internal/app/action/engine_pipeline_steps.go: a request while an action goes on.
use clawvival.Base.{◌<◌, ◌≡◌, refl, arith, ltb, true, false, if◌then◌else◌, [], ◌∷◌, some}
use clawvival.Survival.Types.{Time, ActionType, OngoingActionInfo, AgentStateAggregate}
use clawvival.Ports.{Error, returned, raised}
use clawvival.Engine.Context.{Request, ActionContext, ActionSpec, UseCase}
use clawvival.Engine.Intent.{same_type, validate_request, action_registry}
use clawvival.Engine.Intent.Ready.{validate_request-IsReady}
use clawvival.Engine.Finalize.{finalize_ongoing_action, finalize_if_due}
use clawvival.Engine.Stores.{IsTransaction}
use clawvival.Engine.Execute.{
  pipeline, replay_idempotent, replay_of, or_carry_out, carry_out, load_state_and_finalize_ongoing,
  record_failure, at_time, resolve_spec, spec_or_error, build_context, run_valid, measured, execute,
}

module _ {S : Type 0} (u : UseCase S) (ac : ActionContext) (s : S) {state : AgentStateAggregate}
    {ongoing : OngoingActionInfo} {spec : ActionSpec}
    (fresh : u.action_repo.get_by_idempotency_key ac.input.agent_id ac.input.idempotency_key s
      ≡ raised Error.not_found)
    (found : u.state_repo.get_by_agent_id ac.input.agent_id s ≡ returned state)
    (busy : state.ongoing_action ≡ some ongoing) (early : ac.input.now_at < ongoing.end_at)
    (lasting : same_type ac.tmp.resolved_intent.type ActionType.terminate ≡ false)
    (known : action_registry ac.tmp.resolved_intent.type ≡ some spec) where
  pub pipeline-in_progress : pipeline u ac s ≡ raised Error.action_in_progress
  unfolding pipeline replay_idempotent replay_of or_carry_out carry_out
      load_state_and_finalize_ongoing finalize_ongoing_action finalize_if_due resolve_spec
      spec_or_error build_context
  pipeline-in_progress =
      let not_due : ltb ac.input.now_at ongoing.end_at ≡ true = ground arith in
      rw (fresh, found, busy, lasting, not_due, known, lasting) refl

-- While an action goes on whose end has not come, a new request for anything but its end is refused
-- with `ErrActionInProgress`; nothing is written, and a failure is counted. The
-- request is let through, and the store undoes a transaction that fails.
pub execute-in_progress :
    {S : Type 0} (u : UseCase S)
    → IsTransaction u.run_in_tx
    → (request : Request) (now : Time) (s : S) {ac : ActionContext} {state : AgentStateAggregate}
      {ongoing : OngoingActionInfo}
    → validate_request request ≡ returned ac
    → u.action_repo.get_by_idempotency_key ac.input.agent_id ac.input.idempotency_key s
      ≡ raised Error.not_found
    → u.state_repo.get_by_agent_id ac.input.agent_id s ≡ returned state
    → state.ongoing_action ≡ some ongoing
    → now < ongoing.end_at
    → same_type ac.tmp.resolved_intent.type ActionType.terminate ≡ false
    → execute u request now s ≡ record {
      outcome = raised Error.action_in_progress;
      store = s;
      metrics = if u.has_metrics then record_failure ∷ [] else [];
    }
unfolding execute run_valid measured
execute-in_progress u tx request now s {ac} valid fresh found busy early lasting =
    let ready = validate_request-IsReady request valid in
    let timed = at_time u now ac in
    let refused = pipeline-in_progress u timed s fresh found busy early lasting ready.registered in
    rw (valid, tx.undone (pipeline u timed) s Error.action_in_progress refused) refl
