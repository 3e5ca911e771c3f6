-- ===== src/Engine/Handlers/Plans.antt =====
-- internal/app/action: what the handlers plan to record of an action.
use mathlib.Core.Path.{subst}
use clawvival.Base.{
  ◌≡◌, ◌⊎◌, inl, inr, refl, true, false, Bool, some, none, Option, String, List, [], ◌∷◌,
}
use clawvival.Survival.Value.{Fields}
use clawvival.Survival.Types.{DomainEvent, ResultCode, OngoingActionInfo, SettlementResult}
use clawvival.Ports.{ActionExecutionRecord, Result, returned}
use clawvival.Ports.Monad.{Result-cases}
use clawvival.Engine.Context.{
  ActionContext, ActionInput, ActionHandler, ExecuteMode, continue, completed, PreparedObjectAction,
  UseCase,
}
use clawvival.Engine.Settling.{
  SettleOptions, settle_now, finished, settle_via_domain_or_instant, planned, recorded, answered,
}
use clawvival.Engine.Handlers.{
  execute_action_and_plan, started, terminated, sleep_on, terminate_if, begun, started_event,
  gather_options, standard_options,
}

-- The record of the action is under the request's agent and key, and holds what the response
-- returns. Events that are not planned are those of the response already.
pub record IsPlanned (input : ActionInput) (mode : ExecuteMode) (ac : ActionContext) : Type 0 where
  pub exec : ActionExecutionRecord
  pub same_input : ac.input ≡ input
  pub persists : ac.plan.should_persist ≡ true
  pub records : ac.plan.execution_to_save ≡ some exec
  pub own_agent : exec.agent_id ≡ ac.input.agent_id
  pub own_key : exec.idempotency_key ≡ ac.input.idempotency_key
  pub same_state : exec.result.updated_state ≡ ac.tmp.response.updated_state
  pub same_code : exec.result.result_code ≡ ac.tmp.response.result_code
  pub same_events :
      ((events : List DomainEvent) × (ac.plan.events_to_append ≡ some events))
      ⊎ (ac.plan.events_to_append ≡ none)
        × (mode ≡ completed)
        × (exec.result.events ≡ ac.tmp.response.events)

abbrev pub gave :
    {S : Type 0} → ExecuteMode → ActionContext → S → Result ((ExecuteMode × ActionContext) × S)
gave mode ac s = returned ((mode, ac), s)

-- A step that only gives a plan.
of_give :
    {S : Type 0} (input : ActionInput) {s t : S} {m mode : ExecuteMode} {c ac : ActionContext}
    → gave m c s ≡ gave mode ac t
    → IsPlanned input m c
    → IsPlanned input mode ac
of_give input h p = subst (λ (x : ExecuteMode × ActionContext). IsPlanned input x.0 x.1) (cc h) p

module _ {S : Type 0} (u : UseCase S) (ac : ActionContext) (s : S) where
  planned-IsPlanned :
      (opts : SettleOptions) (r : SettlementResult)
      → IsPlanned ac.input continue (planned opts r ac)
  unfolding planned recorded answered
  planned-IsPlanned opts r = record {
    exec = recorded ac r.updated_state r.events r.result_code;
    same_input = refl;
    persists = refl;
    records = refl;
    own_agent = refl;
    own_key = refl;
    same_state = refl;
    same_code = refl;
    same_events = inl (r.events, refl);
  }

  settled-IsPlanned :
      (opts : SettleOptions) {mode : ExecuteMode} {ac' : ActionContext} {t : S}
      → settle_via_domain_or_instant u opts ac s ≡ gave mode ac' t
      → IsPlanned ac.input mode ac'
  unfolding settle_via_domain_or_instant
  settled-IsPlanned opts h = elim (Result-cases (settle_now u opts ac)) [
    | inl (r, e) ↦ of_give ac.input (rw e at h) (planned-IsPlanned opts (finished u opts ac s r))
    | inr (broken, e) ↦ absurd (cc (rw e at h))
  ]

  started-IsPlanned :
      (type : String) (details : Fields) (ongoing : OngoingActionInfo)
      → IsPlanned ac.input completed (started ac type details ongoing)
  unfolding started recorded answered
  started-IsPlanned type details ongoing = record {
    exec = recorded ac (begun ac ongoing) (started_event ac type details ∷ []) ResultCode.ok;
    same_input = refl;
    persists = refl;
    records = refl;
    own_agent = refl;
    own_key = refl;
    same_state = refl;
    same_code = refl;
    same_events = inl (_, refl);
  }

  terminated-IsPlanned :
      ac.plan.events_to_append ≡ none → IsPlanned ac.input completed (terminated ac)
  unfolding terminated recorded answered
  terminated-IsPlanned e = record {
    exec =
        recorded ac ac.view.finalized.updated_state ac.view.finalized.events
          ac.view.finalized.result_code;
    same_input = refl;
    persists = refl;
    records = refl;
    own_agent = refl;
    own_key = refl;
    same_state = refl;
    same_code = refl;
    same_events = inr (e, refl, refl);
  }

  slept-IsPlanned :
      (bed : Option PreparedObjectAction) {mode : ExecuteMode} {ac' : ActionContext} {t : S}
      → sleep_on u ac bed s ≡ gave mode ac' t
      → IsPlanned ac.input mode ac'
  unfolding sleep_on
  slept-IsPlanned none h = absurd (cc h)
  slept-IsPlanned (some bed) h = of_give ac.input h (started-IsPlanned _ _ _)

  ended-IsPlanned :
      (settled : Bool) {mode : ExecuteMode} {ac' : ActionContext} {t : S}
      → ac.plan.events_to_append ≡ none
      → terminate_if u ac settled s ≡ gave mode ac' t
      → IsPlanned ac.input mode ac'
  unfolding terminate_if
  ended-IsPlanned true e h = of_give ac.input h (terminated-IsPlanned e)
  ended-IsPlanned false e h = absurd (cc h)

  -- Each handler plans to record the action.
  pub execute_action_and_plan-IsPlanned :
      (h : ActionHandler) {mode : ExecuteMode} {ac' : ActionContext} {t : S}
      → ac.plan.events_to_append ≡ none
      → execute_action_and_plan u ac h s ≡ gave mode ac' t
      → IsPlanned ac.input mode ac'
  unfolding execute_action_and_plan
  execute_action_and_plan-IsPlanned ActionHandler.rest_handler e h =
      of_give ac.input h (started-IsPlanned _ _ _)
  execute_action_and_plan-IsPlanned ActionHandler.sleep_handler e h =
      slept-IsPlanned ac.view.prepared_obj h
  execute_action_and_plan-IsPlanned ActionHandler.terminate_handler e h =
      ended-IsPlanned ac.view.finalized.settled e h
  execute_action_and_plan-IsPlanned ActionHandler.gather_handler e h =
      settled-IsPlanned gather_options h
  execute_action_and_plan-IsPlanned other e h = settled-IsPlanned standard_options h
