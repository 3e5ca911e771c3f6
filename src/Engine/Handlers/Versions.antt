-- ===== src/Engine/Handlers/Versions.antt =====
-- internal/app/action: the state that a handler plans to save, and its version.
use mathlib.Core.Path.{subst}
use clawvival.Base.{
  ◌≡◌, ◌⊎◌, inl, inr, refl, arith, pos, ◌+ℤ◌, true, false, Bool, some, none, Option, String, ◌++◌,
  if◌then◌else◌,
}
use clawvival.Survival.Value.{Fields}
use clawvival.Survival.Types.{
  Time, ActionIntent, AgentStateAggregate, OngoingActionInfo, SettlementResult,
}
use clawvival.Survival.Settlement.Outcome.{settle-IsOutcome}
use clawvival.Shared.Stateview.{enrich}
use clawvival.Ports.{EventRepository, returned}
use clawvival.Ports.Monad.{Result-cases}
use clawvival.Engine.Context.{
  ActionContext, ActionHandler, terminate_handler, ExecuteMode, PreparedObjectAction, UseCase,
}
use clawvival.Engine.Finalize.{or_invalid_delta}
use clawvival.Engine.Seeds.{apply_seed_pity_if_needed, grant_seed}
use clawvival.Engine.Settling.{
  SettleOptions, settle_now, finished, viewed_state, world_phase_changed,
  settle_via_domain_or_instant, planned, answered,
}
use clawvival.Engine.Handlers.{
  execute_action_and_plan, started, terminated, sleep_on, terminate_if, begun, gather_options,
  standard_options,
}
use clawvival.Engine.Handlers.Plans.{gave}

-- A state that follows another: one version on, at a time, of the same agent.
abbrev Follows : Time → AgentStateAggregate → AgentStateAggregate → Type 0
Follows now before next =
    (next.version ≡ before.version +ℤ pos 1)
    × (next.updated_at ≡ now)
    × (next.agent_id ≡ before.agent_id)
    × (next.home ≡ before.home)

-- What is saved is the state of the response, in place of the version that was read.
pub record IsSaved (ac ac' : ActionContext) : Type 0 where
  pub next : AgentStateAggregate
  pub saves : ac'.plan.state_to_save ≡ some next
  pub expects : ac'.plan.state_version ≡ ac.view.state_working.version
  pub follows : Follows ac.input.now_at ac.view.state_working next
  pub answers : ac'.tmp.response.updated_state ≡ next

of_give :
    {S : Type 0} (ac : ActionContext) {s t : S} {m mode : ExecuteMode} {c ac' : ActionContext}
    → gave m c s ≡ gave mode ac' t
    → IsSaved ac c
    → IsSaved ac ac'
of_give ac {s} {t} {m} {mode} {c} {ac'} h p =
    let same : c ≡ ac' = cc h in subst (λ x. IsSaved ac x) same p

or_invalid_delta-some :
    (o : Option SettlementResult) {r : SettlementResult}
    → or_invalid_delta o ≡ returned r
    → o ≡ some r
or_invalid_delta-some none h = absurd (cc h)
or_invalid_delta-some (some r) h = cc h

-- A seed that is granted changes the inventory only.
pity-Follows :
    {S : Type 0} (repo : EventRepository S) (agent_id : String) (i : ActionIntent)
    (before : AgentStateAggregate) (s : S) (r : SettlementResult) (now : Time)
    → Follows now before r.updated_state
    → Follows now before (apply_seed_pity_if_needed repo agent_id i before s r).updated_state
unfolding apply_seed_pity_if_needed grant_seed
pity-Follows repo agent_id i before s r now h = ground (arith, h)

either-Follows :
    (now : Time) (before : AgentStateAggregate) (b : Bool) (r r' : SettlementResult)
    → Follows now before r.updated_state
    → Follows now before r'.updated_state
    → Follows now before (if b then r else r').updated_state
either-Follows now before true r r' h k = h
either-Follows now before false r r' h k = k

module _ {S : Type 0} (u : UseCase S) (ac : ActionContext) (s : S) where
  settle_now-Follows :
      (opts : SettleOptions) {r : SettlementResult}
      → settle_now u opts ac ≡ returned r
      → Follows ac.input.now_at ac.view.state_working r.updated_state
  unfolding settle_now
  settle_now-Follows opts h =
      let out = settle-IsOutcome _ _ _ _ _ (or_invalid_delta-some _ h) in
      (out.next_version, out.stamped, out.same_agent, out.same_home)

  finished-Follows :
      (opts : SettleOptions) (r : SettlementResult)
      → Follows ac.input.now_at ac.view.state_working r.updated_state
      → Follows ac.input.now_at ac.view.state_working (finished u opts ac s r).updated_state
  unfolding finished viewed_state enrich
  finished-Follows opts r h =
      let viewed : SettlementResult = record r {
        updated_state = viewed_state ac r.updated_state;
        events = r.events ++ world_phase_changed ac.input.now_at ac.view.snapshot;
      } in
      either-Follows ac.input.now_at ac.view.state_working opts.apply_seed_pity _ viewed
        (pity-Follows u.event_repo ac.input.agent_id ac.tmp.resolved_intent ac.view.state_working s
          viewed ac.input.now_at h)
        h

  settled-IsSaved :
      (opts : SettleOptions) {mode : ExecuteMode} {ac' : ActionContext} {t : S}
      → settle_via_domain_or_instant u opts ac s ≡ gave mode ac' t
      → IsSaved ac ac'
  unfolding settle_via_domain_or_instant planned answered
  settled-IsSaved opts h = elim (Result-cases (settle_now u opts ac)) [
    | inl (r, e) ↦ of_give ac (rw e at h) (record {
      next = (finished u opts ac s r).updated_state;
      saves = refl;
      expects = refl;
      follows = finished-Follows opts r (settle_now-Follows opts e);
      answers = refl;
    })
    | inr (broken, e) ↦ absurd (cc (rw e at h))
  ]

  started-IsSaved :
      (type : String) (details : Fields) (ongoing : OngoingActionInfo)
      → IsSaved ac (started ac type details ongoing)
  unfolding started answered
  started-IsSaved type details ongoing = record {
    next = begun ac ongoing;
    saves = refl;
    expects = refl;
    follows = unfold begun in (refl, refl, refl, refl);
    answers = refl;
  }

  slept-IsSaved :
      (bed : Option PreparedObjectAction) {mode : ExecuteMode} {ac' : ActionContext} {t : S}
      → sleep_on u ac bed s ≡ gave mode ac' t
      → IsSaved ac ac'
  unfolding sleep_on
  slept-IsSaved none h = absurd (cc h)
  slept-IsSaved (some bed) h = of_give ac h (started-IsSaved _ _ _)

  ended-saves-none :
      (settled : Bool) {mode : ExecuteMode} {ac' : ActionContext} {t : S}
      → ac.plan.state_to_save ≡ none
      → terminate_if u ac settled s ≡ gave mode ac' t
      → ac'.plan.state_to_save ≡ none
  unfolding terminate_if terminated
  ended-saves-none true {mode} {ac'} e h =
      let same : terminated ac ≡ ac' = cc h in
      subst (λ (x : ActionContext). x.plan.state_to_save ≡ none) same e
  ended-saves-none false e h = absurd (cc h)

  -- What a handler plans to save is the state that it answers with. It follows the state that was
  -- read, with the version raised by one, and is saved in place of the version that was read. Only
  -- the end of an action, whose state is saved before, plans none. Nothing is planned before.
  pub execute_action_and_plan-IsSaved :
      (h : ActionHandler) {mode : ExecuteMode} {ac' : ActionContext} {t : S}
      → ac.plan.state_to_save ≡ none
      → execute_action_and_plan u ac h s ≡ gave mode ac' t
      → IsSaved ac ac' ⊎ (h ≡ terminate_handler) × (ac'.plan.state_to_save ≡ none)
  unfolding execute_action_and_plan
  execute_action_and_plan-IsSaved ActionHandler.rest_handler e h =
      inl (of_give ac h (started-IsSaved _ _ _))
  execute_action_and_plan-IsSaved ActionHandler.sleep_handler e h =
      inl (slept-IsSaved ac.view.prepared_obj h)
  execute_action_and_plan-IsSaved ActionHandler.terminate_handler e h =
      inr (refl, ended-saves-none ac.view.finalized.settled e h)
  execute_action_and_plan-IsSaved ActionHandler.gather_handler e h =
      inl (settled-IsSaved gather_options h)
  execute_action_and_plan-IsSaved other e h = inl (settled-IsSaved standard_options h)
