-- ===== src/Engine/Execute/Carried.antt =====
-- internal/app/action/engine_usecase.go: what a request that is carried out records of itself.
use mathlib.Core.Path.{subst}
use clawvival.Base.{
  ◌≡◌, inl, inr, refl, sym, ap, ◌∙◌, Bool-cases, Option, Option-cases, some, none, is_some,
}
use clawvival.Survival.Types.{ActionType, AgentStateAggregate}
use clawvival.Action.Move.{resolve_move_intent}
use clawvival.Action.Retreat.{resolve_retreat_intent}
use clawvival.Ports.{Result, returned}
use clawvival.Ports.Monad.{Tx, Result-cases, ◌>>=◌, ◌>>◌, give}
use clawvival.Engine.Context.{
  Response, ActionContext, ActionInput, ActionWritePlan, ActionSpec, ExecuteMode, UseCase,
}
use clawvival.Engine.Intent.{same_type, action_registry}
use clawvival.Engine.Finalize.{finalize_ongoing_action}
use clawvival.Engine.Objects.{prepare_object_action}
use clawvival.Engine.Handlers.Plans.{IsPlanned, execute_action_and_plan-IsPlanned}
use clawvival.Engine.Persist.{persist_and_respond, build_response}
use clawvival.Engine.Persist.Remembers.{IsRecorded, persist_and_respond-IsRecorded}
use clawvival.Engine.Stores.{RemembersActions}
use clawvival.Engine.Execute.{
  carry_out, load_state_and_finalize_ongoing, resolve_spec, spec_or_error, build_context,
  look_around, recent_events, moved, with_bed_quality, run_prechecks, run_handler,
}

-- Before the handler the steps change neither the input nor the plan, nor a spec that is resolved.
record IsKept (ac ac' : ActionContext) : Type 0 where
  same_input : ac'.input ≡ ac.input
  same_plan : ac'.plan ≡ ac.plan
  same_spec : ac'.view.spec ≡ ac.view.spec

abbrev given : {S : Type 0} → ActionContext → S → Result (ActionContext × S)
given ac s = returned (ac, s)

given-eq : {S : Type 0} {c ac : ActionContext} {s t : S} → given c s ≡ given ac t → ac ≡ c
given-eq h = cc h

IsKept-of : {ac c ac' : ActionContext} → ac' ≡ c → IsKept ac c → IsKept ac ac'
IsKept-of {ac} e k = subst (λ x. IsKept ac x) (sym e) k

module _ {S : Type 0} (u : UseCase S) where
  load-IsKept :
      (ac : ActionContext) (s : S) {ac' : ActionContext} {t : S}
      → load_state_and_finalize_ongoing u ac s ≡ given ac' t
      → IsKept ac ac'
  unfolding load_state_and_finalize_ongoing
  load-IsKept ac s h = elim (Result-cases (u.state_repo.get_by_agent_id ac.input.agent_id s)) [
    | inr (broken, bad) ↦ absurd (cc (rw bad at h))
    | inl (loaded, e) ↦
        let state : AgentStateAggregate = record loaded { session_id = ac.input.session_id } in
        let force = same_type ac.tmp.resolved_intent.type ActionType.terminate in
        elim (Result-cases
          (finalize_ongoing_action u ac.input.agent_id state ac.input.now_at force s)) [
            | inr (broken, bad) ↦ absurd (cc (rw (e, bad) at h))
            | inl ((f, s1), done) ↦
                IsKept-of (given-eq (rw (e, done) at h))
                  (record { same_input = refl; same_plan = refl; same_spec = refl })
          ]
  ]

  look_around-IsKept :
      (ac : ActionContext) (s : S) {ac' : ActionContext} {t : S}
      → look_around u ac s ≡ given ac' t
      → IsKept ac ac'
  unfolding look_around
  look_around-IsKept ac s h =
      let state = ac.view.state_working in
      elim (Result-cases (u.world.snapshot_for_agent ac.input.agent_id state.position s)) [
        | inr (broken, bad) ↦ absurd (cc (rw bad at h))
        | inl ((snapshot, s1), e1) ↦
            elim (Result-cases (
              prepare_object_action u.formats ac.input.now_at ac.input.agent_id u.object_repo state
                ac.tmp.resolved_intent s1)) [
                  | inr (broken, bad) ↦ absurd (cc (rw (e1, bad) at h))
                  | inl (p, e2) ↦
                      let intent = with_bed_quality p ac.tmp.resolved_intent in
                      let move = moved (resolve_move_intent state intent snapshot.visible_tiles) in
                      elim (Result-cases move) [
                        | inr (broken, bad) ↦ absurd (cc (rw (e1, e2, bad) at h))
                        | inl (there, e3) ↦
                            let away =
                              resolve_retreat_intent there state.position snapshot.visible_tiles in
                            elim (Result-cases (recent_events u ac away s1)) [
                              | inr (broken, bad) ↦ absurd (cc (rw (e1, e2, e3, bad) at h))
                              | inl ((events, s2), e4) ↦
                                  IsKept-of (given-eq (rw (e1, e2, e3, e4) at h)) (record {
                                    same_input = refl;
                                    same_plan = refl;
                                    same_spec = refl;
                                  })
                            ]
                      ]
                ]
      ]

  build_context-IsKept :
      (ac : ActionContext) (s : S) {ac' : ActionContext} {t : S}
      → build_context u ac s ≡ given ac' t
      → IsKept ac ac'
  unfolding build_context
  build_context-IsKept ac s h =
      elim (Bool-cases (same_type ac.tmp.resolved_intent.type ActionType.terminate)) [
        | inl ends ↦
            IsKept-of (given-eq (rw ends at h))
              (record { same_input = refl; same_plan = refl; same_spec = refl })
        | inr acts ↦ elim (Bool-cases (is_some ac.view.state_working.ongoing_action)) [
          | inl busy ↦ absurd (cc (rw (acts, busy) at h))
          | inr free ↦ look_around-IsKept ac s (rw (acts, free) at h)
        ]
      ]

  -- The handler of the spec that is resolved.
  abbrev Specified : ActionContext → ActionContext → Type 0
  Specified ac ac' =
      (spec : ActionSpec) × (ac'.view.spec ≡ some spec)
      × (ac'.input ≡ ac.input)
      × (ac'.plan ≡ ac.plan)

  Specified-of :
      (ac : ActionContext) {c ac' : ActionContext} → ac' ≡ c → Specified ac c → Specified ac ac'
  Specified-of ac e k = subst (λ x. Specified ac x) (sym e) k

  resolve_spec-Specified :
      (ac : ActionContext) (s : S) {ac' : ActionContext} {t : S}
      → resolve_spec u ac s ≡ given ac' t
      → Specified ac ac'
  unfolding resolve_spec spec_or_error
  resolve_spec-Specified ac s h =
      elim (Option-cases (action_registry ac.tmp.resolved_intent.type)) [
        | inl unknown ↦ absurd (cc (rw unknown at h))
        | inr (spec, e) ↦ Specified-of ac (given-eq (rw e at h)) (spec, refl, refl, refl)
      ]

  run_handler-IsPlanned :
      (ac : ActionContext) (s : S) (o : Option ActionSpec) (spec : ActionSpec) {mode : ExecuteMode}
      {ac' : ActionContext} {t : S}
      → o ≡ some spec
      → ac.plan.events_to_append ≡ none
      → run_handler u o ac s ≡ returned ((mode, ac'), t)
      → IsPlanned ac.input mode ac'
  unfolding run_handler
  run_handler-IsPlanned ac s o spec e empty h =
      execute_action_and_plan-IsPlanned u ac s spec.handler empty (rw e at h)

  -- A request that was carried out: its plan, and what was recorded of it.
  pub record IsCarriedOut (laws : RemembersActions u) (input : ActionInput) (r : Response) (t : S)
      : Type 0 where
    pub mode : ExecuteMode
    pub before : ActionContext
    pub after : ActionContext
    pub plan : IsPlanned input mode before
    pub record_of : IsRecorded u laws before after plan.exec t
    pub answer : r ≡ build_response mode after

  -- The steps from the prechecks on.
  abbrev rest_of : ActionContext → Tx S Response
  rest_of ready = do
    run_prechecks u ready.view.spec ready
    handled ← run_handler u ready.view.spec ready
    persisted ← persist_and_respond u handled.1
    give (build_response handled.0 persisted)

  rest_of-IsCarriedOut :
      (laws : RemembersActions u) (ac : ActionContext) (spec : ActionSpec) (s : S) {r : Response}
      {t : S}
      → ac.view.spec ≡ some spec
      → ac.plan.events_to_append ≡ none
      → rest_of ac s ≡ returned (r, t)
      → IsCarriedOut laws ac.input r t
  rest_of-IsCarriedOut laws ac spec s {r} {t} known empty h =
      elim (Result-cases (run_prechecks u ac.view.spec ac s)) [
        | inr (broken, bad) ↦ absurd (cc (rw bad at h))
        | inl ((_, s1), e1) ↦ elim (Result-cases (run_handler u ac.view.spec ac s1)) [
          | inr (broken, bad) ↦ absurd (cc (rw (e1, bad) at h))
          | inl (((mode, before), s2), e2) ↦ elim (Result-cases (persist_and_respond u before s2)) [
            | inr (broken, bad) ↦ absurd (cc (rw (e1, e2, bad) at h))
            | inl ((after, s3), e3) ↦
                let h' = (rw (e1, e2, e3) at h) in
                let last : t ≡ s3 = cc h' in
                let plan = run_handler-IsPlanned ac s1 ac.view.spec spec known empty e2 in
                record {
                  mode = mode;
                  before = before;
                  after = after;
                  plan = plan;
                  record_of =
                      rw last
                        (persist_and_respond-IsRecorded u laws ac.input mode before plan s2 e3);
                  answer = cc h';
                }
          ]
        ]
      ]

  pub carry_out-IsCarriedOut :
      (laws : RemembersActions u) (ac : ActionContext) (s : S) {r : Response} {t : S}
      → ac.plan.events_to_append ≡ none
      → carry_out u ac s ≡ returned (r, t)
      → IsCarriedOut laws ac.input r t
  unfolding carry_out
  carry_out-IsCarriedOut laws ac s {r} {t} empty h =
      elim (Result-cases (load_state_and_finalize_ongoing u ac s)) [
        | inr (broken, bad) ↦ absurd (cc (rw bad at h))
        | inl ((ac1, s1), e1) ↦ elim (Result-cases (resolve_spec u ac1 s1)) [
          | inr (broken, bad) ↦ absurd (cc (rw (e1, bad) at h))
          | inl ((ac2, s2), e2) ↦ elim (Result-cases (build_context u ac2 s2)) [
            | inr (broken, bad) ↦ absurd (cc (rw (e1, e2, bad) at h))
            | inl ((ac3, s3), e3) ↦
                let k1 = load-IsKept ac s e1 in
                let (spec, known, input2, plan2) = resolve_spec-Specified ac1 s1 e2 in
                let k3 = build_context-IsKept ac2 s2 e3 in
                let same_input = k3.same_input ∙ input2 ∙ k1.same_input in
                let same_plan = k3.same_plan ∙ plan2 ∙ k1.same_plan in
                subst (λ input. IsCarriedOut laws input r t) same_input
                  (rest_of-IsCarriedOut laws ac3 spec s3 (k3.same_spec ∙ known)
                    (ap (λ (p : ActionWritePlan). p.events_to_append) same_plan ∙ empty)
                    (rw (e1, e2, e3) at h))
          ]
        ]
      ]
