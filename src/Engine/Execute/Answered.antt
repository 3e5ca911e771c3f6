-- ===== src/Engine/Execute/Answered.antt =====
-- internal/app/action/engine_usecase.go: the answer to a request and what is recorded of it.
use mathlib.Core.Path.{subst}
use clawvival.Base.{
  ◌≡◌, ◌⊎◌, inl, inr, refl, sym, ap, ◌∙◌, String, str_eq, Bool, true, false, Bool-cases, Option,
  some, none, List, [], if◌then◌else◌, map,
}
use clawvival.Base.Text.{trim_space}
use clawvival.Survival.Types.{AgentStateAggregate, DomainEvent}
use clawvival.Ports.{ActionExecutionRecord, ActionResult, Error, returned}
use clawvival.Ports.Monad.{Result-cases}
use clawvival.Engine.Context.{
  Response, ActionContext, ActionInput, ActionTmp, ExecuteMode, continue, completed, UseCase,
}
use clawvival.Engine.Persist.{
  build_response, build_completed_response, build_settled_response, attach_built_object_ids,
  sign_events, signed, with_events, named_events,
}
use clawvival.Engine.Stores.{RemembersActions}
use clawvival.Engine.Execute.Carried.{IsCarriedOut, carry_out-IsCarriedOut}
use clawvival.Engine.Execute.{pipeline, replay_idempotent, replay_of, replayed, or_carry_out}

abbrev pub filled : String → AgentStateAggregate → AgentStateAggregate
filled session_id state =
    if str_eq (trim_space state.session_id) ""
    then record state { session_id = session_id }
    else state

-- A response and its replay: the result and the state are the same, where an empty session is
-- filled in, and so are the events but for the objects that an action built, which only the first
-- response names.
pub record Repeats (session_id : String) (r r' : Response) : Type 0 where
  pub ids : List String
  pub same_code : r'.result_code ≡ r.result_code
  pub same_state : r'.updated_state ≡ filled session_id r.updated_state
  pub same_events : r.events ≡ attach_built_object_ids ids r'.events

same_branches : {A : Type 0} (b : Bool) (x : A) → (if b then x else x) ≡ x
same_branches true x = refl
same_branches false x = refl

filled_idem : (sid : String) (x : AgentStateAggregate) → filled sid (filled sid x) ≡ filled sid x
filled_idem sid x =
    let named : AgentStateAggregate = record x { session_id = sid } in
    elim (Bool-cases (str_eq (trim_space x.session_id) "")) [
      | inr own ↦ ap (filled sid) (ap (λ b. if b then named else x) own)
      | inl blank ↦
          let e : filled sid x ≡ named = ap (λ b. if b then named else x) blank in
          ap (filled sid) e ∙ same_branches (str_eq (trim_space sid) "") named ∙ sym e
    ]

completed-same :
    (o : Option (List DomainEvent)) (out : Response)
    → ((build_completed_response o out).updated_state ≡ out.updated_state)
      × ((build_completed_response o out).result_code ≡ out.result_code)
unfolding build_completed_response
completed-same none out = (refl, refl)
completed-same (some es) out = (refl, refl)

response-same :
    (mode : ExecuteMode) (ac : ActionContext)
    → ((build_response mode ac).updated_state ≡ ac.tmp.response.updated_state)
      × ((build_response mode ac).result_code ≡ ac.tmp.response.result_code)
unfolding build_response build_settled_response
response-same completed ac = completed-same ac.plan.events_to_append ac.tmp.response
response-same continue ac = (refl, refl)

abbrev respond : ExecuteMode → Option (List DomainEvent) → Response → Response
respond completed o out = build_completed_response o out
respond continue o out = build_settled_response o out

response-respond :
    (mode : ExecuteMode) (ac : ActionContext)
    → build_response mode ac ≡ respond mode ac.plan.events_to_append ac.tmp.response
unfolding build_response
response-respond completed ac = refl
response-respond continue ac = refl

respond-events :
    (mode : ExecuteMode) (es : List DomainEvent) (out : Response)
    → (respond mode (some es) out).events ≡ es
unfolding build_completed_response build_settled_response
respond-events completed es out = refl
respond-events continue es out = refl

-- The events of the response are those of the record, up to the names of what was built.
events-repeat :
    (input : ActionInput) (mode : ExecuteMode) (out : Response) (exec : ActionExecutionRecord)
    (ids : List String) (o o' : Option (List DomainEvent))
    → o' ≡ named_events (sign_events input o) ids
    → ((events : List DomainEvent) × (o ≡ some events))
      ⊎ (o ≡ none) × (mode ≡ completed) × (exec.result.events ≡ out.events)
    → (names : List String) × ((respond mode o' out).events
        ≡ attach_built_object_ids names (with_events (sign_events input o) exec).result.events)
unfolding with_events sign_events build_completed_response attach_built_object_ids
events-repeat input mode out exec ids o o' e (inl (es, f)) =
    (ids, rw (e, f) (respond-events mode (attach_built_object_ids ids (map (signed input) es)) out))
events-repeat input mode out exec ids o o' e (inr (f, m, same)) = ([], rw (e, f, m) (sym same))

with_events-same :
    (o : Option (List DomainEvent)) (exec : ActionExecutionRecord)
    → ((with_events o exec).result.updated_state ≡ exec.result.updated_state)
      × ((with_events o exec).result.result_code ≡ exec.result.result_code)
unfolding with_events
with_events-same none exec = (refl, refl)
with_events-same (some es) exec = (refl, refl)

module _ {S : Type 0} (u : UseCase S) (laws : RemembersActions u) where
  carried-Repeats :
      {input : ActionInput} {r : Response} {t : S} (c : IsCarriedOut u laws input r t)
      → Repeats input.session_id r (replayed input.session_id c.record_of.written)
  unfolding replayed
  carried-Repeats {input} {r} c =
      let made = c.record_of in
      let p = c.plan in
      let events = sign_events c.before.input c.before.plan.events_to_append in
      let (kept_state, kept_code) = with_events-same events p.exec in
      let (told_state, told_code) = response-same c.mode c.after in
      let out : c.after.tmp.response ≡ c.before.tmp.response =
        ap (λ (x : ActionTmp). x.response) made.same_tmp in
      let state : made.written.result.updated_state ≡ r.updated_state =
        ap (λ (x : ActionResult). x.updated_state) made.as_signed
        ∙ kept_state
        ∙ p.same_state
        ∙ ap (λ (x : Response). x.updated_state) (sym out)
        ∙ sym told_state
        ∙ ap (λ (x : Response). x.updated_state) (sym c.answer) in
      let (names, same) =
        events-repeat c.before.input c.mode c.before.tmp.response p.exec made.ids
          c.before.plan.events_to_append c.after.plan.events_to_append made.handed p.same_events in
      record {
        ids = names;
        same_code =
            ap (λ (x : ActionResult). x.result_code) made.as_signed
            ∙ kept_code
            ∙ p.same_code
            ∙ ap (λ (x : Response). x.result_code) (sym out)
            ∙ sym told_code
            ∙ ap (λ (x : Response). x.result_code) (sym c.answer);
        same_state = ap (filled input.session_id) state;
        same_events =
            ap (λ (x : Response). x.events)
              (c.answer
                ∙ response-respond c.mode c.after
                ∙ ap (respond c.mode c.after.plan.events_to_append) out)
            ∙ same
            ∙ ap (λ (x : ActionResult). attach_built_object_ids names x.events)
                (sym made.as_signed);
      }

  -- What is found under the key of a request that has returned.
  pub record IsAnswered (input : ActionInput) (r : Response) (t : S) : Type 0 where
    pub written : ActionExecutionRecord
    pub found :
        u.action_repo.get_by_idempotency_key input.agent_id input.idempotency_key t
        ≡ returned (some written)
    pub repeats : Repeats input.session_id r (replayed input.session_id written)

  carried-IsAnswered :
      {input : ActionInput} {r : Response} {t : S} (c : IsCarriedOut u laws input r t)
      → IsAnswered input r t
  carried-IsAnswered {input} {r} {t} c = record {
    written = c.record_of.written;
    found =
        subst
          (λ (i : ActionInput).
            u.action_repo.get_by_idempotency_key i.agent_id i.idempotency_key t
            ≡ returned (some c.record_of.written))
          c.plan.same_input c.record_of.found;
    repeats = carried-Repeats c;
  }

  replayed-Repeats :
      (sid : String) (exec : ActionExecutionRecord)
      → Repeats sid (replayed sid exec) (replayed sid exec)
  unfolding replayed attach_built_object_ids
  replayed-Repeats sid exec = record {
    ids = [];
    same_code = refl;
    same_state = sym (filled_idem sid exec.result.updated_state);
    same_events = refl;
  }

  pub pipeline-IsAnswered :
      (ac : ActionContext) (s : S) {r : Response} {t : S}
      → ac.plan.events_to_append ≡ none
      → pipeline u ac s ≡ returned (r, t)
      → IsAnswered ac.input r t
  unfolding pipeline replay_idempotent replay_of or_carry_out
  pipeline-IsAnswered ac s {r} {t} empty h =
      let key = ac.input.idempotency_key in
      elim (Result-cases (u.action_repo.get_by_idempotency_key ac.input.agent_id key s)) [
        | inl (some exec, e) ↦
            let h' = (rw e at h) in
            let same_r : r ≡ replayed ac.input.session_id exec = cc h' in
            let same_t : t ≡ s = cc h' in
            record {
              written = exec;
              found = rw same_t e;
              repeats = rw same_r (replayed-Repeats ac.input.session_id exec);
            }
        | inl (none, e) ↦ carried-IsAnswered (carry_out-IsCarriedOut u laws ac s empty (rw e at h))
        | inr (Error.not_found, e) ↦
            carried-IsAnswered (carry_out-IsCarriedOut u laws ac s empty (rw e at h))
        | inr (broken, e) ↦ absurd (cc (rw e at h))
      ]
