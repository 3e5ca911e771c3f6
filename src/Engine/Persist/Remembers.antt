-- ===== src/Engine/Persist/Remembers.antt =====
-- internal/app/action/engine_pipeline_steps.go: what `PersistAndRespond` records of an action is
-- there when it has returned.
use clawvival.Base.{
  ◌≡◌, inl, inr, refl, sym, ap, ◌∙◌, Bool, Bool-cases, Option, Option-cases, some, none, List, [],
  ◌∷◌, String,
}
use clawvival.Survival.Types.{DomainEvent}
use clawvival.Ports.{
  ActionExecutionRecord, Result, returned, WorldObjectRecord, WorldObjectRepository,
}
use clawvival.Ports.Monad.{Tx, Result-cases, writes, writes-returned, give, ◌>>=◌, ◌>>◌}
use clawvival.Engine.Context.{ActionContext, ActionInput, ExecuteMode, UseCase}
use clawvival.Engine.Objects.Change.{persist_object_action, update_changed}
use clawvival.Engine.Stores.{KeepsActions, RemembersActions}
use clawvival.Engine.Handlers.Plans.{IsPlanned}
use clawvival.Engine.Persist.{
  persist_and_respond, persist_plan, persist_if, persist_before, persist_after, object_step,
  append_events, save_built, save_built_objects, close_if_planned, is_building, save_exec,
  with_events, sign_events, named_events, or_nil, built_object,
}

module _ {S : Type 0} (u : UseCase S) (laws : RemembersActions u) where
  -- Code after which what is found of the actions is what was found before.
  abbrev Keeps : {A : Type 0} → Tx S A → Type 0
  Keeps {A} m =
      (agent_id key : String) (s t : S) (a : A)
      → m s ≡ returned (a, t)
      → u.action_repo.get_by_idempotency_key agent_id key t
        ≡ u.action_repo.get_by_idempotency_key agent_id key s

  writes-Keeps : (put : S → Result S) → KeepsActions u put → Keeps (writes put)
  writes-Keeps put k agent_id key s t a h = k agent_id key s t (writes-returned put s h)

  skip-Keeps : {A : Type 0} (b : A) → Keeps (give b)
  skip-Keeps b agent_id key s t a h =
      ap (u.action_repo.get_by_idempotency_key agent_id key) (sym (cc h))

  update-Keeps :
      (ac : ActionContext) (repo : WorldObjectRepository S)
      → u.object_repo ≡ some repo
      → (obj : Option WorldObjectRecord)
      → Keeps (update_changed u.formats ac.input.now_at ac.input.agent_id repo obj)
  unfolding update_changed
  update-Keeps ac repo e none = skip-Keeps tt
  update-Keeps ac repo e (some obj) = writes-Keeps _ (laws.updated repo e ac.input.agent_id obj)

  object_step-Keeps : (ac : ActionContext) → Keeps (object_step u ac)
  unfolding object_step persist_object_action
  object_step-Keeps ac agent_id key s t a h = elim (Bool-cases ac.plan.apply_object_action) [
    | inr no_object ↦ skip-Keeps tt agent_id key s t a (rw no_object at h)
    | inl acts ↦ elim (Option-cases u.object_repo) [
      | inl no_repo ↦ skip-Keeps tt agent_id key s t a (rw (acts, no_repo) at h)
      | inr (repo, e) ↦ elim (Option-cases ac.view.prepared_obj) [
        | inl bare ↦ skip-Keeps tt agent_id key s t a (rw (acts, e, bare) at h)
        | inr (p, q) ↦ update-Keeps ac repo e _ agent_id key s t a (rw (acts, e, q) at h)
      ]
    ]
  ]

  append_events-Keeps :
      (agent : String) (events : List DomainEvent) → Keeps (append_events u agent events)
  unfolding append_events
  append_events-Keeps agent [] = skip-Keeps tt
  append_events-Keeps agent (event ∷ events) = writes-Keeps _ (laws.appended agent (event ∷ events))

  save_built-Keeps :
      (repo : WorldObjectRepository S)
      → u.object_repo ≡ some repo
      → (input : ActionInput) (object_type : String) (events : List DomainEvent)
      → Keeps (save_built repo input object_type events)
  unfolding save_built
  save_built-Keeps repo e input object_type [] agent_id key s t ids h =
      skip-Keeps [] agent_id key s t ids h
  save_built-Keeps repo e input object_type (event ∷ events) agent_id key s t ids h =
      elim (Bool-cases (is_building event)) [
        | inr other ↦
            save_built-Keeps repo e input object_type events agent_id key s t ids (rw other at h)
        | inl building ↦
            let obj = built_object input object_type event.payload in
            let h' = (rw building at h) in
            elim (Result-cases (repo.save_object input.agent_id obj s)) [
              | inr (broken, bad) ↦ absurd (cc (rw bad at h'))
              | inl (s1, put) ↦ elim (Result-cases (save_built repo input object_type events s1)) [
                | inr (broken, bad) ↦ absurd (cc (rw (put, bad) at h'))
                | inl ((rest, s2), more) ↦
                    let last : t ≡ s2 = cc (rw (put, more) at h') in
                    rw last (
                      save_built-Keeps repo e input object_type events agent_id key s1 s2 rest more
                      ∙ laws.saved repo e input.agent_id obj agent_id key s s1 put)
              ]
            ]
      ]

  save_built_objects-Keeps :
      (create : Bool) (input : ActionInput) (object_type : String) (events : List DomainEvent)
      → Keeps (save_built_objects u.object_repo create input object_type events)
  unfolding save_built_objects
  save_built_objects-Keeps create input object_type events agent_id key s t ids h =
      elim (Option-cases u.object_repo) [
        | inl no_repo ↦ skip-Keeps [] agent_id key s t ids (rw no_repo at h)
        | inr (repo, e) ↦ elim (Bool-cases create) [
          | inr none_built ↦ skip-Keeps [] agent_id key s t ids (rw (e, none_built) at h)
          | inl creates ↦
              save_built-Keeps repo e input object_type events agent_id key s t ids
                (rw (e, creates) at h)
        ]
      ]

  close_if_planned-Keeps : (ac : ActionContext) → Keeps (close_if_planned u.session_repo ac)
  unfolding close_if_planned
  close_if_planned-Keeps ac agent_id key s t a h = elim (Option-cases u.session_repo) [
    | inl no_repo ↦ skip-Keeps tt agent_id key s t a (rw no_repo at h)
    | inr (sessions, e) ↦ elim (Bool-cases ac.plan.close_session) [
      | inr stays_open ↦ skip-Keeps tt agent_id key s t a (rw (e, stays_open) at h)
      | inl closes ↦
          writes-Keeps _ (laws.closed sessions e _ _ _) agent_id key s t a (rw (e, closes) at h)
    ]
  ]

  -- The last two steps of the writes after the record.
  built_closed-Keeps :
      (ac : ActionContext) (events : List DomainEvent)
      → Keeps (do
        ids ←
            save_built_objects u.object_repo ac.plan.create_built_objects ac.input
              ac.tmp.resolved_intent.object_type events
        close_if_planned u.session_repo ac
        give ids)
  built_closed-Keeps ac events agent_id key s t ids h =
      let build =
        save_built_objects u.object_repo ac.plan.create_built_objects ac.input
          ac.tmp.resolved_intent.object_type events in
      elim (Result-cases (build s)) [
        | inr (broken, bad) ↦ absurd (cc (rw bad at h))
        | inl ((some_ids, s1), built) ↦
            elim (Result-cases (close_if_planned u.session_repo ac s1)) [
              | inr (broken, bad) ↦ absurd (cc (rw (built, bad) at h))
              | inl ((_, s2), closes) ↦
                  let last : t ≡ s2 = cc (rw (built, closes) at h) in
                  rw last (
                    close_if_planned-Keeps ac agent_id key s1 s2 tt closes
                    ∙ save_built_objects-Keeps ac.plan.create_built_objects ac.input
                        ac.tmp.resolved_intent.object_type events agent_id key s s1 some_ids built)
            ]
      ]

  persist_after-Keeps :
      (ac : ActionContext) (events : Option (List DomainEvent)) → Keeps (persist_after u ac events)
  unfolding persist_after
  persist_after-Keeps ac events agent_id key s t ids h = elim (Result-cases (object_step u ac s)) [
    | inr (broken, bad) ↦ absurd (cc (rw bad at h))
    | inl ((_, s1), acted) ↦
        elim (Result-cases (append_events u ac.input.agent_id (or_nil events) s1)) [
          | inr (broken, bad) ↦ absurd (cc (rw (acted, bad) at h))
          | inl ((_, s2), told) ↦
              built_closed-Keeps ac (or_nil events) agent_id key s2 t ids (rw (acted, told) at h)
              ∙ append_events-Keeps ac.input.agent_id (or_nil events) agent_id key s1 s2 tt told
              ∙ object_step-Keeps ac agent_id key s s1 tt acted
        ]
  ]

  -- What is found afterwards, and the plan as it is handed on.
  pub record IsRecorded (ac ac' : ActionContext) (exec : ActionExecutionRecord) (t : S)
      : Type 0 where
    pub ids : List String
    pub written : ActionExecutionRecord
    pub as_signed :
        written.result ≡ (with_events (sign_events ac.input ac.plan.events_to_append) exec).result
    pub found :
        u.action_repo.get_by_idempotency_key ac.input.agent_id ac.input.idempotency_key t
        ≡ returned (some written)
    pub handed :
        ac'.plan.events_to_append ≡ named_events (sign_events ac.input ac.plan.events_to_append) ids
    pub same_tmp : ac'.tmp ≡ ac.tmp

  saved_exec :
      (events : Option (List DomainEvent)) (o : Option ActionExecutionRecord)
      (exec : ActionExecutionRecord) (s : S) {x : Unit {0}} {t : S}
      → o ≡ some exec
      → save_exec u events o s ≡ returned (x, t)
      → u.action_repo.save_execution (with_events events exec) s ≡ returned t
  unfolding save_exec
  saved_exec events o exec s e h =
      writes-returned (u.action_repo.save_execution (with_events events exec)) s (rw e at h)

  own_names :
      (events : Option (List DomainEvent)) (exec : ActionExecutionRecord)
      → ((with_events events exec).agent_id ≡ exec.agent_id)
        × ((with_events events exec).idempotency_key ≡ exec.idempotency_key)
  unfolding with_events
  own_names none exec = (refl, refl)
  own_names (some events) exec = (refl, refl)

  renamed :
      (a a' b b' : String) (t : S) {r : Result (Option ActionExecutionRecord)}
      → a ≡ a'
      → b ≡ b'
      → u.action_repo.get_by_idempotency_key a b t ≡ r
      → u.action_repo.get_by_idempotency_key a' b' t ≡ r
  renamed a a' b b' t p q h = rw (← p, ← q) h

  found_exec :
      (events : Option (List DomainEvent)) (exec : ActionExecutionRecord) (input : ActionInput)
      (s t : S)
      → exec.agent_id ≡ input.agent_id
      → exec.idempotency_key ≡ input.idempotency_key
      → u.action_repo.save_execution (with_events events exec) s ≡ returned t
      → (found : ActionExecutionRecord) × (u.action_repo.get_by_idempotency_key input.agent_id
            input.idempotency_key t
          ≡ returned (some found))
        × (found.result ≡ (with_events events exec).result)
  found_exec events exec input s t agent key h =
      let (same_agent, same_key) = own_names events exec in
      let (found, there, same) = laws.recorded (with_events events exec) s t h in
      (found, renamed _ _ _ _ t (same_agent ∙ agent) (same_key ∙ key) there, same)

  pub persist_and_respond-IsRecorded :
      (input : ActionInput) (mode : ExecuteMode) (ac : ActionContext) (p : IsPlanned input mode ac)
      (s : S) {ac' : ActionContext} {t : S}
      → persist_and_respond u ac s ≡ returned (ac', t)
      → IsRecorded ac ac' p.exec t
  unfolding persist_and_respond persist_plan
  persist_and_respond-IsRecorded input mode ac p s {ac'} {t} h =
      let events = sign_events ac.input ac.plan.events_to_append in
      let h1 = sym (ap (λ b. persist_if u ac b s) p.persists) ∙ h in
      elim (Result-cases (persist_before u ac s)) [
        | inr (broken, bad) ↦ absurd (cc (rw bad at h1))
        | inl ((_, s1), before) ↦
            elim (Result-cases (save_exec u events ac.plan.execution_to_save s1)) [
              | inr (broken, bad) ↦ absurd (cc (rw (before, bad) at h1))
              | inl ((_, s2), saves) ↦ elim (Result-cases (persist_after u ac events s2)) [
                | inr (broken, bad) ↦ absurd (cc (rw (before, saves, bad) at h1))
                | inl ((ids, s3), after) ↦
                    let h2 = (rw (before, saves, after) at h1) in
                    let handed_on : ActionContext = record ac {
                      plan = record (ac.plan) { events_to_append = named_events events ids };
                    } in
                    let gives : ac' ≡ handed_on = cc h2 in
                    let last : t ≡ s3 = cc h2 in
                    let (found, there, same) =
                      found_exec events p.exec ac.input s1 s2 p.own_agent p.own_key
                        (saved_exec events _ p.exec s1 p.records saves) in
                    record {
                      ids = ids;
                      written = found;
                      as_signed = same;
                      found = rw last (
                          persist_after-Keeps ac events ac.input.agent_id ac.input.idempotency_key
                            s2 s3 ids after
                          ∙ there);
                      handed = ap (λ (c : ActionContext). c.plan.events_to_append) gives;
                      same_tmp = ap (λ (c : ActionContext). c.tmp) gives;
                    }
              ]
            ]
      ]
