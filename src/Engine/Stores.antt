-- ===== src/Engine/Stores.antt =====
-- internal/app/ports: what the stores of the engine are relied on for. The transactions are those of
-- gorm: an error undoes what was written, and a commit may fail. The result that was recorded of an
-- action is found under its agent and its key, and no other write touches it.
use clawvival.Base.{◌≡◌, ◌⊎◌, String, some, List}
use clawvival.Survival.Types.{Time, DeathCause, DomainEvent}
use clawvival.Ports.{
  Error, Result, returned, raised, ActionExecutionRecord, WorldObjectRecord, WorldObjectRepository,
  AgentSessionRepository,
}
use clawvival.Engine.Context.{UseCase}

pub record IsTransaction {S A : Type 0} (run : (S → Result (A × S)) → S → Result A × S)
    : Type 0 where
  pub undone :
      (f : S → Result (A × S)) (s : S) (e : Error) → f s ≡ raised e → run f s ≡ (raised e, s)
  pub committed :
      (f : S → Result (A × S)) (s : S) (r : A) (t : S)
      → f s ≡ returned (r, t)
      → (run f s ≡ (returned r, t)) ⊎ ((e : Error) × (run f s ≡ (raised e, s)))

-- A write that leaves what is found of the actions as it is.
abbrev pub KeepsActions : {S : Type 0} → UseCase S → (S → Result S) → Type 0
KeepsActions {S} u write =
    (agent_id key : String) (s t : S)
    → write s ≡ returned t
    → u.action_repo.get_by_idempotency_key agent_id key t
      ≡ u.action_repo.get_by_idempotency_key agent_id key s

pub record RemembersActions {S : Type 0} (u : UseCase S) : Type 0 where
  pub recorded :
      (exec : ActionExecutionRecord) (s t : S)
      → u.action_repo.save_execution exec s ≡ returned t
      → (found : ActionExecutionRecord) × (u.action_repo.get_by_idempotency_key exec.agent_id
            exec.idempotency_key t
          ≡ returned (some found))
        × (found.result ≡ exec.result)
  pub appended :
      (agent_id : String) (events : List DomainEvent)
      → KeepsActions u (u.event_repo.append agent_id events)
  pub updated :
      (repo : WorldObjectRepository S)
      → u.object_repo ≡ some repo
      → (agent_id : String) (obj : WorldObjectRecord)
      → KeepsActions u (repo.update_object agent_id obj)
  pub saved :
      (repo : WorldObjectRepository S)
      → u.object_repo ≡ some repo
      → (agent_id : String) (obj : WorldObjectRecord)
      → KeepsActions u (repo.save_object agent_id obj)
  pub closed :
      (sessions : AgentSessionRepository S)
      → u.session_repo ≡ some sessions
      → (session_id : String) (cause : DeathCause) (at : Time)
      → KeepsActions u (sessions.close session_id cause at)
