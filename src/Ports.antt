-- ===== src/Ports.antt =====
-- internal/app/ports and the errors of the use cases: what the use cases ask of the stores, as
-- functions on a store of any type. A read returns or fails; a write returns the store after it.
pub mod Monad
use clawvival.Base.{ℕ, ℤ, String, Bool, Option, List}
use clawvival.Survival.Types.{
  Time, Position, ActionType, DeathCause, AgentStateAggregate, DomainEvent, ResultCode,
}
use clawvival.World.Types.{Snapshot}
use clawvival.Action.Move.{InvalidPosition}

-- `ErrNotFound` and `ErrConflict`, any other error of a port, `ErrInvalidDelta`, and the errors of
-- the use cases. The errors that wrap another carry what they hold.
pub data Error : Type 0 where
  not_found conflict : Error
  fault : String → Error
  invalid_delta invalid_request invalid_action_params action_precondition_failed : Error
  action_in_progress target_out_of_view target_not_visible inventory_full container_full : Error
  action_invalid_position : InvalidPosition → Error
  action_cooldown_active : ActionType → ℕ → Error
  resource_depleted : String → ℤ → Error
  invalid_credentials : Error

pub data Result {ℓ} (A : Type ℓ) : Type ℓ where
  returned : A → Result A
  raised : Error → Result A

pub record ActionResult : Type 0 where
  pub updated_state : AgentStateAggregate
  pub events : List DomainEvent
  pub result_code : ResultCode

pub record ActionExecutionRecord : Type 0 where
  pub agent_id : String
  pub idempotency_key : String
  pub intent_type : String
  pub result : ActionResult
  pub applied_at : Time

pub record AgentStateRepository (S : Type 0) : Type 0 where
  pub get_by_agent_id : String → S → Result AgentStateAggregate
  pub save_with_version : AgentStateAggregate → ℤ → S → Result S

-- The record that is found is a pointer, which may be nil.
pub record ActionExecutionRepository (S : Type 0) : Type 0 where
  pub get_by_idempotency_key : String → String → S → Result (Option ActionExecutionRecord)
  pub save_execution : ActionExecutionRecord → S → Result S

pub record EventRepository (S : Type 0) : Type 0 where
  pub append : String → List DomainEvent → S → Result S
  pub list_by_agent_id : String → ℤ → S → Result (List DomainEvent)

pub record WorldObjectRecord : Type 0 where
  pub object_id : String
  pub kind : ℤ
  pub x : ℤ
  pub y : ℤ
  pub hp : ℤ
  pub object_type : String
  pub quality : String
  pub capacity_slots : ℤ
  pub used_slots : ℤ
  pub object_state : String

pub record WorldObjectRepository (S : Type 0) : Type 0 where
  pub save_object : String → WorldObjectRecord → S → Result S
  pub get_by_object_id : String → String → S → Result WorldObjectRecord
  pub list_objects : String → S → Result (List WorldObjectRecord)
  pub update_object : String → WorldObjectRecord → S → Result S

pub record AgentResourceNodeRecord : Type 0 where
  pub agent_id : String
  pub target_id : String
  pub resource_type : String
  pub x : ℤ
  pub y : ℤ
  pub depleted_until : Time

pub record AgentResourceNodeRepository (S : Type 0) : Type 0 where
  pub upsert : AgentResourceNodeRecord → S → Result S
  pub get_by_target_id : String → String → S → Result AgentResourceNodeRecord
  pub list_nodes : String → S → Result (List AgentResourceNodeRecord)

pub record AgentSessionRepository (S : Type 0) : Type 0 where
  pub ensure_active : String → String → ℤ → S → Result S
  pub close : String → DeathCause → Time → S → Result S

-- A provider may remember chunks and the phase, so a snapshot may change the store.
pub record WorldProvider (S : Type 0) : Type 0 where
  pub snapshot_for_agent : String → Position → S → Result (Snapshot × S)
