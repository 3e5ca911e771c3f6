-- ===== src/Engine/Context.antt =====
-- internal/app/action/dto.go, engine_registry.go and engine_usecase.go: what the steps of the engine
-- hand on, and what the engine is built on. A use case is called with the time at which its clock
-- is read. The metrics are the calls that are made of them.
use clawvival.Base.{ℤ, pos, String, Bool, false, Option, none, List, []}
use clawvival.Base.Dict.{Dict}
use clawvival.Survival.Value.{Fields}
use clawvival.Survival.Types.{
  Time, Position, ActionType, DeathCause, AgentStateAggregate, ActionIntent, ResultCode, ok,
  DomainEvent,
}
use clawvival.World.Types.{Snapshot}
use clawvival.Ports.{
  Result, ActionExecutionRecord, AgentStateRepository, ActionExecutionRepository, EventRepository,
  WorldObjectRecord, WorldObjectRepository, AgentResourceNodeRepository, AgentSessionRepository,
  WorldProvider,
}

pub record Request : Type 0 where
  pub agent_id : String
  pub idempotency_key : String
  pub intent : ActionIntent
  pub strategy_hash : String

-- A settlement that is nil is none.
pub record Response : Type 0 where
  pub world_time_before_seconds : ℤ
  pub world_time_after_seconds : ℤ
  pub updated_state : AgentStateAggregate
  pub events : List DomainEvent
  pub settlement : Option Fields
  pub result_code : ResultCode

pub data ActionMode : Type 0 where
  settle start_ongoing finalize_only : ActionMode

pub data ExecuteMode : Type 0 where
  continue completed : ExecuteMode

-- The types that implement `ActionHandler`.
pub data ActionHandler : Type 0 where
  gather_handler rest_handler sleep_handler move_handler build_handler : ActionHandler
  farm_plant_handler farm_harvest_handler container_deposit_handler : ActionHandler
  container_withdraw_handler retreat_handler craft_handler eat_handler : ActionHandler
  terminate_handler : ActionHandler

pub record ActionSpec : Type 0 where
  pub type : ActionType
  pub mode : ActionMode
  pub can_terminate : Bool
  pub handler : ActionHandler

-- The contents of a box and the state of a farm, which the objects hold as JSON.
pub record BoxObjectState : Type 0 where
  pub inventory : Dict ℤ

pub record FarmObjectState : Type 0 where
  pub state : String
  pub planted_at_unix : ℤ
  pub ready_at_unix : ℤ

pub record PreparedObjectAction : Type 0 where
  pub object : WorldObjectRecord
  pub box : BoxObjectState
  pub farm : FarmObjectState

pub record OngoingFinalizeResult : Type 0 where
  pub settled : Bool
  pub updated_state : AgentStateAggregate
  pub events : List DomainEvent
  pub result_code : ResultCode
  pub world_time_before_seconds : ℤ
  pub world_time_after_seconds : ℤ

pub record ActionInput : Type 0 where
  pub req : Request
  pub now_at : Time
  pub agent_id : String
  pub idempotency_key : String
  pub session_id : String

pub record ActionView : Type 0 where
  pub spec : Option ActionSpec
  pub state_before : AgentStateAggregate
  pub state_working : AgentStateAggregate
  pub events_before : List DomainEvent
  pub snapshot : Snapshot
  pub prepared_obj : Option PreparedObjectAction
  pub finalized : OngoingFinalizeResult

-- The pointers of the plan are options, and so is the slice of events, which the code tests for
-- nil.
pub record ActionWritePlan : Type 0 where
  pub state_to_save : Option AgentStateAggregate
  pub state_version : ℤ
  pub events_to_append : Option (List DomainEvent)
  pub execution_to_save : Option ActionExecutionRecord
  pub result_code : ResultCode
  pub should_persist : Bool
  pub apply_gather_depletion : Bool
  pub apply_object_action : Bool
  pub create_built_objects : Bool
  pub close_session : Bool
  pub close_session_cause : DeathCause

pub record ActionTmp : Type 0 where
  pub resolved_intent : ActionIntent
  pub delta_minutes : ℤ
  pub response : Response

pub record ActionContext : Type 0 where
  pub input : ActionInput
  pub view : ActionView
  pub plan : ActionWritePlan
  pub tmp : ActionTmp

-- The zero values of Go. The zero `ResultCode` is the empty text, which no step leaves in place;
-- `ok` stands for it.
abbrev pub zero_position : Position
zero_position = record { x = pos 0; y = pos 0 }

abbrev pub zero_state : AgentStateAggregate
zero_state = record {
  agent_id = "";
  session_id = "";
  vitals = record { hp = pos 0; hunger = pos 0; energy = pos 0 };
  position = zero_position;
  current_zone = "";
  home = zero_position;
  inventory = [];
  inventory_capacity = pos 0;
  inventory_used = pos 0;
  action_cooldowns = [];
  status_effects = [];
  dead = false;
  death_cause = DeathCause.empty;
  ongoing_action = none;
  version = pos 0;
  updated_at = 0;
}

abbrev pub zero_snapshot : Snapshot
zero_snapshot = record {
  world_time_seconds = pos 0;
  time_of_day = "";
  threat_level = pos 0;
  visibility_penalty = pos 0;
  nearby_resource = [];
  center = record { x = pos 0; y = pos 0 };
  view_radius = pos 0;
  visible_tiles = [];
  next_phase_in_seconds = 0;
  phase_changed = false;
  phase_from = "";
  phase_to = "";
}

abbrev pub not_finalized : OngoingFinalizeResult
not_finalized = record {
  settled = false;
  updated_state = zero_state;
  events = [];
  result_code = ok;
  world_time_before_seconds = pos 0;
  world_time_after_seconds = pos 0;
}

abbrev pub zero_view : ActionView
zero_view = record {
  spec = none;
  state_before = zero_state;
  state_working = zero_state;
  events_before = [];
  snapshot = zero_snapshot;
  prepared_obj = none;
  finalized = not_finalized;
}

abbrev pub zero_plan : ActionWritePlan
zero_plan = record {
  state_to_save = none;
  state_version = pos 0;
  events_to_append = none;
  execution_to_save = none;
  result_code = ok;
  should_persist = false;
  apply_gather_depletion = false;
  apply_object_action = false;
  create_built_objects = false;
  close_session = false;
  close_session_cause = DeathCause.empty;
}

abbrev pub zero_response : Response
zero_response = record {
  world_time_before_seconds = pos 0;
  world_time_after_seconds = pos 0;
  updated_state = zero_state;
  events = [];
  settlement = none;
  result_code = ok;
}

-- What is not under the repository's control: `encoding/json` on the states of objects, and the
-- `Sscanf` of a target, with the four values that it scans. Decoding starts from given values and
-- keeps those that the text does not name.
pub record Formats : Type 0 where
  pub encode_box : BoxObjectState → String
  pub decode_box : String → Option BoxObjectState
  pub encode_farm : FarmObjectState → String
  pub decode_farm : FarmObjectState → String → Option FarmObjectState
  pub scan_target : String → Option (String × ℤ × ℤ × String)

-- The stores that the code tests for nil are options. The event store is not: it is appended to
-- without a test.
pub record UseCase (S : Type 0) : Type 0 where
  pub run_in_tx : (S → Result (Response × S)) → S → Result Response × S
  pub state_repo : AgentStateRepository S
  pub action_repo : ActionExecutionRepository S
  pub event_repo : EventRepository S
  pub object_repo : Option (WorldObjectRepository S)
  pub resource_repo : Option (AgentResourceNodeRepository S)
  pub session_repo : Option (AgentSessionRepository S)
  pub world : WorldProvider S
  pub has_metrics : Bool
  pub formats : Formats
