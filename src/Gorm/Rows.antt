-- ===== src/Gorm/Rows.antt =====
-- internal/adapter/repo/gorm/model: the rows of the tables, as the code's structs, less the columns
-- that no repository writes or reads. An `int32` is an integer that the conversion has wrapped; a
-- column of a string type has that type.
use clawvival.Base.{ℕ, ◌-◌, ◌^◌, ◌%◌, ℤ, pos, negsuc, String, Bool, false, ltb, [], if◌then◌else◌}
use clawvival.Survival.Types.{Time, ActionType, DeathCause, ResultCode}
use clawvival.Auth.Tokens.{Bytes}

abbrev low_bits : ℤ → ℕ
low_bits (pos n) = n % 2 ^ 32
low_bits (negsuc n) = 2 ^ 32 - 1 - n % 2 ^ 32

-- The conversion `int32(z)`.
unfoldable pub int32 : ℤ → ℤ
int32 z = let w = low_bits z in if ltb w (2 ^ 31) then pos w else negsuc (2 ^ 32 - 1 - w)

pub record AgentStateRow : Type 0 where
  pub agent_id : String
  pub hp : ℤ
  pub hunger : ℤ
  pub energy : ℤ
  pub x : ℤ
  pub y : ℤ
  pub version : ℤ
  pub updated_at : Time
  pub inventory : String
  pub dead : Bool
  pub death_cause : DeathCause
  pub ongoing_action_type : ActionType
  pub ongoing_action_end_at : Time
  pub ongoing_action_minutes : ℤ
  pub inventory_capacity : ℤ
  pub inventory_used : ℤ

abbrev pub zero_state_row : AgentStateRow
zero_state_row = record {
  agent_id = "";
  hp = pos 0;
  hunger = pos 0;
  energy = pos 0;
  x = pos 0;
  y = pos 0;
  version = pos 0;
  updated_at = 0;
  inventory = "";
  dead = false;
  death_cause = DeathCause.empty;
  ongoing_action_type = ActionType.other "";
  ongoing_action_end_at = 0;
  ongoing_action_minutes = pos 0;
  inventory_capacity = pos 0;
  inventory_used = pos 0;
}

pub record ActionExecutionRow : Type 0 where
  pub agent_id : String
  pub idempotency_key : String
  pub intent_type : String
  pub dt : ℤ
  pub result_code : ResultCode
  pub updated_state : Bytes
  pub events : Bytes
  pub applied_at : Time

abbrev pub zero_execution_row : ActionExecutionRow
zero_execution_row = record {
  agent_id = "";
  idempotency_key = "";
  intent_type = "";
  dt = pos 0;
  result_code = ResultCode.ok;
  updated_state = [];
  events = [];
  applied_at = 0;
}

pub record AgentCredentialRow : Type 0 where
  pub agent_id : String
  pub key_salt : Bytes
  pub key_hash : Bytes
  pub status : String
  pub created_at : Time
  pub updated_at : Time

abbrev pub zero_credential_row : AgentCredentialRow
zero_credential_row = record {
  agent_id = "";
  key_salt = [];
  key_hash = [];
  status = "";
  created_at = 0;
  updated_at = 0;
}

pub record DomainEventRow : Type 0 where
  pub agent_id : String
  pub type : String
  pub occurred_at : Time
  pub payload : Bytes

abbrev pub zero_event_row : DomainEventRow
zero_event_row = record { agent_id = ""; type = ""; occurred_at = 0; payload = [] }

pub record AgentSessionRow : Type 0 where
  pub session_id : String
  pub agent_id : String
  pub start_tick : ℤ
  pub status : String
  pub death_cause : DeathCause
  pub ended_at : Time

abbrev pub zero_session_row : AgentSessionRow
zero_session_row = record {
  session_id = "";
  agent_id = "";
  start_tick = pos 0;
  status = "";
  death_cause = DeathCause.empty;
  ended_at = 0;
}

pub record WorldObjectRow : Type 0 where
  pub object_id : String
  pub kind : String
  pub x : ℤ
  pub y : ℤ
  pub hp : ℤ
  pub owner_agent_id : String
  pub object_type : String
  pub quality : String
  pub capacity_slots : ℤ
  pub used_slots : ℤ
  pub object_state : String

abbrev pub zero_object_row : WorldObjectRow
zero_object_row = record {
  object_id = "";
  kind = "";
  x = pos 0;
  y = pos 0;
  hp = pos 0;
  owner_agent_id = "";
  object_type = "";
  quality = "";
  capacity_slots = pos 0;
  used_slots = pos 0;
  object_state = "";
}

pub record AgentResourceNodeRow : Type 0 where
  pub agent_id : String
  pub target_id : String
  pub resource_type : String
  pub x : ℤ
  pub y : ℤ
  pub depleted_until : Time
  pub updated_at : Time

abbrev pub zero_node_row : AgentResourceNodeRow
zero_node_row = record {
  agent_id = "";
  target_id = "";
  resource_type = "";
  x = pos 0;
  y = pos 0;
  depleted_until = 0;
  updated_at = 0;
}

pub record WorldChunkRow : Type 0 where
  pub chunk_x : ℤ
  pub chunk_y : ℤ
  pub phase : String
  pub tiles : Bytes
  pub updated_at : Time

pub record WorldClockRow : Type 0 where
  pub state_key : String
  pub phase : String
  pub switched_at : Time
  pub updated_at : Time

abbrev pub zero_clock_row : WorldClockRow
zero_clock_row = record { state_key = ""; phase = ""; switched_at = 0; updated_at = 0 }
