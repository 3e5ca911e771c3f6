-- ===== src/Survival/Types.antt =====
-- internal/domain/survival/types.go and the session of state_entity.go: the agent's state, what an
-- agent may intend, and what a settlement returns. `int` is ℤ; a `time.Time` is the number of
-- nanoseconds since Go's zero time, so that the zero time is 0.
use clawvival.Base.{ℕ, ℤ, String, Bool, List, Option}
use clawvival.Base.Dict.{Dict}
use clawvival.Survival.Value.{Fields}

abbrev pub Time : Type 0
Time = ℕ

pub record Vitals : Type 0 where
  pub hp : ℤ
  pub hunger : ℤ
  pub energy : ℤ

pub record Position : Type 0 where
  pub x : ℤ
  pub y : ℤ

-- The string type `ActionType`: its constants, and any other text.
pub data ActionType : Type 0 where
  gather rest sleep move build farm farm_plant farm_harvest container_deposit : ActionType
  container_withdraw retreat craft eat terminate : ActionType
  other : String → ActionType

abbrev pub ActionType_text : ActionType → String
ActionType_text ActionType.gather = "gather"
ActionType_text ActionType.rest = "rest"
ActionType_text ActionType.sleep = "sleep"
ActionType_text ActionType.move = "move"
ActionType_text ActionType.build = "build"
ActionType_text ActionType.farm = "farm"
ActionType_text ActionType.farm_plant = "farm_plant"
ActionType_text ActionType.farm_harvest = "farm_harvest"
ActionType_text ActionType.container_deposit = "container_deposit"
ActionType_text ActionType.container_withdraw = "container_withdraw"
ActionType_text ActionType.retreat = "retreat"
ActionType_text ActionType.craft = "craft"
ActionType_text ActionType.eat = "eat"
ActionType_text ActionType.terminate = "terminate"
ActionType_text (ActionType.other s) = s

-- The string type `DeathCause`: the empty text and its constants.
pub data DeathCause : Type 0 where
  empty unknown starvation exhaustion threat : DeathCause

pub record OngoingActionInfo : Type 0 where
  pub type : ActionType
  pub minutes : ℤ
  pub end_at : Time
  pub bed_id : String
  pub quality : String

pub record AgentStateAggregate : Type 0 where
  pub agent_id : String
  pub session_id : String
  pub vitals : Vitals
  pub position : Position
  pub current_zone : String
  pub home : Position
  pub inventory : Dict ℤ
  pub inventory_capacity : ℤ
  pub inventory_used : ℤ
  pub action_cooldowns : Dict ℤ
  pub status_effects : List String
  pub dead : Bool
  pub death_cause : DeathCause
  pub ongoing_action : Option OngoingActionInfo
  pub version : ℤ
  pub updated_at : Time

pub record ItemAmount : Type 0 where
  pub item_type : String
  pub count : ℤ

pub record ActionIntent : Type 0 where
  pub type : ActionType
  pub direction : String
  pub target_id : String
  pub recipe_id : ℤ
  pub count : ℤ
  pub object_type : String
  pub pos : Option Position
  pub item_type : String
  pub rest_minutes : ℤ
  pub bed_id : String
  pub bed_quality : String
  pub farm_id : String
  pub container_id : String
  pub items : List ItemAmount
  pub dx : ℤ
  pub dy : ℤ

pub record HeartbeatDelta : Type 0 where
  pub minutes : ℤ

-- `ResultGameOver` is the same text as `ResultFailed`.
pub data ResultCode : Type 0 where
  ok failed : ResultCode

abbrev pub game_over : ResultCode
game_over = failed

pub record DomainEvent : Type 0 where
  pub type : String
  pub occurred_at : Time
  pub payload : Fields

pub record WorldSnapshot : Type 0 where
  pub time_of_day : String
  pub threat_level : ℤ
  pub visibility_penalty : ℤ
  pub nearby_resource : Dict ℤ
  pub world_time_seconds : ℤ

pub record SettlementResult : Type 0 where
  pub updated_state : AgentStateAggregate
  pub events : List DomainEvent
  pub result_code : ResultCode
