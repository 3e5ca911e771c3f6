-- ===== src/Survival/Samples.antt =====
-- A state and an action to run the survival rules on.
use clawvival.Base.{ℤ, pos, negsuc, ◌≡◌, refl, false, none, some, [], ◌∷◌}
use clawvival.Base.Dict.{Dict}
use clawvival.Survival.Types.{
  ActionType, DeathCause, AgentStateAggregate, ActionIntent, HeartbeatDelta, WorldSnapshot,
  SettlementResult,
}
use clawvival.Survival.Settlement.{settle, settle_minutes}

abbrev pub logs : Dict ℤ
logs = ("wood", pos 9) ∷ ("seed", pos 1) ∷ ("berry", pos 2) ∷ []

-- An agent that starves two steps from home.
abbrev pub starving : AgentStateAggregate
starving = record {
  agent_id = "agent";
  session_id = "session";
  vitals = record { hp = pos 40; hunger = negsuc 49; energy = pos 60 };
  position = record { x = pos 2; y = negsuc 0 };
  current_zone = "safe";
  home = record { x = pos 0; y = pos 0 };
  inventory = logs;
  inventory_capacity = pos 30;
  inventory_used = pos 12;
  action_cooldowns = [];
  status_effects = [];
  dead = false;
  death_cause = DeathCause.empty;
  ongoing_action = none;
  version = pos 7;
  updated_at = 1000;
}

abbrev pub building : ActionIntent
building = record {
  type = ActionType.build;
  direction = "";
  target_id = "";
  recipe_id = pos 0;
  count = pos 0;
  object_type = "torch";
  pos = none;
  item_type = "";
  rest_minutes = pos 0;
  bed_id = "";
  bed_quality = "";
  farm_id = "";
  container_id = "";
  items = [];
  dx = pos 0;
  dy = pos 0;
}

abbrev pub half_hour : HeartbeatDelta
half_hour = record { minutes = pos 30 }

abbrev pub daytime : WorldSnapshot
daytime = record {
  time_of_day = "day";
  threat_level = pos 1;
  visibility_penalty = pos 0;
  nearby_resource = ("wood", pos 3) ∷ [];
  world_time_seconds = pos 60;
}

abbrev pub settled : SettlementResult
settled = settle_minutes starving building 30 2000 daytime

pub settles : settle starving building half_hour 2000 daytime ≡ some settled
unfolding settle
settles = refl
