-- ===== src/Gorm/States.antt =====
-- internal/adapter/repo/gorm/state_repo.go: the states of the agents in their table, with the
-- version that a save expects. The JSON of an inventory is a library's.
use clawvival.Base.{
  ℕ, ◌==◌, ℤ, pos, ◌+ℤ◌, ltb_ℤ, leb_ℤ, String, str_eq, ◌||◌, ◌&&◌, Option, none, some, [], ◌∷◌,
  if◌then◌else◌,
}
use clawvival.Base.Dict.{Dict}
use clawvival.Survival.Types.{
  Time, ActionType, ActionType_text, OngoingActionInfo, AgentStateAggregate,
}
use clawvival.Ports.{Error, Result, returned, raised, AgentStateRepository}
use clawvival.Gorm.Table.{
  Table, Answer, answered, record_not_found, broken, passed_on, or_not_found,
}
use clawvival.Gorm.Rows.{int32, AgentStateRow, zero_state_row}

-- `json.Marshal` and `json.Unmarshal` of a `map[string]int`. What cannot be read leaves a map.
pub record InventoryJson : Type 0 where
  pub marshal : Dict ℤ → String
  pub unmarshal : String → Dict ℤ

unfoldable pub encode_inventory : InventoryJson → Dict ℤ → String
encode_inventory json [] = "{}"
encode_inventory json (e ∷ inv) = json.marshal (e ∷ inv)

unfoldable pub decode_inventory : InventoryJson → String → Dict ℤ
decode_inventory json raw = if str_eq raw "" then [] else json.unmarshal raw

unfoldable pub decode_ongoing_action : ActionType → ℤ → Time → Option OngoingActionInfo
decode_ongoing_action type minutes end_at =
    if str_eq (ActionType_text type) "" || end_at == 0
    then none
    else if leb_ℤ minutes (pos 0)
    then none
    else some
        (record { type = type; minutes = minutes; end_at = end_at; bed_id = ""; quality = "" })

unfoldable pub apply_ongoing_action : Option OngoingActionInfo → AgentStateRow → AgentStateRow
apply_ongoing_action none m = record m {
  ongoing_action_type = ActionType.other "";
  ongoing_action_end_at = 0;
  ongoing_action_minutes = pos 0;
}
apply_ongoing_action (some ongoing) m = record m {
  ongoing_action_type = ongoing.type;
  ongoing_action_end_at = ongoing.end_at;
  ongoing_action_minutes = int32 ongoing.minutes;
}

unfoldable pub resolve_inventory_capacity : AgentStateAggregate → ℤ
resolve_inventory_capacity state =
    if ltb_ℤ (pos 0) state.inventory_capacity then state.inventory_capacity else pos 30

-- The sum of the counts that are positive.
unfoldable pub sum_counts : Dict ℤ → ℤ
sum_counts [] = pos 0
sum_counts ((_, n) ∷ inv) = if ltb_ℤ (pos 0) n then n +ℤ sum_counts inv else sum_counts inv

unfoldable pub resolve_inventory_used : AgentStateAggregate → ℤ
unfolding sum_counts
resolve_inventory_used state =
    if ltb_ℤ (pos 0) state.inventory_used then state.inventory_used else sum_counts state.inventory

-- The aggregate that a row is read as.
unfoldable pub state_of : InventoryJson → String → AgentStateRow → AgentStateAggregate
unfolding decode_inventory decode_ongoing_action
state_of json agent_id m = record {
  agent_id = agent_id;
  session_id = "";
  vitals = record { hp = m.hp; hunger = m.hunger; energy = m.energy };
  position = record { x = m.x; y = m.y };
  current_zone = "";
  home = record { x = pos 0; y = pos 0 };
  inventory = decode_inventory json m.inventory;
  inventory_capacity = m.inventory_capacity;
  inventory_used = m.inventory_used;
  action_cooldowns = [];
  status_effects = [];
  dead = m.dead;
  death_cause = m.death_cause;
  ongoing_action =
      decode_ongoing_action m.ongoing_action_type m.ongoing_action_minutes m.ongoing_action_end_at;
  version = m.version;
  updated_at = 0;
}

-- The row of a new state.
unfoldable pub row_of : InventoryJson → AgentStateAggregate → AgentStateRow
unfolding encode_inventory apply_ongoing_action resolve_inventory_capacity resolve_inventory_used
row_of json state = apply_ongoing_action state.ongoing_action (record zero_state_row {
  agent_id = state.agent_id;
  hp = int32 state.vitals.hp;
  hunger = int32 state.vitals.hunger;
  energy = int32 state.vitals.energy;
  x = int32 state.position.x;
  y = int32 state.position.y;
  version = state.version;
  inventory = encode_inventory json state.inventory;
  inventory_capacity = int32 (resolve_inventory_capacity state);
  inventory_used = int32 (resolve_inventory_used state);
  dead = state.dead;
  death_cause = state.death_cause;
})

-- The columns of the action that goes on. The minutes are not converted here.
unfoldable pub assign_ongoing : Option OngoingActionInfo → AgentStateRow → AgentStateRow
assign_ongoing none m = record m {
  ongoing_action_type = ActionType.other "";
  ongoing_action_end_at = 0;
  ongoing_action_minutes = pos 0;
}
assign_ongoing (some ongoing) m = record m {
  ongoing_action_type = ongoing.type;
  ongoing_action_end_at = ongoing.end_at;
  ongoing_action_minutes = ongoing.minutes;
}

-- The map `updates`, as what it makes of a row.
unfoldable pub assign_state : InventoryJson → AgentStateAggregate → AgentStateRow → AgentStateRow
unfolding encode_inventory assign_ongoing resolve_inventory_capacity resolve_inventory_used
assign_state json state m = assign_ongoing state.ongoing_action (record m {
  hp = int32 state.vitals.hp;
  hunger = int32 state.vitals.hunger;
  energy = int32 state.vitals.energy;
  x = int32 state.position.x;
  y = int32 state.position.y;
  version = state.version;
  inventory = encode_inventory json state.inventory;
  inventory_capacity = int32 (resolve_inventory_capacity state);
  inventory_used = int32 (resolve_inventory_used state);
  dead = state.dead;
  death_cause = state.death_cause;
})

-- No row that was changed is a conflict.
unfoldable pub or_conflict : {S : Type 0} → Answer (ℕ × S) → Result S
or_conflict (answered (n, s)) = if n == 0 then raised Error.conflict else returned s
or_conflict record_not_found = passed_on record_not_found
or_conflict (broken e) = passed_on (broken e)

abbrev pub agent_row : String → AgentStateRow
agent_row agent_id = record zero_state_row { agent_id = agent_id }

abbrev pub version_row : String → ℤ → AgentStateRow
version_row agent_id version = record zero_state_row { agent_id = agent_id; version = version }

module _ {S : Type 0} (db : Table S AgentStateRow) (json : InventoryJson) where
  unfoldable pub get_state : String → S → Result AgentStateAggregate
  unfolding state_of
  get_state agent_id s = or_not_found (state_of json agent_id) (db.first (agent_row agent_id) s)

  unfoldable pub save_with_version : AgentStateAggregate → ℤ → S → Result S
  unfolding row_of assign_state or_conflict
  save_with_version state expected s =
      let created = db.create (row_of json state) s in
      let updated = db.updates (version_row state.agent_id expected) (assign_state json state) s in
      if leb_ℤ expected (pos 0) && leb_ℤ (pos 0) expected
      then passed_on created
      else or_conflict updated

  abbrev pub agent_state_repo : AgentStateRepository S
  agent_state_repo = record { get_by_agent_id = get_state; save_with_version = save_with_version }
