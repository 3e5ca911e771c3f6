-- ===== src/Engine/Samples.antt =====
-- A store that keeps a state and the record of the actions, and a use case on it.
use clawvival.Base.{
  pos, ◌*◌, ◌≡◌, refl, sym, ap, ◌∙◌, inl, arith, true, ◌&&◌, String, str_eq, eq_iff, none, some,
  Option, List, [], ◌∷◌, if◌then◌else◌,
}
use clawvival.Survival.Types.{
  Time, ItemAmount, ActionType, AgentStateAggregate, ActionIntent, OngoingActionInfo,
}
use clawvival.Survival.Tuning.{second}
use clawvival.Survival.Samples.{starving, building}
use clawvival.Ports.{
  Error, Result, returned, raised, ActionExecutionRecord, WorldObjectRecord, WorldObjectRepository,
}
use clawvival.Engine.Context.{
  Request, Response, UseCase, Formats, BoxObjectState, PreparedObjectAction, zero_snapshot,
  zero_response,
}
use clawvival.Engine.Objects.{idle_farm, zero_farm}
use clawvival.Engine.Objects.Change.Farms.{growing}
use clawvival.Engine.Stores.{IsTransaction, RemembersActions}

pub record Shelf : Type 0 where
  pub state : AgentStateAggregate
  pub execs : List ActionExecutionRecord

unfoldable pub find_exec :
    String → String → List ActionExecutionRecord → Result (Option ActionExecutionRecord)
find_exec agent_id key [] = raised Error.not_found
find_exec agent_id key (exec ∷ execs) =
    if str_eq exec.agent_id agent_id && str_eq exec.idempotency_key key
    then returned (some exec)
    else find_exec agent_id key execs

unfoldable pub commit : {S A : Type 0} → S → Result (A × S) → Result A × S
commit s (raised e) = (raised e, s)
commit s (returned (a, t)) = (returned a, t)

abbrev pub run_in_tx : {S A : Type 0} → (S → Result (A × S)) → S → Result A × S
run_in_tx f s = commit s (f s)

pub run_in_tx-IsTransaction : {S A : Type 0} → IsTransaction {S = S} {A = A} run_in_tx
unfolding commit
run_in_tx-IsTransaction = record {
  undone = λ f s e h. ap (commit s) h;
  committed = λ f s r t h. inl (ap (commit s) h);
}

-- A day in 2026.
abbrev pub planting : Time
planting = 63_907_706_829 * second

abbrev pub wood_box : BoxObjectState
wood_box = record { inventory = ("wood", pos 3) ∷ [] }

-- Texts that stand for the JSON of the states that the samples have.
abbrev pub sample_formats : Formats
sample_formats = record {
  encode_box = λ box. "box";
  decode_box = λ raw. some wood_box;
  encode_farm = λ farm. farm.state;
  decode_farm =
      λ default raw. if str_eq raw "IDLE" then some idle_farm else some (growing planting);
  scan_target = λ raw. none;
}

abbrev pub shelf_case : UseCase Shelf
shelf_case = record {
  run_in_tx = run_in_tx;
  state_repo = record {
    get_by_agent_id = λ agent_id s. returned s.state;
    save_with_version = λ state version s. returned (record s { state = state });
  };
  action_repo = record {
    get_by_idempotency_key = λ agent_id key s. find_exec agent_id key s.execs;
    save_execution = λ exec s. returned (record s { execs = exec ∷ s.execs });
  };
  event_repo = record {
    append = λ agent_id events s. returned s;
    list_by_agent_id = λ agent_id limit s. returned [];
  };
  object_repo = none;
  resource_repo = none;
  session_repo = none;
  world = record { snapshot_for_agent = λ agent_id at s. returned (zero_snapshot, s) };
  has_metrics = true;
  formats = sample_formats;
}

same_key : (key : String) → str_eq key key ≡ true
same_key key = ground (arith, eq_iff key key)

pub shelf_case-RemembersActions : RemembersActions shelf_case
unfolding find_exec
shelf_case-RemembersActions = record {
  recorded = λ exec s t h.
      let stored : record s { execs = exec ∷ s.execs } ≡ t = cc h in
      (
        exec,
        ap (λ (x : Shelf). find_exec exec.agent_id exec.idempotency_key x.execs) (sym stored)
            ∙ rw (same_key exec.agent_id, same_key exec.idempotency_key) refl,
        refl,
      );
  appended = λ owner events agent_id key s t h.
      let same : t ≡ s = cc h in ap (λ (x : Shelf). find_exec agent_id key x.execs) same;
  updated = λ repo has. absurd (cc has);
  saved = λ repo has. absurd (cc has);
  closed = λ sessions has. absurd (cc has);
}

abbrev pub resting : ActionIntent
resting = record building { type = ActionType.rest; count = pos 1; rest_minutes = pos 30 }

abbrev pub rest_request : Request
rest_request = record {
  agent_id = "agent";
  idempotency_key = "first";
  intent = resting;
  strategy_hash = "";
}

abbrev pub shelf : Shelf
shelf = record { state = starving; execs = [] }

abbrev pub a_rest : OngoingActionInfo
a_rest = record {
  type = ActionType.rest;
  minutes = pos 30;
  end_at = 9000;
  bed_id = "";
  quality = "";
}

abbrev pub busy_shelf : Shelf
busy_shelf = record { state = record starving { ongoing_action = some a_rest }; execs = [] }

abbrev pub response_in : Result Response → Response
response_in (raised e) = zero_response
response_in (returned r) = r

abbrev pub a_box : WorldObjectRecord
a_box = record {
  object_id = "obj-agent-first";
  kind = pos 2;
  x = pos 0;
  y = pos 0;
  hp = pos 100;
  object_type = "box";
  quality = "";
  capacity_slots = pos 60;
  used_slots = pos 0;
  object_state = "";
}

abbrev pub three_wood : List ItemAmount
three_wood = record { item_type = "wood"; count = pos 3 } ∷ []

-- What is done to the box before the deposit and before the withdrawal.
abbrev pub opened : PreparedObjectAction
opened = record { object = a_box; box = record { inventory = [] }; farm = zero_farm }

abbrev pub a_farm : WorldObjectRecord
a_farm = record a_box { object_type = "farm_plot"; capacity_slots = pos 0; object_state = "{}" }

abbrev pub depositing : ActionIntent
depositing = record resting {
  type = ActionType.container_deposit;
  container_id = "obj-agent-first";
  items = three_wood;
}

abbrev pub one_box : WorldObjectRepository Shelf
one_box = record {
  save_object = λ agent_id obj s. returned s;
  get_by_object_id = λ agent_id object_id s. returned a_box;
  list_objects = λ agent_id s. returned (a_box ∷ []);
  update_object = λ agent_id obj s. returned s;
}
