-- ===== src/Engine/Finalize.antt =====
-- internal/app/action/engine_common.go: the end of an action that goes on for some time, such as a
-- rest, when its time is over or when it is broken off.
pub mod Elapsed
use clawvival.Base.{
  ◌/◌, ltb, ℤ, pos, ◌+ℤ◌, ◌-ℤ◌, ◌*ℤ◌, ltb_ℤ, pos_part, String, Bool, true, false, not, ◌&&◌, ◌||◌,
  Option, none, some, List, [], ◌∷◌, ◌++◌, map, if◌then◌else◌,
}
use Prim.Native.String
use clawvival.Base.Text.{equal_fold, trim_space}
use clawvival.Base.Duration.{sub_time}
use clawvival.Survival.Value.{set, text, int, bool, field, done}
use clawvival.Survival.Types.{
  Time, ActionType, ActionType_text, DeathCause, OngoingActionInfo, AgentStateAggregate,
  ActionIntent, WorldSnapshot, ResultCode, ok, failed, DomainEvent, SettlementResult,
}
use clawvival.Survival.Tuning.{minute}
use clawvival.Survival.Settlement.{settle}
use clawvival.World.Types.{Snapshot}
use clawvival.Shared.Stateview.{enrich}
use clawvival.Ports.{Error, Result, returned, raised, AgentSessionRepository}
use clawvival.Ports.Monad.{Tx, ◌>>=◌, ◌>>◌, give, fail, pure_step, writes, skip}
use clawvival.Engine.Context.{OngoingFinalizeResult, not_finalized, UseCase}
use clawvival.Engine.Intent.{same_type}
use clawvival.Engine.Report.{world_time_window_from_events}

unfoldable pub is_interruptible_ongoing_action_type : ActionType → Bool
is_interruptible_ongoing_action_type t = same_type t ActionType.rest || same_type t ActionType.sleep

unfoldable pub is_current_tile_lit : String → Bool
is_current_tile_lit time_of_day = equal_fold (trim_space time_of_day) "day"

-- `t.Add(time.Duration(minutes) * time.Minute)`, from the zero time on.
unfoldable pub add_minutes : Time → ℤ → Time
add_minutes t minutes = pos_part (pos t +ℤ minutes *ℤ pos minute)

-- The minutes that an ongoing action has taken: none before its start, and not more than planned.
-- Whole minutes are exact below 2 ^ 17, and a plan is not that long.
unfoldable pub elapsed_minutes : OngoingActionInfo → Time → ℤ
elapsed_minutes ongoing now =
    let start_at = add_minutes ongoing.end_at (pos 0 -ℤ ongoing.minutes) in
    let delta = pos (pos_part (sub_time now start_at) / minute) in
    if ltb_ℤ ongoing.minutes delta then ongoing.minutes else delta

-- The intent with which the elapsed minutes are settled.
abbrev zero_intent : ActionType → ActionIntent
zero_intent type = record {
  type = type;
  direction = "";
  target_id = "";
  recipe_id = pos 0;
  count = pos 0;
  object_type = "";
  pos = none;
  item_type = "";
  rest_minutes = pos 0;
  bed_id = "";
  bed_quality = "";
  farm_id = "";
  container_id = "";
  items = [];
  dx = pos 0;
  dy = pos 0;
}

unfoldable pub ongoing_intent : OngoingActionInfo → ActionIntent
ongoing_intent ongoing =
    if same_type ongoing.type ActionType.sleep
    then record (zero_intent ongoing.type) {
      bed_id = ongoing.bed_id;
      bed_quality = ongoing.quality;
    }
    else zero_intent ongoing.type

-- The part of a snapshot that a settlement reads, at a time.
abbrev pub seen_at : ℤ → Snapshot → WorldSnapshot
seen_at seconds snapshot = record {
  time_of_day = snapshot.time_of_day;
  threat_level = snapshot.threat_level;
  visibility_penalty = snapshot.visibility_penalty;
  nearby_resource = snapshot.nearby_resource;
  world_time_seconds = seconds;
}

abbrev pub or_invalid_delta : Option SettlementResult → Result SettlementResult
or_invalid_delta none = raised Error.invalid_delta
or_invalid_delta (some r) = returned r

unfoldable pub settle_elapsed :
    AgentStateAggregate → OngoingActionInfo → ℤ → Time → Snapshot → Result SettlementResult
settle_elapsed state ongoing delta now snapshot =
    let before = snapshot.world_time_seconds -ℤ delta *ℤ pos 60 in
    if ltb_ℤ (pos 0) delta
    then or_invalid_delta (
        settle state (ongoing_intent ongoing) (record { minutes = delta }) now
          (seen_at (if ltb_ℤ before (pos 0) then pos 0 else before) snapshot))
    else returned (record { updated_state = state; events = []; result_code = ok })

abbrev pub session_of : String → String
session_of agent_id = String.◌++◌ "session-" agent_id

unfoldable pub sign_event : String → String → DomainEvent → DomainEvent
sign_event agent_id session_id event = record event {
  payload = set "session_id" (text session_id) (set "agent_id" (text agent_id) event.payload);
}

unfoldable pub ongoing_action_ended : String → OngoingActionInfo → Time → Bool → DomainEvent
ongoing_action_ended agent_id ongoing now forced = record {
  type = "ongoing_action_ended";
  occurred_at = now;
  payload = field "agent_id" (text agent_id) (
      field "session_id" (text (session_of agent_id)) (
        field "action_type" (text (ActionType_text ongoing.type))
          (field "planned_minutes" (int ongoing.minutes) (field "forced" (bool forced) done))));
}

-- The state after the action has ended, and the events of its end.
unfoldable pub ended_state : SettlementResult → Time → Snapshot → AgentStateAggregate
ended_state result now snapshot =
    enrich (record (result.updated_state) { ongoing_action = none; updated_at = now })
      snapshot.time_of_day (is_current_tile_lit snapshot.time_of_day)

unfoldable pub ended_events :
    String → OngoingActionInfo → Time → Bool → SettlementResult → List DomainEvent
ended_events agent_id ongoing now forced result =
    map (sign_event agent_id (session_of agent_id)) result.events
    ++ ongoing_action_ended agent_id ongoing now forced ∷ []

abbrev is_game_over : ResultCode → Bool
is_game_over ok = false
is_game_over failed = true

module _ {S : Type 0} where
  -- The session of an agent that has died is closed, where there are sessions.
  unfoldable pub close_if_over :
      Option (AgentSessionRepository S) → Bool → String → DeathCause → Time → Tx S (Unit {0})
  close_if_over none over session_id cause now = skip
  close_if_over (some sessions) false session_id cause now = skip
  close_if_over (some sessions) true session_id cause now =
      writes (sessions.close session_id cause now)

  module _ (u : UseCase S) (agent_id : String) (state : AgentStateAggregate) (now : Time)
      (force : Bool) where
    unfoldable pub end_ongoing : OngoingActionInfo → Tx S OngoingFinalizeResult
    end_ongoing ongoing = do
      let delta = elapsed_minutes ongoing now
      snapshot ← u.world.snapshot_for_agent agent_id state.position
      result ← pure_step (settle_elapsed state ongoing delta now snapshot)
      let next = ended_state result now snapshot
      let events = ended_events agent_id ongoing now force result
      writes (u.state_repo.save_with_version next state.version)
      writes (u.event_repo.append agent_id events)
      close_if_over u.session_repo (is_game_over result.result_code) (session_of agent_id)
          next.death_cause now
      let window = world_time_window_from_events events snapshot.world_time_seconds delta
      give (record {
        settled = true;
        updated_state = next;
        events = events;
        result_code = result.result_code;
        world_time_before_seconds = window.0;
        world_time_after_seconds = window.1;
      })

    unfoldable pub finalize_if_due : Option OngoingActionInfo → Tx S OngoingFinalizeResult
    finalize_if_due none = give not_finalized
    finalize_if_due (some ongoing) =
        if force && not (is_interruptible_ongoing_action_type ongoing.type)
        then fail Error.action_precondition_failed
        else if ltb now ongoing.end_at && not force
        then give not_finalized
        else end_ongoing ongoing

    unfoldable pub finalize_ongoing_action : Tx S OngoingFinalizeResult
    finalize_ongoing_action = finalize_if_due state.ongoing_action
