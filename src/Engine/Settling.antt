-- ===== src/Engine/Settling.antt =====
-- internal/app/action/action_common.go, action_gather.go and action_retreat.go: an action that is
-- settled at once, by the minutes of the standard tick.
use clawvival.Base.{
  ℤ, pos, ltb_ℤ, String, str_eq, Bool, true, false, ◌&&◌, Option, none, some, List, [], ◌∷◌, ◌++◌,
  map, if◌then◌else◌,
}
use Prim.Native.String
use clawvival.Base.Decimal.{show_int}
use clawvival.Base.Dict.{Dict}
use clawvival.Survival.Value.{Value, int, text, ints, obj, set, done, field}
use clawvival.Survival.Types.{
  Time, ActionType_text, AgentStateAggregate, ResultCode, ok, failed, DomainEvent, SettlementResult,
}
use clawvival.Survival.Tuning.{standard_tick_minutes}
use clawvival.Survival.Settlement.{settle}
use clawvival.World.Types.{Tile, Snapshot}
use clawvival.Shared.Stateview.{enrich, current_zone_at_position}
use clawvival.Shared.Cooldown.{remaining_by_action_with_current}
use clawvival.Shared.Depletion.{Scan, ResourceTarget, parse_resource_target_id}
use clawvival.Action.Retreat.{strongest_visible_threat, danger_score}
use clawvival.Ports.{Result, returned, ActionExecutionRecord}
use clawvival.Ports.Monad.{Tx, ◌>>=◌, pure_step}
use clawvival.Engine.Context.{ActionContext, ExecuteMode, continue, Response, UseCase}
use clawvival.Engine.Report.{settlement_summary, world_time_window}
use clawvival.Engine.Finalize.{is_current_tile_lit, seen_at, or_invalid_delta}
use clawvival.Engine.Seeds.{apply_seed_pity_if_needed}

pub record SettleOptions : Type 0 where
  pub filter_gather_nearby : Bool
  pub apply_seed_pity : Bool
  pub apply_gather_deplete : Bool
  pub apply_object_action : Bool
  pub create_built_objects : Bool

unfoldable pub fixed_standard_action_delta_minutes : ℤ
fixed_standard_action_delta_minutes = standard_tick_minutes

-- A gather takes one of the resource of its target.
nearby_of : Option ResourceTarget → Dict ℤ
nearby_of none = []
nearby_of (some t) = (t.resource, pos 1) ∷ []

unfoldable pub filter_gather_nearby_resource : Scan → String → Dict ℤ
unfolding nearby_of
filter_gather_nearby_resource scan target_id = nearby_of (parse_resource_target_id scan target_id)

threat_id : Tile → String
threat_id t = String.◌++◌ "thr_" (String.◌++◌ (show_int t.x) (String.◌++◌ "_" (show_int t.y)))

threat_value : Tile → Value
unfolding threat_id
threat_value t = obj (
    field "id" (text (threat_id t)) (
      field "type" (text "wild") (
        field "pos" (ints (("x", t.x) ∷ ("y", t.y) ∷ []))
          (field "danger_score" (int (danger_score t)) done))))

name_threat : Tile → DomainEvent → DomainEvent
unfolding threat_value
name_threat t event =
    if str_eq event.type "game_over"
    then record event { payload = set "last_known_threat" (threat_value t) event.payload }
    else event

unfoldable pub attach_last_known_threat : Option Tile → List DomainEvent → List DomainEvent
unfolding name_threat
attach_last_known_threat none events = events
attach_last_known_threat (some t) events = map (name_threat t) events

unfoldable pub world_phase_changed : Time → Snapshot → List DomainEvent
world_phase_changed now snapshot =
    if snapshot.phase_changed && ltb_ℤ (pos 0) fixed_standard_action_delta_minutes
    then record {
      type = "world_phase_changed";
      occurred_at = now;
      payload = field "from" (text snapshot.phase_from) (field "to" (text snapshot.phase_to) done);
    }
      ∷ []
    else []

-- The state of a settlement, with what is derived from it, from the tiles and from the events
-- before.
unfoldable pub viewed_state : ActionContext → AgentStateAggregate → AgentStateAggregate
viewed_state ac state =
    let snapshot = ac.view.snapshot in
    let seen = enrich state snapshot.time_of_day (is_current_tile_lit snapshot.time_of_day) in
    record seen {
      current_zone = current_zone_at_position seen.position snapshot.visible_tiles;
      action_cooldowns =
          remaining_by_action_with_current ac.view.events_before ac.input.now_at
            ac.tmp.resolved_intent.type;
    }

unfoldable pub recorded :
    ActionContext → AgentStateAggregate → List DomainEvent → ResultCode → ActionExecutionRecord
recorded ac state events code = record {
  agent_id = ac.input.agent_id;
  idempotency_key = ac.input.idempotency_key;
  intent_type = ActionType_text ac.tmp.resolved_intent.type;
  result = record { updated_state = state; events = events; result_code = code };
  applied_at = ac.input.now_at;
}

unfoldable pub answered : ℤ × ℤ → AgentStateAggregate → List DomainEvent → ResultCode → Response
answered window state events code = record {
  world_time_before_seconds = window.0;
  world_time_after_seconds = window.1;
  updated_state = state;
  events = events;
  settlement = settlement_summary events;
  result_code = code;
}

abbrev is_failed : ResultCode → Bool
is_failed ok = false
is_failed failed = true

-- The plan and the response that a settlement leads to.
unfoldable pub planned : SettleOptions → SettlementResult → ActionContext → ActionContext
unfolding recorded answered
planned opts r ac =
    let window =
      world_time_window ac.view.snapshot.world_time_seconds fixed_standard_action_delta_minutes in
    record ac {
      plan = record {
        state_to_save = some r.updated_state;
        state_version = ac.view.state_working.version;
        events_to_append = some r.events;
        execution_to_save = some (recorded ac r.updated_state r.events r.result_code);
        result_code = r.result_code;
        should_persist = true;
        apply_gather_depletion = opts.apply_gather_deplete;
        apply_object_action = opts.apply_object_action;
        create_built_objects = opts.create_built_objects;
        close_session = is_failed r.result_code;
        close_session_cause = r.updated_state.death_cause;
      };
      tmp = record (ac.tmp) {
        delta_minutes = fixed_standard_action_delta_minutes;
        response = answered window r.updated_state r.events r.result_code;
      };
    }

module _ {S : Type 0} (u : UseCase S) (opts : SettleOptions) (ac : ActionContext) where
  abbrev nearby : Dict ℤ
  nearby =
      if opts.filter_gather_nearby
      then filter_gather_nearby_resource u.formats.scan_target ac.tmp.resolved_intent.target_id
      else ac.view.snapshot.nearby_resource

  -- What is made of the result of the settlement before it is planned.
  unfoldable pub finished : S → SettlementResult → SettlementResult
  finished s settled =
      let viewed : SettlementResult = record settled {
        updated_state = viewed_state ac settled.updated_state;
        events = settled.events ++ world_phase_changed ac.input.now_at ac.view.snapshot;
      } in
      let pitied =
        if opts.apply_seed_pity
        then apply_seed_pity_if_needed u.event_repo ac.input.agent_id ac.tmp.resolved_intent
            ac.view.state_working s viewed
        else viewed in
      record pitied {
        events =
            attach_last_known_threat (strongest_visible_threat ac.view.snapshot.visible_tiles)
              pitied.events;
      }

  unfoldable pub settle_now : Result SettlementResult
  settle_now = or_invalid_delta (
      settle ac.view.state_working ac.tmp.resolved_intent
        (record { minutes = fixed_standard_action_delta_minutes }) ac.input.now_at
        (record (seen_at ac.view.snapshot.world_time_seconds ac.view.snapshot) {
          nearby_resource = nearby;
        }))

  unfoldable pub settle_via_domain_or_instant : Tx S (ExecuteMode × ActionContext)
  settle_via_domain_or_instant = do
    settled ← pure_step settle_now
    λ s. returned ((continue, planned opts (finished s settled) ac), s)
