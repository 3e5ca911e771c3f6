-- ===== src/Observe/Execute.antt =====
-- internal/app/observe/usecase.go: an observation, which ends an action whose time is over. The
-- response is modelled without its tables of rules and costs, which are constants. One time stands
-- for both reads of the clock.
use clawvival.Base.{ltb, ℤ, String, str_eq, false, Option, none, some, List, [], if◌then◌else◌}
use clawvival.Base.Dict.{Dict}
use clawvival.Base.Text.{trim_space}
use clawvival.Survival.Types.{
  Time, AgentStateAggregate, OngoingActionInfo, SettlementResult, DomainEvent,
}
use clawvival.Survival.Tuning.{standard_tick_minutes}
use clawvival.World.Types.{Point, Snapshot}
use clawvival.Shared.Cooldown.{remaining_by_action}
use clawvival.Shared.Stateview.{
  enrich, current_zone_at_position, HpDrainEstimate, estimate_hp_drain,
}
use clawvival.Ports.{
  Error, Result, returned, AgentStateRepository, EventRepository, WorldObjectRecord,
  WorldObjectRepository, AgentResourceNodeRepository, WorldProvider,
}
use clawvival.Ports.Monad.{Tx, ◌>>=◌, ◌>>◌, give, fail, pure_step, reads, writes, skip}
use clawvival.Engine.Report.{list_recent_events}
use clawvival.Engine.Finalize.{
  elapsed_minutes, settle_elapsed, ended_events, session_of, is_current_tile_lit,
}
use clawvival.Observe.{
  ObservedTile, ObservedObject, ObservedResource, ObservedThreat, build_window_tiles,
  load_depleted_targets, apply_depleted, project_objects, project_resources, project_threats,
  summarize_nearby,
}

-- A store that is nil is none. The text under `state` in the JSON of an object is read by a function.
pub record UseCase (S : Type 0) : Type 0 where
  pub state_repo : AgentStateRepository S
  pub object_repo : Option (WorldObjectRepository S)
  pub event_repo : Option (EventRepository S)
  pub resource_repo : Option (AgentResourceNodeRepository S)
  pub world : WorldProvider S
  pub state_in : String → String

pub record Response : Type 0 where
  pub state : AgentStateAggregate
  pub snapshot : Snapshot
  pub world_time_seconds : ℤ
  pub hp_drain_feedback : HpDrainEstimate
  pub center : Point
  pub tiles : List ObservedTile
  pub objects : List ObservedObject
  pub resources : List ObservedResource
  pub threats : List ObservedThreat
  pub local_threat_level : ℤ

-- The state that is left by an action that has ended.
unfoldable pub rested_state : SettlementResult → Time → AgentStateAggregate
rested_state result now = record (result.updated_state) { ongoing_action = none; updated_at = now }

module _ {S : Type 0} (u : UseCase S) (agent_id : String) (now : Time) where
  append_if : Option (EventRepository S) → List DomainEvent → Tx S (Unit {0})
  append_if none events = skip
  append_if (some repo) events = writes (repo.append agent_id events)

  unfoldable pub end_due : AgentStateAggregate → OngoingActionInfo → Tx S AgentStateAggregate
  unfolding append_if
  end_due state ongoing = do
    snapshot ← u.world.snapshot_for_agent agent_id state.position
    result ← pure_step (settle_elapsed state ongoing (elapsed_minutes ongoing now) now snapshot)
    writes (u.state_repo.save_with_version (rested_state result now) state.version)
    append_if u.event_repo (ended_events agent_id ongoing now false result)
    give (rested_state result now)

  unfoldable pub end_if_due :
      AgentStateAggregate → Option OngoingActionInfo → Tx S AgentStateAggregate
  end_if_due state none = give state
  end_if_due state (some ongoing) =
      if ltb now ongoing.end_at then give state else end_due state ongoing

  unfoldable pub settle_before_observe : AgentStateAggregate → Tx S AgentStateAggregate
  settle_before_observe state =
      if state.dead then give state else end_if_due state state.ongoing_action

  events_of : Option (EventRepository S) → S → Result (List DomainEvent)
  events_of none s = returned []
  events_of (some repo) s = list_recent_events repo agent_id s

  rows_of : Option (WorldObjectRepository S) → S → Result (List WorldObjectRecord)
  rows_of none s = returned []
  rows_of (some repo) s = repo.list_objects agent_id s

  -- The state as it is shown.
  unfoldable pub viewed : AgentStateAggregate → Snapshot → List DomainEvent → AgentStateAggregate
  viewed state snapshot events =
      let derived = enrich state snapshot.time_of_day (is_current_tile_lit snapshot.time_of_day) in
      record derived {
        current_zone = current_zone_at_position derived.position snapshot.visible_tiles;
        action_cooldowns = remaining_by_action events now;
      }

  unfoldable pub shown : AgentStateAggregate → Snapshot → Dict ℤ → List WorldObjectRecord → Response
  shown state snapshot depleted rows =
      let center : Point = record { x = state.position.x; y = state.position.y } in
      let tiles = build_window_tiles center snapshot.time_of_day snapshot.visible_tiles in
      let resources = project_resources tiles depleted in
      record {
        state = state;
        snapshot = record snapshot { nearby_resource = summarize_nearby resources };
        world_time_seconds = snapshot.world_time_seconds;
        hp_drain_feedback = estimate_hp_drain state.vitals standard_tick_minutes;
        center = center;
        tiles = tiles;
        objects = project_objects u.state_in tiles rows;
        resources = resources;
        threats = project_threats tiles;
        local_threat_level = snapshot.threat_level;
      }

  unfoldable pub observe_agent : Tx S Response
  unfolding events_of rows_of
  observe_agent = do
    loaded ← reads (u.state_repo.get_by_agent_id agent_id)
    settled ← settle_before_observe loaded
    let state : AgentStateAggregate = record settled { session_id = session_of agent_id }
    whole ← u.world.snapshot_for_agent agent_id state.position
    depleted ← reads (load_depleted_targets u.resource_repo agent_id now)
    events ← reads (events_of u.event_repo)
    let snapshot : Snapshot = record whole {
      visible_tiles = apply_depleted depleted whole.visible_tiles;
    }
    rows ← reads (rows_of u.object_repo)
    give (shown (viewed state snapshot events) snapshot depleted rows)

  -- `UseCase.Execute`
  unfoldable pub observe : Tx S Response
  observe = if str_eq (trim_space agent_id) "" then fail Error.invalid_request else observe_agent
