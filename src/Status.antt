-- ===== src/Status.antt =====
-- internal/app/status/usecase.go: the state of an agent as it is shown, with the costs of the
-- actions. The response is modelled without its table of rules, which is a constant. One time
-- stands for each read of the clock.
use clawvival.Base.{ℕ, ℤ, pos, String, str_eq, Option, none, some, List, [], ◌∷◌, if◌then◌else◌}
use clawvival.Base.Dict.{Dict, insert}
use clawvival.Base.Text.{trim_space}
use clawvival.Survival.Types.{Time, ActionType, ActionType_text, AgentStateAggregate, DomainEvent}
use clawvival.Survival.Tuning.{standard_tick_minutes}
use clawvival.Survival.Costs.{ActionCostVariant, ActionCostProfile, default_action_cost_profiles}
use clawvival.Survival.Tables.{food_recovery_rules}
use clawvival.World.Types.{Snapshot}
use clawvival.Shared.Cooldown.{remaining_by_action}
use clawvival.Shared.Stateview.{
  enrich, current_zone_at_position, HpDrainEstimate, estimate_hp_drain,
}
use clawvival.Ports.{Error, Result, returned, AgentStateRepository, EventRepository, WorldProvider}
use clawvival.Ports.Monad.{Tx, ◌>>=◌, give, fail, reads}
use clawvival.Engine.Report.{list_recent_events}
use clawvival.Engine.Finalize.{session_of, is_current_tile_lit}

-- A store that is nil is none.
pub record UseCase (S : Type 0) : Type 0 where
  pub state_repo : AgentStateRepository S
  pub event_repo : Option (EventRepository S)
  pub world : WorldProvider S

pub record Response : Type 0 where
  pub state : AgentStateAggregate
  pub world_time_seconds : ℤ
  pub time_of_day : String
  pub next_phase_in_seconds : ℕ
  pub hp_drain_feedback : HpDrainEstimate
  pub action_costs : Dict ActionCostProfile

-- A variant for each food, by what it recovers.
unfoldable pub food_variants : Dict ℤ → Dict ActionCostVariant → Dict ActionCostVariant
food_variants [] out = out
food_variants ((item_type, hunger) ∷ foods) out = food_variants foods (
    insert item_type (record { delta_hunger = hunger; delta_energy = pos 0; delta_hp = pos 0 }) out)

unfoldable pub with_variants : ActionType → ActionCostProfile → ActionCostProfile
unfolding food_variants food_recovery_rules
with_variants ActionType.eat cost = record cost {
  variants = food_variants food_recovery_rules cost.variants;
}
with_variants _ cost = cost

add_cost : ActionType → Option ActionCostProfile → Dict ActionCostProfile → Dict ActionCostProfile
unfolding with_variants
add_cost t none rest = rest
add_cost t (some cost) rest = (ActionType_text t, with_variants t cost) ∷ rest

unfoldable pub costs_of : List ActionType → Dict ActionCostProfile
unfolding add_cost
costs_of [] = []
costs_of (t ∷ ts) = add_cost t (default_action_cost_profiles t) (costs_of ts)

-- The action types that have a profile.
abbrev published : List ActionType
published =
    ActionType.move ∷ ActionType.gather ∷ ActionType.craft ∷ ActionType.build ∷ ActionType.eat
    ∷ ActionType.rest ∷ ActionType.sleep ∷ ActionType.farm_plant ∷ ActionType.farm_harvest
    ∷ ActionType.container_deposit ∷ ActionType.container_withdraw ∷ ActionType.retreat
    ∷ ActionType.terminate ∷ []

unfoldable pub default_action_costs : Dict ActionCostProfile
unfolding costs_of
default_action_costs = costs_of published

module _ {S : Type 0} (u : UseCase S) (agent_id : String) (now : Time) where
  events_of : Option (EventRepository S) → S → Result (List DomainEvent)
  events_of none s = returned []
  events_of (some repo) s = list_recent_events repo agent_id s

  unfoldable pub shown : AgentStateAggregate → Snapshot → List DomainEvent → Response
  shown state snapshot events =
      let derived = enrich state snapshot.time_of_day (is_current_tile_lit snapshot.time_of_day) in
      record {
        state = record derived {
          current_zone = current_zone_at_position derived.position snapshot.visible_tiles;
          action_cooldowns = remaining_by_action events now;
        };
        world_time_seconds = snapshot.world_time_seconds;
        time_of_day = snapshot.time_of_day;
        next_phase_in_seconds = snapshot.next_phase_in_seconds;
        hp_drain_feedback = estimate_hp_drain derived.vitals standard_tick_minutes;
        action_costs = default_action_costs;
      }

  -- `UseCase.Execute` of an agent that is named.
  unfoldable pub read_status : Tx S Response
  unfolding events_of
  read_status = do
    loaded ← reads (u.state_repo.get_by_agent_id agent_id)
    let state : AgentStateAggregate = record loaded { session_id = session_of agent_id }
    snapshot ← u.world.snapshot_for_agent agent_id state.position
    events ← reads (events_of u.event_repo)
    give (shown state snapshot events)

  unfoldable pub status : Tx S Response
  status = if str_eq (trim_space agent_id) "" then fail Error.invalid_request else read_status
