-- ===== src/Survival/Settlement/Outcome.antt =====
-- internal/domain/survival/service_settlement.go: the state and the result that `Settle` returns.
use clawvival.Base.{
  ℕ, ◌+◌, ◌≤◌, ℤ, pos, pos_part, ◌+ℤ◌, ◌≤ℤ◌, ◌<ℤ◌, ◌≡◌, refl, true, some, ◌⊎◌, arith,
}
use clawvival.Base.Duration.{max_int64}
use clawvival.Survival.Types.{
  Time, Vitals, DeathCause, AgentStateAggregate, ActionIntent, HeartbeatDelta, ok, failed,
  WorldSnapshot, SettlementResult,
}
use clawvival.Survival.State.{mark_dead}
use clawvival.Survival.State.Counts.{IsWithin}
use clawvival.Survival.Effect.{Work, change_hp, change_hunger}
use clawvival.Survival.Settlement.{
  settle_action, settle_work, settle_minutes, settle, hp_losses, drain, drain_reasons, conclude,
  derive_death_cause,
}
use clawvival.Survival.Settlement.Minutes.{settle-eq-some}
use clawvival.Survival.Settlement.Frame.{IsFramed, settle_action-IsFramed}
use clawvival.Survival.Settlement.Stock.{act-IsWithin, most}

-- The cause of a death: hunger first, then exhaustion, then none that is known.
abbrev Caused : Vitals → DeathCause → Type 0
Caused v cause =
    (v.hunger <ℤ pos 0) × (cause ≡ DeathCause.starvation)
    ⊎ (pos 0 ≤ℤ v.hunger) × (v.energy <ℤ pos 0) × (cause ≡ DeathCause.exhaustion)
    ⊎ (pos 0 ≤ℤ v.hunger) × (pos 0 ≤ℤ v.energy) × (cause ≡ DeathCause.unknown)

-- What holds of the returned state and result, given the state before.
pub record IsOutcome (s : AgentStateAggregate) (now : Time) (r : SettlementResult) : Type 0 where
  pub next_version : r.updated_state.version ≡ s.version +ℤ pos 1
  pub stamped : r.updated_state.updated_at ≡ now
  pub same_agent : r.updated_state.agent_id ≡ s.agent_id
  pub same_session : r.updated_state.session_id ≡ s.session_id
  pub same_home : r.updated_state.home ≡ s.home
  pub same_capacity : r.updated_state.inventory_capacity ≡ s.inventory_capacity
  pub same_ongoing : r.updated_state.ongoing_action ≡ s.ongoing_action
  pub outcome :
      (r.result_code ≡ failed)
        × (r.updated_state.vitals.hp ≤ℤ pos 0)
        × (r.updated_state.dead ≡ true)
        × Caused r.updated_state.vitals r.updated_state.death_cause
      ⊎ (r.result_code ≡ ok)
        × (pos 0 <ℤ r.updated_state.vitals.hp)
        × (r.updated_state.dead ≡ s.dead)
        × (r.updated_state.death_cause ≡ s.death_cause)

module _ (s : AgentStateAggregate) (i : ActionIntent) (dt : ℕ) (now : Time)
    (o : WorldSnapshot) where
  drain-framed :
      (ls : ℤ × ℤ) (w : Work)
      → IsFramed (record s { updated_at = now }) w
      → let n = (drain ls w).next in
        (n.version ≡ s.version +ℤ pos 1)
        × (n.updated_at ≡ now)
        × (n.agent_id ≡ s.agent_id)
        × (n.session_id ≡ s.session_id)
        × (n.home ≡ s.home)
        × (n.inventory_capacity ≡ s.inventory_capacity)
        × (n.ongoing_action ≡ s.ongoing_action)
        × (n.dead ≡ s.dead)
        × (n.death_cause ≡ s.death_cause)
  unfolding drain drain_reasons change_hp
  drain-framed ls w x = ground (arith, x)

  settle_minutes-IsOutcome : IsOutcome s now (settle_minutes s i dt now o)
  unfolding settle_minutes settle_work conclude mark_dead derive_death_cause
  settle_minutes-IsOutcome =
      let acted = settle_action s i dt now o in
      ground (
        arith,
        drain-framed (hp_losses acted.next.vitals dt) acted (settle_action-IsFramed s i dt now o),
      )

-- Every settlement raises the version by one, stamps the state, and keeps identity, home, capacity
-- and the ongoing action. It fails exactly by death: then the health is gone, the agent is marked
-- dead, and the cause is starvation if its hunger is below zero, else exhaustion if its energy is,
-- else unknown. Otherwise the agent has health left, and is as dead or alive as before.
pub settle-IsOutcome :
    (s : AgentStateAggregate) (i : ActionIntent) (d : HeartbeatDelta) (now : Time)
    (o : WorldSnapshot) {r : SettlementResult}
    → settle s i d now o ≡ some r
    → IsOutcome s now r
settle-IsOutcome s i d now o h =
    rw (settle-eq-some s i d now o h) (settle_minutes-IsOutcome s i (pos_part d.minutes) now o)

module _ (s : AgentStateAggregate) (i : ActionIntent) (dt : ℕ) (now : Time) (o : WorldSnapshot)
    (b : ℕ) (room : b + most i o ≤ max_int64) where
  settle_action-IsWithin :
      IsWithin b s.inventory → IsWithin (b + most i o) (settle_action s i dt now o).next.inventory
  unfolding settle_action change_hunger
  settle_action-IsWithin x = act-IsWithin i.type b i dt now o _ room x

  drain-inventory : (ls : ℤ × ℤ) (w : Work) → (drain ls w).next.inventory ≡ w.next.inventory
  unfolding drain drain_reasons change_hp
  drain-inventory ls w = refl

  conclude-inventory : (n : AgentStateAggregate) → (conclude s dt now o n).0.inventory ≡ n.inventory
  unfolding conclude mark_dead
  conclude-inventory n = ground arith

  settle_minutes-IsWithin :
      IsWithin b s.inventory
      → IsWithin (b + most i o) (settle_minutes s i dt now o).updated_state.inventory
  unfolding settle_minutes settle_work
  settle_minutes-IsWithin x =
      let acted = settle_action s i dt now o in
      let drained = drain (hp_losses acted.next.vitals dt) acted in
      rw (conclude-inventory drained.next) (rw (drain-inventory _ acted) (settle_action-IsWithin x))

-- Where no count of the inventory is negative or above a bound, and the most that the action can add
-- leaves the bound within an `int`, no count is negative after the settlement, or has grown past
-- the bound by more than that.
pub settle_stock :
    (s : AgentStateAggregate) (i : ActionIntent) (d : HeartbeatDelta) (now : Time)
    (o : WorldSnapshot) (b : ℕ) {r : SettlementResult}
    → b + most i o ≤ max_int64
    → IsWithin b s.inventory
    → settle s i d now o ≡ some r
    → IsWithin (b + most i o) r.updated_state.inventory
settle_stock s i d now o b room x h =
    rw (settle-eq-some s i d now o h)
      (settle_minutes-IsWithin s i (pos_part d.minutes) now o b room x)
