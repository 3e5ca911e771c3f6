-- ===== src/Survival/Settlement.antt =====
-- internal/domain/survival/service_settlement.go: `SettlementService.Settle`, which charges an action
-- for the minutes that it took, lets it act, drains health, and reports all this in events.
pub mod Minutes
pub mod Reasons
pub mod Report
pub mod Health
pub mod Frame
pub mod Stock
pub mod Outcome
pub mod Bounds
pub mod Events
pub mod Times
pub mod Home
use clawvival.Base.{
  ℕ, ℤ, pos, ◌+ℤ◌, ◌-ℤ◌, ◌*ℤ◌, leb_ℤ, ltb_ℤ, neg, pos_part, String, Option, none, some, List, [],
  ◌∷◌, ◌++◌, if◌then◌else◌,
}
use clawvival.Base.Dict.{Dict}
use clawvival.Survival.Value.{Fields, nil, int, text, ints, list, obj, done, field}
use clawvival.Survival.Types.{
  Time, Vitals, Position, ActionType_text, DeathCause, AgentStateAggregate, ActionIntent,
  HeartbeatDelta, ResultCode, ok, game_over, DomainEvent, WorldSnapshot, SettlementResult,
}
use clawvival.Survival.Tuning.{hp_drain_cap_per30, base_hunger_drain_per30, critical_hp_threshold}
use clawvival.Survival.State.{mark_dead}
use clawvival.Survival.Drain.{
  scaled_int, hunger_loss_potential, energy_loss_potential, apply_dual_cap,
}
use clawvival.Survival.Payload.{
  append_reason, reasons_value, inventory_delta, intent_decision_params, map_death_cause_for_event,
  state_summary, last_state,
}
use clawvival.Survival.Effect.{Work, change_hunger, change_hp, act}

abbrev pub start : AgentStateAggregate → Time → Work
start state now = record {
  next = record state { updated_at = now };
  action_events = [];
  hp_reasons = [];
  hunger_reasons = [];
  energy_reasons = [];
}

-- The action on a clone of the state, after the baseline drain.
unfoldable pub settle_action : AgentStateAggregate → ActionIntent → ℕ → Time → WorldSnapshot → Work
settle_action state intent dt now snapshot = act intent.type intent dt now snapshot (
    change_hunger (neg (scaled_int base_hunger_drain_per30 dt)) "BASE_HUNGER_DRAIN"
      (start state now))

-- The parts of the loss of health that hunger and exhaustion take.
unfoldable pub hp_losses : Vitals → ℕ → ℤ × ℤ
hp_losses v dt =
    apply_dual_cap (hunger_loss_potential v.hunger dt) (energy_loss_potential v.energy dt)
      (scaled_int hp_drain_cap_per30 dt)

unfoldable pub drain_reasons : ℤ × ℤ → Work → Work
drain_reasons (hunger_applied, energy_applied) w =
    let starved =
      if ltb_ℤ (pos 0) hunger_applied
      then append_reason w.hp_reasons "STARVING_HP_DRAIN" (neg hunger_applied)
      else w.hp_reasons in
    let drained =
      if ltb_ℤ (pos 0) energy_applied
      then append_reason starved "EXHAUSTED_HP_DRAIN" (neg energy_applied)
      else starved in
    record w { hp_reasons = drained }

unfoldable pub drain : ℤ × ℤ → Work → Work
unfolding drain_reasons
drain losses w =
    let loss = losses.0 +ℤ losses.1 in
    let w' = change_hp (neg loss) "HP_LOSS_APPLIED" (drain_reasons losses w) in
    record w' { next = record (w'.next) { version = w'.next.version +ℤ pos 1 } }

unfoldable pub derive_death_cause : Vitals → DeathCause
derive_death_cause v =
    if ltb_ℤ v.hunger (pos 0)
    then DeathCause.starvation
    else if ltb_ℤ v.energy (pos 0)
    then DeathCause.exhaustion
    else DeathCause.unknown

step_toward : ℤ → ℤ → ℤ
step_toward a b = if ltb_ℤ a b then a +ℤ pos 1 else if ltb_ℤ b a then a -ℤ pos 1 else a

unfoldable pub move_toward : Position → Position → Position
unfolding step_toward
move_toward from to = record { x = step_toward from.x to.x; y = step_toward from.y to.y }

vitals_delta : Vitals → Vitals → Dict ℤ
vitals_delta before after =
    ("hp", after.hp -ℤ before.hp)
    ∷ ("hunger", after.hunger -ℤ before.hunger)
    ∷ ("energy", after.energy -ℤ before.energy)
    ∷ []

seconds_after : WorldSnapshot → ℕ → ℤ
seconds_after snapshot dt = snapshot.world_time_seconds +ℤ pos dt *ℤ pos 60

settled_result : AgentStateAggregate → ℤ → Work → Fields
unfolding vitals_delta
settled_result state loss w = field "hp_loss" (int loss) (
    field "inventory_delta" (ints (inventory_delta state.inventory w.next.inventory)) (
      field "vitals_delta" (ints (vitals_delta state.vitals w.next.vitals)) (
        field "vitals_change_reasons"
          (obj (
            field "hp" (list (reasons_value w.hp_reasons)) (
              field "hunger" (list (reasons_value w.hunger_reasons))
                (field "energy" (list (reasons_value w.energy_reasons)) done))))
          done)))

unfoldable pub action_settled :
    AgentStateAggregate → ActionIntent → ℕ → Time → WorldSnapshot → ℤ → Work → DomainEvent
unfolding settled_result seconds_after
action_settled state intent dt now snapshot loss w = record {
  type = "action_settled";
  occurred_at = now;
  payload = field "world_time_before_seconds" (int snapshot.world_time_seconds) (
      field "world_time_after_seconds" (int (seconds_after snapshot dt)) (
        field "state_before" (obj (state_summary state)) (
          field "decision"
            (obj (
              field "intent" (text (ActionType_text intent.type))
                (field "params" (obj (intent_decision_params intent)) done)))
            (field "state_after" (obj (state_summary w.next))
              (field "result" (obj (settled_result state loss w)) done)))));
}

abbrev point : Position → Dict ℤ
point p = ("x", p.x) ∷ ("y", p.y) ∷ []

unfoldable pub game_over_event :
    AgentStateAggregate → ℕ → Time → WorldSnapshot → AgentStateAggregate → DomainEvent
unfolding seconds_after
game_over_event state dt now snapshot next = record {
  type = "game_over";
  occurred_at = now;
  payload = field "death_cause" (text (map_death_cause_for_event next.death_cause)) (
      field "state_before_last_action" (obj (last_state state snapshot.world_time_seconds)) (
        field "state_after_last_action" (obj (last_state next (seconds_after snapshot dt)))
          (field "last_safe_home" (ints (point next.home)) (field "last_known_threat" nil done))));
}

abbrev bare_event : String → Time → DomainEvent
bare_event type now = record { type = type; occurred_at = now; payload = done }

-- Death, a forced retreat, or neither: the state, the events, and the result.
unfoldable pub conclude :
    AgentStateAggregate
    → ℕ
    → Time
    → WorldSnapshot
    → AgentStateAggregate
    → AgentStateAggregate × List DomainEvent × ResultCode
conclude state dt now snapshot next =
    if leb_ℤ next.vitals.hp (pos 0)
    then (let dead = mark_dead (derive_death_cause next.vitals) next in
        (dead, game_over_event state dt now snapshot dead ∷ [], game_over))
    else if leb_ℤ next.vitals.hp critical_hp_threshold
    then (
      record next { position = move_toward next.position next.home },
      bare_event "critical_hp" now ∷ bare_event "force_retreat" now ∷ [],
      ok,
    )
    else (next, [], ok)

-- The work after the action and the drain, and the loss of health.
unfoldable pub settle_work :
    AgentStateAggregate → ActionIntent → ℕ → Time → WorldSnapshot → Work × ℤ
settle_work state intent dt now snapshot =
    let acted = settle_action state intent dt now snapshot in
    let losses = hp_losses acted.next.vitals dt in (drain losses acted, losses.0 +ℤ losses.1)

-- The settlement of a positive number of minutes.
unfoldable pub settle_minutes :
    AgentStateAggregate → ActionIntent → ℕ → Time → WorldSnapshot → SettlementResult
settle_minutes state intent dt now snapshot =
    let (work, loss) = settle_work state intent dt now snapshot in
    let (next, events, code) = conclude state dt now snapshot work.next in
    record {
      updated_state = next;
      events =
          (action_settled state intent dt now snapshot loss work ∷ events) ++ work.action_events;
      result_code = code;
    }

-- `none` is `ErrInvalidDelta`.
unfoldable pub settle :
    AgentStateAggregate
    → ActionIntent
    → HeartbeatDelta
    → Time
    → WorldSnapshot
    → Option SettlementResult
settle state intent delta now snapshot =
    if leb_ℤ delta.minutes (pos 0)
    then none
    else some (settle_minutes state intent (pos_part delta.minutes) now snapshot)
