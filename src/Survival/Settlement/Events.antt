-- ===== src/Survival/Settlement/Events.antt =====
-- internal/domain/survival/service_settlement.go: the events of `Settle` and their order.
use clawvival.Base.{
  ℕ, pos, ◌≤ℤ◌, ◌<ℤ◌, ◌≡◌, true, ◌⊎◌, refl, Option, none, some, List, [], ◌∷◌, ◌++◌, All,
}
use clawvival.Survival.Types.{
  Time, Position, AgentStateAggregate, ActionIntent, ok, failed, DomainEvent, WorldSnapshot,
  SettlementResult,
}
use clawvival.Survival.Tuning.{critical_hp_threshold}
use clawvival.Survival.Rules.{BuiltObject}
use clawvival.Survival.Effect.{
  Work, change_hunger, change_energy, change_hp, eat_for, report_build, build_completed,
}
use clawvival.Survival.Effect.Preserve.{Keeps, act_keeps}
use clawvival.Survival.Settlement.{settle_action, settle_work, drain, drain_reasons, move_toward}
use clawvival.Survival.Value.{int, obj}
use clawvival.Survival.Settlement.Report.{under}

-- The events of an action report what was built.
abbrev pub IsBuilt : Time → DomainEvent → Type 0
IsBuilt now e = (e.type ≡ "build_completed") × (e.occurred_at ≡ now)

All-append_one :
    (now : Time) (es : List DomainEvent) (e : DomainEvent)
    → All (IsBuilt now) es
    → IsBuilt now e
    → All (IsBuilt now) (es ++ e ∷ [])
All-append_one now [] e h b = (b, tt)
All-append_one now (x ∷ es) e h b = (h.0, All-append_one now es e h.1 b)

report_build-IsBuilt :
    (now : Time) (b : Option BuiltObject) (w : Work)
    → All (IsBuilt now) w.action_events
    → All (IsBuilt now) (report_build now b w).action_events
unfolding build_completed
report_build-IsBuilt now none w x = x
report_build-IsBuilt now (some o) w x = All-append_one now w.action_events _ x (refl, refl)

IsBuilt-kept : (now : Time) → Keeps now (λ w. All (IsBuilt now) w.action_events)
unfolding change_hunger change_energy change_hp eat_for
IsBuilt-kept now = record {
  hunger = λ d code w x. x;
  energy = λ d code w x. x;
  health = λ d code w _ x. x;
  bag = λ m w x. x;
  place = λ dx dy w x. x;
  built = report_build-IsBuilt now;
  fed = λ i w x. x;
}

-- The agent died: no health is left, and it is marked dead.
pub record Ended (r : SettlementResult) (settled : DomainEvent) (built : List DomainEvent)
    : Type 0 where
  over : DomainEvent
  code : r.result_code ≡ failed
  dies : r.updated_state.vitals.hp ≤ℤ pos 0
  dead : r.updated_state.dead ≡ true
  order : r.events ≡ settled ∷ over ∷ built
  over_type : over.type ≡ "game_over"

-- The agent was forced to retreat, with some health left.
pub record Retreated (r : SettlementResult) (settled : DomainEvent) (from : Position)
    (built : List DomainEvent) : Type 0 where
  alarm : DomainEvent
  retreat : DomainEvent
  code : r.result_code ≡ ok
  alive : pos 0 <ℤ r.updated_state.vitals.hp
  critical : r.updated_state.vitals.hp ≤ℤ critical_hp_threshold
  order : r.events ≡ settled ∷ alarm ∷ retreat ∷ built
  alarm_type : alarm.type ≡ "critical_hp"
  retreat_type : retreat.type ≡ "force_retreat"
  homeward : r.updated_state.position ≡ move_toward from r.updated_state.home

-- Neither.
pub record Continued (r : SettlementResult) (settled : DomainEvent) (from : Position)
    (built : List DomainEvent) : Type 0 where
  code : r.result_code ≡ ok
  healthy : critical_hp_threshold <ℤ r.updated_state.vitals.hp
  order : r.events ≡ settled ∷ built
  stays : r.updated_state.position ≡ from

-- How the events of a settlement go on after the settled action, by its outcome. A forced retreat
-- is one step home from where the settled action reports the agent to be.
pub record IsOrdered (now : Time) (r : SettlementResult) : Type 0 where
  pub settled : DomainEvent
  pub from : Position
  pub built : List DomainEvent
  pub settled_type : settled.type ≡ "action_settled"
  pub reported_x : under "x" (under "state_after" (obj settled.payload)) ≡ int from.x
  pub reported_y : under "y" (under "state_after" (obj settled.payload)) ≡ int from.y
  pub built_types : All (IsBuilt now) built
  pub ending :
      Ended r settled built ⊎ Retreated r settled from built ⊎ Continued r settled from built

module _ (s : AgentStateAggregate) (i : ActionIntent) (dt : ℕ) (now : Time)
    (o : WorldSnapshot) where
  pub settle_work-IsBuilt : All (IsBuilt now) (settle_work s i dt now o).0.action_events
  unfolding settle_work settle_action drain drain_reasons change_hp
  settle_work-IsBuilt = act_keeps (IsBuilt-kept now) i.type i dt o _ (unfold change_hunger in tt)
