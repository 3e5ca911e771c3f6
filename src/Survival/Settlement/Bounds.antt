-- ===== src/Survival/Settlement/Bounds.antt =====
-- internal/domain/survival/service_settlement.go: the bounds of the health over `Settle`.
use clawvival.Base.{
  ℕ, ℤ, pos, pos_part, neg, ◌+ℤ◌, ◌-ℤ◌, ◌≤ℤ◌, ◌≡◌, refl, String, some, arith, int_laws, List,
}
use clawvival.Survival.Types.{
  Time, Vitals, AgentStateAggregate, ActionIntent, HeartbeatDelta, WorldSnapshot, SettlementResult,
}
use clawvival.Survival.Tuning.{hp_drain_cap_per30}
use clawvival.Survival.State.{mark_dead}
use clawvival.Survival.Drain.{scaled_int}
use clawvival.Survival.Payload.{Reason, apply_reasoned_hp_delta}
use clawvival.Survival.Effect.{Work, change_hunger, change_energy, change_hp, eat_for}
use clawvival.Survival.Effect.Preserve.{Keeps, act_keeps}
use clawvival.Survival.Settlement.{
  start, settle_action, settle_work, settle_minutes, settle, hp_losses, drain, drain_reasons,
  conclude,
}
use clawvival.Survival.Settlement.Minutes.{settle-eq-some}
use clawvival.Survival.Settlement.Health.{hp_losses-IsCapped}

pub record HpWithin (lo : ℤ) (w : Work) : Type 0 where
  pub above : lo ≤ℤ w.next.vitals.hp
  pub below : w.next.vitals.hp ≤ℤ pos 100

module _ (lo : ℤ) where
  change_hunger-HpWithin :
      (d : ℤ) (code : String) (w : Work) → HpWithin lo w → HpWithin lo (change_hunger d code w)
  unfolding change_hunger
  change_hunger-HpWithin d code w x = ground (arith, x)

  change_hp-HpWithin :
      (d : ℤ) (code : String) (w : Work)
      → pos 0 ≤ℤ d
      → HpWithin lo w
      → HpWithin lo (change_hp d code w)
  unfolding change_hp apply_reasoned_hp_delta
  change_hp-HpWithin d code w p x = grind (int_laws, x)

  within : (now : Time) → Keeps now (HpWithin lo)
  unfolding change_energy eat_for
  within now = record {
    hunger = change_hunger-HpWithin;
    energy = λ d code w x. ground (arith, x);
    health = change_hp-HpWithin;
    bag = λ m w x. ground (arith, x);
    place = λ dx dy w x. ground (arith, x);
    built = λ b w x. ground (arith, x);
    fed = λ i w x. ground (arith, x);
  }

apply_loss :
    (t l : ℤ) (code : String) (rs : List Reason)
    → t ≤ℤ pos 100
    → pos 0 ≤ℤ l
    → (apply_reasoned_hp_delta t (neg l) code rs).0 ≡ t -ℤ l
unfolding apply_reasoned_hp_delta
apply_loss t l code rs h k = grind int_laws

sum_nonneg : (a b : ℤ) → pos 0 ≤ℤ a → pos 0 ≤ℤ b → pos 0 ≤ℤ a +ℤ b
sum_nonneg a b h k = omega int_laws

-- The drain takes exactly the loss from a health of at most 100.
drain_hp :
    (v : Vitals) (dt : ℕ) (w : Work)
    → w.next.vitals.hp ≤ℤ pos 100
    → let ls = hp_losses v dt in (drain ls w).next.vitals.hp ≡ w.next.vitals.hp -ℤ (ls.0 +ℤ ls.1)
unfolding drain drain_reasons change_hp
drain_hp v dt w b =
    let capped = hp_losses-IsCapped v dt in
    apply_loss _ _ _ _ b (sum_nonneg _ _ capped.first_nonneg capped.second_nonneg)

module _ (s : AgentStateAggregate) (i : ActionIntent) (dt : ℕ) (now : Time)
    (o : WorldSnapshot) where
  conclude-hp : (n : AgentStateAggregate) → (conclude s dt now o n).0.vitals.hp ≡ n.vitals.hp
  unfolding conclude mark_dead
  conclude-hp n = ground arith

  settle_action-HpWithin :
      s.vitals.hp ≤ℤ pos 100 → HpWithin s.vitals.hp (settle_action s i dt now o)
  unfolding settle_action
  settle_action-HpWithin h =
      act_keeps (within _ now) i.type i dt o _
        (change_hunger-HpWithin s.vitals.hp _ _ (start s now) (omega arith))

  settle_minutes-hp :
      s.vitals.hp ≤ℤ pos 100
      → let r = settle_minutes s i dt now o in
        (r.updated_state.vitals.hp ≤ℤ pos 100)
        × (s.vitals.hp ≤ℤ r.updated_state.vitals.hp +ℤ scaled_int hp_drain_cap_per30 dt)
  unfolding settle_minutes settle_work
  settle_minutes-hp h =
      let acted = settle_action s i dt now o in
      let drained = drain (hp_losses acted.next.vitals dt) acted in
      let within_act = settle_action-HpWithin h in
      let capped = hp_losses-IsCapped acted.next.vitals dt in
      rw (conclude-hp drained.next) (
        rw (drain_hp acted.next.vitals dt acted within_act.below)
          (omega (int_laws, within_act, capped)))

-- A settlement of a state with at most 100 health returns one with at most 100, and takes no more
-- health than the cap for the minutes.
pub settle_hp :
    (s : AgentStateAggregate) (i : ActionIntent) (d : HeartbeatDelta) (now : Time)
    (o : WorldSnapshot) {r : SettlementResult}
    → s.vitals.hp ≤ℤ pos 100
    → settle s i d now o ≡ some r
    → (r.updated_state.vitals.hp ≤ℤ pos 100)
      × (s.vitals.hp
          ≤ℤ r.updated_state.vitals.hp +ℤ scaled_int hp_drain_cap_per30 (pos_part d.minutes))
settle_hp s i d now o h e =
    rw (settle-eq-some s i d now o e) (settle_minutes-hp s i (pos_part d.minutes) now o h)

-- At the standard tick the cap is 8.
cap_at_tick : scaled_int hp_drain_cap_per30 30 ≡ pos 8
unfolding scaled_int
cap_at_tick = refl
