-- ===== src/Survival/Costs/Charged.antt =====
-- internal/domain/survival/action_costs.go and service_settlement.go: the costs that are published, and
-- what a settlement charges.
use clawvival.Base.{
  ℤ, pos, ◌+ℤ◌, ◌-ℤ◌, neg, ◌≡◌, ◌≢◌, refl, ◌∙◌, String, true, Option, none, some, is_some, int_laws,
  Bool-cases, Option-cases, inl, inr, not, ◌||◌, eqb_ℤ,
}
use clawvival.Survival.Types.{
  Time, ActionType, AgentStateAggregate, ActionIntent, WorldSnapshot, SettlementResult,
}
use clawvival.Survival.Drain.{scaled_int}
use clawvival.Survival.Payload.{apply_reasoned_delta}
use clawvival.Survival.Effect.{
  Work, change_hunger, change_energy, change_hp, charge, act, retreat_for, build_for, report_build,
  build_kind_from_intent,
}
use clawvival.Survival.Rules.{BuiltObject}
use clawvival.Survival.Tuning.{base_hunger_drain_per30, standard_tick_minutes}
use clawvival.Survival.Settlement.{
  start, settle, settle_action, settle_work, settle_minutes, hp_losses, drain, drain_reasons,
}
use clawvival.Survival.Settlement.Minutes.{settle-eq-some}
use clawvival.Survival.Settlement.Report.{conclude-vitals}
use clawvival.Survival.Costs.{ActionCostProfile, default_action_cost_profiles}

-- The vitals have moved by these amounts.
abbrev Moved : ℤ → ℤ → Work → Work → Type 0
Moved hunger energy w w' =
    (w'.next.vitals.hunger ≡ w.next.vitals.hunger +ℤ hunger)
    × (w'.next.vitals.energy ≡ w.next.vitals.energy +ℤ energy)

add_zero : (a : ℤ) → a ≡ a +ℤ pos 0
add_zero a = grind int_laws

charge-Moved :
    (a b : ℤ) (code : String) (w : Work)
    → Moved (scaled_int b 30) (scaled_int a 30) w (charge 30 a b code w)
unfolding charge change_hunger change_energy apply_reasoned_delta
charge-Moved a b code w = (grind (int_laws), grind (int_laws))

energy-Moved : (a : ℤ) (code : String) (w : Work) → Moved (pos 0) a w (change_energy a code w)
unfolding change_energy apply_reasoned_delta
energy-Moved a code w = (grind (int_laws), grind (int_laws))

both-Moved :
    (a b : ℤ) (code code' : String) (w : Work)
    → Moved b a w (change_energy a code (change_hunger b code' w))
unfolding change_hunger change_energy apply_reasoned_delta
both-Moved a b code code' w = (grind (int_laws), grind (int_laws))

order-Moved :
    (a b : ℤ) (code code' : String) (w : Work)
    → Moved b a w (change_hunger b code (change_energy a code' w))
unfolding change_hunger change_energy apply_reasoned_delta
order-Moved a b code code' w = (grind (int_laws), grind (int_laws))

report_build-vitals :
    (now : Time) (b : Option BuiltObject) (w : Work)
    → (report_build now b w).next.vitals ≡ w.next.vitals
report_build-vitals now none w = refl
report_build-vitals now (some b) w = refl

build_for-vitals :
    (i : ActionIntent) (now : Time) (w : Work) → (build_for i now w).next.vitals ≡ w.next.vitals
unfolding build_for
build_for-vitals i now w = elim (Option-cases (build_kind_from_intent i.object_type)) [
  | inl unknown ↦ rw (unknown, build_for) refl
  | inr (kind, known) ↦ rw (known, build_for) (report_build-vitals now _ _)
]

retreat_for-vitals : (i : ActionIntent) (w : Work) → (retreat_for i w).next.vitals ≡ w.next.vitals
unfolding retreat_for
retreat_for-vitals i w = elim (Bool-cases (not (eqb_ℤ i.dx (pos 0)) || not (eqb_ℤ i.dy (pos 0)))) [
  | inl moves ↦ rw moves refl
  | inr stays ↦ rw stays refl
]

hunger_of : Option ActionCostProfile → ℤ
hunger_of none = pos 0
hunger_of (some p) = p.delta_hunger

energy_of : Option ActionCostProfile → ℤ
energy_of none = pos 0
energy_of (some p) = p.delta_energy

module _ (i : ActionIntent) (now : Time) (o : WorldSnapshot) (w : Work) where
  published :
      (t : ActionType)
      → t ≢ ActionType.eat
      → t ≢ ActionType.sleep
      → is_some (default_action_cost_profiles t) ≡ true
      → Moved
          (hunger_of (default_action_cost_profiles t))
          (energy_of (default_action_cost_profiles t))
          w
          (act t i 30 now o w)
  unfolding act scaled_int hunger_of energy_of ◌-ℤ◌
  published ActionType.gather e s h = charge-Moved _ _ _ w
  published ActionType.rest e s h = both-Moved _ _ _ _ w
  published ActionType.sleep e s h = absurd (s refl)
  published ActionType.move e s h = order-Moved _ _ _ _ w
  published ActionType.build e s h = rw (build_for-vitals i now _) (charge-Moved _ _ _ w)
  published ActionType.farm e s h = absurd (cc h)
  published ActionType.farm_plant e s h = charge-Moved _ _ _ w
  published ActionType.farm_harvest e s h = charge-Moved _ _ _ w
  published ActionType.container_deposit e s h = energy-Moved _ _ w
  published ActionType.container_withdraw e s h = energy-Moved _ _ w
  published ActionType.retreat e s h = rw (retreat_for-vitals i _) (energy-Moved _ _ w)
  published ActionType.craft e s h = charge-Moved _ _ _ w
  published ActionType.eat e s h = absurd (e refl)
  published ActionType.terminate e s h = (add_zero _, add_zero _)
  published (ActionType.other t) e s h = absurd (cc h)

baseline-vitals :
    (s : AgentStateAggregate) (now : Time)
    → (change_hunger
        (neg (scaled_int base_hunger_drain_per30 30))
        "BASE_HUNGER_DRAIN"
        (start s now)).next.vitals
      ≡ s.vitals
unfolding change_hunger scaled_int apply_reasoned_delta
baseline-vitals s now = refl

drain-needs :
    (ls : ℤ × ℤ) (w : Work)
    → ((drain ls w).next.vitals.hunger ≡ w.next.vitals.hunger)
      × ((drain ls w).next.vitals.energy ≡ w.next.vitals.energy)
unfolding drain drain_reasons change_hp
drain-needs ls w = (refl, refl)

module _ (s : AgentStateAggregate) (i : ActionIntent) (now : Time) (o : WorldSnapshot) where
  settle_action-Moved :
      i.type ≢ ActionType.eat
      → i.type ≢ ActionType.sleep
      → is_some (default_action_cost_profiles i.type) ≡ true
      → let w = settle_action s i 30 now o in
        (w.next.vitals.hunger ≡ s.vitals.hunger +ℤ hunger_of (default_action_cost_profiles i.type))
        × (w.next.vitals.energy
            ≡ s.vitals.energy +ℤ energy_of (default_action_cost_profiles i.type))
  unfolding settle_action change_hunger act apply_reasoned_delta scaled_int
  settle_action-Moved e z h = rw (baseline-vitals s now) at (
      published i now o
        (change_hunger (neg (scaled_int base_hunger_drain_per30 30)) "BASE_HUNGER_DRAIN"
          (start s now))
        i.type e z h)

  settled_charge :
      i.type ≢ ActionType.eat
      → i.type ≢ ActionType.sleep
      → is_some (default_action_cost_profiles i.type) ≡ true
      → let v = (settle_minutes s i 30 now o).updated_state.vitals in
        (v.hunger ≡ s.vitals.hunger +ℤ hunger_of (default_action_cost_profiles i.type))
        × (v.energy ≡ s.vitals.energy +ℤ energy_of (default_action_cost_profiles i.type))
  unfolding settle_minutes settle_work
  settled_charge e z h =
      let acted = settle_action s i 30 now o in
      let losses = hp_losses acted.next.vitals 30 in
      let (hunger, energy) = settle_action-Moved e z h in
      let (needs_hunger, needs_energy) = drain-needs losses acted in
      rw (conclude-vitals s 30 now o (drain losses acted).next)
        (needs_hunger ∙ hunger, needs_energy ∙ energy)

-- A settlement of the standard tick changes hunger and energy by exactly what is published for the
-- action, for every action that is published but eating and sleeping.
pub published_is_charged :
    (s : AgentStateAggregate) (i : ActionIntent) (now : Time) (o : WorldSnapshot)
    {r : SettlementResult} {p : ActionCostProfile}
    → settle s i (record { minutes = standard_tick_minutes }) now o ≡ some r
    → default_action_cost_profiles i.type ≡ some p
    → i.type ≢ ActionType.eat
    → i.type ≢ ActionType.sleep
    → (r.updated_state.vitals.hunger ≡ s.vitals.hunger +ℤ p.delta_hunger)
      × (r.updated_state.vitals.energy ≡ s.vitals.energy +ℤ p.delta_energy)
unfolding hunger_of energy_of
published_is_charged s i now o h k e z =
    rw (settle-eq-some s i (record { minutes = standard_tick_minutes }) now o h)
      (rw k at (settled_charge s i now o e z (rw k refl)))
