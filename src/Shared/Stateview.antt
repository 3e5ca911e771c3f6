-- ===== src/Shared/Stateview.antt =====
-- internal/app/shared/stateview: the fields of a state that are derived from the others, and the
-- estimate of the health that an agent is about to lose. The helpers of the estimate are copies of
-- those of the settlement, and are those of `Drain` here.
pub mod Laws
use clawvival.Base.{
  ℕ, ℤ, pos, ◌+ℤ◌, leb_ℤ, ltb_ℤ, eqb_ℤ, pos_part, String, str_eq, Bool, not, ◌&&◌, List, [], ◌∷◌,
  ◌++◌, if◌then◌else◌,
}
use clawvival.Base.Dict.{Dict}
use clawvival.Base.Duration.{wrap}
use clawvival.Survival.Types.{Vitals, Position, AgentStateAggregate}
use clawvival.Survival.Tuning.{
  standard_tick_minutes, hp_drain_cap_per30, default_inventory_capacity, low_energy_threshold,
  critical_hp_threshold,
}
use clawvival.Survival.Drain.{
  scaled_int, hunger_loss_potential, energy_loss_potential, apply_dual_cap,
}
use clawvival.World.Types.{Tile, Zone_text}

unfoldable pub current_zone_at_position : Position → List Tile → String
current_zone_at_position p [] = ""
current_zone_at_position p (t ∷ ts) =
    if eqb_ℤ t.x p.x && eqb_ℤ t.y p.y then Zone_text t.zone else current_zone_at_position p ts

-- The sum of the positive counts, which wraps around as an `int` does.
unfoldable pub used : Dict ℤ → ℤ
used [] = pos 0
used ((k, n) ∷ m) = wrap ((if ltb_ℤ (pos 0) n then n else pos 0) +ℤ used m)

unfoldable pub compute_inventory_used : AgentStateAggregate → ℤ
unfolding used
compute_inventory_used s = used s.inventory

abbrev when : Bool → String → List String
when b e = if b then e ∷ [] else []

unfoldable pub derive_status_effects : AgentStateAggregate → String → Bool → List String
derive_status_effects s time_of_day lit =
    when (leb_ℤ s.vitals.hunger (pos 0)) "STARVING"
    ++ when (leb_ℤ s.vitals.energy low_energy_threshold) "EXHAUSTED"
    ++ when (leb_ℤ s.vitals.hp critical_hp_threshold) "CRITICAL"
    ++ when (str_eq time_of_day "night" && not lit) "IN_DARK"

unfoldable pub enrich : AgentStateAggregate → String → Bool → AgentStateAggregate
enrich s time_of_day lit = record s {
  inventory_capacity =
      if leb_ℤ s.inventory_capacity (pos 0)
      then default_inventory_capacity
      else s.inventory_capacity;
  inventory_used = compute_inventory_used s;
  status_effects = derive_status_effects s time_of_day lit;
}

pub record HpDrainEstimate : Type 0 where
  pub is_losing_hp : Bool
  pub estimated_loss : ℤ
  pub hunger_component : ℤ
  pub energy_component : ℤ
  pub cap : ℤ
  pub causes : List String

unfoldable pub estimate_of : ℤ × ℤ → ℤ → HpDrainEstimate
estimate_of (hunger_applied, energy_applied) cap = record {
  is_losing_hp = ltb_ℤ (pos 0) (hunger_applied +ℤ energy_applied);
  estimated_loss = hunger_applied +ℤ energy_applied;
  hunger_component = hunger_applied;
  energy_component = energy_applied;
  cap = cap;
  causes =
      when (ltb_ℤ (pos 0) hunger_applied) "STARVING_HP_DRAIN"
      ++ when (ltb_ℤ (pos 0) energy_applied) "EXHAUSTED_HP_DRAIN";
}

abbrev at_least_zero : ℤ → ℤ
at_least_zero n = if ltb_ℤ n (pos 0) then pos 0 else n

unfoldable pub estimate_hp_drain : Vitals → ℤ → HpDrainEstimate
unfolding estimate_of
estimate_hp_drain v minutes =
    let dt = if leb_ℤ minutes (pos 0) then pos_part standard_tick_minutes else pos_part minutes in
    let cap = at_least_zero (scaled_int hp_drain_cap_per30 dt) in
    estimate_of
      (apply_dual_cap (hunger_loss_potential v.hunger dt) (energy_loss_potential v.energy dt) cap)
      cap
