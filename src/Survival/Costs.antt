-- ===== src/Survival/Costs.antt =====
-- internal/domain/survival/action_costs.go: the costs of the actions at the standard tick, as the
-- program publishes them.
pub mod Charged
use clawvival.Base.{ℤ, pos, ◌-ℤ◌, String, Option, none, some, List, [], ◌∷◌}
use clawvival.Base.Dict.{Dict}
use clawvival.Survival.Types.{ActionType}
use clawvival.Survival.Tuning
use clawvival.Survival.Tuning.{base_hunger_drain_per30}

pub record ActionCostVariant : Type 0 where
  pub delta_hunger : ℤ
  pub delta_energy : ℤ
  pub delta_hp : ℤ

pub record ActionCostProfile : Type 0 where
  pub delta_hunger : ℤ
  pub delta_energy : ℤ
  pub delta_hp : ℤ
  pub requirements : List String
  pub variants : Dict ActionCostVariant

abbrev net_hunger : ℤ → ℤ
net_hunger delta = delta -ℤ base_hunger_drain_per30

abbrev variant : ℤ → ℤ → ℤ → ActionCostVariant
variant hunger energy hp = record {
  delta_hunger = net_hunger hunger;
  delta_energy = energy;
  delta_hp = hp;
}

abbrev profile : ℤ → ℤ → List String → Option ActionCostProfile
profile hunger energy requirements = some (record {
  delta_hunger = hunger;
  delta_energy = energy;
  delta_hp = pos 0;
  requirements = requirements;
  variants = [];
})

-- The variants of sleep by the quality of the bed.
abbrev sleep_profile : ActionCostProfile
sleep_profile = record {
  delta_hunger = net_hunger Tuning.action_sleep_delta_hunger;
  delta_energy = Tuning.action_sleep_delta_energy;
  delta_hp = Tuning.sleep_base_hp_recovery;
  requirements = "BED_ID" ∷ [];
  variants =
      (
        "bed_quality_rough",
        variant Tuning.action_sleep_delta_hunger Tuning.action_sleep_delta_energy
            Tuning.sleep_base_hp_recovery,
      )
      ∷ (
        "bed_quality_good",
        variant Tuning.sleep_good_hunger_recovery Tuning.sleep_good_energy_recovery
            Tuning.sleep_good_hp_recovery,
      )
      ∷ [];
}

-- `DefaultActionCostProfiles()[t]`
abbrev pub default_action_cost_profiles : ActionType → Option ActionCostProfile
default_action_cost_profiles ActionType.move =
    profile (net_hunger Tuning.action_move_delta_hunger) Tuning.action_move_delta_energy
      ("PASSABLE_TILE" ∷ [])
default_action_cost_profiles ActionType.gather =
    profile (net_hunger Tuning.action_gather_delta_hunger) Tuning.action_gather_delta_energy
      ("VISIBLE_TARGET" ∷ [])
default_action_cost_profiles ActionType.craft =
    profile (net_hunger Tuning.action_craft_delta_hunger) Tuning.action_craft_delta_energy
      ("RECIPE_INPUTS" ∷ [])
default_action_cost_profiles ActionType.build =
    profile (net_hunger Tuning.action_build_delta_hunger) Tuning.action_build_delta_energy
      ("BUILD_MATERIALS" ∷ "VALID_POS" ∷ [])
default_action_cost_profiles ActionType.eat =
    profile (net_hunger Tuning.action_eat_delta_hunger) Tuning.action_eat_delta_energy
      ("HAS_ITEM" ∷ [])
default_action_cost_profiles ActionType.rest =
    profile (net_hunger Tuning.action_rest_delta_hunger) Tuning.action_rest_delta_energy []
default_action_cost_profiles ActionType.sleep = some sleep_profile
default_action_cost_profiles ActionType.farm_plant =
    profile (net_hunger Tuning.action_farm_plant_delta_hunger) Tuning.action_farm_plant_delta_energy
      ("FARM_ID" ∷ "HAS_SEED" ∷ [])
default_action_cost_profiles ActionType.farm_harvest =
    profile (net_hunger Tuning.action_farm_harvest_delta_hunger)
      Tuning.action_farm_harvest_delta_energy ("FARM_ID" ∷ "FARM_READY" ∷ [])
default_action_cost_profiles ActionType.container_deposit =
    profile (net_hunger Tuning.action_container_deposit_delta_hunger)
      Tuning.action_container_deposit_delta_energy ("CONTAINER_ID" ∷ "HAS_ITEMS" ∷ [])
default_action_cost_profiles ActionType.container_withdraw =
    profile (net_hunger Tuning.action_container_withdraw_delta_hunger)
      Tuning.action_container_withdraw_delta_energy ("CONTAINER_ID" ∷ "CAPACITY_AVAILABLE" ∷ [])
default_action_cost_profiles ActionType.retreat =
    profile (net_hunger Tuning.action_retreat_delta_hunger) Tuning.action_retreat_delta_energy []
default_action_cost_profiles ActionType.terminate =
    profile Tuning.action_terminate_delta_hunger Tuning.action_terminate_delta_energy
      ("INTERRUPTIBLE_ONGOING_ACTION" ∷ [])
default_action_cost_profiles _ = none
