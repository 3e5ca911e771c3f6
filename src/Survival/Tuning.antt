-- ===== src/Survival/Tuning.antt =====
-- internal/domain/survival/tuning.go: the constants of the game.
use clawvival.Base.{ℕ, ℤ, pos, negsuc, ◌*◌, Option, none, some, String, str_eq, ◌||◌, if◌then◌else◌}
use clawvival.Survival.Types.{ActionType}

abbrev pub standard_tick_minutes : ℤ
standard_tick_minutes = pos 30

abbrev pub base_hunger_drain_per30 : ℤ
base_hunger_drain_per30 = pos 0

abbrev pub hp_drain_cap_per30 : ℤ
hp_drain_cap_per30 = pos 8

-- The doubles nearest to 0.04 and 0.03, over 2 ^ 57 and 2 ^ 55.
abbrev pub hp_drain_from_hunger_coeff : ℕ
hp_drain_from_hunger_coeff = 5764607523034235

abbrev pub hp_drain_from_energy_coeff : ℕ
hp_drain_from_energy_coeff = 1080863910568919

abbrev pub min_rest_minutes : ℤ
min_rest_minutes = pos 1

abbrev pub max_rest_minutes : ℤ
max_rest_minutes = pos 120

abbrev pub default_farm_grow_minutes : ℤ
default_farm_grow_minutes = pos 60

abbrev pub default_inventory_capacity : ℤ
default_inventory_capacity = pos 30

abbrev pub critical_hp_threshold : ℤ
critical_hp_threshold = pos 15

abbrev pub low_energy_threshold : ℤ
low_energy_threshold = pos 20

-- A `time.Duration` is in nanoseconds.
abbrev pub second : ℕ
second = 1_000_000_000

abbrev pub minute : ℕ
minute = 60_000_000_000

abbrev pub seed_pity_max_fails : ℤ
seed_pity_max_fails = pos 8

abbrev pub action_night_vision_radius : ℤ
action_night_vision_radius = pos 3

abbrev pub default_respawn_minutes : ℕ
default_respawn_minutes = 60

abbrev pub sleep_base_energy_recovery : ℤ
sleep_base_energy_recovery = pos 35

abbrev pub sleep_base_hp_recovery : ℤ
sleep_base_hp_recovery = pos 6

abbrev pub sleep_good_hunger_recovery : ℤ
sleep_good_hunger_recovery = pos 20

abbrev pub sleep_good_energy_recovery : ℤ
sleep_good_energy_recovery = pos 45

abbrev pub sleep_good_hp_recovery : ℤ
sleep_good_hp_recovery = pos 10

abbrev pub action_move_delta_hunger : ℤ
action_move_delta_hunger = negsuc 0

abbrev pub action_move_delta_energy : ℤ
action_move_delta_energy = negsuc 1

abbrev pub action_gather_delta_hunger : ℤ
action_gather_delta_hunger = negsuc 1

abbrev pub action_gather_delta_energy : ℤ
action_gather_delta_energy = negsuc 5

abbrev pub action_craft_delta_hunger : ℤ
action_craft_delta_hunger = negsuc 0

abbrev pub action_craft_delta_energy : ℤ
action_craft_delta_energy = negsuc 3

abbrev pub action_build_delta_hunger : ℤ
action_build_delta_hunger = negsuc 0

abbrev pub action_build_delta_energy : ℤ
action_build_delta_energy = negsuc 5

abbrev pub action_eat_delta_hunger : ℤ
action_eat_delta_hunger = pos 10

abbrev pub action_eat_delta_energy : ℤ
action_eat_delta_energy = pos 0

abbrev pub food_berry_hunger_recovery : ℤ
food_berry_hunger_recovery = pos 20

abbrev pub food_bread_hunger_recovery : ℤ
food_bread_hunger_recovery = pos 30

abbrev pub food_wheat_hunger_recovery : ℤ
food_wheat_hunger_recovery = pos 15

abbrev pub food_jam_hunger_recovery : ℤ
food_jam_hunger_recovery = pos 80

abbrev pub action_rest_delta_hunger : ℤ
action_rest_delta_hunger = pos 3

abbrev pub action_rest_delta_energy : ℤ
action_rest_delta_energy = pos 20

abbrev pub action_sleep_delta_hunger : ℤ
action_sleep_delta_hunger = pos 15

abbrev pub action_sleep_delta_energy : ℤ
action_sleep_delta_energy = sleep_base_energy_recovery

abbrev pub action_farm_plant_delta_hunger : ℤ
action_farm_plant_delta_hunger = negsuc 0

abbrev pub action_farm_plant_delta_energy : ℤ
action_farm_plant_delta_energy = negsuc 3

abbrev pub action_farm_harvest_delta_hunger : ℤ
action_farm_harvest_delta_hunger = negsuc 0

abbrev pub action_farm_harvest_delta_energy : ℤ
action_farm_harvest_delta_energy = negsuc 3

abbrev pub action_container_deposit_delta_hunger : ℤ
action_container_deposit_delta_hunger = pos 0

abbrev pub action_container_deposit_delta_energy : ℤ
action_container_deposit_delta_energy = pos 0

abbrev pub action_container_withdraw_delta_hunger : ℤ
action_container_withdraw_delta_hunger = pos 0

abbrev pub action_container_withdraw_delta_energy : ℤ
action_container_withdraw_delta_energy = pos 0

abbrev pub action_retreat_delta_hunger : ℤ
action_retreat_delta_hunger = pos 0

abbrev pub action_retreat_delta_energy : ℤ
action_retreat_delta_energy = negsuc 1

abbrev pub action_terminate_delta_hunger : ℤ
action_terminate_delta_hunger = pos 0

abbrev pub action_terminate_delta_energy : ℤ
action_terminate_delta_energy = pos 0

-- `ActionCooldownDurations[t]`
abbrev pub action_cooldown_durations : ActionType → Option ℕ
action_cooldown_durations ActionType.build = some (5 * minute)
action_cooldown_durations ActionType.craft = some (5 * minute)
action_cooldown_durations ActionType.farm_plant = some (3 * minute)
action_cooldown_durations ActionType.move = some (1 * minute)
action_cooldown_durations ActionType.sleep = some (5 * minute)
action_cooldown_durations _ = none

-- `ResourceRespawnDurations[r]`
unfoldable pub resource_respawn_durations : String → Option ℕ
resource_respawn_durations r =
    if str_eq r "wood" || str_eq r "stone"
    then some (60 * minute)
    else if str_eq r "berry" || str_eq r "seed"
    then some (30 * minute)
    else none
