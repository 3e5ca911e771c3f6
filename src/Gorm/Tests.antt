-- ===== src/Gorm/Tests.antt =====
-- The theorems on the tables, on a database with room for one agent.
use clawvival.Base.{◌≡◌, ◌≢◌, refl, arith, ℤ, pos, str_eq, none, some, [], ◌∷◌, if◌then◌else◌}
use clawvival.Base.Dict.{Dict}
use clawvival.Survival.Types.{ActionType, AgentStateAggregate, OngoingActionInfo}
use clawvival.Survival.Samples.{starving}
use clawvival.Survival.Effect.{sleep_recovery_by_quality}
use clawvival.Ports.{Result, returned, raised}
use clawvival.Engine.Finalize.{ongoing_intent}
use clawvival.Gorm.Rows.{int32}
use clawvival.Gorm.States.{
  InventoryJson, get_state, save_with_version, resolve_inventory_capacity, resolve_inventory_used,
}
use clawvival.Gorm.Locking.{save-save}
use clawvival.Gorm.Loading.{Fits, ReadsInventory, IsLoaded}
use clawvival.Gorm.Saving.{save-get}
use clawvival.Gorm.Sleeping.{get-sleep_recovery}
use clawvival.Gorm.Samples.{Database, states, states-IsTable, states-Holds}

abbrev three_wood : Dict ℤ
three_wood = ("wood", pos 3) ∷ []

-- A text that stands for the JSON of three pieces of wood.
abbrev wood_json : InventoryJson
wood_json = record {
  marshal = λ inv. "wood";
  unmarshal = λ raw. if str_eq raw "{}" then [] else three_wood;
}

reads_wood : ReadsInventory wood_json three_wood
reads_wood = record { empty = refl; written = λ h. absurd (cc h); again = λ key. refl }

abbrev a_sleep : OngoingActionInfo
a_sleep = record {
  type = ActionType.sleep;
  minutes = pos 60;
  end_at = 9000;
  bed_id = "obj-bed";
  quality = "GOOD";
}

abbrev sleeper : AgentStateAggregate
sleeper = record starving {
  agent_id = "agent";
  inventory = three_wood;
  ongoing_action = some a_sleep;
  version = pos 1;
}

abbrev woken : AgentStateAggregate
woken = record sleeper { ongoing_action = none; version = pos 2 }

abbrev empty_tables : Database
empty_tables = record { state = none; credential = none }

abbrev store_in : Result Database → Database
store_in (raised e) = empty_tables
store_in (returned s) = s

abbrev asleep : Database
asleep = store_in (save_with_version states wood_json sleeper (pos 0) empty_tables)

abbrev awake : Database
awake = store_in (save_with_version states wood_json woken (pos 1) asleep)

saves : save_with_version states wood_json woken (pos 1) asleep ≡ returned awake
unfolding save_with_version
saves = refl

fits : Fits woken
unfolding resolve_inventory_capacity resolve_inventory_used
fits = record {
  hp = record { low = omega arith; high = omega arith };
  hunger = record { low = omega arith; high = omega arith };
  energy = record { low = omega arith; high = omega arith };
  x = record { low = omega arith; high = omega arith };
  y = record { low = omega arith; high = omega arith };
  capacity = record { low = omega arith; high = omega arith };
  used = record { low = omega arith; high = omega arith };
}

save-save_example : save_with_version states wood_json sleeper (pos 1) awake ≢ returned empty_tables
save-save_example =
    save-save states wood_json woken sleeper (pos 1) asleep awake empty_tables states-IsTable
      states-Holds (λ h. absurd (cc h)) (λ h. absurd (cc h)) (λ h. absurd (cc h)) refl saves

save-get_example :
    (got : AgentStateAggregate) × (get_state states wood_json "agent" awake ≡ returned got)
    × IsLoaded woken got
save-get_example =
    save-get states wood_json woken (pos 1) asleep awake states-IsTable states-Holds reads_wood
      (λ h. absurd (cc h)) fits saves

abbrev state_in : Result AgentStateAggregate → AgentStateAggregate
state_in (raised e) = sleeper
state_in (returned state) = state

abbrev loaded : AgentStateAggregate
loaded = state_in (get_state states wood_json "agent" asleep)

abbrev sleep_loaded : OngoingActionInfo
sleep_loaded = record a_sleep { bed_id = ""; quality = "" }

loads : get_state states wood_json "agent" asleep ≡ returned loaded
unfolding get_state save_with_version
loads = refl

sleeps : loaded.ongoing_action ≡ some sleep_loaded
unfolding get_state save_with_version int32
sleeps = refl

get-sleep_recovery_example :
    ((ongoing_intent sleep_loaded).bed_quality ≡ "")
    × (sleep_recovery_by_quality (ongoing_intent sleep_loaded).bed_quality
        ≡ sleep_recovery_by_quality "ROUGH")
get-sleep_recovery_example = get-sleep_recovery states wood_json "agent" asleep loads sleeps
