-- ===== src/Engine/Objects.antt =====
-- internal/app/action/action_object.go: the actions on beds, boxes and farms, checked before they
-- settle and carried out after.
pub mod Change
use clawvival.Base.{
  ℤ, pos, ◌+ℤ◌, ◌-ℤ◌, leb_ℤ, ltb_ℤ, eqb_ℤ, String, str_eq, Bool, true, false, not, ◌&&◌, ◌||◌,
  Option, none, some, List, [], ◌∷◌, if◌then◌else◌,
}
use clawvival.Base.Text.{trim_space, to_upper, normal}
use clawvival.Base.Dict.{Dict, insert}
use clawvival.Base.Duration.{wrap}
use clawvival.Survival.Types.{
  Time, Position, ActionType, AgentStateAggregate, ItemAmount, ActionIntent,
}
use clawvival.Survival.Tuning.{default_inventory_capacity, default_farm_grow_minutes}
use clawvival.Survival.Rules.{BuildKind, kind_number}
use clawvival.Survival.State.{count_of}
use clawvival.World.Provider.{unix}
use clawvival.Shared.Stateview.{used}
use clawvival.Ports.{Error, Result, returned, raised, WorldObjectRecord, WorldObjectRepository}
use clawvival.Ports.Monad.{Tx, writes, skip}
use clawvival.Engine.Context.{BoxObjectState, FarmObjectState, PreparedObjectAction, Formats}
use clawvival.Engine.Finalize.{add_minutes}

abbrev pub empty_box : BoxObjectState
empty_box = record { inventory = [] }

abbrev pub idle_farm : FarmObjectState
idle_farm = record { state = "IDLE"; planted_at_unix = pos 0; ready_at_unix = pos 0 }

abbrev pub zero_farm : FarmObjectState
zero_farm = record { state = ""; planted_at_unix = pos 0; ready_at_unix = pos 0 }

-- `none` is an error of the decoding.
unfoldable pub parse_box_object_state : Formats → String → Option BoxObjectState
parse_box_object_state formats raw =
    if str_eq (trim_space raw) "" then some empty_box else formats.decode_box raw

unfoldable pub or_idle : Option FarmObjectState → Option FarmObjectState
or_idle none = none
or_idle (some farm) =
    some (if str_eq (trim_space farm.state) "" then record farm { state = "IDLE" } else farm)

unfoldable pub parse_farm_object_state : Formats → String → Option FarmObjectState
unfolding or_idle
parse_farm_object_state formats raw =
    if str_eq (trim_space raw) ""
    then some idle_farm
    else or_idle (formats.decode_farm idle_farm raw)

is_object : String → BuildKind → WorldObjectRecord → Bool
is_object type kind obj = str_eq (normal obj.object_type) type || eqb_ℤ obj.kind (kind_number kind)

unfoldable pub is_box_object : WorldObjectRecord → Bool
unfolding is_object
is_box_object obj = is_object "box" BuildKind.box obj

unfoldable pub is_farm_object : WorldObjectRecord → Bool
unfolding is_object
is_farm_object obj = is_object "farm_plot" BuildKind.farm obj

unfoldable pub is_bed_object : WorldObjectRecord → Bool
unfolding is_object
is_bed_object obj = is_object "bed" BuildKind.bed obj

-- The object type, the quality, the slots and the state of an object that is built.
unfoldable pub build_object_defaults : String → String × String × ℤ × String
build_object_defaults intent_object_type =
    let t = normal intent_object_type in
    if str_eq t "box"
    then ("box", "", pos 60, "{\"inventory\":{}}")
    else if str_eq t "farm_plot"
    then ("farm_plot", "", pos 0, "{\"state\":\"IDLE\"}")
    else if str_eq t "bed_good"
    then ("bed", "GOOD", pos 0, "")
    else if str_eq t "bed_rough"
    then ("bed", "ROUGH", pos 0, "")
    else if str_eq t "bed"
    then ("bed", "ROUGH", pos 0, "")
    else (t, "", pos 0, "")

-- What is requested of each item, by its normal name.
unfoldable pub aggregate_from : Dict ℤ → List ItemAmount → Dict ℤ
aggregate_from out [] = out
aggregate_from out (item ∷ items) =
    let key = normal item.item_type in
    aggregate_from
      (if str_eq key "" || leb_ℤ item.count (pos 0)
        then out
        else insert key (wrap (count_of key out +ℤ item.count)) out)
      items

unfoldable pub aggregate_item_counts : List ItemAmount → Dict ℤ
unfolding aggregate_from
aggregate_item_counts items = aggregate_from [] items

-- `total += item.Count`, which wraps around as an `int` does; modulo 2 ^ 64 the order of the sum
-- does not matter.
unfoldable pub total_count : List ItemAmount → ℤ
total_count [] = pos 0
total_count (item ∷ items) = wrap (item.count +ℤ total_count items)

-- No item is short in the inventory that it is taken from.
unfoldable pub has_all : Dict ℤ → Dict ℤ → Bool
has_all inventory [] = true
has_all inventory ((item_type, need) ∷ requested) =
    not (ltb_ℤ (count_of item_type inventory) need) && has_all inventory requested

abbrev pub refused : {A : Type 0} → Result A
refused = raised Error.action_precondition_failed

abbrev pub prepared :
    WorldObjectRecord → BoxObjectState → FarmObjectState → Option PreparedObjectAction
prepared obj box farm = some (record { object = obj; box = box; farm = farm })

abbrev pub Prepared : Type 0
Prepared = Result (Option PreparedObjectAction)

-- An object that is not found is a failed precondition; other errors are passed on.
unfoldable pub with_object : Result WorldObjectRecord → (WorldObjectRecord → Prepared) → Prepared
with_object (returned obj) prepare = prepare obj
with_object (raised Error.not_found) prepare = refused
with_object (raised e) prepare = raised e

unfoldable pub prepare_bed : Position → WorldObjectRecord → Prepared
unfolding is_bed_object
prepare_bed here obj =
    if not (is_bed_object obj)
    then refused
    else if not (eqb_ℤ obj.x here.x) || not (eqb_ℤ obj.y here.y)
    then refused
    else returned (prepared obj empty_box zero_farm)

unfoldable pub deposit_checks :
    AgentStateAggregate → List ItemAmount → WorldObjectRecord → BoxObjectState → Prepared
deposit_checks state items obj box =
    if not (has_all state.inventory (aggregate_item_counts items))
    then refused
    else if ltb_ℤ (pos 0) obj.capacity_slots
        && ltb_ℤ obj.capacity_slots (wrap (obj.used_slots +ℤ total_count items))
    then raised Error.container_full
    else returned (prepared obj box zero_farm)

abbrev pub capacity_of : AgentStateAggregate → ℤ
capacity_of state =
    if leb_ℤ state.inventory_capacity (pos 0)
    then default_inventory_capacity
    else state.inventory_capacity

-- `inventoryUsed`, the sum of the positive counts, is that of the state view.
unfoldable pub withdraw_checks :
    AgentStateAggregate → List ItemAmount → WorldObjectRecord → BoxObjectState → Prepared
withdraw_checks state items obj box =
    if not (has_all box.inventory (aggregate_item_counts items))
    then refused
    else if ltb_ℤ (capacity_of state) (wrap (used state.inventory +ℤ total_count items))
    then raised Error.inventory_full
    else returned (prepared obj box zero_farm)

pub with_box : Option BoxObjectState → (BoxObjectState → Prepared) → Prepared
with_box none prepare = refused
with_box (some box) prepare = prepare box

unfoldable pub prepare_box :
    Formats → (WorldObjectRecord → BoxObjectState → Prepared) → WorldObjectRecord → Prepared
unfolding with_box is_box_object
prepare_box formats checks obj =
    if not (is_box_object obj)
    then refused
    else with_box (parse_box_object_state formats obj.object_state) (checks obj)

-- `strings.ToUpper(strings.TrimSpace(farm.State)) == state`
unfoldable pub in_state : String → FarmObjectState → Bool
in_state state farm = str_eq (to_upper (trim_space farm.state)) state

unfoldable pub is_ready : Time → FarmObjectState → Bool
unfolding in_state
is_ready now farm =
    in_state "READY" farm
    || (in_state "GROWING" farm
        && ltb_ℤ (pos 0) farm.ready_at_unix
        && leb_ℤ farm.ready_at_unix (unix now))

pub with_farm : Option FarmObjectState → (FarmObjectState → Bool) → WorldObjectRecord → Prepared
with_farm none test obj = refused
with_farm (some farm) test obj =
    if test farm then returned (prepared obj empty_box farm) else refused

unfoldable pub prepare_farm : Formats → (FarmObjectState → Bool) → WorldObjectRecord → Prepared
unfolding with_farm is_farm_object
prepare_farm formats test obj =
    if not (is_farm_object obj)
    then refused
    else with_farm (parse_farm_object_state formats obj.object_state) test obj

-- The action types that need an object.
unfoldable pub needs_object : ActionType → Bool
needs_object ActionType.sleep = true
needs_object ActionType.farm_plant = true
needs_object ActionType.farm_harvest = true
needs_object ActionType.container_deposit = true
needs_object ActionType.container_withdraw = true
needs_object _ = false

module _ {S : Type 0} (formats : Formats) (now : Time) (agent_id : String) where
  unfoldable pub prepare_with :
      AgentStateAggregate → ActionIntent → WorldObjectRepository S → ActionType → S → Prepared
  unfolding in_state is_ready prepare_bed
  prepare_with state i repo ActionType.sleep s =
      with_object (repo.get_by_object_id agent_id i.bed_id s) (prepare_bed state.position)
  prepare_with state i repo ActionType.container_deposit s =
      with_object (repo.get_by_object_id agent_id i.container_id s)
        (prepare_box formats (deposit_checks state i.items))
  prepare_with state i repo ActionType.container_withdraw s =
      with_object (repo.get_by_object_id agent_id i.container_id s)
        (prepare_box formats (withdraw_checks state i.items))
  prepare_with state i repo ActionType.farm_plant s =
      with_object (repo.get_by_object_id agent_id i.farm_id s)
        (prepare_farm formats (in_state "IDLE"))
  prepare_with state i repo ActionType.farm_harvest s =
      with_object (repo.get_by_object_id agent_id i.farm_id s) (prepare_farm formats (is_ready now))
  prepare_with state i repo _ s = returned none

  unfoldable pub prepare_object_action :
      Option (WorldObjectRepository S) → AgentStateAggregate → ActionIntent → S → Prepared
  prepare_object_action none state i s = if needs_object i.type then refused else returned none
  prepare_object_action (some repo) state i s = prepare_with state i repo i.type s
