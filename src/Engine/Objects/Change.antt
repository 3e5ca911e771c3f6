-- ===== src/Engine/Objects/Change.antt =====
-- internal/app/action/action_object.go: what an action makes of its box or its farm.
pub mod Returned
pub mod Checked
pub mod Boxes
pub mod Farms
use clawvival.Base.{
  ℤ, pos, ◌+ℤ◌, ◌-ℤ◌, leb_ℤ, ltb_ℤ, eqb_ℤ, String, str_eq, Bool, true, false, not, ◌&&◌, ◌||◌,
  Option, none, some, List, [], ◌∷◌, if◌then◌else◌,
}
use clawvival.Base.Text.{trim_space, to_upper, normal}
use clawvival.Base.Dict.{Dict, insert}
use clawvival.Base.Duration.{wrap}
use clawvival.Survival.Types.{
  Time, Position, ActionType, AgentStateAggregate, ItemAmount, ActionIntent,
}
use clawvival.Survival.Tuning.{default_inventory_capacity, default_farm_grow_minutes}
use clawvival.Survival.Rules.{BuildKind, kind_number}
use clawvival.Survival.State.{count_of}
use clawvival.World.Provider.{unix}
use clawvival.Shared.Stateview.{used}
use clawvival.Ports.{Error, Result, returned, raised, WorldObjectRecord, WorldObjectRepository}
use clawvival.Ports.Monad.{Tx, writes, skip}
use clawvival.Engine.Context.{BoxObjectState, FarmObjectState, PreparedObjectAction, Formats}
use clawvival.Engine.Finalize.{add_minutes}
use clawvival.Engine.Objects.{idle_farm, total_count}

-- `delete(m, k)`
unfoldable pub delete : String → Dict ℤ → Dict ℤ
delete key [] = []
delete key ((name, n) ∷ rest) =
    if str_eq name key then delete key rest else (name, n) ∷ delete key rest

-- `+=` and `-=` on the counts of the box and on its slots wrap around as an `int` does.
unfoldable pub put_in : List ItemAmount → Dict ℤ → Dict ℤ
put_in [] box = box
put_in (item ∷ items) box =
    put_in items (insert item.item_type (wrap (count_of item.item_type box +ℤ item.count)) box)

-- One item is taken out, and an entry that is used up goes.
unfoldable pub take_one : ItemAmount → Dict ℤ → Dict ℤ
take_one item box =
    let left = wrap (count_of item.item_type box -ℤ item.count) in
    let taken = insert item.item_type left box in
    if leb_ℤ left (pos 0) then delete item.item_type taken else taken

unfoldable pub take_out : List ItemAmount → Dict ℤ → Dict ℤ
unfolding take_one
take_out [] box = box
take_out (item ∷ items) box = take_out items (take_one item box)

-- The object of a prepared action, after the action.
unfoldable pub deposited : Formats → List ItemAmount → PreparedObjectAction → WorldObjectRecord
deposited formats items p = record (p.object) {
  used_slots = wrap (p.object.used_slots +ℤ total_count items);
  object_state = formats.encode_box (record { inventory = put_in items p.box.inventory });
}

unfoldable pub withdrawn : Formats → List ItemAmount → PreparedObjectAction → WorldObjectRecord
withdrawn formats items p =
    let left = wrap (p.object.used_slots -ℤ total_count items) in
    record (p.object) {
      used_slots = if ltb_ℤ left (pos 0) then pos 0 else left;
      object_state = formats.encode_box (record { inventory = take_out items p.box.inventory });
    }

unfoldable pub planted : Formats → Time → PreparedObjectAction → WorldObjectRecord
planted formats now p = record (p.object) {
  object_state = formats.encode_farm (record {
    state = "GROWING";
    planted_at_unix = unix now;
    ready_at_unix = unix (add_minutes now default_farm_grow_minutes);
  });
}

unfoldable pub harvested : Formats → PreparedObjectAction → WorldObjectRecord
harvested formats p = record (p.object) { object_state = formats.encode_farm idle_farm }

-- The object after an action of a type, where the type changes one.
unfoldable pub changed_object :
    Formats → Time → ActionIntent → PreparedObjectAction → ActionType → Option WorldObjectRecord
unfolding deposited withdrawn planted harvested
changed_object formats now i p ActionType.container_deposit = some (deposited formats i.items p)
changed_object formats now i p ActionType.container_withdraw = some (withdrawn formats i.items p)
changed_object formats now i p ActionType.farm_plant = some (planted formats now p)
changed_object formats now i p ActionType.farm_harvest = some (harvested formats p)
changed_object formats now i p _ = none

module _ {S : Type 0} (formats : Formats) (now : Time) (agent_id : String) where
  unfoldable pub update_changed :
      WorldObjectRepository S → Option WorldObjectRecord → Tx S (Unit {0})
  update_changed repo none = skip
  update_changed repo (some obj) = writes (repo.update_object agent_id obj)

  unfoldable pub persist_object_action :
      Option (WorldObjectRepository S)
      → ActionIntent
      → Option PreparedObjectAction
      → Tx S (Unit {0})
  unfolding update_changed
  persist_object_action none i p = skip
  persist_object_action (some repo) i none = skip
  persist_object_action (some repo) i (some p) =
      update_changed repo (changed_object formats now i p i.type)
