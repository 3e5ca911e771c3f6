-- ===== src/Survival/Effect.antt =====
-- internal/domain/survival/service_settlement.go: what an action costs and does, the `switch` of
-- `SettlementService.Settle`.
pub mod Preserve
use clawvival.Base.{
  ℕ, zero, suc, ℤ, pos, negsuc, ◌+ℤ◌, ◌-ℤ◌, ◌/◌, ◌%◌, leb_ℤ, ltb_ℤ, eqb_ℤ, neg, pos_part, ◌==◌,
  String, Bool, true, false, not, ◌||◌, Option, none, some, List, [], ◌∷◌, ◌++◌, str_eq,
  if◌then◌else◌,
}
use clawvival.Base.Text.{to_upper, trim_space}
use clawvival.Base.Dict.{Dict}
use clawvival.Survival.Value.{int, done, field}
use clawvival.Survival.Types.{
  Time, Position, ActionType, AgentStateAggregate, ItemAmount, ActionIntent, DomainEvent,
  WorldSnapshot,
}
use clawvival.Survival.Tuning
use clawvival.Survival.Tuning.{second}
use clawvival.Survival.State.{add_item, consume_item}
use clawvival.Survival.Rules.{BuildKind, kind_number, FoodId, BuiltObject}
use clawvival.Survival.Production.{apply_gather, craft, build_object, plant_seed, eat}
use clawvival.Survival.Drain.{scaled_int}
use clawvival.Survival.Payload.{
  Reason, append_reason, apply_reasoned_delta, apply_reasoned_hp_delta,
}

-- The local variables of `Settle`: `next`, the events of the action, and the reasons.
pub record Work : Type 0 where
  pub next : AgentStateAggregate
  pub action_events : List DomainEvent
  pub hp_reasons : List Reason
  pub hunger_reasons : List Reason
  pub energy_reasons : List Reason

-- `applyReasonedDelta(&next.Vitals.Hunger, delta, code, &hungerReasons)`
unfoldable pub change_hunger : ℤ → String → Work → Work
change_hunger delta code w =
    let (hunger, reasons) = apply_reasoned_delta w.next.vitals.hunger delta code w.hunger_reasons in
    record w {
      next = record (w.next) { vitals = record (w.next.vitals) { hunger = hunger } };
      hunger_reasons = reasons;
    }

unfoldable pub change_energy : ℤ → String → Work → Work
change_energy delta code w =
    let (energy, reasons) = apply_reasoned_delta w.next.vitals.energy delta code w.energy_reasons in
    record w {
      next = record (w.next) { vitals = record (w.next.vitals) { energy = energy } };
      energy_reasons = reasons;
    }

unfoldable pub change_hp : ℤ → String → Work → Work
change_hp delta code w =
    let (hp, reasons) = apply_reasoned_hp_delta w.next.vitals.hp delta code w.hp_reasons in
    record w {
      next = record (w.next) { vitals = record (w.next.vitals) { hp = hp } };
      hp_reasons = reasons;
    }

abbrev pub set_inventory : Dict ℤ → Work → Work
set_inventory m w = record w { next = record (w.next) { inventory = m } }

abbrev pub move_by : ℤ → ℤ → Work → Work
move_by dx dy w = record w {
  next = record (w.next) {
    position = record { x = w.next.position.x +ℤ dx; y = w.next.position.y +ℤ dy };
  };
}

-- `sleepRecoveryByQuality`: hunger, energy and health.
unfoldable pub sleep_recovery_by_quality : String → ℤ × ℤ × ℤ
sleep_recovery_by_quality quality =
    if str_eq (to_upper (trim_space quality)) "GOOD"
    then (
      Tuning.sleep_good_hunger_recovery, Tuning.sleep_good_energy_recovery,
      Tuning.sleep_good_hp_recovery,
    )
    else (
      Tuning.action_sleep_delta_hunger, Tuning.sleep_base_energy_recovery,
      Tuning.sleep_base_hp_recovery,
    )

unfoldable pub build_kind_from_intent : String → Option BuildKind
build_kind_from_intent t =
    if str_eq t "bed" || str_eq t "bed_rough" || str_eq t "bed_good"
    then some BuildKind.bed
    else if str_eq t "box"
    then some BuildKind.box
    else if str_eq t "farm_plot"
    then some BuildKind.farm
    else if str_eq t "torch"
    then some BuildKind.torch
    else if str_eq t "wall"
    then some BuildKind.wall
    else if str_eq t "door"
    then some BuildKind.door
    else if str_eq t "furnace"
    then some BuildKind.furnace
    else none

unfoldable pub food_id_from_intent : String → FoodId
food_id_from_intent t =
    if str_eq t "berry"
    then FoodId.berry
    else if str_eq t "bread"
    then FoodId.bread
    else if str_eq t "wheat"
    then FoodId.wheat
    else if str_eq t "jam"
    then FoodId.jam
    else FoodId.berry

-- `now.Unix() % 5 == 0`: the zero time is 62135596800 seconds, a multiple of five, before 1970.
unfoldable pub should_return_harvest_seed : Time → Bool
should_return_harvest_seed now = now / second % 5 == 0

abbrev pub clamp_step : ℤ → ℤ
clamp_step v = if ltb_ℤ (pos 0) v then pos 1 else if ltb_ℤ v (pos 0) then negsuc 0 else pos 0

-- `applyContainerTransfer`, by what the action does with an item.
unfoldable pub transfer : (String → ℤ → Dict ℤ → Dict ℤ) → List ItemAmount → Dict ℤ → Dict ℤ
transfer put [] m = m
transfer put (i ∷ is) m =
    transfer put is
      (if leb_ℤ i.count (pos 0) || str_eq i.item_type "" then m else put i.item_type i.count m)

abbrev pub take_item : String → ℤ → Dict ℤ → Dict ℤ
take_item k n m = (consume_item k n m).0

-- The loop of eating: at most `count` bites, up to the first that fails.
unfoldable pub eat_up_to : ℕ → FoodId → Dict ℤ → ℤ → Dict ℤ × ℤ
eat_up_to zero f m hunger = (m, hunger)
eat_up_to (suc n) f m hunger =
    let (m', hunger', eaten) = eat m hunger f in
    elim eaten [ true ↦ eat_up_to n f m' hunger' | false ↦ (m', hunger') ]

abbrev pub build_site : Option Position → Position → Position
build_site none here = here
build_site (some p) here = p

unfoldable pub build_completed : Time → BuiltObject → DomainEvent
build_completed now o = record {
  type = "build_completed";
  occurred_at = now;
  payload =
      field "kind" (int (kind_number o.kind))
        (field "x" (int o.x) (field "y" (int o.y) (field "hp" (int (pos 100)) done)));
}

abbrev pub report_build : Time → Option BuiltObject → Work → Work
report_build now none w = w
report_build now (some o) w = record w {
  action_events = w.action_events ++ build_completed now o ∷ [];
}

unfoldable pub build_for : ActionIntent → Time → Work → Work
unfolding build_completed
build_for intent now w = elim (build_kind_from_intent intent.object_type) [
  | none ↦ w
  | some _ ↦
      let site = build_site intent.pos w.next.position in
      let (m, built) = build_object w.next.inventory intent.object_type site.x site.y in
      report_build now built (set_inventory m w)
]

unfoldable pub harvest : Time → Dict ℤ → Dict ℤ
harvest now m =
    let threshed = add_item "wheat" (pos 2) m in
    if should_return_harvest_seed now then add_item "seed" (pos 1) threshed else threshed

abbrev pub bites : ℤ → ℕ
bites count = if leb_ℤ count (pos 0) then 1 else pos_part count

unfoldable pub eat_for : ActionIntent → Work → Work
eat_for intent w =
    let before = w.next.vitals.hunger in
    let (m, hunger) =
      eat_up_to (bites intent.count) (food_id_from_intent intent.item_type) w.next.inventory
        before in
    record w {
      next = record (w.next) { inventory = m; vitals = record (w.next.vitals) { hunger = hunger } };
      hunger_reasons = append_reason w.hunger_reasons "ACTION_EAT_RECOVERY" (hunger -ℤ before);
    }

abbrev pub at_least_one : ℤ → ℤ
at_least_one cost = if ltb_ℤ cost (pos 1) then pos 1 else cost

-- Energy first, then hunger, as most actions are charged.
unfoldable pub charge : ℕ → ℤ → ℤ → String → Work → Work
charge dt energy hunger code w =
    change_hunger (scaled_int hunger dt) code (change_energy (scaled_int energy dt) code w)

unfoldable pub sleep_for : ActionIntent → ℕ → Work → Work
sleep_for intent dt w =
    let (hunger, energy, hp) = sleep_recovery_by_quality intent.bed_quality in
    let code : String = "ACTION_SLEEP_RECOVERY" in
    change_hp (scaled_int hp dt) code
      (change_energy (scaled_int energy dt) code (change_hunger (scaled_int hunger dt) code w))

unfoldable pub retreat_for : ActionIntent → Work → Work
retreat_for intent w =
    if not (eqb_ℤ intent.dx (pos 0)) || not (eqb_ℤ intent.dy (pos 0))
    then move_by (clamp_step intent.dx) (clamp_step intent.dy) w
    else w

-- The `switch` over the type of the action; the last clause is a type that no case names.
unfoldable pub act : ActionType → ActionIntent → ℕ → Time → WorldSnapshot → Work → Work
act ActionType.gather intent dt now snapshot w =
    let w' =
      charge dt Tuning.action_gather_delta_energy Tuning.action_gather_delta_hunger
        "ACTION_GATHER_COST" w in
    set_inventory (apply_gather snapshot.nearby_resource w'.next.inventory) w'
act ActionType.rest intent dt now snapshot w =
    change_energy (scaled_int Tuning.action_rest_delta_energy dt) "ACTION_REST_RECOVERY"
      (change_hunger (scaled_int Tuning.action_rest_delta_hunger dt) "ACTION_REST_RECOVERY" w)
act ActionType.sleep intent dt now snapshot w = sleep_for intent dt w
act ActionType.move intent dt now snapshot w =
    let cost = at_least_one (scaled_int (neg Tuning.action_move_delta_energy) dt) in
    move_by intent.dx intent.dy (
      change_hunger (scaled_int Tuning.action_move_delta_hunger dt) "ACTION_MOVE_COST"
        (change_energy (neg cost) "ACTION_MOVE_COST" w))
act ActionType.build intent dt now snapshot w = build_for intent now (
    charge dt Tuning.action_build_delta_energy Tuning.action_build_delta_hunger "ACTION_BUILD_COST"
      w)
act ActionType.farm intent dt now snapshot w =
    let w' =
      charge dt Tuning.action_farm_plant_delta_energy Tuning.action_farm_plant_delta_hunger
        "ACTION_FARM_COST" w in
    set_inventory (plant_seed w'.next.inventory).0 w'
act ActionType.farm_plant intent dt now snapshot w =
    let w' =
      charge dt Tuning.action_farm_plant_delta_energy Tuning.action_farm_plant_delta_hunger
        "ACTION_FARM_COST" w in
    set_inventory (plant_seed w'.next.inventory).0 w'
act ActionType.farm_harvest intent dt now snapshot w =
    let w' =
      charge dt Tuning.action_farm_harvest_delta_energy Tuning.action_farm_harvest_delta_hunger
        "ACTION_FARM_HARVEST_COST" w in
    set_inventory (harvest now w'.next.inventory) w'
act ActionType.container_deposit intent dt now snapshot w =
    let w' =
      change_energy (scaled_int Tuning.action_container_deposit_delta_energy dt)
        "ACTION_CONTAINER_COST" w in
    set_inventory (transfer take_item intent.items w'.next.inventory) w'
act ActionType.container_withdraw intent dt now snapshot w =
    let w' =
      change_energy (scaled_int Tuning.action_container_deposit_delta_energy dt)
        "ACTION_CONTAINER_COST" w in
    set_inventory (transfer add_item intent.items w'.next.inventory) w'
act ActionType.retreat intent dt now snapshot w =
    retreat_for intent
      (change_energy (scaled_int Tuning.action_retreat_delta_energy dt) "ACTION_RETREAT_COST" w)
act ActionType.craft intent dt now snapshot w =
    let w' =
      charge dt Tuning.action_craft_delta_energy Tuning.action_craft_delta_hunger
        "ACTION_CRAFT_COST" w in
    set_inventory (craft w'.next.inventory intent.recipe_id).0 w'
act ActionType.eat intent dt now snapshot w = eat_for intent w
act ActionType.terminate intent dt now snapshot w = w
act (ActionType.other s) intent dt now snapshot w = w
