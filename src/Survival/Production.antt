-- ===== src/Survival/Production.antt =====
-- internal/domain/survival/production.go: gathering, crafting, building, farming and eating, on the
-- inventory that they change.
pub mod Stock
pub mod Exchange
pub mod Growth
use clawvival.Base.{
  ℕ, ℤ, pos, ◌+ℤ◌, ◌*ℤ◌, leb_ℤ, ltb_ℤ, eqb_ℤ, String, Bool, true, false, ◌||◌, ◌&&◌, Option, none,
  some, List, [], ◌∷◌, ◌++◌, map, str_eq, if◌then◌else◌,
}
use clawvival.Base.Text.{normal}
use clawvival.Base.Dict.{Dict, insert}
use clawvival.Base.Duration.{wrap}
use clawvival.Survival.Types.{Vitals, Position, AgentStateAggregate, WorldSnapshot}
use clawvival.Survival.Tuning.{default_farm_grow_minutes}
use clawvival.Survival.Rules.{
  BuildKind, FarmPlot, FoodId, recipe_defs, build_costs, build_defs_by_object_type, food_defs,
  BuiltObject, BuildDef, RecipeDef, FoodDef,
}
use clawvival.Survival.State.{count_of, add_item, consume_item}

unfoldable pub gather_multiplier : Dict ℤ → String → ℤ
gather_multiplier inventory item =
    if (str_eq item "wood" && ltb_ℤ (pos 0) (count_of "tool_axe" inventory))
      || (str_eq item "stone" && ltb_ℤ (pos 0) (count_of "tool_pickaxe" inventory))
    then pos 2
    else pos 1

-- The loop over the nearby resources; each round reads the inventory as it then stands. The
-- product and the sum wrap around as an `int` does.
unfoldable pub apply_gather : Dict ℤ → Dict ℤ → Dict ℤ
unfolding gather_multiplier
apply_gather [] inventory = inventory
apply_gather ((item, qty) ∷ nearby) inventory = apply_gather nearby (
    if leb_ℤ qty (pos 0)
    then inventory
    else insert item
        (wrap (count_of item inventory +ℤ wrap (qty *ℤ gather_multiplier inventory item)))
        inventory)

unfoldable pub has_enough : Dict ℤ → Dict ℤ → Bool
has_enough inventory [] = true
has_enough inventory ((item, qty) ∷ required) =
    if ltb_ℤ (count_of item inventory) qty then false else has_enough inventory required

unfoldable pub consume : Dict ℤ → Dict ℤ → Dict ℤ
consume inventory [] = inventory
consume inventory ((item, qty) ∷ required) = consume (consume_item item qty inventory).0 required

unfoldable pub produce : Dict ℤ → Dict ℤ → Dict ℤ
produce inventory [] = inventory
produce inventory ((item, qty) ∷ out) = produce (add_item item qty inventory) out

unfoldable pub craft : Dict ℤ → ℤ → Dict ℤ × Bool
craft inventory recipe_id = elim (recipe_defs recipe_id) [
  | none ↦ (inventory, false)
  | some recipe ↦
      if has_enough inventory recipe.inputs
      then (produce (consume inventory recipe.inputs) recipe.outputs, true)
      else (inventory, false)
]

unfoldable pub can_craft : Dict ℤ → ℤ → Bool
can_craft inventory recipe_id = elim (recipe_defs recipe_id) [
  | none ↦ false
  | some recipe ↦ has_enough inventory recipe.inputs
]

unfoldable pub craft_requirements : ℤ → List String
craft_requirements recipe_id = elim (recipe_defs recipe_id) [
  | none ↦ []
  | some recipe ↦ recipe.requirements
]

-- A failed build returns the zero `BuiltObject` and false: none here.
unfoldable pub build_object : Dict ℤ → String → ℤ → ℤ → Dict ℤ × Option BuiltObject
build_object inventory object_type x y = elim (build_defs_by_object_type (normal object_type)) [
  | none ↦ (inventory, none)
  | some d ↦
      if has_enough inventory d.cost
      then (consume inventory d.cost, some (record { kind = d.kind; x = x; y = y }))
      else (inventory, none)
]

abbrev pub kind_to_object_type : BuildKind → String
kind_to_object_type BuildKind.bed = "bed_rough"
kind_to_object_type BuildKind.box = "box"
kind_to_object_type BuildKind.farm = "farm_plot"
kind_to_object_type BuildKind.torch = "torch"
kind_to_object_type BuildKind.wall = "wall"
kind_to_object_type BuildKind.door = "door"
kind_to_object_type BuildKind.furnace = "furnace"
kind_to_object_type BuildKind.no_kind = ""

unfoldable pub build : Dict ℤ → BuildKind → ℤ → ℤ → Dict ℤ × Option BuiltObject
build inventory kind x y = build_object inventory (kind_to_object_type kind) x y

unfoldable pub can_build : Dict ℤ → BuildKind → Bool
can_build inventory kind = elim (build_costs kind) [
  | none ↦ false
  | some cost ↦ has_enough inventory cost
]

unfoldable pub can_build_object_type : Dict ℤ → String → Bool
can_build_object_type inventory object_type =
    elim (build_defs_by_object_type (normal object_type)) [
      | none ↦ false
      | some d ↦ has_enough inventory d.cost
    ]

unfoldable pub can_plant_seed : Dict ℤ → Bool
can_plant_seed inventory = ltb_ℤ (pos 0) (count_of "seed" inventory)

abbrev new_plot : FarmPlot
new_plot = record { growth_minutes = pos 0; ready = false }

unfoldable pub plant_seed : Dict ℤ → Dict ℤ × FarmPlot × Bool
plant_seed inventory =
    let (after, taken) = consume_item "seed" (pos 1) inventory in (after, new_plot, taken)

unfoldable pub tick_farm : FarmPlot → ℤ → FarmPlot
tick_farm plot dt_minutes =
    if plot.ready || leb_ℤ dt_minutes (pos 0)
    then plot
    else let grown = plot.growth_minutes +ℤ dt_minutes in
      record { growth_minutes = grown; ready = leb_ℤ default_farm_grow_minutes grown }

unfoldable pub harvest_farm : Dict ℤ → FarmPlot → Dict ℤ × FarmPlot × Bool
harvest_farm inventory plot =
    if plot.ready
    then (add_item "wheat" (pos 2) inventory, new_plot, true)
    else (inventory, plot, false)

unfoldable pub can_eat : Dict ℤ → FoodId → Bool
can_eat inventory food_id = elim (food_defs food_id) [
  | none ↦ false
  | some food ↦ ltb_ℤ (pos 0) (count_of food.item_name inventory)
]

-- The inventory and the hunger after a bite, and whether there was one.
unfoldable pub eat : Dict ℤ → ℤ → FoodId → Dict ℤ × ℤ × Bool
eat inventory hunger food_id = elim (food_defs food_id) [
  | none ↦ (inventory, hunger, false)
  | some food ↦
      let (after, taken) = consume_item food.item_name (pos 1) inventory in
      let fed = hunger +ℤ food.hunger_recover in
      if taken
      then (after, if ltb_ℤ (pos 100) fed then pos 100 else fed, true)
      else (inventory, hunger, false)
]
