-- ===== src/Survival/Rules.antt =====
-- internal/domain/survival/production.go, its tables: recipes, building costs and foods.
use clawvival.Base.{
  ℤ, pos, eqb_ℤ, String, Bool, Option, none, some, List, [], ◌∷◌, str_eq, if◌then◌else◌,
}
use clawvival.Base.Dict.{Dict}
use clawvival.Survival.Tuning.{
  food_berry_hunger_recovery, food_bread_hunger_recovery, food_wheat_hunger_recovery,
  food_jam_hunger_recovery,
}

abbrev pub recipe_plank : ℤ
recipe_plank = pos 1

abbrev pub recipe_bread : ℤ
recipe_bread = pos 2

abbrev pub recipe_brick : ℤ
recipe_brick = pos 3

abbrev pub recipe_jam : ℤ
recipe_jam = pos 4

-- `BuildKind`, with the number of each kind; the zero of a failed lookup is `no_kind`.
pub data BuildKind : Type 0 where
  no_kind bed box farm torch wall door furnace : BuildKind

abbrev pub kind_number : BuildKind → ℤ
kind_number BuildKind.no_kind = pos 0
kind_number BuildKind.bed = pos 1
kind_number BuildKind.box = pos 2
kind_number BuildKind.farm = pos 3
kind_number BuildKind.torch = pos 4
kind_number BuildKind.wall = pos 5
kind_number BuildKind.door = pos 6
kind_number BuildKind.furnace = pos 7

pub record FarmPlot : Type 0 where
  pub growth_minutes : ℤ
  pub ready : Bool

-- `FoodID`; the zero of a failed lookup is `no_food`.
pub data FoodId : Type 0 where
  no_food berry bread wheat jam : FoodId

pub record RecipeDef : Type 0 where
  pub inputs : Dict ℤ
  pub outputs : Dict ℤ
  pub requirements : List String

abbrev pub plank_def : RecipeDef
plank_def = record {
  inputs = ("wood", pos 2) ∷ [];
  outputs = ("plank", pos 1) ∷ [];
  requirements = [];
}

abbrev bread_def : RecipeDef
bread_def = record {
  inputs = ("wheat", pos 2) ∷ [];
  outputs = ("bread", pos 1) ∷ [];
  requirements = [];
}

abbrev brick_def : RecipeDef
brick_def = record {
  inputs = ("stone", pos 2) ∷ [];
  outputs = ("brick", pos 1) ∷ [];
  requirements = "FURNACE" ∷ [];
}

abbrev jam_def : RecipeDef
jam_def = record {
  inputs = ("berry", pos 2) ∷ ("bread", pos 1) ∷ [];
  outputs = ("jam", pos 1) ∷ [];
  requirements = "FURNACE" ∷ [];
}

-- `recipeDefs[id]`
unfoldable pub recipe_defs : ℤ → Option RecipeDef
recipe_defs id =
    if eqb_ℤ id recipe_plank
    then some plank_def
    else if eqb_ℤ id recipe_bread
    then some bread_def
    else if eqb_ℤ id recipe_brick
    then some brick_def
    else if eqb_ℤ id recipe_jam
    then some jam_def
    else none

-- `buildCosts[kind]`
abbrev pub build_costs : BuildKind → Option (Dict ℤ)
build_costs BuildKind.no_kind = none
build_costs BuildKind.bed = some (("wood", pos 8) ∷ [])
build_costs BuildKind.box = some (("wood", pos 4) ∷ [])
build_costs BuildKind.farm = some (("wood", pos 2) ∷ ("stone", pos 2) ∷ [])
build_costs BuildKind.torch = some (("wood", pos 1) ∷ [])
build_costs BuildKind.wall = some (("stone", pos 3) ∷ [])
build_costs BuildKind.door = some (("wood", pos 2) ∷ [])
build_costs BuildKind.furnace = some (("stone", pos 6) ∷ [])

pub record BuildDef : Type 0 where
  pub kind : BuildKind
  pub cost : Dict ℤ

abbrev build_def : BuildKind → Dict ℤ → Option BuildDef
build_def k c = some (record { kind = k; cost = c })

-- `buildDefsByObjectType[t]`
unfoldable pub build_defs_by_object_type : String → Option BuildDef
build_defs_by_object_type t =
    if str_eq t "bed"
    then build_def BuildKind.bed (("wood", pos 8) ∷ [])
    else if str_eq t "bed_rough"
    then build_def BuildKind.bed (("wood", pos 8) ∷ [])
    else if str_eq t "bed_good"
    then build_def BuildKind.bed (("plank", pos 4) ∷ ("wood", pos 2) ∷ [])
    else if str_eq t "box"
    then build_def BuildKind.box (("wood", pos 4) ∷ [])
    else if str_eq t "farm_plot"
    then build_def BuildKind.farm (("wood", pos 2) ∷ ("stone", pos 2) ∷ [])
    else if str_eq t "torch"
    then build_def BuildKind.torch (("wood", pos 1) ∷ [])
    else if str_eq t "wall"
    then build_def BuildKind.wall (("stone", pos 3) ∷ [])
    else if str_eq t "door"
    then build_def BuildKind.door (("wood", pos 2) ∷ [])
    else if str_eq t "furnace"
    then build_def BuildKind.furnace (("stone", pos 6) ∷ [])
    else none

pub record FoodDef : Type 0 where
  pub item_name : String
  pub hunger_recover : ℤ

-- `foodDefs[id]`
abbrev pub food_defs : FoodId → Option FoodDef
food_defs FoodId.no_food = none
food_defs FoodId.berry =
    some (record { item_name = "berry"; hunger_recover = food_berry_hunger_recovery })
food_defs FoodId.bread =
    some (record { item_name = "bread"; hunger_recover = food_bread_hunger_recovery })
food_defs FoodId.wheat =
    some (record { item_name = "wheat"; hunger_recover = food_wheat_hunger_recovery })
food_defs FoodId.jam =
    some (record { item_name = "jam"; hunger_recover = food_jam_hunger_recovery })

pub record BuiltObject : Type 0 where
  pub kind : BuildKind
  pub x : ℤ
  pub y : ℤ
