-- ===== src/Survival/Tables.antt =====
-- internal/domain/survival/production.go: the tables of recipes, costs and foods, as they are
-- published.
use clawvival.Base.{ℤ, String, Option, none, some, List, [], ◌∷◌}
use clawvival.Base.Dict.{Dict, insert}
use clawvival.Survival.Rules.{
  recipe_plank, recipe_bread, recipe_brick, recipe_jam, RecipeDef, recipe_defs, BuildDef,
  build_defs_by_object_type, FoodId, FoodDef, food_defs,
}

pub record ProductionRecipeRule : Type 0 where
  pub recipe_id : ℤ
  pub inputs : Dict ℤ
  pub outputs : Dict ℤ
  pub requirements : List String

rule_for : ℤ → Option RecipeDef → List ProductionRecipeRule → List ProductionRecipeRule
rule_for id none rest = rest
rule_for id (some def) rest =
    record {
      recipe_id = id;
      inputs = def.inputs;
      outputs = def.outputs;
      requirements = def.requirements;
    }
    ∷ rest

unfoldable pub rules_of : List ℤ → List ProductionRecipeRule
unfolding rule_for
rules_of [] = []
rules_of (id ∷ ids) = rule_for id (recipe_defs id) (rules_of ids)

unfoldable pub production_recipe_rules : List ProductionRecipeRule
unfolding rules_of
production_recipe_rules = rules_of (recipe_plank ∷ recipe_bread ∷ recipe_brick ∷ recipe_jam ∷ [])

cost_for : String → Option BuildDef → Dict (Dict ℤ) → Dict (Dict ℤ)
cost_for object_type none rest = rest
cost_for object_type (some def) rest = (object_type, def.cost) ∷ rest

unfoldable pub costs_of : List String → Dict (Dict ℤ)
unfolding cost_for
costs_of [] = []
costs_of (t ∷ ts) = cost_for t (build_defs_by_object_type t) (costs_of ts)

-- The keys of `buildDefsByObjectType`.
abbrev object_types : List String
object_types =
    "bed" ∷ "bed_rough" ∷ "bed_good" ∷ "box" ∷ "farm_plot" ∷ "torch" ∷ "wall" ∷ "door" ∷ "furnace"
    ∷ []

unfoldable pub build_cost_rules : Dict (Dict ℤ)
unfolding costs_of
build_cost_rules = costs_of object_types

food_for : Option FoodDef → Dict ℤ → Dict ℤ
food_for none out = out
food_for (some def) out = insert def.item_name def.hunger_recover out

unfoldable pub foods_of : List FoodId → Dict ℤ → Dict ℤ
unfolding food_for
foods_of [] out = out
foods_of (food ∷ foods) out = foods_of foods (food_for (food_defs food) out)

unfoldable pub food_recovery_rules : Dict ℤ
unfolding foods_of
food_recovery_rules = foods_of (FoodId.berry ∷ FoodId.bread ∷ FoodId.wheat ∷ FoodId.jam ∷ []) []
