-- ===== src/Engine/Intent.antt =====
-- internal/app/action/engine_registry.go and engine_pipeline_steps.go: which requests are let
-- through, and in which form.
pub mod Ready
use clawvival.Base.{
  pos, negsuc, leb_ℤ, ltb_ℤ, String, str_eq, Bool, true, false, not, ◌&&◌, ◌||◌, Option, none, some,
  is_some, List, [], ◌∷◌, if◌then◌else◌,
}
use clawvival.Base.Text.{trim_space, to_upper, normal}
use clawvival.Survival.Types.{ActionType, ActionType_text, ItemAmount, ActionIntent}
use clawvival.Survival.Tuning.{min_rest_minutes, max_rest_minutes}
use clawvival.Survival.Rules.{BuildKind, FoodId}
use clawvival.Action.Move.{validate_move_action_params}
use clawvival.Ports.{Result, returned, raised, Error}
use clawvival.Engine.Context.{
  Request, ActionMode, ActionHandler, ActionSpec, ActionContext, zero_view, zero_plan,
  zero_response,
}
use Prim.Native.String.{◌++◌}

-- The action type with a text.
unfoldable pub ActionType_of : String → ActionType
ActionType_of s =
    if str_eq s "gather"
    then ActionType.gather
    else if str_eq s "rest"
    then ActionType.rest
    else if str_eq s "sleep"
    then ActionType.sleep
    else if str_eq s "move"
    then ActionType.move
    else if str_eq s "build"
    then ActionType.build
    else if str_eq s "farm"
    then ActionType.farm
    else if str_eq s "farm_plant"
    then ActionType.farm_plant
    else if str_eq s "farm_harvest"
    then ActionType.farm_harvest
    else if str_eq s "container_deposit"
    then ActionType.container_deposit
    else if str_eq s "container_withdraw"
    then ActionType.container_withdraw
    else if str_eq s "retreat"
    then ActionType.retreat
    else if str_eq s "craft"
    then ActionType.craft
    else if str_eq s "eat"
    then ActionType.eat
    else if str_eq s "terminate"
    then ActionType.terminate
    else ActionType.other s

abbrev spec_of : ActionType → ActionMode → Bool → ActionHandler → Option ActionSpec
spec_of type mode can_terminate handler =
    some (record { type = type; mode = mode; can_terminate = can_terminate; handler = handler })

abbrev settling : ActionType → ActionHandler → Option ActionSpec
settling type handler = spec_of type ActionMode.settle false handler

abbrev starting : ActionType → ActionHandler → Option ActionSpec
starting type handler = spec_of type ActionMode.start_ongoing true handler

-- `actionRegistry()[t]`
unfoldable pub action_registry : ActionType → Option ActionSpec
action_registry ActionType.gather = settling ActionType.gather ActionHandler.gather_handler
action_registry ActionType.rest = starting ActionType.rest ActionHandler.rest_handler
action_registry ActionType.sleep = starting ActionType.sleep ActionHandler.sleep_handler
action_registry ActionType.move = settling ActionType.move ActionHandler.move_handler
action_registry ActionType.build = settling ActionType.build ActionHandler.build_handler
action_registry ActionType.farm_plant =
    settling ActionType.farm_plant ActionHandler.farm_plant_handler
action_registry ActionType.farm_harvest =
    settling ActionType.farm_harvest ActionHandler.farm_harvest_handler
action_registry ActionType.container_deposit =
    settling ActionType.container_deposit ActionHandler.container_deposit_handler
action_registry ActionType.container_withdraw =
    settling ActionType.container_withdraw ActionHandler.container_withdraw_handler
action_registry ActionType.retreat = settling ActionType.retreat ActionHandler.retreat_handler
action_registry ActionType.craft = settling ActionType.craft ActionHandler.craft_handler
action_registry ActionType.eat = settling ActionType.eat ActionHandler.eat_handler
action_registry ActionType.terminate =
    spec_of ActionType.terminate ActionMode.finalize_only false ActionHandler.terminate_handler
action_registry _ = none

unfoldable pub supported_action_types : List ActionType
supported_action_types =
    ActionType.gather ∷ ActionType.rest ∷ ActionType.sleep ∷ ActionType.move ∷ ActionType.build
    ∷ ActionType.farm_plant ∷ ActionType.farm_harvest ∷ ActionType.container_deposit
    ∷ ActionType.container_withdraw ∷ ActionType.retreat ∷ ActionType.craft ∷ ActionType.eat
    ∷ ActionType.terminate ∷ []

-- Two action types are equal when their texts are.
abbrev pub same_type : ActionType → ActionType → Bool
same_type t u = str_eq (ActionType_text t) (ActionType_text u)

one_of : List ActionType → ActionType → Bool
one_of [] t = false
one_of (u ∷ us) t = same_type t u || one_of us t

unfoldable pub is_supported_action_type : ActionType → Bool
unfolding one_of supported_action_types
is_supported_action_type t = one_of supported_action_types t

abbrev has_text : String → Bool
has_text s = not (str_eq (trim_space s) "")

-- Each item has a name and a positive count, and there is an item.
unfoldable pub is_valid_item : ItemAmount → Bool
is_valid_item item = not (str_eq (trim_space item.item_type) "" || leb_ℤ item.count (pos 0))

unfoldable pub all_valid : List ItemAmount → Bool
unfolding is_valid_item
all_valid [] = true
all_valid (item ∷ items) = is_valid_item item && all_valid items

unfoldable pub has_valid_items : List ItemAmount → Bool
unfolding all_valid
has_valid_items [] = false
has_valid_items (item ∷ items) = all_valid (item ∷ items)

-- `buildKindFromObjectType`
unfoldable pub build_kind_from_object_type : String → Option BuildKind
build_kind_from_object_type object_type =
    let t = normal object_type in
    if str_eq t "bed" || str_eq t "bed_rough" || str_eq t "bed_good"
    then some BuildKind.bed
    else if str_eq t "box"
    then some BuildKind.box
    else if str_eq t "farm_plot"
    then some BuildKind.farm
    else if str_eq t "torch"
    then some BuildKind.torch
    else if str_eq t "wall"
    then some BuildKind.wall
    else if str_eq t "door"
    then some BuildKind.door
    else if str_eq t "furnace"
    then some BuildKind.furnace
    else none

-- `foodIDFromItemType`
unfoldable pub food_id_from_item_type : String → Option FoodId
food_id_from_item_type item_type =
    let t = normal item_type in
    if str_eq t "berry"
    then some FoodId.berry
    else if str_eq t "bread"
    then some FoodId.bread
    else if str_eq t "wheat"
    then some FoodId.wheat
    else if str_eq t "jam"
    then some FoodId.jam
    else none

unfoldable pub validate_rest_action_params : ActionIntent → Bool
validate_rest_action_params i =
    leb_ℤ min_rest_minutes i.rest_minutes && leb_ℤ i.rest_minutes max_rest_minutes

-- `hasValidActionParams`, with the validator of each action type.
unfoldable pub validator : ActionType → ActionIntent → Bool
unfolding validate_rest_action_params
validator ActionType.gather i = has_text i.target_id
validator ActionType.rest i = validate_rest_action_params i
validator ActionType.sleep i = has_text i.bed_id
validator ActionType.move i = validate_move_action_params i
validator ActionType.build i = is_some (build_kind_from_object_type i.object_type) && is_some i.pos
validator ActionType.farm_plant i = has_text i.farm_id
validator ActionType.farm_harvest i = has_text i.farm_id
validator ActionType.container_deposit i = has_text i.container_id && has_valid_items i.items
validator ActionType.container_withdraw i = has_text i.container_id && has_valid_items i.items
validator ActionType.craft i = ltb_ℤ (pos 0) i.recipe_id
validator ActionType.eat i = is_some (food_id_from_item_type i.item_type) && ltb_ℤ (pos 0) i.count
validator _ i = true

unfoldable pub has_valid_action_params : ActionIntent → Bool
unfolding validator
has_valid_action_params i = validator i.type i

-- The `switch` over the direction.
unfoldable pub steer : String → ActionIntent → ActionIntent
steer direction i =
    if str_eq direction "N"
    then record i { dx = pos 0; dy = pos 1 }
    else if str_eq direction "S"
    then record i { dx = pos 0; dy = negsuc 0 }
    else if str_eq direction "E"
    then record i { dx = pos 1; dy = pos 0 }
    else if str_eq direction "W"
    then record i { dx = negsuc 0; dy = pos 0 }
    else i

unfoldable pub normalize_intent : ActionIntent → ActionIntent
unfolding steer
normalize_intent i =
    let direction = to_upper (trim_space i.direction) in
    let steered = steer direction (record i { direction = direction }) in
    record steered { count = if leb_ℤ steered.count (pos 0) then pos 1 else steered.count }

unfoldable pub normalize_validated_intent : ActionIntent → ActionIntent
unfolding normalize_intent
normalize_validated_intent i =
    normalize_intent (record i { type = ActionType_of (trim_space (ActionType_text i.type)) })

unfoldable pub normalize_request : Request → Request
normalize_request req = record req {
  agent_id = trim_space req.agent_id;
  idempotency_key = trim_space req.idempotency_key;
  intent = normalize_validated_intent req.intent;
}

-- The context that a normal request begins with. The time is set by `Execute`.
unfoldable pub first_context : Request → ActionContext
first_context req = record {
  input = record {
    req = req;
    now_at = 0;
    agent_id = req.agent_id;
    idempotency_key = req.idempotency_key;
    session_id = "session-" ++ req.agent_id;
  };
  view = zero_view;
  plan = zero_plan;
  tmp = record { resolved_intent = req.intent; delta_minutes = pos 0; response = zero_response };
}

unfoldable pub validate_request : Request → Result ActionContext
unfolding normalize_request first_context
validate_request request =
    let req = normalize_request request in
    if str_eq req.agent_id ""
      || str_eq req.idempotency_key ""
      || not (is_supported_action_type req.intent.type)
    then raised Error.invalid_request
    else if not (has_valid_action_params req.intent)
    then raised Error.invalid_action_params
    else returned (first_context req)
