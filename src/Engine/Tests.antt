-- ===== src/Engine/Tests.antt =====
-- The theorems on the engine, at inputs that meet their hypotheses.
use clawvival.Base.{
  pos, ◌+ℤ◌, ◌-ℤ◌, ◌*ℤ◌, ◌+◌, ◌≤◌, ◌≤ℤ◌, ◌<ℤ◌, ◌<◌, ◌≡◌, ◌⊎◌, refl, inr, arith, int_laws, some,
  none, List, negsuc, [], ◌∷◌, true, false,
}
use clawvival.Base.Text.{trim_space, to_upper, normal}
use clawvival.Base.Dict.{insert, lookup}
use clawvival.Base.Duration.{wrap, max_int64}
use clawvival.Engine.Objects.Change.Returned.{full_count}
use clawvival.Survival.State.{count_of, add_item}
use clawvival.Survival.Tuning.{default_farm_grow_minutes}
use clawvival.World.Provider.{unix}
use clawvival.Shared.Stateview.{used}
use clawvival.Survival.Types.{ActionType, ItemAmount}
use clawvival.Survival.Samples.{starving}
use clawvival.Ports.{Error, returned, raised, WorldObjectRecord, WorldObjectRepository}
use clawvival.Engine.Context.{
  ActionHandler, rest_handler, completed, ActionContext, PreparedObjectAction,
}
use clawvival.Engine.Intent.{
  same_type, validate_request, first_context, normalize_validated_intent, is_supported_action_type,
  has_valid_action_params, has_valid_items, ActionType_of, action_registry,
}
use clawvival.Engine.Intent.Ready.{IsReady, validate_request-IsReady}
use clawvival.Engine.Finalize.{
  add_minutes, session_of, elapsed_minutes, finalize_ongoing_action, finalize_if_due,
}
use clawvival.Engine.Finalize.Elapsed.{minutes_since, rest-elapsed}
use clawvival.Engine.Handlers.{rest_info, execute_action_and_plan, precheck, started}
use clawvival.Engine.Handlers.{rest_details}
use clawvival.Engine.Handlers.Plans.{gave}
use clawvival.Engine.Handlers.Versions.{IsSaved, execute_action_and_plan-IsSaved}
use clawvival.Engine.Settling.{recorded, answered}
use clawvival.Engine.Objects.{
  idle_farm, prepare_with, with_object, prepare_object_action, needs_object, prepare_box,
  deposit_checks, withdraw_checks, is_farm_object, is_box_object, parse_box_object_state,
  aggregate_item_counts, has_all, total_count,
}
use clawvival.Engine.Objects.Change.{
  put_in, take_out, deposited, withdrawn, changed_object, planted, harvested,
}
use clawvival.Engine.Objects.Change.Boxes.{
  IsReturned, deposit-withdraw, IsSlotted, changed_object-IsSlotted,
}
use clawvival.Engine.Objects.Change.Farms.{
  growing, farm_action, ReadsBack, IsSeason, planted-IsSeason,
}
use clawvival.Engine.Persist.{
  persist_and_respond, persist_if, persist_plan, persist_before, persist_after, sign_events,
  with_events, build_response,
}
use clawvival.Action.Move.{resolve_move_intent}
use clawvival.Action.Retreat.{resolve_retreat_intent}
use clawvival.Engine.Execute.{
  Execution, execute, pipeline, replay_idempotent, carry_out, load_state_and_finalize_ongoing,
  resolve_spec, build_context, look_around, replayed, record_failure,
}
use clawvival.Engine.Execute.Replays.{IsReplay, execute-replays}
use clawvival.Engine.Execute.Errors.{IsUndone, execute-IsUndone}
use clawvival.Engine.Execute.Progress.{execute-in_progress}
use clawvival.Engine.Samples.{
  wood_box, Shelf, shelf_case, run_in_tx-IsTransaction, shelf_case-RemembersActions, rest_request,
  shelf, busy_shelf, three_wood, a_box, opened, a_farm, depositing, one_box, sample_formats,
  planting, response_in, find_exec, commit,
}

abbrev rested : Execution Shelf
rested = execute shelf_case rest_request 2000 shelf

rested_returns : rested.outcome ≡ returned (response_in rested.outcome)
unfolding execute validate_request normalize_validated_intent is_supported_action_type
    has_valid_action_params trim_space to_upper ActionType_of pipeline replay_idempotent find_exec
    commit carry_out load_state_and_finalize_ongoing finalize_ongoing_action finalize_if_due
    resolve_spec action_registry build_context look_around prepare_object_action needs_object
    resolve_move_intent resolve_retreat_intent execute_action_and_plan precheck started recorded
    answered persist_and_respond persist_if persist_plan persist_before persist_after sign_events
    with_events build_response replayed
rested_returns = refl

execute-replays_example :
    IsReplay
      (session_of (trim_space "agent"))
      (response_in rested.outcome)
      rested.store
      (execute shelf_case rest_request 3000 rested.store)
execute-replays_example =
    execute-replays shelf_case run_in_tx-IsTransaction shelf_case-RemembersActions rest_request 2000
      3000 shelf rested_returns

abbrev rest_context : ActionContext
rest_context = first_context rest_request

rest_is_valid : validate_request rest_request ≡ returned rest_context
unfolding validate_request normalize_validated_intent is_supported_action_type
    has_valid_action_params trim_space to_upper ActionType_of
rest_is_valid = refl

refused_now :
    (execute shelf_case rest_request 2000 busy_shelf).outcome ≡ raised Error.action_in_progress
unfolding execute validate_request normalize_validated_intent is_supported_action_type
    has_valid_action_params trim_space to_upper ActionType_of pipeline replay_idempotent find_exec
    commit carry_out load_state_and_finalize_ongoing finalize_ongoing_action finalize_if_due
    resolve_spec action_registry build_context
refused_now = refl

execute-IsUndone_example :
    IsUndone shelf_case rest_request busy_shelf Error.action_in_progress
      (execute shelf_case rest_request 2000 busy_shelf)
execute-IsUndone_example =
    execute-IsUndone shelf_case run_in_tx-IsTransaction rest_request 2000 busy_shelf refused_now

nothing_found :
    find_exec rest_context.input.agent_id rest_context.input.idempotency_key []
    ≡ raised Error.not_found
unfolding find_exec
nothing_found = refl

same_type_not : same_type rest_context.tmp.resolved_intent.type ActionType.terminate ≡ false
unfolding first_context
same_type_not = refl

own_agent : rest_context.input.agent_id ≡ "agent"
unfolding first_context
own_agent = refl

execute-in_progress_example : execute shelf_case rest_request 2000 busy_shelf ≡ record {
  outcome = raised Error.action_in_progress;
  store = busy_shelf;
  metrics = record_failure ∷ [];
}
execute-in_progress_example =
    execute-in_progress shelf_case run_in_tx-IsTransaction rest_request 2000 busy_shelf
      rest_is_valid nothing_found refl refl (omega arith) same_type_not

validate_request-IsReady_example : IsReady rest_context
validate_request-IsReady_example = validate_request-IsReady rest_request rest_is_valid

abbrev now_resting : ActionContext
now_resting = record rest_context { input = record (rest_context.input) { now_at = 1000 } }

rests_half_an_hour : now_resting.tmp.resolved_intent.rest_minutes ≡ pos 30
unfolding first_context
rests_half_an_hour = refl

rest-elapsed_example :
    (600_000_001_000 < (rest_info now_resting).end_at)
      × (elapsed_minutes (rest_info now_resting) 600_000_001_000
          ≡ pos (minutes_since 1000 600_000_001_000))
      × (minutes_since 1000 600_000_001_000 < 30)
    ⊎ ((rest_info now_resting).end_at ≤ 600_000_001_000)
      × (elapsed_minutes (rest_info now_resting) 600_000_001_000 ≡ pos 30)
rest-elapsed_example =
    rest-elapsed now_resting 30 600_000_001_000 rests_half_an_hour (omega arith) (omega arith)

is_deposited :
    prepare_box sample_formats (deposit_checks starving three_wood) a_box ≡ returned (some opened)
unfolding prepare_box is_box_object parse_box_object_state deposit_checks aggregate_item_counts
    has_all total_count normal insert count_of lookup ◌+ℤ◌ wrap
is_deposited = refl

abbrev filled_box : WorldObjectRecord
filled_box = deposited sample_formats three_wood opened

is_withdrawn :
    prepare_box sample_formats (withdraw_checks starving three_wood) filled_box
    ≡ returned (some (record opened { object = filled_box; box = wood_box }))
unfolding deposited prepare_box is_box_object parse_box_object_state withdraw_checks
    aggregate_item_counts has_all total_count used normal insert count_of lookup ◌+ℤ◌ put_in
    take_out wrap
is_withdrawn = refl

wood_is_valid : has_valid_items three_wood ≡ true
unfolding has_valid_items trim_space
wood_is_valid = refl

no_wood : pos 0 ≤ℤ count_of "wood" opened.box.inventory
unfolding count_of lookup
no_wood = omega int_laws

room_for_wood : count_of "wood" opened.box.inventory +ℤ full_count three_wood ≤ℤ pos max_int64
unfolding count_of lookup
room_for_wood = omega int_laws

-- Two amounts that wrap around: the deposit passes its checks, and the slots in use are negative.
abbrev too_much : List ItemAmount
too_much =
    record { item_type = "wood"; count = pos max_int64 }
    ∷ record { item_type = "wood"; count = pos max_int64 }
    ∷ []

too_much_is_valid : has_valid_items too_much ≡ true
unfolding has_valid_items trim_space
too_much_is_valid = refl

too_much_passes :
    prepare_box sample_formats (deposit_checks starving too_much) a_box ≡ returned (some opened)
unfolding prepare_box is_box_object parse_box_object_state deposit_checks aggregate_item_counts
    has_all total_count normal insert count_of lookup ◌+ℤ◌ wrap
too_much_passes = refl

too_much_wraps : (deposited sample_formats too_much opened).used_slots ≡ negsuc 1
unfolding deposited total_count ◌+ℤ◌ wrap
too_much_wraps = refl

too_much_gained :
    count_of "wood" (add_item "wood" (pos max_int64) (add_item "wood" (pos max_int64) []))
    ≡ negsuc 1
unfolding add_item count_of insert lookup ◌+ℤ◌ wrap
too_much_gained = refl

deposit-withdraw_example :
    IsReturned sample_formats "wood" opened
      (withdrawn sample_formats three_wood (record opened { object = filled_box; box = wood_box }))
unfolding trim_space put_in insert ◌+ℤ◌ count_of lookup wrap
deposit-withdraw_example =
    deposit-withdraw sample_formats starving starving three_wood a_box "wood" wood_is_valid
      is_deposited is_withdrawn refl refl (omega int_laws) (omega int_laws) no_wood room_for_wood

is_prepared :
    prepare_object_action sample_formats 2000 "agent" (some one_box) starving depositing shelf
    ≡ returned (some opened)
unfolding prepare_object_action prepare_box is_box_object parse_box_object_state deposit_checks
    aggregate_item_counts has_all total_count prepare_with with_object normal insert count_of lookup
    ◌+ℤ◌ wrap
is_prepared = refl

is_changed :
    changed_object sample_formats 2000 depositing opened ActionType.container_deposit
    ≡ some filled_box
unfolding changed_object
is_changed = refl

is_valid_deposit : has_valid_action_params depositing ≡ true
unfolding has_valid_action_params trim_space has_valid_items
is_valid_deposit = refl

changed_object-IsSlotted_example : IsSlotted filled_box
changed_object-IsSlotted_example =
    changed_object-IsSlotted sample_formats 2000 "agent" one_box starving depositing shelf
      is_valid_deposit is_prepared is_changed (omega int_laws)
      (omega int_laws, inr (omega int_laws))

abbrev plot : PreparedObjectAction
plot = record opened { object = a_farm }

is_plot : is_farm_object plot.object ≡ true
unfolding is_farm_object normal
is_plot = refl

growing_reads : ReadsBack sample_formats (growing planting)
unfolding trim_space
growing_reads = (refl, refl)

idle_reads : ReadsBack sample_formats idle_farm
unfolding trim_space
idle_reads = (refl, refl)

after_1970 : pos 0 <ℤ unix (add_minutes planting default_farm_grow_minutes)
unfolding unix add_minutes ◌-ℤ◌ ◌+ℤ◌ ◌*ℤ◌
after_1970 = omega int_laws

-- A store of one object.
abbrev one_object : WorldObjectRepository WorldObjectRecord
one_object = record {
  save_object = λ agent_id obj s. returned obj;
  get_by_object_id = λ agent_id object_id s. returned s;
  list_objects = λ agent_id s. returned (s ∷ []);
  update_object = λ agent_id obj s. returned obj;
}

abbrev sown : WorldObjectRecord
sown = planted sample_formats planting plot

abbrev reaped : WorldObjectRecord
reaped = harvested sample_formats (farm_action sown (growing planting))

planted-IsSeason_example :
    IsSeason sample_formats planting
      (planting + 1)
      "agent"
      one_object
      starving
      depositing
      sown
      reaped
      sown
      reaped
unfolding changed_object
planted-IsSeason_example =
    planted-IsSeason sample_formats planting (planting + 1) "agent" one_object starving depositing
      plot sown reaped sown reaped is_plot refl refl refl refl growing_reads idle_reads after_1970

abbrev rest_begun : ActionContext
rest_begun = started now_resting "rest_started" (rest_details now_resting) (rest_info now_resting)

no_state_yet : now_resting.plan.state_to_save ≡ none
unfolding first_context
no_state_yet = refl

begins :
    execute_action_and_plan shelf_case now_resting rest_handler shelf
    ≡ gave completed rest_begun shelf
unfolding execute_action_and_plan
begins = refl

execute_action_and_plan-IsSaved_example :
    IsSaved now_resting rest_begun
    ⊎ (ActionHandler.rest_handler ≡ ActionHandler.terminate_handler)
      × (rest_begun.plan.state_to_save ≡ none)
execute_action_and_plan-IsSaved_example =
    execute_action_and_plan-IsSaved shelf_case now_resting shelf rest_handler no_state_yet begins
