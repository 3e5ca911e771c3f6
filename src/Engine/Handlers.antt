-- ===== src/Engine/Handlers.antt =====
-- internal/app/action: the handlers, each with its precheck and with what it carries out.
pub mod Plans
pub mod Versions
use clawvival.Base.{
  pos, ◌+ℤ◌, String, str_eq, Bool, true, false, not, ◌&&◌, Option, none, some, List, [], ◌∷◌,
  if◌then◌else◌,
}
use clawvival.Base.Text.{trim_space, to_upper}
use clawvival.Survival.Value.{Fields, text, int, time, field, done, set}
use clawvival.Survival.Types.{ActionType, OngoingActionInfo, AgentStateAggregate, ok, DomainEvent}
use clawvival.Survival.Tuning.{standard_tick_minutes}
use clawvival.Survival.Production.{can_craft, can_plant_seed}
use clawvival.Ports.{Error}
use clawvival.Ports.Monad.{Tx, ◌>>◌, give, fail, pure_step, reads, skip}
use clawvival.Engine.Context.{
  ActionHandler, ActionContext, ExecuteMode, completed, PreparedObjectAction, UseCase,
}
use clawvival.Engine.Checks.{
  ensure, run_standard_action_precheck, validate_target_visibility, validate_gather_target_state,
  build_preconditions_satisfied, eat_preconditions_satisfied, needs_furnace, has_usable_furnace,
}
use clawvival.Engine.Finalize.{add_minutes}
use clawvival.Engine.Settling.{SettleOptions, settle_via_domain_or_instant, recorded, answered}

abbrev pub standard_options : SettleOptions
standard_options = record {
  filter_gather_nearby = false;
  apply_seed_pity = false;
  apply_gather_deplete = false;
  apply_object_action = true;
  create_built_objects = true;
}

abbrev pub gather_options : SettleOptions
gather_options = record {
  filter_gather_nearby = true;
  apply_seed_pity = true;
  apply_gather_deplete = true;
  apply_object_action = true;
  create_built_objects = true;
}

module _ {S : Type 0} (u : UseCase S) (ac : ActionContext) where
  abbrev require : Bool → Tx S (Unit {0})
  require test = pure_step (ensure test Error.action_precondition_failed)

  furnace_ready : S → Bool
  furnace_ready s = not (
      needs_furnace ac.tmp.resolved_intent.recipe_id
      && not (has_usable_furnace u.object_repo ac.input.agent_id s))

  abbrev craft_check : Tx S (Unit {0})
  craft_check s =
      require
        (furnace_ready s
          && can_craft ac.view.state_working.inventory ac.tmp.resolved_intent.recipe_id)
        s

  unfoldable pub gather_precheck : Tx S (Unit {0})
  gather_precheck = do
    run_standard_action_precheck u ac
    pure_step (
        validate_target_visibility u.formats.scan_target ac.view.state_working.position
          ac.tmp.resolved_intent ac.view.snapshot)
    reads (
        validate_gather_target_state u.resource_repo ac.input.agent_id ac.tmp.resolved_intent
          ac.input.now_at)

  unfoldable pub build_precheck : Tx S (Unit {0})
  build_precheck = do
    run_standard_action_precheck u ac
    require (build_preconditions_satisfied ac.view.state_working ac.tmp.resolved_intent)

  unfoldable pub farm_plant_precheck : Tx S (Unit {0})
  farm_plant_precheck = do
    run_standard_action_precheck u ac
    require (can_plant_seed ac.view.state_working.inventory)

  unfoldable pub craft_precheck : Tx S (Unit {0})
  unfolding furnace_ready
  craft_precheck = do run_standard_action_precheck u ac; craft_check

  unfoldable pub eat_precheck : Tx S (Unit {0})
  eat_precheck = do
    run_standard_action_precheck u ac
    require (eat_preconditions_satisfied ac.view.state_working ac.tmp.resolved_intent)

  -- `Precheck` of each handler.
  unfoldable pub precheck : ActionHandler → Tx S (Unit {0})
  unfolding gather_precheck build_precheck farm_plant_precheck craft_precheck eat_precheck
  precheck ActionHandler.rest_handler = skip
  precheck ActionHandler.terminate_handler = skip
  precheck ActionHandler.gather_handler = gather_precheck
  precheck ActionHandler.build_handler = build_precheck
  precheck ActionHandler.farm_plant_handler = farm_plant_precheck
  precheck ActionHandler.craft_handler = craft_precheck
  precheck ActionHandler.eat_handler = eat_precheck
  precheck ActionHandler.sleep_handler = run_standard_action_precheck u ac
  precheck ActionHandler.move_handler = run_standard_action_precheck u ac
  precheck ActionHandler.farm_harvest_handler = run_standard_action_precheck u ac
  precheck ActionHandler.container_deposit_handler = run_standard_action_precheck u ac
  precheck ActionHandler.container_withdraw_handler = run_standard_action_precheck u ac
  precheck ActionHandler.retreat_handler = run_standard_action_precheck u ac

module _ (ac : ActionContext) where
  -- A state with an action that goes on until its end.
  unfoldable pub begun : OngoingActionInfo → AgentStateAggregate
  begun ongoing = record (ac.view.state_working) {
    ongoing_action = some ongoing;
    version = ac.view.state_working.version +ℤ pos 1;
    updated_at = ac.input.now_at;
  }

  abbrev hashed : Fields → Fields
  hashed payload =
      if str_eq ac.input.req.strategy_hash ""
      then payload
      else set "strategy_hash" (text ac.input.req.strategy_hash) payload

  -- What is reported after the fields that are the handler's own.
  abbrev ends_at : OngoingActionInfo → Fields
  ends_at ongoing = field "end_at" (time ongoing.end_at) (
      field "world_time_before_seconds" (int ac.view.snapshot.world_time_seconds)
        (field "world_time_after_seconds" (int ac.view.snapshot.world_time_seconds) done))

  pub started_event : String → Fields → DomainEvent
  started_event type details = record {
    type = type;
    occurred_at = ac.input.now_at;
    payload = hashed (
        field "agent_id" (text ac.input.agent_id)
          (field "session_id" (text ac.input.session_id) details));
  }

  -- The plan and the response of an action that is begun.
  unfoldable pub started : String → Fields → OngoingActionInfo → ActionContext
  unfolding begun started_event
  started type details ongoing =
      let next = begun ongoing in
      let events : List DomainEvent = started_event type details ∷ [] in
      let now_seconds = ac.view.snapshot.world_time_seconds in
      record ac {
        plan = record (ac.plan) {
          state_to_save = some next;
          state_version = ac.view.state_working.version;
          events_to_append = some events;
          execution_to_save = some (recorded ac next events ok);
          result_code = ok;
          should_persist = true;
        };
        tmp = record (ac.tmp) { response = answered (now_seconds, now_seconds) next events ok };
      }

  unfoldable pub rest_info : OngoingActionInfo
  rest_info = record {
    type = ActionType.rest;
    minutes = ac.tmp.resolved_intent.rest_minutes;
    end_at = add_minutes ac.input.now_at ac.tmp.resolved_intent.rest_minutes;
    bed_id = "";
    quality = "";
  }

  unfoldable pub sleep_info : OngoingActionInfo
  sleep_info = record {
    type = ActionType.sleep;
    minutes = standard_tick_minutes;
    end_at = add_minutes ac.input.now_at standard_tick_minutes;
    bed_id = ac.tmp.resolved_intent.bed_id;
    quality = ac.tmp.resolved_intent.bed_quality;
  }

  abbrev pub rest_details : Fields
  rest_details = field "rest_minutes" (int ac.tmp.resolved_intent.rest_minutes) (ends_at rest_info)

  abbrev sleep_details : Fields
  sleep_details = field "sleep_minutes" (int standard_tick_minutes) (
      field "bed_id" (text ac.tmp.resolved_intent.bed_id) (
        field "bed_quality" (text (to_upper (trim_space ac.tmp.resolved_intent.bed_quality)))
          (ends_at sleep_info)))

  -- The end of an ongoing action, as the request to break it off reports it.
  unfoldable pub terminated : ActionContext
  terminated =
      let f = ac.view.finalized in
      record ac {
        plan = record (ac.plan) {
          execution_to_save = some (recorded ac f.updated_state f.events f.result_code);
          result_code = f.result_code;
          should_persist = true;
        };
        tmp = record (ac.tmp) {
          response =
              answered (f.world_time_before_seconds, f.world_time_after_seconds) f.updated_state
                f.events f.result_code;
        };
      }

module _ {S : Type 0} (u : UseCase S) (ac : ActionContext) where
  unfoldable pub sleep_on : Option PreparedObjectAction → Tx S (ExecuteMode × ActionContext)
  unfolding sleep_info
  sleep_on none = fail Error.action_precondition_failed
  sleep_on (some bed) =
      give (completed, started ac "sleep_started" (sleep_details ac) (sleep_info ac))

  unfoldable pub terminate_if : Bool → Tx S (ExecuteMode × ActionContext)
  unfolding terminated
  terminate_if true = give (completed, terminated ac)
  terminate_if false = fail Error.action_precondition_failed

  -- `ExecuteActionAndPlan` of each handler.
  unfoldable pub execute_action_and_plan : ActionHandler → Tx S (ExecuteMode × ActionContext)
  unfolding rest_info sleep_on terminate_if
  execute_action_and_plan ActionHandler.rest_handler =
      give (completed, started ac "rest_started" (rest_details ac) (rest_info ac))
  execute_action_and_plan ActionHandler.sleep_handler = sleep_on ac.view.prepared_obj
  execute_action_and_plan ActionHandler.terminate_handler = terminate_if ac.view.finalized.settled
  execute_action_and_plan ActionHandler.gather_handler =
      settle_via_domain_or_instant u gather_options ac
  execute_action_and_plan ActionHandler.move_handler =
      settle_via_domain_or_instant u standard_options ac
  execute_action_and_plan ActionHandler.build_handler =
      settle_via_domain_or_instant u standard_options ac
  execute_action_and_plan ActionHandler.farm_plant_handler =
      settle_via_domain_or_instant u standard_options ac
  execute_action_and_plan ActionHandler.farm_harvest_handler =
      settle_via_domain_or_instant u standard_options ac
  execute_action_and_plan ActionHandler.container_deposit_handler =
      settle_via_domain_or_instant u standard_options ac
  execute_action_and_plan ActionHandler.container_withdraw_handler =
      settle_via_domain_or_instant u standard_options ac
  execute_action_and_plan ActionHandler.retreat_handler =
      settle_via_domain_or_instant u standard_options ac
  execute_action_and_plan ActionHandler.craft_handler =
      settle_via_domain_or_instant u standard_options ac
  execute_action_and_plan ActionHandler.eat_handler =
      settle_via_domain_or_instant u standard_options ac
