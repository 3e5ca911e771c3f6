-- ===== src/Http/Errors.antt =====
-- internal/adapter/http/handler.go: how the errors of the use cases are answered. A body is the map
-- that is written as JSON.
use clawvival.Base.{ℕ, pos, String, Bool, true, false, Option, none, some, List, [], ◌∷◌}
use clawvival.Survival.Types.{Position, ActionType_text}
use clawvival.Survival.Value.{Value, Fields, done, field, nil, bool, int, text, texts, ints, obj}
use clawvival.Action.Move.{InvalidPosition}
use clawvival.Ports.{Error}

-- The errors of the handlers, and those of the use cases.
pub data HttpError : Type 0 where
  missing_agent_credentials missing_agent_id_header : HttpError
  missing_agent_key_header missing_agent_id : HttpError
  of_use_case : Error → HttpError

pub record Reply (A : Type 0) : Type 0 where
  pub status : ℕ
  pub body : A

abbrev pub status_ok : ℕ
status_ok = 200

abbrev pub status_created : ℕ
status_created = 201

abbrev pub status_bad_request : ℕ
status_bad_request = 400

abbrev pub status_unauthorized : ℕ
status_unauthorized = 401

abbrev pub status_not_found : ℕ
status_not_found = 404

abbrev pub status_conflict : ℕ
status_conflict = 409

abbrev pub status_internal_server_error : ℕ
status_internal_server_error = 500

-- `err.Error()`. The use cases have each their own text for `ErrInvalidRequest`.
unfoldable pub error_text : String → Error → String
error_text invalid Error.not_found = "not found"
error_text invalid Error.conflict = "conflict"
error_text invalid (Error.fault message) = message
error_text invalid Error.invalid_delta = "invalid delta minutes"
error_text invalid Error.invalid_request = invalid
error_text invalid Error.invalid_action_params = "invalid action params"
error_text invalid Error.action_precondition_failed = "action precondition failed"
error_text invalid Error.action_in_progress = "action in progress"
error_text invalid Error.target_out_of_view = "target out of view"
error_text invalid Error.target_not_visible = "target not visible"
error_text invalid Error.inventory_full = "inventory full"
error_text invalid Error.container_full = "container full"
error_text invalid (Error.action_invalid_position _) = "action invalid position"
error_text invalid (Error.action_cooldown_active _ _) = "action cooldown active"
error_text invalid (Error.resource_depleted _ _) = "resource depleted"
error_text invalid Error.invalid_credentials = "invalid agent credentials"

unfoldable pub write_error_body : ℕ → String → String → Reply Fields
write_error_body status code message = record {
  status = status;
  body = field "error" (obj (field "code" (text code) (field "message" (text message) done))) done;
}

-- The cases of `writeError` for the errors of the use cases.
write_use_case_error : String → Error → Reply Fields
unfolding write_error_body error_text
write_use_case_error invalid Error.invalid_credentials =
    write_error_body status_unauthorized "invalid_agent_credentials"
      (error_text invalid Error.invalid_credentials)
write_use_case_error invalid (Error.action_invalid_position p) =
    write_error_body status_conflict "action_invalid_position"
      (error_text invalid (Error.action_invalid_position p))
write_use_case_error invalid (Error.action_cooldown_active type left) =
    write_error_body status_conflict "action_cooldown_active"
      (error_text invalid (Error.action_cooldown_active type left))
write_use_case_error invalid Error.action_in_progress =
    write_error_body status_conflict "action_in_progress"
      (error_text invalid Error.action_in_progress)
write_use_case_error invalid Error.action_precondition_failed =
    write_error_body status_conflict "action_precondition_failed"
      (error_text invalid Error.action_precondition_failed)
write_use_case_error invalid Error.inventory_full =
    write_error_body status_conflict "INVENTORY_FULL" (error_text invalid Error.inventory_full)
write_use_case_error invalid Error.container_full =
    write_error_body status_conflict "CONTAINER_FULL" (error_text invalid Error.container_full)
write_use_case_error invalid Error.invalid_action_params =
    write_error_body status_bad_request "invalid_action_params"
      (error_text invalid Error.invalid_action_params)
write_use_case_error invalid Error.invalid_request =
    write_error_body status_bad_request "bad_request" (error_text invalid Error.invalid_request)
write_use_case_error invalid Error.invalid_delta =
    write_error_body status_bad_request "bad_request" (error_text invalid Error.invalid_delta)
write_use_case_error invalid Error.not_found =
    write_error_body status_not_found "not_found" (error_text invalid Error.not_found)
write_use_case_error invalid Error.conflict =
    write_error_body status_conflict "conflict" (error_text invalid Error.conflict)
write_use_case_error invalid _ =
    write_error_body status_internal_server_error "internal_error" "internal error"

-- `writeError`, with the text of the `ErrInvalidRequest` that may come.
unfoldable pub write_error : String → HttpError → Reply Fields
unfolding write_error_body write_use_case_error
write_error invalid HttpError.missing_agent_credentials =
    write_error_body status_bad_request "missing_agent_credentials" "missing agent credentials"
write_error invalid HttpError.missing_agent_id_header =
    write_error_body status_bad_request "missing_agent_id" "missing x-agent-id header"
write_error invalid HttpError.missing_agent_id =
    write_error_body status_bad_request "missing_agent_id" "missing agent_id"
write_error invalid HttpError.missing_agent_key_header =
    write_error_body status_bad_request "missing_agent_key" "missing x-agent-key header"
write_error invalid (HttpError.of_use_case e) = write_use_case_error invalid e

abbrev or_nil : Option Fields → Value
or_nil none = nil
or_nil (some m) = obj m

rejection : String → String → Bool → List String → Option Fields → Value
rejection code message retryable blocked_by details = obj (
    field "code" (text code) (
      field "message" (text message) (
        field "retryable" (bool retryable)
          (field "blocked_by" (texts blocked_by) (field "details" (or_nil details) done)))))

unfoldable pub write_action_rejected :
    ℕ → String → String → Bool → List String → Option Fields → Reply Fields
unfolding rejection
write_action_rejected status code message retryable blocked_by details = record {
  status = status;
  body = field "result_code" (text "REJECTED") (
      field "world_time_before_seconds" (int (pos 0)) (
        field "world_time_after_seconds" (int (pos 0)) (
          field "error" (rejection code message retryable blocked_by details)
            (field "action_error" (rejection code message retryable blocked_by details) done))));
}

abbrev point : Position → Value
point p = ints (("x", p.x) ∷ ("y", p.y) ∷ [])

-- The details of `ActionInvalidPositionError`, whose target is there wherever it is raised.
unfoldable pub position_details : InvalidPosition → Fields
position_details p =
    field "target_pos" (point p.target_pos)
      (elim p.blocking_tile_pos [ none ↦ done | some q ↦ field "blocking_tile_pos" (point q) done ])

abbrev unmet : List String
unmet = "REQUIREMENT_NOT_MET" ∷ []

abbrev rejects : ℕ → String → String → List String → Option Fields → Option (Reply Fields)
rejects status code message blocked_by details =
    some (write_action_rejected status code message false blocked_by details)

-- `writeActionRejectedFromErr`: none where the error is not one of an action.
unfoldable pub write_action_rejected_from_err : String → Error → Option (Reply Fields)
unfolding write_action_rejected position_details error_text
write_action_rejected_from_err invalid (Error.action_invalid_position p) =
    rejects status_conflict "action_invalid_position"
      (error_text invalid (Error.action_invalid_position p)) unmet (some (position_details p))
write_action_rejected_from_err invalid (Error.action_cooldown_active type left) =
    rejects status_conflict "action_cooldown_active"
      (error_text invalid (Error.action_cooldown_active type left)) unmet
      (some (
        field "intent" (text (ActionType_text type))
          (field "remaining_seconds" (int (pos left)) done)))
write_action_rejected_from_err invalid Error.action_in_progress =
    rejects status_conflict "action_in_progress" (error_text invalid Error.action_in_progress) unmet
      none
write_action_rejected_from_err invalid Error.target_out_of_view =
    rejects status_conflict "TARGET_OUT_OF_VIEW" (error_text invalid Error.target_out_of_view)
      ("NOT_VISIBLE" ∷ []) (some (field "in_window" (bool false) done))
write_action_rejected_from_err invalid Error.target_not_visible =
    rejects status_conflict "TARGET_NOT_VISIBLE" (error_text invalid Error.target_not_visible)
      ("NOT_VISIBLE" ∷ [])
      (some (field "in_window" (bool true) (field "is_visible" (bool false) done)))
write_action_rejected_from_err invalid (Error.resource_depleted target left) =
    rejects status_conflict "RESOURCE_DEPLETED"
      (error_text invalid (Error.resource_depleted target left)) unmet
      (some (field "target_id" (text target) (field "remaining_seconds" (int left) done)))
write_action_rejected_from_err invalid Error.action_precondition_failed =
    rejects status_conflict "action_precondition_failed"
      (error_text invalid Error.action_precondition_failed) unmet none
write_action_rejected_from_err invalid Error.inventory_full =
    rejects status_conflict "INVENTORY_FULL" (error_text invalid Error.inventory_full)
      ("INVENTORY_FULL" ∷ []) none
write_action_rejected_from_err invalid Error.container_full =
    rejects status_conflict "CONTAINER_FULL" (error_text invalid Error.container_full)
      ("CONTAINER_FULL" ∷ []) none
write_action_rejected_from_err invalid Error.invalid_action_params =
    rejects status_bad_request "invalid_action_params"
      (error_text invalid Error.invalid_action_params) unmet none
write_action_rejected_from_err invalid Error.invalid_request =
    rejects status_bad_request "bad_request" (error_text invalid Error.invalid_request) unmet none
write_action_rejected_from_err invalid _ = none
