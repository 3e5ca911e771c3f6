-- ===== src/Http/Handlers.antt =====
-- internal/adapter/http/handler.go: the handlers. A handler takes a request and the store, and the
-- use cases stand as what their `Execute` does.
use clawvival.Base.{ℕ, String, false, Option, none, some, [], ◌∷◌, if◌then◌else◌}
use clawvival.Survival.Value.{Fields, field, done, text}
use clawvival.Ports.{Error, Result, returned, raised}
use clawvival.Engine.Context.{Request, Response}
use clawvival.Auth.{VerifyRequest, RegisterResponse}
use clawvival.Http.Errors.{
  HttpError, Reply, write_error, write_error_body, write_action_rejected,
  write_action_rejected_from_err, status_ok, status_created, status_bad_request,
}
use clawvival.Http.Requests.{
  HttpRequest, ActionBody, BodyJson, decode_json, has_json_field, zero_body, Checked, passed,
  refused, require_readable_agent_id, require_authenticated_agent, request_of,
}

-- What is answered: the result of a use case, or a map.
pub data Answered (A : Type 0) : Type 0 where
  value : ℕ → A → Answered A
  fields : Reply Fields → Answered A

abbrev pub invalid_json : {A : Type 0} → Answered A
invalid_json = fields (write_error_body status_bad_request "invalid_json" "invalid json")

abbrev or_error : {A : Type 0} → String → Error → Option (Reply Fields) → Answered A
or_error invalid e (some reply) = fields reply
or_error invalid e none = fields (write_error invalid (HttpError.of_use_case e))

-- The answer to an action: a rejection where the error is one of an action.
unfoldable pub answer_action : Result Response → Answered Response
answer_action (returned response) = value status_ok response
answer_action (raised e) =
    or_error "invalid action request" e (write_action_rejected_from_err "invalid action request" e)

abbrev pub dt_refused : Reply Fields
dt_refused =
    write_action_rejected status_bad_request "dt_managed_by_server" "dt is managed by server" false
      ("REQUIREMENT_NOT_MET" ∷ []) (some (field "field" (text "dt") done))

-- `Handler`, by what the use cases do on a store. The reads of a use case may change the store.
pub record Handler (S ObserveResponse StatusResponse : Type 0) : Type 0 where
  pub register_uc : S → Result RegisterResponse × S
  pub auth_uc : VerifyRequest → S → Result (Unit {0})
  pub observe_uc : String → S → Result ObserveResponse × S
  pub action_uc : Request → S → Result Response × S
  pub status_uc : String → S → Result StatusResponse × S
  pub json : BodyJson

module _ {S O T : Type 0} (h : Handler S O T) where
  abbrev pub carried_out : Result Response × S → Answered Response × S
  carried_out (outcome, s) = (answer_action outcome, s)

  -- The body, decoded.
  abbrev pub act_on : HttpRequest → String → Option ActionBody → S → Answered Response × S
  act_on ctx agent_id none s = (invalid_json, s)
  act_on ctx agent_id (some body) s =
      let run = h.action_uc (request_of agent_id body) s in
      if has_json_field h.json ctx.body "dt" then (fields dt_refused, s) else carried_out run

  abbrev pub act_as : HttpRequest → Checked String → S → Answered Response × S
  act_as ctx (refused e) s = (fields (write_error "invalid auth request" e), s)
  act_as ctx (passed agent_id) s =
      act_on ctx agent_id (decode_json h.json.action_body zero_body ctx.body) s

  unfoldable pub action : HttpRequest → S → Answered Response × S
  action ctx s = act_as ctx (require_authenticated_agent (λ request. h.auth_uc request s) ctx) s

  abbrev answered_by : {A : Type 0} → String → ℕ → Result A × S → Answered A × S
  answered_by invalid status (returned a, s) = (value status a, s)
  answered_by invalid status (raised e, s) =
      (fields (write_error invalid (HttpError.of_use_case e)), s)

  -- A read by an agent that is named in the header, the body or the query.
  abbrev read_as :
      {A : Type 0} → String → (String → S → Result A × S) → Checked String → S → Answered A × S
  read_as invalid use_case (refused e) s = (fields (write_error invalid e), s)
  read_as invalid use_case (passed agent_id) s = answered_by invalid status_ok (use_case agent_id s)

  abbrev read_body :
      {A : Type 0}
      → String
      → (String → S → Result A × S)
      → HttpRequest
      → Option String
      → S
      → Answered A × S
  read_body invalid use_case ctx none s = (invalid_json, s)
  read_body invalid use_case ctx (some name) s =
      read_as invalid use_case (require_readable_agent_id ctx name) s

  unfoldable pub observe : HttpRequest → S → Answered O × S
  observe ctx s =
      read_body "invalid observe request" h.observe_uc ctx
        (decode_json h.json.agent_body "" ctx.body) s

  unfoldable pub status : HttpRequest → S → Answered T × S
  status ctx s =
      read_body "invalid status request" h.status_uc ctx (decode_json h.json.agent_body "" ctx.body)
        s

  unfoldable pub register : S → Answered RegisterResponse × S
  register s = answered_by "invalid auth request" status_created (h.register_uc s)
