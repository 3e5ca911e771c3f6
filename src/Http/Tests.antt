-- ===== src/Http/Tests.antt =====
-- The handler of the actions on a store that counts what was carried out.
use clawvival.Base.{
  ℕ, ◌+◌, ◌≡◌, ◌≢◌, refl, ◌↔◌, ◌⊎◌, pos, String, str_eq, Option, none, some, [], ◌∷◌, if◌then◌else◌,
}
use clawvival.Base.Text.{trim_space, to_lower}
use clawvival.Survival.Value.{Fields, done}
use clawvival.Survival.Samples.{starving}
use clawvival.Survival.Types.{ok}
use clawvival.Ports.{Error, returned, raised}
use clawvival.Engine.Context.{Response}
use clawvival.Http.Errors.{
  status_ok, status_internal_server_error, write_action_rejected_from_err, Reply,
}
use clawvival.Http.Requests.{
  HttpRequest, BodyJson, zero_body, decode_json, has_json_field, require_authenticated_agent,
}
use clawvival.Http.Handlers.{Handler, value, action, answer_action}
use clawvival.Http.Answers.{status_of, AgreesWith, answer_action-fault, rejected-agrees}
use clawvival.Http.Guarded.{WasCarriedOut, action-guarded}
use clawvival.Http.Pages.{content_type_for_skills_path, has_suffix}

abbrev json : BodyJson
json = record {
  action_body = λ body. some zero_body;
  agent_body = λ body. some "agent";
  field_names = λ body. some ("intent" ∷ []);
}

abbrev response : Response
response = record {
  world_time_before_seconds = pos 0;
  world_time_after_seconds = pos 60;
  updated_state = starving;
  events = [];
  settlement = none;
  result_code = ok;
}

abbrev counting : Handler ℕ String String
counting = record {
  register_uc = λ s. (raised Error.conflict, s);
  auth_uc = λ request s.
      if str_eq request.agent_key "secret" then returned tt else raised Error.invalid_credentials;
  observe_uc = λ agent_id s. (returned agent_id, s);
  action_uc = λ request s. (returned response, s + 1);
  status_uc = λ agent_id s. (returned agent_id, s);
  json = json;
}

abbrev asked_by : String → HttpRequest
asked_by key = record {
  header = λ name. if str_eq name "X-Agent-ID" then " agent" else key;
  query = λ name. "";
  body = 123 ∷ 125 ∷ [];
}

carries_out : action counting (asked_by "secret") 4 ≡ (value status_ok response, 5)
unfolding action require_authenticated_agent trim_space decode_json has_json_field answer_action
carries_out = refl

refuses : (action counting (asked_by "guess") 4).1 ≡ 4
unfolding action require_authenticated_agent trim_space decode_json has_json_field answer_action
refuses = refl

is_page : content_type_for_skills_path "Survival/INDEX.HTML " ≡ "text/html; charset=utf-8"
unfolding content_type_for_skills_path has_suffix trim_space to_lower
is_page = refl

action-guarded_example :
    ((status_of (action counting (asked_by "secret") 4).0 ≢ status_ok)
      × ((action counting (asked_by "secret") 4).1 ≡ 4))
    ⊎ WasCarriedOut counting
        (asked_by "secret")
        4
        (action counting (asked_by "secret") 4).0
        (action counting (asked_by "secret") 4).1
action-guarded_example = action-guarded counting (asked_by "secret") 4

answer_action-fault_example :
    (status_of (answer_action (raised (Error.fault "lost"))) ≡ status_internal_server_error)
    ↔ ((message : String) × (Error.fault "lost" ≡ Error.fault message))
answer_action-fault_example = answer_action-fault (Error.fault "lost")

abbrev reply_in : Option (Reply Fields) → Reply Fields
reply_in none = record { status = 0; body = done }
reply_in (some reply) = reply

rejects :
    write_action_rejected_from_err "" Error.inventory_full
    ≡ some (reply_in (write_action_rejected_from_err "" Error.inventory_full))
unfolding write_action_rejected_from_err
rejects = refl

rejected-agrees_example :
    AgreesWith "" Error.inventory_full
      (reply_in (write_action_rejected_from_err "" Error.inventory_full))
rejected-agrees_example = rejected-agrees "" Error.inventory_full rejects
