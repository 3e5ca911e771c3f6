-- ===== src/Http/Pages.antt =====
-- internal/adapter/http: the handlers of the replay, of the skills' files and of the counts, the
-- routes, and the headers of cors.go. internal/app/skills passes the calls on to its provider.
use clawvival.Base.{String, str_eq, Bool, ◌||◌, Option, none, some, List, [], ◌∷◌, if◌then◌else◌}
use clawvival.Base.Text.{trim_space, to_lower}
use clawvival.Base.Decimal.{atoi}
use clawvival.Ports.{Result, returned, raised}
use clawvival.Replay.{Request, Response}
use clawvival.Auth.Tokens.{Bytes}
use clawvival.Http.Errors.{
  HttpError, write_error, write_error_body, status_ok, status_bad_request, status_not_found,
}
use clawvival.Http.Requests.{HttpRequest, Checked, passed, refused, require_readable_agent_id}
use clawvival.Http.Handlers.{Answered, value, fields}

-- `ports.SkillsProvider`, and `skills.UseCase` on it.
pub record SkillsProvider (S : Type 0) : Type 0 where
  pub index : S → Result Bytes
  pub file : String → S → Result Bytes

abbrev skills : {S : Type 0} → SkillsProvider S → SkillsProvider S
skills p = record { index = p.index; file = λ path s. p.file path s }

-- A content type and the data.
pub record Page : Type 0 where
  pub content_type : String
  pub content : Bytes

-- `strings.HasSuffix(text, part)`
unfoldable pub has_suffix : String → String → Bool
has_suffix String.[] part = str_eq "" part
has_suffix (String.◌∷◌ c text) part = str_eq (String.◌∷◌ c text) part || has_suffix text part

-- `strings.TrimPrefix(path, "/")`
unfoldable pub trim_slash : String → String
trim_slash String.[] = ""
trim_slash (String.◌∷◌ c path) = if str_eq (String.◌∷◌ c "") "/" then path else String.◌∷◌ c path

unfoldable pub content_type_for_skills_path : String → String
unfolding has_suffix
content_type_for_skills_path path =
    let lower = to_lower (trim_space path) in
    if has_suffix lower ".json"
    then "application/json"
    else if has_suffix lower ".html"
    then "text/html; charset=utf-8"
    else "text/plain; charset=utf-8"

abbrev page : String → Result Bytes → Answered Page
page type (returned b) = value status_ok (record { content_type = type; content = b })
page type (raised e) = fields (write_error "" (HttpError.of_use_case e))

module _ {S : Type 0} (provider : SkillsProvider S) where
  unfoldable pub skills_index : S → Answered Page
  skills_index s = page "application/json" ((skills provider).index s)

  unfoldable pub skills_root : S → Answered Page
  skills_root s = page "text/html; charset=utf-8" ((skills provider).file "index.html" s)

  -- The path is the one after "/skills".
  unfoldable pub skills_file : String → S → Answered Page
  unfolding trim_slash content_type_for_skills_path
  skills_file filepath s =
      let path = trim_slash filepath in
      if str_eq path ""
      then fields (write_error_body status_bad_request "invalid_filepath" "invalid filepath")
      else page (content_type_for_skills_path path) ((skills provider).file path s)

-- A number in the query that cannot be read is 0, and one that does not fit is the nearest.
unfoldable pub replay_request : HttpRequest → String → Request
unfolding atoi
replay_request ctx agent_id = record {
  agent_id = agent_id;
  limit = atoi (ctx.query "limit");
  occurred_from = atoi (ctx.query "occurred_from");
  occurred_to = atoi (ctx.query "occurred_to");
  session_id = ctx.query "session_id";
}

abbrev answer_replay : Result Response → Answered Response
answer_replay (returned response) = value status_ok response
answer_replay (raised e) = fields (write_error "invalid replay request" (HttpError.of_use_case e))

abbrev replay_as :
    {S : Type 0}
    → (Request → S → Result Response)
    → HttpRequest
    → Checked String
    → S
    → Answered Response
replay_as replay_uc ctx (refused e) s = fields (write_error "invalid replay request" e)
replay_as replay_uc ctx (passed agent_id) s =
    answer_replay (replay_uc (replay_request ctx agent_id) s)

-- The handler of `GET /api/agent/replay`.
unfoldable pub replay_events :
    {S : Type 0} → (Request → S → Result Response) → HttpRequest → S → Answered Response
replay_events replay_uc ctx s = replay_as replay_uc ctx (require_readable_agent_id ctx "") s

-- The counts of the provider, where there is one.
unfoldable pub kpi : {A : Type 0} → Option A → Answered A
kpi none = fields (write_error_body status_not_found "not_configured" "kpi provider not configured")
kpi (some snapshot) = value status_ok snapshot

pub data Route : Type 0 where
  route_register route_observe route_action route_status route_replay : Route
  route_skills_root route_skills_index route_skills_file route_kpi : Route

-- The routes that `RegisterRoutes` sets up, each by its method and its path.
unfoldable pub register_routes : List (String × String × Route)
register_routes =
    ("POST", "/api/agent/register", route_register)
    ∷ ("POST", "/api/agent/observe", route_observe)
    ∷ ("POST", "/api/agent/action", route_action)
    ∷ ("POST", "/api/agent/status", route_status)
    ∷ ("GET", "/api/agent/replay", route_replay)
    ∷ ("GET", "/skills", route_skills_root)
    ∷ ("GET", "/skills/", route_skills_root)
    ∷ ("GET", "/skills/index.json", route_skills_index)
    ∷ ("GET", "/skills/*filepath", route_skills_file)
    ∷ ("GET", "/ops/kpi", route_kpi)
    ∷ []

unfoldable pub cors_headers : List (String × String)
cors_headers =
    ("Access-Control-Allow-Origin", "*")
    ∷ ("Access-Control-Allow-Methods", "GET,POST,OPTIONS")
    ∷ ("Access-Control-Allow-Headers", "Content-Type,X-Agent-ID,X-Agent-Key")
    ∷ ("Access-Control-Max-Age", "600")
    ∷ []

-- What `corsMiddleware` sends: the headers, with the answer of the handlers or, to a request for the
-- options, with nothing (none).
unfoldable pub cors_middleware : {A : Type 0} → String → A → List (String × String) × Option A
unfolding cors_headers
cors_middleware method answer =
    (cors_headers, if str_eq method "OPTIONS" then none else some answer)
