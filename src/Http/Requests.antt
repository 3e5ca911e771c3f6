-- ===== src/Http/Requests.antt =====
-- internal/adapter/http/handler.go: what the handlers read of a request, and for whom it is. The JSON
-- of a body is a library's.
use clawvival.Base.{
  ℤ, pos, String, str_eq, Bool, false, not, ◌&&◌, ◌||◌, Option, none, some, List, [], ◌∷◌,
  if◌then◌else◌,
}
use clawvival.Base.Text.{trim_space}
use clawvival.Survival.Types.{Position, ItemAmount}
use clawvival.Ports.{Result, returned, raised}
use clawvival.Engine.Context.{Request}
use clawvival.Engine.Intent.{ActionType_of}
use clawvival.Auth.{VerifyRequest}
use clawvival.Auth.Tokens.{Bytes}
use clawvival.Http.Errors.{HttpError}

-- What a handler reads of the request: a header or a parameter that is missing is the empty text.
pub record HttpRequest : Type 0 where
  pub header : String → String
  pub query : String → String
  pub body : Bytes

pub record ActionIntentBody : Type 0 where
  pub type : String
  pub direction : String
  pub target_id : String
  pub recipe_id : ℤ
  pub count : ℤ
  pub object_type : String
  pub at : Option Position
  pub item_type : String
  pub rest_minutes : ℤ
  pub bed_id : String
  pub farm_id : String
  pub container_id : String
  pub items : List ItemAmount

pub record ActionBody : Type 0 where
  pub agent_id : String
  pub idempotency_key : String
  pub intent : ActionIntentBody
  pub strategy_hash : String

-- `json.Unmarshal` into the request types, none on an error, and the names of an object's fields.
pub record BodyJson : Type 0 where
  pub action_body : Bytes → Option ActionBody
  pub agent_body : Bytes → Option String
  pub field_names : Bytes → Option (List String)

-- `decodeJSON` into a value that is zero: an empty body leaves it.
unfoldable pub decode_json : {A : Type 0} → (Bytes → Option A) → A → Bytes → Option A
decode_json unmarshal zero [] = some zero
decode_json unmarshal zero (b ∷ body) = unmarshal (b ∷ body)

one_of : String → List String → Bool
one_of key [] = false
one_of key (name ∷ names) = str_eq name key || one_of key names

in_object : String → Option (List String) → Bool
unfolding one_of
in_object key none = false
in_object key (some names) = one_of key names

unfoldable pub has_json_field : BodyJson → Bytes → String → Bool
unfolding in_object
has_json_field json [] key = false
has_json_field json (b ∷ body) key = in_object key (json.field_names (b ∷ body))

abbrev pub zero_body : ActionBody
zero_body = record {
  agent_id = "";
  idempotency_key = "";
  intent = record {
    type = "";
    direction = "";
    target_id = "";
    recipe_id = pos 0;
    count = pos 0;
    object_type = "";
    at = none;
    item_type = "";
    rest_minutes = pos 0;
    bed_id = "";
    farm_id = "";
    container_id = "";
    items = [];
  };
  strategy_hash = "";
}

pub data Checked (A : Type 0) : Type 0 where
  passed : A → Checked A
  refused : HttpError → Checked A

unfoldable pub require_readable_agent_id : HttpRequest → String → Checked String
require_readable_agent_id ctx body_agent_id =
    let of_header = trim_space (ctx.header "X-Agent-ID") in
    let of_body = trim_space body_agent_id in
    let of_query = trim_space (ctx.query "agent_id") in
    if not (str_eq of_header "")
    then passed of_header
    else if not (str_eq of_body "")
    then passed of_body
    else if not (str_eq of_query "")
    then passed of_query
    else refused HttpError.missing_agent_id

abbrev if_verified : String → Result (Unit {0}) → Checked String
if_verified agent_id (returned _) = passed agent_id
if_verified agent_id (raised e) = refused (HttpError.of_use_case e)

unfoldable pub require_authenticated_agent :
    (VerifyRequest → Result (Unit {0})) → HttpRequest → Checked String
require_authenticated_agent verify ctx =
    let agent_id = trim_space (ctx.header "X-Agent-ID") in
    let agent_key = trim_space (ctx.header "X-Agent-Key") in
    if str_eq agent_id "" && str_eq agent_key ""
    then refused HttpError.missing_agent_credentials
    else if str_eq agent_id ""
    then refused HttpError.missing_agent_id_header
    else if str_eq agent_key ""
    then refused HttpError.missing_agent_key_header
    else if_verified agent_id (verify (record { agent_id = agent_id; agent_key = agent_key }))

unfoldable pub request_of : String → ActionBody → Request
unfolding ActionType_of
request_of agent_id body = record {
  agent_id = agent_id;
  idempotency_key = body.idempotency_key;
  intent = record {
    type = ActionType_of body.intent.type;
    direction = body.intent.direction;
    target_id = body.intent.target_id;
    recipe_id = body.intent.recipe_id;
    count = body.intent.count;
    object_type = body.intent.object_type;
    pos = body.intent.at;
    item_type = body.intent.item_type;
    rest_minutes = body.intent.rest_minutes;
    bed_id = body.intent.bed_id;
    bed_quality = "";
    farm_id = body.intent.farm_id;
    container_id = body.intent.container_id;
    items = body.intent.items;
    dx = pos 0;
    dy = pos 0;
  };
  strategy_hash = body.strategy_hash;
}
