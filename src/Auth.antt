-- ===== src/Auth.antt =====
-- internal/app/auth: agents are registered with a secret key, and requests are verified by it.
pub mod Tokens
pub mod Trimmed
pub mod Accepts
mod Tests
use clawvival.Base.{
  ℕ, zero, suc, ◌+◌, ◌*◌, ℤ, pos, String, str_eq, Bool, true, false, not, ◌&&◌, ◌||◌, ◌==◌, Option,
  none, some, List, [], ◌∷◌, ◌++◌, if◌then◌else◌,
}
use Prim.Native.String
use clawvival.Base.Text.{trim_space}
use clawvival.Survival.Types.{Time, DeathCause, AgentStateAggregate}
use clawvival.Survival.Tuning.{default_inventory_capacity}
use clawvival.Ports.{Error, Result, returned, raised, AgentStateRepository}
use clawvival.Ports.Monad.{Tx, ◌>>=◌, ◌>>◌, writes}
use clawvival.Auth.Tokens.{Bytes, raw_url_encode, utf8, format_date, format_rfc3339}

pub record AgentCredentialRecord : Type 0 where
  pub agent_id : String
  pub key_salt : Bytes
  pub key_hash : Bytes
  pub status : String
  pub created_at : Time

pub record AgentCredentialRepository (S : Type 0) : Type 0 where
  pub create : AgentCredentialRecord → S → Result S
  pub get_credential : String → S → Result AgentCredentialRecord

abbrev pub credential_status_active : String
credential_status_active = "active"

-- What the code takes from outside: SHA-256, and the random source, by which read it is and how
-- many bytes are read.
pub record Secrets : Type 0 where
  pub sum256 : Bytes → Bytes
  pub random_bytes : ℕ → ℕ → Result Bytes

pub record RegisterResponse : Type 0 where
  pub agent_id : String
  pub agent_key : String
  pub issued_at : String

pub record VerifyRequest : Type 0 where
  pub agent_id : String
  pub agent_key : String

-- A dependency that is nil is none.
pub record RegisterUseCase (S : Type 0) : Type 0 where
  pub credentials : Option (AgentCredentialRepository S)
  pub state_repo : Option (AgentStateRepository S)
  pub run_in_tx : Option (Tx S (Unit {0}) → S → Result (Unit {0}) × S)
  pub secrets : Secrets

unfoldable pub credential_hash : Secrets → Bytes → String → Bytes
credential_hash secrets salt key = secrets.sum256 (salt ++ utf8 key)

unfoldable pub text_of : Result Bytes → Result String
text_of (raised e) = raised e
text_of (returned bytes) = returned (raw_url_encode bytes)

unfoldable pub random_token : Secrets → ℕ → ℕ → Result String
unfolding text_of
random_token secrets read n = text_of (secrets.random_bytes read n)

unfoldable pub named : Time → Result String → Result String
named now (raised e) = raised e
named now (returned token) =
    returned (String.◌++◌ "agt_" (String.◌++◌ (format_date now) (String.◌++◌ "_" token)))

unfoldable pub new_agent_id : Secrets → ℕ → Time → Result String
unfolding named
new_agent_id secrets read now = named now (random_token secrets read 9)

-- The state that an agent begins with.
unfoldable pub seed_state : String → Time → AgentStateAggregate
seed_state agent_id now = record {
  agent_id = agent_id;
  session_id = "";
  vitals = record { hp = pos 100; hunger = pos 80; energy = pos 60 };
  position = record { x = pos 0; y = pos 0 };
  current_zone = "";
  home = record { x = pos 0; y = pos 0 };
  inventory = [];
  inventory_capacity = default_inventory_capacity;
  inventory_used = pos 0;
  action_cooldowns = [];
  status_effects = [];
  dead = false;
  death_cause = DeathCause.unknown;
  ongoing_action = none;
  version = pos 1;
  updated_at = now;
}

-- What an attempt draws at random.
pub record Drawn : Type 0 where
  pub agent_id : String
  pub agent_key : String
  pub salt : Bytes

unfoldable pub draw_salt : String → String → Result Bytes → Result Drawn
draw_salt agent_id key (raised e) = raised e
draw_salt agent_id key (returned salt) =
    returned (record { agent_id = agent_id; agent_key = key; salt = salt })

unfoldable pub draw_key : Secrets → ℕ → String → Result String → Result Drawn
unfolding draw_salt
draw_key secrets attempt agent_id (raised e) = raised e
draw_key secrets attempt agent_id (returned key) =
    draw_salt agent_id key (secrets.random_bytes (3 * attempt + 2) 16)

unfoldable pub draw_id : Secrets → ℕ → Result String → Result Drawn
unfolding draw_key
draw_id secrets attempt (raised e) = raised e
draw_id secrets attempt (returned agent_id) =
    draw_key secrets attempt agent_id (random_token secrets (3 * attempt + 1) 32)

unfoldable pub draw : Secrets → Time → ℕ → Result Drawn
unfolding draw_id
draw secrets now attempt = draw_id secrets attempt (new_agent_id secrets (3 * attempt) now)

unfoldable pub credential_of : Secrets → Time → Drawn → AgentCredentialRecord
credential_of secrets now d = record {
  agent_id = d.agent_id;
  key_salt = d.salt;
  key_hash = credential_hash secrets d.salt d.agent_key;
  status = credential_status_active;
  created_at = now;
}

unfoldable pub response_of : Time → Drawn → RegisterResponse
response_of now d = record {
  agent_id = d.agent_id;
  agent_key = d.agent_key;
  issued_at = format_rfc3339 now;
}

module _ {S : Type 0} (secrets : Secrets) (credentials : AgentCredentialRepository S)
    (states : AgentStateRepository S) (now : Time) where
  -- What runs in the transaction.
  unfoldable pub create_agent : Drawn → Tx S (Unit {0})
  create_agent d = do
    writes (credentials.create (credential_of secrets now d))
    writes (states.save_with_version (seed_state d.agent_id now) (pos 0))

  -- A conflict leads to the next attempt.
  unfoldable pub concluded :
      Drawn
      → Result (Unit {0}) × S
      → (S → Result RegisterResponse × S)
      → Result RegisterResponse × S
  concluded d (returned _, s) again = (returned (response_of now d), s)
  concluded d (raised Error.conflict, s) again = again s
  concluded d (raised e, s) again = (raised e, s)

  module _ (run : Tx S (Unit {0}) → S → Result (Unit {0}) × S) where
    unfoldable pub tried :
        Result Drawn → S → (S → Result RegisterResponse × S) → Result RegisterResponse × S
    unfolding concluded
    tried (raised e) s again = (raised e, s)
    tried (returned d) s again = concluded d (run (create_agent d) s) again

    -- The attempts that are left, and the number of the next.
    unfoldable pub attempts : ℕ → ℕ → S → Result RegisterResponse × S
    unfolding tried
    attempts zero attempt s = (raised Error.conflict, s)
    attempts (suc left) attempt s =
        tried (draw secrets now attempt) s (λ t. attempts left (attempt + 1) t)

module _ {S : Type 0} where
  register_with :
      Secrets
      → Option (AgentCredentialRepository S)
      → Option (AgentStateRepository S)
      → Option (Tx S (Unit {0}) → S → Result (Unit {0}) × S)
      → Time
      → S
      → Result RegisterResponse × S
  register_with secrets (some credentials) (some states) (some run) now s =
      attempts secrets credentials states now run 3 0 s
  register_with secrets _ _ _ now s = (raised Error.invalid_request, s)

  -- `RegisterUseCase.Execute` at a time.
  unfoldable pub register : RegisterUseCase S → Time → S → Result RegisterResponse × S
  unfolding register_with
  register u now s = register_with u.secrets u.credentials u.state_repo u.run_in_tx now s

-- `subtle.ConstantTimeCompare(a, b) == 1`
unfoldable pub same_bytes : Bytes → Bytes → Bool
same_bytes [] [] = true
same_bytes (a ∷ rest) (b ∷ more) = a == b && same_bytes rest more
same_bytes _ _ = false

abbrev denied : Result (Unit {0})
denied = raised Error.invalid_credentials

unfoldable pub check_key : Secrets → String → Result AgentCredentialRecord → Result (Unit {0})
check_key secrets key (raised Error.not_found) = denied
check_key secrets key (raised e) = raised e
check_key secrets key (returned cred) =
    if not (str_eq cred.status credential_status_active)
    then denied
    else if not (same_bytes (credential_hash secrets cred.key_salt key) cred.key_hash)
    then denied
    else returned tt

verify_with :
    {S : Type 0}
    → Secrets
    → Option (AgentCredentialRepository S)
    → String
    → String
    → S
    → Result (Unit {0})
verify_with secrets none agent_id key s = raised Error.invalid_request
verify_with secrets (some credentials) agent_id key s =
    if str_eq agent_id "" || str_eq key ""
    then raised Error.invalid_request
    else check_key secrets key (credentials.get_credential agent_id s)

-- `VerifyUseCase.Execute`
unfoldable pub verify :
    {S : Type 0}
    → Secrets
    → Option (AgentCredentialRepository S)
    → VerifyRequest
    → S
    → Result (Unit {0})
unfolding verify_with
verify secrets credentials request s =
    verify_with secrets credentials (trim_space request.agent_id) (trim_space request.agent_key) s
