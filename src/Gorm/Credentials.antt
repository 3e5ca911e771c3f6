-- ===== src/Gorm/Credentials.antt =====
-- internal/adapter/repo/gorm/agent_credential_repo.go: the credentials of the agents.
use Prim.Native.Char.{code}
use clawvival.Base.{String, Bool, true, false, ◌||◌, ◌&&◌, if◌then◌else◌, ◌==◌}
use clawvival.Base.Text.{to_lower}
use clawvival.Survival.Types.{Time}
use clawvival.Ports.{Error, Result, returned, raised}
use clawvival.Auth.{AgentCredentialRecord, AgentCredentialRepository}
use clawvival.Gorm.Table.{
  Table, Answer, answered, record_not_found, broken, passed_on, or_not_found,
}
use clawvival.Gorm.Rows.{AgentCredentialRow, zero_credential_row}

unfoldable pub starts_with : String → String → Bool
starts_with text String.[] = true
starts_with String.[] (String.◌∷◌ c part) = false
starts_with (String.◌∷◌ a text) (String.◌∷◌ c part) = code a == code c && starts_with text part

-- `strings.Contains(text, part)`
unfoldable pub contains : String → String → Bool
unfolding starts_with
contains String.[] part = starts_with "" part
contains (String.◌∷◌ a text) part = starts_with (String.◌∷◌ a text) part || contains text part

unfoldable pub is_unique_violation : String → Bool
unfolding contains
is_unique_violation message =
    contains (to_lower message) "duplicate key" || contains (to_lower message) "unique constraint"

-- The row at a time.
unfoldable pub credential_row : Time → AgentCredentialRecord → AgentCredentialRow
credential_row now c = record {
  agent_id = c.agent_id;
  key_salt = c.key_salt;
  key_hash = c.key_hash;
  status = c.status;
  created_at = c.created_at;
  updated_at = now;
}

unfoldable pub credential_read : AgentCredentialRow → AgentCredentialRecord
credential_read row = record {
  agent_id = row.agent_id;
  key_salt = row.key_salt;
  key_hash = row.key_hash;
  status = row.status;
  created_at = row.created_at;
}

unfoldable pub or_unique : {S : Type 0} → Answer S → Result S
or_unique (answered s) = returned s
or_unique record_not_found = passed_on record_not_found
or_unique (broken e) = if is_unique_violation e then raised Error.conflict else passed_on (broken e)

abbrev pub credential_key : String → AgentCredentialRow
credential_key agent_id = record zero_credential_row { agent_id = agent_id }

module _ {S : Type 0} (db : Table S AgentCredentialRow) where
  unfoldable pub create_credential : Time → AgentCredentialRecord → S → Result S
  unfolding credential_row or_unique
  create_credential now c s = or_unique (db.create (credential_row now c) s)

  unfoldable pub get_credential : String → S → Result AgentCredentialRecord
  unfolding credential_read
  get_credential agent_id s = or_not_found credential_read (db.first (credential_key agent_id) s)

  abbrev pub agent_credential_repo : Time → AgentCredentialRepository S
  agent_credential_repo now = record {
    create = create_credential now;
    get_credential = get_credential;
  }
