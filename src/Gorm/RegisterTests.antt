-- ===== src/Gorm/RegisterTests.antt =====
-- The registration on a database with room for one agent.
use clawvival.Base.{ℕ, zero, suc, ◌*◌, ◌≡◌, refl, some, none, [], ◌∷◌}
use clawvival.Survival.Types.{Time}
use clawvival.Survival.Tuning.{second}
use clawvival.Ports.{Result, returned, raised}
use clawvival.Engine.Samples.{run_in_tx, run_in_tx-IsTransaction, commit}
use clawvival.Auth.Tokens.{Bytes}
use clawvival.Auth.{
  Secrets, RegisterResponse, register, verify, draw, random_token, new_agent_id, create_agent,
  attempts,
}
use clawvival.Auth.Accepts.{ReadsBytes, RemembersCredentials}
use clawvival.Gorm.States.{InventoryJson, agent_state_repo, save_with_version}
use clawvival.Gorm.Credentials.{agent_credential_repo, create_credential}
use clawvival.Gorm.Registering.{
  stored_registering, register-verify_stored, repo-RemembersCredentials,
}
use clawvival.Gorm.Samples.{
  Database, states, credentials, credentials-IsTable, credentials-Holds, states-LeavesRows,
}

counted_bytes : ℕ → ℕ → Bytes
counted_bytes read zero = []
counted_bytes read (suc n) = read ∷ counted_bytes read n

-- A hash that keeps all bytes, and bytes that are the number of their read.
abbrev secrets : Secrets
secrets = record {
  sum256 = λ bytes. bytes;
  random_bytes = λ read n. returned (counted_bytes read n);
}

reads_bytes : ReadsBytes secrets
unfolding counted_bytes
reads_bytes read n bytes h e = absurd (cc (h, e))

abbrev no_json : InventoryJson
no_json = record { marshal = λ inv. "{}"; unmarshal = λ raw. [] }

abbrev today : Time
today = 63_907_706_829 * second

abbrev empty_tables : Database
empty_tables = record { state = none; credential = none }

abbrev response_in : Result RegisterResponse → RegisterResponse
response_in (raised e) = record { agent_id = ""; agent_key = ""; issued_at = "" }
response_in (returned r) = r

abbrev registered : Result RegisterResponse × Database
registered =
    register (stored_registering credentials states no_json secrets run_in_tx today) today
      empty_tables

registers : registered ≡ (returned (response_in registered.0), registered.1)
unfolding register draw random_token new_agent_id counted_bytes create_agent commit attempts
    create_credential save_with_version
registers = refl

repo-RemembersCredentials_example :
    RemembersCredentials (agent_credential_repo credentials today) (agent_state_repo states no_json)
repo-RemembersCredentials_example =
    repo-RemembersCredentials credentials states no_json today credentials-IsTable credentials-Holds
      states-LeavesRows

registered_is_verified :
    verify secrets
      (some (agent_credential_repo credentials today))
      (record {
        agent_id = (response_in registered.0).agent_id;
        agent_key = (response_in registered.0).agent_key;
      })
      registered.1
    ≡ returned tt
registered_is_verified =
    register-verify_stored credentials states no_json secrets run_in_tx today empty_tables
      run_in_tx-IsTransaction reads_bytes credentials-IsTable credentials-Holds states-LeavesRows
      registers
