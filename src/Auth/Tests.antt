-- ===== src/Auth/Tests.antt =====
-- The theorem on authentication, on a store that keeps credentials.
use clawvival.Base.{
  ℕ, zero, suc, true, ◌*◌, ◌≡◌, refl, sym, ap, ◌∙◌, arith, String, str_eq, eq_iff, some, List, [],
  ◌∷◌, if◌then◌else◌,
}
use clawvival.Survival.Types.{Time}
use clawvival.Survival.Tuning.{second}
use clawvival.Ports.{Error, Result, returned, raised, AgentStateRepository}
use clawvival.Engine.Samples.{run_in_tx, run_in_tx-IsTransaction, commit}
use clawvival.Auth.Tokens.{Bytes}
use clawvival.Auth.{
  AgentCredentialRecord, AgentCredentialRepository, Secrets, RegisterResponse, RegisterUseCase,
  register, verify, draw, random_token, new_agent_id, create_agent, attempts,
}
use clawvival.Auth.Accepts.{RemembersCredentials, ReadsBytes, register-verify}

abbrev Vault : Type 0
Vault = List AgentCredentialRecord

find_credential : String → Vault → Result AgentCredentialRecord
find_credential agent_id [] = raised Error.not_found
find_credential agent_id (c ∷ vault) =
    if str_eq c.agent_id agent_id then returned c else find_credential agent_id vault

abbrev vault_credentials : AgentCredentialRepository Vault
vault_credentials = record { create = λ c s. returned (c ∷ s); get_credential = find_credential }

abbrev vault_states : AgentStateRepository Vault
vault_states = record {
  get_by_agent_id = λ agent_id s. raised Error.not_found;
  save_with_version = λ state version s. returned s;
}

counted_bytes : ℕ → ℕ → Bytes
counted_bytes read zero = []
counted_bytes read (suc n) = read ∷ counted_bytes read n

-- A hash that keeps all bytes, and bytes that are the number of their read.
abbrev secrets : Secrets
secrets = record {
  sum256 = λ bytes. bytes;
  random_bytes = λ read n. returned (counted_bytes read n);
}

abbrev registering : RegisterUseCase Vault
registering = record {
  credentials = some vault_credentials;
  state_repo = some vault_states;
  run_in_tx = some run_in_tx;
  secrets = secrets;
}

vault-Remembers : RemembersCredentials vault_credentials vault_states
unfolding find_credential
vault-Remembers = record {
  created = λ c s t named active h.
      let stored : (c ∷ s) ≡ t = cc h in
      let same : str_eq c.agent_id c.agent_id ≡ true =
        ground (arith, eq_iff c.agent_id c.agent_id) in
      (
        c,
        ap (find_credential c.agent_id) (sym stored) ∙ rw same refl,
        record { salt = refl; hash = refl; status = refl },
      );
  kept =
      λ state version agent_id s t h. let same : t ≡ s = cc h in ap (find_credential agent_id) same;
}

reads_bytes : ReadsBytes secrets
unfolding counted_bytes
reads_bytes read n bytes h e = absurd (cc (h, e))

abbrev today : Time
today = 63_907_706_829 * second

abbrev response_in : Result RegisterResponse → RegisterResponse
response_in (raised e) = record { agent_id = ""; agent_key = ""; issued_at = "" }
response_in (returned r) = r

abbrev registered : Result RegisterResponse × Vault
registered = register registering today []

registers : registered ≡ (returned (response_in registered.0), registered.1)
unfolding register draw random_token new_agent_id counted_bytes create_agent commit attempts
registers = refl

register-verify_example :
    verify secrets
      (some vault_credentials)
      (record {
        agent_id = (response_in registered.0).agent_id;
        agent_key = (response_in registered.0).agent_key;
      })
      registered.1
    ≡ returned tt
register-verify_example =
    register-verify registering vault_credentials vault_states run_in_tx today [] refl refl refl
      run_in_tx-IsTransaction vault-Remembers reads_bytes registers
