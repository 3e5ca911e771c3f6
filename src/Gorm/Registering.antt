-- ===== src/Gorm/Registering.antt =====
-- internal/adapter/repo/gorm: the tables keep what the registration of internal/app/auth relies on.
use clawvival.Base.{
  ℕ, ◌≤◌, ◌≡◌, ◌≢◌, refl, sym, ap, ◌∙◌, inl, inr, ℤ, pos, leb_ℤ, String, str_eq, Bool, true, ◌&&◌,
  Bool-cases, List, some,
}
use clawvival.Survival.Types.{Time, AgentStateAggregate}
use clawvival.Ports.{Result, returned}
use clawvival.Ports.Monad.{Tx}
use clawvival.Engine.Stores.{IsTransaction}
use clawvival.Auth.{
  credential_status_active, RegisterUseCase, RegisterResponse, Secrets, register, verify,
}
use clawvival.Auth.Accepts.{RemembersCredentials, ReadsBytes, register-verify}
use clawvival.Gorm.Table.{
  Table, Answer, answered, record_not_found, broken, IsTable, count, first_of, first_of-append_one,
  or_not_found,
}
use clawvival.Gorm.Rows.{AgentStateRow, AgentCredentialRow}
use clawvival.Gorm.States.{
  InventoryJson, save_with_version, agent_state_repo, row_of, version_row, assign_state,
}
use clawvival.Gorm.Credentials.{
  credential_key, credential_row, credential_read, create_credential, get_credential, or_unique,
  agent_credential_repo, is_unique_violation,
}
use clawvival.Gorm.Saving.{first_of-eq, same_name, passed_on-returned}
use clawvival.Gorm.Locking.{or_conflict-returned}

-- The table of the credentials: its rows differ by the agent, and a name in a condition has to
-- agree. A status that is written is kept.
pub record HoldsCredentials {S : Type 0} (rows : S → List AgentCredentialRow)
    (matches : AgentCredentialRow → AgentCredentialRow → Bool)
    (stored : AgentCredentialRow → AgentCredentialRow) : Type 0 where
  pub one : (agent_id : String) (s : S) → count (λ r. str_eq r.agent_id agent_id) (rows s) ≤ 1
  pub by_agent :
      (agent_id : String) (r : AgentCredentialRow)
      → agent_id ≢ ""
      → matches (credential_key agent_id) r ≡ str_eq r.agent_id agent_id
  pub keyed : (r : AgentCredentialRow) → (stored r).agent_id ≡ r.agent_id
  pub salted : (r : AgentCredentialRow) → (stored r).key_salt ≡ r.key_salt
  pub hashed : (r : AgentCredentialRow) → (stored r).key_hash ≡ r.key_hash
  pub status :
      (r : AgentCredentialRow)
      → r.status ≡ credential_status_active
      → (stored r).status ≡ credential_status_active

-- What is written to one table leaves the rows of another.
pub record LeavesRows {S Row Other : Type 0} (db : Table S Row) (others : S → List Other)
    : Type 0 where
  pub created : (r : Row) (s t : S) → db.create r s ≡ answered t → others t ≡ others s
  pub updated :
      (c : Row) (f : Row → Row) (n : ℕ) (s t : S)
      → db.updates c f s ≡ answered (n, t)
      → others t ≡ others s

or_unique-returned : {S : Type 0} (a : Answer S) {t : S} → or_unique a ≡ returned t → a ≡ answered t
unfolding or_unique
or_unique-returned (answered s) h = cc h
or_unique-returned record_not_found h = absurd (cc h)
or_unique-returned (broken e) h = elim (Bool-cases (is_unique_violation e)) [
  | inl clash ↦ absurd (cc (rw clash at h))
  | inr other ↦ absurd (cc (rw other at h))
]

-- A save of a state leaves the rows that its table does not hold.
save_with_version-leaves :
    {S Other : Type 0} (db : Table S AgentStateRow) (json : InventoryJson) (others : S → List Other)
    → LeavesRows db others
    → (state : AgentStateAggregate) (version : ℤ) (s t : S)
    → save_with_version db json state version s ≡ returned t
    → others t ≡ others s
unfolding save_with_version
save_with_version-leaves db json others leaves state version s t h =
    elim (Bool-cases (leb_ℤ version (pos 0) && leb_ℤ (pos 0) version)) [
      | inl fresh ↦
          leaves.created (row_of json state) s t
            (passed_on-returned (db.create (row_of json state) s) (rw fresh at h))
      | inr older ↦
          let (n, updated, _) =
            or_conflict-returned
              (db.updates (version_row state.agent_id version) (assign_state json state) s)
              (rw older at h) in
          leaves.updated _ _ n s t updated
    ]

-- The repositories of the credentials and of the states keep what the registration relies on: the
-- key of a credential that was created is found under its agent, also after a state is saved. The
-- table of the credentials keeps one row for each agent, and what is written to the table of the
-- states leaves it.
pub repo-RemembersCredentials :
    {S : Type 0} (db : Table S AgentCredentialRow) (states : Table S AgentStateRow)
    (json : InventoryJson) (now : Time) {rows : S → List AgentCredentialRow}
    {matches : AgentCredentialRow → AgentCredentialRow → Bool}
    {stored : AgentCredentialRow → AgentCredentialRow}
    → IsTable db rows matches stored
    → HoldsCredentials rows matches stored
    → LeavesRows states rows
    → RemembersCredentials (agent_credential_repo db now) (agent_state_repo states json)
unfolding create_credential get_credential credential_row credential_read
repo-RemembersCredentials db states json now {rows} {matches} {stored} table holds leaves = record {
  created = λ c s t named active h.
      let row = credential_row now c in
      let added = table.create_adds row s t (or_unique-returned (db.create row s) h) in
      let same : str_eq (stored row).agent_id c.agent_id ≡ true =
        ap (λ name. str_eq name c.agent_id) (holds.keyed row) ∙ same_name c.agent_id in
      (
        credential_read (stored row),
        ap (or_not_found credential_read) (
            table.first_finds (credential_key c.agent_id) t
            ∙ first_of-eq (matches (credential_key c.agent_id)) (λ r. str_eq r.agent_id c.agent_id)
                (rows t) (λ r. holds.by_agent c.agent_id r named)
            ∙ ap (first_of (λ r. str_eq r.agent_id c.agent_id)) added
            ∙ first_of-append_one (λ r. str_eq r.agent_id c.agent_id) (rows s) (stored row)
                (rw added at (holds.one c.agent_id t)) same),
        record {
          salt = holds.salted row;
          hash = holds.hashed row;
          status = holds.status row active ∙ sym active;
        },
      );
  kept = λ state version agent_id s t h. ap (or_not_found credential_read) (
      table.first_finds (credential_key agent_id) t
      ∙ ap (first_of (matches (credential_key agent_id)))
          (save_with_version-leaves states json rows leaves state version s t h)
      ∙ sym (table.first_finds (credential_key agent_id) s));
}

-- `RegisterUseCase` on the tables, as the program puts it together.
abbrev pub stored_registering :
    {S : Type 0}
    → Table S AgentCredentialRow
    → Table S AgentStateRow
    → InventoryJson
    → Secrets
    → (Tx S (Unit {0}) → S → Result (Unit {0}) × S)
    → Time
    → RegisterUseCase S
stored_registering db states json secrets run now = record {
  credentials = some (agent_credential_repo db now);
  state_repo = some (agent_state_repo states json);
  run_in_tx = some run;
  secrets = secrets;
}

-- An agent that was registered on the tables is verified on the tables that the registration left,
-- by the id and the key that it was answered. The transactions are undone where they fail, a read of
-- random bytes that returns is not empty, the table of the credentials keeps one row for each agent,
-- and what is written to the table of the states leaves it.
pub register-verify_stored :
    {S : Type 0} (db : Table S AgentCredentialRow) (states : Table S AgentStateRow)
    (json : InventoryJson) (secrets : Secrets) (run : Tx S (Unit {0}) → S → Result (Unit {0}) × S)
    (now : Time) (s : S) {rows : S → List AgentCredentialRow}
    {matches : AgentCredentialRow → AgentCredentialRow → Bool}
    {stored : AgentCredentialRow → AgentCredentialRow} {r : RegisterResponse} {t : S}
    → IsTransaction run
    → ReadsBytes secrets
    → IsTable db rows matches stored
    → HoldsCredentials rows matches stored
    → LeavesRows states rows
    → register (stored_registering db states json secrets run now) now s ≡ (returned r, t)
    → verify secrets
        (some (agent_credential_repo db now))
        (record { agent_id = r.agent_id; agent_key = r.agent_key })
        t
      ≡ returned tt
register-verify_stored db states json secrets run now s law reads table holds leaves h =
    register-verify (stored_registering db states json secrets run now)
      (agent_credential_repo db now) (agent_state_repo states json) run now s refl refl refl law
      (repo-RemembersCredentials db states json now table holds leaves) reads h
