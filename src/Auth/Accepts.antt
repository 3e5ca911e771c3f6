-- ===== src/Auth/Accepts.antt =====
-- internal/app/auth: an agent that was registered is verified by its key.
use mathlib.Core.Path.{subst}
use Prim.Native.Char.{Char}
use Prim.Native.String
use text.Mathlib.TextLemmas.{cons-append}
use clawvival.Base.{
  ℕ, zero, suc, ◌+◌, ◌*◌, ◌≡◌, ◌≢◌, inl, inr, refl, sym, ap, ◌∙◌, arith, ℤ, pos, String, str_eq,
  eq_iff, true, false, some, [], ◌∷◌,
}
use clawvival.Base.Text.{white}
use clawvival.Base.Clear.{IsClear, IsClear-append, trim_space-clear}
use clawvival.Survival.Types.{Time, AgentStateAggregate}
use clawvival.Ports.{Error, Result, returned, raised, AgentStateRepository}
use clawvival.Ports.Monad.{Tx, Result-cases, writes, >>=-returned, writes-returned}
use clawvival.Engine.Stores.{IsTransaction}
use clawvival.Auth.Tokens.{Bytes, raw_url_encode, format_date}
use clawvival.Auth.Trimmed.{raw_url_encode-IsClear, raw_url_encode-ne, format_date-IsClear}
use clawvival.Auth.{
  AgentCredentialRecord, AgentCredentialRepository, Secrets, RegisterResponse, VerifyRequest,
  RegisterUseCase, credential_status_active, Drawn, draw, draw_id, draw_key, draw_salt,
  new_agent_id, named, random_token, text_of, credential_hash, credential_of, response_of,
  seed_state, create_agent, concluded, tried, attempts, register, register_with, same_bytes,
  check_key, verify_with, verify,
}

-- What a verification reads of a credential.
pub record SameKey (c found : AgentCredentialRecord) : Type 0 where
  pub salt : found.key_salt ≡ c.key_salt
  pub hash : found.key_hash ≡ c.key_hash
  pub status : found.status ≡ c.status

-- The key of a credential that was created is found under its agent, also after a state is saved.
pub record RemembersCredentials {S : Type 0} (credentials : AgentCredentialRepository S)
    (states : AgentStateRepository S) : Type 0 where
  pub created :
      (c : AgentCredentialRecord) (s t : S)
      → c.agent_id ≢ ""
      → c.status ≡ credential_status_active
      → credentials.create c s ≡ returned t
      → (cred : AgentCredentialRecord) × (credentials.get_credential c.agent_id t ≡ returned cred)
        × SameKey c cred
  pub kept :
      (state : AgentStateAggregate) (version : ℤ) (agent_id : String) (s t : S)
      → states.save_with_version state version s ≡ returned t
      → credentials.get_credential agent_id t ≡ credentials.get_credential agent_id s

-- A read of some random bytes that returns has read some.
abbrev pub ReadsBytes : Secrets → Type 0
ReadsBytes secrets =
    (read n : ℕ) (bytes : Bytes) → secrets.random_bytes read (suc n) ≡ returned bytes → bytes ≢ []

-- `newAgentID` of a token.
abbrev id_of : Time → String → String
id_of now token = String.◌++◌ "agt_" (String.◌++◌ (format_date now) (String.◌++◌ "_" token))

-- What an attempt draws has no white space, and is not empty.
record IsProper (d : Drawn) : Type 0 where
  id_clear : IsClear d.agent_id
  id_named : d.agent_id ≢ ""
  key_clear : IsClear d.agent_key
  key_there : d.agent_key ≢ ""

random_token-proper :
    (secrets : Secrets)
    → ReadsBytes secrets
    → (read n : ℕ) {token : String} → random_token secrets read (suc n) ≡ returned token
    → IsClear token × (token ≢ "")
unfolding random_token text_of
random_token-proper secrets law read n {token} h =
    elim (Result-cases (secrets.random_bytes read (suc n))) [
      | inr (broken, bad) ↦ absurd (cc (rw bad at h))
      | inl ([], e) ↦ absurd (law read n [] e refl)
      | inl (a ∷ rest, e) ↦
          let same : raw_url_encode (a ∷ rest) ≡ token = cc (rw e at h) in
          subst (λ text. IsClear text × (text ≢ "")) same
            (raw_url_encode-IsClear (a ∷ rest), raw_url_encode-ne a rest)
    ]

agent_id-IsClear : (now : Time) (token : String) → IsClear token → IsClear (id_of now token)
agent_id-IsClear now token h =
    IsClear-append "agt_" _ (unfold white in (refl, (refl, (refl, (refl, tt))))) (
      IsClear-append (format_date now) _ (format_date-IsClear now)
        (IsClear-append "_" token (unfold white in (refl, tt)) h))

cons-append-ne : (c : Char) (text rest : String) → String.◌++◌ (String.◌∷◌ c text) rest ≢ ""
cons-append-ne c text rest = λ h. absurd (cc (sym (cons-append c text rest) ∙ h))

id_of-ne : (now : Time) (token : String) → id_of now token ≢ ""
id_of-ne now token = cons-append-ne "a" "gt_" _

draw-IsProper :
    (secrets : Secrets)
    → ReadsBytes secrets
    → (now : Time) (attempt : ℕ) {d : Drawn} → draw secrets now attempt ≡ returned d
    → IsProper d
unfolding draw draw_id draw_key draw_salt new_agent_id named
draw-IsProper secrets law now attempt {d} h =
    elim (Result-cases (random_token secrets (3 * attempt) 9)) [
      | inr (broken, bad) ↦ absurd (cc (rw bad at h))
      | inl (token, e1) ↦ elim (Result-cases (random_token secrets (3 * attempt + 1) 32)) [
        | inr (broken, bad) ↦ absurd (cc (rw (e1, bad) at h))
        | inl (key, e2) ↦ elim (Result-cases (secrets.random_bytes (3 * attempt + 2) 16)) [
          | inr (broken, bad) ↦ absurd (cc (rw (e1, e2, bad) at h))
          | inl (salt, e3) ↦
              let made : Drawn = record {
                agent_id = id_of now token;
                agent_key = key;
                salt = salt;
              } in
              let same : made ≡ d = cc (rw (e1, e2, e3) at h) in
              let (clear, there) = random_token-proper secrets law (3 * attempt + 1) 31 e2 in
              let (clear_id, _) = random_token-proper secrets law (3 * attempt) 8 e1 in
              subst IsProper same (record {
                id_clear = agent_id-IsClear now token clear_id;
                id_named = id_of-ne now token;
                key_clear = clear;
                key_there = there;
              })
        ]
      ]
    ]

same_bytes_refl : (bytes : Bytes) → same_bytes bytes bytes ≡ true
unfolding same_bytes
same_bytes_refl [] = refl
same_bytes_refl (b ∷ rest) = ground (arith, same_bytes_refl rest)

module _ {S : Type 0} (secrets : Secrets) (credentials : AgentCredentialRepository S)
    (states : AgentStateRepository S) (now : Time)
    (run : Tx S (Unit {0}) → S → Result (Unit {0}) × S) where
  -- The attempt that succeeded.
  record HasCreated (r : RegisterResponse) (t : S) : Type 0 where
    attempt : ℕ
    d : Drawn
    before : S
    drawn : draw secrets now attempt ≡ returned d
    ran : create_agent secrets credentials states now d before ≡ returned (tt, t)
    answer : r ≡ response_of now d

  retried :
      (e : Error) (d : Drawn) (s : S) (again : S → Result RegisterResponse × S)
      {r : RegisterResponse} {t : S}
      → concluded secrets credentials states now d (raised e, s) again ≡ (returned r, t)
      → again s ≡ (returned r, t)
  unfolding concluded
  retried Error.conflict d s again h = h
  retried e d s again h = absurd (cc h)

  attempts-HasCreated :
      IsTransaction run
      → (left attempt : ℕ) (s : S) {r : RegisterResponse} {t : S}
      → attempts secrets credentials states now run left attempt s ≡ (returned r, t)
      → HasCreated r t
  unfolding attempts
  attempts-HasCreated law zero attempt s h = absurd (cc h)
  attempts-HasCreated law (suc left) attempt s {r} {t} h =
      elim (Result-cases (draw secrets now attempt)) [
        | inr (e, bad) ↦
            absurd (cc (sym (ap (λ x. tried secrets credentials states now run x s again) bad) ∙ h))
        | inl (d, e1) ↦
            let h1 : concluded secrets credentials states now d
                  (run (create_agent secrets credentials states now d) s) again
                ≡ (returned r, t) =
              sym (ap (λ x. tried secrets credentials states now run x s again) e1) ∙ h in
            let back : (e : Error)
                → run (create_agent secrets credentials states now d) s ≡ (raised e, s)
                → HasCreated r t =
              λ e fails.
                attempts-HasCreated law left (attempt + 1) s
                  (retried e d s again (sym (ap (ended d) fails) ∙ h1)) in
            elim (Result-cases (create_agent secrets credentials states now d s)) [
              | inr (e, fails) ↦ back e (law.undone _ s e fails)
              | inl ((u, t'), ok) ↦ elim (law.committed _ s u t' ok) [
                | inr (e, fails) ↦ back e fails
                | inl done ↦
                    let same : (returned (response_of now d), t') ≡ (returned r, t) =
                      sym (ap (ended d) done) ∙ h1 in
                    record {
                      attempt = attempt;
                      d = d;
                      before = s;
                      drawn = e1;
                      ran = ok ∙ ap (λ p. returned (tt, p.1)) same;
                      answer = cc same;
                    }
              ]
            ]
      ]
    where
      again : S → Result RegisterResponse × S
      again t = attempts secrets credentials states now run left (attempt + 1) t

      ended : Drawn → Result (Unit {0}) × S → Result RegisterResponse × S
      ended d x = concluded secrets credentials states now d x again

  -- A credential with the key of the attempt.
  Kept : Drawn → S → Type 0
  Kept d t =
      (cred : AgentCredentialRecord) × (credentials.get_credential d.agent_id t ≡ returned cred)
      × SameKey (credential_of secrets now d) cred

  -- What the attempt created is found.
  found :
      RemembersCredentials credentials states
      → (d : Drawn) (s t : S) → d.agent_id ≢ ""
      → create_agent secrets credentials states now d s ≡ returned (tt, t)
      → Kept d t
  unfolding create_agent credential_of Kept
  found law d s t named h =
      let (u1, t1, e1, h1) = >>=-returned (writes (credentials.create c)) _ s h in
      let (cred, there, same) =
        law.created c s t1 named refl (writes-returned (credentials.create c) s e1) in
      (
        cred,
        law.kept (seed_state d.agent_id now) (pos 0) d.agent_id t1 t
              (writes-returned (states.save_with_version (seed_state d.agent_id now) (pos 0)) t1 h1)
            ∙ there,
        same,
      )
    where
      c : AgentCredentialRecord
      c = credential_of secrets now d

  passes_key :
      (d : Drawn) (cred : AgentCredentialRecord)
      → SameKey (credential_of secrets now d) cred
      → check_key secrets d.agent_key (returned cred) ≡ returned tt
  unfolding check_key credential_of
  passes_key d cred same =
      rw
        (
          same.status,
          same.salt,
          same.hash,
          same_bytes_refl (credential_hash secrets d.salt d.agent_key),
        )
        refl

  verified :
      (d : Drawn) (t : S)
      → IsProper d
      → Kept d t
      → verify secrets
          (some credentials)
          (record { agent_id = d.agent_id; agent_key = d.agent_key })
          t
        ≡ returned tt
  unfolding verify verify_with Kept
  verified d t proper (cred, h, same) =
      rw
        (
          trim_space-clear d.agent_id proper.id_clear,
          trim_space-clear d.agent_key proper.key_clear,
          names,
          keys,
          h,
        )
        (passes_key d cred same)
    where
      names : str_eq d.agent_id "" ≡ false
      names = ground (arith, eq_iff d.agent_id "")

      keys : str_eq d.agent_key "" ≡ false
      keys = ground (arith, eq_iff d.agent_key "")

-- An agent that was registered, with the id and the key it was answered, is verified on the store
-- that the registration left. The store undoes a transaction that fails, the key of a credential
-- that was created is found under its agent, and a read of random bytes that returns is not empty.
pub register-verify :
    {S : Type 0} (u : RegisterUseCase S) (credentials : AgentCredentialRepository S)
    (states : AgentStateRepository S) (run : Tx S (Unit {0}) → S → Result (Unit {0}) × S)
    (now : Time) (s : S) {r : RegisterResponse} {t : S}
    → u.credentials ≡ some credentials
    → u.state_repo ≡ some states
    → u.run_in_tx ≡ some run
    → IsTransaction run
    → RemembersCredentials credentials states
    → ReadsBytes u.secrets
    → register u now s ≡ (returned r, t)
    → verify u.secrets u.credentials (record { agent_id = r.agent_id; agent_key = r.agent_key }) t
      ≡ returned tt
unfolding register register_with response_of
register-verify u credentials states run now s {r} {t} c_is s_is r_is law remembers reads h =
    let h1 : register_with u.secrets (some credentials) (some states) (some run) now s
        ≡ (returned r, t) =
      cc (c_is, s_is, r_is, h) in
    let made = attempts-HasCreated u.secrets credentials states now run law 3 0 s h1 in
    let proper = draw-IsProper u.secrets reads now made.attempt made.drawn in
    let accepted = verified u.secrets credentials states now run made.d t proper (
      found u.secrets credentials states now run remembers made.d made.before t proper.id_named
        made.ran) in
    ap (λ c. verify u.secrets c (asked r) t) c_is
    ∙ ap (λ x. verify u.secrets (some credentials) (asked x) t) made.answer
    ∙ accepted
  where
    asked : RegisterResponse → VerifyRequest
    asked x = record { agent_id = x.agent_id; agent_key = x.agent_key }
