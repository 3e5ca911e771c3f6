-- ===== src/Http/Guarded.antt =====
-- internal/adapter/http/handler.go: what an action is carried out for.
use mathlib.Core.Path.{subst}
use clawvival.Base.{
  ◌≡◌, ◌≢◌, refl, sym, ◌⊎◌, inl, inr, arith, String, str_eq, eq_iff, false, Bool-cases, Option,
  some, none,
}
use clawvival.Base.Text.{trim_space}
use clawvival.Ports.{Error, Result, returned}
use clawvival.Ports.Monad.{Result-cases}
use clawvival.Engine.Context.{Response}
use clawvival.Auth.{VerifyRequest}
use clawvival.Http.Errors.{
  HttpError, status_ok, write_error, write_error_body, write_action_rejected,
}
use clawvival.Http.Requests.{
  HttpRequest, ActionBody, Checked, passed, refused, request_of, decode_json, has_json_field,
  zero_body, require_authenticated_agent,
}
use clawvival.Http.Handlers.{Handler, Answered, action, act_as, act_on, answer_action}
use clawvival.Http.Answers.{status_of}

-- The agent and the key of a request.
abbrev pub named : HttpRequest → VerifyRequest
named ctx = record {
  agent_id = trim_space (ctx.header "X-Agent-ID");
  agent_key = trim_space (ctx.header "X-Agent-Key");
}

pub authenticated-verified :
    (verify : VerifyRequest → Result (Unit {0})) (ctx : HttpRequest) {agent_id : String}
    → require_authenticated_agent verify ctx ≡ passed agent_id
    → (agent_id ≡ (named ctx).agent_id)
      × ((named ctx).agent_id ≢ "")
      × ((named ctx).agent_key ≢ "")
      × (verify (named ctx) ≡ returned tt)
unfolding require_authenticated_agent
authenticated-verified verify ctx {agent_id} h =
    elim (Bool-cases (str_eq (trim_space (ctx.header "X-Agent-ID")) "")) [
      | inl no_name ↦ elim (Bool-cases (str_eq (trim_space (ctx.header "X-Agent-Key")) "")) [
        | inl no_key ↦ absurd (cc (rw (no_name, no_key) at h))
        | inr some_key ↦ absurd (cc (rw (no_name, some_key) at h))
      ]
      | inr some_name ↦ elim (Bool-cases (str_eq (trim_space (ctx.header "X-Agent-Key")) "")) [
        | inl no_key ↦ absurd (cc (rw (some_name, no_key) at h))
        | inr some_key ↦
            let checked = rw (some_name, some_key) at h in
            elim (Result-cases (verify (named ctx))) [
              | inr (e, denied) ↦ absurd (cc (rw denied at checked))
              | inl (u, accepted) ↦
                  let same : passed (named ctx).agent_id ≡ passed agent_id =
                    rw accepted at checked in
                  (
                    cc (sym same),
                    ground (arith, eq_iff (trim_space (ctx.header "X-Agent-ID")) ""),
                    ground (arith, eq_iff (trim_space (ctx.header "X-Agent-Key")) ""),
                    accepted,
                  )
            ]
      ]
    ]

use_case_error-ne :
    (invalid : String) (e : Error)
    → (write_error invalid (HttpError.of_use_case e)).status ≢ status_ok
unfolding write_error write_error_body
use_case_error-ne invalid (Error.fault message) = λ bad. absurd (omega (arith, bad))
use_case_error-ne invalid e = λ bad. absurd (omega (arith, bad))

write_error-ne : (invalid : String) (e : HttpError) → (write_error invalid e).status ≢ status_ok
unfolding write_error write_error_body
write_error-ne invalid (HttpError.of_use_case e) = use_case_error-ne invalid e
write_error-ne invalid e = λ bad. absurd (omega (arith, bad))

module _ {S O T : Type 0} (h : Handler S O T) where
  -- The use case has run on the store, for an agent that was verified.
  pub record WasCarriedOut (ctx : HttpRequest) (s : S) (reply : Answered Response) (t : S)
      : Type 0 where
    pub body : ActionBody
    pub decoded : decode_json h.json.action_body zero_body ctx.body ≡ some body
    pub no_dt : has_json_field h.json ctx.body "dt" ≡ false
    pub has_name : (named ctx).agent_id ≢ ""
    pub has_key : (named ctx).agent_key ≢ ""
    pub verified : h.auth_uc (named ctx) s ≡ returned tt
    pub replied : reply ≡ answer_action (h.action_uc (request_of (named ctx).agent_id body) s).0
    pub left : t ≡ (h.action_uc (request_of (named ctx).agent_id body) s).1

  abbrev Guards : HttpRequest → S → Answered Response × S → Type 0
  Guards ctx s (reply, t) = ((status_of reply ≢ status_ok) × (t ≡ s)) ⊎ WasCarriedOut ctx s reply t

  act_on-Guards :
      (ctx : HttpRequest) (s : S) (o : Option ActionBody)
      → decode_json h.json.action_body zero_body ctx.body ≡ o
      → (named ctx).agent_id ≢ ""
      → (named ctx).agent_key ≢ ""
      → h.auth_uc (named ctx) s ≡ returned tt
      → Guards ctx s (act_on h ctx (named ctx).agent_id o s)
  unfolding write_error_body write_action_rejected
  act_on-Guards ctx s none e name key ok = inl (λ bad. absurd (omega (arith, bad)), refl)
  act_on-Guards ctx s (some body) e name key ok =
      elim (Bool-cases (has_json_field h.json ctx.body "dt")) [
        | inl dt ↦ rw dt (inl (λ bad. absurd (omega (arith, bad)), refl))
        | inr no_dt ↦ rw no_dt (
            inr (record {
              body = body;
              decoded = e;
              no_dt = no_dt;
              has_name = name;
              has_key = key;
              verified = ok;
              replied = refl;
              left = refl;
            }))
      ]

  act_as-Guards :
      (ctx : HttpRequest) (s : S) (x : Checked String)
      → require_authenticated_agent (λ request. h.auth_uc request s) ctx ≡ x
      → Guards ctx s (act_as h ctx x s)
  act_as-Guards ctx s (refused e) is_refused = inl (write_error-ne "invalid auth request" e, refl)
  act_as-Guards ctx s (passed agent_id) has_passed =
      let (same, name, key, ok) =
        authenticated-verified (λ request. h.auth_uc request s) ctx has_passed in
      subst
        (λ id. Guards ctx s (act_on h ctx id (decode_json h.json.action_body zero_body ctx.body) s))
        (sym same)
        (act_on-Guards ctx s (decode_json h.json.action_body zero_body ctx.body) refl name key ok)

-- A request for an action either is refused, with a status other than that of success and with the
-- store as it was, or the use case has run: for the agent of the header, whose name and key are not
-- empty and were verified on that store, with a body that was decoded and has no field dt, and the
-- answer and the store are those of the use case.
pub action-guarded :
    {S O T : Type 0} (h : Handler S O T) (ctx : HttpRequest) (s : S)
    → ((status_of (action h ctx s).0 ≢ status_ok) × ((action h ctx s).1 ≡ s))
      ⊎ WasCarriedOut h ctx s (action h ctx s).0 (action h ctx s).1
unfolding action
action-guarded h ctx s =
    act_as-Guards h ctx s (require_authenticated_agent (λ request. h.auth_uc request s) ctx) refl
