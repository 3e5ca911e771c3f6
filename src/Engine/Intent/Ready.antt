-- ===== src/Engine/Intent/Ready.antt =====
-- internal/app/action/engine_registry.go: the requests that are let through have a handler.
use clawvival.Base.{
  ◌≡◌, ◌≢◌, inl, inr, refl, arith, ℤ, pos, ◌≤ℤ◌, String, str_eq, leb_ℤ, sym, ap, ◌∙◌, if◌then◌else◌,
  eq_iff, Bool-cases, true, false, not, ◌||◌, some, is_some, Option-cases,
}
use clawvival.Base.Text.{trim_space, to_upper}
use clawvival.Survival.Types.{ActionType, ActionType_text, ActionIntent}
use clawvival.Ports.{Error, returned}
use clawvival.Ports.Monad.{both_passed}
use clawvival.Engine.Context.{Request, ActionContext, ActionSpec}
use clawvival.Engine.Intent.{
  ActionType_of, is_supported_action_type, one_of, supported_action_types, action_registry,
  validate_request, normalize_request, first_context, normalize_validated_intent, normalize_intent,
  steer, has_valid_action_params,
}

-- Every text is that of an action, or of none.
supported_is_registered :
    (s : String)
    → is_supported_action_type (ActionType_of s) ≡ is_some (action_registry (ActionType_of s))
unfolding ActionType_of is_supported_action_type one_of supported_action_types action_registry
supported_is_registered s = elim (Bool-cases (str_eq s "gather")) [
  | inl e ↦ rw e refl
  | inr e0 ↦ rw e0 (elim (Bool-cases (str_eq s "rest")) [
    | inl e ↦ rw e refl
    | inr e1 ↦ rw e1 (elim (Bool-cases (str_eq s "sleep")) [
      | inl e ↦ rw e refl
      | inr e2 ↦ rw e2 (elim (Bool-cases (str_eq s "move")) [
        | inl e ↦ rw e refl
        | inr e3 ↦ rw e3 (elim (Bool-cases (str_eq s "build")) [
          | inl e ↦ rw e refl
          | inr e4 ↦ rw e4 (elim (Bool-cases (str_eq s "farm")) [
            | inl e ↦ rw e refl
            | inr e5 ↦ rw e5 (elim (Bool-cases (str_eq s "farm_plant")) [
              | inl e ↦ rw e refl
              | inr e6 ↦ rw e6 (elim (Bool-cases (str_eq s "farm_harvest")) [
                | inl e ↦ rw e refl
                | inr e7 ↦ rw e7 (elim (Bool-cases (str_eq s "container_deposit")) [
                  | inl e ↦ rw e refl
                  | inr e8 ↦ rw e8 (elim (Bool-cases (str_eq s "container_withdraw")) [
                    | inl e ↦ rw e refl
                    | inr e9 ↦ rw e9 (elim (Bool-cases (str_eq s "retreat")) [
                      | inl e ↦ rw e refl
                      | inr e10 ↦ rw e10 (elim (Bool-cases (str_eq s "craft")) [
                        | inl e ↦ rw e refl
                        | inr e11 ↦ rw e11 (elim (Bool-cases (str_eq s "eat")) [
                          | inl e ↦ rw e refl
                          | inr e12 ↦ rw e12 (elim (Bool-cases (str_eq s "terminate")) [
                            | inl e ↦ rw e refl
                            | inr e13 ↦
                                rw e13
                                  (simp (e0, e1, e2, e3, e4, e6, e7, e8, e9, e10, e11, e12, e13))
                          ])
                        ])
                      ])
                    ])
                  ])
                ])
              ])
            ])
          ])
        ])
      ])
    ])
  ])
]

-- A spec stands under its own type.
registry-type : (t : ActionType) (spec : ActionSpec) → action_registry t ≡ some spec → spec.type ≡ t
unfolding action_registry
registry-type ActionType.gather spec h = cc
registry-type t spec h = ground arith

-- A request that is let through has an agent, a key, and an action that a handler is registered
-- for, under that action's own type; its parameters are valid and its count is positive.
pub record IsReady (ac : ActionContext) : Type 0 where
  pub spec : ActionSpec
  pub registered : action_registry ac.tmp.resolved_intent.type ≡ some spec
  pub own_type : spec.type ≡ ac.tmp.resolved_intent.type
  pub has_agent : ac.input.agent_id ≢ ""
  pub has_key : ac.input.idempotency_key ≢ ""
  pub counted : pos 1 ≤ℤ ac.tmp.resolved_intent.count
  pub valid : has_valid_action_params ac.tmp.resolved_intent ≡ true

normal-type :
    (i : ActionIntent) → (s : String) × ((normalize_validated_intent i).type ≡ ActionType_of s)
unfolding normalize_validated_intent normalize_intent steer
normal-type i = (trim_space (ActionType_text i.type), ground arith)

at_least_one : (c : ℤ) → pos 1 ≤ℤ (if leb_ℤ c (pos 0) then pos 1 else c)
at_least_one c = ground arith

normal-count : (i : ActionIntent) → pos 1 ≤ℤ (normalize_validated_intent i).count
unfolding normalize_validated_intent normalize_intent
normal-count i =
    at_least_one
      (steer (to_upper (trim_space i.direction)) (record i {
        type = ActionType_of (trim_space (ActionType_text i.type));
        direction = to_upper (trim_space i.direction);
      })).count

some_spec :
    (t : ActionType) (s : String)
    → t ≡ ActionType_of s
    → is_supported_action_type t ≡ true
    → (spec : ActionSpec) × (action_registry t ≡ some spec)
some_spec t s e h = elim (Option-cases (action_registry t)) [
  | inl nothing ↦ absurd (
      cc (
        sym h
        ∙ ap is_supported_action_type e
        ∙ supported_is_registered s
        ∙ ap is_some (ap action_registry (sym e) ∙ nothing)))
  | inr found ↦ found
]

pub validate_request-tests :
    (request : Request) {ac : ActionContext}
    → validate_request request ≡ returned ac
    → let req = normalize_request request in
      ((str_eq req.agent_id ""
          || str_eq req.idempotency_key ""
          || not (is_supported_action_type req.intent.type))
        ≡ false)
      × (not (has_valid_action_params req.intent) ≡ false)
      × (first_context req ≡ ac)
unfolding validate_request
validate_request-tests request h =
    both_passed Error.invalid_request Error.invalid_action_params _ _ h

-- A request that is let through is ready for its handler.
pub validate_request-IsReady :
    (request : Request) {ac : ActionContext} → validate_request request ≡ returned ac → IsReady ac
unfolding validate_request normalize_request first_context
validate_request-IsReady request {ac} h =
    let req = normalize_request request in
    let (kept, fit, same) = validate_request-tests request h in
    let (s, typed) = normal-type request.intent in
    let (spec, found) = some_spec req.intent.type s typed (ground (arith, kept)) in
    rw (← same) (record {
      spec = spec;
      registered = found;
      own_type = registry-type _ spec found;
      has_agent = ground (arith, kept, eq_iff req.agent_id "");
      has_key = ground (arith, kept, eq_iff req.idempotency_key "");
      counted = normal-count request.intent;
      valid = ground (arith, fit);
    })
