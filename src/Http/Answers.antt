-- ===== src/Http/Answers.antt =====
-- internal/adapter/http/handler.go: the two tables of errors, `writeError` and
-- `writeActionRejectedFromErr`.
use mathlib.Core.Path.{subst}
use clawvival.Base.{ℕ, ◌≡◌, refl, ◌↔◌, ◌⊎◌, inl, inr, arith, String, Option, some, none}
use clawvival.Survival.Value.{Fields, get, as_obj, as_text}
use clawvival.Ports.{Error, raised}
use clawvival.Http.Errors.{
  HttpError, Reply, write_error, write_error_body, write_action_rejected,
  write_action_rejected_from_err, error_text, status_conflict, status_internal_server_error,
}
use clawvival.Http.Handlers.{Answered, value, fields, answer_action}

abbrev pub status_of : {A : Type 0} → Answered A → ℕ
status_of (value status a) = status
status_of (fields reply) = reply.status

abbrev in_error : String → Option Fields → String
in_error key none = ""
in_error key (some m) = as_text (get key m)

-- `body["error"][key]`, a text
abbrev pub error_field : String → Reply Fields → String
error_field key reply = in_error key (as_obj (get "error" reply.body))

-- An action that failed is answered as an internal error where the error is one that the use cases
-- do not name, and only there.
pub answer_action-fault :
    (e : Error)
    → (status_of (answer_action (raised e)) ≡ status_internal_server_error)
      ↔ ((message : String) × (e ≡ Error.fault message))
unfolding answer_action write_error write_error_body write_action_rejected_from_err
    write_action_rejected
answer_action-fault (Error.fault message) = (λ h. (message, refl), λ h. refl)
answer_action-fault e = (λ h. absurd (omega (arith, h)), λ h. absurd (cc h.1))

-- A rejection, next to what the plain table of errors answers.
abbrev pub AgreesWith : String → Error → Reply Fields → Type 0
AgreesWith invalid e reply =
    (error_field "message" reply ≡ error_text invalid e)
    × (((reply.status ≡ (write_error invalid (HttpError.of_use_case e)).status)
          × (error_field "code" reply
              ≡ error_field "code" (write_error invalid (HttpError.of_use_case e)))
          × (error_field "message" reply
              ≡ error_field "message" (write_error invalid (HttpError.of_use_case e))))
        ⊎ (((write_error invalid (HttpError.of_use_case e)).status ≡ status_internal_server_error)
            × (reply.status ≡ status_conflict)))

abbrev IfSome : {A : Type 0} → (A → Type 0) → Option A → Type 0
IfSome P none = Unit
IfSome P (some a) = P a

of_some : {A : Type 0} (P : A → Type 0) (o : Option A) {a : A} → IfSome P o → o ≡ some a → P a
of_some P none h e = absurd (cc e)
of_some P (some b) h e = subst P (cc e) h

all_agree :
    (invalid : String) (e : Error)
    → IfSome (AgreesWith invalid e) (write_action_rejected_from_err invalid e)
unfolding write_error write_error_body write_action_rejected_from_err write_action_rejected
    error_text get
all_agree invalid Error.target_out_of_view = (refl, inr (refl, refl))
all_agree invalid Error.target_not_visible = (refl, inr (refl, refl))
all_agree invalid (Error.resource_depleted target left) = (refl, inr (refl, refl))
all_agree invalid Error.not_found = tt
all_agree invalid Error.conflict = tt
all_agree invalid (Error.fault message) = tt
all_agree invalid Error.invalid_delta = tt
all_agree invalid Error.invalid_credentials = tt
all_agree invalid e = (refl, inl (refl, refl, refl))

-- Where an error is answered as a rejection of an action, its message is the text of the error, and
-- either the plain table of errors answers it with the same status, code and message, or that table
-- has no case for it and the rejection is a conflict.
pub rejected-agrees :
    (invalid : String) (e : Error) {reply : Reply Fields}
    → write_action_rejected_from_err invalid e ≡ some reply
    → AgreesWith invalid e reply
rejected-agrees invalid e h =
    of_some (AgreesWith invalid e) (write_action_rejected_from_err invalid e) (all_agree invalid e)
      h
