-- ===== src/Engine/Execute/Replays.antt =====
-- internal/app/action/engine_usecase.go: a request that is repeated under its key.
use mathlib.Core.Path.{subst}
use clawvival.Base.{◌≡◌, ◌⊎◌, inl, inr, refl, sym, ap, ◌∙◌, String, some, none}
use clawvival.Base.Text.{trim_space}
use clawvival.Survival.Types.{Time}
use clawvival.Ports.{ActionExecutionRecord, Error, Result, returned, raised}
use clawvival.Ports.Monad.{Result-cases}
use clawvival.Engine.Context.{Request, Response, ActionContext, UseCase}
use clawvival.Engine.Intent.{validate_request, first_context, normalize_request}
use clawvival.Engine.Intent.Ready.{validate_request-tests}
use clawvival.Engine.Finalize.{session_of}
use clawvival.Engine.Stores.{IsTransaction, RemembersActions}
use clawvival.Engine.Execute.{
  pipeline, replay_idempotent, replay_of, replayed, or_carry_out, run_valid, measured, execute,
  Execution, at_time,
}
use clawvival.Engine.Execute.Answered.{Repeats, pipeline-IsAnswered}

-- A request that returned has been let through, and its transaction was committed.
record HasRun {S : Type 0} (u : UseCase S) (request : Request) (now : Time) (s : S) (r : Response)
    : Type 0 where
  ac : ActionContext
  valid : validate_request request ≡ returned ac
  unplanned : ac.plan.events_to_append ≡ none
  own_session : ac.input.session_id ≡ session_of (trim_space request.agent_id)
  ran : pipeline u (at_time u now ac) s ≡ returned (r, (execute u request now s).store)

execute-HasRun :
    {S : Type 0} (u : UseCase S)
    → IsTransaction u.run_in_tx
    → (request : Request) (now : Time) (s : S) {r : Response}
    → (execute u request now s).outcome ≡ returned r
    → HasRun u request now s r
unfolding execute run_valid measured first_context normalize_request
execute-HasRun {S} u tx request now s {r} h = elim (Result-cases (validate_request request)) [
  | inr (broken, bad) ↦ absurd (cc (rw bad at h))
  | inl (ac, good) ↦
      let timed = at_time u now ac in
      let first = (validate_request-tests request good).2 in
      let outcome : (u.run_in_tx (pipeline u timed) s).0 ≡ returned r = (rw good at h) in
      elim (Result-cases (pipeline u timed s)) [
        | inr (broken, bad) ↦
            let undone = tx.undone (pipeline u timed) s broken bad in
            absurd (cc (sym (ap (λ (x : Result Response × S). x.0) undone) ∙ outcome))
        | inl ((r', t), went) ↦ elim (tx.committed (pipeline u timed) s r' t went) [
          | inr (broken, failed) ↦
              absurd (cc (sym (ap (λ (x : Result Response × S). x.0) failed) ∙ outcome))
          | inl done ↦
              let same : r' ≡ r = cc (sym (ap (λ (x : Result Response × S). x.0) done) ∙ outcome) in
              let stored : (execute u request now s).store ≡ t =
                ap (λ (x : Execution S). x.store) (ap (run_valid u now s) good)
                ∙ ap (λ (x : Result Response × S). x.1) done in
              record {
                ac = ac;
                valid = good;
                unplanned = ap (λ (c : ActionContext). c.plan.events_to_append) (sym first);
                own_session = ap (λ (c : ActionContext). c.input.session_id) (sym first);
                ran = rw (stored, ← same) went;
              }
        ]
      ]
]

-- The run of a repeated request: nothing is written, and it returns the replay, unless its
-- transaction fails to commit.
pub record IsReplay {S : Type 0} (session_id : String) (r : Response) (s : S) (again : Execution S)
    : Type 0 where
  pub nothing_written : again.store ≡ s
  pub answer :
      ((e : Error) × (again.outcome ≡ raised e))
      ⊎ ((r' : Response) × (again.outcome ≡ returned r') × Repeats session_id r r')

found_again :
    {S : Type 0} (u : UseCase S) (ac : ActionContext) (t : S) {exec : ActionExecutionRecord}
    → u.action_repo.get_by_idempotency_key ac.input.agent_id ac.input.idempotency_key t
      ≡ returned (some exec)
    → pipeline u ac t ≡ returned (replayed ac.input.session_id exec, t)
unfolding pipeline replay_idempotent replay_of or_carry_out
found_again u ac t e = rw e refl

-- A request that has returned, sent again at any time, writes nothing. It returns the same result,
-- the same state, and the same events but for the names of what was built; or its transaction fails
-- to commit. The store undoes a transaction that fails, and remembers the actions recorded in it.
pub execute-replays :
    {S : Type 0} (u : UseCase S)
    → IsTransaction u.run_in_tx
    → RemembersActions u
    → (request : Request) (now later : Time) (s : S) {r : Response}
    → (execute u request now s).outcome ≡ returned r
    → let after = (execute u request now s).store in
      IsReplay (session_of (trim_space request.agent_id)) r after (execute u request later after)
unfolding execute run_valid measured
execute-replays {S} u tx laws request now later s {r} h =
    let run = execute-HasRun u tx request now s h in
    let after = (execute u request now s).store in
    let ac = run.ac in
    let sid = ac.input.session_id in
    let kept = pipeline-IsAnswered u laws (at_time u now ac) s run.unplanned run.ran in
    let again = found_again u (at_time u later ac) after kept.found in
    let at_second = ap (run_valid u later after) run.valid in
    let stored = ap (λ (x : Execution S). x.store) at_second in
    let told = ap (λ (x : Execution S). x.outcome) at_second in
    subst (λ session. IsReplay session r after (execute u request later after)) run.own_session
      (elim (tx.committed _ after (replayed sid kept.written) after again) [
        | inl done ↦ record {
          nothing_written = stored ∙ ap (λ (x : Result Response × S). x.1) done;
          answer = inr (
            replayed sid kept.written,
            told ∙ ap (λ (x : Result Response × S). x.0) done,
            kept.repeats,
          );
        }
        | inr (e, failed) ↦ record {
          nothing_written = stored ∙ ap (λ (x : Result Response × S). x.1) failed;
          answer = inl (e, told ∙ ap (λ (x : Result Response × S). x.0) failed);
        }
      ])
