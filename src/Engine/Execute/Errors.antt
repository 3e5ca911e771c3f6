-- ===== src/Engine/Execute/Errors.antt =====
-- internal/app/action/engine_usecase.go: what an error of `Execute` leaves behind.
use clawvival.Base.{
  ◌≡◌, ◌≢◌, ◌⊎◌, inl, inr, refl, sym, ap, ◌∙◌, Bool-cases, true, false, if◌then◌else◌, List, [],
  ◌∷◌,
}
use clawvival.Survival.Types.{Time}
use clawvival.Ports.{Error, Result, returned, raised}
use clawvival.Ports.Monad.{Result-cases}
use clawvival.Engine.Context.{Request, Response, ActionContext, UseCase}
use clawvival.Engine.Intent.{validate_request}
use clawvival.Engine.Stores.{IsTransaction}
use clawvival.Engine.Execute.{
  Metric, record_conflict, record_failure, metric_of, Execution, pipeline, measured, at_time,
  run_valid, execute,
}

-- What is counted of an error: nothing where the request is not let through. Of one that is let
-- through, nothing where there are no metrics, else a conflict or a failure.
abbrev CountedValid : {S : Type 0} → UseCase S → Error → List Metric → Type 0
CountedValid u e metrics =
    (u.has_metrics ≡ false) × (metrics ≡ [])
    ⊎ (u.has_metrics ≡ true) × (e ≡ Error.conflict) × (metrics ≡ record_conflict ∷ [])
    ⊎ (u.has_metrics ≡ true) × (e ≢ Error.conflict) × (metrics ≡ record_failure ∷ [])

abbrev Counted : {S : Type 0} → UseCase S → Request → Error → List Metric → Type 0
Counted u request e metrics =
    (validate_request request ≡ raised e) × (metrics ≡ [])
    ⊎ (ac : ActionContext) × (validate_request request ≡ returned ac) × CountedValid u e metrics

pub record IsUndone {S : Type 0} (u : UseCase S) (request : Request) (s : S) (e : Error)
    (x : Execution S) : Type 0 where
  pub nothing_written : x.store ≡ s
  pub counted : Counted u request e x.metrics

metric_of-cases :
    (e : Error)
    → (e ≡ Error.conflict) × (metric_of (raised e) ≡ record_conflict)
      ⊎ (e ≢ Error.conflict) × (metric_of (raised e) ≡ record_failure)
unfolding metric_of
metric_of-cases Error.conflict = inl (refl, refl)
metric_of-cases e = inr (λ h. cc, refl)

module _ {S : Type 0} (u : UseCase S) (request : Request) (s : S) where
  measured-IsUndone :
      (ac : ActionContext)
      → validate_request request ≡ returned ac
      → (e : Error) (r : Result Response × S) → r.1 ≡ s
      → r.0 ≡ raised e
      → IsUndone u request s e (measured u r)
  unfolding measured
  measured-IsUndone ac valid e (outcome, t) same fails = record {
    nothing_written = same;
    counted = inr (
      ac,
      valid,
      elim (Bool-cases u.has_metrics) [
        | inr none_there ↦
            inl (none_there, ap (λ b. if b then metric_of outcome ∷ [] else []) none_there)
        | inl there ↦
            let told = ap (λ b. if b then metric_of outcome ∷ [] else []) there in
            elim (metric_of-cases e) [
              | inl (clash, m) ↦
                  inr (
                    inl
                      (there, clash, told ∙ ap (λ o. metric_of o ∷ []) fails ∙ ap (λ x. x ∷ []) m))
              | inr (other, m) ↦
                  inr (
                    inr
                      (there, other, told ∙ ap (λ o. metric_of o ∷ []) fails ∙ ap (λ x. x ∷ []) m))
            ]
      ],
    );
  }

  run_valid-IsUndone :
      IsTransaction u.run_in_tx
      → (now : Time) (ac : ActionContext) {e : Error} → validate_request request ≡ returned ac
      → (measured u (u.run_in_tx (pipeline u (at_time u now ac)) s)).outcome ≡ raised e
      → IsUndone u request s e (measured u (u.run_in_tx (pipeline u (at_time u now ac)) s))
  unfolding measured
  run_valid-IsUndone tx now ac {e} valid h =
      let timed = at_time u now ac in
      let result = u.run_in_tx (pipeline u timed) s in
      elim (Result-cases (pipeline u timed s)) [
        | inr (broken, bad) ↦
            let undone = tx.undone (pipeline u timed) s broken bad in
            measured-IsUndone ac valid e result (ap (λ (r : Result Response × S). r.1) undone) h
        | inl ((r, t), good) ↦ elim (tx.committed (pipeline u timed) s r t good) [
          | inl done ↦ absurd (cc (sym (ap (λ (x : Result Response × S). x.0) done) ∙ h))
          | inr (broken, failed) ↦
              measured-IsUndone ac valid e result (ap (λ (x : Result Response × S). x.1) failed) h
        ]
      ]

-- An error leaves the store as it was. A request that is not let through is not counted; any other
-- error is counted as a conflict if it is `ErrConflict`, and as a failure if not, where there are
-- metrics. The store undoes a transaction that fails.
pub execute-IsUndone :
    {S : Type 0} (u : UseCase S)
    → IsTransaction u.run_in_tx
    → (request : Request) (now : Time) (s : S) {e : Error}
    → (execute u request now s).outcome ≡ raised e
    → IsUndone u request s e (execute u request now s)
unfolding execute run_valid
execute-IsUndone u tx request now s {e} h = elim (Result-cases (validate_request request)) [
  | inr (broken, bad) ↦
      let same : broken ≡ e = cc (rw bad at h) in
      rw bad (record { nothing_written = refl; counted = inl (bad ∙ ap raised same, refl) })
  | inl (ac, good) ↦ rw good (run_valid-IsUndone u request s tx now ac good (rw good at h))
]
