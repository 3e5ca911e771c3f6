-- ===== src/Shared/Stateview/Laws.antt =====
-- internal/app/shared/stateview: `Enrich` and `EstimateHPDrain`.
use clawvival.Base.{
  ℕ, ℤ, pos, ◌+ℤ◌, ◌<ℤ◌, pos_part, ◌≡◌, refl, arith, String, Bool, some, List, ◌∷◌, ◌++◌,
}
use clawvival.Survival.Value.{get}
use clawvival.Survival.Types.{
  Time, Vitals, AgentStateAggregate, ActionIntent, HeartbeatDelta, DomainEvent, WorldSnapshot,
  SettlementResult,
}
use clawvival.Survival.State.{mark_dead}
use clawvival.Survival.Effect.{Work, change_hp}
use clawvival.Survival.Settlement.{
  settle, settle_minutes, settle_work, settle_action, hp_losses, drain, drain_reasons, conclude,
  action_settled,
}
use clawvival.Survival.Settlement.Minutes.{settle-eq-some}
use clawvival.Survival.Settlement.Report.{reported_loss}
use clawvival.Survival.Settlement.Health.{cap_nonneg}
use clawvival.Shared.Stateview.{
  enrich, compute_inventory_used, derive_status_effects, estimate_hp_drain, estimate_of,
}

-- Deriving the fields of a state again, at the same time of day and light, changes nothing.
pub enrich_idem :
    (s : AgentStateAggregate) (time_of_day : String) (lit : Bool)
    → enrich (enrich s time_of_day lit) time_of_day lit ≡ enrich s time_of_day lit
unfolding enrich compute_inventory_used derive_status_effects
enrich_idem s time_of_day lit = ground arith

estimated_loss-eq :
    (v : Vitals) (minutes : ℤ)
    → pos 0 <ℤ minutes
    → (estimate_hp_drain v minutes).estimated_loss
      ≡ (hp_losses v (pos_part minutes)).0 +ℤ (hp_losses v (pos_part minutes)).1
unfolding estimate_hp_drain estimate_of hp_losses
estimated_loss-eq v minutes p = ground (arith, cap_nonneg (pos_part minutes))

losses_of_drained :
    (ls : ℤ × ℤ) (w : Work) (dt : ℕ)
    → hp_losses (drain ls w).next.vitals dt ≡ hp_losses w.next.vitals dt
unfolding drain drain_reasons change_hp hp_losses
losses_of_drained ls w dt = refl

losses_of_concluded :
    (s : AgentStateAggregate) (dt : ℕ) (now : Time) (o : WorldSnapshot) (n : AgentStateAggregate)
    → (conclude s dt now o n).0.vitals ≡ n.vitals
unfolding conclude mark_dead
losses_of_concluded s dt now o n = ground arith

settled_loss :
    (s : AgentStateAggregate) (i : ActionIntent) (dt : ℕ) (now : Time) (o : WorldSnapshot)
    → let r = settle_minutes s i dt now o in
      (e : DomainEvent) × (rest : List DomainEvent) × (r.events ≡ e ∷ rest)
      × (reported_loss e
          ≡ (hp_losses r.updated_state.vitals dt).0 +ℤ (hp_losses r.updated_state.vitals dt).1)
unfolding settle_minutes settle_work
settled_loss s i dt now o =
    let acted = settle_action s i dt now o in
    let losses = hp_losses acted.next.vitals dt in
    let drained = drain losses acted in
    (
      action_settled s i dt now o (losses.0 +ℤ losses.1) drained,
      (conclude s dt now o drained.next).1 ++ drained.action_events,
      refl,
      rw (losses_of_concluded s dt now o drained.next)
          (rw (losses_of_drained losses acted dt) (unfold action_settled get in refl)),
    )

-- The loss of health that a settlement reports is the loss that the estimate gives for the returned
-- state and the same minutes.
pub estimate_is_loss :
    (s : AgentStateAggregate) (i : ActionIntent) (d : HeartbeatDelta) (now : Time)
    (o : WorldSnapshot) {r : SettlementResult}
    → pos 0 <ℤ d.minutes
    → settle s i d now o ≡ some r
    → (e : DomainEvent) × (rest : List DomainEvent) × (r.events ≡ e ∷ rest)
      × (reported_loss e ≡ (estimate_hp_drain r.updated_state.vitals d.minutes).estimated_loss)
estimate_is_loss s i d now o {r} p h =
    rw (estimated_loss-eq r.updated_state.vitals d.minutes p)
      (rw (settle-eq-some s i d now o h) (settled_loss s i (pos_part d.minutes) now o))
