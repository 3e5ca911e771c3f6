-- ===== src/Survival/Settlement/Times.antt =====
-- internal/domain/survival/service_settlement.go: the times of the events of `Settle`.
use clawvival.Base.{ℕ, pos, leb_ℤ, ◌≡◌, refl, Bool-cases, inl, inr, All, All-append, All-imp}
use clawvival.Survival.Types.{Time, AgentStateAggregate, ActionIntent, DomainEvent, WorldSnapshot}
use clawvival.Survival.Tuning.{critical_hp_threshold}
use clawvival.Survival.Settlement.{
  settle_work, settle_minutes, conclude, action_settled, game_over_event,
}
use clawvival.Survival.Settlement.Events.{IsBuilt, settle_work-IsBuilt}

abbrev pub IsAt : Time → DomainEvent → Type 0
IsAt now e = e.occurred_at ≡ now

module _ (s : AgentStateAggregate) (i : ActionIntent) (dt : ℕ) (now : Time)
    (o : WorldSnapshot) where
  conclude-IsAt : (n : AgentStateAggregate) → All (IsAt now) (conclude s dt now o n).1
  unfolding conclude game_over_event
  conclude-IsAt n = elim (Bool-cases (leb_ℤ n.vitals.hp (pos 0))) [
    | inl dies ↦ rw dies (refl, tt)
    | inr lives ↦ elim (Bool-cases (leb_ℤ n.vitals.hp critical_hp_threshold)) [
      | inl critical ↦ rw (lives, critical) (refl, (refl, tt))
      | inr healthy ↦ rw (lives, healthy) tt
    ]
  ]

  pub settle_minutes-IsAt : All (IsAt now) (settle_minutes s i dt now o).events
  unfolding settle_minutes action_settled
  settle_minutes-IsAt =
      let (w, loss) = settle_work s i dt now o in
      (
        refl,
        All-append (IsAt now) (conclude s dt now o w.next).1 w.action_events (conclude-IsAt w.next)
            (All-imp (IsBuilt now) (IsAt now) w.action_events (λ e h. h.1)
              (settle_work-IsBuilt s i dt now o)),
      )
