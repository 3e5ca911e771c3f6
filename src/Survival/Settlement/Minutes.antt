-- ===== src/Survival/Settlement/Minutes.antt =====
-- internal/domain/survival/service_settlement.go: the refusal of `Settle`.
use clawvival.Base.{pos, pos_part, ◌≡◌, ◌↔◌, none, some, ◌≤ℤ◌, arith}
use clawvival.Survival.Types.{
  Time, AgentStateAggregate, ActionIntent, HeartbeatDelta, WorldSnapshot, SettlementResult,
}
use clawvival.Survival.Settlement.{settle, settle_minutes}

module _ (s : AgentStateAggregate) (i : ActionIntent) (d : HeartbeatDelta) (now : Time)
    (o : WorldSnapshot) where
  pub settle-eq-some :
      {r : SettlementResult}
      → settle s i d now o ≡ some r
      → r ≡ settle_minutes s i (pos_part d.minutes) now o
  unfolding settle
  settle-eq-some h = ground arith

  pub settle-eq-none : (settle s i d now o ≡ none) ↔ (d.minutes ≤ℤ pos 0)
  unfolding settle
  settle-eq-none = (λ h. ground arith, λ h. ground arith)
