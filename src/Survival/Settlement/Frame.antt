-- ===== src/Survival/Settlement/Frame.antt =====
-- internal/domain/survival/service_settlement.go: the fields that are outside the actions of
-- `Settle`.
use clawvival.Base.{ℕ, ℤ, ◌≡◌, String, arith}
use clawvival.Survival.Types.{Time, AgentStateAggregate, ActionIntent, WorldSnapshot}
use clawvival.Survival.Effect.{Work, change_hunger, change_energy, change_hp, eat_for}
use clawvival.Survival.Effect.Preserve.{Keeps, act_keeps}
use clawvival.Survival.Settlement.{settle_action, start}

-- Identity, home, capacity, death and the ongoing action are those of the state.
pub record IsFramed (s : AgentStateAggregate) (w : Work) : Type 0 where
  pub same_agent : w.next.agent_id ≡ s.agent_id
  pub same_session : w.next.session_id ≡ s.session_id
  pub same_home : w.next.home ≡ s.home
  pub same_capacity : w.next.inventory_capacity ≡ s.inventory_capacity
  pub same_dead : w.next.dead ≡ s.dead
  pub same_cause : w.next.death_cause ≡ s.death_cause
  pub same_ongoing : w.next.ongoing_action ≡ s.ongoing_action
  pub same_version : w.next.version ≡ s.version
  pub same_updated : w.next.updated_at ≡ s.updated_at

change_hunger-IsFramed :
    (s : AgentStateAggregate) (d : ℤ) (code : String) (w : Work)
    → IsFramed s w
    → IsFramed s (change_hunger d code w)
unfolding change_hunger
change_hunger-IsFramed s d code w x = ground (arith, x)

framed : (now : Time) (s : AgentStateAggregate) → Keeps now (IsFramed s)
unfolding change_energy change_hp eat_for
framed now s = record {
  hunger = change_hunger-IsFramed s;
  energy = λ d code w x. ground (arith, x);
  health = λ d code w _ x. ground (arith, x);
  bag = λ m w x. ground (arith, x);
  place = λ dx dy w x. ground (arith, x);
  built = λ b w x. ground (arith, x);
  fed = λ i w x. ground (arith, x);
}

-- The action of a settlement changes the time stamp, and nothing else of the frame.
pub settle_action-IsFramed :
    (s : AgentStateAggregate) (i : ActionIntent) (dt : ℕ) (now : Time) (o : WorldSnapshot)
    → IsFramed (record s { updated_at = now }) (settle_action s i dt now o)
unfolding settle_action
settle_action-IsFramed s i dt now o =
    act_keeps (framed now _) i.type i dt o _
      (change_hunger-IsFramed _ _ _ (start s now) (ground arith))
