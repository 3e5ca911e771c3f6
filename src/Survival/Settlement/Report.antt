-- ===== src/Survival/Settlement/Report.antt =====
-- internal/domain/survival/service_settlement.go: the vitals in the settled event of `Settle`.
use clawvival.Base.{
  ℕ, ℤ, pos, ◌+ℤ◌, ◌-ℤ◌, neg, ◌≡◌, refl, ap, String, some, List, [], ◌∷◌, ◌++◌, arith, int_laws,
  pos_part, ◌≤ℤ◌,
}
use clawvival.Survival.Value.{Value, Values, get, nil, int, list, obj, end, item}
use clawvival.Survival.Types.{
  Time, Vitals, AgentStateAggregate, ActionIntent, HeartbeatDelta, DomainEvent, WorldSnapshot,
  SettlementResult,
}
use clawvival.Survival.State.{mark_dead}
use clawvival.Survival.Payload.{Reason, reasons_value, apply_reasoned_hp_delta}
use clawvival.Survival.Effect.{Work, change_hp}
use clawvival.Survival.Settlement.{
  settle_action, settle_work, settle_minutes, settle, hp_losses, drain, drain_reasons, conclude,
  action_settled,
}
use clawvival.Survival.Settlement.Health.{hp_losses-IsCapped}
use clawvival.Survival.Settlement.Minutes.{settle-eq-some}
use clawvival.Survival.Settlement.Reasons.{
  total, IsExplained, settle_action-IsExplained, total-append_reason,
}

abbrev as_int : Value → ℤ
as_int (int n) = n
as_int _ = pos 0

abbrev as_values : Value → Values
as_values (list vs) = vs
as_values _ = end

abbrev pub under : String → Value → Value
under k (obj m) = get k m
under k _ = nil

-- The field "delta" of each reason of a list, added up.
abbrev sum_deltas : Values → ℤ
sum_deltas end = pos 0
sum_deltas (item v vs) = as_int (under "delta" v) +ℤ sum_deltas vs

-- What the reasons of an event for one of the vitals add up to.
abbrev pub reported : String → DomainEvent → ℤ
reported vital e =
    sum_deltas
      (as_values (under vital (under "vitals_change_reasons" (under "result" (obj e.payload)))))

-- The loss of health that an event reports.
abbrev pub reported_loss : DomainEvent → ℤ
reported_loss e = as_int (under "hp_loss" (under "result" (obj e.payload)))

sum_deltas-reasons : (rs : List Reason) → sum_deltas (reasons_value rs) ≡ total rs
unfolding reasons_value get
sum_deltas-reasons [] = refl
sum_deltas-reasons (r ∷ rs) = ap (λ (t : ℤ). r.delta +ℤ t) (sum_deltas-reasons rs)

reported-settled :
    (s : AgentStateAggregate) (i : ActionIntent) (dt : ℕ) (now : Time) (o : WorldSnapshot) (l : ℤ)
    (w : Work)
    → (reported "hp" (action_settled s i dt now o l w) ≡ total w.hp_reasons)
      × (reported "hunger" (action_settled s i dt now o l w) ≡ total w.hunger_reasons)
      × (reported "energy" (action_settled s i dt now o l w) ≡ total w.energy_reasons)
      × (reported_loss (action_settled s i dt now o l w) ≡ l)
unfolding action_settled get
reported-settled s i dt now o l w = (
  sum_deltas-reasons w.hp_reasons,
  sum_deltas-reasons w.hunger_reasons,
  sum_deltas-reasons w.energy_reasons,
  refl,
)

pub conclude-vitals :
    (s : AgentStateAggregate) (dt : ℕ) (now : Time) (o : WorldSnapshot) (n : AgentStateAggregate)
    → (conclude s dt now o n).0.vitals ≡ n.vitals
unfolding conclude mark_dead
conclude-vitals s dt now o n = ground arith

total-drain_reasons :
    (ls : ℤ × ℤ) (w : Work)
    → pos 0 ≤ℤ ls.0
    → pos 0 ≤ℤ ls.1
    → total (drain_reasons ls w).hp_reasons +ℤ (ls.0 +ℤ ls.1) ≡ total w.hp_reasons
unfolding drain_reasons
total-drain_reasons (a, b) w p q = grind (int_laws, total-append_reason)

-- A change of the health, clamped or not, is reported as it is.
total-change_hp :
    (d : ℤ) (code : String) (w : Work)
    → (change_hp d code w).next.vitals.hp +ℤ total w.hp_reasons
      ≡ w.next.vitals.hp +ℤ total (change_hp d code w).hp_reasons
unfolding change_hp apply_reasoned_hp_delta
total-change_hp d code w = grind (int_laws, total-append_reason)

drain_hp :
    (a b : ℤ) (w : Work) (g : ℤ)
    → w.next.vitals.hp ≡ g +ℤ total w.hp_reasons
    → pos 0 ≤ℤ a
    → pos 0 ≤ℤ b
    → (drain (a, b) w).next.vitals.hp ≡ g +ℤ total (drain (a, b) w).hp_reasons +ℤ (a +ℤ b)
unfolding drain
drain_hp a b w g x p q =
    let kept : (drain_reasons (a, b) w).next.vitals.hp ≡ w.next.vitals.hp =
      unfold drain_reasons in refl in
    grind (
      int_laws,
      total-change_hp (neg (a +ℤ b)) "HP_LOSS_APPLIED" (drain_reasons (a, b) w),
      total-drain_reasons (a, b) w p q,
      kept,
      x,
    )

-- The reasons for the loss name its parts, and then the loss once more.
drain_explained :
    (v : Vitals) (dt : ℕ) (w : Work) (h e g : ℤ)
    → IsExplained h e g w
    → let ls = hp_losses v dt in
      let w' = drain ls w in
      (w'.next.vitals.hunger ≡ h +ℤ total w'.hunger_reasons)
      × (w'.next.vitals.energy ≡ e +ℤ total w'.energy_reasons)
      × (w'.next.vitals.hp ≡ g +ℤ total w'.hp_reasons +ℤ (ls.0 +ℤ ls.1))
unfolding drain drain_reasons change_hp apply_reasoned_hp_delta
drain_explained v dt w h e g x =
    let capped = hp_losses-IsCapped v dt in
    (
      ground (arith, x),
      ground (arith, x),
      drain_hp (hp_losses v dt).0 (hp_losses v dt).1 w g x.hp_explained capped.first_nonneg
          capped.second_nonneg,
    )

change_of : (a b t : ℤ) {q : ℤ} → a ≡ b +ℤ t → q ≡ t → q ≡ a -ℤ b
change_of a b t x y = grind int_laws

change_less_loss : (a b t l : ℤ) {q m : ℤ} → a ≡ b +ℤ t +ℤ l → q ≡ t → m ≡ l → q ≡ a -ℤ b -ℤ m
change_less_loss a b t l x y z = grind int_laws

-- What the settled event says of the change from one state's vitals to another's.
abbrev pub Accounts : Vitals → Vitals → DomainEvent → Type 0
Accounts before after e =
    (e.type ≡ "action_settled")
    × (reported "hunger" e ≡ after.hunger -ℤ before.hunger)
    × (reported "energy" e ≡ after.energy -ℤ before.energy)
    × (reported "hp" e ≡ after.hp -ℤ before.hp -ℤ reported_loss e)

module _ (s : AgentStateAggregate) (i : ActionIntent) (dt : ℕ) (now : Time)
    (o : WorldSnapshot) where
  work-Accounts :
      let (w, loss) = settle_work s i dt now o in
      Accounts s.vitals w.next.vitals (action_settled s i dt now o loss w)
  unfolding settle_work
  work-Accounts =
      let acted = settle_action s i dt now o in
      let (hunger, energy, hp) =
        drain_explained acted.next.vitals dt acted _ _ _ (settle_action-IsExplained s i dt now o) in
      let (w, loss) = settle_work s i dt now o in
      let (hps, hungers, energies, lost) = reported-settled s i dt now o loss w in
      (
        unfold action_settled in refl,
        change_of _ _ _ hunger hungers,
        change_of _ _ _ energy energies,
        change_less_loss _ _ _ _ hp hps lost,
      )

  reports :
      (e : DomainEvent) × (rest : List DomainEvent) × ((settle_minutes s i dt now o).events
        ≡ e ∷ rest)
      × Accounts s.vitals (settle_minutes s i dt now o).updated_state.vitals e
  unfolding settle_minutes
  reports =
      let (w, loss) = settle_work s i dt now o in
      (
        action_settled s i dt now o loss w,
        (conclude s dt now o w.next).1 ++ w.action_events,
        refl,
        rw (conclude-vitals s dt now o w.next) work-Accounts,
      )

-- Every settled event accounts for the change of the vitals. The reasons for hunger and for energy
-- add up to the change of each, whatever the action; those for health add up to the change less the
-- loss, since the parts of the loss are listed beside the loss itself.
pub settle_reports :
    (s : AgentStateAggregate) (i : ActionIntent) (d : HeartbeatDelta) (now : Time)
    (o : WorldSnapshot) {r : SettlementResult}
    → settle s i d now o ≡ some r
    → (e : DomainEvent) × (rest : List DomainEvent) × (r.events ≡ e ∷ rest)
      × Accounts s.vitals r.updated_state.vitals e
settle_reports s i d now o h =
    rw (settle-eq-some s i d now o h) (reports s i (pos_part d.minutes) now o)
