-- ===== src/Shared/Cooldown/Blocking.antt =====
-- internal/app/shared/cooldown: the cooldown after a settlement.
use clawvival.Base.{
  ℕ, ◌-◌, ◌≤◌, ◌<◌, ◌≡◌, refl, ap, ◌∙◌, inl, inr, arith, true, is_some, ltb, ◌&&◌, some, List, [],
  ◌∷◌, ◌++◌, All, All-append, All-imp, if◌then◌else◌, ℤ, str_eq, pos_part,
}
use clawvival.Base.Text.{trim_space}
use clawvival.Survival.Effect.{Work}
use clawvival.Survival.Value.{get}
use clawvival.Survival.Types.{
  Time, ActionType, ActionType_text, AgentStateAggregate, ActionIntent, HeartbeatDelta, DomainEvent,
  WorldSnapshot, SettlementResult,
}
use clawvival.Survival.Tuning.{action_cooldown_durations}
use clawvival.Survival.Settlement.{settle, action_settled, settle_minutes, settle_work, conclude}
use clawvival.Survival.Settlement.Times.{IsAt, settle_minutes-IsAt}
use clawvival.Survival.Settlement.Minutes.{settle-eq-some}
use clawvival.Shared.Cooldown.{is_settled, latest_from, latest_action_at, remaining_for_action}
use clawvival.Shared.Cooldown.Exact.{remaining_for_action_lem, short_duration}

latest_from-grows :
    (last : Time) (es : List DomainEvent) (t : ActionType) → last ≤ latest_from last es t
unfolding latest_from
latest_from-grows last [] t = omega arith
latest_from-grows last (e ∷ es) t =
    ground (arith, latest_from-grows last es t, latest_from-grows e.occurred_at es t)

latest_from-append :
    (last : Time) (xs ys : List DomainEvent) (t : ActionType)
    → latest_from last (xs ++ ys) t ≡ latest_from (latest_from last xs t) ys t
unfolding latest_from
latest_from-append last [] ys t = refl
latest_from-append last (e ∷ es) ys t =
    latest_from-append (if is_settled e t && ltb last e.occurred_at then e.occurred_at else last) es
      ys t

-- A settled action of the type is not after the latest.
latest_from-bounds :
    (last : Time) (e : DomainEvent) (es : List DomainEvent) (t : ActionType)
    → is_settled e t ≡ true
    → e.occurred_at ≤ latest_from last (e ∷ es) t
unfolding latest_from
latest_from-bounds last e es t h =
    ground (arith, h, latest_from-grows last es t, latest_from-grows e.occurred_at es t)

latest_from-past :
    (now last : Time) (es : List DomainEvent) (t : ActionType)
    → last ≤ now
    → All (λ (e : DomainEvent). e.occurred_at ≤ now) es
    → latest_from last es t ≤ now
unfolding latest_from
latest_from-past now last [] t h k = h
latest_from-past now last (e ∷ es) t h k =
    ground
      (arith, latest_from-past now last es t h k.1, latest_from-past now e.occurred_at es t k.0 k.1)

-- The types that have a cooldown have names without outer spaces.
name-trim :
    (t : ActionType) {c : ℕ}
    → action_cooldown_durations t ≡ some c
    → str_eq (trim_space (ActionType_text t)) (ActionType_text t) ≡ true
unfolding trim_space
name-trim ActionType.build h = refl
name-trim ActionType.craft h = refl
name-trim ActionType.farm_plant h = refl
name-trim ActionType.move h = refl
name-trim ActionType.sleep h = refl
name-trim _ h = ground arith

settled_counts :
    (s : AgentStateAggregate) (i : ActionIntent) (dt : ℕ) (at : Time) (o : WorldSnapshot) (l : ℤ)
    (w : Work) {c : ℕ}
    → action_cooldown_durations i.type ≡ some c
    → is_settled (action_settled s i dt at o l w) i.type ≡ true
unfolding is_settled action_settled get
settled_counts s i dt at o l w h = name-trim i.type h

latest-settled :
    (before rest : List DomainEvent) (e : DomainEvent) (t : ActionType)
    → is_settled e t ≡ true
    → e.occurred_at ≤ latest_action_at (before ++ e ∷ rest) t
unfolding latest_action_at
latest-settled before rest e t h =
    rw (latest_from-append 0 before (e ∷ rest) t)
      (latest_from-bounds (latest_from 0 before t) e rest t h)

barred :
    (events : List DomainEvent) (t : ActionType) (at now : Time) {c : ℕ}
    → action_cooldown_durations t ≡ some c
    → 0 < at
    → at ≤ latest_action_at events t
    → latest_action_at events t ≤ now
    → now - at < c
    → is_some (remaining_for_action events t now) ≡ true
barred events t at now {c} h begun settled past early =
    let short = short_duration t c h in
    elim (remaining_for_action_lem events t now h (omega arith) past (omega arith)) [
      | inl (over, e) ↦ absurd (omega arith)
      | inr (ahead, left) ↦ rw left.1 refl
    ]

first_event :
    (s : AgentStateAggregate) (i : ActionIntent) (dt : ℕ) (at : Time) (o : WorldSnapshot)
    → (rest : List DomainEvent) × ((settle_minutes s i dt at o).events
        ≡ action_settled s i dt at o (settle_work s i dt at o).1 (settle_work s i dt at o).0 ∷ rest)
unfolding settle_minutes
first_event s i dt at o =
    let (w, loss) = settle_work s i dt at o in
    ((conclude s dt at o w.next).1 ++ w.action_events, refl)

stamped_at :
    (s : AgentStateAggregate) (i : ActionIntent) (dt : ℕ) (at : Time) (o : WorldSnapshot) (l : ℤ)
    (w : Work)
    → (action_settled s i dt at o l w).occurred_at ≡ at
unfolding action_settled
stamped_at s i dt at o l w = refl

settled_by :
    (s : AgentStateAggregate) (i : ActionIntent) (dt : ℕ) (at : Time) (o : WorldSnapshot)
    (now : Time)
    → at ≤ now
    → All (λ (e : DomainEvent). e.occurred_at ≤ now) (settle_minutes s i dt at o).events
settled_by s i dt at o now since =
    All-imp (IsAt at) (λ (e : DomainEvent). e.occurred_at ≤ now) (settle_minutes s i dt at o).events
      (λ e h. rw h since) (settle_minutes-IsAt s i dt at o)

-- A settlement of an action whose type has a cooldown bars that type until the cooldown is over,
-- whatever happened before it.
pub settle_bars :
    (s : AgentStateAggregate) (i : ActionIntent) (d : HeartbeatDelta) (at now : Time)
    (o : WorldSnapshot) (before : List DomainEvent) {r : SettlementResult} {c : ℕ}
    → settle s i d at o ≡ some r
    → action_cooldown_durations i.type ≡ some c
    → 0 < at
    → at ≤ now
    → All (λ (e : DomainEvent). e.occurred_at ≤ now) before
    → now - at < c
    → is_some (remaining_for_action (before ++ r.events) i.type now) ≡ true
unfolding action_settled
settle_bars s i d at now o before {r} settles cools begun since past early =
    let dt = pos_part d.minutes in
    let (w, loss) = settle_work s i dt at o in
    let (rest, events) = first_event s i dt at o in
    let first : r.events ≡ action_settled s i dt at o loss w ∷ rest =
      ap (λ (q : SettlementResult). q.events) (settle-eq-some s i d at o settles) ∙ events in
    let counted =
      latest-settled before rest (action_settled s i dt at o loss w) i.type
        (settled_counts s i dt at o loss w cools) in
    let latest : at ≤ latest_action_at (before ++ r.events) i.type =
      rw first (rw (stamped_at s i dt at o loss w) at counted) in
    let recent =
      All-append (λ (e : DomainEvent). e.occurred_at ≤ now) before r.events past
        (rw (settle-eq-some s i d at o settles) (settled_by s i dt at o now since)) in
    barred (before ++ r.events) i.type at now cools begun latest
      (unfold latest_action_at in
        latest_from-past now 0 (before ++ r.events) i.type (omega arith) recent)
      early
