-- ===== src/Shared/Tests.antt =====
-- The theorems on what the use cases share, at inputs that meet their hypotheses.
use clawvival.Base.{
  ℕ, ◌-◌, ◌*◌, ◌+◌, ◌≤◌, ◌<◌, pos, ◌≡◌, ◌⊎◌, refl, arith, true, false, none, some, List, [], ◌∷◌,
  is_some,
}
use clawvival.Base.Text.{trim_space}
use clawvival.Survival.Value.{get}
use clawvival.Survival.Types.{ActionType, DomainEvent}
use clawvival.Survival.Tuning.{second, minute}
use clawvival.Survival.Samples.{starving, building, half_hour, daytime, settled, settles}
use clawvival.Survival.Settlement.Report.{reported_loss}
use clawvival.Shared.Stateview.{enrich, estimate_hp_drain}
use clawvival.Shared.Stateview.Laws.{enrich_idem, estimate_is_loss}
use clawvival.Shared.Cooldown.{
  event_for_intent, is_settled, latest_from, latest_action_at, remaining_for_action,
}
use clawvival.Shared.Cooldown.Exact.{remaining_for_action_lem}
use clawvival.Shared.Cooldown.Blocking.{settle_bars}

enriched_twice :
    enrich (enrich starving "night" false) "night" false ≡ enrich starving "night" false
enriched_twice = enrich_idem starving "night" false

estimate_is_loss_example :
    (e : DomainEvent) × (rest : List DomainEvent) × (settled.events ≡ e ∷ rest)
    × (reported_loss e ≡ (estimate_hp_drain settled.updated_state.vitals (pos 30)).estimated_loss)
estimate_is_loss_example =
    estimate_is_loss starving building half_hour 2000 daytime (omega arith) settles

-- A move, and then a build.
abbrev moved_built : List DomainEvent
moved_built =
    event_for_intent ActionType.move (7 * second)
    ∷ event_for_intent ActionType.build (9 * second)
    ∷ []

latest_move : latest_action_at moved_built ActionType.move ≡ 7 * second
unfolding latest_action_at latest_from is_settled event_for_intent get trim_space
latest_move = refl

remaining_for_action_lem_example :
    let since = 30 * second - latest_action_at moved_built ActionType.move in
    (1 * minute ≤ since) × (remaining_for_action moved_built ActionType.move (30 * second) ≡ none)
    ⊎ (since < 1 * minute)
      × ((n : ℕ) × (remaining_for_action moved_built ActionType.move (30 * second) ≡ some n)
          × (1 * minute - since ≤ n * second)
          × (n * second < 1 * minute - since + second))
remaining_for_action_lem_example =
    remaining_for_action_lem moved_built ActionType.move (30 * second) refl
      (rw latest_move (omega arith)) (rw latest_move (omega arith)) (rw latest_move (omega arith))

move_past : (event_for_intent ActionType.move 1500).occurred_at ≤ 2000 + minute
unfolding event_for_intent
move_past = omega arith

settle_bars_example :
    is_some (
      remaining_for_action
        (event_for_intent ActionType.move 1500 ∷ settled.events)
        ActionType.build
        (2000 + minute))
    ≡ true
settle_bars_example =
    settle_bars starving building half_hour 2000 (2000 + minute) daytime
      (event_for_intent ActionType.move 1500 ∷ []) settles refl (omega arith) (omega arith)
      (move_past, tt) (omega arith)
