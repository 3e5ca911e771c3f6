-- ===== src/Gorm/Sleeping.antt =====
-- internal/adapter/repo/gorm/state_repo.go with internal/app/action/engine_common.go: the action that
-- goes on, loaded from the table, has no bed.
use clawvival.Base.{◌≡◌, refl, sym, ap, ◌∙◌, arith, String, some}
use clawvival.Survival.Types.{AgentStateAggregate, OngoingActionInfo}
use clawvival.Base.Text.{trim_space, to_upper}
use clawvival.Survival.Effect.{sleep_recovery_by_quality}
use clawvival.Ports.{returned}
use clawvival.Engine.Finalize.{ongoing_intent}
use clawvival.Gorm.Table.{Table, Answer, answered, record_not_found, broken, or_not_found}
use clawvival.Gorm.Rows.{AgentStateRow}
use clawvival.Gorm.States.{InventoryJson, agent_row, get_state, state_of, decode_ongoing_action}

decoded-quality :
    (json : InventoryJson) (agent_id : String) (m : AgentStateRow) {ongoing : OngoingActionInfo}
    → (state_of json agent_id m).ongoing_action ≡ some ongoing
    → ongoing.quality ≡ ""
unfolding state_of decode_ongoing_action
decoded-quality json agent_id m h = ground arith

intent-quality :
    (ongoing : OngoingActionInfo) → ongoing.quality ≡ "" → (ongoing_intent ongoing).bed_quality ≡ ""
unfolding ongoing_intent
intent-quality ongoing h = ground arith

or_not_found-returned :
    {A B : Type 0} (f : A → B) (a : Answer A) {b : B}
    → or_not_found f a ≡ returned b
    → (x : A) × (b ≡ f x)
or_not_found-returned f (answered x) h = (x, cc h)
or_not_found-returned f record_not_found h = absurd (cc h)
or_not_found-returned f (broken e) h = absurd (cc h)

-- An action that goes on, in a state that was loaded from the table, is finished without the quality
-- of a bed: a sleep recovers what it does on a bed that is not good.
pub get-sleep_recovery :
    {S : Type 0} (db : Table S AgentStateRow) (json : InventoryJson) (agent_id : String) (s : S)
    {state : AgentStateAggregate} {ongoing : OngoingActionInfo}
    → get_state db json agent_id s ≡ returned state
    → state.ongoing_action ≡ some ongoing
    → ((ongoing_intent ongoing).bed_quality ≡ "")
      × (sleep_recovery_by_quality (ongoing_intent ongoing).bed_quality
          ≡ sleep_recovery_by_quality "ROUGH")
unfolding get_state sleep_recovery_by_quality trim_space to_upper
get-sleep_recovery db json agent_id s {state} {ongoing} h busy =
    let (m, e) =
      or_not_found-returned (state_of json agent_id) (db.first (agent_row agent_id) s) h in
    let none_good : ongoing.quality ≡ "" =
      decoded-quality json agent_id m
        (sym (ap (λ (x : AgentStateAggregate). x.ongoing_action) e) ∙ busy) in
    let quality = intent-quality ongoing none_good in (quality, rw quality refl)
