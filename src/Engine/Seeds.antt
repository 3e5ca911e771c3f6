-- ===== src/Engine/Seeds.antt =====
-- internal/app/action/action_gather.go: the seed that is granted after a row of gathers without one.
use clawvival.Base.{
  ℕ, suc, ℤ, pos, ◌-ℤ◌, ltb_ℤ, String, str_eq, Bool, true, false, not, Option, none, some, List, [],
  ◌∷◌, ◌++◌, if◌then◌else◌,
}
use clawvival.Base.Text.{trim_space}
use clawvival.Base.Dict.{Dict}
use clawvival.Survival.Value.{Value, Fields, int, text, bool, obj, get, set, as_obj, done, field}
use clawvival.Survival.Types.{
  ActionType, AgentStateAggregate, ActionIntent, DomainEvent, SettlementResult,
}
use clawvival.Survival.Tuning.{seed_pity_max_fails}
use clawvival.Survival.State.{count_of, add_item}
use clawvival.Shared.Depletion.{sprint}
use clawvival.Ports.{Result, returned, raised, EventRepository}
use clawvival.Engine.Intent.{same_type}

abbrev or_empty : Option Fields → Fields
or_empty none = done
or_empty (some m) = m

-- The result of the first settled action is changed.
unfoldable pub with_settled_result : (Fields → Fields) → List DomainEvent → List DomainEvent
with_settled_result change [] = []
with_settled_result change (event ∷ events) =
    if str_eq event.type "action_settled"
    then record event {
      payload =
          set "result" (obj (change (or_empty (as_obj (get "result" event.payload)))))
            event.payload;
    }
      ∷ events
    else event ∷ with_settled_result change events

abbrev seed_report : Bool → Bool → Fields → Fields
seed_report gained pity result =
    set "seed_pity_triggered" (bool pity) (set "seed_gained" (bool gained) result)

abbrev is_gained : Value → Bool
is_gained (bool b) = b
is_gained _ = false

-- What an event says of the row of failures: it is passed over, ends it, or makes it longer.
pub data Tally : Type 0 where
  passed ends counts : Tally

tally_result : Option Fields → Tally
tally_result none = ends
tally_result (some result) = if is_gained (get "seed_gained" result) then ends else counts

tally_decision : Option Fields → Option Fields → Tally
unfolding tally_result
tally_decision none result = passed
tally_decision (some decision) result =
    if not (str_eq (trim_space (sprint (get "intent" decision))) "gather")
    then passed
    else tally_result result

unfoldable pub tally : DomainEvent → Tally
unfolding tally_decision
tally event =
    if not (str_eq event.type "action_settled")
    then passed
    else tally_decision (as_obj (get "decision" event.payload))
        (as_obj (get "result" event.payload))

-- The failures from the head of the list, which is the latest event.
unfoldable pub count_fails : List DomainEvent → ℕ
count_fails [] = 0
count_fails (event ∷ events) = elim (tally event) [
  | passed ↦ count_fails events
  | ends ↦ 0
  | counts ↦ suc (count_fails events)
]

fails_in : Result (List DomainEvent) → ℤ
fails_in (raised e) = pos 0
fails_in (returned events) = pos (count_fails events)

unfoldable pub consecutive_gather_seed_fails : {S : Type 0} → EventRepository S → String → S → ℤ
unfolding fails_in
consecutive_gather_seed_fails repo agent_id s =
    fails_in (repo.list_by_agent_id agent_id (pos 100) s)

abbrev put_inventory : Dict ℤ → AgentStateAggregate → AgentStateAggregate
put_inventory m state = record state { inventory = m }

unfoldable pub grant_seed : String → SettlementResult → SettlementResult
grant_seed agent_id r = record r {
  updated_state = put_inventory (add_item "seed" (pos 1) r.updated_state.inventory) r.updated_state;
  events =
      with_settled_result (seed_report true true) r.events
      ++ record {
        type = "seed_pity_triggered";
        occurred_at = r.updated_state.updated_at;
        payload = field "agent_id" (text agent_id) (field "granted" (int (pos 1)) done);
      }
        ∷ [];
}

unfoldable pub seed_gained : AgentStateAggregate → AgentStateAggregate → Bool
seed_gained before after =
    ltb_ℤ (count_of "seed" before.inventory) (count_of "seed" after.inventory)

-- A gather by which no seed was gained, after a row of such, is granted one.
unfoldable pub apply_seed_pity_if_needed :
    {S : Type 0}
    → EventRepository S
    → String
    → ActionIntent
    → AgentStateAggregate
    → S
    → SettlementResult
    → SettlementResult
apply_seed_pity_if_needed repo agent_id i before s r =
    let gained = seed_gained before r.updated_state in
    let told = record r { events = with_settled_result (seed_report gained false) r.events } in
    if not (same_type i.type ActionType.gather)
    then r
    else if gained
    then told
    else if ltb_ℤ (consecutive_gather_seed_fails repo agent_id s) (seed_pity_max_fails -ℤ pos 1)
    then told
    else grant_seed agent_id told
