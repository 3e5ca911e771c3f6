-- ===== src/Survival/Payload.antt =====
-- internal/domain/survival/service_settlement.go: what the events of a settlement report.
use clawvival.Base.{
  ℤ, pos, ◌+ℤ◌, ◌-ℤ◌, leb_ℤ, ltb_ℤ, eqb_ℤ, String, Bool, not, ◌||◌, Option, none, some, is_none,
  List, [], ◌∷◌, ◌++◌, str_eq, if◌then◌else◌,
}
use clawvival.Base.Text.{to_upper, trim_space}
use clawvival.Base.Dict.{Dict, lookup}
use clawvival.Survival.Value.{
  Value, Values, Fields, int, text, ints, list, obj, end, item, done, field, set,
}
use clawvival.Survival.Types.{Position, DeathCause, ItemAmount, ActionIntent, AgentStateAggregate}
use clawvival.Survival.State.{count_of}

-- `map[string]any{"code": code, "delta": delta}`
pub record Reason : Type 0 where
  pub code : String
  pub delta : ℤ

unfoldable pub append_reason : List Reason → String → ℤ → List Reason
append_reason reasons code delta =
    if eqb_ℤ delta (pos 0) then reasons else reasons ++ record { code = code; delta = delta } ∷ []

-- The value of the target and the reasons afterwards.
unfoldable pub apply_reasoned_delta : ℤ → ℤ → String → List Reason → ℤ × List Reason
unfolding append_reason
apply_reasoned_delta target delta code reasons =
    if eqb_ℤ delta (pos 0)
    then (target, reasons)
    else (target +ℤ delta, append_reason reasons code delta)

unfoldable pub apply_reasoned_hp_delta : ℤ → ℤ → String → List Reason → ℤ × List Reason
unfolding append_reason
apply_reasoned_hp_delta target delta code reasons =
    if eqb_ℤ delta (pos 0)
    then (target, reasons)
    else let raised = target +ℤ delta in
      let after = if ltb_ℤ (pos 100) raised then pos 100 else raised in
      (after, append_reason reasons code (after -ℤ target))

unfoldable pub reasons_value : List Reason → Values
reasons_value [] = end
reasons_value (r ∷ rs) =
    item (obj (field "code" (text r.code) (field "delta" (int r.delta) done))) (reasons_value rs)

unfoldable pub inventory_used_count : Dict ℤ → ℤ
inventory_used_count [] = pos 0
inventory_used_count ((k, n) ∷ m) = (if ltb_ℤ (pos 0) n then n else pos 0) +ℤ inventory_used_count m

top_items : Dict ℤ → Values
top_items [] = end
top_items ((k, n) ∷ m) =
    let rest = top_items m in
    if leb_ℤ n (pos 0)
    then rest
    else item (obj (field "item_type" (text k) (field "count" (int n) done))) rest

unfoldable pub inventory_summary : Dict ℤ → Fields
unfolding inventory_used_count top_items
inventory_summary m =
    field "total_items" (int (inventory_used_count m)) (field "top" (list (top_items m)) done)

-- The keys of both maps, each once: those of `after` that `before` has come from `before`.
has_key : String → Dict ℤ → Bool
has_key k m = not (is_none (lookup k m))

delta_over : Dict ℤ → Dict ℤ → Dict ℤ → Dict ℤ → Dict ℤ
unfolding has_key
delta_over before after seen [] = []
delta_over before after seen ((k, _) ∷ keys) =
    let rest = delta_over before after seen keys in
    let diff = count_of k after -ℤ count_of k before in
    if has_key k seen || eqb_ℤ diff (pos 0) then rest else (k, diff) ∷ rest

unfoldable pub inventory_delta : Dict ℤ → Dict ℤ → Dict ℤ
unfolding delta_over
inventory_delta before after =
    delta_over before after [] before ++ delta_over before after before after

abbrev point : Position → Dict ℤ
point p = ("x", p.x) ∷ ("y", p.y) ∷ []

items_value : List ItemAmount → Values
items_value [] = end
items_value (i ∷ is) =
    item (obj (field "item_type" (text i.item_type) (field "count" (int i.count) done)))
      (items_value is)

abbrev set_if : Bool → String → Value → Fields → Fields
set_if c k v m = if c then set k v m else m

abbrev set_text : String → String → Fields → Fields
set_text k s m = set_if (not (str_eq s "")) k (text s) m

abbrev set_pos : Option Position → Fields → Fields
set_pos none m = m
set_pos (some p) m = set "pos" (ints (point p)) m

abbrev set_items : List ItemAmount → Fields → Fields
set_items [] m = m
set_items is m = set "items" (list (items_value is)) m

-- The fields in the order of the source, innermost first.
unfoldable pub intent_decision_params : ActionIntent → Fields
unfolding items_value set
intent_decision_params i =
    let m = set_text "direction" i.direction done in
    let m = set_text "target_id" i.target_id m in
    let m = set_if (ltb_ℤ (pos 0) i.recipe_id) "recipe_id" (int i.recipe_id) m in
    let m = set_text "object_type" i.object_type m in
    let m = set_pos i.pos m in
    let m = set_text "item_type" i.item_type m in
    let m = set_if (ltb_ℤ (pos 0) i.count) "count" (int i.count) m in
    let m = set_if (ltb_ℤ (pos 0) i.rest_minutes) "rest_minutes" (int i.rest_minutes) m in
    let m = set_text "bed_id" i.bed_id m in
    let m =
      set_if (not (str_eq (trim_space i.bed_quality) "")) "bed_quality"
        (text (to_upper (trim_space i.bed_quality))) m in
    let m = set_text "farm_id" i.farm_id m in
    let m = set_text "container_id" i.container_id m in
    let m = set_items i.items m in
    if not (eqb_ℤ i.dx (pos 0)) || not (eqb_ℤ i.dy (pos 0))
    then set "dy" (int i.dy) (set "dx" (int i.dx) m)
    else m

abbrev pub map_death_cause_for_event : DeathCause → String
map_death_cause_for_event DeathCause.starvation = "STARVATION"
map_death_cause_for_event DeathCause.threat = "THREAT"
map_death_cause_for_event _ = "UNKNOWN"

-- "state_before" and "state_after" of a settled action.
unfoldable pub state_summary : AgentStateAggregate → Fields
unfolding inventory_used_count
state_summary s = field "hp" (int s.vitals.hp) (
    field "hunger" (int s.vitals.hunger) (
      field "energy" (int s.vitals.energy) (
        field "x" (int s.position.x) (
          field "y" (int s.position.y) (
            field "pos" (ints (point s.position))
              (field "inventory_used" (int (inventory_used_count s.inventory)) done))))))

-- The state before and after the last action, as a death reports it.
unfoldable pub last_state : AgentStateAggregate → ℤ → Fields
unfolding inventory_used_count inventory_summary
last_state s seconds = field "hp" (int s.vitals.hp) (
    field "hunger" (int s.vitals.hunger) (
      field "energy" (int s.vitals.energy) (
        field "position" (ints (point s.position)) (
          field "inventory_used" (int (inventory_used_count s.inventory)) (
            field "world_time_seconds" (int seconds)
              (field "inventory_summary" (obj (inventory_summary s.inventory)) done))))))
