-- ===== src/Shared/Depletion.antt =====
-- internal/app/shared/resourcestate: the targets of gathering, and how long they stay empty.
use clawvival.Base.{
  ℕ, ◌*◌, ◌/◌, ◌==◌, ltb, ℤ, pos, ◌-ℤ◌, leb_ℤ, pos_part, String, str_eq, Bool, not, Option, none,
  some, List, [], ◌∷◌, if◌then◌else◌,
}
use clawvival.Base.Text.{trim_space, normal}
use clawvival.Base.Dict.{Dict, lookup, insert}
use clawvival.Base.Duration.{wrap, sub_time}
use clawvival.Survival.Value.{Value, nil, text, Fields, get, as_obj}
use clawvival.Survival.Types.{Time, DomainEvent}
use clawvival.Survival.Tuning.{second, minute, default_respawn_minutes, resource_respawn_durations}

pub record ResourceTarget : Type 0 where
  pub x : ℤ
  pub y : ℤ
  pub resource : String

-- What `Sscanf` reads by the format of a target: the prefix, the two numbers and the resource.
abbrev pub Scan : Type 0
Scan = String → Option (String × ℤ × ℤ × String)

unfoldable pub target_of : Option (String × ℤ × ℤ × String) → Option ResourceTarget
target_of none = none
target_of (some (prefix, x, y, word)) =
    let resource = normal word in
    if not (str_eq prefix "res")
    then none
    else if str_eq resource ""
    then none
    else some (record { x = x; y = y; resource = resource })

unfoldable pub parse_resource_target_id : Scan → String → Option ResourceTarget
unfolding target_of
parse_resource_target_id scan target_id = target_of (scan (trim_space target_id))

abbrev or_default : Option ℕ → ℕ
or_default none = default_respawn_minutes * minute
or_default (some d) = d

unfoldable pub respawn_duration : String → ℕ
unfolding resource_respawn_durations
respawn_duration resource = or_default (resource_respawn_durations (normal resource))

-- `fmt.Sprint(v)`. What it prints of a value that is neither a text nor nil names no target and no
-- action.
abbrev pub sprint : Value → String
sprint (text s) = s
sprint nil = "<nil>"
sprint _ = ""

named : String → Option ResourceTarget → Option (String × String)
named target_id none = none
named target_id (some target) = some (target_id, target.resource)

of_params : Scan → Option Fields → Option (String × String)
unfolding named
of_params scan none = none
of_params scan (some params) =
    let target_id = trim_space (sprint (get "target_id" params)) in
    if str_eq target_id "" then none else named target_id (parse_resource_target_id scan target_id)

of_decision : Scan → Option Fields → Option (String × String)
unfolding of_params
of_decision scan none = none
of_decision scan (some decision) =
    if not (str_eq (trim_space (sprint (get "intent" decision))) "gather")
    then none
    else of_params scan (as_obj (get "params" decision))

-- The target and the resource of a gather that was settled.
unfoldable pub gather_target_from_event : Scan → DomainEvent → Option (String × String)
unfolding of_decision
gather_target_from_event scan event =
    if not (str_eq event.type "action_settled")
    then none
    else of_decision scan (as_obj (get "decision" event.payload))

-- The two maps of the loop: when a target was last gathered, and how long it then stays empty.
abbrev pub Gathered : Type 0
Gathered = Dict (Time × ℕ)

unfoldable pub is_later : Time → Option (Time × ℕ) → Bool
is_later at none = Bool.true
is_later at (some (last, respawn)) = ltb last at

unfoldable pub note_gather : DomainEvent → Option (String × String) → Gathered → Gathered
note_gather event none seen = seen
note_gather event (some (target, resource)) seen =
    let target_id = trim_space target in
    if is_later event.occurred_at (lookup target_id seen)
    then insert target_id (event.occurred_at, respawn_duration resource) seen
    else seen

unfoldable pub latest_gathers : Scan → List DomainEvent → Gathered → Gathered
latest_gathers scan [] seen = seen
latest_gathers scan (event ∷ events) seen =
    latest_gathers scan events (note_gather event (gather_target_from_event scan event) seen)

-- `int(remaining.Seconds())` of a positive duration, and one at least.
abbrev pub whole_seconds : ℤ → ℤ
whole_seconds remaining = let n = pos_part remaining / second in if n == 0 then pos 1 else pos n

unfoldable pub still_empty : Gathered → Time → Dict ℤ → Dict ℤ
still_empty [] now out = out
still_empty ((target_id, (gathered_at, respawn)) ∷ seen) now out =
    let remaining = wrap (pos respawn -ℤ sub_time now gathered_at) in
    still_empty seen now
      (if leb_ℤ remaining (pos 0) then out else insert target_id (whole_seconds remaining) out)

unfoldable pub depleted_targets : Scan → List DomainEvent → Time → Dict ℤ
depleted_targets scan events now = still_empty (latest_gathers scan events []) now []
