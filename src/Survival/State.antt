-- ===== src/Survival/State.antt =====
-- internal/domain/survival/state_entity.go: what an agent carries, and its death; and the sessions.
pub mod Counts
use clawvival.Base.{
  ℕ, ℤ, pos, ◌+ℤ◌, ◌-ℤ◌, leb_ℤ, ltb_ℤ, String, Bool, true, false, ◌||◌, Option, none, some, str_eq,
  if◌then◌else◌,
}
use Prim.Native.String.{◌++◌}
use clawvival.Base.Duration.{wrap}
use clawvival.Base.Dict.{Dict, lookup, insert}
use clawvival.Survival.Types.{Time, AgentStateAggregate, DeathCause}

-- `m[k]` of a map of counts: a missing key reads as zero.
abbrev pub or_zero : Option ℤ → ℤ
or_zero none = pos 0
or_zero (some n) = n

unfoldable pub count_of : String → Dict ℤ → ℤ
count_of k m = or_zero (lookup k m)

-- `AddItem` and `ConsumeItem`, on the inventory that they change. A sum of counts wraps around as
-- an `int` does; what is left of a count that is enough fits.
unfoldable pub add_item : String → ℤ → Dict ℤ → Dict ℤ
add_item item amount inventory =
    if leb_ℤ amount (pos 0) || str_eq item ""
    then inventory
    else insert item (wrap (count_of item inventory +ℤ amount)) inventory

unfoldable pub consume_item : String → ℤ → Dict ℤ → Dict ℤ × Bool
consume_item item amount inventory =
    if leb_ℤ amount (pos 0) || str_eq item ""
    then (inventory, false)
    else if ltb_ℤ (count_of item inventory) amount
    then (inventory, false)
    else (insert item (count_of item inventory -ℤ amount) inventory, true)

abbrev or_unknown : DeathCause → DeathCause
or_unknown DeathCause.empty = DeathCause.unknown
or_unknown cause = cause

unfoldable pub mark_dead : DeathCause → AgentStateAggregate → AgentStateAggregate
mark_dead cause s = record s { dead = true; death_cause = or_unknown cause }

pub data SessionStatus : Type 0 where
  alive dead : SessionStatus

pub record AgentSession : Type 0 where
  pub id : String
  pub agent_id : String
  pub start_tick : ℤ
  pub ended_at : Option Time
  pub status : SessionStatus
  pub death_cause : DeathCause

-- `NewSession`
unfoldable pub new_session : String → ℤ → AgentSession
new_session agent_id start_tick = record {
  id = "session-" ++ agent_id;
  agent_id = agent_id;
  start_tick = start_tick;
  ended_at = none;
  status = SessionStatus.alive;
  death_cause = DeathCause.empty;
}

-- `Close` at a time.
unfoldable pub close_session : DeathCause → Time → AgentSession → AgentSession
close_session cause now s = record s {
  ended_at = some now;
  status = SessionStatus.dead;
  death_cause = or_unknown cause;
}
