-- ===== src/Engine/Checks.antt =====
-- internal/app/action/action_common.go, action_gather.go and action_craft_eat.go: what is checked
-- before an action settles.
use clawvival.Base.{
  ℕ, ◌+◌, ltb, ℤ, pos, ◌+ℤ◌, ◌-ℤ◌, leb_ℤ, ltb_ℤ, eqb_ℤ, abs, String, str_eq, Bool, true, false, not,
  ◌&&◌, ◌||◌, Option, none, some, List, [], ◌∷◌, if◌then◌else◌,
}
use clawvival.Base.Text.{trim_space, equal_fold, normal}
use clawvival.Base.Duration.{sub_time}
use clawvival.Survival.Types.{
  Time, Position, ActionType, AgentStateAggregate, ActionIntent, DomainEvent,
}
use clawvival.Survival.Tuning.{action_night_vision_radius}
use clawvival.Survival.Rules.{FoodId, BuildKind, kind_number}
use clawvival.Survival.State.{count_of}
use clawvival.Survival.Production.{craft_requirements, can_eat, can_build_object_type}
use clawvival.World.Types.{Tile, Snapshot}
use clawvival.Shared.Cooldown.{remaining_for_action}
use clawvival.Shared.Depletion.{
  Scan, ResourceTarget, parse_resource_target_id, whole_seconds, respawn_duration,
}
use clawvival.Ports.{
  Error, Result, returned, raised, AgentResourceNodeRecord, AgentResourceNodeRepository,
  AgentSessionRepository, WorldObjectRecord, WorldObjectRepository,
}
use clawvival.Ports.Monad.{Tx, ◌>>◌, pure_step, writes, skip}
use clawvival.Engine.Context.{ActionContext, UseCase}
use clawvival.Engine.Intent.{same_type, food_id_from_item_type, build_kind_from_object_type}

abbrev pub ensure : Bool → Error → Result (Unit {0})
ensure true e = returned tt
ensure false e = raised e

cooled : ActionType → Option ℕ → Result (Unit {0})
cooled t none = returned tt
cooled t (some remaining) = raised (Error.action_cooldown_active t remaining)

unfoldable pub ensure_cooldown_ready : List DomainEvent → ActionType → Time → Result (Unit {0})
unfolding cooled
ensure_cooldown_ready events t now = cooled t (remaining_for_action events t now)

-- The first visible tile at a position.
unfoldable pub tile_at : List Tile → ℤ → ℤ → Option Tile
tile_at [] x y = none
tile_at (t ∷ ts) x y = if eqb_ℤ t.x x && eqb_ℤ t.y y then some t else tile_at ts x y

unfoldable pub holds : String → Option Tile → Result (Unit {0})
holds resource none = raised Error.target_not_visible
holds resource (some tile) =
    if not (str_eq resource "") && not (equal_fold (trim_space tile.resource) (trim_space resource))
    then raised Error.action_precondition_failed
    else returned tt

abbrev pub radius_of : Snapshot → ℤ
radius_of snapshot = if leb_ℤ snapshot.view_radius (pos 0) then pos 5 else snapshot.view_radius

unfoldable pub beyond : Position → ℤ → ResourceTarget → Bool
beyond center radius t =
    ltb_ℤ t.x (center.x -ℤ radius)
    || ltb_ℤ (center.x +ℤ radius) t.x
    || ltb_ℤ t.y (center.y -ℤ radius)
    || ltb_ℤ (center.y +ℤ radius) t.y

unfoldable pub in_the_dark : Position → Snapshot → ResourceTarget → Bool
in_the_dark center snapshot t =
    equal_fold snapshot.time_of_day "night"
    && ltb_ℤ action_night_vision_radius (pos (abs (t.x -ℤ center.x) + abs (t.y -ℤ center.y)))

unfoldable pub sighted : Position → Snapshot → Option ResourceTarget → Result (Unit {0})
unfolding tile_at holds beyond in_the_dark
sighted center snapshot none = raised Error.action_precondition_failed
sighted center snapshot (some t) =
    if beyond center (radius_of snapshot) t
    then raised Error.target_out_of_view
    else if in_the_dark center snapshot t
    then raised Error.target_not_visible
    else holds t.resource (tile_at snapshot.visible_tiles t.x t.y)

-- A gather with a target is checked; nothing else is.
abbrev pub has_gather_target : ActionIntent → Bool
has_gather_target i = same_type i.type ActionType.gather && not (str_eq (trim_space i.target_id) "")

unfoldable pub validate_target_visibility :
    Scan → Position → ActionIntent → Snapshot → Result (Unit {0})
unfolding sighted
validate_target_visibility scan center i snapshot =
    if not (has_gather_target i)
    then returned tt
    else sighted center snapshot (parse_resource_target_id scan i.target_id)

-- The seconds that a node stays empty, if it is empty now.
unfoldable pub node_is_full : String → Time → Result AgentResourceNodeRecord → Result (Unit {0})
node_is_full target_id now (raised Error.not_found) = returned tt
node_is_full target_id now (raised e) = raised e
node_is_full target_id now (returned node) =
    if not (ltb now node.depleted_until)
    then returned tt
    else raised
        (Error.resource_depleted target_id (whole_seconds (sub_time node.depleted_until now)))

needs_furnace_among : List String → Bool
needs_furnace_among [] = false
needs_furnace_among (r ∷ rs) = equal_fold (trim_space r) "FURNACE" || needs_furnace_among rs

unfoldable pub needs_furnace : ℤ → Bool
unfolding needs_furnace_among
needs_furnace recipe_id = needs_furnace_among (craft_requirements recipe_id)

furnace_among : List WorldObjectRecord → Bool
furnace_among [] = false
furnace_among (o ∷ os) =
    (equal_fold (trim_space o.object_type) "furnace"
      || eqb_ℤ o.kind (kind_number BuildKind.furnace))
    || furnace_among os

furnace_in : Result (List WorldObjectRecord) → Bool
unfolding furnace_among
furnace_in (raised e) = false
furnace_in (returned objects) = furnace_among objects

eats : AgentStateAggregate → ActionIntent → Option FoodId → Bool
eats state i none = false
eats state i (some food) =
    can_eat state.inventory food
    && leb_ℤ (if leb_ℤ i.count (pos 0) then pos 1 else i.count)
        (count_of (normal i.item_type) state.inventory)

unfoldable pub eat_preconditions_satisfied : AgentStateAggregate → ActionIntent → Bool
unfolding eats
eat_preconditions_satisfied state i =
    not (same_type i.type ActionType.eat) || eats state i (food_id_from_item_type i.item_type)

known_kind : Option BuildKind → Bool
known_kind none = false
known_kind (some _) = true

unfoldable pub build_preconditions_satisfied : AgentStateAggregate → ActionIntent → Bool
unfolding known_kind
build_preconditions_satisfied state i =
    not (same_type i.type ActionType.build)
    || (known_kind (build_kind_from_object_type i.object_type)
        && can_build_object_type state.inventory i.object_type)

module _ {S : Type 0} where
  unfoldable pub has_usable_furnace : Option (WorldObjectRepository S) → String → S → Bool
  unfolding furnace_in
  has_usable_furnace none agent_id s = false
  has_usable_furnace (some repo) agent_id s =
      not (str_eq (trim_space agent_id) "") && furnace_in (repo.list_objects agent_id s)

  unfoldable pub validate_gather_target_state :
      Option (AgentResourceNodeRepository S) → String → ActionIntent → Time → S → Result (Unit {0})
  validate_gather_target_state none agent_id i now s = returned tt
  validate_gather_target_state (some repo) agent_id i now s =
      if not (has_gather_target i)
      then returned tt
      else node_is_full i.target_id now (repo.get_by_target_id agent_id (trim_space i.target_id) s)

  upsert_node :
      AgentResourceNodeRepository S
      → String
      → String
      → Time
      → Option ResourceTarget
      → Tx S (Unit {0})
  upsert_node repo agent_id target_id now none = skip
  upsert_node repo agent_id target_id now (some t) = writes (
      repo.upsert (record {
        agent_id = agent_id;
        target_id = trim_space target_id;
        resource_type = t.resource;
        x = t.x;
        y = t.y;
        depleted_until = now + respawn_duration t.resource;
      }))

  unfoldable pub persist_gather_depletion :
      Scan → Option (AgentResourceNodeRepository S) → String → ActionIntent → Time → Tx S (Unit {0})
  unfolding upsert_node
  persist_gather_depletion scan none agent_id i now = skip
  persist_gather_depletion scan (some repo) agent_id i now =
      if not (has_gather_target i)
      then skip
      else upsert_node repo agent_id i.target_id now (parse_resource_target_id scan i.target_id)

  ensure_session : Option (AgentSessionRepository S) → ActionContext → Tx S (Unit {0})
  ensure_session none ac = skip
  ensure_session (some sessions) ac =
      writes
        (sessions.ensure_active ac.input.session_id ac.input.agent_id ac.view.state_working.version)

  unfoldable pub run_standard_action_precheck : UseCase S → ActionContext → Tx S (Unit {0})
  unfolding ensure_session
  run_standard_action_precheck u ac = do
    ensure_session u.session_repo ac
    pure_step
        (ensure_cooldown_ready ac.view.events_before ac.tmp.resolved_intent.type ac.input.now_at)
