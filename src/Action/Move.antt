-- ===== src/Action/Move.antt =====
-- internal/app/action/action_move.go: where a move may go, and the search for a path to it.
pub mod Measure
pub mod Search
pub mod Closure
pub mod Paths
pub mod Landing
use clawvival.Base.{
  ℕ, zero, suc, ◌+◌, ◌<◌, ltb, ℤ, pos, negsuc, ◌+ℤ◌, ◌-ℤ◌, eqb_ℤ, abs, Bool, true, false, not, ◌&&◌,
  ◌||◌, Option, none, some, List, [], ◌∷◌, ◌++◌, length, if◌then◌else◌,
}
use clawvival.Survival.Types.{Position, ActionType, AgentStateAggregate, ActionIntent}
use clawvival.World.Types.{Tile}

-- `ActionInvalidPositionError`
pub record InvalidPosition : Type 0 where
  pub target_pos : Position
  pub blocking_tile_pos : Option Position

pub data Resolved : Type 0 where
  refused : InvalidPosition → Resolved
  resolved : ActionIntent → Resolved

-- The keys that `movePosKey` prints are equal exactly for equal positions.
abbrev pub at_pos : Position → Position → Bool
at_pos p q = eqb_ℤ p.x q.x && eqb_ℤ p.y q.y

-- `tileByPos`, by whether the tile is passable, with the last entry first.
abbrev pub Cells : Type 0
Cells = List (Position × Bool)

unfoldable pub cell_at : Cells → Position → Option Bool
cell_at [] p = none
cell_at ((q, passable) ∷ cells) p = if at_pos q p then some passable else cell_at cells p

abbrev pub position_of : Tile → Position
position_of t = record { x = t.x; y = t.y }

unfoldable pub tile_by_pos : List Tile → Cells → Cells
tile_by_pos [] cells = cells
tile_by_pos (t ∷ ts) cells = tile_by_pos ts ((position_of t, t.passable) ∷ cells)

-- `tile, ok := tileByPos[key]; ok && tile.Passable`
abbrev pub or_closed : Option Bool → Bool
or_closed none = false
or_closed (some passable) = passable

unfoldable pub passable_at : Cells → Position → Bool
passable_at cells p = or_closed (cell_at cells p)

-- `visited[key]`
unfoldable pub seen : List Position → Position → Bool
seen [] p = false
seen (q ∷ qs) p = at_pos q p || seen qs p

pub record Frontier : Type 0 where
  pub found : Bool
  pub visited : List Position
  pub queue : List Position

-- One neighbour; nothing more is looked at once the target is found.
unfoldable pub look : Cells → Position → Position → Frontier → Frontier
look cells target n s =
    if s.found || seen s.visited n || not (passable_at cells n)
    then s
    else if at_pos n target
    then record s { found = true }
    else record s { visited = n ∷ s.visited; queue = s.queue ++ n ∷ [] }

abbrev pub step_to : ℤ → ℤ → Position → Position
step_to dx dy p = record { x = p.x +ℤ dx; y = p.y +ℤ dy }

abbrev pub east : Position → Position
east p = step_to (pos 1) (pos 0) p

abbrev pub west : Position → Position
west p = step_to (negsuc 0) (pos 0) p

abbrev pub north : Position → Position
north p = step_to (pos 0) (pos 1) p

abbrev pub south : Position → Position
south p = step_to (pos 0) (negsuc 0) p

-- The loop over the directions.
unfoldable pub expand : Cells → Position → Position → Frontier → Frontier
expand cells target cur s =
    look cells target (south cur) (
      look cells target (north cur) (look cells target (west cur) (look cells target (east cur) s)))

-- The loop over the queue; none is fuel run out.
unfoldable pub search : ℕ → Cells → Position → Bool → List Position → List Position → Option Bool
search zero cells target found visited queue = none
search (suc fuel) cells target true visited queue = some true
search (suc fuel) cells target false visited [] = some false
search (suc fuel) cells target false visited (cur ∷ queue) =
    let s = expand cells target cur (record { found = false; visited = visited; queue = queue }) in
    search fuel cells target s.found s.visited s.queue

-- The fuel allows a turn for each cell, and two more.
unfoldable pub has_passable_path : Position → Position → Cells → Option Bool
has_passable_path origin target cells =
    if at_pos origin target
    then some true
    else search (length cells + 2) cells target false (origin ∷ []) (origin ∷ [])

-- The target is visible and passable, and a path leads to it.
unfoldable pub with_origin : Position → Cells → Cells
with_origin origin cells = elim (cell_at cells origin) [
  | none ↦ (origin, true) ∷ cells
  | some _ ↦ cells
]

abbrev refuse : Position → Option Position → Resolved
refuse target blocking = refused (record { target_pos = target; blocking_tile_pos = blocking })

unfoldable pub by_path : Position → ActionIntent → Position → Option Bool → Resolved
by_path origin intent target (some true) =
    resolved (record intent { dx = target.x -ℤ origin.x; dy = target.y -ℤ origin.y })
by_path origin intent target _ = refuse target none

unfoldable pub by_tile : Position → ActionIntent → Position → Cells → Option Bool → Resolved
unfolding with_origin by_path
by_tile origin intent target cells none = refuse target none
by_tile origin intent target cells (some false) = refuse target (some target)
by_tile origin intent target cells (some true) =
    by_path origin intent target (has_passable_path origin target (with_origin origin cells))

unfoldable pub resolve_move_to_position_intent :
    Position → ActionIntent → Position → List Tile → Resolved
unfolding by_tile
resolve_move_to_position_intent origin intent target tiles =
    by_tile origin intent target (tile_by_pos tiles []) (cell_at (tile_by_pos tiles []) target)

-- The first visible tile at the target decides about a step.
unfoldable pub first_at : List Tile → Position → Option Bool
first_at [] p = none
first_at (t ∷ ts) p = if at_pos (position_of t) p then some t.passable else first_at ts p

unfoldable pub step_by : ActionIntent → Position → Option Bool → Resolved
step_by intent target none = refuse target none
step_by intent target (some true) = resolved intent
step_by intent target (some false) = refuse target (some target)

unfoldable pub resolve_step : AgentStateAggregate → ActionIntent → List Tile → Resolved
unfolding first_at step_by
resolve_step state intent tiles =
    let target = step_to intent.dx intent.dy state.position in
    if ltb 1 (abs intent.dx) || ltb 1 (abs intent.dy)
    then refuse target none
    else step_by intent target (first_at tiles target)

unfoldable pub resolve_target :
    AgentStateAggregate → ActionIntent → List Tile → Option Position → Resolved
unfolding resolve_step
resolve_target state intent tiles none = resolve_step state intent tiles
resolve_target state intent tiles (some target) =
    if at_pos target state.position
    then refuse target none
    else resolve_move_to_position_intent state.position intent target tiles

abbrev is_move : ActionType → Bool
is_move ActionType.move = true
is_move _ = false

unfoldable pub resolve_move_intent : AgentStateAggregate → ActionIntent → List Tile → Resolved
unfolding resolve_target
resolve_move_intent state intent tiles =
    if not (is_move intent.type)
    then resolved intent
    else resolve_target state intent tiles intent.pos

-- `validateMoveActionParams`
unfoldable pub validate_move_action_params : ActionIntent → Bool
validate_move_action_params i = elim i.pos [
  | none ↦ not (eqb_ℤ i.dx (pos 0)) || not (eqb_ℤ i.dy (pos 0))
  | some _ ↦ true
]
