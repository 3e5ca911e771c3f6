-- ===== src/Action/Retreat.antt =====
-- internal/app/action/action_retreat.go: which threat an agent flees from, and where to, and the
-- threat that the end of the game names.
pub mod Chosen
pub mod Best
use clawvival.Base.{
  ℕ, ◌+◌, ◌==◌, ltb, ℤ, pos, negsuc, ◌+ℤ◌, ◌-ℤ◌, ◌*ℤ◌, ltb_ℤ, leb_ℤ, eqb_ℤ, abs, min_ℤ, String,
  str_eq, Bool, true, false, ◌&&◌, ◌||◌, Option, none, some, List, [], ◌∷◌, if◌then◌else◌,
}
use clawvival.Survival.Types.{Position, ActionType, ActionIntent}
use clawvival.World.Types.{Tile}
use clawvival.Action.Move.{at_pos, position_of, step_to}

-- The more threatening of a tile and the best before it, the earlier one where they are equal.
stronger : Option Tile → Tile → Tile
stronger none t = t
stronger (some best) t = if ltb_ℤ best.base_threat t.base_threat then t else best

strongest_from : Option Tile → List Tile → Option Tile
unfolding stronger
strongest_from best [] = best
strongest_from best (t ∷ ts) =
    strongest_from (if leb_ℤ t.base_threat (pos 0) then best else some (stronger best t)) ts

unfoldable pub strongest_visible_threat : List Tile → Option Tile
unfolding strongest_from
strongest_visible_threat tiles = strongest_from none tiles

-- `min(100, threat.BaseThreat*25)`
unfoldable pub danger_score : Tile → ℤ
danger_score t = min_ℤ (pos 100) (t.base_threat *ℤ pos 25)

-- `abs(x-p.x) + abs(y-p.y)`
abbrev pub steps_between : Position → Position → ℕ
steps_between p q = abs (p.x -ℤ q.x) + abs (p.y -ℤ q.y)

-- `highestThreatTile` prefers the greater threat, and then the nearer tile.
nearer : Position → Option Tile → Tile → Tile
nearer p none t = t
nearer p (some best) t =
    if ltb_ℤ best.base_threat t.base_threat
      || eqb_ℤ t.base_threat best.base_threat
        && ltb (steps_between (position_of t) p) (steps_between (position_of best) p)
    then t
    else best

highest_from : Position → Option Tile → List Tile → Option Tile
unfolding nearer
highest_from p best [] = best
highest_from p best (t ∷ ts) =
    highest_from p
      (if leb_ℤ t.base_threat (pos 0) || steps_between (position_of t) p == 0
        then best
        else some (nearer p best t))
      ts

unfoldable pub highest_threat_tile : Position → List Tile → Option Tile
unfolding highest_from
highest_threat_tile p tiles = highest_from p none tiles

-- `visible[posKey(x, y)]`, where the last tile at a position counts.
unfoldable pub last_at : Option Tile → List Tile → Position → Option Tile
last_at found [] p = found
last_at found (t ∷ ts) p = last_at (if at_pos (position_of t) p then some t else found) ts p

pub record Step : Type 0 where
  pub dx : ℤ
  pub dy : ℤ
  pub dist : ℕ
  pub risk : ℤ

unfoldable pub onto : ℤ → ℤ → Position → Tile → Option Tile → Option Step
onto dx dy to threat none = none
onto dx dy to threat (some tile) =
    if tile.passable
    then some (record {
      dx = dx;
      dy = dy;
      dist = steps_between to (position_of threat);
      risk = tile.base_threat;
    })
    else none

-- The step to one side, if its tile is visible and passable.
unfoldable pub candidate : Position → Tile → List Tile → ℤ → ℤ → Option Step
unfolding onto
candidate p threat tiles dx dy =
    let to = step_to dx dy p in onto dx dy to threat (last_at none tiles to)

-- `dist > bestDist || (dist == bestDist && risk < bestRisk)`
abbrev pub is_better : Step → Step → Bool
is_better s best = ltb best.dist s.dist || s.dist == best.dist && ltb_ℤ s.risk best.risk

unfoldable pub consider : Option Step → Option Step → Option Step
consider best none = best
consider none (some s) = some s
consider (some best) (some s) = if is_better s best then some s else some best

unfoldable pub choose : Option Step → List (Option Step) → Option Step
choose best [] = best
choose best (c ∷ cs) = choose (consider best c) cs

-- The candidates in the order of the source.
unfoldable pub candidates : Position → Tile → List Tile → List (Option Step)
candidates p threat tiles =
    candidate p threat tiles (negsuc 0) (pos 0)
    ∷ candidate p threat tiles (pos 1) (pos 0)
    ∷ candidate p threat tiles (pos 0) (negsuc 0)
    ∷ candidate p threat tiles (pos 0) (pos 1)
    ∷ []

unfoldable pub best_retreat_step : Position → Tile → List Tile → Option Step
best_retreat_step p threat tiles = choose none (candidates p threat tiles)

with_step : ActionIntent → Option Step → ActionIntent
with_step intent none = intent
with_step intent (some s) = record intent { dx = s.dx; dy = s.dy }

from_threat : ActionIntent → Position → List Tile → Option Tile → ActionIntent
unfolding with_step
from_threat intent p tiles none = intent
from_threat intent p tiles (some threat) = with_step intent (best_retreat_step p threat tiles)

abbrev is_retreat : ActionType → Bool
is_retreat ActionType.retreat = true
is_retreat _ = false

unfoldable pub resolve_retreat_intent : ActionIntent → Position → List Tile → ActionIntent
unfolding from_threat
resolve_retreat_intent intent p tiles =
    if is_retreat intent.type
    then from_threat intent p tiles (highest_threat_tile p tiles)
    else intent
