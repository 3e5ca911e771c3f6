-- ===== src/Observe.antt =====
-- internal/app/observe/usecase.go: what an agent sees around it.
pub mod Window
pub mod Gatherable
pub mod Execute
mod Tests
use Prim.Native.String
use clawvival.Base.{
  ℕ, zero, suc, ◌+◌, ltb, ℤ, pos, ◌+ℤ◌, ◌-ℤ◌, ◌*ℤ◌, leb_ℤ, ltb_ℤ, eqb_ℤ, min_ℤ, abs, String, str_eq,
  Bool, true, false, not, ◌&&◌, ◌||◌, Option, none, some, List, [], ◌∷◌, ◌++◌, if◌then◌else◌,
}
use clawvival.Base.Text.{trim_space, to_upper, normal}
use clawvival.Base.Decimal.{show_int}
use clawvival.Base.Dict.{Dict, insert, lookup}
use clawvival.Base.Duration.{sub_time}
use clawvival.Survival.Types.{Time}
use clawvival.Survival.State.{count_of}
use clawvival.World.Types.{Point, TileKind, Tile, Snapshot}
use clawvival.Shared.Depletion.{whole_seconds}
use clawvival.Ports.{
  Error, Result, returned, raised, WorldObjectRecord, AgentResourceNodeRecord,
  AgentResourceNodeRepository,
}

pub record ObservedTile : Type 0 where
  pub at : Point
  pub terrain_type : String
  pub is_walkable : Bool
  pub is_lit : Bool
  pub is_visible : Bool
  pub resource_type : String
  pub base_threat : ℤ

pub record ObservedObject : Type 0 where
  pub id : String
  pub object_type : String
  pub quality : String
  pub at : Point
  pub capacity_slots : ℤ
  pub used_slots : ℤ
  pub object_state : String

pub record ObservedResource : Type 0 where
  pub id : String
  pub resource_type : String
  pub at : Point
  pub is_depleted : Bool

pub record ObservedThreat : Type 0 where
  pub id : String
  pub threat_type : String
  pub at : Point
  pub danger_score : ℤ

abbrev pub fixed_view_radius : ℤ
fixed_view_radius = pos 5

-- `survival.VisionRadiusNight`
abbrev pub night_vision_radius : ℤ
night_vision_radius = pos 3

abbrev pub TileKind_text : TileKind → String
TileKind_text TileKind.grass = "grass"
TileKind_text TileKind.tree = "tree"
TileKind_text TileKind.rock = "rock"
TileKind_text TileKind.dirt = "dirt"
TileKind_text TileKind.water = "water"

-- `fmt.Sprintf("res_%d_%d_%s", ...)`
unfoldable pub build_resource_target_id : ℤ → ℤ → String → String
build_resource_target_id x y resource = String.◌++◌ "res_" (
    String.◌++◌ (show_int x)
      (String.◌++◌ "_" (String.◌++◌ (show_int y) (String.◌++◌ "_" (normal resource)))))

-- `visibleByPos[posKey(x, y)]`: the last tile of a position.
unfoldable pub visible_by_pos : List Tile → ℤ → ℤ → Option Tile → Option Tile
visible_by_pos [] x y seen = seen
visible_by_pos (t ∷ ts) x y seen =
    visible_by_pos ts x y (if eqb_ℤ t.x x && eqb_ℤ t.y y then some t else seen)

abbrev pub vision_radius : String → ℤ
vision_radius time_of_day =
    if str_eq time_of_day "day" then fixed_view_radius else night_vision_radius

abbrev unknown_tile : ℤ → ℤ → ObservedTile
unknown_tile x y = record {
  at = record { x = x; y = y };
  terrain_type = "unknown";
  is_walkable = false;
  is_lit = false;
  is_visible = false;
  resource_type = "";
  base_threat = pos 0;
}

unfoldable pub observed_tile : Point → String → ℤ → ℤ → Option Tile → ObservedTile
observed_tile center time_of_day x y none = unknown_tile x y
observed_tile center time_of_day x y (some tile) = record {
  at = record { x = x; y = y };
  terrain_type = TileKind_text tile.kind;
  is_walkable = tile.passable;
  is_lit = str_eq time_of_day "day";
  is_visible = leb_ℤ (pos (abs (x -ℤ center.x) + abs (y -ℤ center.y))) (vision_radius time_of_day);
  resource_type = tile.resource;
  base_threat = tile.base_threat;
}

-- The numbers from a first one on.
unfoldable pub numbers_from : ℕ → ℤ → List ℤ
numbers_from zero first = []
numbers_from (suc n) first = first ∷ numbers_from n (first +ℤ pos 1)

module _ (center : Point) (time_of_day : String) (visible : List Tile) where
  unfoldable pub window_row : ℤ → List ℤ → List ObservedTile
  unfolding observed_tile
  window_row y [] = []
  window_row y (x ∷ xs) =
      observed_tile center time_of_day x y (visible_by_pos visible x y none) ∷ window_row y xs

  unfoldable pub window_rows : List ℤ → List ℤ → List ObservedTile
  unfolding window_row
  window_rows xs [] = []
  window_rows xs (y ∷ ys) = window_row y xs ++ window_rows xs ys

  -- The tiles of the window, row by row.
  unfoldable pub build_window_tiles : List ObservedTile
  unfolding window_rows
  build_window_tiles =
      window_rows (numbers_from 11 (center.x -ℤ fixed_view_radius))
        (numbers_from 11 (center.y -ℤ fixed_view_radius))

unfoldable pub is_resource : Dict ℤ → ObservedTile → Bool
is_resource depleted t =
    t.is_visible
    && not (str_eq t.resource_type "")
    && leb_ℤ
        (count_of (trim_space (build_resource_target_id t.at.x t.at.y t.resource_type)) depleted)
        (pos 0)

unfoldable pub observed_resource : ObservedTile → ObservedResource
observed_resource t = record {
  id = build_resource_target_id t.at.x t.at.y t.resource_type;
  resource_type = t.resource_type;
  at = t.at;
  is_depleted = false;
}

unfoldable pub project_resources : List ObservedTile → Dict ℤ → List ObservedResource
unfolding is_resource observed_resource
project_resources [] depleted = []
project_resources (t ∷ ts) depleted =
    let rest = project_resources ts depleted in
    if is_resource depleted t then observed_resource t ∷ rest else rest

unfoldable pub summarize_from : Dict ℤ → List ObservedResource → Dict ℤ
summarize_from out [] = out
summarize_from out (r ∷ rs) =
    summarize_from (insert r.resource_type (count_of r.resource_type out +ℤ pos 1) out) rs

unfoldable pub summarize_nearby : List ObservedResource → Dict ℤ
unfolding summarize_from
summarize_nearby resources = summarize_from [] resources

-- A tile whose resource has been gathered shows none.
unfoldable pub without_depleted : Dict ℤ → Tile → Tile
without_depleted depleted tile =
    if str_eq (trim_space tile.resource) ""
    then tile
    else if leb_ℤ
        (count_of (trim_space (build_resource_target_id tile.x tile.y tile.resource)) depleted)
        (pos 0)
    then tile
    else record tile { resource = "" }

unfoldable pub apply_depleted : Dict ℤ → List Tile → List Tile
unfolding without_depleted
apply_depleted depleted [] = []
apply_depleted depleted (t ∷ ts) = without_depleted depleted t ∷ apply_depleted depleted ts

unfoldable pub still_depleted : Time → List AgentResourceNodeRecord → Dict ℤ → Dict ℤ
still_depleted now [] out = out
still_depleted now (row ∷ rows) out = still_depleted now rows (
    if ltb now row.depleted_until
    then insert row.target_id (whole_seconds (sub_time row.depleted_until now)) out
    else out)

depleted_in : Time → Result (List AgentResourceNodeRecord) → Result (Dict ℤ)
depleted_in now (raised Error.not_found) = returned []
depleted_in now (raised e) = raised e
depleted_in now (returned rows) = returned (still_depleted now rows [])

unfoldable pub load_depleted_targets :
    {S : Type 0} → Option (AgentResourceNodeRepository S) → String → Time → S → Result (Dict ℤ)
unfolding depleted_in
load_depleted_targets none agent_id now s = returned []
load_depleted_targets (some repo) agent_id now s = depleted_in now (repo.list_nodes agent_id s)

unfoldable pub project_threats : List ObservedTile → List ObservedThreat
project_threats [] = []
project_threats (t ∷ ts) =
    let rest = project_threats ts in
    if t.is_visible && ltb_ℤ (pos 0) t.base_threat
    then record {
      id = String.◌++◌ "thr_" (String.◌++◌ (show_int t.at.x) (String.◌++◌ "_" (show_int t.at.y)));
      threat_type = "wild";
      at = t.at;
      danger_score = min_ℤ (pos 100) (t.base_threat *ℤ pos 25);
    }
      ∷ rest
    else rest

unfoldable pub normalize_object_type : WorldObjectRecord → String
normalize_object_type obj =
    let t = trim_space obj.object_type in
    if not (str_eq t "")
    then t
    else if eqb_ℤ obj.kind (pos 1)
    then "bed"
    else if eqb_ℤ obj.kind (pos 2)
    then "box"
    else if eqb_ℤ obj.kind (pos 3)
    then "farm_plot"
    else "unknown"

-- The JSON of an object's state is read by a parameter: the text under `state`, or the empty text.
unfoldable pub extract_object_state : (String → String) → WorldObjectRecord → String
extract_object_state state_in obj =
    if str_eq (trim_space obj.object_state) ""
    then ""
    else to_upper (trim_space (state_in obj.object_state))

is_seen : List ObservedTile → ℤ → ℤ → Bool
is_seen [] x y = false
is_seen (t ∷ ts) x y = (t.is_visible && eqb_ℤ t.at.x x && eqb_ℤ t.at.y y) || is_seen ts x y

unfoldable pub project_objects :
    (String → String) → List ObservedTile → List WorldObjectRecord → List ObservedObject
unfolding is_seen
project_objects state_in tiles [] = []
project_objects state_in tiles (obj ∷ objects) =
    let rest = project_objects state_in tiles objects in
    if is_seen tiles obj.x obj.y
    then record {
      id = obj.object_id;
      object_type = normalize_object_type obj;
      quality = to_upper (trim_space obj.quality);
      at = record { x = obj.x; y = obj.y };
      capacity_slots = obj.capacity_slots;
      used_slots = obj.used_slots;
      object_state = extract_object_state state_in obj;
    }
      ∷ rest
    else rest
