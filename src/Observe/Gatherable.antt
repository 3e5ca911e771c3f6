-- ===== src/Observe/Gatherable.antt =====
-- internal/app/observe/usecase.go and internal/app/action/action_gather.go: what is seen is in
-- reach of a gather.

use clawvival.Base.{
  ◌+◌, ◌≡◌, inl, inr, refl, sym, ap, ◌∙◌, arith, ℤ, pos, ◌+ℤ◌, ◌-ℤ◌, ◌≤ℤ◌, ◌<ℤ◌, leb_ℤ, ltb_ℤ, abs,
  +ℤ_parts, -ℤ_parts, String, str_eq, eq_iff, Bool, true, false, not, Bool-cases, Option-cases,
  none, some, List, Has, if◌then◌else◌,
}
use clawvival.Base.Dict.{Dict}
use clawvival.Base.Text.{trim_space, normal, equal_fold}
use clawvival.Survival.Types.{Position, ActionIntent}
use clawvival.World.Types.{Point, Tile, Snapshot}
use clawvival.Shared.Depletion.{Scan, parse_resource_target_id, target_of}
use clawvival.Ports.{Result, returned}
use clawvival.Engine.Checks.{
  validate_target_visibility, sighted, tile_at, holds, beyond, in_the_dark, radius_of,
}
use clawvival.Observe.{
  ObservedTile, ObservedResource, project_resources, is_resource, observed_resource,
  build_window_tiles, observed_tile, visible_by_pos, vision_radius,
}
use clawvival.Observe.Window.{
  project_resources-from, numbers_from-bounds, visible_by_pos-some, tile_at-some, window_rows-from,
}

-- No two tiles stand at one position.
abbrev pub OneEach : List Tile → Type 0
OneEach tiles = (t t' : Tile) → Has t tiles → Has t' tiles → t.x ≡ t'.x → t.y ≡ t'.y → t ≡ t'

fold_refl : (a : String) → equal_fold a a ≡ true
unfolding equal_fold
fold_refl a = same _
  where
    same : (x : String) → str_eq x x ≡ true
    same x = ground (arith, eq_iff x x)

holds-own : (tile : Tile) → holds tile.resource (some tile) ≡ returned tt
unfolding holds
holds-own tile = rw (fold_refl (trim_space tile.resource)) ground arith

within :
    (c v : ℤ)
    → (c -ℤ pos 5 ≤ℤ v) × (v <ℤ c -ℤ pos 5 +ℤ pos 11)
    → (ltb_ℤ v (c -ℤ pos 5) ≡ false) × (ltb_ℤ (c +ℤ pos 5) v ≡ false)
within c v (low, high) = (
  ground (arith, low),
  ground (arith, high, -ℤ_parts c (pos 5), +ℤ_parts (c -ℤ pos 5) (pos 11), +ℤ_parts c (pos 5)),
)

not_beyond :
    (here : Position) (x y : ℤ) (resource : String)
    → (here.x -ℤ pos 5 ≤ℤ x) × (x <ℤ here.x -ℤ pos 5 +ℤ pos 11)
    → (here.y -ℤ pos 5 ≤ℤ y) × (y <ℤ here.y -ℤ pos 5 +ℤ pos 11)
    → beyond here (pos 5) (record { x = x; y = y; resource = resource }) ≡ false
unfolding beyond
not_beyond here x y resource h k =
    let (a, b) = within here.x x h in let (c, d) = within here.y y k in rw (a, b, c, d) refl

-- At night the window shows no more than a gather reaches.
not_dark :
    (here : Position) (snapshot : Snapshot) (x y : ℤ) (resource : String)
    → leb_ℤ (pos (abs (x -ℤ here.x) + abs (y -ℤ here.y))) (vision_radius snapshot.time_of_day)
      ≡ true
    → in_the_dark here snapshot (record { x = x; y = y; resource = resource }) ≡ false
unfolding in_the_dark equal_fold
not_dark here snapshot x y resource near = elim (Bool-cases (str_eq snapshot.time_of_day "day")) [
  | inl by_day ↦
      let day : snapshot.time_of_day ≡ "day" =
        ground (arith, by_day, eq_iff snapshot.time_of_day "day") in
      rw day refl
  | inr by_night ↦
      let close : leb_ℤ (pos (abs (x -ℤ here.x) + abs (y -ℤ here.y))) (pos 3) ≡ true =
        rw by_night at near in
      ground (arith, close)
]

sighted-reach :
    (here : Position) (snapshot : Snapshot) (x y : ℤ) (tile : Tile)
    → snapshot.view_radius ≡ pos 5
    → (here.x -ℤ pos 5 ≤ℤ x) × (x <ℤ here.x -ℤ pos 5 +ℤ pos 11)
    → (here.y -ℤ pos 5 ≤ℤ y) × (y <ℤ here.y -ℤ pos 5 +ℤ pos 11)
    → leb_ℤ (pos (abs (x -ℤ here.x) + abs (y -ℤ here.y))) (vision_radius snapshot.time_of_day)
      ≡ true
    → tile_at snapshot.visible_tiles x y ≡ some tile
    → sighted here snapshot (some (record { x = x; y = y; resource = tile.resource })) ≡ returned tt
unfolding sighted
sighted-reach here snapshot x y tile radius h k near found =
    let ranged : beyond here (radius_of snapshot)
          (record { x = x; y = y; resource = tile.resource })
        ≡ false =
      rw radius (not_beyond here x y tile.resource h k) in
    rw (ranged, not_dark here snapshot x y tile.resource near, found) (holds-own tile)

is_resource-true :
    (depleted : Dict ℤ) (t : ObservedTile)
    → is_resource depleted t ≡ true
    → (t.is_visible ≡ true) × (not (str_eq t.resource_type "") ≡ true)
unfolding is_resource
is_resource-true depleted t h = (ground (arith, h), ground (arith, h))

passes_either :
    (b : Bool) (r : Result (Unit {0}))
    → r ≡ returned tt
    → (if b then returned tt else r) ≡ returned tt
passes_either true r h = refl
passes_either false r h = h

-- The cell of a resource that is shown has a tile, which is near and has the resource.
seen_cell :
    (center : Point) (time_of_day : String) (tiles : List Tile) (depleted : Dict ℤ) (x y : ℤ)
    (t : ObservedTile) (r : ObservedResource)
    → observed_tile center time_of_day x y (visible_by_pos tiles x y none) ≡ t
    → is_resource depleted t ≡ true
    → observed_resource t ≡ r
    → (tile : Tile) × (visible_by_pos tiles x y none ≡ some tile)
      × (leb_ℤ (pos (abs (x -ℤ center.x) + abs (y -ℤ center.y))) (vision_radius time_of_day) ≡ true)
      × (r.at.x ≡ x)
      × (r.at.y ≡ y)
      × (r.resource_type ≡ tile.resource)
      × (not (str_eq tile.resource "") ≡ true)
unfolding observed_tile is_resource observed_resource
seen_cell center time_of_day tiles depleted x y t r same found shown =
    elim (Option-cases (visible_by_pos tiles x y none)) [
      | inl nothing ↦
          let dark : false ≡ t.is_visible =
            ap (λ (z : ObservedTile). z.is_visible) (rw nothing at same) in
          let (visible, _) = is_resource-true depleted t found in absurd (cc (dark, visible))
      | inr (tile, e) ↦
          let made = (rw e at same) in
          let (visible, some_resource) = is_resource-true depleted t found in
          (
            tile,
            e,
            ap (λ (z : ObservedTile). z.is_visible) made ∙ visible,
            ap (λ (z : ObservedResource). z.at.x) (sym shown)
                ∙ ap (λ (z : ObservedTile). z.at.x) (sym made),
            ap (λ (z : ObservedResource). z.at.y) (sym shown)
                ∙ ap (λ (z : ObservedTile). z.at.y) (sym made),
            ap (λ (z : ObservedResource). z.resource_type) (sym shown)
                ∙ ap (λ (z : ObservedTile). z.resource_type) (sym made),
            ap (λ (z : ObservedTile). not (str_eq z.resource_type "")) made ∙ some_resource,
          )
    ]

-- The tile that the window shows is the first at its position.
first_is :
    (tiles : List Tile) (x y : ℤ) (tile : Tile)
    → OneEach tiles
    → visible_by_pos tiles x y none ≡ some tile
    → tile_at tiles x y ≡ some tile
first_is tiles x y tile one placed = elim (visible_by_pos-some tiles x y none placed) [
  | inl before ↦ absurd (cc before)
  | inr (at, own_x, own_y) ↦
      let (t, found, at', same_x, same_y) = tile_at-some tiles tile at in
      ap (tile_at tiles x) (sym own_y)
      ∙ ap (λ a. tile_at tiles a tile.y) (sym own_x)
      ∙ found
      ∙ ap some (one t tile at' at same_x same_y)
]

read_back :
    (scan : Scan) (target_id : String) (x y : ℤ) (resource : String)
    → normal resource ≡ resource
    → not (str_eq resource "") ≡ true
    → scan (trim_space target_id) ≡ some ("res", x, y, resource)
    → parse_resource_target_id scan target_id ≡ some (record { x = x; y = y; resource = resource })
unfolding parse_resource_target_id target_of
read_back scan target_id x y resource name named read =
    let there : str_eq resource "" ≡ false = ground (arith, named) in rw (read, name, there) refl

-- A gather of a resource that is seen is let through by the check of its target, where the view
-- has the radius of the window, where no two tiles stand at one position, where the resource's name
-- is in its normal form, and where `Sscanf` reads the id as it was printed.
pub project_resources-reach :
    (scan : Scan) (here : Position) (snapshot : Snapshot) (depleted : Dict ℤ) (r : ObservedResource)
    (i : ActionIntent)
    → Has r (
        project_resources
          (build_window_tiles
            (record { x = here.x; y = here.y })
            snapshot.time_of_day
            snapshot.visible_tiles)
          depleted)
    → snapshot.view_radius ≡ pos 5
    → OneEach snapshot.visible_tiles
    → normal r.resource_type ≡ r.resource_type
    → scan (trim_space r.id) ≡ some ("res", r.at.x, r.at.y, r.resource_type)
    → i.target_id ≡ r.id
    → validate_target_visibility scan here i snapshot ≡ returned tt
unfolding validate_target_visibility build_window_tiles
project_resources-reach scan here snapshot depleted r i h radius one name read target =
    let center : Point = record { x = here.x; y = here.y } in
    let tiles = snapshot.visible_tiles in
    let (t, in_view, found, shown) = project_resources-from _ depleted r h in
    let (x, y, at_x, at_y, same) =
      window_rows-from center snapshot.time_of_day tiles _ _ t in_view in
    let (tile, placed, near, own_x, own_y, own, named) =
      seen_cell center snapshot.time_of_day tiles depleted x y t r same found shown in
    let settled : tile_at tiles x y ≡ some tile = first_is tiles x y tile one placed in
    let answer =
      sighted-reach here snapshot x y tile radius (numbers_from-bounds 11 _ x at_x)
        (numbers_from-bounds 11 _ y at_y) near settled in
    let there : not (str_eq r.resource_type "") ≡ true = ap (λ a. not (str_eq a "")) own ∙ named in
    let parsed =
      read_back scan i.target_id r.at.x r.at.y r.resource_type name there
        (ap (λ a. scan (trim_space a)) target ∙ read) in
    let aimed : parse_resource_target_id scan i.target_id
        ≡ some (record { x = x; y = y; resource = tile.resource }) =
      cc (parsed, own_x, own_y, own) in
    passes_either _ _ (ap (sighted here snapshot) aimed ∙ answer)
