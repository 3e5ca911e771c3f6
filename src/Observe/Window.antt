-- ===== src/Observe/Window.antt =====
-- internal/app/observe/usecase.go: where the cells of the window come from.
use mathlib.Core.Path.{subst}
use clawvival.Base.{
  ℕ, zero, suc, ◌≡◌, ◌⊎◌, inl, inr, refl, sym, ap, ◌∙◌, arith, int_laws, ℤ, pos, ◌+ℤ◌, ◌≤ℤ◌, ◌<ℤ◌,
  eqb_ℤ, eq_of_parts, String, Bool, true, false, ◌&&◌, Bool-cases, Option, none, some, List, [],
  ◌∷◌, ◌++◌, Has,
}
use clawvival.Base.Dict.{Dict}
use clawvival.World.Types.{Point, Tile}
use clawvival.Engine.Checks.{tile_at}
use clawvival.Observe.{
  ObservedTile, ObservedResource, project_resources, is_resource, observed_resource, window_rows,
  window_row, observed_tile, numbers_from, visible_by_pos,
}

eqb_true : (a b : ℤ) → eqb_ℤ a b ≡ true → a ≡ b
eqb_true a b h = ground (arith, h, eq_of_parts a b)

eqb_refl : (a : ℤ) → eqb_ℤ a a ≡ true
eqb_refl a = ground (arith, eq_of_parts a a)

pub project_resources-from :
    (ts : List ObservedTile) (depleted : Dict ℤ) (r : ObservedResource)
    → Has r (project_resources ts depleted)
    → (t : ObservedTile) × Has t ts × (is_resource depleted t ≡ true) × (observed_resource t ≡ r)
unfolding project_resources
project_resources-from [] depleted r h = absurd h
project_resources-from (t ∷ ts) depleted r h = elim (Bool-cases (is_resource depleted t)) [
  | inr other ↦
      let (t', at, found, same) = project_resources-from ts depleted r (rw other at h) in
      (t', inr at, found, same)
  | inl first ↦ elim (rw first at h) [
    | inl same ↦ (t, inl refl, first, same)
    | inr later ↦
        let (t', at, found, same) = project_resources-from ts depleted r later in
        (t', inr at, found, same)
  ]
]

pub numbers_from-bounds :
    (n : ℕ) (first x : ℤ) → Has x (numbers_from n first) → (first ≤ℤ x) × (x <ℤ first +ℤ pos n)
unfolding numbers_from
numbers_from-bounds zero first x h = absurd h
numbers_from-bounds (suc n) first x (inl same) = rw (← same) (omega int_laws, omega int_laws)
numbers_from-bounds (suc n) first x (inr h) =
    let (low, high) = numbers_from-bounds n (first +ℤ pos 1) x h in (omega int_laws, omega int_laws)

Has-append-cases : {A : Type 0} (a : A) (xs ys : List A) → Has a (xs ++ ys) → Has a xs ⊎ Has a ys
Has-append-cases a [] ys h = inr h
Has-append-cases a (x ∷ xs) ys (inl e) = inl (inl e)
Has-append-cases a (x ∷ xs) ys (inr h) = elim (Has-append-cases a xs ys h) [
  | inl left ↦ inl (inr left)
  | inr right ↦ inr right
]

module _ (center : Point) (time_of_day : String) (visible : List Tile) where
  abbrev pub cell : ℤ → ℤ → ObservedTile
  cell x y = observed_tile center time_of_day x y (visible_by_pos visible x y none)

  window_row-from :
      (y : ℤ) (xs : List ℤ) (t : ObservedTile)
      → Has t (window_row center time_of_day visible y xs)
      → (x : ℤ) × Has x xs × (cell x y ≡ t)
  unfolding window_row
  window_row-from y [] t h = absurd h
  window_row-from y (x ∷ xs) t (inl same) = (x, inl refl, same)
  window_row-from y (x ∷ xs) t (inr h) =
      let (x', at, same) = window_row-from y xs t h in (x', inr at, same)

  pub window_rows-from :
      (xs ys : List ℤ) (t : ObservedTile)
      → Has t (window_rows center time_of_day visible xs ys)
      → (x y : ℤ) × Has x xs × Has y ys × (cell x y ≡ t)
  unfolding window_rows
  window_rows-from xs [] t h = absurd h
  window_rows-from xs (y ∷ ys) t h = elim (Has-append-cases t _ _ h) [
    | inl row ↦ let (x, at, same) = window_row-from y xs t row in (x, y, at, inl refl, same)
    | inr rows ↦
        let (x, y', at, at', same) = window_rows-from xs ys t rows in (x, y', at, inr at', same)
  ]

and_true : (a b : Bool) → (a && b) ≡ true → (a ≡ true) × (b ≡ true)
and_true true b h = (refl, h)
and_true false b h = absurd (cc h)

stands_at : (t : Tile) (x y : ℤ) → (eqb_ℤ t.x x && eqb_ℤ t.y y) ≡ true → (t.x ≡ x) × (t.y ≡ y)
stands_at t x y h =
    let (h1, h2) = and_true (eqb_ℤ t.x x) (eqb_ℤ t.y y) h in (eqb_true t.x x h1, eqb_true t.y y h2)

at_itself : (t : Tile) → (eqb_ℤ t.x t.x && eqb_ℤ t.y t.y) ≡ true
at_itself t = ap (λ b. b && eqb_ℤ t.y t.y) (eqb_refl t.x) ∙ eqb_refl t.y

-- The tile at a position is a visible one that stands there, if one does.
pub visible_by_pos-some :
    (tiles : List Tile) (x y : ℤ) (seen : Option Tile) {tile : Tile}
    → visible_by_pos tiles x y seen ≡ some tile
    → (seen ≡ some tile) ⊎ Has tile tiles × (tile.x ≡ x) × (tile.y ≡ y)
unfolding visible_by_pos
visible_by_pos-some [] x y seen h = inl h
visible_by_pos-some (t ∷ ts) x y seen {tile} h = elim (Bool-cases (eqb_ℤ t.x x && eqb_ℤ t.y y)) [
  | inr other ↦ elim (visible_by_pos-some ts x y seen (rw other at h)) [
    | inl before ↦ inl before
    | inr (at, same_x, same_y) ↦ inr (inr at, same_x, same_y)
  ]
  | inl here ↦ elim (visible_by_pos-some ts x y (some t) (rw here at h)) [
    | inl this ↦
        let same : t ≡ tile = cc this in
        let (own_x, own_y) = stands_at t x y here in
        inr (
          inl same,
          ap (λ (z : Tile). z.x) (sym same) ∙ own_x,
          ap (λ (z : Tile). z.y) (sym same) ∙ own_y,
        )
    | inr (at, same_x, same_y) ↦ inr (inr at, same_x, same_y)
  ]
]

pub tile_at-some :
    (tiles : List Tile) (tile : Tile)
    → Has tile tiles
    → (t : Tile) × (tile_at tiles tile.x tile.y ≡ some t)
      × Has t tiles
      × (t.x ≡ tile.x)
      × (t.y ≡ tile.y)
unfolding tile_at
tile_at-some [] tile h = absurd h
tile_at-some (t ∷ ts) tile h = elim (Bool-cases (eqb_ℤ t.x tile.x && eqb_ℤ t.y tile.y)) [
  | inl here ↦
      let (own_x, own_y) = stands_at t tile.x tile.y here in
      (t, rw here refl, inl refl, own_x, own_y)
  | inr other ↦ elim h [
    | inl same ↦ absurd (
        cc (
          sym (subst (λ (z : Tile). (eqb_ℤ t.x z.x && eqb_ℤ t.y z.y) ≡ true) same (at_itself t))
          ∙ other))
    | inr later ↦
        let (t', found, at, same_x, same_y) = tile_at-some ts tile later in
        (t', rw other found, inr at, same_x, same_y)
  ]
]
