-- ===== src/Survival/Production/Exchange.antt =====
-- internal/domain/survival/production.go: crafting and building as exchanges.
use clawvival.Base.{
  ℕ, ◌+◌, ◌≤◌, ℤ, ◌+ℤ◌, ◌-ℤ◌, String, true, false, ◌≡◌, refl, sym, arith, none, some, is_some,
  Option-cases, inl, inr, eq_iff, int_laws,
}
use clawvival.Base.Text.{normal}
use clawvival.Base.Dict.{Dict, lookup}
use clawvival.Base.Duration.{max_int64}
use clawvival.Survival.Rules.{
  RecipeDef, BuildDef, BuildKind, recipe_defs, build_defs_by_object_type,
}
use clawvival.Survival.State.{count_of}
use clawvival.Survival.State.Counts.{IsWithin}
use clawvival.Survival.Production.{
  has_enough, consume, craft, can_craft, build_object, build, can_build, can_build_object_type,
}
use clawvival.Survival.Production.Stock.{
  IsBill, count_of-consume, count_of-produce, consume-IsWithin, produce-IsWithin, amount_of,
  topped_up,
}

-- Every recipe lists each of its inputs and outputs once, in a positive amount.
pub recipe_defs-IsBill :
    (id : ℤ) {d : RecipeDef} → recipe_defs id ≡ some d → IsBill d.inputs × IsBill d.outputs
unfolding recipe_defs lookup
recipe_defs-IsBill id h = ground (
  arith,
  eq_iff "wood" "",
  eq_iff "plank" "",
  eq_iff "wheat" "",
  eq_iff "bread" "",
  eq_iff "stone" "",
  eq_iff "brick" "",
  eq_iff "berry" "",
  eq_iff "jam" "",
)

pub build_defs-IsBill :
    (t : String) {d : BuildDef} → build_defs_by_object_type t ≡ some d → IsBill d.cost
unfolding build_defs_by_object_type lookup
build_defs-IsBill t h = ground (arith, eq_iff "wood" "", eq_iff "plank" "", eq_iff "stone" "")

-- Crafting succeeds exactly when `CanCraft` says so, and a refused craft changes nothing.
pub craft-can_craft : (m : Dict ℤ) (id : ℤ) → (craft m id).1 ≡ can_craft m id
unfolding craft can_craft
craft-can_craft m id = ground arith

pub craft_refused : (m : Dict ℤ) (id : ℤ) → can_craft m id ≡ false → craft m id ≡ (m, false)
unfolding craft can_craft
craft_refused m id h = ground arith

moved_over : (a c s : ℤ) → a +ℤ c ≡ s → a ≡ s -ℤ c
moved_over a c s h = rw (sym h) (omega int_laws)

-- A craft takes the inputs of its recipe and gives the outputs, and leaves every other count. The
-- sum of a count that gains wraps around as an `int` does.
pub craft_exchanges :
    (m : Dict ℤ) (id : ℤ) {d : RecipeDef} (j : String)
    → recipe_defs id ≡ some d
    → can_craft m id ≡ true
    → count_of j (craft m id).0
      ≡ topped_up (count_of j m -ℤ count_of j d.inputs) (count_of j d.outputs)
unfolding craft can_craft
craft_exchanges m id {d} j e h =
    let (ins, outs) = recipe_defs-IsBill id e in
    let enough : has_enough m d.inputs ≡ true = ground (arith, e, h) in
    let left : count_of j (consume m d.inputs) ≡ count_of j m -ℤ count_of j d.inputs =
      moved_over _ _ _ (count_of-consume j m d.inputs ins enough) in
    ground (arith, left, count_of-produce j (consume m d.inputs) d.outputs outs)

-- A build succeeds exactly when `CanBuildObjectType` says so, and a refused one changes nothing.
pub build_object-can_build :
    (m : Dict ℤ) (t : String) (x y : ℤ)
    → is_some (build_object m t x y).1 ≡ can_build_object_type m t
unfolding build_object can_build_object_type
build_object-can_build m t x y = ground arith

pub build_object_refused :
    (m : Dict ℤ) (t : String) (x y : ℤ)
    → can_build_object_type m t ≡ false
    → build_object m t x y ≡ (m, none)
unfolding build_object can_build_object_type
build_object_refused m t x y h = ground arith

-- A build takes the cost of its object and nothing else, and puts the object where it is wanted.
pub build_object_charges :
    (m : Dict ℤ) (t : String) (x y : ℤ) {d : BuildDef} (j : String)
    → build_defs_by_object_type (normal t) ≡ some d
    → can_build_object_type m t ≡ true
    → ((build_object m t x y).1 ≡ some (record { kind = d.kind; x = x; y = y }))
      × (count_of j (build_object m t x y).0 +ℤ count_of j d.cost ≡ count_of j m)
unfolding build_object can_build_object_type
build_object_charges m t x y {d} j e h =
    let bill = build_defs-IsBill (normal t) e in
    (ground arith, grind (arith, count_of-consume j m d.cost bill))

-- The costs by kind and the costs by object type agree: `CanBuild` foretells `Build`.
pub build-can_build :
    (m : Dict ℤ) (k : BuildKind) (x y : ℤ) → is_some (build m k x y).1 ≡ can_build m k
unfolding build build_object can_build build_defs_by_object_type normal
build-can_build m BuildKind.no_kind x y = refl
build-can_build m _ x y = ground arith

recipe_outputs : (id : ℤ) {d : RecipeDef} → recipe_defs id ≡ some d → amount_of d.outputs ≤ 4
unfolding recipe_defs lookup
recipe_outputs id h = ground arith

-- Crafting and building leave no count negative, and a craft adds at most four to one.
pub craft-IsWithin :
    (b : ℕ) (m : Dict ℤ) (id : ℤ)
    → b + 4 ≤ max_int64
    → IsWithin b m
    → IsWithin (b + 4) (craft m id).0
unfolding craft
craft-IsWithin b m id room h j = elim (Option-cases (recipe_defs id)) [
  | inl absent ↦ ground (arith, h j)
  | inr (d, e) ↦ ground (
    arith,
    h j,
    recipe_outputs id e,
    produce-IsWithin b (consume m d.inputs) d.outputs (omega (arith, recipe_outputs id e))
        (consume-IsWithin b m d.inputs h) j,
  )
]

pub build_object-IsWithin :
    (b : ℕ) (m : Dict ℤ) (t : String) (x y : ℤ) → IsWithin b m → IsWithin b (build_object m t x y).0
unfolding build_object
build_object-IsWithin b m t x y h j = elim (Option-cases (build_defs_by_object_type (normal t))) [
  | inl absent ↦ ground (arith, h j)
  | inr (d, e) ↦ ground (arith, h j, consume-IsWithin b m d.cost h j)
]
