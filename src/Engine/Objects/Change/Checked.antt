-- ===== src/Engine/Objects/Change/Checked.antt =====
-- internal/app/action/action_object.go: what is known of an action that has passed its checks.

use clawvival.Base.{
  ◌≡◌, ◌⊎◌, inl, inr, refl, ap, arith, ℤ, pos, ◌+ℤ◌, ◌≤ℤ◌, ltb_ℤ, true, false, ◌&&◌, Bool-cases,
  Option-cases, some, List, [], ◌∷◌,
}
use clawvival.Survival.Types.{AgentStateAggregate, ItemAmount}
use clawvival.Ports.{Error, Result, returned, raised, WorldObjectRecord}
use clawvival.Ports.Monad.{both_passed}
use clawvival.Engine.Context.{BoxObjectState, FarmObjectState, PreparedObjectAction, Formats}
use clawvival.Engine.Intent.{has_valid_items, all_valid, is_valid_item}
use clawvival.Engine.Objects.{
  Prepared, prepare_box, with_box, with_object, deposit_checks, withdraw_checks,
  parse_box_object_state, total_count, is_box_object, zero_farm, prepared,
}
use clawvival.Engine.Objects.Change.Returned.{Counted}
use clawvival.Base.Duration.{wrap}

all_valid-Counted : (items : List ItemAmount) → all_valid items ≡ true → Counted items
unfolding all_valid is_valid_item
all_valid-Counted [] h = tt
all_valid-Counted (item ∷ items) h = elim (Bool-cases (is_valid_item item)) [
  | inr bad ↦ absurd (cc (rw bad at h))
  | inl good ↦ (ground (arith, good), all_valid-Counted items (rw good at h))
]

pub has_valid_items-Counted :
    (items : List ItemAmount) → has_valid_items items ≡ true → Counted items
unfolding has_valid_items
has_valid_items-Counted [] h = absurd (cc h)
has_valid_items-Counted (item ∷ items) h = all_valid-Counted (item ∷ items) h

-- What a prepared box action knows of its object.
pub prepare_box-some :
    (formats : Formats) (checks : WorldObjectRecord → BoxObjectState → Prepared)
    (obj : WorldObjectRecord) {p : PreparedObjectAction}
    → prepare_box formats checks obj ≡ returned (some p)
    → (box : BoxObjectState) × (parse_box_object_state formats obj.object_state ≡ some box)
      × (checks obj box ≡ returned (some p))
unfolding prepare_box with_box
prepare_box-some formats checks obj h = elim (Bool-cases (is_box_object obj)) [
  | inr other ↦ absurd (cc (rw other at h))
  | inl is_box ↦ elim (Option-cases (parse_box_object_state formats obj.object_state)) [
    | inl broken ↦ absurd (cc (rw (is_box, broken) at h))
    | inr (box, e) ↦ (box, e, rw (is_box, e) at h)
  ]
]

abbrev pub HasRoom : WorldObjectRecord → ℤ → Type 0
HasRoom obj total =
    (obj.capacity_slots ≤ℤ pos 0) ⊎ (wrap (obj.used_slots +ℤ total) ≤ℤ obj.capacity_slots)

has_room :
    (obj : WorldObjectRecord) (total : ℤ)
    → (ltb_ℤ (pos 0) obj.capacity_slots
        && ltb_ℤ obj.capacity_slots (wrap (obj.used_slots +ℤ total)))
      ≡ false
    → HasRoom obj total
has_room obj total h = elim (Bool-cases (ltb_ℤ (pos 0) obj.capacity_slots)) [
  | inl bounded ↦ inr (ground (arith, h, bounded))
  | inr unbounded ↦ inl (ground (arith, unbounded))
]

pub prepared-eq :
    (obj : WorldObjectRecord) (box : BoxObjectState) (farm : FarmObjectState)
    {p : PreparedObjectAction}
    → prepared obj box farm ≡ some p
    → (p.object ≡ obj) × (p.box ≡ box) × (p.farm ≡ farm)
prepared-eq obj box farm {p} h =
    let made : PreparedObjectAction = record { object = obj; box = box; farm = farm } in
    let e : p ≡ made = cc h in
    (
      ap (λ (q : PreparedObjectAction). q.object) e,
      ap (λ (q : PreparedObjectAction). q.box) e,
      ap (λ (q : PreparedObjectAction). q.farm) e,
    )

module _ (state : AgentStateAggregate) (items : List ItemAmount) (obj : WorldObjectRecord)
    (box : BoxObjectState) {p : PreparedObjectAction} where
  pub deposit_checks-some :
      deposit_checks state items obj box ≡ returned (some p)
      → (p.object ≡ obj) × (p.box ≡ box) × HasRoom obj (total_count items)
  unfolding deposit_checks
  deposit_checks-some h =
      let (_, fits, same) =
        both_passed Error.action_precondition_failed Error.container_full _ _ h in
      let (own, held, _) = prepared-eq obj box zero_farm same in
      (own, held, has_room obj (total_count items) fits)

  pub withdraw_checks-some :
      withdraw_checks state items obj box ≡ returned (some p) → (p.object ≡ obj) × (p.box ≡ box)
  unfolding withdraw_checks
  withdraw_checks-some h =
      let (_, _, same) = both_passed Error.action_precondition_failed Error.inventory_full _ _ h in
      let (own, held, _) = prepared-eq obj box zero_farm same in (own, held)

pub with_object-some :
    (r : Result WorldObjectRecord) (prepare : WorldObjectRecord → Prepared)
    {p : PreparedObjectAction}
    → with_object r prepare ≡ returned (some p)
    → (obj : WorldObjectRecord) × (r ≡ returned obj) × (prepare obj ≡ returned (some p))
unfolding with_object
with_object-some (returned obj) prepare h = (obj, refl, h)
with_object-some (raised Error.not_found) prepare h = absurd (cc h)
with_object-some (raised e) prepare h = absurd (cc h)
