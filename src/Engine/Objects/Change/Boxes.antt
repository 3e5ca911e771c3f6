-- ===== src/Engine/Objects/Change/Boxes.antt =====
-- internal/app/action/action_object.go: the slots and the contents of a box.
use mathlib.Core.Path.{subst}
use clawvival.Base.{
  ◌≡◌, ◌⊎◌, inl, inr, refl, sym, ap, ◌∙◌, arith, ℤ, pos, ◌+ℤ◌, ◌-ℤ◌, ◌≤ℤ◌, ltb_ℤ, int_laws,
  -ℤ_parts, String, str_eq, true, false, some, List, if◌then◌else◌,
}
use clawvival.Base.Text.{trim_space}
use clawvival.Survival.Types.{Time, ActionType, AgentStateAggregate, ItemAmount, ActionIntent}
use clawvival.Survival.State.{count_of}
use clawvival.Ports.{returned, WorldObjectRecord, WorldObjectRepository}
use clawvival.Engine.Context.{BoxObjectState, PreparedObjectAction, Formats}
use clawvival.Engine.Intent.{has_valid_items, validator, has_valid_action_params}
use clawvival.Engine.Objects.{
  prepare_box, deposit_checks, withdraw_checks, prepare_with, prepare_object_action,
  parse_box_object_state, total_count,
}
use clawvival.Engine.Objects.Change.{
  deposited, withdrawn, planted, harvested, changed_object, put_in, take_out,
}
use clawvival.Engine.Objects.Change.Checked.{
  has_valid_items-Counted, prepare_box-some, HasRoom, deposit_checks-some, withdraw_checks-some,
  with_object-some,
}
use clawvival.Engine.Objects.Change.Returned.{
  Counted, take_out-put_in, full_count, full_count_nonneg, total_count_full,
}
use clawvival.Base.Duration.{wrap, wrap-small, max_int64}

-- The slots of an object are counted from zero, and to its capacity where it has one.
abbrev pub IsSlotted : WorldObjectRecord → Type 0
IsSlotted obj =
    (pos 0 ≤ℤ obj.used_slots)
    × ((obj.capacity_slots ≤ℤ pos 0) ⊎ (obj.used_slots ≤ℤ obj.capacity_slots))

-- The slots in use and all the counts together fit an `int`.
abbrev pub Fits : WorldObjectRecord → List ItemAmount → Type 0
Fits obj items = obj.used_slots +ℤ full_count items ≤ℤ pos max_int64

-- The slots in use with the counts added, or taken off, do not wrap around where they fit.
module _ (obj : WorldObjectRecord) (items : List ItemAmount) (c : Counted items)
    (low : pos 0 ≤ℤ obj.used_slots) (room : Fits obj items) where
  total : total_count items ≡ full_count items
  total = total_count_full items c (omega (int_laws, full_count_nonneg items c))

  slots_added : wrap (obj.used_slots +ℤ total_count items) ≡ obj.used_slots +ℤ full_count items
  slots_added = rw total (
      wrap-small (obj.used_slots +ℤ full_count items) (omega (int_laws, full_count_nonneg items c))
        room)

  slots_left : wrap (obj.used_slots -ℤ total_count items) ≡ obj.used_slots -ℤ full_count items
  slots_left = rw total (
      wrap-small (obj.used_slots -ℤ full_count items) (omega (int_laws, full_count_nonneg items c))
        (omega (int_laws, full_count_nonneg items c)))

taken_out :
    (u n cap left : ℤ)
    → pos 0 ≤ℤ u
    → pos 0 ≤ℤ n
    → left ≡ u -ℤ n
    → (cap ≤ℤ pos 0) ⊎ (u ≤ℤ cap)
    → let kept = if ltb_ℤ left (pos 0) then pos 0 else left in
      (pos 0 ≤ℤ kept) × ((cap ≤ℤ pos 0) ⊎ (kept ≤ℤ cap))
taken_out u n cap left h k e (inl unbounded) = (ground (arith, -ℤ_parts u n), inl unbounded)
taken_out u n cap left h k e (inr high) =
    (ground (arith, -ℤ_parts u n), inr (rw e (ground (arith, -ℤ_parts u n))))

module _ (formats : Formats) (state : AgentStateAggregate) (items : List ItemAmount)
    (obj : WorldObjectRecord) {p : PreparedObjectAction} where
  deposited-IsSlotted :
      Counted items
      → Fits p.object items
      → prepare_box formats (deposit_checks state items) obj ≡ returned (some p)
      → IsSlotted p.object
      → IsSlotted (deposited formats items p)
  unfolding deposited
  deposited-IsSlotted c fits h (low, high) =
      let (box, _, checked) = prepare_box-some formats (deposit_checks state items) obj h in
      let (own, _, room) = deposit_checks-some state items obj box checked in
      (
        rw (slots_added p.object items c low fits) (omega (int_laws, full_count_nonneg items c)),
        subst (λ (o : WorldObjectRecord). HasRoom o (total_count items)) (sym own) room,
      )

withdrawn-IsSlotted :
    (formats : Formats) (items : List ItemAmount) (p : PreparedObjectAction)
    → Counted items
    → Fits p.object items
    → IsSlotted p.object
    → IsSlotted (withdrawn formats items p)
unfolding withdrawn
withdrawn-IsSlotted formats items p c fits (low, high) =
    taken_out p.object.used_slots (full_count items) p.object.capacity_slots
      (wrap (p.object.used_slots -ℤ total_count items)) low (full_count_nonneg items c)
      (slots_left p.object items c low fits) high

module _ {S : Type 0} (formats : Formats) (now : Time) (agent_id : String)
    (repo : WorldObjectRepository S) (state : AgentStateAggregate) (i : ActionIntent) (s : S)
    {p : PreparedObjectAction} where
  changed-IsSlotted :
      (t : ActionType) (obj : WorldObjectRecord)
      → prepare_with formats now agent_id state i repo t s ≡ returned (some p)
      → validator t i ≡ true
      → changed_object formats now i p t ≡ some obj
      → Fits p.object i.items
      → IsSlotted p.object
      → IsSlotted obj
  unfolding prepare_with validator changed_object
  changed-IsSlotted ActionType.container_deposit obj h v e fits k =
      let valid : has_valid_items i.items ≡ true = ground (arith, v) in
      let (found, _, checked) =
        with_object-some (repo.get_by_object_id agent_id i.container_id s) _ h in
      let after : deposited formats i.items p ≡ obj = cc e in
      subst IsSlotted after (
        deposited-IsSlotted formats state i.items found (has_valid_items-Counted i.items valid) fits
          checked k)
  changed-IsSlotted ActionType.container_withdraw obj h v e fits k =
      let valid : has_valid_items i.items ≡ true = ground (arith, v) in
      let after : withdrawn formats i.items p ≡ obj = cc e in
      subst IsSlotted after
        (withdrawn-IsSlotted formats i.items p (has_valid_items-Counted i.items valid) fits k)
  changed-IsSlotted ActionType.farm_plant obj h v e fits k =
      let after : planted formats now p ≡ obj = cc e in subst IsSlotted after (unfold planted in k)
  changed-IsSlotted ActionType.farm_harvest obj h v e fits k =
      let after : harvested formats p ≡ obj = cc e in subst IsSlotted after (unfold harvested in k)
  changed-IsSlotted t obj h v e fits k = absurd (cc e)

-- Whatever an action with valid parameters makes of the object that was prepared for it, the slots
-- in use stay between zero and the capacity, where they and all the counts of the items together fit
-- an `int`.
pub changed_object-IsSlotted :
    {S : Type 0} (formats : Formats) (now : Time) (agent_id : String)
    (repo : WorldObjectRepository S) (state : AgentStateAggregate) (i : ActionIntent) (s : S)
    {p : PreparedObjectAction} {obj : WorldObjectRecord}
    → has_valid_action_params i ≡ true
    → prepare_object_action formats now agent_id (some repo) state i s ≡ returned (some p)
    → changed_object formats now i p i.type ≡ some obj
    → Fits p.object i.items
    → IsSlotted p.object
    → IsSlotted obj
unfolding prepare_object_action has_valid_action_params
changed_object-IsSlotted formats now agent_id repo state i s {p} {obj} v h e fits k =
    changed-IsSlotted formats now agent_id repo state i s i.type obj h v e fits k

-- A box after a deposit and a withdrawal of the same items: the slots in use are those before, and
-- so is what its state holds of an item.
pub record IsReturned (formats : Formats) (name : String) (before : PreparedObjectAction)
    (after : WorldObjectRecord) : Type 0 where
  pub same_slots : after.used_slots ≡ before.object.used_slots
  pub box : BoxObjectState
  pub written : after.object_state ≡ formats.encode_box box
  pub same_count : count_of name box.inventory ≡ count_of name before.box.inventory

back_again :
    (obj : WorldObjectRecord) (items : List ItemAmount)
    → Counted items
    → pos 0 ≤ℤ obj.used_slots
    → Fits obj items
    → let left = wrap (wrap (obj.used_slots +ℤ total_count items) -ℤ total_count items) in
      (if ltb_ℤ left (pos 0) then pos 0 else left) ≡ obj.used_slots
back_again obj items c low room =
    let u = obj.used_slots in
    let n = full_count items in
    let counts = full_count_nonneg items c in
    let back : u +ℤ n -ℤ n ≡ u = omega int_laws in
    let small : wrap u ≡ u = wrap-small u (omega int_laws) (omega int_laws) in
    rw (slots_added obj items c low room, total obj items c low room, back, small) (ground arith)

abbrev with_items : PreparedObjectAction → List ItemAmount → BoxObjectState
with_items p items = record { inventory = put_in items p.box.inventory }

-- JSON read back as it was written, from a text that is not blank.
parsed_back :
    (formats : Formats) (box : BoxObjectState)
    → str_eq (trim_space (formats.encode_box box)) "" ≡ false
    → formats.decode_box (formats.encode_box box) ≡ some box
    → parse_box_object_state formats (formats.encode_box box) ≡ some box
unfolding parse_box_object_state
parsed_back formats box text json = rw (text, json) refl

-- A deposit and then a withdrawal of the same items, which passes its checks: the box is left with
-- the slots in use and with what it held of each item before, where the JSON of its state reads
-- back, and where neither was negative or would not fit an `int` with all the counts added.
pub deposit-withdraw :
    (formats : Formats) (state state' : AgentStateAggregate) (items : List ItemAmount)
    (obj : WorldObjectRecord) (name : String) {p q : PreparedObjectAction}
    → has_valid_items items ≡ true
    → prepare_box formats (deposit_checks state items) obj ≡ returned (some p)
    → prepare_box formats (withdraw_checks state' items) (deposited formats items p)
      ≡ returned (some q)
    → str_eq (trim_space (formats.encode_box (with_items p items))) "" ≡ false
    → formats.decode_box (formats.encode_box (with_items p items)) ≡ some (with_items p items)
    → pos 0 ≤ℤ p.object.used_slots
    → Fits p.object items
    → pos 0 ≤ℤ count_of name p.box.inventory
    → count_of name p.box.inventory +ℤ full_count items ≤ℤ pos max_int64
    → IsReturned formats name p (withdrawn formats items q)
unfolding deposited withdrawn
deposit-withdraw formats state state' items obj name {p} {q} v h k text json low fits held room =
    let full = deposited formats items p in
    let (box, parsed, checked) = prepare_box-some formats (withdraw_checks state' items) full k in
    let (own, kept) = withdraw_checks-some state' items full box checked in
    let read : box ≡ with_items p items =
      cc (sym parsed ∙ parsed_back formats (with_items p items) text json) in
    let counted = has_valid_items-Counted items v in
    let contents : q.box.inventory ≡ put_in items p.box.inventory =
      ap (λ (b : BoxObjectState). b.inventory) (kept ∙ read) in
    record {
      same_slots =
          ap
            (λ (o : WorldObjectRecord).
              let left = wrap (o.used_slots -ℤ total_count items) in
              if ltb_ℤ left (pos 0) then pos 0 else left)
            own
          ∙ back_again p.object items counted low fits;
      box = record { inventory = take_out items q.box.inventory };
      written = refl;
      same_count =
          ap (λ m. count_of name (take_out items m)) contents
          ∙ take_out-put_in name items p.box.inventory counted held room;
    }
