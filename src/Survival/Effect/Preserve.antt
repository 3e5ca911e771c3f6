-- ===== src/Survival/Effect/Preserve.antt =====
-- internal/domain/survival/service_settlement.go: the elementary changes that an action is made
-- of.
use clawvival.Base.{
  ℕ, ℤ, pos, ◌≤ℤ◌, String, Option, arith, Bool-cases, Option-cases, inl, inr, str_eq, not, ◌||◌,
  eqb_ℤ,
}
use clawvival.Base.Text.{to_upper, trim_space}
use clawvival.Base.Dict.{Dict}
use clawvival.Survival.Types.{Time, ActionType, ActionIntent, WorldSnapshot}
use clawvival.Survival.Rules.{BuiltObject}
use clawvival.Survival.Drain.{scaled_int}
use clawvival.Survival.Effect.{
  Work, change_hunger, change_energy, change_hp, charge, sleep_for, build_for, retreat_for, eat_for,
  set_inventory, move_by, report_build, act, sleep_recovery_by_quality, build_kind_from_intent,
}

-- `P` is kept by each change that an action at a time is made of.
pub record Keeps (now : Time) (P : Work → Type 0) : Type 0 where
  pub hunger : (d : ℤ) (code : String) (w : Work) → P w → P (change_hunger d code w)
  pub energy : (d : ℤ) (code : String) (w : Work) → P w → P (change_energy d code w)
  pub health : (d : ℤ) (code : String) (w : Work) → pos 0 ≤ℤ d → P w → P (change_hp d code w)
  pub bag : (m : Dict ℤ) (w : Work) → P w → P (set_inventory m w)
  pub place : (dx dy : ℤ) (w : Work) → P w → P (move_by dx dy w)
  pub built : (b : Option BuiltObject) (w : Work) → P w → P (report_build now b w)
  pub fed : (i : ActionIntent) (w : Work) → P w → P (eat_for i w)

pos_nonneg : (n : ℕ) → pos 0 ≤ℤ pos n
pos_nonneg n = omega arith

pub scaled_int_nonneg : (n dt : ℕ) → pos 0 ≤ℤ scaled_int (pos n) dt
unfolding scaled_int
scaled_int_nonneg n dt = pos_nonneg _

-- Sleep gives health and never takes any.
sleep_hp_nonneg : (q : String) (dt : ℕ) → pos 0 ≤ℤ scaled_int (sleep_recovery_by_quality q).2 dt
unfolding sleep_recovery_by_quality
sleep_hp_nonneg q dt = elim (Bool-cases (str_eq (to_upper (trim_space q)) "GOOD")) [
  | inl good ↦ rw good (scaled_int_nonneg 10 dt)
  | inr rough ↦ rw rough (scaled_int_nonneg 6 dt)
]

module _ {now : Time} {P : Work → Type 0} (k : Keeps now P) where
  open k use {hunger, energy, health, bag, place, built, fed}

  charge_keeps : (dt : ℕ) (a b : ℤ) (code : String) (w : Work) → P w → P (charge dt a b code w)
  unfolding charge
  charge_keeps dt a b code w x = hunger _ code _ (energy _ code w x)

  sleep_for_keeps : (i : ActionIntent) (dt : ℕ) (w : Work) → P w → P (sleep_for i dt w)
  unfolding sleep_for
  sleep_for_keeps i dt w x =
      health _ _ _ (sleep_hp_nonneg i.bed_quality dt) (energy _ _ _ (hunger _ _ w x))

  build_for_keeps : (i : ActionIntent) (w : Work) → P w → P (build_for i now w)
  unfolding build_for
  build_for_keeps i w x = elim (Option-cases (build_kind_from_intent i.object_type)) [
    | inl unknown ↦ rw (unknown, build_for) x
    | inr (kind, known) ↦ rw (known, build_for) (built _ _ (bag _ w x))
  ]

  retreat_for_keeps : (i : ActionIntent) (w : Work) → P w → P (retreat_for i w)
  unfolding retreat_for
  retreat_for_keeps i w x =
      elim (Bool-cases (not (eqb_ℤ i.dx (pos 0)) || not (eqb_ℤ i.dy (pos 0)))) [
        | inl moves ↦ rw moves (place _ _ w x)
        | inr stays ↦ rw stays x
      ]

  pub act_keeps :
      (t : ActionType) (i : ActionIntent) (dt : ℕ) (s : WorldSnapshot) (w : Work)
      → P w
      → P (act t i dt now s w)
  unfolding act
  act_keeps ActionType.gather i dt s w x = bag _ _ (charge_keeps dt _ _ _ w x)
  act_keeps ActionType.rest i dt s w x = energy _ _ _ (hunger _ _ w x)
  act_keeps ActionType.sleep i dt s w x = sleep_for_keeps i dt w x
  act_keeps ActionType.move i dt s w x = place _ _ _ (hunger _ _ _ (energy _ _ w x))
  act_keeps ActionType.build i dt s w x = build_for_keeps i _ (charge_keeps dt _ _ _ w x)
  act_keeps ActionType.container_deposit i dt s w x = bag _ _ (energy _ _ w x)
  act_keeps ActionType.container_withdraw i dt s w x = bag _ _ (energy _ _ w x)
  act_keeps ActionType.retreat i dt s w x = retreat_for_keeps i _ (energy _ _ w x)
  act_keeps ActionType.eat i dt s w x = fed i w x
  act_keeps ActionType.terminate i dt s w x = x
  act_keeps (ActionType.other t) i dt s w x = x
  act_keeps _ i dt s w x = bag _ _ (charge_keeps dt _ _ _ w x)
