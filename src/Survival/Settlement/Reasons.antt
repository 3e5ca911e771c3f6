-- ===== src/Survival/Settlement/Reasons.antt =====
-- internal/domain/survival/service_settlement.go: the reasons for the changes of the vitals.
use clawvival.Base.{ℕ, ℤ, pos, ◌+ℤ◌, ◌≡◌, String, Option, List, [], ◌∷◌, ◌++◌, arith, int_laws}
use clawvival.Survival.Types.{Time, AgentStateAggregate, ActionIntent, WorldSnapshot}
use clawvival.Survival.Payload.{
  Reason, append_reason, apply_reasoned_delta, apply_reasoned_hp_delta,
}
use clawvival.Survival.Effect.{Work, change_hunger, change_energy, change_hp, eat_for, report_build}
use clawvival.Survival.Effect.Preserve.{Keeps, act_keeps}
use clawvival.Survival.Rules.{BuiltObject}
use clawvival.Survival.Settlement.{settle_action, start}

-- The deltas of a list of reasons, added up.
abbrev pub total : List Reason → ℤ
total [] = pos 0
total (r ∷ rs) = r.delta +ℤ total rs

total-append_one : (rs : List Reason) (r : Reason) → total (rs ++ r ∷ []) ≡ total rs +ℤ r.delta
total-append_one [] r = omega int_laws
total-append_one (q ∷ rs) r = grind (int_laws, total-append_one rs r)

pub total-append_reason :
    (rs : List Reason) (code : String) (d : ℤ) → total (append_reason rs code d) ≡ total rs +ℤ d
unfolding append_reason
total-append_reason rs code d =
    grind (int_laws, total-append_one rs (record { code = code; delta = d }))

-- Against a starting point the reasons give the present hunger and energy.
pub record IsExplained (h e g : ℤ) (w : Work) : Type 0 where
  pub hunger_explained : w.next.vitals.hunger ≡ h +ℤ total w.hunger_reasons
  pub energy_explained : w.next.vitals.energy ≡ e +ℤ total w.energy_reasons
  pub hp_explained : w.next.vitals.hp ≡ g +ℤ total w.hp_reasons

module _ {h e g : ℤ} where
  change_hunger-IsExplained :
      (d : ℤ) (code : String) (w : Work)
      → IsExplained h e g w
      → IsExplained h e g (change_hunger d code w)
  unfolding change_hunger apply_reasoned_delta
  change_hunger-IsExplained d code w x =
      grind (int_laws, x, total-append_reason w.hunger_reasons code d)

  change_energy-IsExplained :
      (d : ℤ) (code : String) (w : Work)
      → IsExplained h e g w
      → IsExplained h e g (change_energy d code w)
  unfolding change_energy apply_reasoned_delta
  change_energy-IsExplained d code w x =
      grind (int_laws, x, total-append_reason w.energy_reasons code d)

  change_hp-IsExplained :
      (d : ℤ) (code : String) (w : Work)
      → IsExplained h e g w
      → IsExplained h e g (change_hp d code w)
  unfolding change_hp apply_reasoned_hp_delta
  change_hp-IsExplained d code w x = grind (int_laws, x, total-append_reason)

  eat_for-IsExplained :
      (i : ActionIntent) (w : Work) → IsExplained h e g w → IsExplained h e g (eat_for i w)
  unfolding eat_for
  eat_for-IsExplained i w x = grind (int_laws, x, total-append_reason)

  report_build-IsExplained :
      (now : Time) (b : Option BuiltObject) (w : Work)
      → IsExplained h e g w
      → IsExplained h e g (report_build now b w)
  report_build-IsExplained now b w x = ground (arith, x)

  explained : (now : Time) → Keeps now (IsExplained h e g)
  explained now = record {
    hunger = change_hunger-IsExplained;
    energy = change_energy-IsExplained;
    health = λ d code w _. change_hp-IsExplained d code w;
    bag = λ m w x. ground (arith, x);
    place = λ dx dy w x. ground (arith, x);
    built = report_build-IsExplained now;
    fed = eat_for-IsExplained;
  }

-- After the action of a settlement the reasons account for all three vitals.
pub settle_action-IsExplained :
    (s : AgentStateAggregate) (i : ActionIntent) (dt : ℕ) (now : Time) (o : WorldSnapshot)
    → IsExplained s.vitals.hunger s.vitals.energy s.vitals.hp (settle_action s i dt now o)
unfolding settle_action
settle_action-IsExplained s i dt now o =
    act_keeps (explained now) i.type i dt o _
      (change_hunger-IsExplained _ _ (start s now) (grind int_laws))
