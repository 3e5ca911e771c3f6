-- ===== src/Survival/Tests.antt =====
-- Runs of the settlement at fixed inputs, and the theorems at inputs that meet their hypotheses.
use clawvival.Base.{
  ◌≤◌, ◌+◌, pos, negsuc, ◌*ℤ◌, ◌+ℤ◌, ◌-ℤ◌, ◌≤ℤ◌, ◌≡◌, ◌≢◌, ◌↔◌, refl, arith, true, none, some, List,
  [], ◌∷◌, is_some, leb_ℤ, min_ℤ, str_eq, if◌then◌else◌,
}
use clawvival.Base.Text.{normal}
use clawvival.Base.Dict.{lookup}
use clawvival.Base.Duration.{wrap}
use clawvival.Survival.Production.Stock.{topped_up}
use clawvival.Survival.Settlement.Stock.{most}
use clawvival.Survival.Types.{ActionType, DomainEvent}
use clawvival.Survival.Tuning.{hp_drain_cap_per30, default_farm_grow_minutes}
use clawvival.Survival.State.{count_of}
use clawvival.Survival.State.Counts.{IsWithin}
use clawvival.Survival.Rules.{
  BuildKind, FoodId, recipe_defs, plank_def, BuildDef, build_defs_by_object_type,
}
use clawvival.Survival.Production.{
  has_enough, apply_gather, gather_multiplier, craft, can_craft, build, can_build, build_object,
  can_build_object_type, plant_seed, harvest_farm, can_plant_seed, eat, can_eat,
}
use clawvival.Survival.Production.Exchange.{craft_exchanges, build_object_charges, build-can_build}
use clawvival.Survival.Production.Growth.{
  apply_gather-IsWithin, apply_gather_one, eat_feeds, eat_above_full, tick_all, counted, season,
}
use clawvival.Survival.Drain.{
  scaled_int, energy_loss_potential, hunger_loss_potential, apply_dual_cap,
}
use clawvival.Survival.Settlement.{settle, hp_losses}
use clawvival.Survival.Costs.Charged.{published_is_charged}
use clawvival.Survival.Samples.{logs, starving, building, half_hour, daytime, settled, settles}
use clawvival.Survival.Settlement.Minutes.{settle-eq-none}
use clawvival.Survival.Settlement.Report.{Accounts, settle_reports}
use clawvival.Survival.Settlement.Health.{IsCapped, apply_dual_cap-IsCapped, hp_losses-IsCapped}
use clawvival.Survival.Settlement.Outcome.{IsOutcome, settle-IsOutcome, settle_stock}
use clawvival.Survival.Settlement.Bounds.{settle_hp}
use clawvival.Survival.Settlement.Home.{gap, retreats, retreats_home}

loss_rounds_down : energy_loss_potential (negsuc 59) 25 ≡ pos 1
unfolding energy_loss_potential
loss_rounds_down = refl

hunger_loss_runs : hunger_loss_potential (negsuc 24) 15 ≡ pos 1
unfolding hunger_loss_potential
hunger_loss_runs = refl

scaled_runs : scaled_int (negsuc 5) 15 ≡ negsuc 2
unfolding scaled_int
scaled_runs = refl

logs-IsWithin : IsWithin 9 logs
unfolding count_of lookup
logs-IsWithin j = ground arith

settle-IsOutcome_example : IsOutcome starving 2000 settled
settle-IsOutcome_example = settle-IsOutcome starving building half_hour 2000 daytime settles

settle_reports_example :
    (e : DomainEvent) × (rest : List DomainEvent) × (settled.events ≡ e ∷ rest)
    × Accounts starving.vitals settled.updated_state.vitals e
settle_reports_example = settle_reports starving building half_hour 2000 daytime settles

settle_hp_example :
    (settled.updated_state.vitals.hp ≤ℤ pos 100)
    × (pos 40 ≤ℤ settled.updated_state.vitals.hp +ℤ scaled_int hp_drain_cap_per30 30)
settle_hp_example = settle_hp starving building half_hour 2000 daytime (omega arith) settles

settle_stock_example : IsWithin (9 + most building daytime) settled.updated_state.inventory
settle_stock_example =
    settle_stock starving building half_hour 2000 daytime 9 (omega arith) logs-IsWithin settles

hp_losses-IsCapped_example :
    IsCapped
      (hunger_loss_potential (negsuc 49) 30)
      (energy_loss_potential (pos 60) 30)
      (scaled_int hp_drain_cap_per30 30)
      (hp_losses starving.vitals 30)
hp_losses-IsCapped_example = hp_losses-IsCapped starving.vitals 30

apply_dual_cap-IsCapped_example :
    IsCapped (pos 6) (pos 5) (pos 8) (apply_dual_cap (pos 6) (pos 5) (pos 8))
apply_dual_cap-IsCapped_example =
    apply_dual_cap-IsCapped (pos 6) (pos 5) (pos 8) (omega arith) (omega arith) (omega arith)

no_time_no_settlement :
    (settle starving building (record { minutes = pos 0 }) 2000 daytime ≡ none) ↔ (pos 0 ≤ℤ pos 0)
no_time_no_settlement = settle-eq-none starving building (record { minutes = pos 0 }) 2000 daytime

near_x : gap (pos 2) (pos 0) ≤ 2
unfolding ◌-ℤ◌
near_x = omega arith

near_y : gap (negsuc 0) (pos 0) ≤ 2
unfolding ◌-ℤ◌
near_y = omega arith

retreats_home_example :
    retreats 2 (record { x = pos 2; y = negsuc 0 }) (record { x = pos 0; y = pos 0 })
    ≡ record { x = pos 0; y = pos 0 }
retreats_home_example =
    retreats_home 2 (record { x = pos 2; y = negsuc 0 }) (record { x = pos 0; y = pos 0 }) near_x
      near_y

plank_known : recipe_defs (pos 1) ≡ some plank_def
unfolding recipe_defs
plank_known = refl

plank_craftable : can_craft logs (pos 1) ≡ true
unfolding can_craft recipe_defs has_enough count_of lookup
plank_craftable = refl

craft_exchanges_example :
    count_of "wood" (craft logs (pos 1)).0
    ≡ topped_up
        (count_of "wood" logs -ℤ count_of "wood" plank_def.inputs)
        (count_of "wood" plank_def.outputs)
craft_exchanges_example = craft_exchanges logs (pos 1) "wood" plank_known plank_craftable

abbrev torch_def : BuildDef
torch_def = record { kind = BuildKind.torch; cost = ("wood", pos 1) ∷ [] }

torch_known : build_defs_by_object_type (normal " Torch") ≡ some torch_def
unfolding build_defs_by_object_type normal
torch_known = refl

torch_buildable : can_build_object_type logs " Torch" ≡ true
unfolding can_build_object_type build_defs_by_object_type has_enough count_of lookup normal
torch_buildable = refl

charged_for_torch :
    ((build_object logs " Torch" (pos 1) (pos 2)).1
      ≡ some (record { kind = BuildKind.torch; x = pos 1; y = pos 2 }))
    × (count_of "wood" (build_object logs " Torch" (pos 1) (pos 2)).0
          +ℤ count_of "wood" torch_def.cost
        ≡ count_of "wood" logs)
charged_for_torch =
    build_object_charges logs " Torch" (pos 1) (pos 2) "wood" torch_known torch_buildable

builds_when_allowed :
    is_some (build logs BuildKind.bed (pos 0) (pos 0)).1 ≡ can_build logs BuildKind.bed
builds_when_allowed = build-can_build logs BuildKind.bed (pos 0) (pos 0)

gathered-IsWithin : IsWithin (9 + 10) (apply_gather (("wood", pos 3) ∷ ("stone", pos 2) ∷ []) logs)
gathered-IsWithin =
    apply_gather-IsWithin 9 (("wood", pos 3) ∷ ("stone", pos 2) ∷ []) logs (omega arith)
      logs-IsWithin

wood_is_doubled_by_no_tool : count_of "wood" (apply_gather (("wood", pos 3) ∷ []) logs) ≡ (
    if str_eq "wood" "wood"
    then wrap (count_of "wood" logs +ℤ wrap (pos 3 *ℤ gather_multiplier logs "wood"))
    else count_of "wood" logs)
wood_is_doubled_by_no_tool = apply_gather_one "wood" (pos 3) logs "wood" (omega arith)

berries_edible : can_eat logs FoodId.berry ≡ true
unfolding can_eat count_of lookup
berries_edible = refl

bite_of_berry :
    ((eat logs (pos 90) FoodId.berry).1 ≡ min_ℤ (pos 100) (pos 90 +ℤ pos 20))
    × (count_of "berry" (eat logs (pos 90) FoodId.berry).0 ≡ (
        if str_eq "berry" "berry" then count_of "berry" logs -ℤ pos 1 else count_of "berry" logs))
bite_of_berry = eat_feeds logs (pos 90) FoodId.berry "berry" refl berries_edible

bite_when_full : (eat logs (pos 130) FoodId.berry).1 ≡ pos 100
bite_when_full = eat_above_full logs (pos 130) FoodId.berry (omega arith) berries_edible

seed_there : can_plant_seed logs ≡ true
unfolding can_plant_seed count_of lookup
seed_there = refl

season_example :
    let (sown, plot, planted) = plant_seed logs in
    let (after, left, harvested) =
      harvest_farm sown (tick_all plot (pos 20 ∷ negsuc 4 ∷ pos 40 ∷ [])) in
    (planted ≡ true)
    × (harvested ≡ leb_ℤ default_farm_grow_minutes (counted (pos 20 ∷ negsuc 4 ∷ pos 40 ∷ [])))
    × (count_of "seed" after +ℤ pos 1 ≡ count_of "seed" logs)
    × (count_of "wheat" after
        ≡ (if harvested then wrap (count_of "wheat" logs +ℤ pos 2) else count_of "wheat" logs))
season_example = season logs (pos 20 ∷ negsuc 4 ∷ pos 40 ∷ []) seed_there

build_not_eat : ActionType.build ≢ ActionType.eat
build_not_eat e = cc e

build_not_sleep : ActionType.build ≢ ActionType.sleep
build_not_sleep e = cc e

published_is_charged_example :
    (settled.updated_state.vitals.hunger ≡ negsuc 49 +ℤ (negsuc 0 -ℤ pos 0))
    × (settled.updated_state.vitals.energy ≡ pos 60 +ℤ negsuc 5)
published_is_charged_example =
    published_is_charged starving building 2000 daytime settles refl build_not_eat build_not_sleep
