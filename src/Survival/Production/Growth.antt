-- ===== src/Survival/Production/Growth.antt =====
-- internal/domain/survival/production.go: gathering, farming and eating.
use clawvival.Base.{
  ℕ, ◌+◌, ◌≤◌, pos_part, ℤ, pos, ◌+ℤ◌, ◌-ℤ◌, ◌*ℤ◌, ◌≤ℤ◌, ◌<ℤ◌, leb_ℤ, String, true, false, ◌≡◌,
  refl, ◌∙◌, ap, arith, Bool-cases, inl, inr, some, List, [], ◌∷◌, min_ℤ, str_eq, eq_iff,
  if◌then◌else◌, int_laws,
}
use clawvival.Base.Dict.{Dict, insert}
use clawvival.Base.Duration.{wrap, wrap-small, max_int64}
use clawvival.Survival.Rules.{FoodId, FoodDef, food_defs, FarmPlot}
use clawvival.Survival.State.{count_of, consume_item}
use clawvival.Survival.State.Counts.{count_of-insert, count_of-add_item, IsWithin, insert-IsWithin}
use clawvival.Survival.Tuning.{default_farm_grow_minutes}
use clawvival.Survival.Production.{
  apply_gather, gather_multiplier, tick_farm, harvest_farm, plant_seed, can_plant_seed, can_eat,
  eat, new_plot,
}

-- The multiplier is one or two.
multiplied :
    (m : Dict ℤ) (k : String) (q : ℤ)
    → pos 0 ≤ℤ q
    → (q ≤ℤ q *ℤ gather_multiplier m k)
      × (pos_part (q *ℤ gather_multiplier m k) ≤ pos_part q + pos_part q)
unfolding gather_multiplier ◌*ℤ◌
multiplied m k q h = ground arith

-- What is there to gather, doubled.
abbrev pub nearby_twice : Dict ℤ → ℕ
nearby_twice [] = 0
nearby_twice ((k, q) ∷ near) = pos_part q + pos_part q + nearby_twice near

-- Gathering leaves no count negative, and adds at most twice what is there.
pub apply_gather-IsWithin :
    (b : ℕ) (near m : Dict ℤ)
    → b + nearby_twice near ≤ max_int64
    → IsWithin b m
    → IsWithin (b + nearby_twice near) (apply_gather near m)
unfolding apply_gather
apply_gather-IsWithin b [] m room h j = omega (arith, h j)
apply_gather-IsWithin b ((k, q) ∷ near) m room h j = elim (Bool-cases (leb_ℤ q (pos 0))) [
  | inl none_there ↦ rw none_there (omega (arith, apply_gather-IsWithin b near m (omega arith) h j))
  | inr some_there ↦
      let gain = q *ℤ gather_multiplier m k in
      let there : pos 0 ≤ℤ q = ground (arith, some_there) in
      let (grows, small) = multiplied m k q there in
      let fits : wrap gain ≡ gain = wrap-small gain (omega arith) (omega arith) in
      let twice = pos_part q + pos_part q in
      let gathered = insert k (wrap (count_of k m +ℤ wrap gain)) m in
      let held : IsWithin (b + twice) gathered =
        rw fits (insert-IsWithin b twice k gain m (omega arith) (omega arith) (omega arith) h) in
      rw some_there
        (omega (arith, apply_gather-IsWithin (b + twice) near gathered (omega arith) held j))
]

-- Gathering one resource adds its quantity, doubled by the tool for it.
pub apply_gather_one :
    (k : String) (q : ℤ) (m : Dict ℤ) (j : String)
    → pos 0 <ℤ q
    → count_of j (apply_gather ((k, q) ∷ []) m) ≡ (
        if str_eq k j
        then wrap (count_of j m +ℤ wrap (q *ℤ gather_multiplier m k))
        else count_of j m)
unfolding apply_gather
apply_gather_one k q m j h = ground (
  arith,
  count_of-insert k j (wrap (count_of k m +ℤ wrap (q *ℤ gather_multiplier m k))) m,
  eq_iff k j,
)

-- A bite is taken exactly when `CanEat` says so.
pub eat-can_eat : (m : Dict ℤ) (h : ℤ) (f : FoodId) → (eat m h f).2 ≡ can_eat m f
unfolding eat can_eat consume_item
eat-can_eat m h FoodId.no_food = refl
eat-can_eat m h _ = ground arith

-- A bite takes one of the food and raises the hunger by what the food recovers, up to 100.
pub eat_feeds :
    (m : Dict ℤ) (h : ℤ) (f : FoodId) {d : FoodDef} (j : String)
    → food_defs f ≡ some d
    → can_eat m f ≡ true
    → ((eat m h f).1 ≡ min_ℤ (pos 100) (h +ℤ d.hunger_recover))
      × (count_of j (eat m h f).0
          ≡ (if str_eq d.item_name j then count_of j m -ℤ pos 1 else count_of j m))
unfolding eat can_eat consume_item
eat_feeds m h FoodId.no_food j e c = cc
eat_feeds m h _ {d} j e c = (
  ground arith,
  ground (
    arith,
    count_of-insert d.item_name j (count_of d.item_name m -ℤ pos 1) m,
    eq_iff d.item_name j,
  ),
)

-- A bite when the hunger is above 100 lowers it.
pub eat_above_full :
    (m : Dict ℤ) (h : ℤ) (f : FoodId) → pos 100 <ℤ h → can_eat m f ≡ true → (eat m h f).1 ≡ pos 100
unfolding eat can_eat consume_item
eat_above_full m h FoodId.no_food big c = cc
eat_above_full m h _ big c = grind int_laws

-- Ticking a plot, one delay after the other.
abbrev pub tick_all : FarmPlot → List ℤ → FarmPlot
tick_all p [] = p
tick_all p (dt ∷ dts) = tick_all (tick_farm p dt) dts

-- The minutes that count: `TickFarm` ignores a delay that is not positive.
abbrev pub counted : List ℤ → ℤ
counted [] = pos 0
counted (dt ∷ dts) = (if leb_ℤ dt (pos 0) then pos 0 else dt) +ℤ counted dts

counted_nonneg : (dts : List ℤ) → pos 0 ≤ℤ counted dts
counted_nonneg [] = omega arith
counted_nonneg (dt ∷ dts) = grind (int_laws, counted_nonneg dts)

tick_farm_ready : (p : FarmPlot) (dt : ℤ) → p.ready ≡ true → tick_farm p dt ≡ p
unfolding tick_farm
tick_farm_ready p dt h = ground arith

tick_all_ready : (p : FarmPlot) (dts : List ℤ) → p.ready ≡ true → tick_all p dts ≡ p
tick_all_ready p [] h = refl
tick_all_ready p (dt ∷ dts) h = rw (tick_farm_ready p dt h) (tick_all_ready p dts h)

tick_farm_idle : (p : FarmPlot) (dt : ℤ) → leb_ℤ dt (pos 0) ≡ true → tick_farm p dt ≡ p
unfolding tick_farm
tick_farm_idle p dt h = ground arith

tick_farm_grows :
    (p : FarmPlot) (dt : ℤ)
    → p.ready ≡ false
    → leb_ℤ dt (pos 0) ≡ false
    → ((tick_farm p dt).growth_minutes ≡ p.growth_minutes +ℤ dt)
      × ((tick_farm p dt).ready ≡ leb_ℤ default_farm_grow_minutes (p.growth_minutes +ℤ dt))
unfolding tick_farm
tick_farm_grows p dt h k = ground arith

-- A plot that has grown for less than the time is ready after some more delays exactly when
-- these add up to the rest.
tick_all_grows :
    (p : FarmPlot) (dts : List ℤ)
    → p.ready ≡ false
    → p.growth_minutes <ℤ default_farm_grow_minutes
    → (tick_all p dts).ready ≡ leb_ℤ default_farm_grow_minutes (p.growth_minutes +ℤ counted dts)
tick_all_grows p [] h g = grind int_laws
tick_all_grows p (dt ∷ dts) h g = elim (Bool-cases (leb_ℤ dt (pos 0))) [
  | inl idle ↦
      ap (λ (q : FarmPlot). (tick_all q dts).ready) (tick_farm_idle p dt idle)
      ∙ tick_all_grows p dts h g
      ∙ grind int_laws
  | inr grows ↦
      let (minutes, ready) = tick_farm_grows p dt h grows in
      elim (Bool-cases (leb_ℤ default_farm_grow_minutes (p.growth_minutes +ℤ dt))) [
        | inl ripe ↦
            ap (λ (q : FarmPlot). q.ready) (tick_all_ready (tick_farm p dt) dts (ready ∙ ripe))
            ∙ grind (int_laws, counted_nonneg dts)
        | inr unripe ↦
            tick_all_grows (tick_farm p dt) dts (ready ∙ unripe) (grind int_laws) ∙ grind int_laws
      ]
]

-- From planting to harvest: a seed is taken, and after any delays the plot yields its two wheat
-- exactly when the delays that count add up to the growing time; otherwise nothing more changes.
-- The sum of the wheat wraps around as an `int` does.
pub season :
    (m : Dict ℤ) (dts : List ℤ)
    → can_plant_seed m ≡ true
    → let (sown, plot, planted) = plant_seed m in
      let (after, left, harvested) = harvest_farm sown (tick_all plot dts) in
      (planted ≡ true)
      × (harvested ≡ leb_ℤ default_farm_grow_minutes (counted dts))
      × (count_of "seed" after +ℤ pos 1 ≡ count_of "seed" m)
      × (count_of "wheat" after
          ≡ (if harvested then wrap (count_of "wheat" m +ℤ pos 2) else count_of "wheat" m))
unfolding can_plant_seed plant_seed harvest_farm consume_item
season m dts h = grind (
  int_laws,
  tick_all_grows new_plot dts refl (omega arith),
  count_of-insert "seed" "seed" (count_of "seed" m -ℤ pos 1) m,
  count_of-insert "seed" "wheat" (count_of "seed" m -ℤ pos 1) m,
  count_of-add_item "wheat" "seed" (pos 2) (insert "seed" (count_of "seed" m -ℤ pos 1) m),
  count_of-add_item "wheat" "wheat" (pos 2) (insert "seed" (count_of "seed" m -ℤ pos 1) m),
)
