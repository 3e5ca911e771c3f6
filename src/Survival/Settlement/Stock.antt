-- ===== src/Survival/Settlement/Stock.antt =====
-- internal/domain/survival/service_settlement.go: the counts of the inventory over the actions.
use clawvival.Base.{
  ℕ, zero, suc, ◌+◌, ◌≤◌, ℤ, pos, pos_part, List, [], ◌∷◌, arith, Option-cases, inl, inr,
}
use clawvival.Base.Duration.{max_int64}
use clawvival.Base.Dict.{Dict}
use clawvival.Survival.Types.{Time, ActionType, ActionIntent, ItemAmount, WorldSnapshot}
use clawvival.Survival.State.{add_item}
use clawvival.Survival.State.Counts.{
  IsWithin, IsWithin-raise, add_item-IsWithin, consume_item-IsWithin,
}
use clawvival.Survival.Rules.{FoodId, food_defs}
use clawvival.Survival.Production.{eat, plant_seed}
use clawvival.Survival.Production.Exchange.{craft-IsWithin, build_object-IsWithin}
use clawvival.Survival.Production.Growth.{nearby_twice, apply_gather-IsWithin}
use clawvival.Survival.Effect.{
  Work, change_hunger, change_energy, change_hp, charge, sleep_for, build_for, build_site,
  retreat_for, eat_for, harvest, transfer, take_item, eat_up_to, act,
}

eat-IsWithin : (b : ℕ) (m : Dict ℤ) (h : ℤ) (f : FoodId) → IsWithin b m → IsWithin b (eat m h f).0
unfolding eat
eat-IsWithin b m h f x j = elim (Option-cases (food_defs f)) [
  | inl absent ↦ ground (arith, x j)
  | inr (d, e) ↦ ground (arith, x j, consume_item-IsWithin b d.item_name (pos 1) m x j)
]

eat_up_to-IsWithin :
    (b n : ℕ) (f : FoodId) (m : Dict ℤ) (h : ℤ) → IsWithin b m → IsWithin b (eat_up_to n f m h).0
unfolding eat_up_to
eat_up_to-IsWithin b zero f m h x j = x j
eat_up_to-IsWithin b (suc n) f m h x j = ground (
  arith,
  eat-IsWithin b m h f x j,
  eat_up_to-IsWithin b n f (eat m h f).0 (eat m h f).1 (eat-IsWithin b m h f x) j,
)

-- What is asked for, of all items.
abbrev pub asked : List ItemAmount → ℕ
asked [] = 0
asked (item ∷ items) = pos_part item.count + asked items

take-IsWithin :
    (b : ℕ) (is : List ItemAmount) (m : Dict ℤ)
    → IsWithin b m
    → IsWithin b (transfer take_item is m)
unfolding transfer
take-IsWithin b [] m x = x
take-IsWithin b (i ∷ is) m x =
    take-IsWithin b is _
      (λ j. ground (arith, x j, consume_item-IsWithin b i.item_type i.count m x j))

give-IsWithin :
    (b : ℕ) (is : List ItemAmount) (m : Dict ℤ)
    → b + asked is ≤ max_int64
    → IsWithin b m
    → IsWithin (b + asked is) (transfer add_item is m)
unfolding transfer
give-IsWithin b [] m room x = IsWithin-raise b (b + 0) m (omega arith) x
give-IsWithin b (i ∷ is) m room x =
    let n = pos_part i.count in
    IsWithin-raise (b + n + asked is) (b + (n + asked is)) _ (omega arith) (
      give-IsWithin (b + n) is _ (omega arith)
        (λ k. ground (arith, x k, add_item-IsWithin b i.item_type i.count m (omega arith) x k)))

harvest-IsWithin :
    (b : ℕ) (now : Time) (m : Dict ℤ)
    → b + 3 ≤ max_int64
    → IsWithin b m
    → IsWithin (b + 3) (harvest now m)
unfolding harvest
harvest-IsWithin b now m room x j =
    let threshed = add_item-IsWithin b "wheat" (pos 2) m (omega arith) x in
    ground (arith, threshed j, add_item-IsWithin (b + 2) "seed" (pos 1) _ (omega arith) threshed j)

plant_seed-IsWithin : (b : ℕ) (m : Dict ℤ) → IsWithin b m → IsWithin b (plant_seed m).0
unfolding plant_seed
plant_seed-IsWithin b m x = consume_item-IsWithin b "seed" (pos 1) m x

build_for-IsWithin :
    (b : ℕ) (i : ActionIntent) (now : Time) (w : Work)
    → IsWithin b w.next.inventory
    → IsWithin b (build_for i now w).next.inventory
unfolding build_for
build_for-IsWithin b i now w x j =
    let site = build_site i.pos w.next.position in
    ground (arith, x j, build_object-IsWithin b w.next.inventory i.object_type site.x site.y x j)

-- The most that an action can add to a count: what is asked for, twice what is there to gather, or
-- what a recipe or a harvest gives.
abbrev pub most : ActionIntent → WorldSnapshot → ℕ
most i o = asked i.items + nearby_twice o.nearby_resource + 4

-- Whatever the action does, no count of the inventory becomes negative or grows by more than that.
pub act-IsWithin :
    (t : ActionType) (b : ℕ) (i : ActionIntent) (dt : ℕ) (now : Time) (o : WorldSnapshot) (w : Work)
    → b + most i o ≤ max_int64
    → IsWithin b w.next.inventory
    → IsWithin (b + most i o) (act t i dt now o w).next.inventory
unfolding act charge sleep_for retreat_for eat_for change_hunger change_energy change_hp
act-IsWithin ActionType.gather b i dt now o w room x =
    IsWithin-raise _ _ _ (omega arith) (apply_gather-IsWithin b o.nearby_resource _ (omega arith) x)
act-IsWithin ActionType.build b i dt now o w room x =
    IsWithin-raise b _ _ (omega arith) (build_for-IsWithin b i now _ x)
act-IsWithin ActionType.farm b i dt now o w room x =
    IsWithin-raise b _ _ (omega arith) (plant_seed-IsWithin b _ x)
act-IsWithin ActionType.farm_plant b i dt now o w room x =
    IsWithin-raise b _ _ (omega arith) (plant_seed-IsWithin b _ x)
act-IsWithin ActionType.farm_harvest b i dt now o w room x =
    IsWithin-raise (b + 3) _ _ (omega arith) (harvest-IsWithin b now _ (omega arith) x)
act-IsWithin ActionType.container_deposit b i dt now o w room x =
    IsWithin-raise b _ _ (omega arith) (take-IsWithin b i.items _ x)
act-IsWithin ActionType.container_withdraw b i dt now o w room x =
    IsWithin-raise (b + asked i.items) _ _ (omega arith) (give-IsWithin b i.items _ (omega arith) x)
act-IsWithin ActionType.craft b i dt now o w room x =
    IsWithin-raise (b + 4) _ _ (omega arith) (craft-IsWithin b _ i.recipe_id (omega arith) x)
act-IsWithin ActionType.eat b i dt now o w room x =
    IsWithin-raise b _ _ (omega arith) (eat_up_to-IsWithin b _ _ _ _ x)
act-IsWithin ActionType.retreat b i dt now o w room x = λ j. ground (arith, x j)
act-IsWithin _ b i dt now o w room x = IsWithin-raise b _ _ (omega arith) x
