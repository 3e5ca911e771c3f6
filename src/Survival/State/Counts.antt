-- ===== src/Survival/State/Counts.antt =====
-- internal/domain/survival/state_entity.go: the counts of items.
use clawvival.Base.{
  ℕ, ◌+◌, ◌≤◌, ℤ, pos, pos_part, ◌+ℤ◌, ◌-ℤ◌, ◌≤ℤ◌, ◌<ℤ◌, leb_ℤ, String, true, ◌||◌, ◌&&◌, not, ◌≡◌,
  ◌≢◌, arith, int_laws, str_eq, eq_iff, if◌then◌else◌, +ℤ_parts, -ℤ_parts, Bool-cases, inl, inr,
}
use clawvival.Base.Duration.{wrap, wrap-small, max_int64}
use clawvival.Base.Dict.{Dict, insert, lookup-insert}
use clawvival.Survival.State.{count_of, add_item, consume_item}

pub count_of-insert :
    (k j : String) (n : ℤ) (m : Dict ℤ)
    → count_of j (insert k n m) ≡ (if str_eq k j then n else count_of j m)
unfolding count_of
count_of-insert k j n m = ground (arith, lookup-insert k j n m)

pub count_of-add_item :
    (k j : String) (n : ℤ) (m : Dict ℤ)
    → count_of j (add_item k n m) ≡ (
        if not (leb_ℤ n (pos 0) || str_eq k "") && str_eq k j
        then wrap (count_of j m +ℤ n)
        else count_of j m)
unfolding add_item
count_of-add_item k j n m =
    ground (arith, count_of-insert k j (wrap (count_of k m +ℤ n)) m, eq_iff k j)

pub count_of-consume_item :
    (k j : String) (n : ℤ) (m : Dict ℤ)
    → count_of j (consume_item k n m).0
      ≡ (if (consume_item k n m).1 && str_eq k j then count_of j m -ℤ n else count_of j m)
unfolding consume_item
count_of-consume_item k j n m =
    ground (arith, count_of-insert k j (count_of k m -ℤ n) m, eq_iff k j)

-- Consuming succeeds exactly when a positive amount of a named item is there.
pub consume_item_iff :
    (k : String) (n : ℤ) (m : Dict ℤ)
    → pos 0 <ℤ n
    → k ≢ ""
    → n ≤ℤ count_of k m
    → (consume_item k n m).1 ≡ true
unfolding consume_item
consume_item_iff k n m p q h = ground (arith, eq_iff k "")

-- No count is negative, nor above a bound.
abbrev pub IsWithin : ℕ → Dict ℤ → Type 0
IsWithin b m = (k : String) → (pos 0 ≤ℤ count_of k m) × (count_of k m ≤ℤ pos b)

pub IsWithin-raise : (a b : ℕ) (m : Dict ℤ) → a ≤ b → IsWithin a m → IsWithin b m
IsWithin-raise a b m p h j = omega (arith, h j)

-- A sum that does not wrap around.
pub wrap-sum :
    (b : ℕ) (a c : ℤ)
    → pos 0 ≤ℤ a
    → a ≤ℤ pos b
    → pos 0 ≤ℤ c
    → b + pos_part c ≤ max_int64
    → wrap (a +ℤ c) ≡ a +ℤ c
wrap-sum b a c p q k h = wrap-small (a +ℤ c) (omega int_laws) (omega int_laws)

pub insert-IsWithin :
    (b g : ℕ) (k : String) (n : ℤ) (m : Dict ℤ)
    → pos 0 ≤ℤ n
    → pos_part n ≤ g
    → b + g ≤ max_int64
    → IsWithin b m
    → IsWithin (b + g) (insert k (wrap (count_of k m +ℤ n)) m)
insert-IsWithin b g k n m p q room h j =
    let sum : wrap (count_of k m +ℤ n) ≡ count_of k m +ℤ n =
      wrap-sum b (count_of k m) n (h k).0 (h k).1 p (omega arith) in
    ground (
      arith,
      count_of-insert k j (wrap (count_of k m +ℤ n)) m,
      sum,
      +ℤ_parts (count_of k m) n,
      h j,
      h k,
    )

pub add_item-IsWithin :
    (b : ℕ) (k : String) (n : ℤ) (m : Dict ℤ)
    → b + pos_part n ≤ max_int64
    → IsWithin b m
    → IsWithin (b + pos_part n) (add_item k n m)
unfolding add_item
add_item-IsWithin b k n m room h j = elim (Bool-cases (leb_ℤ n (pos 0) || str_eq k "")) [
  | inl idle ↦ rw idle (omega (arith, h j))
  | inr adds ↦
      rw adds (insert-IsWithin b (pos_part n) k n m (ground (arith, adds)) (omega arith) room h j)
]

pub consume_item-IsWithin :
    (b : ℕ) (k : String) (n : ℤ) (m : Dict ℤ) → IsWithin b m → IsWithin b (consume_item k n m).0
unfolding consume_item
consume_item-IsWithin b k n m h j =
    ground
      (arith, count_of-insert k j (count_of k m -ℤ n) m, -ℤ_parts (count_of k m) n, h j, eq_iff k j)
