-- ===== src/Survival/Production/Stock.antt =====
-- internal/domain/survival/production.go: `consume` and `produce` of a bill of materials.
use clawvival.Base.{
  ℕ, ◌+◌, ◌≤◌, pos_part, ltb_ℤ, ℤ, pos, ◌+ℤ◌, ◌≤ℤ◌, ◌<ℤ◌, String, true, ◌≡◌, ◌≢◌, refl, arith, ◌∙◌,
  none, [], ◌∷◌, str_eq, eq_iff, if◌then◌else◌, int_laws,
}
use clawvival.Base.Dict.{Dict, lookup}
use clawvival.Base.Duration.{wrap, max_int64}
use clawvival.Survival.State.{count_of, add_item, consume_item}
use clawvival.Survival.State.Counts.{
  count_of-add_item, count_of-consume_item, consume_item_iff, IsWithin, add_item-IsWithin,
  consume_item-IsWithin,
}
use clawvival.Survival.Production.{has_enough, consume, produce}

-- A bill names each item once, and a positive amount of it.
abbrev pub IsBill : Dict ℤ → Type 0
IsBill [] = Unit
IsBill ((k, n) ∷ r) = (pos 0 <ℤ n) × (k ≢ "") × (lookup k r ≡ none) × IsBill r

-- The amount of an item on a bill.
count_of-cons :
    (j k : String) (n : ℤ) (r : Dict ℤ)
    → count_of j ((k, n) ∷ r) ≡ (if str_eq k j then n else count_of j r)
unfolding count_of lookup
count_of-cons j k n r = ground arith

count_of-absent : (k : String) (r : Dict ℤ) → lookup k r ≡ none → count_of k r ≡ pos 0
unfolding count_of
count_of-absent k r h = ground arith

count_of-nil : (j : String) → count_of j [] ≡ pos 0
unfolding count_of lookup
count_of-nil j = refl

-- Taking an item that the bill does not name leaves enough of the others.
has_enough-consume_item :
    (k : String) (n : ℤ) (m r : Dict ℤ)
    → lookup k r ≡ none
    → has_enough (consume_item k n m).0 r ≡ has_enough m r
unfolding has_enough lookup
has_enough-consume_item k n m [] h = refl
has_enough-consume_item k n m ((j, q) ∷ r) h =
    ground (
      arith,
      count_of-consume_item k j n m,
      eq_iff k j,
      eq_iff j k,
      has_enough-consume_item k n m r,
    )

has_enough-cons :
    (k : String) (n : ℤ) (m r : Dict ℤ)
    → has_enough m ((k, n) ∷ r) ≡ true
    → (n ≤ℤ count_of k m) × (has_enough m r ≡ true)
unfolding has_enough
has_enough-cons k n m r h = ground arith

-- One line of a bill is taken in full.
count_of-taken :
    (j k : String) (n : ℤ) (m r : Dict ℤ)
    → pos 0 <ℤ n
    → k ≢ ""
    → lookup k r ≡ none
    → n ≤ℤ count_of k m
    → count_of j (consume_item k n m).0 +ℤ count_of j ((k, n) ∷ r) ≡ count_of j m +ℤ count_of j r
count_of-taken j k n m r p q new h = grind (
  int_laws,
  count_of-consume_item k j n m,
  consume_item_iff k n m p q h,
  count_of-cons j k n r,
  count_of-absent k r new,
  eq_iff k j,
)

pub count_of-consume :
    (j : String) (m r : Dict ℤ)
    → IsBill r
    → has_enough m r ≡ true
    → count_of j (consume m r) +ℤ count_of j r ≡ count_of j m
unfolding consume
count_of-consume j m [] b h = rw count_of-nil (omega int_laws)
count_of-consume j m ((k, n) ∷ r) b h =
    let (there, rest) = has_enough-cons k n m r h in
    let left = has_enough-consume_item k n m r b.2 ∙ rest in
    grind (
      int_laws,
      count_of-taken j k n m r b.0 b.1 b.2 there,
      count_of-consume j (consume_item k n m).0 r b.3 left,
    )

-- One line of a bill that is given, which the rest of the bill does not name.
count_of-given :
    (j k : String) (n : ℤ) (m : Dict ℤ)
    → pos 0 <ℤ n
    → k ≢ ""
    → count_of j (add_item k n m) ≡ (if str_eq k j then wrap (count_of j m +ℤ n) else count_of j m)
count_of-given j k n m p q = ground (arith, count_of-add_item k j n m, eq_iff k "")

-- What is left of a count once an amount is given, where there is one.
abbrev pub topped_up : ℤ → ℤ → ℤ
topped_up left given = if ltb_ℤ (pos 0) given then wrap (left +ℤ given) else left

pub count_of-produce :
    (j : String) (m r : Dict ℤ)
    → IsBill r
    → count_of j (produce m r) ≡ topped_up (count_of j m) (count_of j r)
unfolding produce
count_of-produce j m [] b = rw count_of-nil refl
count_of-produce j m ((k, n) ∷ r) b = ground (
  arith,
  count_of-given j k n m b.0 b.1,
  count_of-cons j k n r,
  count_of-absent k r b.2,
  eq_iff k j,
  count_of-produce j (add_item k n m) r b.3,
)

-- The amounts of a bill together.
abbrev pub amount_of : Dict ℤ → ℕ
amount_of [] = 0
amount_of ((k, n) ∷ r) = pos_part n + amount_of r

pub consume-IsWithin : (b : ℕ) (m r : Dict ℤ) → IsWithin b m → IsWithin b (consume m r)
unfolding consume
consume-IsWithin b m [] h = h
consume-IsWithin b m ((k, n) ∷ r) h =
    consume-IsWithin b (consume_item k n m).0 r (consume_item-IsWithin b k n m h)

pub produce-IsWithin :
    (b : ℕ) (m r : Dict ℤ)
    → b + amount_of r ≤ max_int64
    → IsWithin b m
    → IsWithin (b + amount_of r) (produce m r)
unfolding produce
produce-IsWithin b m [] room h j = omega (arith, h j)
produce-IsWithin b m ((k, n) ∷ r) room h j = omega (
  arith,
  produce-IsWithin (b + pos_part n) (add_item k n m) r (omega arith)
      (add_item-IsWithin b k n m (omega arith) h) j,
)
