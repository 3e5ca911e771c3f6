-- ===== src/Engine/Objects/Change/Returned.antt =====
-- internal/app/action/action_object.go: what is put into a box and taken out again.
use clawvival.Base.{
  ◌≡◌, inl, inr, refl, sym, ap, ◌∙◌, arith, ℤ, pos, ◌+ℤ◌, ◌-ℤ◌, ◌≤ℤ◌, leb_ℤ, int_laws, -ℤ_parts,
  eq_of_parts, String, str_eq, eq_iff, true, Bool-cases, List, [], ◌∷◌, if◌then◌else◌,
}
use clawvival.Base.Dict.{Dict, insert, lookup}
use clawvival.Base.Duration.{wrap, wrap-small, max_int64}
use clawvival.Survival.Types.{ItemAmount}
use clawvival.Survival.State.{count_of}
use clawvival.Survival.State.Counts.{count_of-insert}
use clawvival.Engine.Objects.{total_count}
use clawvival.Engine.Objects.Change.{delete, put_in, take_one, take_out}

abbrev pub Counted : List ItemAmount → Type 0
Counted [] = Unit
Counted (item ∷ items) = (pos 1 ≤ℤ item.count) × Counted items

-- What the items hold of a name.
sum_of : String → List ItemAmount → ℤ
sum_of name [] = pos 0
sum_of name (item ∷ items) =
    (if str_eq item.item_type name then item.count else pos 0) +ℤ sum_of name items

count_of-delete :
    (key name : String) (m : Dict ℤ)
    → count_of name (delete key m) ≡ (if str_eq key name then pos 0 else count_of name m)
unfolding count_of lookup delete
count_of-delete key name [] = ground arith
count_of-delete key name ((first, n) ∷ rest) =
    ground
      (arith, count_of-delete key name rest, eq_iff first key, eq_iff key name, eq_iff first name)

assoc : (a b c : ℤ) → (a +ℤ b) +ℤ c ≡ a +ℤ (b +ℤ c)
assoc a b c = omega int_laws

plus_zero : (a : ℤ) → a ≡ a +ℤ pos 0
plus_zero a = omega int_laws

abbrev share : String → String → ℤ → ℤ
share key name n = if str_eq key name then n else pos 0

-- A count with an amount put to it, where the sum fits an `int`.
count_of-put :
    (key name : String) (n : ℤ) (box : Dict ℤ)
    → pos 1 ≤ℤ n
    → pos 0 ≤ℤ count_of name box
    → count_of name box +ℤ share key name n ≤ℤ pos max_int64
    → count_of name (insert key (wrap (count_of key box +ℤ n)) box)
      ≡ count_of name box +ℤ share key name n
count_of-put key name n box p low room = elim (Bool-cases (str_eq key name)) [
  | inl same ↦
      let e : key ≡ name = (eq_iff key name).0 same in
      let fits : wrap (count_of name box +ℤ n) ≡ count_of name box +ℤ n =
        wrap-small (count_of name box +ℤ n) (omega int_laws) (rw same at room) in
      count_of-insert key name (wrap (count_of key box +ℤ n)) box ∙ rw (same, e) fits
  | inr other ↦
      count_of-insert key name (wrap (count_of key box +ℤ n)) box
      ∙ rw other (plus_zero (count_of name box))
]

share_nonneg : (key name : String) (n : ℤ) → pos 1 ≤ℤ n → pos 0 ≤ℤ share key name n
share_nonneg key name n h = ground arith

sum_of_nonneg :
    (name : String) (items : List ItemAmount) → Counted items → pos 0 ≤ℤ sum_of name items
unfolding sum_of
sum_of_nonneg name [] c = omega arith
sum_of_nonneg name (item ∷ items) c =
    omega (int_laws, share_nonneg item.item_type name item.count c.0, sum_of_nonneg name items c.1)

count_of-put_in :
    (name : String) (items : List ItemAmount) (box : Dict ℤ)
    → Counted items
    → pos 0 ≤ℤ count_of name box
    → count_of name box +ℤ sum_of name items ≤ℤ pos max_int64
    → count_of name (put_in items box) ≡ count_of name box +ℤ sum_of name items
unfolding put_in sum_of
count_of-put_in name [] box c low room = plus_zero (count_of name box)
count_of-put_in name (item ∷ items) box c low room =
    let key = item.item_type in
    let mine = share_nonneg key name item.count c.0 in
    let others = sum_of_nonneg name items c.1 in
    let fuller = insert key (wrap (count_of key box +ℤ item.count)) box in
    let one = count_of-put key name item.count box c.0 low (omega int_laws) in
    let more : pos 0 ≤ℤ count_of name fuller = rw one (omega int_laws) in
    let fits : count_of name fuller +ℤ sum_of name items ≤ℤ pos max_int64 =
      rw one (omega int_laws) in
    count_of-put_in name items fuller c.1 more fits
    ∙ ap (λ x. x +ℤ sum_of name items) one
    ∙ assoc (count_of name box) (share key name item.count) (sum_of name items)

minus_zero : (a : ℤ) → a ≡ a -ℤ pos 0
minus_zero a = omega int_laws

-- What is left of an item once an amount is taken out, which is there.
left_over :
    (key name : String) (n : ℤ) (box : Dict ℤ)
    → pos 1 ≤ℤ n
    → share key name n ≤ℤ count_of name box
    → count_of name box ≤ℤ pos max_int64
    → str_eq key name ≡ true
    → wrap (count_of key box -ℤ n) ≡ count_of name box -ℤ n
left_over key name n box p enough high same =
    let e : key ≡ name = (eq_iff key name).0 same in
    let there : n ≤ℤ count_of name box = rw same at enough in
    rw e (wrap-small (count_of name box -ℤ n) (omega int_laws) (omega int_laws))

nothing_left : (c n left : ℤ) → n ≤ℤ c → left ≡ c -ℤ n → leb_ℤ left (pos 0) ≡ true → pos 0 ≡ c -ℤ n
nothing_left c n left h e k =
    let gone : leb_ℤ (c -ℤ n) (pos 0) ≡ true = ap (λ x. leb_ℤ x (pos 0)) (sym e) ∙ k in
    ground (arith, -ℤ_parts c n, eq_of_parts (pos 0) (c -ℤ n), gone)

-- One item taken out, by what is left of it.
module _ (key name : String) (n left : ℤ) (box : Dict ℤ)
    (over : str_eq key name ≡ true → left ≡ count_of name box -ℤ n) where
  left-insert : count_of name (insert key left box) ≡ count_of name box -ℤ share key name n
  left-insert = elim (Bool-cases (str_eq key name)) [
    | inl same ↦ count_of-insert key name left box ∙ rw same (over same)
    | inr other ↦ count_of-insert key name left box ∙ rw other (minus_zero (count_of name box))
  ]

  left-delete :
      share key name n ≤ℤ count_of name box
      → leb_ℤ left (pos 0) ≡ true
      → count_of name (delete key (insert key left box)) ≡ count_of name box -ℤ share key name n
  left-delete h gone = elim (Bool-cases (str_eq key name)) [
    | inl same ↦
        count_of-delete key name (insert key left box)
        ∙ rw same (nothing_left (count_of name box) n left (rw same at h) (over same) gone)
    | inr other ↦
        count_of-delete key name (insert key left box) ∙ rw other (rw other at left-insert)
  ]

count_of-take_one :
    (item : ItemAmount) (name : String) (box : Dict ℤ)
    → pos 1 ≤ℤ item.count
    → share item.item_type name item.count ≤ℤ count_of name box
    → count_of name box ≤ℤ pos max_int64
    → count_of name (take_one item box) ≡ count_of name box -ℤ share item.item_type name item.count
unfolding take_one
count_of-take_one item name box p h high =
    let key = item.item_type in
    let left = wrap (count_of key box -ℤ item.count) in
    let over = left_over key name item.count box p h high in
    elim (Bool-cases (leb_ℤ left (pos 0))) [
      | inl gone ↦ rw gone (left-delete key name item.count left box over h gone)
      | inr stays ↦ rw stays (left-insert key name item.count left box over)
    ]

count_of-take_out :
    (name : String) (items : List ItemAmount) (box : Dict ℤ)
    → Counted items
    → sum_of name items ≤ℤ count_of name box
    → count_of name box ≤ℤ pos max_int64
    → count_of name (take_out items box) ≡ count_of name box -ℤ sum_of name items
unfolding take_out sum_of
count_of-take_out name [] box c h high = minus_zero (count_of name box)
count_of-take_out name (item ∷ items) box c h high =
    let mine = share item.item_type name item.count in
    let some_taken = share_nonneg item.item_type name item.count c.0 in
    let enough : mine ≤ℤ count_of name box = omega (int_laws, sum_of_nonneg name items c.1) in
    let one = count_of-take_one item name box c.0 enough high in
    let rest : sum_of name items ≤ℤ count_of name (take_one item box) = rw one (omega int_laws) in
    let lower : count_of name (take_one item box) ≤ℤ pos max_int64 = rw one (omega int_laws) in
    count_of-take_out name items (take_one item box) c.1 rest lower
    ∙ ap (λ x. x -ℤ sum_of name items) one
    ∙ omega int_laws

-- The counts of the items together, without a bound.
abbrev pub full_count : List ItemAmount → ℤ
full_count [] = pos 0
full_count (item ∷ items) = item.count +ℤ full_count items

pub full_count_nonneg : (items : List ItemAmount) → Counted items → pos 0 ≤ℤ full_count items
full_count_nonneg [] c = omega arith
full_count_nonneg (item ∷ items) c = omega (int_laws, full_count_nonneg items c.1)

sum_of_full :
    (name : String) (items : List ItemAmount)
    → Counted items
    → sum_of name items ≤ℤ full_count items
unfolding sum_of
sum_of_full name [] c = omega arith
sum_of_full name (item ∷ items) c = let rest = sum_of_full name items c.1 in grind (int_laws, rest)

pub total_count_full :
    (items : List ItemAmount)
    → Counted items
    → full_count items ≤ℤ pos max_int64
    → total_count items ≡ full_count items
unfolding total_count
total_count_full [] c h = refl
total_count_full (item ∷ items) c h =
    let low = full_count_nonneg items c.1 in
    rw (total_count_full items c.1 (omega int_laws))
      (wrap-small (item.count +ℤ full_count items) (omega int_laws) h)

-- What was put in and is taken out again leaves the box with what it had of every item.
pub take_out-put_in :
    (name : String) (items : List ItemAmount) (box : Dict ℤ)
    → Counted items
    → pos 0 ≤ℤ count_of name box
    → count_of name box +ℤ full_count items ≤ℤ pos max_int64
    → count_of name (take_out items (put_in items box)) ≡ count_of name box
take_out-put_in name items box c h room =
    let part = sum_of_full name items c in
    let fits : count_of name box +ℤ sum_of name items ≤ℤ pos max_int64 = omega int_laws in
    let more = count_of-put_in name items box c h fits in
    let enough : sum_of name items ≤ℤ count_of name (put_in items box) = rw more (omega int_laws) in
    let high : count_of name (put_in items box) ≤ℤ pos max_int64 = rw more fits in
    count_of-take_out name items (put_in items box) c enough high
    ∙ ap (λ x. x -ℤ sum_of name items) more
    ∙ omega int_laws
