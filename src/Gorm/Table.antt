-- ===== src/Gorm/Table.antt =====
-- internal/adapter/repo/gorm: what the repositories ask of `gorm.DB`, one table at a time, and what
-- the library and the database document of it. Neither is part of the program.
use clawvival.Base.{
  ℕ, suc, ◌≤◌, ◌≡◌, ◌≢◌, refl, inl, inr, arith, ℤ, String, Bool, true, false, Bool-cases, Option,
  List, [], ◌∷◌, ◌++◌, map, if◌then◌else◌,
}
use clawvival.Ports.{Error, Result, returned, raised}

-- What a query answers: a value, `gorm.ErrRecordNotFound`, or another error with its text.
pub data Answer (A : Type 0) : Type 0 where
  answered : A → Answer A
  record_not_found : Answer A
  broken : String → Answer A

-- A row as a condition is a struct given to `Where`. A change of columns is a function on rows.
pub record Table (S Row : Type 0) : Type 0 where
  -- `Where(&row).First(&m)`, and with a map of the columns
  pub first : Row → S → Answer Row
  pub first_where : (Row → Bool) → S → Answer Row
  -- `Where(&row).Find(&rows)`, and the latest first, at most so many
  pub find : Row → S → Answer (List Row)
  pub find_latest : Row → Option ℤ → S → Answer (List Row)
  -- `Create(&row)`, and with `clause.OnConflict`: what becomes of the row that is there
  pub create : Row → S → Answer S
  pub create_all : List Row → S → Answer S
  pub create_or : (Row → Row → Row) → Row → S → Answer S
  -- `Where(&row).Updates(columns)`, with `RowsAffected`
  pub updates : Row → (Row → Row) → S → Answer (ℕ × S)
  -- `Where(&row).Assign(columns).FirstOrCreate(&Row{})`
  pub first_or_create : Row → (Row → Row) → S → Answer S

-- `return err`: `ErrRecordNotFound` is an error like others where the code does not look for it.
abbrev pub passed_on : {A : Type 0} → Answer A → Result A
passed_on (answered a) = returned a
passed_on record_not_found = raised (Error.fault "record not found")
passed_on (broken e) = raised (Error.fault e)

-- `ErrRecordNotFound` becomes `ErrNotFound`.
abbrev pub or_not_found : {A B : Type 0} → (A → B) → Answer A → Result B
or_not_found f (answered a) = returned (f a)
or_not_found f record_not_found = raised Error.not_found
or_not_found f (broken e) = raised (Error.fault e)

module _ {Row : Type 0} where
  unfoldable pub first_of : (Row → Bool) → List Row → Answer Row
  first_of test [] = record_not_found
  first_of test (r ∷ rows) = if test r then answered r else first_of test rows

  unfoldable pub count : (Row → Bool) → List Row → ℕ
  count test [] = 0
  count test (r ∷ rows) = if test r then suc (count test rows) else count test rows

  abbrev pub changed_where : (Row → Bool) → (Row → Row) → Row → Row
  changed_where test f r = if test r then f r else r

  first_of-append :
      (test : Row → Bool) (rows : List Row) (new : Row)
      → count test rows ≡ 0
      → test new ≡ true
      → first_of test (rows ++ new ∷ []) ≡ answered new
  unfolding first_of count
  first_of-append test [] new none_there h = ground arith
  first_of-append test (r ∷ rows) new none_there h = ground (arith, first_of-append test rows new)

  count-append :
      (test : Row → Bool) (rows : List Row) (new : Row)
      → test new ≡ true
      → count test (rows ++ new ∷ []) ≡ suc (count test rows)
  unfolding count
  count-append test [] new h = ground arith
  count-append test (r ∷ rows) new h = ground (arith, count-append test rows new)

  -- A row at the end that alone passes the test is found.
  pub first_of-append_one :
      (test : Row → Bool) (rows : List Row) (new : Row)
      → count test (rows ++ new ∷ []) ≤ 1
      → test new ≡ true
      → first_of test (rows ++ new ∷ []) ≡ answered new
  first_of-append_one test rows new one h =
      first_of-append test rows new (omega (arith, count-append test rows new h)) h

  -- Another row at the end does not change what is found, where it is not looked for.
  pub first_of-append_other :
      (test : Row → Bool) (rows : List Row) (new : Row)
      → test new ≡ false
      → first_of test (rows ++ new ∷ []) ≡ first_of test rows
  unfolding first_of
  first_of-append_other test [] new h = ground arith
  first_of-append_other test (r ∷ rows) new h = ground (arith, first_of-append_other test rows new)

  -- After a change that makes the test fail, no row passes it.
  pub count-changed_where :
      (test : Row → Bool) (f : Row → Row) (rows : List Row)
      → ((r : Row) → test (f r) ≡ false)
      → count test (map (changed_where test f) rows) ≡ 0
  unfolding count
  count-changed_where test f [] h = refl
  count-changed_where test f (r ∷ rows) h = ground (arith, h r, count-changed_where test f rows h)

  count-weaker :
      (test wide : Row → Bool) (rows : List Row)
      → ((r : Row) → test r ≡ true → wide r ≡ true)
      → count wide rows ≡ 0
      → count test rows ≡ 0
  unfolding count
  count-weaker test wide [] h none_there = refl
  count-weaker test wide (r ∷ rows) h none_there =
      ground (arith, h r, count-weaker test wide rows h)

  -- Where at most one row passes the wider test and some row passes the narrower, the change of
  -- the rows that pass the narrower shows at the first row that passes the wider.
  pub first_of-changed_where :
      (test wide : Row → Bool) (f : Row → Row) (rows : List Row)
      → ((r : Row) → test r ≡ true → wide r ≡ true)
      → ((r : Row) → test r ≡ true → wide (f r) ≡ true)
      → count wide rows ≤ 1
      → count test rows ≢ 0
      → (r : Row) × (first_of wide (map (changed_where test f) rows) ≡ answered (f r))
  unfolding first_of count
  first_of-changed_where test wide f [] narrow kept one some_there = absurd (some_there refl)
  first_of-changed_where test wide f (r ∷ rows) narrow kept one some_there =
      elim (Bool-cases (test r)) [
        | inl passes ↦ (r, rw (passes, kept r passes) refl)
        | inr misses ↦ elim (Bool-cases (wide r)) [
          | inl is_wide ↦ absurd (ground (arith, count-weaker test wide rows narrow))
          | inr not_wide ↦
              let (q, e) =
                first_of-changed_where test wide f rows narrow kept (ground arith)
                  (λ h. some_there (ground arith)) in
              (q, rw (misses, not_wide) e)
        ]
      ]

-- What is relied on: a table holds rows in the order in which they are looked through; `matches` is
-- how a struct is read as a condition, and `stored` is what the columns keep of a row.
pub record IsTable {S Row : Type 0} (db : Table S Row) (rows : S → List Row)
    (matches : Row → Row → Bool) (stored : Row → Row) : Type 0 where
  pub first_finds : (c : Row) (s : S) → db.first c s ≡ first_of (matches c) (rows s)
  pub create_adds :
      (r : Row) (s t : S) → db.create r s ≡ answered t → rows t ≡ rows s ++ stored r ∷ []
  pub updates_change :
      (c : Row) (f : Row → Row) (n : ℕ) (s t : S)
      → db.updates c f s ≡ answered (n, t)
      → (n ≡ count (matches c) (rows s))
        × (rows t ≡ map (changed_where (matches c) (λ r. stored (f r))) (rows s))
