-- ===== src/Metrics/Counts.antt =====
-- internal/adapter/metrics/inmemory: a snapshot counts the calls.
use clawvival.Base.{
  ℕ, ◌+◌, ◌%◌, ◌^◌, ◌≡◌, ◌<◌, refl, ap, ◌∙◌, inl, inr, arith, String, str_eq, eq_iff, Bool, true,
  false, Bool-cases, List, [], ◌∷◌, length, if◌then◌else◌,
}
use native.Mathlib.Nat.{mod-eq_of_lt}
use clawvival.Base.Dict.{Dict, lookup, insert, lookup-insert}
use clawvival.Survival.Types.{ResultCode}
use clawvival.Engine.Execute.{Metric, record_success, record_conflict, record_failure}
use clawvival.Metrics.{
  Recorder, new_recorder, record_of, record_all, snapshot, tally_of, ResultCode_text,
}

-- How many of the calls pass a test.
unfoldable pub calls : (Metric → Bool) → List Metric → ℕ
calls test [] = 0
calls test (m ∷ metrics) = if test m then calls test metrics + 1 else calls test metrics

abbrev pub is_success : Metric → Bool
is_success (record_success _) = true
is_success _ = false

abbrev pub is_conflict : Metric → Bool
is_conflict record_conflict = true
is_conflict _ = false

abbrev pub is_failure : Metric → Bool
is_failure record_failure = true
is_failure _ = false

-- A success with the code of this text.
abbrev pub has_code : String → Metric → Bool
has_code key (record_success code) = str_eq (ResultCode_text code) key
has_code key _ = false

next_eq : (n : ℕ) → n + 1 < 2 ^ 64 → (n + 1) % 2 ^ 64 ≡ n + 1
next_eq n h = mod-eq_of_lt h

tally_of-insert :
    (key name : String) (n : ℕ) (counts : Dict ℕ)
    → tally_of name (insert key n counts) ≡ (if str_eq key name then n else tally_of name counts)
tally_of-insert key name n counts = ground (arith, lookup-insert key name n counts)

-- The counts after the calls, from those before.
record_all-counts :
    (metrics : List Metric) (r : Recorder)
    → r.success + length metrics < 2 ^ 64
    → r.conflict + length metrics < 2 ^ 64
    → r.failure + length metrics < 2 ^ 64
    → ((record_all metrics r).success ≡ r.success + calls is_success metrics)
      × ((record_all metrics r).conflict ≡ r.conflict + calls is_conflict metrics)
      × ((record_all metrics r).failure ≡ r.failure + calls is_failure metrics)
unfolding record_all record_of calls
record_all-counts [] r hs hc hf = (omega arith, omega arith, omega arith)
record_all-counts (record_success code ∷ metrics) r hs hc hf =
    let up = next_eq r.success (omega arith) in
    let (a, b, c) =
      record_all-counts metrics (record_of (record_success code) r) (omega arith) (omega arith)
        (omega arith) in
    (omega arith, b, c)
record_all-counts (record_conflict ∷ metrics) r hs hc hf =
    let up = next_eq r.conflict (omega arith) in
    let (a, b, c) =
      record_all-counts metrics (record_of record_conflict r) (omega arith) (omega arith)
        (omega arith) in
    (a, omega arith, c)
record_all-counts (record_failure ∷ metrics) r hs hc hf =
    let up = next_eq r.failure (omega arith) in
    let (a, b, c) =
      record_all-counts metrics (record_of record_failure r) (omega arith) (omega arith)
        (omega arith) in
    (a, b, omega arith)

recorded-codes :
    (key : String) (code : ResultCode) (r : Recorder)
    → tally_of key r.by_result + 1 < 2 ^ 64
    → tally_of key (record_of (record_success code) r).by_result ≡ (
        if str_eq (ResultCode_text code) key
        then tally_of key r.by_result + 1
        else tally_of key r.by_result)
unfolding record_of
recorded-codes key code r h = elim (Bool-cases (str_eq (ResultCode_text code) key)) [
  | inl same ↦
      let name : ResultCode_text code ≡ key = (eq_iff (ResultCode_text code) key).0 same in
      tally_of-insert (ResultCode_text code) key _ r.by_result
      ∙ rw same (
          ap (λ name. (tally_of name r.by_result + 1) % 2 ^ 64) name
          ∙ next_eq (tally_of key r.by_result) h)
  | inr other ↦ tally_of-insert (ResultCode_text code) key _ r.by_result ∙ rw other refl
]

record_all-codes :
    (key : String) (metrics : List Metric) (r : Recorder)
    → tally_of key r.by_result + length metrics < 2 ^ 64
    → tally_of key (record_all metrics r).by_result
      ≡ tally_of key r.by_result + calls (has_code key) metrics
unfolding record_all record_of calls
record_all-codes key [] r h = omega arith
record_all-codes key (record_success code ∷ metrics) r h =
    let first = recorded-codes key code r (omega arith) in
    elim (Bool-cases (str_eq (ResultCode_text code) key)) [
      | inl same ↦
          let up : tally_of key (record_of (record_success code) r).by_result
              ≡ tally_of key r.by_result + 1 =
            rw same at first in
          rw same (
            record_all-codes key metrics (record_of (record_success code) r) (omega arith)
            ∙ omega arith)
      | inr other ↦
          let still : tally_of key (record_of (record_success code) r).by_result
              ≡ tally_of key r.by_result =
            rw other at first in
          rw other (
            record_all-codes key metrics (record_of (record_success code) r) (omega arith)
            ∙ omega arith)
    ]
record_all-codes key (record_conflict ∷ metrics) r h =
    record_all-codes key metrics (record_of record_conflict r) (omega arith)
record_all-codes key (record_failure ∷ metrics) r h =
    record_all-codes key metrics (record_of record_failure r) (omega arith)

calls-total :
    (metrics : List Metric)
    → calls is_success metrics + calls is_conflict metrics + calls is_failure metrics
      ≡ length metrics
unfolding calls
calls-total [] = refl
calls-total (record_success code ∷ metrics) = omega (arith, calls-total metrics)
calls-total (record_conflict ∷ metrics) = omega (arith, calls-total metrics)
calls-total (record_failure ∷ metrics) = omega (arith, calls-total metrics)

-- The snapshot of a recorder that was new before the calls, fewer than 2 ^ 64, has as its total the
-- number of the calls, and counts the successes, the conflicts, the failures, and the successes with
-- each result code.
pub snapshot-record_all :
    (metrics : List Metric)
    → length metrics < 2 ^ 64
    → ((snapshot (record_all metrics new_recorder)).action_total ≡ length metrics)
      × ((snapshot (record_all metrics new_recorder)).action_success ≡ calls is_success metrics)
      × ((snapshot (record_all metrics new_recorder)).action_conflict ≡ calls is_conflict metrics)
      × ((snapshot (record_all metrics new_recorder)).action_failure ≡ calls is_failure metrics)
      × ((key : String)
          → tally_of key (snapshot (record_all metrics new_recorder)).by_result_code
            ≡ calls (has_code key) metrics)
unfolding snapshot lookup
snapshot-record_all metrics h =
    let (a, b, c) =
      record_all-counts metrics new_recorder (omega arith) (omega arith) (omega arith) in
    let sum = calls-total metrics in
    (
      ap (λ n. n % 2 ^ 64)
            (let total : (record_all metrics new_recorder).success
                    + (record_all metrics new_recorder).conflict
                    + (record_all metrics new_recorder).failure
                  ≡ length metrics =
                omega arith in
              total)
          ∙ mod-eq_of_lt h,
      omega arith,
      omega arith,
      omega arith,
      λ key. record_all-codes key metrics new_recorder (unfold lookup in omega arith) ∙ omega arith,
    )
