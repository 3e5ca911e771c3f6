-- ===== src/Metrics.antt =====
-- internal/adapter/metrics/inmemory: the counts of the outcomes of the actions. The mutex makes each
-- call one step.
pub mod Counts
mod Tests
use clawvival.Base.{
  ℕ, ◌+◌, ◌%◌, ◌^◌, ◌≡◌, refl, ap, arith, String, str_eq, eq_iff, Option, none, some, List, [], ◌∷◌,
  ◌<◌,
}
use clawvival.Base.Dict.{Dict, lookup, insert}
use clawvival.Survival.Types.{ResultCode, ok, failed}
use clawvival.Engine.Execute.{Metric, record_success, record_conflict, record_failure}

-- A `uint64` after one more.
abbrev next : ℕ → ℕ
next n = (n + 1) % 2 ^ 64

-- The texts of the result codes.
abbrev pub ResultCode_text : ResultCode → String
ResultCode_text ok = "OK"
ResultCode_text failed = "FAILED"

pub record Recorder : Type 0 where
  pub success : ℕ
  pub conflict : ℕ
  pub failure : ℕ
  pub by_result : Dict ℕ

abbrev pub new_recorder : Recorder
new_recorder = record { success = 0; conflict = 0; failure = 0; by_result = [] }

abbrev or_zero : Option ℕ → ℕ
or_zero none = 0
or_zero (some n) = n

-- A missing key counts as 0.
abbrev pub tally_of : String → Dict ℕ → ℕ
tally_of key counts = or_zero (lookup key counts)

unfoldable pub record_of : Metric → Recorder → Recorder
record_of (record_success code) r = record r {
  success = next r.success;
  by_result =
      insert (ResultCode_text code) (next (tally_of (ResultCode_text code) r.by_result))
        r.by_result;
}
record_of record_conflict r = record r { conflict = next r.conflict }
record_of record_failure r = record r { failure = next r.failure }

pub record KpiSnapshot : Type 0 where
  pub action_total : ℕ
  pub action_success : ℕ
  pub action_conflict : ℕ
  pub action_failure : ℕ
  pub by_result_code : Dict ℕ

-- The copy of the map has the entries of the map.
unfoldable pub snapshot : Recorder → KpiSnapshot
snapshot r = record {
  action_total = (r.success + r.conflict + r.failure) % 2 ^ 64;
  action_success = r.success;
  action_conflict = r.conflict;
  action_failure = r.failure;
  by_result_code = r.by_result;
}

-- The calls, one after the other.
unfoldable pub record_all : List Metric → Recorder → Recorder
unfolding record_of
record_all [] r = r
record_all (m ∷ metrics) r = record_all metrics (record_of m r)
