-- ===== src/Metrics/Tests.antt =====
-- The counts of three calls.
use clawvival.Base.{◌≡◌, refl, arith, String, List, [], ◌∷◌, length}
use clawvival.Survival.Types.{ok, failed}
use clawvival.Engine.Execute.{Metric, record_success, record_conflict}
use clawvival.Metrics.{new_recorder, record_all, snapshot, tally_of}
use clawvival.Metrics.Counts.{
  calls, is_success, is_conflict, is_failure, has_code, snapshot-record_all,
}

abbrev three : List Metric
three = record_success ok ∷ record_conflict ∷ record_success failed ∷ []

snapshot-record_all_example :
    ((snapshot (record_all three new_recorder)).action_total ≡ length three)
    × ((snapshot (record_all three new_recorder)).action_success ≡ calls is_success three)
    × ((snapshot (record_all three new_recorder)).action_conflict ≡ calls is_conflict three)
    × ((snapshot (record_all three new_recorder)).action_failure ≡ calls is_failure three)
    × ((key : String)
        → tally_of key (snapshot (record_all three new_recorder)).by_result_code
          ≡ calls (has_code key) three)
snapshot-record_all_example = snapshot-record_all three (omega arith)

successes : calls is_success three ≡ 2
unfolding calls
successes = refl
