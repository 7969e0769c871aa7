-- ===== src/Scheduler/Examples.antt =====
-- Witnesses of the job health: two jobs, of which one fails between two successes.
use data_pipeline_async.Base.{◌+◌, ◌*◌, ◌≡◌, true, ◌&&◌, some, List, [], ◌∷◌, leb, Text}
use data_pipeline_async.Routes.{answer}
use data_pipeline_async.Scheduler.{
  JobHealthMetrics, is_healthy, returned, timed_out, cancelled, JobRun, register, report,
  get_job_health_route,
}
use data_pipeline_async.Scheduler.Health.{
  run_all, is_success, is_failure, count_ends, last_ok, health_tracks_runs,
}

abbrev archive : Text
archive = b'a' ∷ []

abbrev runs : List (Text × JobRun)
runs =
    (archive, record { at = 5; duration = 2; end = returned })
    ∷ (b'b' ∷ [], record { at = 6; duration = 1; end = timed_out [] })
    ∷ (archive, record { at = 9; duration = 3; end = timed_out [] })
    ∷ (archive, record { at = 9; duration = 3; end = cancelled })
    ∷ []

health_tracks_runs_example :
    let successes = count_ends is_success archive runs in
    let failures = count_ends is_failure archive runs in
    (m : JobHealthMetrics) × (get_job_health_route archive
        (some (run_all runs (register archive [])))
      ≡ answer 200 (report m))
    × (m.success_count ≡ successes)
    × (m.failure_count ≡ failures)
    × (is_healthy m
        ≡ (last_ok archive true runs && leb (4 * (successes + failures)) (5 * successes)))
health_tracks_runs_example = health_tracks_runs archive runs []
