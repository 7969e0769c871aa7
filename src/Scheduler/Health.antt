-- ===== src/Scheduler/Health.antt =====
-- The health of scheduled jobs (libs/platform/job_types.py, ingestor/core/handlers.py) over any runs.
use data_pipeline_async.Base.{
  ℕ, ◌+◌, ◌*◌, ◌≡◌, refl, sym, ap, ◌∙◌, Bool, true, false, ◌&&◌, Option, none, some, List, [], ◌∷◌,
  leb, count_if, Text, text_key, text_beq_iff, ◌==◌, ==_refl, if◌then◌else◌, if-true, if-false,
  Bool-cases, inl, inr, arith,
}
use data_pipeline_async.Base.Dict.{lookup, insert, lookup-insert}
use data_pipeline_async.Routes.{answer}
use data_pipeline_async.Scheduler.{
  JobHealthMetrics, new_metrics, success_rate, is_none, is_healthy, JobEnd, returned, timed_out,
  cancelled, failed, JobRun, settled, wrapped, Jobs, register, run_found, run_job, get_job_health,
  report, report_or_404, get_job_health_route,
}

-- Runs of named jobs, one after the other.
pub run_all : List (Text × JobRun) → Jobs → Jobs
run_all [] jobs = jobs
run_all ((name, run) ∷ runs) jobs = run_all runs (run_job name run jobs)

abbrev pub is_success : JobEnd → Bool
is_success returned = true
is_success (timed_out message) = false
is_success cancelled = false
is_success (failed message) = false

abbrev pub is_failure : JobEnd → Bool
is_failure returned = false
is_failure (timed_out message) = true
is_failure cancelled = false
is_failure (failed message) = true

abbrev pub count_ends : (JobEnd → Bool) → Text → List (Text × JobRun) → ℕ
count_ends p name runs = count_if (λ r. r.0 == name && p r.1.end) runs

-- Whether the last run of a job that was not cancelled succeeded, if there was any.
abbrev pub ok_after : Bool → JobEnd → Bool
ok_after before returned = true
ok_after before (timed_out message) = false
ok_after before cancelled = before
ok_after before (failed message) = false

abbrev pub last_ok : Text → Bool → List (Text × JobRun) → Bool
last_ok name before [] = before
last_ok name before ((other, run) ∷ runs) =
    last_ok name (if other == name then ok_after before run.end else before) runs

-- The metrics of one job say this of its runs.
record Tracks (m : JobHealthMetrics) (successes failures : ℕ) (ok : Bool) : Type 0 where
  counted : m.success_count ≡ successes
  missed : m.failure_count ≡ failures
  error_free : is_none m.last_error ≡ ok

settled-Tracks :
    (at duration : ℕ) (end : JobEnd) (m : JobHealthMetrics) (successes failures : ℕ) (ok : Bool)
    → Tracks m successes failures ok
    → Tracks
        (settled at duration end m)
        (successes + (if is_success end then 1 else 0))
        (failures + (if is_failure end then 1 else 0))
        (ok_after ok end)
settled-Tracks at duration returned m a b ok h = record {
  counted = omega (arith, h.counted);
  missed = omega (arith, h.missed);
  error_free = refl;
}
settled-Tracks at duration (timed_out message) m a b ok h = record {
  counted = omega (arith, h.counted);
  missed = omega (arith, h.missed);
  error_free = refl;
}
settled-Tracks at duration cancelled m a b ok h = record {
  counted = omega (arith, h.counted);
  missed = omega (arith, h.missed);
  error_free = h.error_free;
}
settled-Tracks at duration (failed message) m a b ok h = record {
  counted = omega (arith, h.counted);
  missed = omega (arith, h.missed);
  error_free = refl;
}

run_job-lookup :
    (name other : Text) (run : JobRun) (jobs : Jobs) (m : JobHealthMetrics)
    → lookup name jobs ≡ some m
    → lookup name (run_job other run jobs) ≡ some (if other == name then wrapped run m else m)
unfolding run_job
run_job-lookup name other run jobs m held = elim (Bool-cases (other == name)) [
  | inl same ↦
      let known : lookup other jobs ≡ some m =
        ap (λ k. lookup k jobs) ((text_beq_iff other name).0 same) ∙ held in
      ap (λ o. lookup name (run_found other run o jobs)) known
      ∙ lookup-insert other name (wrapped run m) jobs
      ∙ if-true (other == name) _ _ same
      ∙ sym (ap some (if-true (other == name) (wrapped run m) m same))
  | inr apart ↦
      unrelated (lookup other jobs) apart
      ∙ held
      ∙ sym (ap some (if-false (other == name) (wrapped run m) m apart))
]
  where
    unrelated :
        (o : Option JobHealthMetrics)
        → (other == name) ≡ false
        → lookup name (run_found other run o jobs) ≡ lookup name jobs
    unrelated none apart = refl
    unrelated (some m') apart =
        lookup-insert other name (wrapped run m') jobs ∙ if-false (other == name) _ _ apart

run_job-Tracks :
    (name other : Text) (run : JobRun) (m : JobHealthMetrics) (a b : ℕ) (ok : Bool)
    → Tracks m a b ok
    → Tracks
        (if other == name then wrapped run m else m)
        (a + (if other == name && is_success run.end then 1 else 0))
        (b + (if other == name && is_failure run.end then 1 else 0))
        (if other == name then ok_after ok run.end else ok)
unfolding wrapped
run_job-Tracks name other run m a b ok h = elim (Bool-cases (other == name)) [
  | inl same ↦ rw same (settled-Tracks run.at run.duration run.end m a b ok h)
  | inr apart ↦ rw apart (record {
    counted = omega (arith, h.counted);
    missed = omega (arith, h.missed);
    error_free = h.error_free;
  })
]

run_all-Tracks :
    (name : Text) (runs : List (Text × JobRun)) (jobs : Jobs) (m : JobHealthMetrics) (a b : ℕ)
    (ok : Bool)
    → lookup name jobs ≡ some m
    → Tracks m a b ok
    → (m' : JobHealthMetrics) × (lookup name (run_all runs jobs) ≡ some m')
      × Tracks m'
          (a + count_ends is_success name runs)
          (b + count_ends is_failure name runs)
          (last_ok name ok runs)
unfolding run_all
run_all-Tracks name [] jobs m a b ok held h = (
  m,
  held,
  record {
    counted = omega (arith, h.counted);
    missed = omega (arith, h.missed);
    error_free = h.error_free;
  },
)
run_all-Tracks name ((other, run) ∷ runs) jobs m a b ok held h =
    let (m', found, t) =
      run_all-Tracks name runs (run_job other run jobs) (if other == name then wrapped run m else m)
        (a + (if other == name && is_success run.end then 1 else 0))
        (b + (if other == name && is_failure run.end then 1 else 0))
        (if other == name then ok_after ok run.end else ok)
        (run_job-lookup name other run jobs m held) (run_job-Tracks name other run m a b ok h) in
    (
      m',
      found,
      record {
        counted = omega (arith, t.counted);
        missed = omega (arith, t.missed);
        error_free = t.error_free;
      },
    )

healthy-Tracks :
    (m : JobHealthMetrics) (a b : ℕ) (ok : Bool)
    → Tracks m a b ok
    → is_healthy m ≡ (ok && leb (4 * (a + b)) (5 * a))
unfolding is_healthy success_rate
healthy-Tracks m a b ok h = ground (arith, h.counted, h.missed, h.error_free)

-- After any runs of any jobs, the route of a job that was registered before them reports as many
-- successes as runs of it returned, as many failures as timed out or raised, cancelled ones being
-- neither, and calls it healthy exactly if its last run that was not cancelled succeeded, or there
-- was none, and at least four in five of the counted runs did.
pub health_tracks_runs :
    (name : Text) (runs : List (Text × JobRun)) (jobs : Jobs)
    → let successes = count_ends is_success name runs in
      let failures = count_ends is_failure name runs in
      (m : JobHealthMetrics) × (get_job_health_route name (some (run_all runs (register name jobs)))
        ≡ answer 200 (report m))
      × (m.success_count ≡ successes)
      × (m.failure_count ≡ failures)
      × (is_healthy m
          ≡ (last_ok name true runs && leb (4 * (successes + failures)) (5 * successes)))
unfolding get_job_health_route get_job_health register is_healthy
health_tracks_runs name runs jobs =
    let start : lookup name (insert name new_metrics jobs) ≡ some new_metrics =
      lookup-insert name name new_metrics jobs ∙ if-true (name == name) _ _ (==_refl name) in
    let (m, found, t) =
      run_all-Tracks name runs (insert name new_metrics jobs) new_metrics 0 0 true start
        (record { counted = refl; missed = refl; error_free = refl }) in
    (
      m,
      ap report_or_404 found,
      omega (arith, t.counted),
      omega (arith, t.missed),
      healthy-Tracks m (0 + count_ends is_success name runs) (0 + count_ends is_failure name runs)
            (last_ok name true runs) t
          ∙ ground arith,
    )
