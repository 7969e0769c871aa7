-- ===== src/Scheduler.antt =====
-- Scheduled jobs: libs/platform/job_types.py, `wrap_job_handler` of ingestor/core/handlers.py, the
-- registry of ingestor/core/scheduler.py and the queries of
-- ingestor/routers/health_ingestion_jobs.py. How a handler ends is an argument; what APScheduler does
-- with the jobs, and its next run times, are left out. Durations and times are clock ticks.
pub mod Health
mod Examples
use data_pipeline_async.Base.{
  ℕ, suc, ◌+◌, ◌*◌, Bool, true, false, ◌&&◌, Option, none, some, List, [], ◌∷◌, leb, eqb, length,
  map, Text, text_key, if◌then◌else◌,
}
use data_pipeline_async.Base.Dict.{Dict, lookup, insert}
use data_pipeline_async.Routes.{Response, answer, http_error}

pub record JobHealthMetrics : Type 0 where
  pub last_run_at : Option ℕ
  pub last_run_duration : ℕ
  pub success_count : ℕ
  pub failure_count : ℕ
  pub last_error : Option Text

abbrev pub new_metrics : JobHealthMetrics
new_metrics = record {
  last_run_at = none;
  last_run_duration = 0;
  success_count = 0;
  failure_count = 0;
  last_error = none;
}

-- `success_rate`, as a numerator and a denominator.
pub success_rate : JobHealthMetrics → ℕ × ℕ
success_rate m =
    let total = m.success_count + m.failure_count in
    if eqb total 0 then (1, 1) else (m.success_count, total)

abbrev pub is_none {ℓ} : {A : Type ℓ} → Option A → Bool
is_none none = true
is_none (some _) = false

-- `success_rate >= 0.8`, without the division.
pub is_healthy : JobHealthMetrics → Bool
unfolding success_rate
is_healthy m =
    let (successes, total) = success_rate m in
    is_none m.last_error && leb (4 * total) (5 * successes)

-- How the handler of a job ends, with the text of its error.
pub data JobEnd : Type 0 where
  returned : JobEnd
  timed_out : Text → JobEnd
  cancelled : JobEnd
  failed : Text → JobEnd

abbrev pub timeout_exceeded : Text
timeout_exceeded =
    b't' ∷ b'i' ∷ b'm' ∷ b'e' ∷ b'o' ∷ b'u' ∷ b't' ∷ b' ' ∷ b'e' ∷ b'x' ∷ b'c' ∷ b'e' ∷ b'e' ∷ b'd'
    ∷ b'e' ∷ b'd' ∷ []

-- `str(e) or "timeout exceeded"`
abbrev pub or_timeout : Text → Text
or_timeout [] = timeout_exceeded
or_timeout (c ∷ s) = c ∷ s

-- A run: when it ended, how long it took, and how it ended.
pub record JobRun : Type 0 where
  pub at : ℕ
  pub duration : ℕ
  pub end : JobEnd

-- What the `wrapped` handler does to the metrics; but for a returned value it raises again.
abbrev pub settled : ℕ → ℕ → JobEnd → JobHealthMetrics → JobHealthMetrics
settled at duration returned m = record m {
  last_run_at = some at;
  last_run_duration = duration;
  success_count = suc m.success_count;
  last_error = none;
}
settled at duration (timed_out message) m = record m {
  last_run_at = some at;
  failure_count = suc m.failure_count;
  last_error = some (or_timeout message);
}
settled at duration cancelled m = m
settled at duration (failed message) m = record m {
  last_run_at = some at;
  failure_count = suc m.failure_count;
  last_error = some message;
}

pub wrapped : JobRun → JobHealthMetrics → JobHealthMetrics
wrapped run m = settled run.at run.duration run.end m

-- The registered jobs, of which the metrics are kept.
abbrev pub Jobs : Type 0
Jobs = Dict Text JobHealthMetrics

-- `job`: a name registered again starts anew.
pub register : Text → Jobs → Jobs
register name jobs = insert name new_metrics jobs

-- A run of a registered job.
abbrev pub run_found : Text → JobRun → Option JobHealthMetrics → Jobs → Jobs
run_found name run none jobs = jobs
run_found name run (some m) jobs = insert name (wrapped run m) jobs

pub run_job : Text → JobRun → Jobs → Jobs
run_job name run jobs = run_found name run (lookup name jobs) jobs

pub get_job_health : Text → Jobs → Option JobHealthMetrics
get_job_health name jobs = lookup name jobs

-- What a route tells of a job, without its next run time.
pub record JobReport : Type 0 where
  pub metrics : JobHealthMetrics
  pub rate : ℕ × ℕ
  pub healthy : Bool

abbrev pub report : JobHealthMetrics → JobReport
report m = record { metrics = m; rate = success_rate m; healthy = is_healthy m }

abbrev pub report_or_404 : Option JobHealthMetrics → Response JobReport
report_or_404 none = http_error 404
report_or_404 (some m) = answer 200 (report m)

-- The route of one job; the scheduler is None until the application started it.
pub get_job_health_route : Text → Option Jobs → Response JobReport
get_job_health_route name none = http_error 503
get_job_health_route name (some jobs) = report_or_404 (get_job_health name jobs)

-- The route of all jobs: `JobScheduler` has no attribute `running`, so that the last line of a started
-- scheduler's report raises an AttributeError.
pub get_jobs_health : Option Jobs → Response (List (Text × JobReport))
get_jobs_health none = http_error 503
get_jobs_health (some jobs) = http_error 500
