-- ===== src/WorkerRoutes.antt =====
-- The routes of the worker pool, ingestor/routers/background_processing.py, and `health_summary` of
-- ingestor/core/background_workers.py. The pool is None unless the application started one.
pub mod Queries
mod Examples
use data_pipeline_async.Base.{
  ℕ, suc, Bool, true, false, ◌&&◌, Option, none, some, List, [], ◌∷◌, length, leb, nat_key,
  if◌then◌else◌,
}
use data_pipeline_async.Base.Dict.{Dict, lookup}
use data_pipeline_async.Records.{RecordRequest}
use data_pipeline_async.Workers.{
  TaskState, queued, running, succeeded, failed, cancelled, TaskStatus, WorkerPool, Submission,
  accepted, not_running, queue_full, submit_batch_ingest, get_task_status,
}
use data_pipeline_async.Routes.{Response, answer, http_error, max_batch_size}

abbrev pub submitted : Submission → Response TaskStatus
submitted (accepted status) = answer 202 status
submitted not_running = http_error 429
submitted queue_full = http_error 429

abbrev pub submit_to :
    ℕ → List RecordRequest → ℕ → WorkerPool → Option WorkerPool × Response TaskStatus
submit_to id records now p =
    let (p', submission) = submit_batch_ingest id records now p in
    if p.is_running then (some p', submitted submission) else (some p, http_error 503)

abbrev pub submit_if_running :
    ℕ → List RecordRequest → ℕ → Option WorkerPool → Option WorkerPool × Response TaskStatus
submit_if_running id records now none = (none, http_error 503)
submit_if_running id records now (some p) = submit_to id records now p

-- `submit_background_batch_ingest`; a body of no or too many records is refused before.
pub submit_background_batch_ingest :
    ℕ → List RecordRequest → ℕ → Option WorkerPool → Option WorkerPool × Response TaskStatus
submit_background_batch_ingest id records now pool =
    if leb 1 (length records) && leb (length records) max_batch_size
    then submit_if_running id records now pool
    else (pool, http_error 422)

abbrev pub status_or_404 : Option TaskStatus → Response TaskStatus
status_or_404 none = http_error 404
status_or_404 (some status) = answer 200 status

pub get_background_task_status : ℕ → Option WorkerPool → Response TaskStatus
get_background_task_status id none = http_error 503
get_background_task_status id (some p) =
    if p.is_running then status_or_404 (get_task_status id p) else http_error 503

-- The counters of `health_summary`, in the order of its dict.
pub record Counters : Type 0 where
  pub queued_tasks : ℕ
  pub running_tasks : ℕ
  pub succeeded_tasks : ℕ
  pub failed_tasks : ℕ
  pub cancelled_tasks : ℕ

abbrev pub no_tasks : Counters
no_tasks = record {
  queued_tasks = 0;
  running_tasks = 0;
  succeeded_tasks = 0;
  failed_tasks = 0;
  cancelled_tasks = 0;
}

abbrev pub count_state : TaskState → Counters → Counters
count_state queued c = record c { queued_tasks = suc c.queued_tasks }
count_state running c = record c { running_tasks = suc c.running_tasks }
count_state succeeded c = record c { succeeded_tasks = suc c.succeeded_tasks }
count_state failed c = record c { failed_tasks = suc c.failed_tasks }
count_state cancelled c = record c { cancelled_tasks = suc c.cancelled_tasks }

-- `for status in statuses.values(): counters[status.status] += 1`
abbrev pub count_states : Dict ℕ TaskStatus → Counters → Counters
count_states [] c = c
count_states ((_, st) ∷ statuses) c = count_states statuses (count_state st.status c)

pub record HealthSummary : Type 0 where
  pub is_running : Bool
  pub worker_count : ℕ
  pub queue_size : ℕ
  pub queue_capacity : ℕ
  pub tracked_tasks : ℕ
  pub tasks : Counters

pub health_summary : WorkerPool → HealthSummary
health_summary p = record {
  is_running = p.is_running;
  worker_count = p.worker_count;
  queue_size = length p.queue;
  queue_capacity = p.maxsize;
  tracked_tasks = length p.statuses;
  tasks = count_states p.statuses no_tasks;
}
