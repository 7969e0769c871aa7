-- ===== src/Workers/Examples.antt =====
-- Witnesses and tests of the worker pool.
use data_pipeline_async.Base.{ℕ, ◌+◌, ◌≤◌, ◌≡◌, refl, true, [], ◌∷◌, length, nat_key, arith}
use data_pipeline_async.Base.Dict.{contains}
use data_pipeline_async.Workers.{
  WorkerPool, new_pool, start, submit_batch_ingest, accepted, queued_status, take_task, trim,
  begin_task,
}
use data_pipeline_async.Workers.Tracking.{listed}
use data_pipeline_async.Workers.Sound.{queued_ids}
use data_pipeline_async.Workers.Steps.{
  Reach, here, next, starting, submitting, taking, workers_survive,
}
use data_pipeline_async.Workers.Trimmed.{trimmed_task_ends_worker}

-- One worker; a task is queued at 5 and taken at 6, and a second one is queued at 7.
abbrev busy : WorkerPool
busy =
    (submit_batch_ingest 11 [] 7
      (take_task 6 (submit_batch_ingest 10 [] 5 (start (new_pool 1 2 3))).0)).0

busy-Reach : Reach (new_pool 1 2 3) busy
unfolding new_pool start submit_batch_ingest take_task begin_task trim
busy-Reach =
    next (next (next (next here starting) (submitting 10 [] 5 refl)) (taking 6 (omega arith)))
      (submitting 11 [] 7 refl)

workers_survive_example :
    (busy.ended ≡ 0)
    × ((id : ℕ) → listed id (queued_ids busy.queue) ≡ true → contains id busy.statuses ≡ true)
    × (length busy.order ≤ 3)
    × (length busy.statuses ≤ 3)
    × ((id : ℕ) → contains id busy.statuses ≡ listed id busy.order)
workers_survive_example = workers_survive 2 3 1 busy (omega arith) (omega arith) busy-Reach

-- A history of one task beside a queue of two.
abbrev short_history : WorkerPool
short_history = (submit_batch_ingest 10 [] 5 (start (new_pool 1 2 1))).0

trimmed_task_ends_worker_example :
    ((submit_batch_ingest 11 [] 7 short_history).1 ≡ accepted (queued_status 11 [] 7))
    × ((take_task 8 (submit_batch_ingest 11 [] 7 short_history).0).ended ≡ short_history.ended + 1)
    × ((take_task 8 (submit_batch_ingest 11 [] 7 short_history).0).queue ≡ (11, []) ∷ [])
    × ((take_task 8 (submit_batch_ingest 11 [] 7 short_history).0).working ≡ short_history.working)
unfolding new_pool start submit_batch_ingest take_task begin_task trim
trimmed_task_ends_worker_example =
    trimmed_task_ends_worker short_history 11 10 [] [] [] [] 7 refl refl refl refl refl
