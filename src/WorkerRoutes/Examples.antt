-- ===== src/WorkerRoutes/Examples.antt =====
-- Witnesses of the pool's routes.
use data_pipeline_async.Base.{◌≡◌, refl, true, some, List, [], ◌∷◌, arith}
use data_pipeline_async.Records.{RecordRequest}
use data_pipeline_async.Workers.{WorkerPool, queued_status}
use data_pipeline_async.Routes.{answer}
use data_pipeline_async.WorkerRoutes.{submit_background_batch_ingest, get_background_task_status}
use data_pipeline_async.WorkerRoutes.Queries.{submission_visible}

abbrev pool : WorkerPool
pool = record {
  worker_count = 1;
  maxsize = 2;
  max_tracked_tasks = 1;
  is_running = true;
  queue = (4, []) ∷ [];
  statuses = (4, queued_status 4 [] 10) ∷ [];
  order = 4 ∷ [];
  waiting = 1;
  working = [];
  ended = 0;
}

abbrev batch : List RecordRequest
batch = record { source = b's' ∷ []; timestamp = 40; document = []; tags = [] } ∷ []

submission_visible_example :
    let (next, out) = submit_background_batch_ingest 5 batch 11 (some pool) in
    (out ≡ answer 202 (queued_status 5 batch 11))
    × (get_background_task_status 5 next ≡ answer 200 (queued_status 5 batch 11))
submission_visible_example =
    submission_visible pool 5 11 batch refl refl ((λ e. ground (arith, e)), tt) (omega arith)
      (omega arith) (omega arith)
