-- ===== src/WorkerRoutes/Queries.antt =====
-- Submissions to the worker pool and the queries that follow them, over
-- ingestor/routers/background_processing.py.
use data_pipeline_async.Base.{
  ℕ, suc, ◌+◌, ◌≤◌, ◌≡◌, ◌≢◌, refl, ap, ◌∙◌, true, false, some, List, [], ◌∷◌, ◌++◌, length, All,
  ltb, leb, ◌&&◌, eqb, eqb_iff, nat_key, if-true, if-false, arith,
}
use data_pipeline_async.Base.Dict.{Dict, lookup, insert, erase, lookup-insert, lookup-erase}
use data_pipeline_async.Records.{RecordRequest}
use data_pipeline_async.Workers.{
  TaskState, queued, running, succeeded, failed, cancelled, TaskStatus, WorkerPool, accepted,
  is_full, trim, queued_status, submit_batch_ingest, get_task_status,
}
use data_pipeline_async.Routes.{answer, max_batch_size}
use data_pipeline_async.WorkerRoutes.{
  Counters, count_state, count_states, no_tasks, health_summary, submitted, status_or_404,
  submit_background_batch_ingest, get_background_task_status,
}

abbrev pub total : Counters → ℕ
total c = c.queued_tasks + c.running_tasks + c.succeeded_tasks + c.failed_tasks + c.cancelled_tasks

total-count_state : (st : TaskState) (c : Counters) → total (count_state st c) ≡ suc (total c)
total-count_state queued c = omega arith
total-count_state running c = omega arith
total-count_state succeeded c = omega arith
total-count_state failed c = omega arith
total-count_state cancelled c = omega arith

total-count_states :
    (statuses : Dict ℕ TaskStatus) (c : Counters)
    → total (count_states statuses c) ≡ total c + length statuses
total-count_states [] c = omega arith
total-count_states ((_, st) ∷ statuses) c =
    omega
      (arith, total-count_states statuses (count_state st.status c), total-count_state st.status c)

-- The counters of the health summary add up to the tracked tasks, whatever the pool.
pub counters_add_up :
    (p : WorkerPool) → total (health_summary p).tasks ≡ (health_summary p).tracked_tasks
unfolding health_summary
counters_add_up p = omega (arith, total-count_states p.statuses no_tasks)

-- Trimming keeps the newest task, if any is kept at all.
trim-newest :
    (most id : ℕ) (order : List ℕ) (statuses : Dict ℕ TaskStatus)
    → 1 ≤ most
    → All (λ other. other ≢ id) order
    → lookup id (trim most (order ++ id ∷ []) statuses).1 ≡ lookup id statuses
unfolding trim
trim-newest most id [] statuses h fresh =
    ap (λ x. lookup id x.1)
      (if-false (ltb most 1) (trim most [] (erase id statuses)) (id ∷ [], statuses)
        (ground (arith, h)))
trim-newest most id (oldest ∷ order) statuses h fresh = ground (
  arith,
  trim-newest most id order (erase oldest statuses) h fresh.1,
  lookup-erase oldest id statuses,
  fresh.0,
  eqb_iff oldest id,
)

-- A batch of 1 to 1000 records that a running pool with room in its queue is sent under a new id is
-- answered by 202 with the status queued, and where the history keeps any task, a query for the id
-- that follows answers 200 with that status.
pub submission_visible :
    (p : WorkerPool) (id now : ℕ) (records : List RecordRequest)
    → p.is_running ≡ true
    → is_full p ≡ false
    → All (λ other. other ≢ id) p.order
    → 1 ≤ p.max_tracked_tasks
    → 1 ≤ length records
    → length records ≤ max_batch_size
    → let (pool, out) = submit_background_batch_ingest id records now (some p) in
      (out ≡ answer 202 (queued_status id records now))
      × (get_background_task_status id pool ≡ answer 200 (queued_status id records now))
unfolding submit_background_batch_ingest get_background_task_status submit_batch_ingest
    get_task_status
submission_visible p id now records on free fresh tracked some_records few =
    let status = queued_status id records now in
    let statuses = insert id status p.statuses in
    let (order, kept) = trim p.max_tracked_tasks (p.order ++ id ∷ []) statuses in
    let p' : WorkerPool = record p {
      queue = p.queue ++ (id, records) ∷ [];
      statuses = kept;
      order = order;
    } in
    let valid : (leb 1 (length records) && leb (length records) max_batch_size) ≡ true =
      ground (arith, some_records, few) in
    let submits : submit_batch_ingest id records now p ≡ (p', accepted status) =
      if-true p.is_running _ _ on ∙ if-false (is_full p) _ _ free in
    let accepts : submit_background_batch_ingest id records now (some p)
        ≡ (some p', answer 202 status) =
      if-true (leb 1 (length records) && leb (length records) max_batch_size) _ _ valid
      ∙ if-true p.is_running _ _ on
      ∙ ap (λ x. (some x.0, submitted x.1)) submits in
    let found : lookup id kept ≡ some status =
      trim-newest p.max_tracked_tasks id p.order statuses tracked fresh
      ∙ lookup-insert id id status p.statuses
      ∙ if-true (eqb id id) _ _ ((eqb_iff id id).1 refl) in
    (
      ap (λ x. x.1) accepts,
      ap (λ x. get_background_task_status id x.0) accepts
          ∙ if-true p.is_running _ _ on
          ∙ ap status_or_404 found,
    )
