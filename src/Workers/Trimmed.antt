-- ===== src/Workers/Trimmed.antt =====
-- A `BackgroundWorkerPool` (ingestor/core/background_workers.py) whose status history is shorter
-- than its queue, as config.py's bounds on the two settings allow.
use data_pipeline_async.Base.{
  ℕ, ◌+◌, ◌-◌, ◌≤◌, ◌≡◌, refl, ap, ◌∙◌, true, false, none, List, [], ◌∷◌, ◌++◌, length,
  length-append, ltb, eqb, eqb_iff, nat_key, arith, if-true, if-false,
}
use data_pipeline_async.Base.Dict.{Dict, lookup, insert, erase, lookup-erase}
use data_pipeline_async.Records.{RecordRequest}
use data_pipeline_async.Workers.{
  TaskStatus, WorkerPool, accepted, is_full, trim, queued_status, submit_batch_ingest, take_task,
  take_from, begin_task,
}

trim-short :
    (most : ℕ) (order : List ℕ) (statuses : Dict ℕ TaskStatus)
    → length order ≤ most
    → trim most order statuses ≡ (order, statuses)
unfolding trim
trim-short most [] statuses h = refl
trim-short most (id ∷ order) statuses h =
    if-false (ltb most (length (id ∷ order))) _ _ (ground (arith, h))

trim-oldest :
    (most oldest : ℕ) (order : List ℕ) (statuses : Dict ℕ TaskStatus)
    → length order ≡ most
    → trim most (oldest ∷ order) statuses ≡ (order, erase oldest statuses)
unfolding trim
trim-oldest most oldest order statuses h =
    if-true (ltb most (length (oldest ∷ order))) _ _ (ground (arith, h))
    ∙ trim-short most order (erase oldest statuses) (omega (arith, h))

take_task-untracked :
    (now id : ℕ) (records : List RecordRequest) (rest : List (ℕ × List RecordRequest))
    (p : WorkerPool)
    → p.queue ≡ (id, records) ∷ rest
    → lookup id p.statuses ≡ none
    → take_task now p ≡ record p { queue = rest; waiting = p.waiting - 1; ended = p.ended + 1 }
unfolding take_task begin_task
take_task-untracked now id records rest p e absent =
    ap (λ l. take_from now l p) e ∙ ap (λ o. begin_task now id rest o p) absent

-- A running pool that is not full, its history full, takes one more task in.
submit-trims :
    (p : WorkerPool) (id oldest : ℕ) (records : List RecordRequest) (later : List ℕ) (now : ℕ)
    → p.is_running ≡ true
    → is_full p ≡ false
    → p.order ≡ oldest ∷ later
    → length p.order ≡ p.max_tracked_tasks
    → submit_batch_ingest id records now p ≡ (
      record p {
        queue = p.queue ++ (id, records) ∷ [];
        statuses = erase oldest (insert id (queued_status id records now) p.statuses);
        order = later ++ id ∷ [];
      },
      accepted (queued_status id records now),
    )
unfolding submit_batch_ingest
submit-trims p id oldest records later now on free eo full =
    if-true p.is_running _ _ on
    ∙ if-false (is_full p) _ _ free
    ∙ ap
        (λ r. (
          record p { queue = p.queue ++ (id, records) ∷ []; statuses = r.1; order = r.0 },
          accepted (queued_status id records now),
        ))
        trimmed
  where
    trimmed :
        trim p.max_tracked_tasks
          (p.order ++ id ∷ [])
          (insert id (queued_status id records now) p.statuses)
        ≡ (later ++ id ∷ [], erase oldest (insert id (queued_status id records now) p.statuses))
    trimmed =
        ap
          (λ l.
            trim p.max_tracked_tasks (l ++ id ∷ [])
              (insert id (queued_status id records now) p.statuses))
          eo
        ∙ trim-oldest p.max_tracked_tasks oldest (later ++ id ∷ [])
            (insert id (queued_status id records now) p.statuses)
            (omega (arith, length-append later (id ∷ []), ap length eo, full))

-- If the status history is full and shorter than the queue, with the oldest task still queued, then
-- a submission to a running pool is accepted, and the next worker to take a task ends: the oldest
-- task is out of the queue and no worker works on it.
pub trimmed_task_ends_worker :
    (p : WorkerPool) (id oldest : ℕ) (records lost : List RecordRequest) (later : List ℕ)
    (rest : List (ℕ × List RecordRequest)) (now : ℕ)
    → p.is_running ≡ true
    → is_full p ≡ false
    → p.order ≡ oldest ∷ later
    → p.queue ≡ (oldest, lost) ∷ rest
    → length p.order ≡ p.max_tracked_tasks
    → let after = (submit_batch_ingest id records now p).0 in
      ((submit_batch_ingest id records now p).1 ≡ accepted (queued_status id records now))
      × ((take_task now after).ended ≡ p.ended + 1)
      × ((take_task now after).queue ≡ rest ++ (id, records) ∷ [])
      × ((take_task now after).working ≡ p.working)
trimmed_task_ends_worker p id oldest records lost later rest now on free eo eq full = (
  ap (λ r. r.1) submitted,
  ap (λ q. q.ended) taken,
  ap (λ q. q.queue) taken,
  ap (λ q. q.working) taken,
)
  where
    after : WorkerPool
    after = (submit_batch_ingest id records now p).0

    shorter : WorkerPool
    shorter = record p {
      queue = p.queue ++ (id, records) ∷ [];
      statuses = erase oldest (insert id (queued_status id records now) p.statuses);
      order = later ++ id ∷ [];
    }

    submitted :
        submit_batch_ingest id records now p ≡ (shorter, accepted (queued_status id records now))
    submitted = submit-trims p id oldest records later now on free eo full

    taken : take_task now after ≡ record shorter {
      queue = rest ++ (id, records) ∷ [];
      waiting = p.waiting - 1;
      ended = p.ended + 1;
    }
    taken =
        ap (λ r. take_task now r.0) submitted
        ∙ take_task-untracked now oldest lost (rest ++ (id, records) ∷ []) _
            (ap (λ l. l ++ (id, records) ∷ []) eq)
            (lookup-erase oldest oldest _
              ∙ if-true (eqb oldest oldest) _ _ ((eqb_iff oldest oldest).1 refl))
