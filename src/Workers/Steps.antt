-- ===== src/Workers/Steps.antt =====
-- Runs of `BackgroundWorkerPool` (ingestor/core/background_workers.py): its methods, and the parts
-- of `_worker_loop` between awaits, as the steps of a system.
use data_pipeline_async.Base.{
  ℕ, ◌≤◌, ◌<◌, ◌≡◌, refl, ap, true, false, List, [], length, nat_key, arith,
}
use data_pipeline_async.Base.Dict.{contains}
use data_pipeline_async.Records.{RecordRequest}
use data_pipeline_async.Workers.{
  WorkerPool, new_pool, start, stop, submit_batch_ingest, take_task, Ending, finish_task,
}
use data_pipeline_async.Workers.Tracking.{listed, listed-append}
use data_pipeline_async.Workers.Sound.{
  IsSound, queued_ids, start-IsSound, stop-IsSound, finish-IsSound, take-IsSound, submit-IsSound,
}

-- A uuid is new: no tracked task has it. A worker takes a task if one waits.
pub data Step (p : WorkerPool) : WorkerPool → Type 0 where
  starting : Step p (start p)
  stopping : (now : ℕ) → Step p (stop now p)
  submitting :
      (id : ℕ) (records : List RecordRequest) (now : ℕ)
      → contains id p.statuses ≡ false
      → Step p (submit_batch_ingest id records now p).0
  taking : (now : ℕ) → 0 < p.waiting → Step p (take_task now p)
  finishing :
      (id : ℕ) (ending : Ending) (now : ℕ)
      → listed id p.working ≡ true
      → Step p (finish_task id ending now p)

pub data Reach (first : WorkerPool) : WorkerPool → Type 0 where
  here : Reach first first
  next : {p q : WorkerPool} → Reach first p → Step p q → Reach first q

Step-IsSound :
    {size tracked : ℕ} {p q : WorkerPool}
    → 0 < size
    → size ≤ tracked
    → Step p q
    → IsSound size tracked p
    → IsSound size tracked q
Step-IsSound {p = p} positive fits starting s = start-IsSound p s
Step-IsSound {p = p} positive fits (stopping now) s = stop-IsSound now p s
Step-IsSound {p = p} positive fits (submitting id records now fresh) s =
    submit-IsSound id records now p positive fits fresh s
Step-IsSound {p = p} positive fits (taking now h) s = take-IsSound now p s
Step-IsSound {p = p} positive fits (finishing id ending now h) s = finish-IsSound id ending now p s

Reach-IsSound :
    (size tracked workers : ℕ) (p : WorkerPool)
    → 0 < size
    → size ≤ tracked
    → Reach (new_pool workers size tracked) p
    → IsSound size tracked p
unfolding new_pool
Reach-IsSound size tracked workers p positive fits here = record {
  same_size = refl;
  same_bound = refl;
  room = omega arith;
  bounded = omega arith;
  distinct = tt;
  tracked_ids = λ id. refl;
  one_each = omega arith;
  latest = ([], refl);
  none_ended = refl;
}
Reach-IsSound size tracked workers p positive fits (next {p = before} r step) =
    Step-IsSound positive fits step (Reach-IsSound size tracked workers before positive fits r)

-- If the queue is bounded and no longer than the status history may be, then in every pool that a
-- new pool reaches by starts, stops, submissions under new ids and steps of the workers, no worker
-- has ended by a KeyError, every queued task has a status, and the dict of statuses and the list of
-- tracked ids are both within the bound, with a status for just the ids in the list.
pub workers_survive :
    (size tracked workers : ℕ) (p : WorkerPool)
    → 0 < size
    → size ≤ tracked
    → Reach (new_pool workers size tracked) p
    → (p.ended ≡ 0)
      × ((id : ℕ) → listed id (queued_ids p.queue) ≡ true → contains id p.statuses ≡ true)
      × (length p.order ≤ tracked)
      × (length p.statuses ≤ tracked)
      × ((id : ℕ) → contains id p.statuses ≡ listed id p.order)
workers_survive size tracked workers p positive fits r =
    let s = Reach-IsSound size tracked workers p positive fits r in
    (
      s.none_ended,
      (λ id h. ground (
        arith,
        s.tracked_ids id,
        ap (listed id) s.latest.1,
        listed-append id s.latest.0 (queued_ids p.queue),
        h,
      )),
      s.bounded,
      omega (arith, s.bounded, s.one_each),
      s.tracked_ids,
    )
