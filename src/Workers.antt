-- ===== src/Workers.antt =====
-- `BackgroundWorkerPool` of ingestor/core/background_workers.py. Between two awaits a task runs
-- alone, so each method, and each part of `_worker_loop` between its awaits, is one step on the pool.
-- Task ids are uuids, which are only compared: they are numbers here, and a new one is an argument.
-- Metrics, log lines and the failure callback, whose exceptions are swallowed, are left out.
pub mod Tracking
pub mod Writes
pub mod Sound
pub mod Steps
pub mod Trimmed
mod Examples
use data_pipeline_async.Base.{
  ℕ, zero, suc, ◌+◌, ◌-◌, ◌≤◌, Bool, true, false, ◌&&◌, Option, none, some, List, [], ◌∷◌, ◌++◌,
  map, length, ltb, leb, eqb, nat_key, Text, if◌then◌else◌,
}
use data_pipeline_async.Base.Dict.{Dict, lookup, insert, erase}
use data_pipeline_async.Records.{RecordRequest}
use data_pipeline_async.Jobs.{Summary}

pub data TaskState : Type 0 where
  queued running succeeded failed cancelled : TaskState

pub record TaskStatus : Type 0 where
  pub task_id : ℕ
  pub status : TaskState
  pub batch_size : ℕ
  pub queued_at : ℕ
  pub started_at : Option ℕ
  pub finished_at : Option ℕ
  pub result : Option Summary
  pub error : Option Text

-- A worker waits for the queue, works on a task, or its coroutine has ended by an exception.
pub record WorkerPool : Type 0 where
  pub worker_count : ℕ
  pub maxsize : ℕ
  pub max_tracked_tasks : ℕ
  pub is_running : Bool
  pub queue : List (ℕ × List RecordRequest)
  pub statuses : Dict ℕ TaskStatus
  pub order : List ℕ
  pub waiting : ℕ
  pub working : List ℕ
  pub ended : ℕ

pub new_pool : ℕ → ℕ → ℕ → WorkerPool
new_pool workers size tracked = record {
  worker_count = workers;
  maxsize = size;
  max_tracked_tasks = tracked;
  is_running = false;
  queue = [];
  statuses = [];
  order = [];
  waiting = 0;
  working = [];
  ended = 0;
}

pub start : WorkerPool → WorkerPool
start p =
    if p.is_running
    then p
    else record p { is_running = true; waiting = p.worker_count; working = []; ended = 0 }

-- `asyncio.Queue.full`; a size of 0 means no bound.
abbrev pub is_full : WorkerPool → Bool
is_full p = ltb 0 p.maxsize && leb p.maxsize (length p.queue)

-- `while len(order) > max: statuses.pop(order.popleft(), None)`
unfoldable pub trim : ℕ → List ℕ → Dict ℕ TaskStatus → List ℕ × Dict ℕ TaskStatus
trim most [] statuses = ([], statuses)
trim most (oldest ∷ order) statuses =
    let rest = trim most order (erase oldest statuses) in
    if ltb most (length (oldest ∷ order)) then rest else (oldest ∷ order, statuses)

pub data Submission : Type 0 where
  accepted : TaskStatus → Submission
  not_running : Submission
  queue_full : Submission

abbrev pub queued_status : ℕ → List RecordRequest → ℕ → TaskStatus
queued_status id records now = record {
  task_id = id;
  status = queued;
  batch_size = length records;
  queued_at = now;
  started_at = none;
  finished_at = none;
  result = none;
  error = none;
}

unfoldable pub submit_batch_ingest :
    ℕ → List RecordRequest → ℕ → WorkerPool → WorkerPool × Submission
unfolding trim
submit_batch_ingest id records now p =
    let status = queued_status id records now in
    let (order, statuses) =
      trim p.max_tracked_tasks (p.order ++ id ∷ []) (insert id status p.statuses) in
    if p.is_running
    then (if is_full p then (p, queue_full) else (
      record p { queue = p.queue ++ (id, records) ∷ []; statuses = statuses; order = order },
      accepted status,
    ))
    else (p, not_running)

unfoldable pub get_task_status : ℕ → WorkerPool → Option TaskStatus
get_task_status id p = lookup id p.statuses

-- A worker holds the status object itself: a write to it shows in the dict while it is there.
abbrev pub write_status : ℕ → (TaskStatus → TaskStatus) → Dict ℕ TaskStatus → Dict ℕ TaskStatus
write_status id f statuses = elim (lookup id statuses) [
  | none ↦ statuses
  | some st ↦ insert id (f st) statuses
]

-- `_worker_loop` from `queue.get()` to the call of the processor. A missing status is a KeyError
-- outside every `try`: the worker's coroutine ends, and the task is gone from the queue.
pub begin_task : ℕ → ℕ → List (ℕ × List RecordRequest) → Option TaskStatus → WorkerPool → WorkerPool
begin_task now id rest none p = record p {
  queue = rest;
  waiting = p.waiting - 1;
  ended = p.ended + 1;
}
begin_task now id rest (some st) p = record p {
  queue = rest;
  waiting = p.waiting - 1;
  working = id ∷ p.working;
  statuses = insert id (record st { status = running; started_at = some now }) p.statuses;
}

abbrev pub take_from : ℕ → List (ℕ × List RecordRequest) → WorkerPool → WorkerPool
take_from now [] p = p
take_from now ((id, _) ∷ rest) p = begin_task now id rest (lookup id p.statuses) p

pub take_task : ℕ → WorkerPool → WorkerPool
take_task now p = take_from now p.queue p

-- How the processor ends, when it is not cancelled.
pub data Ending : Type 0 where
  success : Summary → Ending
  failure : Text → Ending

abbrev pub worker_task_cancelled : Text
worker_task_cancelled =
    b'w' ∷ b'o' ∷ b'r' ∷ b'k' ∷ b'e' ∷ b'r' ∷ b' ' ∷ b't' ∷ b'a' ∷ b's' ∷ b'k' ∷ b' ' ∷ b'c' ∷ b'a'
    ∷ b'n' ∷ b'c' ∷ b'e' ∷ b'l' ∷ b'l' ∷ b'e' ∷ b'd' ∷ []

abbrev pub settled : Ending → ℕ → TaskStatus → TaskStatus
settled (success r) now st = record st {
  status = succeeded;
  result = some r;
  finished_at = some now;
}
settled (failure e) now st = record st { status = failed; error = some e; finished_at = some now }

abbrev pub settled_cancelled : ℕ → TaskStatus → TaskStatus
settled_cancelled now st = record st {
  status = cancelled;
  error = some worker_task_cancelled;
  finished_at = some now;
}

abbrev pub remove : ℕ → List ℕ → List ℕ
remove id [] = []
remove id (j ∷ js) = if eqb j id then js else j ∷ remove id js

-- `_worker_loop` from the end of the processor on: the worker goes back to the queue.
pub finish_task : ℕ → Ending → ℕ → WorkerPool → WorkerPool
finish_task id ending now p = record p {
  statuses = write_status id (settled ending now) p.statuses;
  working = remove id p.working;
  waiting = p.waiting + 1;
}

abbrev pub cancel_all : List ℕ → ℕ → Dict ℕ TaskStatus → Dict ℕ TaskStatus
cancel_all [] now statuses = statuses
cancel_all (id ∷ ids) now statuses =
    cancel_all ids now (write_status id (settled_cancelled now) statuses)

-- `stop`: every worker is cancelled, those at work settle their status, and all are forgotten.
pub stop : ℕ → WorkerPool → WorkerPool
stop now p =
    if p.is_running
    then record p {
      is_running = false;
      statuses = cancel_all p.working now p.statuses;
      waiting = 0;
      working = [];
      ended = 0;
    }
    else p
