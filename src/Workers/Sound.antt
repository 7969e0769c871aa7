-- ===== src/Workers/Sound.antt =====
-- What each method of `BackgroundWorkerPool`, and each part of `_worker_loop` between awaits, keeps
-- of a pool (ingestor/core/background_workers.py).
use data_pipeline_async.Base.{
  ℕ, ◌≤◌, ◌<◌, ◌≡◌, refl, sym, ap, ◌∙◌, true, false, Option, none, some, List, [], ◌∷◌, ◌++◌,
  length, length-append, nat_key, if-split, append_assoc, arith,
}
use data_pipeline_async.Base.Dict.{
  Dict, lookup, insert, contains, length-insert, length-insert_present,
}
use data_pipeline_async.Records.{RecordRequest}
use data_pipeline_async.Workers.{
  TaskStatus, WorkerPool, Submission, start, stop, is_full, trim, queued_status,
  submit_batch_ingest, begin_task, take_from, take_task, Ending, settled, finish_task, running,
}
use data_pipeline_async.Workers.Tracking.{
  listed, IsDistinct, IsTracked, IsTrimmed, trim-IsTrimmed, trim_keeps_latest, snoc-IsDistinct,
  snoc-IsTracked, rewrite-IsTracked,
}
use data_pipeline_async.Workers.Writes.{
  write_status-IsTracked, cancel_all-IsTracked, length-write_status, length-cancel_all,
}

abbrev pub queued_ids : List (ℕ × List RecordRequest) → List ℕ
queued_ids [] = []
queued_ids ((id, _) ∷ queue) = id ∷ queued_ids queue

-- The queued tasks are the latest of the tracked ones, which are within both bounds, with one status
-- for each.
pub record IsSound (size tracked : ℕ) (p : WorkerPool) : Type 0 where
  pub same_size : p.maxsize ≡ size
  pub same_bound : p.max_tracked_tasks ≡ tracked
  pub room : length p.queue ≤ size
  pub bounded : length p.order ≤ tracked
  pub distinct : IsDistinct p.order
  pub tracked_ids : IsTracked p.order p.statuses
  pub one_each : length p.statuses ≤ length p.order
  pub latest : (done : List ℕ) × (p.order ≡ done ++ queued_ids p.queue)
  pub none_ended : p.ended ≡ 0

queued_ids-append :
    (queue : List (ℕ × List RecordRequest)) (id : ℕ) (records : List RecordRequest)
    → queued_ids (queue ++ (id, records) ∷ []) ≡ queued_ids queue ++ id ∷ []
queued_ids-append [] id records = refl
queued_ids-append ((j, _) ∷ queue) id records = ap (λ l. j ∷ l) (queued_ids-append queue id records)

length-queued_ids :
    (queue : List (ℕ × List RecordRequest)) → length (queued_ids queue) ≡ length queue
length-queued_ids [] = refl
length-queued_ids ((j, _) ∷ queue) = omega (arith, length-queued_ids queue)

pub start-IsSound :
    {size tracked : ℕ} (p : WorkerPool) → IsSound size tracked p → IsSound size tracked (start p)
unfolding start
start-IsSound {size} {tracked} p s =
    if-split (IsSound size tracked) p.is_running (λ _. s)
      (λ _. record {
        same_size = s.same_size;
        same_bound = s.same_bound;
        room = s.room;
        bounded = s.bounded;
        distinct = s.distinct;
        tracked_ids = s.tracked_ids;
        one_each = s.one_each;
        latest = s.latest;
        none_ended = refl;
      })

pub stop-IsSound :
    {size tracked : ℕ} (now : ℕ) (p : WorkerPool)
    → IsSound size tracked p
    → IsSound size tracked (stop now p)
unfolding stop
stop-IsSound {size} {tracked} now p s =
    if-split (IsSound size tracked) p.is_running
      (λ _. record {
        same_size = s.same_size;
        same_bound = s.same_bound;
        room = s.room;
        bounded = s.bounded;
        distinct = s.distinct;
        tracked_ids = cancel_all-IsTracked p.order p.working now p.statuses s.tracked_ids;
        one_each = omega (arith, s.one_each, length-cancel_all p.working now p.statuses);
        latest = s.latest;
        none_ended = refl;
      })
      (λ _. s)

pub finish-IsSound :
    {size tracked : ℕ} (id : ℕ) (ending : Ending) (now : ℕ) (p : WorkerPool)
    → IsSound size tracked p
    → IsSound size tracked (finish_task id ending now p)
unfolding finish_task
finish-IsSound id ending now p s = record {
  same_size = s.same_size;
  same_bound = s.same_bound;
  room = s.room;
  bounded = s.bounded;
  distinct = s.distinct;
  tracked_ids = write_status-IsTracked p.order p.statuses id (settled ending now) s.tracked_ids;
  one_each = omega (arith, s.one_each, length-write_status id (settled ending now) p.statuses);
  latest = s.latest;
  none_ended = s.none_ended;
}

listed-middle : (id : ℕ) (done later : List ℕ) → listed id (done ++ id ∷ later) ≡ true
listed-middle id [] later = ground arith
listed-middle id (j ∷ done) later = ground (arith, listed-middle id done later)

-- The head of the queue is tracked, so a worker that takes it finds its status.
take_from-IsSound :
    {size tracked : ℕ} (now : ℕ) (queue : List (ℕ × List RecordRequest)) (p : WorkerPool)
    → queue ≡ p.queue
    → IsSound size tracked p
    → IsSound size tracked (take_from now queue p)
unfolding begin_task
take_from-IsSound now [] p e s = s
take_from-IsSound {size} {tracked} now ((id, records) ∷ rest) p e s =
    begin (lookup id p.statuses) refl
  where
    order_eq : p.order ≡ s.latest.0 ++ id ∷ queued_ids rest
    order_eq = s.latest.1 ∙ ap (λ q. s.latest.0 ++ queued_ids q) (sym e)

    head_tracked : contains id p.statuses ≡ true
    head_tracked =
        s.tracked_ids id ∙ ap (listed id) order_eq ∙ listed-middle id s.latest.0 (queued_ids rest)

    begin :
        (found : Option TaskStatus)
        → lookup id p.statuses ≡ found
        → IsSound size tracked (begin_task now id rest found p)
    begin none absent = absurd (ground (arith, head_tracked, absent))
    begin (some st) present = record {
      same_size = s.same_size;
      same_bound = s.same_bound;
      room = omega (arith, s.room, ap length e);
      bounded = s.bounded;
      distinct = s.distinct;
      tracked_ids =
          rewrite-IsTracked p.order p.statuses id _ s.tracked_ids (rw (contains, present) refl);
      one_each = omega (
        arith,
        s.one_each,
        length-insert_present id (record st { status = running; started_at = some now }) p.statuses
            (rw (contains, present) refl),
      );
      latest = (
        s.latest.0 ++ id ∷ [],
        order_eq ∙ sym (append_assoc s.latest.0 (id ∷ []) (queued_ids rest)),
      );
      none_ended = s.none_ended;
    }

pub take-IsSound :
    {size tracked : ℕ} (now : ℕ) (p : WorkerPool)
    → IsSound size tracked p
    → IsSound size tracked (take_task now p)
unfolding take_task
take-IsSound now p s = take_from-IsSound now p.queue p refl s

trim_keeps :
    (most : ℕ) (ids before latest : List ℕ) (statuses : Dict ℕ TaskStatus)
    → ids ≡ before ++ latest
    → length latest ≤ most
    → (kept : List ℕ) × ((trim most ids statuses).0 ≡ kept ++ latest)
trim_keeps most ids before latest statuses e h =
    let (kept, same) = trim_keeps_latest most before latest statuses h in
    (kept, ap (λ l. (trim most l statuses).0) e ∙ same)

pub submit-IsSound :
    {size tracked : ℕ} (id : ℕ) (records : List RecordRequest) (now : ℕ) (p : WorkerPool)
    → 0 < size
    → size ≤ tracked
    → contains id p.statuses ≡ false
    → IsSound size tracked p
    → IsSound size tracked (submit_batch_ingest id records now p).0
unfolding submit_batch_ingest
submit-IsSound {size} {tracked} id records now p positive fits fresh s =
    if-split {A = WorkerPool × Submission} (λ r. IsSound size tracked r.0) p.is_running
      (λ _.
        if-split {A = WorkerPool × Submission} (λ r. IsSound size tracked r.0) (is_full p) (λ _. s)
          (λ free.
            let has_room : length p.queue < size =
              ground (arith, free, positive, s.same_size, s.room) in
            let latest_tasks =
              trim_keeps p.max_tracked_tasks (p.order ++ id ∷ []) s.latest.0
                (queued_ids p.queue ++ id ∷ [])
                (insert id (queued_status id records now) p.statuses)
                (ap (λ l. l ++ id ∷ []) s.latest.1
                  ∙ append_assoc s.latest.0 (queued_ids p.queue) (id ∷ []))
                (omega (
                  arith,
                  has_room,
                  fits,
                  s.same_bound,
                  length-queued_ids p.queue,
                  length-append (queued_ids p.queue) (id ∷ []),
                )) in
            record {
              same_size = s.same_size;
              same_bound = s.same_bound;
              room = omega (arith, has_room, length-append p.queue ((id, records) ∷ []));
              bounded = omega (arith, trimmed.short, s.same_bound);
              distinct = trimmed.distinct;
              tracked_ids = trimmed.tracked;
              one_each = trimmed.no_more;
              latest = (
                latest_tasks.0,
                latest_tasks.1
                    ∙ ap (λ l. latest_tasks.0 ++ l) (sym (queued_ids-append p.queue id records)),
              );
              none_ended = s.none_ended;
            }))
      (λ _. s)
  where
    trimmed : IsTrimmed p.max_tracked_tasks (
        trim p.max_tracked_tasks
          (p.order ++ id ∷ [])
          (insert id (queued_status id records now) p.statuses))
    trimmed =
        trim-IsTrimmed p.max_tracked_tasks (p.order ++ id ∷ [])
          (insert id (queued_status id records now) p.statuses)
          (snoc-IsDistinct p.order id s.distinct (sym (s.tracked_ids id) ∙ fresh))
          (snoc-IsTracked p.order p.statuses id (queued_status id records now) s.tracked_ids)
          (omega (
            arith,
            s.one_each,
            length-insert id (queued_status id records now) p.statuses,
            length-append p.order (id ∷ []),
          ))
