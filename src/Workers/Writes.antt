-- ===== src/Workers/Writes.antt =====
-- Writes to the statuses of `BackgroundWorkerPool` (ingestor/core/background_workers.py): they add and
-- drop none.
use data_pipeline_async.Base.{
  ℕ, ◌≡◌, refl, ◌∙◌, List, [], ◌∷◌, length, nat_key, inl, inr, Option-cases,
}
use data_pipeline_async.Base.Dict.{Dict, lookup, contains, length-insert_present}
use data_pipeline_async.Workers.{TaskStatus, write_status, settled_cancelled, cancel_all}
use data_pipeline_async.Workers.Tracking.{IsTracked, rewrite-IsTracked}

pub write_status-IsTracked :
    (order : List ℕ) (statuses : Dict ℕ TaskStatus) (id : ℕ) (f : TaskStatus → TaskStatus)
    → IsTracked order statuses
    → IsTracked order (write_status id f statuses)
write_status-IsTracked order statuses id f t = elim (Option-cases (lookup id statuses)) [
  | inl absent ↦ rw (write_status, absent) t
  | inr (st, found) ↦
      rw (write_status, found)
        (rewrite-IsTracked order statuses id (f st) t (rw (contains, found) refl))
]

pub length-write_status :
    (id : ℕ) (f : TaskStatus → TaskStatus) (statuses : Dict ℕ TaskStatus)
    → length (write_status id f statuses) ≡ length statuses
length-write_status id f statuses = elim (Option-cases (lookup id statuses)) [
  | inl absent ↦ rw (write_status, absent) refl
  | inr (st, found) ↦
      rw (write_status, found)
        (length-insert_present id (f st) statuses (rw (contains, found) refl))
]

pub length-cancel_all :
    (ids : List ℕ) (now : ℕ) (statuses : Dict ℕ TaskStatus)
    → length (cancel_all ids now statuses) ≡ length statuses
length-cancel_all [] now statuses = refl
length-cancel_all (id ∷ ids) now statuses =
    length-cancel_all ids now (write_status id (settled_cancelled now) statuses)
    ∙ length-write_status id (settled_cancelled now) statuses

pub cancel_all-IsTracked :
    (order ids : List ℕ) (now : ℕ) (statuses : Dict ℕ TaskStatus)
    → IsTracked order statuses
    → IsTracked order (cancel_all ids now statuses)
cancel_all-IsTracked order [] now statuses t = t
cancel_all-IsTracked order (id ∷ ids) now statuses t =
    cancel_all-IsTracked order ids now (write_status id (settled_cancelled now) statuses)
      (write_status-IsTracked order statuses id (settled_cancelled now) t)
