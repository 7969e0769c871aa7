-- ===== src/Events/Marks.antt =====
-- How the rows of ingestor/storage/events.py are created and marked.
use data_pipeline_async.Base.{
  ℕ, ◌+◌, ◌≡◌, refl, sym, ap, ◌∙◌, Bool, true, false, Option, some, List, [], ◌∷◌, ◌++◌, eqb,
  eqb_iff, Text, text_key, arith,
}
use data_pipeline_async.Events.{
  NewEvent, ProcessedEvent, new_event, event_has_id, event_has_key, find_event, any_event,
  replace_event, EventTable, answer, refreshed, settle_creation, create_processed_event, mark_found,
  mark, to_processing, to_completed, to_failed, to_dead_letter, mark_event_processing,
  mark_event_completed, mark_event_failed, mark_event_dlq, completed,
}

pub find-absent :
    (p : ProcessedEvent → Bool) (events : List ProcessedEvent) (x : ProcessedEvent)
    → any_event p events ≡ false
    → p x ≡ true
    → find_event p (events ++ x ∷ []) ≡ some x
find-absent p [] x h h' = ground (arith, h')
find-absent p (e ∷ events) x h h' = ground (arith, h, h', find-absent p events x)

pub find-replace :
    (x e : ProcessedEvent) (events : List ProcessedEvent)
    → find_event (event_has_id x.id) events ≡ some e
    → find_event (event_has_id x.id) (replace_event x events) ≡ some x
find-replace x e [] h = absurd (ground (arith, h))
find-replace x e (y ∷ events) h = ground (arith, h, find-replace x e events, eqb_iff x.id x.id)

pub find-replace_other :
    (x : ProcessedEvent) (id : ℕ) (events : List ProcessedEvent)
    → eqb x.id id ≡ false
    → find_event (event_has_id id) (replace_event x events) ≡ find_event (event_has_id id) events
find-replace_other x id [] h = refl
find-replace_other x id (y ∷ events) h = ground (
  arith,
  h,
  find-replace_other x id events h,
  eqb_iff y.id x.id,
  eqb_iff y.id id,
  eqb_iff x.id id,
)

pub find-has_id :
    (id : ℕ) (e : ProcessedEvent) (events : List ProcessedEvent)
    → find_event (event_has_id id) events ≡ some e
    → e.id ≡ id
find-has_id id e [] h = absurd (ground (arith, h))
find-has_id id e (y ∷ events) h = ground (arith, h, find-has_id id e events, eqb_iff y.id id)

module _ (d : EventTable) where
  open d use {
    Store, events, next_id, insert, update, fresh, insert_rejects, insert_adds, update_replaces,
  }

  pub create-new :
      (e : NewEvent) (s : Store)
      → any_event (event_has_key e.idempotency_key) (events s) ≡ false
      → let row = new_event (next_id s) e in
        ((create_processed_event d e s).1 ≡ answer (some row) true)
        × (events (create_processed_event d e s).0 ≡ events s ++ row ∷ [])
  unfolding create_processed_event
  create-new e s new =
      let (done, table) = insert_adds e s new in
      let row = new_event (next_id s) e in
      (
        ap (λ o. (settle_creation d e ((insert e s).0, o)).1) done
            ∙ ap (λ l. refreshed (find_event (event_has_id (next_id s)) l)) table
            ∙ ap refreshed (
                find-absent (event_has_id (next_id s)) (events s) row (fresh s)
                  ((eqb_iff (next_id s) (next_id s)).1 refl)),
        ap (λ o. events (settle_creation d e ((insert e s).0, o)).0) done ∙ table,
      )

  pub mark-found :
      (id : ℕ) (f : ProcessedEvent → ProcessedEvent) (e : ProcessedEvent) (s : Store)
      → ((x : ProcessedEvent) → (f x).id ≡ x.id)
      → find_event (event_has_id id) (events s) ≡ some e
      → ((mark d id f s).1 ≡ some (f e))
        × (find_event (event_has_id id) (events (mark d id f s).0) ≡ some (f e))
  mark-found id f e s keeps found = (
    ap (λ o. (mark_found d f o s).1) found ∙ there,
    ap (λ o. find_event (event_has_id id) (events (mark_found d f o s).0)) found
        ∙ ap (λ i. find_event (event_has_id i) (events (update (f e) s))) (sym same)
        ∙ there,
  )
    where
      same : (f e).id ≡ id
      same = keeps e ∙ find-has_id id e (events s) found

      there : find_event (event_has_id (f e).id) (events (update (f e) s)) ≡ some (f e)
      there =
          ap (find_event (event_has_id (f e).id)) (update_replaces (f e) s)
          ∙ find-replace (f e) e (events s)
              (ap (λ i. find_event (event_has_id i) (events s)) same ∙ found)

  -- A stored event that goes to the dead letters and is then marked as completed has the status
  -- completed and the time of completion, and is still flagged as dead letter, with its reason.
  pub completion_keeps_dead_letter :
      (id now : ℕ) (reason : Text) (e : ProcessedEvent) (s : Store)
      → find_event (event_has_id id) (events s) ≡ some e
      → let (s', _) = mark_event_dlq d id reason s in
        (mark_event_completed d id now s').1
        ≡ some (record e {
          status = completed;
          processed_at = some now;
          dead_letter_queue = true;
          dlq_reason = some reason;
        })
  unfolding mark_event_dlq mark_event_completed
  completion_keeps_dead_letter id now reason e s found =
      (mark-found id (to_completed now) (to_dead_letter reason e)
        (mark d id (to_dead_letter reason) s).0 (λ x. refl)
        (mark-found id (to_dead_letter reason) e s (λ x. refl) found).1).0

  -- A stored event that is taken up, fails, is taken up again and completes has two attempts more,
  -- the status completed, and keeps the error of the failed attempt.
  pub retried_event :
      (id now : ℕ) (message : Text) (details : Option Text) (e : ProcessedEvent) (s : Store)
      → find_event (event_has_id id) (events s) ≡ some e
      → let (s1, _) = mark_event_processing d id s in
        let (s2, _) = mark_event_failed d id message details s1 in
        let (s3, _) = mark_event_processing d id s2 in
        (mark_event_completed d id now s3).1
        ≡ some (record e {
          status = completed;
          processing_attempts = e.processing_attempts + 1 + 1;
          error_message = some message;
          error_details = details;
          processed_at = some now;
        })
  unfolding mark_event_processing mark_event_failed mark_event_completed
  retried_event id now message details e s found =
      let s1 = (mark d id to_processing s).0 in
      let s2 = (mark d id (to_failed message details) s1).0 in
      let s3 = (mark d id to_processing s2).0 in
      let e1 = to_processing e in
      let e2 = to_failed message details e1 in
      let found1 = (mark-found id to_processing e s (λ x. refl) found).1 in
      let found2 = (mark-found id (to_failed message details) e1 s1 (λ x. refl) found1).1 in
      let found3 = (mark-found id to_processing e2 s2 (λ x. refl) found2).1 in
      (mark-found id (to_completed now) (to_processing e2) s3 (λ x. refl) found3).0
