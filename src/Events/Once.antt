-- ===== src/Events/Once.antt =====
-- Events with an idempotency key that ingestor/storage/events.py knows, whatever else it did since.
use data_pipeline_async.Base.{
  ℕ, ◌≤◌, ◌≡◌, refl, sym, ap, ◌∙◌, inl, inr, true, false, Option, none, some, List, [], ◌∷◌, ◌++◌,
  keep, count_if, Text, text_key, ◌==◌, ==_refl, Bool-cases, Option-cases,
}
use mathlib.Core.Path.{subst}
use data_pipeline_async.Events.{
  NewEvent, ProcessedEvent, new_event, event_has_id, event_has_key, find_event, any_event,
  EventTable, answer, existing_event, settle_creation, create_processed_event, mark_found, mark,
  to_processing, to_completed, to_failed, to_dead_letter, mark_event_processing,
  mark_event_completed, mark_event_failed, mark_event_dlq,
}
use data_pipeline_async.Events.Marks.{find-has_id, create-new}
use data_pipeline_async.Events.Rows.{
  HasDistinctIds, Holds, keep-found, find-any, append-Holds, replace-Holds, new-Holds,
}

-- A call of ingestor/storage/events.py.
pub data Operation : Type 0 where
  creates : NewEvent → Operation
  starts : (id : ℕ) → Operation
  completes : (id now : ℕ) → Operation
  fails : (id : ℕ) → Text → Option Text → Operation
  buries : (id : ℕ) → (reason : Text) → Operation

module _ (d : EventTable) where
  open d use {
    Store, events, next_id, insert, update, fresh, insert_rejects, insert_adds, update_replaces,
  }

  pub run_operation : Operation → Store → Store
  run_operation (creates e) s = (create_processed_event d e s).0
  run_operation (starts id) s = (mark_event_processing d id s).0
  run_operation (completes id now) s = (mark_event_completed d id now s).0
  run_operation (fails id message details) s = (mark_event_failed d id message details s).0
  run_operation (buries id reason) s = (mark_event_dlq d id reason s).0

  -- Calls, one after the other.
  pub run_operations : List Operation → Store → Store
  run_operations [] s = s
  run_operations (o ∷ os) s = run_operations os (run_operation o s)

  settle-store :
      (x : NewEvent) (s : Store) (o : Option ProcessedEvent) → (settle_creation d x (s, o)).0 ≡ s
  settle-store x s none = refl
  settle-store x s (some row) = refl

  create-Holds :
      (id : ℕ) (e x : NewEvent) (s : Store)
      → Holds id e (events s)
      → Holds id e (events (create_processed_event d x s).0)
  unfolding create_processed_event
  create-Holds id e x s h =
      subst (λ s'. Holds id e (events s')) (sym (settle-store x (insert x s).0 (insert x s).1))
        (elim (Bool-cases (any_event (event_has_key x.idempotency_key) (events s))) [
          | inl known ↦ subst (Holds id e) (sym (insert_rejects x s known).1) h
          | inr new ↦
              subst (Holds id e) (sym (insert_adds x s new).1)
                (append-Holds id e (new_event (next_id s) x) (events s) (fresh s) new h)
        ])

  mark-Holds :
      (id j : ℕ) (e : NewEvent) (f : ProcessedEvent → ProcessedEvent) (s : Store)
      → ((x : ProcessedEvent) → ((f x).id ≡ x.id) × ((f x).event ≡ x.event))
      → Holds id e (events s)
      → Holds id e (events (mark d j f s).0)
  mark-Holds id j e f s keeps h = elim (Option-cases (find_event (event_has_id j) (events s))) [
    | inl absent ↦ subst (λ o. Holds id e (events (mark_found d f o s).0)) (sym absent) h
    | inr (y, found) ↦
        let place : j ≡ (f y).id = sym ((keeps y).0 ∙ find-has_id j y (events s) found) in
        subst (λ o. Holds id e (events (mark_found d f o s).0)) (sym found)
          (subst (Holds id e) (sym (update_replaces (f y) s)) (
            replace-Holds id e (f y) y (events s)
              (ap (λ i. find_event (event_has_id i) (events s)) (sym place) ∙ found) (keeps y).1 h))
  ]

  run_operation-Holds :
      (o : Operation) (id : ℕ) (e : NewEvent) (s : Store)
      → Holds id e (events s)
      → Holds id e (events (run_operation o s))
  unfolding run_operation mark_event_processing mark_event_completed mark_event_failed
      mark_event_dlq
  run_operation-Holds (creates x) id e s h = create-Holds id e x s h
  run_operation-Holds (starts j) id e s h = mark-Holds id j e to_processing s (λ x. (refl, refl)) h
  run_operation-Holds (completes j now) id e s h =
      mark-Holds id j e (to_completed now) s (λ x. (refl, refl)) h
  run_operation-Holds (fails j message details) id e s h =
      mark-Holds id j e (to_failed message details) s (λ x. (refl, refl)) h
  run_operation-Holds (buries j reason) id e s h =
      mark-Holds id j e (to_dead_letter reason) s (λ x. (refl, refl)) h

  run_operations-Holds :
      (os : List Operation) (id : ℕ) (e : NewEvent) (s : Store)
      → Holds id e (events s)
      → Holds id e (events (run_operations os s))
  unfolding run_operations
  run_operations-Holds [] id e s h = h
  run_operations-Holds (o ∷ os) id e s h =
      run_operations-Holds os id e (run_operation o s) (run_operation-Holds o id e s h)

  -- A creation whose key a row has answers with that row.
  create-known :
      (id : ℕ) (e again : NewEvent) (s : Store) (h : Holds id e (events s))
      → again.idempotency_key ≡ e.idempotency_key
      → ((create_processed_event d again s).1 ≡ answer (some h.row) false)
        × (events (create_processed_event d again s).0 ≡ events s)
  unfolding create_processed_event
  create-known id e again s h key =
      let has = event_has_key again.idempotency_key in
      let this : has h.row ≡ true =
        ap (λ n. n.idempotency_key == again.idempotency_key) h.same
        ∙ ap (λ k. e.idempotency_key == k) key
        ∙ ==_refl e.idempotency_key in
      let few : count_if has (events s) ≤ 1 =
        subst (λ k. count_if (event_has_key k) (events s) ≤ 1) (sym key) h.single in
      let (failed, same) =
        insert_rejects again s (find-any (event_has_id id) has (events s) h.row h.found this) in
      (
        ap (λ o. (settle_creation d again ((insert again s).0, o)).1) failed
            ∙ ap (λ l. existing_event (keep has l)) same
            ∙ ap existing_event
                (keep-found (event_has_id id) has (events s) h.row h.found this few),
        ap (λ o. events (settle_creation d again ((insert again s).0, o)).0) failed ∙ same,
      )

  -- In a table whose rows have different ids, an event with a new idempotency key is stored, pending
  -- and without attempts, and returned as created. After any further creations and marks, of this
  -- event and of others, a creation with that key, whatever else it holds, returns as existing the row
  -- that then has the id of the first one, which still holds the first event, and leaves the table as
  -- it is.
  pub created_once :
      (e again : NewEvent) (operations : List Operation) (s : Store)
      → HasDistinctIds (events s)
      → any_event (event_has_key e.idempotency_key) (events s) ≡ false
      → again.idempotency_key ≡ e.idempotency_key
      → let (s', out) = create_processed_event d e s in
        let later = run_operations operations s' in
        let (s'', out') = create_processed_event d again later in
        (out ≡ answer (some (new_event (next_id s) e)) true)
        × (events s' ≡ events s ++ new_event (next_id s) e ∷ [])
        × ((row : ProcessedEvent) × (find_event (event_has_id (next_id s)) (events later)
              ≡ some row)
            × (row.event ≡ e)
            × (out' ≡ answer (some row) false))
        × (events s'' ≡ events later)
  created_once e again operations s distinct new key =
      let id = next_id s in
      let (out, table) = create-new d e s new in
      let s' = (create_processed_event d e s).0 in
      let first =
        subst (Holds id e) (sym table) (new-Holds id e (events s) (fresh s) new distinct) in
      let h = run_operations-Holds operations id e s' first in
      let (out', table') = create-known id e again (run_operations operations s') h key in
      (out, table, (h.row, h.found, h.same, out'), table')
