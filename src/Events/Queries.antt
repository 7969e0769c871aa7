-- ===== src/Events/Queries.antt =====
-- What the listings of ingestor/storage/events.py show after the marks.
use data_pipeline_async.Base.{
  ℕ, ◌≤◌, ◌≡◌, refl, ap, ◌∙◌, Bool, true, ◌&&◌, some, List, [], ◌∷◌, keep, take, length,
  length-take, length-keep, count_if, Bool-cases, inl, inr, count-all, take-all, min, Text, arith,
}
use mathlib.Core.Option.{some-injective}
use data_pipeline_async.Events.{
  ProcessedEvent, event_has_id, find_event, EventTable, EventStatus, completed, Selection,
  has_status, to_completed, to_dead_letter, mark, mark_event_dlq, mark_event_completed,
  get_events_by_status, get_dlq_events,
}
use data_pipeline_async.Events.Marks.{mark-found}

count_if-keep :
    (p q : ProcessedEvent → Bool) (es : List ProcessedEvent)
    → count_if p (keep q es) ≡ count_if (λ e. p e && q e) es
count_if-keep p q [] = refl
count_if-keep p q (e ∷ es) = ground (arith, count_if-keep p q es)

count-found :
    (p q r : ProcessedEvent → Bool) (es : List ProcessedEvent) (x : ProcessedEvent)
    → find_event p es ≡ some x
    → q x ≡ true
    → r x ≡ true
    → 1 ≤ count_if (λ e. (p e && q e) && r e) es
count-found p q r [] x found h k = absurd (ground (arith, found))
count-found p q r (e ∷ es) x found h k = elim (Bool-cases (p e)) [
  | inl here ↦
      let same = some-injective e x (rw here at found) in
      ground (arith, here, ap q same ∙ h, ap r same ∙ k)
  | inr later ↦ ground (arith, later, count-found p q r es x (rw later at found) h k)
]

module _ (d : EventTable) (selection : Selection) where
  open d use {Store, events}

  listed_length :
      (ordered : List ProcessedEvent → List ProcessedEvent) (p : ProcessedEvent → Bool) (limit : ℕ)
      (es : List ProcessedEvent)
      → ((xs : List ProcessedEvent) (q : ProcessedEvent → Bool)
          → count_if q (ordered xs) ≡ count_if q xs)
      → length (take limit (ordered (keep p es))) ≡ min limit (count_if p es)
  listed_length ordered p limit es counts = omega (
    arith,
    length-take limit (ordered (keep p es)),
    counts (keep p es) (λ _. true),
    count-all (ordered (keep p es)),
    count-all (keep p es),
    length-keep p es,
  )

  -- A stored event that goes to the dead letters and is then marked as completed is still listed among
  -- the dead letters, with the status completed, as long as the limit is no less than their number;
  -- and each listing is as long as there are such events, or the limit.
  pub dead_letter_stays_listed :
      (limit id now : ℕ) (reason : Text) (status : EventStatus) (e : ProcessedEvent) (s : Store)
      → find_event (event_has_id id) (events s) ≡ some e
      → count_if
          (λ x. x.dead_letter_queue)
          (events (mark_event_completed d id now (mark_event_dlq d id reason s).0).0)
        ≤ limit
      → let s' = (mark_event_completed d id now (mark_event_dlq d id reason s).0).0 in
        (1
          ≤ count_if
              (λ x. event_has_id id x && has_status completed x)
              (get_dlq_events d selection limit s'))
        × (length (get_dlq_events d selection limit s')
            ≡ min limit (count_if (λ x. x.dead_letter_queue) (events s')))
        × (length (get_events_by_status d selection status limit s')
            ≡ min limit (count_if (has_status status) (events s')))
  unfolding mark_event_dlq mark_event_completed get_dlq_events get_events_by_status
  dead_letter_stays_listed limit id now reason status e s found fits =
      let s1 = (mark d id (to_dead_letter reason) s).0 in
      let s' = (mark d id (to_completed now) s1).0 in
      let dead = λ (x : ProcessedEvent). x.dead_letter_queue in
      let wanted = λ (x : ProcessedEvent). event_has_id id x && has_status completed x in
      let dead_found = (mark-found d id (to_dead_letter reason) e s (λ x. refl) found).1 in
      let found' =
        (mark-found d id (to_completed now) (to_dead_letter reason e) s1 (λ x. refl)
          dead_found).1 in
      let rows = selection.by_created_desc (keep dead (events s')) in
      let dead_rows : length rows ≡ count_if dead (events s') = omega (
        arith,
        selection.by_created_counts (keep dead (events s')) (λ _. true),
        count-all rows,
        count-all (keep dead (events s')),
        length-keep dead (events s'),
      ) in
      (
        omega (
          arith,
          ap (count_if wanted) (take-all limit rows (omega (arith, fits, dead_rows))),
          selection.by_created_counts (keep dead (events s')) wanted,
          count_if-keep wanted dead (events s'),
          count-found (event_has_id id) (has_status completed) dead (events s')
              (to_completed now (to_dead_letter reason e)) found' refl refl,
        ),
        listed_length selection.by_created_desc dead limit (events s') selection.by_created_counts,
        listed_length selection.unordered (has_status status) limit (events s')
            selection.unordered_counts,
      )
