-- ===== src/Enrich/InOrder.antt =====
-- What `enrich_records_concurrent` of ingestor/crud.py returns.
use data_pipeline_async.Base.{
  ℕ, zero, suc, ◌≡◌, ◌⊎◌, refl, sym, ap, Option, none, some, List, [], ◌∷◌, ◌++◌, ◌∙◌, true, false,
  append_assoc, append-nil, nat_key, inl, inr,
}
use mathlib.Core.Path.{subst}
use data_pipeline_async.Base.Dict.{Dict, lookup}
use data_pipeline_async.Records.{Record}
use data_pipeline_async.Enrich.{
  Fetch, fetched, EnrichedRecord, Stage, waiting, fetching, finished, Task, Gathering, gather,
  enter, begin_with, not_found, enriched_by, gathered, Part, begins, settles, enrich_one, post_id,
  fetch_failed, raised, step, run_parts,
}
use data_pipeline_async.Enrich.Permits.{fetches_bounded}
use data_pipeline_async.Enrich.Positions.{
  task_at, AreResults, AllAt, AllAt-map, run_part-AllAt, new-AllAt, Ended, gathered-AreResults,
}

-- What a result says of a record and of the end of its fetch.
abbrev pub Reports : ℕ → Record → Fetch → EnrichedRecord → Type 0
Reports id r (fetched title body) result =
    (result.record_id ≡ id)
    × (result.source ≡ r.source)
    × (result.external_title ≡ title)
    × (result.external_body ≡ body)
    × (result.enriched ≡ true)
    × (result.error ≡ none)
Reports id r (fetch_failed message) result =
    (result.record_id ≡ id)
    × (result.source ≡ r.source)
    × (result.external_title ≡ none)
    × (result.external_body ≡ none)
    × (result.enriched ≡ false)
    × (result.error ≡ some (raised message))

enriched_by-Reports : (id : ℕ) (r : Record) (f : Fetch) → Reports id r f (enriched_by id r f)
enriched_by-Reports id r (fetched title body) = (refl, refl, refl, refl, refl, refl)
enriched_by-Reports id r (fetch_failed message) = (refl, refl, refl, refl, refl, refl)

module _ (known : Dict ℕ Record) (first : Gathering) where
  run_parts-snoc :
      (done : List (ℕ × Part)) (e : ℕ × Part) (g : Gathering)
      → run_parts known (done ++ e ∷ []) g ≡ step known e (run_parts known done g)
  unfolding run_parts
  run_parts-snoc [] e g = refl
  run_parts-snoc (d ∷ done) e g = run_parts-snoc done e (step known d g)

  -- The result of the coroutine at a position: its record was not found; or the fetch that it was in,
  -- of the post for its id, ended in one of the parts, and it reports that end.
  abbrev pub IsResult : List (ℕ × Part) → ℕ → ℕ → EnrichedRecord → Type 0
  IsResult done n id result =
      ((lookup id known ≡ none) × (result ≡ not_found id))
      ⊎ ((r : Record) × (f : Fetch) × (before : List (ℕ × Part)) × (after : List (ℕ × Part))
          × (lookup id known ≡ some r)
          × (done ≡ before ++ (n, settles f) ∷ after)
          × (task_at n (run_parts known before first).tasks
              ≡ some (record { record_id = id; stage = fetching r (post_id id) }))
          × Reports id r f result)

  abbrev IsSound : List (ℕ × Part) → ℕ → ℕ → Stage → Type 0
  IsSound done n id waiting = Unit
  IsSound done n id (fetching r post) = (lookup id known ≡ some r) × (post ≡ post_id id)
  IsSound done n id (finished result) = IsResult done n id result

  abbrev AllSound : List (ℕ × Part) → List Task → Type 0
  AllSound done = AllAt (λ n t. IsSound done n t.record_id t.stage)

  enter-IsSound :
      (done : List (ℕ × Part)) (n id permits : ℕ) (r : Record)
      → lookup id known ≡ some r
      → IsSound done n id (enter id r permits).1
  enter-IsSound done n id zero r e = tt
  enter-IsSound done n id (suc permits) r e = (e, refl)

  begin_with-IsSound :
      (done : List (ℕ × Part)) (n id permits : ℕ) (o : Option Record)
      → lookup id known ≡ o
      → IsSound done n id (begin_with id o permits).1
  begin_with-IsSound done n id permits none e = inl (e, refl)
  begin_with-IsSound done n id permits (some r) e = enter-IsSound done n id permits r e

  -- A result stays one as more parts run.
  IsSound-later :
      (done : List (ℕ × Part)) (e : ℕ × Part) (n id : ℕ) (stage : Stage)
      → IsSound done n id stage
      → IsSound (done ++ e ∷ []) n id stage
  IsSound-later done e n id waiting h = tt
  IsSound-later done e n id (fetching r post) h = h
  IsSound-later done e n id (finished result) (inl h) = inl h
  IsSound-later done e n id (finished result) (inr (r, f, before, after, found, split, at, told)) =
      inr (
        r,
        f,
        before,
        after ++ e ∷ [],
        found,
        ap (λ l. l ++ e ∷ []) split ∙ append_assoc before ((n, settles f) ∷ after) (e ∷ []),
        at,
        told,
      )

  enrich_one-IsSound :
      (done : List (ℕ × Part)) (part : Part) (n id permits : ℕ) (stage : Stage)
      → task_at n (run_parts known done first).tasks
        ≡ some (record { record_id = id; stage = stage })
      → IsSound done n id stage
      → IsSound (done ++ (n, part) ∷ []) n id (enrich_one known part id permits stage).1
  enrich_one-IsSound done begins n id permits waiting at h =
      begin_with-IsSound (done ++ (n, begins) ∷ []) n id permits (lookup id known) refl
  enrich_one-IsSound done begins n id permits (fetching r post) at h = h
  enrich_one-IsSound done begins n id permits (finished result) at h =
      IsSound-later done (n, begins) n id (finished result) h
  enrich_one-IsSound done (settles f) n id permits waiting at h = h
  enrich_one-IsSound done (settles f) n id permits (fetching r post) at h = inr (
    r,
    f,
    done,
    [],
    h.0,
    refl,
    at ∙ ap (λ p. some (record { record_id = id; stage = fetching r p })) h.1,
    enriched_by-Reports id r f,
  )
  enrich_one-IsSound done (settles f) n id permits (finished result) at h =
      IsSound-later done (n, settles f) n id (finished result) h

  step-AllSound :
      (done : List (ℕ × Part)) (e : ℕ × Part)
      → AllSound done (run_parts known done first).tasks
      → AllSound (done ++ e ∷ []) (run_parts known (done ++ e ∷ []) first).tasks
  unfolding step
  step-AllSound done (n, part) h =
      let g = run_parts known done first in
      subst (λ x. AllSound (done ++ (n, part) ∷ []) x.tasks)
        (sym (run_parts-snoc done (n, part) first))
        (run_part-AllAt known (λ m t. IsSound done m t.record_id t.stage)
          (λ m t. IsSound (done ++ (n, part) ∷ []) m t.record_id t.stage) part n g.permits g.tasks
          (λ m t. IsSound-later done (n, part) m t.record_id t.stage)
          (λ t at. enrich_one-IsSound done part n t.record_id g.permits t.stage at) h)

  run_parts-AllSound :
      (done events : List (ℕ × Part))
      → AllSound done (run_parts known done first).tasks
      → AllSound (done ++ events) (run_parts known (done ++ events) first).tasks
  run_parts-AllSound done [] h =
      subst (λ l. AllSound l (run_parts known l first).tasks) (sym (append-nil done)) h
  run_parts-AllSound done (e ∷ events) h =
      subst (λ l. AllSound l (run_parts known l first).tasks) (append_assoc done (e ∷ []) events)
        (run_parts-AllSound (done ++ e ∷ []) events (step-AllSound done e h))

IsSound-Ended :
    (known : Dict ℕ Record) (first : Gathering) (done : List (ℕ × Part)) (n id : ℕ) (stage : Stage)
    → IsSound known first done n id stage
    → Ended (IsResult known first done) n id stage
IsSound-Ended known first done n id waiting h = tt
IsSound-Ended known first done n id (fetching r post) h = tt
IsSound-Ended known first done n id (finished result) h = h

-- Whatever order the parts ran in, once all coroutines have ended there is one result for each id,
-- in the order of the ids: that the record was not found, if the query did not return it; and
-- otherwise its source with how the fetch ended that this coroutine was in, the one of the post for
-- the id: with the title and the body of a success, or with the error of an exception.
pub results_in_order :
    (known : Dict ℕ Record) (limit : ℕ) (record_ids : List ℕ) (events : List (ℕ × Part))
    (results : List EnrichedRecord)
    → let first = gather limit record_ids in
      gathered (run_parts known events first).tasks ≡ some results
      → AreResults (IsResult known first events) record_ids results
unfolding gather run_parts
results_in_order known limit record_ids events results e =
    let first = gather limit record_ids in
    let g = run_parts known events first in
    let sound =
      run_parts-AllSound known first [] events
        (new-AllAt (λ n t. IsSound known first [] n t.record_id t.stage) record_ids (λ n id. tt)) in
    subst (λ ids. AreResults (IsResult known first events) ids results)
      (fetches_bounded known limit record_ids events).2
      (gathered-AreResults (IsResult known first events) g.tasks results
        (AllAt-map (λ n t. IsSound known first events n t.record_id t.stage)
          (λ n t. Ended (IsResult known first events) n t.record_id t.stage) g.tasks
          (λ n t. IsSound-Ended known first events n t.record_id t.stage) sound)
        e)
