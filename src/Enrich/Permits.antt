-- ===== src/Enrich/Permits.antt =====
-- The semaphore of `enrich_records_concurrent` in ingestor/crud.py: any parts, in any order.
use data_pipeline_async.Base.{
  ℕ, zero, suc, ◌+◌, ◌≤◌, ◌≡◌, refl, ap, ◌∙◌, Option, none, some, List, [], ◌∷◌, map, nat_key,
  arith,
}
use data_pipeline_async.Base.Dict.{Dict, lookup}
use data_pipeline_async.Records.{Record}
use data_pipeline_async.Enrich.{
  Stage, waiting, fetching, finished, Task, Gathering, gather, begin_with, Part, begins, settles,
  enrich_one, run_part, step, run_parts,
}

-- A coroutine inside the semaphore.
abbrev pub holds_permit : Stage → ℕ
holds_permit waiting = 0
holds_permit (fetching r post) = 1
holds_permit (finished result) = 0

abbrev pub in_flight : List Task → ℕ
in_flight [] = 0
in_flight (t ∷ ts) = holds_permit t.stage + in_flight ts

-- How many of its two halves a coroutine has behind it.
abbrev pub halves : Stage → ℕ
halves waiting = 0
halves (fetching r post) = 1
halves (finished result) = 2

abbrev pub progress : List Task → ℕ
progress [] = 0
progress (t ∷ ts) = halves t.stage + progress ts

module _ (known : Dict ℕ Record) where
  begin_with-permits :
      (id permits : ℕ) (o : Option Record)
      → let (permits', stage) = begin_with id o permits in permits' + holds_permit stage ≡ permits
  begin_with-permits id permits none = omega arith
  begin_with-permits id zero (some r) = omega arith
  begin_with-permits id (suc permits) (some r) = omega arith

  enrich_one-permits :
      (part : Part) (id permits : ℕ) (stage : Stage)
      → let (permits', stage') = enrich_one known part id permits stage in
        permits' + holds_permit stage' ≡ permits + holds_permit stage
  enrich_one-permits begins id permits waiting =
      omega (arith, begin_with-permits id permits (lookup id known))
  enrich_one-permits begins id permits (fetching r post) = refl
  enrich_one-permits begins id permits (finished result) = refl
  enrich_one-permits (settles f) id permits waiting = refl
  enrich_one-permits (settles f) id permits (fetching r post) = omega arith
  enrich_one-permits (settles f) id permits (finished result) = refl

  run_part-permits :
      (part : Part) (n permits : ℕ) (ts : List Task)
      → let (permits', ts') = run_part known part n permits ts in
        permits' + in_flight ts' ≡ permits + in_flight ts
  run_part-permits part n permits [] = refl
  run_part-permits part zero permits (t ∷ ts) =
      omega (arith, enrich_one-permits part t.record_id permits t.stage)
  run_part-permits part (suc n) permits (t ∷ ts) = omega (arith, run_part-permits part n permits ts)

  run_part-ids :
      (part : Part) (n permits : ℕ) (ts : List Task)
      → map (λ t. t.record_id) (run_part known part n permits ts).1 ≡ map (λ t. t.record_id) ts
  run_part-ids part n permits [] = refl
  run_part-ids part zero permits (t ∷ ts) = refl
  run_part-ids part (suc n) permits (t ∷ ts) =
      ap (λ ids. t.record_id ∷ ids) (run_part-ids part n permits ts)

  run_parts-permits :
      (events : List (ℕ × Part)) (g : Gathering)
      → let g' = run_parts known events g in
        (g'.permits + in_flight g'.tasks ≡ g.permits + in_flight g.tasks)
        × (map (λ t. t.record_id) g'.tasks ≡ map (λ t. t.record_id) g.tasks)
  unfolding run_parts step
  run_parts-permits [] g = (refl, refl)
  run_parts-permits ((n, part) ∷ events) g =
      let (sum, ids) = run_parts-permits events (step known (n, part) g) in
      (sum ∙ run_part-permits part n g.permits g.tasks, ids ∙ run_part-ids part n g.permits g.tasks)

  in_flight-new :
      (ids : List ℕ) → in_flight (map (λ id. record { record_id = id; stage = waiting }) ids) ≡ 0
  in_flight-new [] = refl
  in_flight-new (id ∷ ids) = omega (arith, in_flight-new ids)

  ids-new :
      (ids : List ℕ)
      → map (λ (t : Task). t.record_id) (map (λ id. record { record_id = id; stage = waiting }) ids)
        ≡ ids
  ids-new [] = refl
  ids-new (id ∷ ids) = ap (λ l. id ∷ l) (ids-new ids)

  -- However the parts of the coroutines interleave, the permits left and the fetches in flight are
  -- together the semaphore's limit, so that no more fetches than that are in flight, and the
  -- coroutines stand in the order of the ids.
  pub fetches_bounded :
      (limit : ℕ) (record_ids : List ℕ) (events : List (ℕ × Part))
      → let g = run_parts known events (gather limit record_ids) in
        (g.permits + in_flight g.tasks ≡ limit)
        × (in_flight g.tasks ≤ limit)
        × (map (λ t. t.record_id) g.tasks ≡ record_ids)
  unfolding gather
  fetches_bounded limit record_ids events =
      let (sum, ids) = run_parts-permits events (gather limit record_ids) in
      (
        omega (arith, sum, in_flight-new record_ids),
        omega (arith, sum, in_flight-new record_ids),
        ids ∙ ids-new record_ids,
      )
