-- ===== src/Enrich/Examples.antt =====
-- Witnesses of the enrichment: two records, one of them unknown, and a semaphore of one permit.
use data_pipeline_async.Base.{
  ℕ, ◌+◌, ◌≤◌, ◌≡◌, refl, false, none, some, List, [], ◌∷◌, map, nat_key,
}
use data_pipeline_async.Base.Dict.{Dict}
use data_pipeline_async.Records.{Record}
use data_pipeline_async.Enrich.{
  EnrichedRecord, fetched, fetch_failed, Part, begins, settles, not_found, enriched_by, gather,
  gathered, step, run_parts,
}
use data_pipeline_async.Enrich.Permits.{in_flight, fetches_bounded}
use data_pipeline_async.Enrich.Positions.{AreResults}
use data_pipeline_async.Enrich.InOrder.{IsResult, results_in_order}

abbrev sensor : Record
sensor = record {
  id = 1;
  source = b's' ∷ [];
  timestamp = 40;
  raw_data = [];
  tags = [];
  processed = false;
  processed_at = none;
  deleted_at = none;
}

abbrev known : Dict ℕ Record
known = (1, sensor) ∷ []

abbrev ids : List ℕ
ids = 1 ∷ 7 ∷ 1 ∷ []

-- The third coroutine is begun first, and the first one waits for it.
abbrev events : List (ℕ × Part)
events =
    (2, begins)
    ∷ (0, begins)
    ∷ (1, begins)
    ∷ (2, settles (fetched (some (b't' ∷ [])) none))
    ∷ (0, begins)
    ∷ (0, settles (fetch_failed []))
    ∷ []

fetches_bounded_example :
    let g = run_parts known events (gather 1 ids) in
    (g.permits + in_flight g.tasks ≡ 1)
    × (in_flight g.tasks ≤ 1)
    × (map (λ t. t.record_id) g.tasks ≡ ids)
fetches_bounded_example = fetches_bounded known 1 ids events

abbrev results : List EnrichedRecord
results =
    enriched_by 1 sensor (fetch_failed [])
    ∷ not_found 7
    ∷ enriched_by 1 sensor (fetched (some (b't' ∷ [])) none)
    ∷ []

all_ended : gathered (run_parts known events (gather 1 ids)).tasks ≡ some results
unfolding run_parts step gather
all_ended = refl

results_in_order_example : AreResults (IsResult known (gather 1 ids) events) ids results
results_in_order_example = results_in_order known 1 ids events results all_ended
