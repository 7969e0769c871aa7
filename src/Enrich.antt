-- ===== src/Enrich.antt =====
-- `enrich_records_concurrent` of ingestor/crud.py and the route that answers with its results. Each
-- coroutine is cut at its awaits: a part runs until it waits for the semaphore or for the fetch, or
-- has its result. What `fetch_with_retry` ends with is an argument of the part that it wakes. The
-- semaphore is its counter; which waiter it wakes first is left open.
pub mod Permits
pub mod Results
pub mod Positions
pub mod InOrder
mod Examples
use data_pipeline_async.Base.{
  ℕ, zero, suc, ◌+◌, ◌-◌, ◌%◌, Bool, true, false, ◌&&◌, ◌||◌, Option, none, some, List, [], ◌∷◌,
  ◌++◌, map, keep, count_if, length, eqb, leb, Text, text_key, nat_key, if◌then◌else◌,
}
use data_pipeline_async.Base.Dict.{Dict, lookup, insert}
use data_pipeline_async.Records.{Record, is_active}
use data_pipeline_async.Records.Database.{Database}
use data_pipeline_async.Routes.{Response, answer, http_error}

abbrev pub enrich_semaphore_limit : ℕ
enrich_semaphore_limit = 10

abbrev pub enrich_min_ids : ℕ
enrich_min_ids = 1

abbrev pub enrich_max_ids : ℕ
enrich_max_ids = 50

abbrev pub unknown : Text
unknown = b'u' ∷ b'n' ∷ b'k' ∷ b'n' ∷ b'o' ∷ b'w' ∷ b'n' ∷ []

-- What an error message says.
pub data Failure : Type 0 where
  record_not_found : (record_id : ℕ) → Failure
  raised : Text → Failure

pub record EnrichedRecord : Type 0 where
  pub record_id : ℕ
  pub source : Text
  pub external_title : Option Text
  pub external_body : Option Text
  pub enriched : Bool
  pub error : Option Failure

-- How a fetch ends: with the two fields of its JSON object, or with an exception.
pub data Fetch : Type 0 where
  fetched : (title body : Option Text) → Fetch
  fetch_failed : Text → Fetch

-- `(record_id % 100) or 1`
abbrev pub post_id : ℕ → ℕ
post_id record_id = elim (record_id % 100) [ zero ↦ 1 | suc n ↦ suc n ]

abbrev pub not_found : ℕ → EnrichedRecord
not_found id = record {
  record_id = id;
  source = unknown;
  external_title = none;
  external_body = none;
  enriched = false;
  error = some (record_not_found id);
}

abbrev pub enriched_by : ℕ → Record → Fetch → EnrichedRecord
enriched_by id r (fetched title body) = record {
  record_id = id;
  source = r.source;
  external_title = title;
  external_body = body;
  enriched = true;
  error = none;
}
enriched_by id r (fetch_failed message) = record {
  record_id = id;
  source = r.source;
  external_title = none;
  external_body = none;
  enriched = false;
  error = some (raised message);
}

-- Where a coroutine stands.
pub data Stage : Type 0 where
  waiting : Stage  -- not begun, or at the semaphore
  fetching : Record → (post : ℕ) → Stage  -- inside the semaphore
  finished : EnrichedRecord → Stage

pub record Task : Type 0 where
  pub record_id : ℕ
  pub stage : Stage

-- `{r.id: r for r in rows}`
abbrev pub keyed : List Record → Dict ℕ Record → Dict ℕ Record
keyed [] known = known
keyed (r ∷ rs) known = keyed rs (insert r.id r known)

abbrev pub elem : ℕ → List ℕ → Bool
elem n [] = false
elem n (m ∷ ms) = eqb m n || elem n ms

-- The single query for all records asked for.
abbrev pub records_by_id : (d : Database) → List ℕ → d.Store → Dict ℕ Record
records_by_id d record_ids s = keyed (keep (λ r. elem r.id record_ids && is_active r) (d.rows s)) []

-- The permits left, and the coroutines in the order of the ids.
pub record Gathering : Type 0 where
  pub permits : ℕ
  pub tasks : List Task

unfoldable pub gather : ℕ → List ℕ → Gathering
gather limit record_ids = record {
  permits = limit;
  tasks = map (λ id. record { record_id = id; stage = waiting }) record_ids;
}

-- The permits and the stage after `async with semaphore` is reached with a record.
abbrev pub enter : ℕ → Record → ℕ → ℕ × Stage
enter id r zero = (zero, waiting)
enter id r (suc permits) = (permits, fetching r (post_id id))

abbrev pub begin_with : ℕ → Option Record → ℕ → ℕ × Stage
begin_with id none permits = (permits, finished (not_found id))
begin_with id (some r) permits = enter id r permits

-- A part of `enrich_one`: from its beginning or the semaphore, and from the end of the fetch.
pub data Part : Type 0 where
  begins : Part
  settles : Fetch → Part

abbrev pub enrich_one : Dict ℕ Record → Part → ℕ → ℕ → Stage → ℕ × Stage
enrich_one known begins id permits waiting = begin_with id (lookup id known) permits
enrich_one known begins id permits (fetching r post) = (permits, fetching r post)
enrich_one known begins id permits (finished result) = (permits, finished result)
enrich_one known (settles f) id permits waiting = (permits, waiting)
enrich_one known (settles f) id permits (fetching r post) =
    (suc permits, finished (enriched_by id r f))
enrich_one known (settles f) id permits (finished result) = (permits, finished result)

-- The coroutine at a position runs a part.
abbrev pub run_part : Dict ℕ Record → Part → ℕ → ℕ → List Task → ℕ × List Task
run_part known part n permits [] = (permits, [])
run_part known part zero permits (t ∷ ts) =
    let (permits', stage) = enrich_one known part t.record_id permits t.stage in
    (permits', record t { stage = stage } ∷ ts)
run_part known part (suc n) permits (t ∷ ts) =
    let (permits', ts') = run_part known part n permits ts in (permits', t ∷ ts')

pub step : Dict ℕ Record → ℕ × Part → Gathering → Gathering
step known (n, part) g =
    let (permits, tasks) = run_part known part n g.permits g.tasks in
    record { permits = permits; tasks = tasks }

-- Parts of any coroutines, one after the other.
pub run_parts : Dict ℕ Record → List (ℕ × Part) → Gathering → Gathering
run_parts known [] g = g
run_parts known (e ∷ events) g = run_parts known events (step known e g)

-- What `asyncio.gather` returns, when every coroutine has its result.
abbrev pub result_of : Stage → Option EnrichedRecord
result_of waiting = none
result_of (fetching r post) = none
result_of (finished result) = some result

abbrev pub prepend :
    Option EnrichedRecord → Option (List EnrichedRecord) → Option (List EnrichedRecord)
prepend none rest = none
prepend (some r) none = none
prepend (some r) (some rs) = some (r ∷ rs)

abbrev pub gathered : List Task → Option (List EnrichedRecord)
gathered [] = some []
gathered (t ∷ ts) = prepend (result_of t.stage) (gathered ts)

pub record EnrichResponse : Type 0 where
  pub enriched_count : ℕ
  pub failed_count : ℕ
  pub results : List EnrichedRecord

-- `enrich_records`, with the results of the gathering; the wall-clock duration is left out.
pub enrich_records : List ℕ → List EnrichedRecord → Response EnrichResponse
enrich_records record_ids results =
    let enriched_count = count_if (λ r. r.enriched) results in
    if leb enrich_min_ids (length record_ids) && leb (length record_ids) enrich_max_ids
    then answer 200 (record {
      enriched_count = enriched_count;
      failed_count = length results - enriched_count;
      results = results;
    })
    else http_error 422
