-- ===== src/Lib.antt =====
-- Verification of data-pipeline-async: an API that ingests records into a database, in process or
-- by background workers, protects the services it calls by retries, a circuit breaker and rate
-- limits, and publishes events that a separate service consumes.
--
-- Parts. A record enters by ingestor/jobs.py, which asks the idempotency tracker of
-- libs/platform/retry.py whether its key is known and hands it to ingestor/crud.py; large batches
-- wait in the queue of ingestor/core/background_workers.py, whose workers call the same function,
-- behind ingestor/routers/background_processing.py. Scheduled jobs run under the wrapper of
-- ingestor/core/handlers.py, which keeps the health that
-- ingestor/routers/health_ingestion_jobs.py reports. Readers page through the records by
-- ingestor/crud.py. Calls to the outside go through ingestor/fetch.py and the decorators of
-- libs/platform; requests are limited by ingestor/rate_limiting_advanced.py. The routes of
-- ingestor/routers/records.py put the database, the cache of ingestor/cache.py, the publications
-- of ingestor/events.py and the sessions of ingestor/auth.py together; those of
-- ingestor/routers/records_v2.py stand behind the limiters and the tokens.
-- services/processor/main.py consumes the events, and ingestor/storage/events.py keeps their
-- status.
--
-- Files and sources:
--
--   Base           Boolean tests, keys, dicts and lists over the native numbers
--   Circuit        libs/platform/circuit_breaker.py: the locked blocks of `call` as `gate` and `settle`
--   Retry          libs/platform/retry.py (`exponential_backoff`), ingestor/fetch.py
--   Limits         ingestor/rate_limiting_advanced.py: both limiters, state passed explicitly
--   Requests       ingestor/schemas.py: the validators of the two record requests
--   Records        ingestor/crud.py, the Record of ingestor/models.py, requests of ingestor/schemas.py
--   Jobs           ingestor/jobs.py, `IdempotencyKeyTracker` of libs/platform/retry.py
--   Workers        ingestor/core/background_workers.py: methods and parts of the worker loop as steps
--   WorkerRoutes   ingestor/routers/background_processing.py, `health_summary` of the pool
--   Scheduler      libs/platform/job_types.py, ingestor/core/handlers.py and core/scheduler.py,
--                  ingestor/routers/health_ingestion_jobs.py: the health of jobs
--   Notifications  ingestor/notifications.py: an event sent to some channels
--   Processor      services/processor/main.py: the connection loop and the message loop
--   Events         ingestor/storage/events.py: the rows of ProcessedEvent
--   Cache          ingestor/cache.py: single records in Redis, RecordResponse of ingestor/schemas.py
--   Publish        ingestor/events.py: publications through the breaker of Circuit
--   Enrich         ingestor/crud.py: enrich_records_concurrent, and the route that answers with it
--   Auth           ingestor/auth.py: sessions, the bearer token, JSON web tokens and roles
--   Routes         ingestor/routers/records.py: the routes on Records, Cache, Publish and Auth
--   RoutesV2       ingestor/routers/records_v2.py: the routes on Records, Limits and Auth
--
-- Each operation carries the name of its function or method, takes the state it reads and returns
-- the state it leaves. A coroutine that others can interrupt is cut at its awaits, and theorems
-- about overlapping calls speak of all orders of the parts. Exceptions are values: a constructor
-- of a result type, or a flag where an exception ends a loop.
--
-- Clocks are arguments, in ticks of a unit left open; a fraction of a tick is written as a
-- numerator over a fixed denominator. Strings are lists of code points. Numbers of the source are
-- unbounded, as in Python. Random numbers, the remote service, JSON decoding, the decoding of
-- bytes with replacements and the broker are parameters.
--
-- The database of Records is an interface: the rows of a store, insertion, update and deletion
-- with the unique constraint on source and timestamp, and ORDER BY. Its laws say what PostgreSQL
-- documents; Records/Memory fulfils them by lists, and runs every witness. Each call is a
-- transaction of its own, without others in between. The values a database limits (lengths of
-- strings, ranges of integers) are not bounded here.
--
-- Loops. The retry loops recur on the attempts left, which their range gives. The traversal by
-- cursors takes fuel; as many pages as there are records, and one more, are enough. All else is
-- structural recursion.
--
-- Redis is an interface as well: what it holds under a key, and replies that can be failures; it
-- may drop entries at any time. Cache/InMemory fulfils it, with a codec in place of JSON. What
-- PyJWT makes of a token is the interface Jwt, which Auth/InMemory fulfils by a format of its
-- own.
--
-- Not modelled: the other routers, scrapers, dashboards, vector search and the query service; the
-- cursor's base64 text, the batch insertion of events; logging, metrics and tracing throughout.
pub mod Base
pub mod Circuit
pub mod Retry
pub mod Limits
pub mod Records
pub mod Requests
pub mod Jobs
pub mod Workers
pub mod Processor
pub mod Events
pub mod Cache
pub mod Publish
pub mod Auth
pub mod Routes
pub mod RoutesV2
pub mod Enrich
pub mod WorkerRoutes
pub mod Scheduler
pub mod Notifications
