-- ===== src/RoutesV2.antt =====
-- The v2 record routes, ingestor/routers/records_v2.py: creation behind the two limiters or a JSON
-- web token, the page by cursor, and the upsert. Answers are those of Routes; the limiter's headers
-- are a record. Clock readings are arguments, `second` ticks make a second. Of a page, the cursor's
-- text is left out; the enrichment is in Enrich, the timing of the N+1 demonstration not modelled.
pub mod Intervals
pub mod Refusals
pub mod Waiting
pub mod Tokens
pub mod Upserts
mod Examples
use data_pipeline_async.Base.{
  ℕ, zero, suc, ◌+◌, ◌*◌, ◌/◌, Bool, true, false, not, ◌&&◌, Option, none, some, List, [], ◌∷◌, map,
  ltb, leb, Text, if◌then◌else◌,
}
use data_pipeline_async.Base.Int.{ℤ, pos, negsuc}
use data_pipeline_async.Base.Strings.{strip, split}
use data_pipeline_async.Records.{Record, RecordRequest}
use data_pipeline_async.Records.Database.{Database}
use data_pipeline_async.Records.Crud.{Result, create_record, upsert_record}
use data_pipeline_async.Records.Listing.{Position, cursor_page}
use data_pipeline_async.Limits.{
  SlidingWindowLimiter, is_allowed, reset_in, TokenBucketLimiter, consume, scaled_wait,
}
use data_pipeline_async.Cache.{RecordResponse, response_of}
use data_pipeline_async.Auth.{
  Claims, text, iterable, Settings, Verdict, admitted, refused, Jwt, scope_key, roles_key,
  write_scope, writer, admin, create_jwt_token, jwt_role_guard,
}
use data_pipeline_async.Routes.{Response, answer, http_error, respond}

-- What the limiters read of a request: the header X-Forwarded-For and the address of its peer.
pub record Request : Type 0 where
  pub forwarded : Option Text
  pub client : Option Text

abbrev pub unknown : Text
unknown = b'u' ∷ b'n' ∷ b'k' ∷ b'n' ∷ b'o' ∷ b'w' ∷ b'n' ∷ []

abbrev pub peer_of : Option Text → Text
peer_of none = unknown
peer_of (some host) = host

-- `_client_ip`
pub client_ip : Request → Text
client_ip request = elim request.forwarded [
  | none ↦ peer_of request.client
  | some [] ↦ peer_of request.client
  | some (c ∷ f) ↦ elim (split b',' (c ∷ f)) [ [] ↦ [] | first ∷ _ ↦ strip first ]
]

-- The headers of `_rl_headers`, and Retry-After on a refusal.
pub record RateHeaders : Type 0 where
  pub limit : ℕ
  pub remaining : ℕ
  pub retry_after : Option ℕ

abbrev pub rl_headers : ℕ → ℕ → RateHeaders
rl_headers n left = record { limit = n; remaining = left; retry_after = none }

abbrev pub sliding_window_limit : ℕ
sliding_window_limit = 10

abbrev pub sliding_window_seconds : ℕ
sliding_window_seconds = 60

abbrev pub jitter_min_seconds : ℕ
jitter_min_seconds = 5

abbrev pub jitter_max_seconds : ℕ
jitter_max_seconds = 10

-- `-JITTER_MIN_SECONDS`, in the measure of a wait.
abbrev pub opposite : ℕ → ℤ
opposite zero = pos 0
opposite (suc n) = negsuc n

-- `str(int(retry_after) + 1)`, of a wait of which `one` is a second.
abbrev pub whole_seconds : ℕ → ℕ → ℕ
whole_seconds one wait = wait / one + 1

pub data Mode : Type 0 where
  idempotent strict : Mode

pub record UpsertResponse : Type 0 where
  pub stored : RecordResponse
  pub created : Bool
  pub mode : Mode

pub record CursorPage : Type 0 where
  pub records : List RecordResponse
  pub next_cursor : Option Position
  pub has_more : Bool
  pub limit : ℕ

module _ (d : Database) where
  open d use {Store}

  abbrev pub created_answer : Record → Response RecordResponse
  created_answer r = answer 201 (response_of r)

  -- `create_record_token_bucket`: the limiter reads its clock for a default bucket at `created`, and
  -- at `now`; to say when to come back, at `asked`.
  pub create_record_token_bucket :
      (ℤ → ℤ → ℤ)
      → ℕ
      → ℕ
      → ℕ
      → ℕ
      → Request
      → RecordRequest
      → TokenBucketLimiter × Store
      → (TokenBucketLimiter × Store) × Response RecordResponse × RateHeaders
  create_record_token_bucket draw second created now asked request body (limiter, s) =
      let ip = client_ip request in
      let (limiter', allowed, remaining) = consume ip 1 created now limiter in
      let headers = rl_headers limiter.capacity (remaining / limiter.unit) in
      let (s', out) = create_record d body s in
      let one = limiter.refill * second in
      let wait =
        scaled_wait draw ip asked asked (opposite (jitter_min_seconds * one))
          (pos (jitter_max_seconds * one)) limiter' in
      if allowed then ((limiter', s'), respond out created_answer, headers) else (
        (limiter', s),
        http_error 429,
        record headers { retry_after = some (whole_seconds one wait) },
      )

  -- `create_record_sliding_window`: the limiter reads its clock at `now`; to say when to come back,
  -- at `asked`.
  pub create_record_sliding_window :
      (ℤ → ℤ → ℤ)
      → ℕ
      → ℕ
      → ℕ
      → Request
      → RecordRequest
      → SlidingWindowLimiter × Store
      → (SlidingWindowLimiter × Store) × Response RecordResponse × RateHeaders
  create_record_sliding_window draw second now asked request body (limiter, s) =
      let ip = client_ip request in
      let (limiter', allowed, remaining) = is_allowed ip now limiter in
      let headers = rl_headers limiter.limit remaining in
      let (s', out) = create_record d body s in
      let wait =
        reset_in draw ip asked (opposite (jitter_min_seconds * second))
          (pos (jitter_max_seconds * second)) limiter' in
      if allowed then ((limiter', s'), respond out created_answer, headers) else (
        (limiter', s),
        http_error 429,
        record headers { retry_after = some (whole_seconds second wait) },
      )

  -- `list_records_cursor`; a limit out of its bounds is refused as invalid.
  pub list_records_cursor : Option Position → ℕ → Option Text → Store → Response CursorPage
  list_records_cursor cursor limit source s =
      let (records, next_cursor, has_more) = cursor_page d cursor limit source s in
      if leb 1 limit && leb limit 100
      then answer 200 (record {
        records = map response_of records;
        next_cursor = next_cursor;
        has_more = has_more;
        limit = limit;
      })
      else http_error 422

  abbrev pub upsert_answer : Mode → Record × Bool → Response UpsertResponse
  upsert_answer mode (r, true) =
      answer 201 (record { stored = response_of r; created = true; mode = mode })
  upsert_answer idempotent (r, false) =
      answer 200 (record { stored = response_of r; created = false; mode = idempotent })
  upsert_answer strict (r, false) = http_error 409

  pub upsert_record_endpoint : RecordRequest → Mode → Store → Store × Response UpsertResponse
  upsert_record_endpoint payload mode s =
      let (s', out) = upsert_record d payload s in (s', respond out (upsert_answer mode))

module _ (lower : Text → Text) {second : ℕ} (jwt : Jwt second) (settings : Settings) where
  -- `issue_jwt_token`: the access token.
  pub issue_jwt_token : ℕ → Text → Text
  issue_jwt_token now user_id =
      create_jwt_token lower jwt settings now user_id
        ((scope_key, text write_scope) ∷ (roles_key, iterable (writer ∷ [])) ∷ [])

  pub create_record_jwt :
      (d : Database) → ℕ → Option Text → RecordRequest → d.Store → d.Store × Response RecordResponse
  create_record_jwt d now header body s =
      let (s', out) = create_record d body s in
      elim (jwt_role_guard lower jwt settings (writer ∷ admin ∷ []) now header) [
        | admitted _ ↦ (s', respond out (created_answer d))
        | refused status ↦ (s, http_error status)
      ]
