-- ===== src/RoutesV2/Examples.antt =====
-- Witnesses of the v2 routes, on a database and tokens in memory.
use data_pipeline_async.Base.{
  ℕ, ◌≤◌, ◌≡◌, refl, true, false, none, some, List, [], ◌∷◌, count_if, ltb, ◌==◌, text_key, Text,
  if◌then◌else◌, arith,
}
use data_pipeline_async.Base.Int.{ℤ, pos, ◌+ℤ◌}
use data_pipeline_async.Records.{new_record}
use data_pipeline_async.Records.Memory.{Memory, memory}
use data_pipeline_async.Records.Memory.Tables.{IsTable}
use data_pipeline_async.Records.Crud.{create_record}
use data_pipeline_async.Limits.{new_window_limiter, is_allowed, evict, reset_in, apply_jitter}
use data_pipeline_async.Limits.Bursts.{within}
use data_pipeline_async.Cache.{response_of}
use data_pipeline_async.Auth.InMemory.{lower, settings, memory_jwt}
use data_pipeline_async.Routes.{answer, http_error, respond}
use data_pipeline_async.RoutesV2.{
  create_record_sliding_window, client_ip, created_answer, idempotent, strict, issue_jwt_token,
  create_record_jwt, upsert_record_endpoint,
}
use data_pipeline_async.RoutesV2.Intervals.{
  Arrival, is_refusal, passed_times, serve, stored_by, creations_per_interval,
}
use data_pipeline_async.RoutesV2.Refusals.{limiter_after}
use data_pipeline_async.RoutesV2.Waiting.{answered, worn, retry_after_suffices}
use data_pipeline_async.RoutesV2.Tokens.{expiry, issued_token_lifetime}
use data_pipeline_async.RoutesV2.Upserts.{repeated, upsert_twice}

empty-IsTable : IsTable [] 1
empty-IsTable = record {
  ids = λ id. ground arith;
  keys = λ source timestamp. ground arith;
  bounded = tt;
}

abbrev empty : Memory
empty = record { table = []; next = 1; valid = empty-IsTable }

abbrev peer : Text
peer = b'p' ∷ []

abbrev at : ℕ → Arrival
at t = record {
  now = t;
  asked = t;
  request = record { forwarded = none; client = some peer };
  body = record { source = b's' ∷ []; timestamp = t; document = []; tags = [] };
}

abbrev three : List Arrival
three = at 1 ∷ at 2 ∷ at 3 ∷ []

abbrev draw : ℤ → ℤ → ℤ
draw low high = pos 0

creations_per_interval_example :
    let ((_, s'), rs) = serve memory draw 1 three (new_window_limiter 2 60, empty) in
    (count_if (within 1 60) (passed_times peer three rs) ≤ 2)
    × (s' ≡ stored_by memory draw 1 three rs empty)
creations_per_interval_example =
    creations_per_interval memory draw 1 2 60 three empty peer 1 3
      (omega arith, (omega arith, (omega arith, omega arith)))

second_refused :
    let (_, out, headers) =
      answered memory draw 1 (at 2) (worn memory draw 1 ((peer, 1) ∷ []) 1 60 empty) in
    (is_refusal out ≡ true) × (headers.retry_after ≡ some 60)
unfolding create_record_sliding_window client_ip limiter_after new_window_limiter is_allowed evict
    reset_in apply_jitter ◌+ℤ◌
second_refused = (refl, refl)

-- Another client comes while the refused one waits.
abbrev stranger : Arrival
stranger = record (at 30) { request = record { forwarded = none; client = some (b'q' ∷ []) } }

stranger-apart : (client_ip stranger.request == client_ip (at 2).request) ≡ false
unfolding client_ip
stranger-apart = refl

retry_after_suffices_example :
    let (between, _) =
      serve memory draw 1
        (stranger ∷ [])
        (answered memory draw 1 (at 2) (worn memory draw 1 ((peer, 1) ∷ []) 1 60 empty)).0 in
    is_refusal (answered memory draw 1 (at 63) between).1 ≡ false
retry_after_suffices_example =
    retry_after_suffices memory draw 1 ((peer, 1) ∷ []) 1 60 0 60 (at 2) (at 63) (stranger ∷ [])
      empty refl (omega arith) (omega arith) refl (stranger-apart, tt) second_refused.0
      second_refused.1 (omega arith)

issued_token_lifetime_example :
    let header =
      b'B'
      ∷ b'e'
      ∷ b'a'
      ∷ b'r'
      ∷ b'e'
      ∷ b'r'
      ∷ b' '
      ∷ issue_jwt_token lower (memory_jwt 10) settings 5 (b'u' ∷ []) in
    let (s', out) = create_record memory (at 7).body empty in
    create_record_jwt lower (memory_jwt 10) settings memory 7 (some header) (at 7).body empty ≡ (
      if ltb 7 (expiry lower (memory_jwt 10) settings 5)
      then (s', respond out (created_answer memory))
      else (empty, http_error 401))
issued_token_lifetime_example =
    issued_token_lifetime lower (memory_jwt 10) settings memory 5 7 (b'u' ∷ [])
      (b'B' ∷ b'e' ∷ b'a' ∷ b'r' ∷ b'e' ∷ b'r' ∷ []) (at 7).body empty refl
      (refl, (refl, (refl, (refl, (refl, (refl, tt)))))) (omega arith)

upsert_twice_example :
    let (s', out) = upsert_record_endpoint memory (at 4).body idempotent empty in
    let (s'', out') =
      upsert_record_endpoint memory (record (at 4).body { tags = peer ∷ [] }) strict s' in
    (id : ℕ) × (out
      ≡ answer 201 (record {
        stored = response_of (new_record id (at 4).body);
        created = true;
        mode = idempotent;
      }))
    × (s'.table ≡ new_record id (at 4).body ∷ [])
    × (out' ≡ repeated memory strict (new_record id (at 4).body))
    × (s''.table ≡ s'.table)
upsert_twice_example =
    upsert_twice memory (at 4).body (record (at 4).body { tags = peer ∷ [] }) idempotent strict
      empty refl refl refl
