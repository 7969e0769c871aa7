-- ===== src/RoutesV2/Intervals.antt =====
-- `create_record_sliding_window` of ingestor/routers/records_v2.py over any sequence of requests.
use data_pipeline_async.Base.{
  ℕ, ◌≤◌, ◌≡◌, refl, sym, ap, ◌∙◌, Bool, true, false, not, ◌&&◌, List, [], ◌∷◌, ◌++◌, map, count_if,
  eqb, Text, text_key, ◌==◌, append_assoc, append-nil, if◌then◌else◌, if-false, Bool-cases, inl,
  inr,
}
use mathlib.Core.Path.{subst}
use data_pipeline_async.Base.Int.{ℤ}
use data_pipeline_async.Records.{RecordRequest}
use data_pipeline_async.Records.Database.{Database}
use data_pipeline_async.Records.Crud.{
  Result, returned, integrity_error, missing_row, multiple_results, assertion_error, create_record,
}
use data_pipeline_async.Records.{Record}
use data_pipeline_async.Limits.{SlidingWindowLimiter, new_window_limiter, is_allowed}
use data_pipeline_async.Limits.Bursts.{within, window_limits_every_interval}
use data_pipeline_async.Limits.Rolling.{Log, times, times-append, history, IsOrdered}
use data_pipeline_async.Cache.{RecordResponse}
use data_pipeline_async.Routes.{Response, answer, http_error, respond}
use data_pipeline_async.RoutesV2.{
  Request, client_ip, RateHeaders, created_answer, create_record_sliding_window,
}

-- A request: when the limiter reads its clock, once and for a refusal once more.
pub record Arrival : Type 0 where
  pub now : ℕ
  pub asked : ℕ
  pub request : Request
  pub body : RecordRequest

abbrev pub is_refusal : {A : Type 0} → Response A → Bool
is_refusal (answer status _) = eqb status 429
is_refusal (http_error status) = eqb status 429

-- The times of a client's requests that were not refused.
abbrev pub passed_times : {A : Type 0} → Text → List Arrival → List (Response A) → List ℕ
passed_times key [] rs = []
passed_times key (a ∷ arrivals) [] = []
passed_times key (a ∷ arrivals) (r ∷ rs) =
    let rest = passed_times key arrivals rs in
    if not (is_refusal r) && client_ip a.request == key then a.now ∷ rest else rest

abbrev pub entry : Arrival → Text × ℕ
entry a = (client_ip a.request, a.now)

module _ (d : Database) (draw : ℤ → ℤ → ℤ) (second : ℕ) where
  open d use {Store}

  unfoldable pub serve :
      List Arrival
      → SlidingWindowLimiter × Store
      → (SlidingWindowLimiter × Store) × List (Response RecordResponse)
  serve [] x = (x, [])
  serve (a ∷ arrivals) x =
      let (x', r, _) =
        create_record_sliding_window d draw second a.now a.asked a.request a.body x in
      let (y, rs) = serve arrivals x' in (y, r ∷ rs)

  -- What the creations of the requests that were not refused leave of the database.
  abbrev pub stored_by : List Arrival → List (Response RecordResponse) → Store → Store
  stored_by [] rs s = s
  stored_by (a ∷ arrivals) [] s = s
  stored_by (a ∷ arrivals) (r ∷ rs) s =
      stored_by arrivals rs (if is_refusal r then s else (create_record d a.body s).0)

  respond-passes : (out : Result Record) → is_refusal (respond out (created_answer d)) ≡ false
  respond-passes (returned r) = refl
  respond-passes integrity_error = refl
  respond-passes missing_row = refl
  respond-passes multiple_results = refl
  respond-passes assertion_error = refl

  decided :
      (limiter' : SlidingWindowLimiter) (s s' : Store) (out : Result Record) (h h' : RateHeaders)
      (allowed : Bool)
      → let (x', r, _) =
          if◌then◌else◌ {A = (SlidingWindowLimiter × Store) × Response RecordResponse × RateHeaders}
            allowed
            ((limiter', s'), respond out (created_answer d), h)
            ((limiter', s), http_error 429, h') in
        (x'.0 ≡ limiter') × (is_refusal r ≡ not allowed) × (x'.1 ≡ (if is_refusal r then s else s'))
  decided limiter' s s' out h h' true = (
    refl,
    respond-passes out,
    sym (if-false (is_refusal (respond out (created_answer d))) s s' (respond-passes out)),
  )
  decided limiter' s s' out h h' false = (refl, refl, refl)

  -- One request: what the limiter decides, the answer shows and the database feels.
  pub one_request :
      (a : Arrival) (x : SlidingWindowLimiter × Store)
      → let (x', r, _) =
          create_record_sliding_window d draw second a.now a.asked a.request a.body x in
        let (limiter', allowed, _) = is_allowed (client_ip a.request) a.now x.0 in
        (x'.0 ≡ limiter')
        × (is_refusal r ≡ not allowed)
        × (x'.1 ≡ (if is_refusal r then x.1 else (create_record d a.body x.1).0))
  unfolding create_record_sliding_window
  one_request a (limiter, s) =
      let ip = client_ip a.request in
      let (limiter', allowed, _) = is_allowed ip a.now limiter in
      let (s', out) = create_record d a.body s in decided limiter' s s' out _ _ allowed

  -- The times logged with one more request, as the answers show them.
  log_step :
      (key : Text) (a : Arrival) (log : Log) (rest : List ℕ) (allowed refusal : Bool)
      → refusal ≡ not allowed
      → times key (if allowed then log ++ entry a ∷ [] else log) ++ rest
        ≡ times key log
          ++ (if not refusal && client_ip a.request == key then a.now ∷ rest else rest)
  log_step key a log rest false refusal e = rw e refl
  log_step key a log rest true refusal e =
      rw (e, times-append key log (client_ip a.request) a.now)
        (elim (Bool-cases (client_ip a.request == key)) [
          | inl same ↦ rw same (append_assoc (times key log) (a.now ∷ []) rest)
          | inr other ↦ rw other refl
        ])

  serve-times :
      (key : Text) (arrivals : List Arrival) (x : SlidingWindowLimiter × Store) (log : Log)
      → times key (history (map entry arrivals) x.0 log).1
        ≡ times key log ++ passed_times key arrivals (serve arrivals x).1
  unfolding history serve
  serve-times key [] x log = sym (append-nil (times key log))
  serve-times key (a ∷ arrivals) x log =
      let step = create_record_sliding_window d draw second a.now a.asked a.request a.body x in
      let (same, shown, _) = one_request a x in
      let (_, allowed, _) = is_allowed (client_ip a.request) a.now x.0 in
      let log' = if allowed then log ++ entry a ∷ [] else log in
      ap (λ l. times key (history (map entry arrivals) l log').1) (sym same)
      ∙ serve-times key arrivals step.0 log'
      ∙ log_step key a log (passed_times key arrivals (serve arrivals step.0).1) allowed
          (is_refusal step.1) shown

  serve-store :
      (arrivals : List Arrival) (x : SlidingWindowLimiter × Store)
      → (serve arrivals x).0.1 ≡ stored_by arrivals (serve arrivals x).1 x.1
  unfolding serve
  serve-store [] x = refl
  serve-store (a ∷ arrivals) x =
      let step = create_record_sliding_window d draw second a.now a.asked a.request a.body x in
      let (_, _, stored) = one_request a x in
      serve-store arrivals step.0 ∙ ap (stored_by arrivals (serve arrivals step.0).1) stored

  -- Behind a new limiter, whatever requests come at times that do not go back, of each client at
  -- most `limit` in any closed window of `width` ticks are answered by another status than 429, and
  -- the database is left as by the creations of the requests so answered and by nothing else.
  pub creations_per_interval :
      (limit width : ℕ) (arrivals : List Arrival) (s : Store) (key : Text) (from now : ℕ)
      → IsOrdered 0 (map entry arrivals) now
      → let ((_, s'), rs) = serve arrivals (new_window_limiter limit width, s) in
        (count_if (within from width) (passed_times key arrivals rs) ≤ limit)
        × (s' ≡ stored_by arrivals rs s)
  creations_per_interval limit width arrivals s key from now ordered = (
    subst (λ ts. count_if (within from width) ts ≤ limit)
        (serve-times key arrivals (new_window_limiter limit width, s) [])
        (window_limits_every_interval limit width (map entry arrivals) now key from ordered),
    serve-store arrivals (new_window_limiter limit width, s),
  )
