-- ===== src/RoutesV2/Waiting.antt =====
-- Retry-After of `create_record_sliding_window` in ingestor/routers/records_v2.py.
use data_pipeline_async.Base.{
  ℕ, ◌+◌, ◌*◌, ◌≤◌, ◌<◌, ◌≡◌, sym, ap, ◌∙◌, true, false, not, some, List, [], ◌∷◌, refl, All, ◌==◌,
  Text, text_key, if-false, arith,
}
use mathlib.Core.Path.{subst}
use mathlib.Core.Option.{some-injective}
use data_pipeline_async.Base.Int.{ℤ, pos}
use data_pipeline_async.Records.{RecordRequest}
use data_pipeline_async.Records.Database.{Database}
use data_pipeline_async.Limits.{SlidingWindowLimiter, new_window_limiter, is_allowed, reset_in}
use data_pipeline_async.Cache.{RecordResponse}
use data_pipeline_async.Routes.{Response}
use data_pipeline_async.RoutesV2.{
  Request, RateHeaders, client_ip, whole_seconds, opposite, jitter_min_seconds, jitter_max_seconds,
  create_record_sliding_window,
}
use data_pipeline_async.RoutesV2.Intervals.{Arrival, is_refusal, serve, one_request}
use data_pipeline_async.RoutesV2.Refusals.{
  limiter_after, limiter_after-HasRoom, negated_is_false, limiter_after-limits, wait_suffices,
  AgreesOn, is_allowed-AgreesOn,
}

module _ (d : Database) (draw : ℤ → ℤ → ℤ) (second : ℕ) where
  open d use {Store}

  refusal_header :
      (now asked : ℕ) (request : Request) (body : RecordRequest) (limiter : SlidingWindowLimiter)
      (s : Store)
      → let (limiter', allowed, _) = is_allowed (client_ip request) now limiter in
        allowed ≡ false
        → (create_record_sliding_window d draw second now asked request body
            (limiter, s)).2.retry_after
          ≡ some (
              whole_seconds second (
                reset_in draw
                  (client_ip request)
                  asked
                  (opposite (jitter_min_seconds * second))
                  (pos (jitter_max_seconds * second))
                  limiter'))
  unfolding create_record_sliding_window
  refusal_header now asked request body limiter s refused =
      ap
        (λ (o : (SlidingWindowLimiter × Store) × Response RecordResponse × RateHeaders).
          o.2.retry_after)
        (if-false (is_allowed (client_ip request) now limiter).1 _ _ refused)

  abbrev pub answered :
      Arrival
      → SlidingWindowLimiter × Store
      → (SlidingWindowLimiter × Store) × Response RecordResponse × RateHeaders
  answered a x = create_record_sliding_window d draw second a.now a.asked a.request a.body x

  -- The limiter after earlier requests, with a database.
  abbrev pub worn : List (Text × ℕ) → ℕ → ℕ → Store → SlidingWindowLimiter × Store
  worn requests limit width s = (limiter_after requests (new_window_limiter limit width), s)

  -- Requests of other clients leave a client's window.
  serve-AgreesOn :
      (key : Text) (others : List Arrival) (x : SlidingWindowLimiter × Store)
      → All (λ c. (client_ip c.request == key) ≡ false) others
      → AgreesOn key x.0 (serve d draw second others x).0.0
  unfolding serve
  serve-AgreesOn key [] x apart = (refl, refl, refl)
  serve-AgreesOn key (c ∷ others) x apart =
      let later = serve-AgreesOn key others (answered c x).0 apart.1 in
      let now =
        subst (AgreesOn key x.0) (sym (one_request d draw second c x).0)
          (is_allowed-AgreesOn key (client_ip c.request) c.now x.0 apart.0) in
      (later.0 ∙ now.0, later.1 ∙ now.1, later.2 ∙ now.2)

  -- Whatever came before, if a request is refused and the jitter drawn is not negative, the client's
  -- next request is let through when Retry-After seconds have gone by since the answer, at whatever
  -- time after that it comes, and whatever requests of other clients come between the two.
  pub retry_after_suffices :
      (requests : List (Text × ℕ)) (limit width j r : ℕ) (a b : Arrival) (others : List Arrival)
      (s : Store)
      → draw (opposite (jitter_min_seconds * second)) (pos (jitter_max_seconds * second)) ≡ pos j
      → 0 < second
      → 1 ≤ limit
      → client_ip b.request ≡ client_ip a.request
      → All (λ c. (client_ip c.request == client_ip a.request) ≡ false) others
      → is_refusal (answered a (worn requests limit width s)).1 ≡ true
      → (answered a (worn requests limit width s)).2.retry_after ≡ some r
      → a.asked + r * second ≤ b.now
      → let (between, _) =
          serve d draw second others (answered a (worn requests limit width s)).0 in
        is_refusal (answered b between).1 ≡ false
  unfolding new_window_limiter
  retry_after_suffices requests limit width j r a b others s drawn positive some_limit same apart
        refused told waited =
      shown'
      ∙ ap not (
          ap (λ k. (is_allowed k b.now between.0).1) same
          ∙ wait_suffices draw (opposite (jitter_min_seconds * second))
              (pos (jitter_max_seconds * second)) j second ip a.now a.asked b.now x.0 between.0
              drawn positive (omega (arith, some_limit, (limiter_after-limits requests new).0))
              (limiter_after-HasRoom requests new (λ key. omega arith)) not_allowed
              (subst (λ l. AgreesOn ip l between.0) limiter'
                (serve-AgreesOn ip others (answered a x).0 apart))
              (omega (arith, waited, ap (λ q. q * second) told_wait)))
    where
      new : SlidingWindowLimiter
      new = new_window_limiter limit width

      x : SlidingWindowLimiter × Store
      x = worn requests limit width s

      ip : Text
      ip = client_ip a.request

      limiter' : (answered a x).0.0 ≡ (is_allowed ip a.now x.0).0
      limiter' = (one_request d draw second a x).0

      between : SlidingWindowLimiter × Store
      between = (serve d draw second others (answered a x).0).0

      shown' :
          is_refusal (answered b between).1
          ≡ not (is_allowed (client_ip b.request) b.now between.0).1
      shown' = (one_request d draw second b between).1

      not_allowed : (is_allowed ip a.now x.0).1 ≡ false
      not_allowed =
          negated_is_false (is_allowed ip a.now x.0).1
            (sym (one_request d draw second a x).1 ∙ refused)

      told_wait :
          r
          ≡ whole_seconds second (
              reset_in draw ip a.asked
                (opposite (jitter_min_seconds * second))
                (pos (jitter_max_seconds * second))
                (is_allowed ip a.now x.0).0)
      told_wait =
          some-injective _ _
            (sym told ∙ refusal_header a.now a.asked a.request a.body x.0 s not_allowed)
