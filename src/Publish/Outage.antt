-- ===== src/Publish/Outage.antt =====
-- The broker's outage as ingestor/events.py sees it.
use data_pipeline_async.Base.{
  ℕ, suc, ◌+◌, ◌*◌, ◌<◌, ◌≡◌, refl, ap, ◌∙◌, true, List, [], ◌∷◌, ◌++◌, length, map, some, All,
  append-nil, if-true, arith,
}
use data_pipeline_async.Circuit.{
  open_state, CircuitBreaker, new_breaker, raised, CallResult, circuit_open_error, passed_on, call,
}
use data_pipeline_async.Circuit.Calls.{
  Attempt, run_calls, last_end, threshold_trips, open_circuit_rejects,
}
use data_pipeline_async.Publish.{
  Message, kafka_error, Producer, new_producer, Publication, quiet, settle_send, publish,
}

-- A publication that would fail by a KafkaError: its clock readings and its message.
pub record Failing : Type 0 where
  pub start : ℕ
  pub end : ℕ
  pub message : Message

pub publish_all : List Failing → Producer → Producer × List Publication
publish_all [] p = (p, [])
publish_all (f ∷ rest) p =
    let (q, r) = publish f.start f.end kafka_error f.message p in
    let (q', rs) = publish_all rest q in (q', r ∷ rs)

abbrev pub attempts : List Failing → List Attempt
attempts [] = []
attempts (f ∷ rest) = record { start = f.start; end = f.end; outcome = raised } ∷ attempts rest

-- How many calls reached the broker.
abbrev pub passed : List CallResult → ℕ
passed [] = 0
passed (circuit_open_error ∷ rs) = passed rs
passed (passed_on _ ∷ rs) = suc (passed rs)

abbrev after : Producer → CircuitBreaker × List CallResult → Producer
after p (b, rs) = record p { breaker = b; contacts = p.contacts + passed rs }

settle_failing :
    (m : Message) (r : CallResult) (b : CircuitBreaker) (p : Producer)
    → settle_send m kafka_error (b, r) p ≡ (after p (b, r ∷ []), quiet)
settle_failing m circuit_open_error b p = ground arith
settle_failing m (passed_on o) b p = ground (arith, append-nil p.sent)

after-after :
    (r : CallResult) (b : CircuitBreaker) (rs : CircuitBreaker × List CallResult) (p : Producer)
    → after (after p (b, r ∷ [])) rs ≡ after p (rs.0, r ∷ rs.1)
after-after circuit_open_error b rs p = ground arith
after-after (passed_on o) b rs p = ground arith

-- Failing publications are the breaker's calls: nothing is sent, and nothing is raised.
publish_all_lem :
    (fs : List Failing) (p : Producer)
    → p.connected ≡ true
    → publish_all fs p ≡ (after p (run_calls (attempts fs) p.breaker), map (λ _. quiet) fs)
unfolding publish_all publish run_calls
publish_all_lem [] p on = ground arith
publish_all_lem (f ∷ rest) p on =
    ap (λ x. ((publish_all rest x.0).0, x.1 ∷ (publish_all rest x.0).1)) first
    ∙ ap (λ x. (x.0, quiet ∷ x.1)) (publish_all_lem rest (after p (c.0, c.1 ∷ [])) on)
    ∙ ap (λ q. (q, map (λ _. quiet) (f ∷ rest)))
        (after-after c.1 c.0 (run_calls (attempts rest) c.0) p)
  where
    c : CircuitBreaker × CallResult
    c = call f.start f.end raised p.breaker

    first : publish f.start f.end kafka_error f.message p ≡ (after p (c.0, c.1 ∷ []), quiet)
    first = if-true p.connected _ _ on ∙ settle_failing f.message c.1 c.0 p

run_calls-append :
    (xs ys : List Attempt) (b : CircuitBreaker)
    → run_calls (xs ++ ys) b ≡ (
      (run_calls ys (run_calls xs b).0).0,
      (run_calls xs b).1 ++ (run_calls ys (run_calls xs b).0).1,
    )
unfolding run_calls
run_calls-append [] ys b = refl
run_calls-append (x ∷ xs) ys b =
    ground (arith, run_calls-append xs ys (call x.start x.end x.outcome b).0)

attempts-append : (fs gs : List Failing) → attempts (fs ++ gs) ≡ attempts fs ++ attempts gs
attempts-append [] gs = refl
attempts-append (f ∷ fs) gs =
    ap (λ l. record { start = f.start; end = f.end; outcome = raised } ∷ l) (attempts-append fs gs)

passed-append : (xs ys : List CallResult) → passed (xs ++ ys) ≡ passed xs + passed ys
passed-append [] ys = omega arith
passed-append (circuit_open_error ∷ xs) ys = passed-append xs ys
passed-append (passed_on _ ∷ xs) ys = omega (arith, passed-append xs ys)

passed-all_passed : (xs : List Attempt) → passed (map (λ _. passed_on raised) xs) ≡ length xs
passed-all_passed [] = refl
passed-all_passed (x ∷ xs) = omega (arith, passed-all_passed xs)

passed-none_passed : (xs : List Attempt) → passed (map (λ _. circuit_open_error) xs) ≡ 0
passed-none_passed [] = refl
passed-none_passed (x ∷ xs) = passed-none_passed xs

length-attempts : (fs : List Failing) → length (attempts fs) ≡ length fs
length-attempts [] = refl
length-attempts (f ∷ fs) = omega (arith, length-attempts fs)

attempts-failing : (fs : List Failing) → All (λ a. a.outcome ≡ raised) (attempts fs)
attempts-failing [] = tt
attempts-failing (f ∷ fs) = (refl, attempts-failing fs)

attempts-early :
    (t : ℕ) (fs : List Failing) → All (λ f. f.start < t) fs → All (λ a. a.start < t) (attempts fs)
attempts-early t [] h = tt
attempts-early t (f ∷ fs) h = (h.0, attempts-early t fs h.1)

abbrev pub last_end_of : ℕ → List Failing → ℕ
last_end_of t fs = last_end t (attempts fs)

-- While the broker answers every send by a KafkaError, no publication raises and nothing is sent,
-- and of five publications by a new producer and any number that start within thirty seconds of the
-- end of the fifth, only the first five reach the broker.
pub outage_contacts :
    (second : ℕ) (f : Failing) (four later : List Failing)
    → length four ≡ 4
    → All (λ g. g.start < last_end_of f.end four + 30 * second) later
    → let (p, results) = publish_all ((f ∷ four) ++ later) (new_producer second) in
      (results ≡ map (λ _. quiet) ((f ∷ four) ++ later)) × (p.sent ≡ []) × (p.contacts ≡ 5)
unfolding new_producer new_breaker
outage_contacts second f four later n early =
    (ap (λ x. x.1) all, ap (λ x. x.0.sent) all, ap (λ x. x.0.contacts) all ∙ contacts)
  where
    fresh : CircuitBreaker
    fresh = new_breaker 5 (30 * second)

    open_breaker : CircuitBreaker
    open_breaker = record fresh {
      state = open_state;
      failure_count = 5;
      last_failure_time = some (last_end_of f.end four);
    }

    all : publish_all ((f ∷ four) ++ later) (new_producer second) ≡ (
      after (new_producer second) (run_calls (attempts ((f ∷ four) ++ later)) fresh),
      map (λ _. quiet) ((f ∷ four) ++ later),
    )
    all = publish_all_lem ((f ∷ four) ++ later) (new_producer second) refl

    tripped :
        run_calls (attempts (f ∷ four)) fresh
        ≡ (open_breaker, map (λ _. passed_on raised) (attempts (f ∷ four)))
    tripped =
        threshold_trips (record { start = f.start; end = f.end; outcome = raised }) (attempts four)
          fresh refl (attempts-failing (f ∷ four)) (omega (arith, n, length-attempts four))

    rejected :
        run_calls (attempts later) open_breaker
        ≡ (open_breaker, map (λ _. circuit_open_error) (attempts later))
    rejected =
        open_circuit_rejects (attempts later) open_breaker refl
          (attempts-early (last_end_of f.end four + 30 * second) later early)

    contacts : 0 + passed (run_calls (attempts ((f ∷ four) ++ later)) fresh).1 ≡ 5
    contacts = omega (
      arith,
      ap (λ l. passed (run_calls l fresh).1) (attempts-append (f ∷ four) later),
      ap (λ r. passed r.1) (run_calls-append (attempts (f ∷ four)) (attempts later) fresh),
      passed-append (run_calls (attempts (f ∷ four)) fresh).1
          (run_calls (attempts later) (run_calls (attempts (f ∷ four)) fresh).0).1,
      ap (λ r. passed r.1) tripped,
      ap (λ r. passed (run_calls (attempts later) r.0).1) tripped,
      ap (λ r. passed r.1) rejected,
      passed-all_passed (attempts (f ∷ four)),
      passed-none_passed (attempts later),
      length-attempts four,
      n,
    )
