-- ===== src/Limits/Rolling.antt =====
-- `SlidingWindowLimiter` of ingestor/rate_limiting_advanced.py over any sequence of requests, of any
-- keys, against the log of the requests that it has let through.
use data_pipeline_async.Base.{
  ℕ, ◌-◌, ◌≤◌, ◌≡◌, refl, ◌∙◌, Bool, true, false, ◌&&◌, List, [], ◌∷◌, ◌++◌, length, keep, ltb,
  Text, text_key, text_beq_iff, ◌==◌, if◌then◌else◌, arith,
}
use data_pipeline_async.Base.Dict.{insert, lookup-insert}
use data_pipeline_async.Limits.{
  SlidingWindowLimiter, new_window_limiter, window_of, evict, is_allowed,
}
use data_pipeline_async.Limits.Window.{
  IsAscending, is_live, IsAscending-snoc, IsAscending-weaken, evict-IsAscending, evict-eq-keep,
  keep-live_later, keep-append,
}

-- The requests let through, in order.
abbrev pub Log : Type 0
Log = List (Text × ℕ)

abbrev pub times : Text → Log → List ℕ
times key [] = []
times key ((k, t) ∷ log) = let rest = times key log in if k == key then t ∷ rest else rest

-- Requests one after the other, logging those that are let through.
unfoldable pub history : List (Text × ℕ) → SlidingWindowLimiter → Log → SlidingWindowLimiter × Log
history [] s log = (s, log)
history ((key, now) ∷ requests) s log =
    let (s', allowed, _) = is_allowed key now s in
    history requests s' (if allowed then log ++ (key, now) ∷ [] else log)

-- The request times do not go back.
abbrev pub IsOrdered : ℕ → List (Text × ℕ) → ℕ → Type 0
IsOrdered lo [] hi = lo ≤ hi
IsOrdered lo ((_, t) ∷ requests) hi = (lo ≤ t) × IsOrdered t requests hi

-- What an exact rolling window answers: the request is let through if fewer than `limit` of those
-- let through before lie within the last `width` ticks, and the room left is reported.
abbrev pub rolling : ℕ → ℕ → ℕ → List ℕ → Bool × ℕ
rolling limit width now ts =
    let live = length (keep (is_live width now) ts) in
    if ltb live limit then (true, limit - live - 1) else (false, 0)

pub times-append :
    (key : Text) (log : Log) (k : Text) (t : ℕ)
    → times key (log ++ (k, t) ∷ []) ≡ (if k == key then times key log ++ t ∷ [] else times key log)
times-append key [] k t = refl
times-append key ((j, u) ∷ log) k t = ground (arith, times-append key log k t)

-- At time `last` the window of each key holds, of the log, at least what may still count later.
pub record Agrees (last : ℕ) (limit width : ℕ) (s : SlidingWindowLimiter) (log : Log) : Type 0 where
  pub same_limit : s.limit ≡ limit
  pub same_width : s.window_seconds ≡ width
  pub ordered : (key : Text) → IsAscending 0 (window_of key s) last
  pub same_live :
      (key : Text) (now : ℕ)
      → last ≤ now
      → keep (is_live width now) (window_of key s) ≡ keep (is_live width now) (times key log)

pub Agrees-evict :
    {last limit width : ℕ} {s : SlidingWindowLimiter} {log : Log} (key : Text) (now : ℕ)
    → Agrees last limit width s log
    → last ≤ now
    → evict s.window_seconds now (window_of key s) ≡ keep (is_live width now) (times key log)
Agrees-evict {last} {limit} {width} {s} {log} key now a le =
    rw a.same_width
      (evict-eq-keep width 0 now (window_of key s) last (a.ordered key) ∙ a.same_live key now le)

is_allowed-rolling :
    {last limit width : ℕ} {s : SlidingWindowLimiter} {log : Log} (key : Text) (now : ℕ)
    → Agrees last limit width s log
    → last ≤ now
    → let (_, allowed, remaining) = is_allowed key now s in
      (allowed, remaining) ≡ rolling limit width now (times key log)
unfolding is_allowed
is_allowed-rolling key now a le = ground (arith, a.same_limit, Agrees-evict key now a le)

pub window_of-insert :
    (key k : Text) (w : List ℕ) (s : SlidingWindowLimiter)
    → window_of k (record s { windows = insert key w s.windows })
      ≡ (if key == k then w else window_of k s)
window_of-insert key k w s = ground (arith, lookup-insert key k w s.windows)

-- The limiter and the log behind one request.
abbrev pub served : Text → ℕ → SlidingWindowLimiter → Log → SlidingWindowLimiter × Log
served key now s log =
    let (s', allowed, _) = is_allowed key now s in
    (s', if allowed then log ++ (key, now) ∷ [] else log)

module _ {last limit width : ℕ} {s : SlidingWindowLimiter} {log : Log} (key : Text) (now : ℕ)
    (a : Agrees last limit width s log) (le : last ≤ now) where
  -- What the request leaves in the window of its key.
  abbrev left : List ℕ
  left =
      let live = keep (is_live width now) (times key log) in
      if ltb (length live) limit then live ++ now ∷ [] else live

  served-windows :
      (k : Text) → window_of k (served key now s log).0 ≡ (if key == k then left else window_of k s)
  unfolding is_allowed
  served-windows k =
      let window = evict s.window_seconds now (window_of key s) in
      ground (
        arith,
        a.same_limit,
        Agrees-evict key now a le,
        window_of-insert key k (window ++ now ∷ []) s,
        window_of-insert key k window s,
      )

  pub served-times :
      (k : Text)
      → times k (served key now s log).1 ≡ (
          if key == k && ltb (length (keep (is_live width now) (times key log))) limit
          then times k log ++ now ∷ []
          else times k log)
  unfolding is_allowed
  served-times k =
      ground (arith, a.same_limit, Agrees-evict key now a le, times-append k log key now)

  abbrev live_times : List ℕ
  live_times = keep (is_live width now) (times key log)

  live-IsAscending : IsAscending 0 live_times last
  live-IsAscending =
      rw (Agrees-evict key now a le) at
        (evict-IsAscending s.window_seconds 0 now (window_of key s) last (a.ordered key))

  left-IsAscending : IsAscending 0 left now
  left-IsAscending = ground (
    arith,
    IsAscending-snoc 0 live_times last now live-IsAscending le,
    IsAscending-weaken 0 0 live_times last now live-IsAscending,
  )

  served-IsAscending : (k : Text) → IsAscending 0 (window_of k (served key now s log).0) now
  served-IsAscending k = rw (served-windows k) (
      ground
        (arith, left-IsAscending, IsAscending-weaken 0 0 (window_of k s) last now (a.ordered k)))

  left-live :
      (later : ℕ)
      → now ≤ later
      → keep (is_live width later) left ≡ (
          if ltb (length live_times) limit
          then keep (is_live width later) (times key log ++ now ∷ [])
          else keep (is_live width later) (times key log))
  left-live later h = ground (
    arith,
    keep-live_later width now later (times key log) h,
    keep-append width later live_times (now ∷ []),
    keep-append width later (times key log) (now ∷ []),
  )

  served-live :
      (k : Text) (later : ℕ)
      → now ≤ later
      → keep (is_live width later) (window_of k (served key now s log).0)
        ≡ keep (is_live width later) (times k (served key now s log).1)
  served-live k later h =
      rw (served-windows k, served-times k)
        (ground (arith, left-live later h, text_beq_iff key k, a.same_live k later))

  served-limits :
      ((served key now s log).0.limit ≡ limit) × ((served key now s log).0.window_seconds ≡ width)
  unfolding is_allowed
  served-limits = ground (arith, a.same_limit, a.same_width)

  pub served-Agrees : Agrees now limit width (served key now s log).0 (served key now s log).1
  served-Agrees = record {
    same_limit = served-limits.0;
    same_width = served-limits.1;
    ordered = served-IsAscending;
    same_live = served-live;
  }

Agrees-later :
    {last limit width : ℕ} {s : SlidingWindowLimiter} {log : Log} (now : ℕ)
    → Agrees last limit width s log
    → last ≤ now
    → Agrees now limit width s log
Agrees-later {last} {s} now a le = record {
  same_limit = a.same_limit;
  same_width = a.same_width;
  ordered = λ k. IsAscending-weaken 0 0 (window_of k s) last now (a.ordered k) (omega arith) le;
  same_live = λ k later h. a.same_live k later (omega arith);
}

pub history-Agrees :
    (requests : List (Text × ℕ)) {last limit width : ℕ} {s : SlidingWindowLimiter} {log : Log}
    (now : ℕ)
    → Agrees last limit width s log
    → IsOrdered last requests now
    → let (s', log') = history requests s log in Agrees now limit width s' log'
unfolding history
history-Agrees [] now a o = Agrees-later now a o
history-Agrees ((key, t) ∷ requests) now a o =
    history-Agrees requests now (served-Agrees key t a o.0) o.1

pub new-Agrees : (limit width : ℕ) → Agrees 0 limit width (new_window_limiter limit width) []
unfolding new_window_limiter
new-Agrees limit width = record {
  same_limit = refl;
  same_width = refl;
  ordered = λ k. omega arith;
  same_live = λ k later h. refl;
}

-- After any requests of any keys, at times that do not go back, the limiter answers a request at
-- `now` as an exact rolling window does over all that it has let through for that key: with the
-- number of those in the last `width` ticks below the limit, and with the room that is left.
pub window_answers_exactly :
    (limit width : ℕ) (requests : List (Text × ℕ)) (key : Text) (now : ℕ)
    → IsOrdered 0 requests now
    → let (s, log) = history requests (new_window_limiter limit width) [] in
      let (_, allowed, remaining) = is_allowed key now s in
      (allowed, remaining) ≡ rolling limit width now (times key log)
window_answers_exactly limit width requests key now o =
    is_allowed-rolling key now (history-Agrees requests now (new-Agrees limit width) o)
      (omega arith)
