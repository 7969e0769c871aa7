-- ===== src/Limits/Bursts.antt =====
-- `SlidingWindowLimiter` of ingestor/rate_limiting_advanced.py: the requests let through in any interval
-- as long as its window.
use data_pipeline_async.Base.{
  ℕ, ◌+◌, ◌≤◌, Bool, ◌&&◌, List, [], ◌∷◌, length, keep, count_if, leb, Text, text_key, text_beq_iff,
  arith, count_if-append,
}
use data_pipeline_async.Limits.{SlidingWindowLimiter, new_window_limiter}
use data_pipeline_async.Limits.Window.{is_live}
use data_pipeline_async.Limits.Rolling.{
  Log, times, history, IsOrdered, Agrees, served, served-times, served-Agrees, new-Agrees,
}

-- A request at `t` lies in the closed window that begins at `from`.
abbrev pub within : ℕ → ℕ → ℕ → Bool
within from width t = leb from t && leb t (from + width)

within-le-live :
    (from width now : ℕ) (ts : List ℕ)
    → now ≤ from + width
    → count_if (within from width) ts ≤ length (keep (is_live width now) ts)
within-le-live from width now [] h = omega arith
within-le-live from width now (t ∷ ts) h = ground (arith, within-le-live from width now ts h)

abbrev IsBounded : ℕ → ℕ → Log → Type 0
IsBounded limit width log =
    (key : Text) (from : ℕ) → count_if (within from width) (times key log) ≤ limit

served-IsBounded :
    {last limit width : ℕ} {s : SlidingWindowLimiter} {log : Log} (key : Text) (now : ℕ)
    (a : Agrees last limit width s log) (le : last ≤ now)
    → IsBounded limit width log
    → IsBounded limit width (served key now s log).1
served-IsBounded {limit} {width} {log} key now a le b k from = rw (served-times key now a le k) (
    ground (
      arith,
      b k from,
      text_beq_iff key k,
      within-le-live from width now (times k log),
      count_if-append (within from width) (times k log) (now ∷ []),
    ))

history-IsBounded :
    (requests : List (Text × ℕ)) {last limit width : ℕ} {s : SlidingWindowLimiter} {log : Log}
    (now : ℕ)
    → Agrees last limit width s log
    → IsOrdered last requests now
    → IsBounded limit width log
    → IsBounded limit width (history requests s log).1
unfolding history
history-IsBounded [] now a o b = b
history-IsBounded ((key, t) ∷ requests) now a o b =
    history-IsBounded requests now (served-Agrees key t a o.0) o.1 (served-IsBounded key t a o.0 b)

-- After any requests at times that do not go back, no more than `limit` requests of a key have been
-- let through in any closed window of `width` ticks, wherever it begins: there is no burst at a
-- boundary.
pub window_limits_every_interval :
    (limit width : ℕ) (requests : List (Text × ℕ)) (now : ℕ) (key : Text) (from : ℕ)
    → IsOrdered 0 requests now
    → let (_, log) = history requests (new_window_limiter limit width) [] in
      count_if (within from width) (times key log) ≤ limit
window_limits_every_interval limit width requests now key from o =
    history-IsBounded requests now (new-Agrees limit width) o (λ k f. omega arith) key from
