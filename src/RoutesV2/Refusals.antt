-- ===== src/RoutesV2/Refusals.antt =====
-- The limiter and the wait behind `create_record_sliding_window` of ingestor/routers/records_v2.py: how
-- long a refusal lasts.
use data_pipeline_async.Base.{
  ℕ, ◌+◌, ◌-◌, ◌*◌, ◌≤◌, ◌<◌, ◌≡◌, refl, ap, ◌∙◌, Bool, true, false, not, List, [], ◌∷◌, ◌++◌,
  length, length-append, Text, text_key, ◌==◌, ==_refl, arith,
}
use data_pipeline_async.Base.Int.{ℤ, pos, pos_part, ◌+ℤ◌}
use data_pipeline_async.Limits.{
  SlidingWindowLimiter, window_of, evict, is_allowed, apply_jitter, reset_in,
}
use data_pipeline_async.Limits.Window.{evict-length}
use data_pipeline_async.Limits.Rolling.{window_of-insert}
use data_pipeline_async.RoutesV2.{whole_seconds}

-- No window holds more requests than the limit.
abbrev HasRoom : SlidingWindowLimiter → Type 0
HasRoom s = (key : Text) → length (window_of key s) ≤ s.limit

unfoldable pub limiter_after : List (Text × ℕ) → SlidingWindowLimiter → SlidingWindowLimiter
limiter_after [] s = s
limiter_after ((key, now) ∷ requests) s = limiter_after requests (is_allowed key now s).0

is_allowed-HasRoom :
    (key : Text) (now : ℕ) (s : SlidingWindowLimiter) → HasRoom s → HasRoom (is_allowed key now s).0
unfolding is_allowed
is_allowed-HasRoom key now s h k =
    let window = evict s.window_seconds now (window_of key s) in
    ground (
      arith,
      h key,
      h k,
      evict-length s.window_seconds now (window_of key s),
      length-append window (now ∷ []),
      window_of-insert key k (window ++ now ∷ []) s,
      window_of-insert key k window s,
    )

is_allowed-limits :
    (key : Text) (now : ℕ) (s : SlidingWindowLimiter)
    → ((is_allowed key now s).0.limit ≡ s.limit)
      × ((is_allowed key now s).0.window_seconds ≡ s.window_seconds)
unfolding is_allowed
is_allowed-limits key now s = ground arith

-- The same window for a key, under the same bounds.
abbrev pub AgreesOn : Text → SlidingWindowLimiter → SlidingWindowLimiter → Type 0
AgreesOn key s t =
    (window_of key t ≡ window_of key s)
    × (t.limit ≡ s.limit)
    × (t.window_seconds ≡ s.window_seconds)

-- A request of one key leaves the windows of the others.
pub is_allowed-AgreesOn :
    (key other : Text) (now : ℕ) (s : SlidingWindowLimiter)
    → (other == key) ≡ false
    → AgreesOn key s (is_allowed other now s).0
unfolding is_allowed
is_allowed-AgreesOn key other now s h =
    let window = evict s.window_seconds now (window_of other s) in
    ground (
      arith,
      h,
      window_of-insert other key (window ++ now ∷ []) s,
      window_of-insert other key window s,
    )

pub limiter_after-HasRoom :
    (requests : List (Text × ℕ)) (s : SlidingWindowLimiter)
    → HasRoom s
    → HasRoom (limiter_after requests s)
unfolding limiter_after
limiter_after-HasRoom [] s h = h
limiter_after-HasRoom ((key, now) ∷ requests) s h =
    limiter_after-HasRoom requests (is_allowed key now s).0 (is_allowed-HasRoom key now s h)

-- A refusal leaves the window that it looked at, which is full.
refused_window :
    (key : Text) (now : ℕ) (s : SlidingWindowLimiter)
    → (is_allowed key now s).1 ≡ false
    → (window_of key (is_allowed key now s).0 ≡ evict s.window_seconds now (window_of key s))
      × (s.limit ≤ length (evict s.window_seconds now (window_of key s)))
unfolding is_allowed
refused_window key now s h =
    let window = evict s.window_seconds now (window_of key s) in
    ground (arith, h, window_of-insert key key window s, ==_refl key)

-- When the oldest request has left the window, there is room.
later_allowed :
    (key : Text) (later oldest : ℕ) (rest : List ℕ) (s : SlidingWindowLimiter)
    → window_of key s ≡ oldest ∷ rest
    → length (window_of key s) ≤ s.limit
    → oldest + s.window_seconds < later
    → (is_allowed key later s).1 ≡ true
unfolding is_allowed evict
later_allowed key later oldest rest s w room past =
    ground (arith, w, room, past, evict-length s.window_seconds later rest)

later_waits :
    (draw : ℤ → ℤ → ℤ) (key : Text) (asked oldest : ℕ) (rest : List ℕ) (low high : ℤ) (j : ℕ)
    (s : SlidingWindowLimiter)
    → window_of key s ≡ oldest ∷ rest
    → draw low high ≡ pos j
    → oldest + s.window_seconds ≤ asked + reset_in draw key asked low high s
unfolding reset_in apply_jitter ◌+ℤ◌
later_waits draw key asked oldest rest low high j s w drawn =
    omega (arith, jittered, sum (oldest + s.window_seconds - asked) j)
  where
    jittered :
        reset_in draw key asked low high s
        ≡ pos_part (pos (oldest + s.window_seconds - asked) +ℤ pos j)
    jittered =
        ap
          (λ window. elim window [
            | [] ↦ 0
            | o ∷ _ ↦ apply_jitter draw (o + s.window_seconds - asked) low high
          ])
          w
        ∙ ap (λ i. pos_part (pos (oldest + s.window_seconds - asked) +ℤ i)) drawn

    sum : (a b : ℕ) → pos_part (pos a +ℤ pos b) ≡ a + b
    sum a b = ground arith

-- A wait of whole seconds is longer than the wait itself.
whole_seconds_exceeds : (second wait : ℕ) → 0 < second → wait < whole_seconds second wait * second
whole_seconds_exceeds second wait h = omega arith

pub negated_is_false : (b : Bool) → not b ≡ true → b ≡ false
negated_is_false true h = absurd (ground (arith, h))
negated_is_false false h = refl

nonempty : (xs : List ℕ) → 1 ≤ length xs → (y : ℕ) × (ys : List ℕ) × (xs ≡ y ∷ ys)
nonempty [] h = absurd (omega arith)
nonempty (x ∷ xs) h = (x, xs, refl)

pub limiter_after-limits :
    (requests : List (Text × ℕ)) (s : SlidingWindowLimiter)
    → ((limiter_after requests s).limit ≡ s.limit)
      × ((limiter_after requests s).window_seconds ≡ s.window_seconds)
unfolding limiter_after
limiter_after-limits [] s = (refl, refl)
limiter_after-limits ((key, now) ∷ requests) s =
    let (limit, width) = is_allowed-limits key now s in
    let (limits, widths) = limiter_after-limits requests (is_allowed key now s).0 in
    (limits ∙ limit, widths ∙ width)

-- At the limiter: a refusal, and a request of the same key after the wait, the key's window being the
-- same as after the refusal.
pub wait_suffices :
    (draw : ℤ → ℤ → ℤ) (low high : ℤ) (j second : ℕ) (key : Text) (now asked later : ℕ)
    (s t : SlidingWindowLimiter)
    → draw low high ≡ pos j
    → 0 < second
    → 1 ≤ s.limit
    → HasRoom s
    → (is_allowed key now s).1 ≡ false
    → let s' = (is_allowed key now s).0 in
      AgreesOn key s' t
      → asked + whole_seconds second (reset_in draw key asked low high s') * second ≤ later
      → (is_allowed key later t).1 ≡ true
wait_suffices draw low high j second key now asked later s t drawn positive some_limit room refused
      agrees waited =
    let s' = (is_allowed key now s).0 in
    let (left, full) = refused_window key now s refused in
    let (limit, width) = is_allowed-limits key now s in
    let room' = is_allowed-HasRoom key now s room key in
    let (oldest, rest, window) =
      nonempty (window_of key s') (ground (arith, ap length left, full, some_limit)) in
    later_allowed key later oldest rest t (agrees.0 ∙ window)
      (omega (arith, ap length agrees.0, agrees.1, room'))
      (omega (
        arith,
        agrees.2,
        later_waits draw key asked oldest rest low high j s' window drawn,
        whole_seconds_exceeds second (reset_in draw key asked low high s') positive,
        waited,
      ))
