-- ===== src/Limits/Window.antt =====
-- `SlidingWindowLimiter` of ingestor/rate_limiting_advanced.py against the log of all requests that
-- it has let through.
use data_pipeline_async.Base.{
  ℕ, ◌+◌, ◌≤◌, ◌≡◌, refl, Bool, List, [], ◌∷◌, ◌++◌, length, keep, leb, text_key, arith,
}
use data_pipeline_async.Limits.{evict}

-- Ascending numbers between two bounds.
abbrev pub IsAscending : ℕ → List ℕ → ℕ → Type 0
IsAscending lo [] hi = lo ≤ hi
IsAscending lo (t ∷ ts) hi = (lo ≤ t) × IsAscending t ts hi

-- A request at `t` still counts at `now`.
abbrev pub is_live : ℕ → ℕ → ℕ → Bool
is_live width now t = leb now (t + width)

pub IsAscending-snoc :
    (lo : ℕ) (ts : List ℕ) (hi now : ℕ)
    → IsAscending lo ts hi
    → hi ≤ now
    → IsAscending lo (ts ++ now ∷ []) now
IsAscending-snoc lo [] hi now h le = omega arith
IsAscending-snoc lo (t ∷ ts) hi now h le = (h.0, IsAscending-snoc t ts hi now h.1 le)

pub IsAscending-weaken :
    (lo' lo : ℕ) (ts : List ℕ) (hi hi' : ℕ)
    → IsAscending lo ts hi
    → lo' ≤ lo
    → hi ≤ hi'
    → IsAscending lo' ts hi'
IsAscending-weaken lo' lo [] hi hi' h a b = omega arith
IsAscending-weaken lo' lo (t ∷ ts) hi hi' h a b =
    (omega arith, IsAscending-weaken t t ts hi hi' h.1 (omega arith) b)

module _ (width : ℕ) where
  pub evict-length : (now : ℕ) (ts : List ℕ) → length (evict width now ts) ≤ length ts
  unfolding evict
  evict-length now [] = omega arith
  evict-length now (t ∷ ts) = ground (arith, evict-length now ts)

  pub evict-IsAscending :
      (lo now : ℕ) (ts : List ℕ) (hi : ℕ)
      → IsAscending lo ts hi
      → IsAscending lo (evict width now ts) hi
  unfolding evict
  evict-IsAscending lo now [] hi h = h
  evict-IsAscending lo now (t ∷ ts) hi h =
      ground (
        arith,
        evict-IsAscending t now ts hi h.1,
        IsAscending-weaken lo t (evict width now ts) hi hi,
      )

  keep-live_all :
      (lo now : ℕ) (ts : List ℕ) (hi : ℕ)
      → IsAscending lo ts hi
      → now ≤ lo + width
      → keep (is_live width now) ts ≡ ts
  keep-live_all lo now [] hi h le = refl
  keep-live_all lo now (t ∷ ts) hi h le = ground (arith, keep-live_all t now ts hi h.1)

  -- On ascending times the loop from the front removes exactly the expired ones.
  pub evict-eq-keep :
      (lo now : ℕ) (ts : List ℕ) (hi : ℕ)
      → IsAscending lo ts hi
      → evict width now ts ≡ keep (is_live width now) ts
  unfolding evict
  evict-eq-keep lo now [] hi h = refl
  evict-eq-keep lo now (t ∷ ts) hi h =
      ground (arith, evict-eq-keep t now ts hi h.1, keep-live_all t now ts hi h.1)

  -- What was expired before is expired now.
  pub keep-live_later :
      (before now : ℕ) (ts : List ℕ)
      → before ≤ now
      → keep (is_live width now) (keep (is_live width before) ts) ≡ keep (is_live width now) ts
  keep-live_later before now [] le = refl
  keep-live_later before now (t ∷ ts) le = ground (arith, keep-live_later before now ts le)

  pub keep-append :
      (now : ℕ) (xs ys : List ℕ)
      → keep (is_live width now) (xs ++ ys)
        ≡ keep (is_live width now) xs ++ keep (is_live width now) ys
  keep-append now [] ys = refl
  keep-append now (t ∷ ts) ys = ground (arith, keep-append now ts ys)
