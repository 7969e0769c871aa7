-- ===== src/Retry/Delays.antt =====
-- The sleeps of `exponential_backoff` (libs/platform/retry.py), in fifths of a clock tick.
use data_pipeline_async.Base.{ℕ, ◌+◌, ◌*◌, ◌^◌, ◌≤◌, ◌<◌, ◌≡◌, true, false, arith}
use data_pipeline_async.Base.Int.{ℤ, pos, sub_ℕ, ◌+ℤ◌, ◌≤ℤ◌, +ℤ_parts}
use data_pipeline_async.Retry.{Policy, raw_delay, delay_after}

module _ (draw : ℕ → ℤ → ℤ → ℤ) (p : Policy) where
  -- `random.uniform(a, b)` answers between its arguments.
  abbrev pub IsUniform : Type 0
  IsUniform = (k : ℕ) (lo hi : ℤ) → lo ≤ℤ hi → (lo ≤ℤ draw k lo hi) × (draw k lo hi ≤ℤ hi)

  -- When `random.uniform` answers between its arguments, a sleep differs from the capped delay
  -- `min(base_delay * 2**k, max_delay)` by at most a fifth of it, and is that delay without jitter.
  pub delay_within_fifth :
      (k : ℕ)
      → IsUniform
      → (pos (4 * raw_delay p k) ≤ℤ delay_after draw p k)
        × (delay_after draw p k ≤ℤ pos (6 * raw_delay p k))
        × (p.jitter ≡ false → delay_after draw p k ≡ pos (5 * raw_delay p k))
  unfolding delay_after
  delay_within_fifth k uniform = ground (
    arith,
    uniform k (sub_ℕ 0 (raw_delay p k)) (pos (raw_delay p k)),
    +ℤ_parts (pos (5 * raw_delay p k)) (draw k (sub_ℕ 0 (raw_delay p k)) (pos (raw_delay p k))),
  )

  -- The cap does not hold for the sleep itself: with jitter on, once the exponential delay has
  -- reached a positive `max_delay` and `random.uniform` answers its upper end, the sleep is longer
  -- than `max_delay`.
  pub jitter_passes_max_delay :
      (k : ℕ)
      → p.jitter ≡ true
      → 0 < p.max_delay
      → p.max_delay ≤ p.base_delay * 2 ^ k
      → draw k (sub_ℕ 0 (raw_delay p k)) (pos (raw_delay p k)) ≡ pos (raw_delay p k)
      → pos (5 * p.max_delay + 1) ≤ℤ delay_after draw p k
  unfolding delay_after ◌+ℤ◌
  jitter_passes_max_delay k j positive capped top = ground arith
