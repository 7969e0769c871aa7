-- ===== src/Processor/Counting.antt =====
-- The retry counts of services/processor/main.py, and when they lead to a dead letter.
use data_pipeline_async.Base.{
  ℕ, ◌<◌, ◌≡◌, Bool, Option, none, some, List, [], ◌∷◌, leb, Text, nat_key, pair_key, if-split,
  arith,
}
use data_pipeline_async.Base.Dict.{Dict, lookup, lookup-insert, lookup-erase}
use data_pipeline_async.Processor.{
  Message, Decoded, Processed, done, value_error, attribute_error, process_message, Consumer,
  max_retries, new_consumer, key_of, attempt_of, settle_message, handle_value, handle, consume_all,
  Bytes,
}

-- Every count is below the limit.
abbrev pub IsCounting : Dict (ℕ × ℕ) ℕ → Type 0
IsCounting counts = (k : ℕ × ℕ) (n : ℕ) → lookup k counts ≡ some n → n < max_retries

settle-IsCounting :
    (decode : Bytes → Text) (sent : Bool) (m : Message) (raw : Bytes) (attempt : ℕ) (r : Processed)
    (c : Consumer)
    → IsCounting c.retry_counts
    → IsCounting (settle_message decode sent m raw attempt r c).retry_counts
unfolding settle_message
settle-IsCounting decode sent m raw attempt (done e) c h =
    λ k n found. ground (arith, h k n, found, lookup-erase (key_of m) k c.retry_counts)
settle-IsCounting decode sent m raw attempt (value_error reason) c h =
    if-split {A = Consumer} (λ d. IsCounting d.retry_counts) (leb max_retries attempt)
      (λ _ k n found. ground (arith, h k n, found, lookup-erase (key_of m) k c.retry_counts))
      (λ below k n found.
        ground (arith, h k n, found, below, lookup-insert (key_of m) k attempt c.retry_counts))
settle-IsCounting decode sent m raw attempt attribute_error c h = h

module _ (decode : Bytes → Text) (loads : Bytes → Decoded) where
  handle_value-IsCounting :
      (m : Message) (sent : Bool) (v : Option Bytes) (c : Consumer)
      → IsCounting c.retry_counts
      → IsCounting (handle_value decode loads m sent v c).retry_counts
  handle_value-IsCounting m sent none c h = h
  handle_value-IsCounting m sent (some raw) c h =
      settle-IsCounting decode sent m raw (attempt_of m c.retry_counts)
        (process_message (loads raw)) c h

  pub consume_all-IsCounting :
      (messages : List (Message × Bool)) (c : Consumer)
      → IsCounting c.retry_counts
      → IsCounting (consume_all decode loads messages c).retry_counts
  unfolding consume_all handle
  consume_all-IsCounting [] c h = h
  consume_all-IsCounting ((m, sent) ∷ rest) c h =
      if-split {A = Consumer} (λ d. IsCounting d.retry_counts) c.stopped (λ _. h)
        (λ _.
          consume_all-IsCounting rest (handle decode loads m sent c)
            (handle_value-IsCounting m sent m.value c h))

  -- Whatever is delivered to a new consumer, in any order and however often, no retry count ever
  -- reaches the limit of three attempts.
  pub counts_below_limit :
      (messages : List (Message × Bool)) (k : ℕ × ℕ) (n : ℕ)
      → lookup k (consume_all decode loads messages new_consumer).retry_counts ≡ some n
      → n < max_retries
  counts_below_limit messages =
      consume_all-IsCounting messages new_consumer (λ k n found. ground (arith, found))
