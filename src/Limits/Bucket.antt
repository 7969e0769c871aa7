-- ===== src/Limits/Bucket.antt =====
-- `TokenBucketLimiter` of ingestor/rate_limiting_advanced.py: what it grants over time, and how long
-- it asks a client to wait.
use data_pipeline_async.Base.{
  ℕ, ◌+◌, ◌-◌, ◌*◌, ◌≤◌, ◌≡◌, ◌⊎◌, inl, inr, refl, ap, false, Bool-cases, if-split, ==_refl, Bool,
  Option, none, some, List, [], ◌∷◌, leb, Text, text_key, text_beq_iff, ◌==◌, if◌then◌else◌, arith,
}
use mathlib.Core.Path.{subst}
use data_pipeline_async.Base.Int.{ℤ, pos, ◌+ℤ◌}
use data_pipeline_async.Base.Dict.{Dict, insert, lookup, lookup-insert}
use data_pipeline_async.Limits.{TokenBucketLimiter, full, bucket_of, refilled, consume, scaled_wait}

-- A request: the tokens it asks for, and the two readings of the clock.
pub record Request : Type 0 where
  pub key : Text
  pub tokens : ℕ
  pub created : ℕ
  pub now : ℕ

-- The clock does not go back.
abbrev pub IsOrdered : ℕ → List Request → ℕ → Type 0
IsOrdered lo [] hi = lo ≤ hi
IsOrdered lo (r ∷ rest) hi = (lo ≤ r.created) × (r.created ≤ r.now) × IsOrdered r.now rest hi

-- Requests one after the other, with the tokens granted, key by key, the latest first.
unfoldable pub history :
    List Request → TokenBucketLimiter → List (Text × ℕ) → TokenBucketLimiter × List (Text × ℕ)
history [] s log = (s, log)
history (r ∷ rest) s log =
    let (s', granted, _) = consume r.key r.tokens r.created r.now s in
    history rest s' (if granted then (r.key, r.tokens) ∷ log else log)

-- The tokens granted to a key.
abbrev pub total : Text → List (Text × ℕ) → ℕ
total key [] = 0
total key ((k, n) ∷ log) = (if k == key then n else 0) + total key log

-- What comes in between two times.
income :
    (refill stamp now : ℕ) → stamp ≤ now → (now - stamp) * refill + stamp * refill ≡ now * refill
income refill stamp now h =
    let e : (now - stamp) + stamp ≡ now = omega arith in omega (arith, ap (λ (t : ℕ). t * refill) e)

module _ (start : ℕ) (s : TokenBucketLimiter) where
  -- The tokens granted since `start` and those in the bucket are covered by the capacity and the
  -- refill since then.
  abbrev Covered : ℕ → ℕ → ℕ × ℕ → Type 0
  Covered last granted (current, stamp) =
      (start ≤ stamp)
      × (stamp ≤ last)
      × (granted * s.unit + current + start * s.refill ≤ full s + stamp * s.refill)

  -- A bucket that has granted nothing since `start` may hold anything.
  abbrev Funded : ℕ → ℕ → Option (ℕ × ℕ) → Type 0
  Funded last granted none = granted ≡ 0
  Funded last granted (some b) = (granted ≡ 0) ⊎ Covered last granted b

  -- What is in the bucket after a refill is capped, however long the bucket was idle.
  refilled-Covered :
      (granted created now last : ℕ) (o : Option (ℕ × ℕ))
      → Funded last granted o
      → start ≤ last
      → last ≤ created
      → created ≤ now
      → Covered now granted (refilled now (elim o [ none ↦ (full s, created) | some b ↦ b ]) s, now)
  refilled-Covered granted created now last none f a b c =
      (omega arith, omega arith, rw f (omega (arith, income s.refill start now (omega arith))))
  refilled-Covered granted created now last (some (current, stamp)) (inl f) a b c =
      (omega arith, omega arith, rw f (omega (arith, income s.refill start now (omega arith))))
  refilled-Covered granted created now last (some (current, stamp)) (inr f) a b c =
      let h : stamp ≤ now = omega (arith, f) in
      (omega arith, omega arith, omega (arith, f, income s.refill stamp now h))

  Funded-later :
      (granted last now : ℕ) (o : Option (ℕ × ℕ))
      → Funded last granted o
      → last ≤ now
      → Funded now granted o
  Funded-later granted last now none f a = f
  Funded-later granted last now (some b) (inl f) a = inl f
  Funded-later granted last now (some b) (inr f) a = inr (omega (arith, f))

  spend-Covered :
      (granted tokens now current : ℕ)
      → Covered now granted (current, now)
      → tokens * s.unit ≤ current
      → Covered now (tokens + granted) (current - tokens * s.unit, now)
  spend-Covered granted tokens now current f h = omega arith

  -- A key whose bucket is written holds what is covered, another one what it held.
  write-Funded :
      (key k : Text) (b : ℕ × ℕ) (granted granted' last now : ℕ) (buckets : Dict Text (ℕ × ℕ))
      → Funded last granted (lookup k buckets)
      → last ≤ now
      → (key ≡ k → Covered now granted' b)
      → ((key == k) ≡ false → granted' ≡ granted)
      → Funded now granted' (lookup k (insert key b buckets))
  write-Funded key k b granted granted' last now buckets f a covered others =
      rw (lookup-insert key k b buckets) (elim (Bool-cases (key == k)) [
        | inl same ↦ rw same (inr (covered ((text_beq_iff key k).0 same)))
        | inr apart ↦
            rw (apart, others apart) (Funded-later granted last now (lookup k buckets) f a)
      ])

abbrev Funds : ℕ → ℕ → TokenBucketLimiter → List (Text × ℕ) → Type 0
Funds start last s log = (key : Text) → Funded start s last (total key log) (lookup key s.buckets)

consume_config :
    (key : Text) (tokens created now : ℕ) (s : TokenBucketLimiter)
    → let s' = (consume key tokens created now s).0 in
      (s'.capacity ≡ s.capacity) × (s'.unit ≡ s.unit) × (s'.refill ≡ s.refill)
unfolding consume
consume_config key tokens created now s = ground arith

abbrev granted_log : Request → TokenBucketLimiter → List (Text × ℕ) → List (Text × ℕ)
granted_log r s log =
    if (consume r.key r.tokens r.created r.now s).1 then (r.key, r.tokens) ∷ log else log

consume-Funds :
    (start last : ℕ) (r : Request) (s : TokenBucketLimiter) (log : List (Text × ℕ))
    → start ≤ last
    → last ≤ r.created
    → r.created ≤ r.now
    → Funds start last s log
    → Funds start r.now (consume r.key r.tokens r.created r.now s).0 (granted_log r s log)
unfolding consume
consume-Funds start last r s log a b c f k =
    let bucket = bucket_of r.key r.created s in
    let current = refilled r.now bucket s in
    let cost = r.tokens * s.unit in
    let covered : Covered start s r.now (total r.key log) (current, r.now) =
      refilled-Covered start s (total r.key log) r.created r.now last (lookup r.key s.buckets)
        (f r.key) a b c in
    let later : last ≤ r.now = omega arith in
    if-split {A = TokenBucketLimiter × Bool × ℕ}
      (λ x.
        Funded start x.0 r.now (total k (if x.1 then (r.key, r.tokens) ∷ log else log))
          (lookup k x.0.buckets))
      (leb cost current)
      (λ granted.
        write-Funded start s r.key k (current - cost, r.now) (total k log)
          (total k ((r.key, r.tokens) ∷ log)) last r.now s.buckets (f k) later
          (λ same.
            subst
              (λ j.
                Covered start s r.now (total j ((r.key, r.tokens) ∷ log)) (current - cost, r.now))
              same
              (rw (==_refl r.key) (
                spend-Covered start s (total r.key log) r.tokens r.now current covered
                  (ground (arith, granted)))))
          (λ apart. ground (arith, apart)))
      (λ refused.
        write-Funded start s r.key k (current, r.now) (total k log) (total k log) last r.now
          s.buckets (f k) later
          (λ same. subst (λ j. Covered start s r.now (total j log) (current, r.now)) same covered)
          (λ apart. refl))

history-Funds :
    (start last : ℕ) (requests : List Request) (end : ℕ) (s : TokenBucketLimiter)
    (log : List (Text × ℕ))
    → start ≤ last
    → IsOrdered last requests end
    → Funds start last s log
    → let (s', log') = history requests s log in Funds start end s' log'
unfolding history
history-Funds start last [] end s log a o f =
    λ k. Funded-later start s (total k log) last end (lookup k s.buckets) (f k) o
history-Funds start last (r ∷ rest) end s log a o f =
    history-Funds start r.now rest end (consume r.key r.tokens r.created r.now s).0
      (granted_log r s log) (omega arith) o.2 (consume-Funds start last r s log a o.0 o.1 f)

history_config :
    (requests : List Request) (s : TokenBucketLimiter) (log : List (Text × ℕ))
    → let (s', _) = history requests s log in
      (s'.capacity ≡ s.capacity) × (s'.unit ≡ s.unit) × (s'.refill ≡ s.refill)
unfolding history
history_config [] s log = (refl, refl, refl)
history_config (r ∷ rest) s log = ground (
  arith,
  consume_config r.key r.tokens r.created r.now s,
  history_config rest (consume r.key r.tokens r.created r.now s).0 (granted_log r s log),
)

Funded-bound :
    (start last : ℕ) (s : TokenBucketLimiter) (granted : ℕ) (o : Option (ℕ × ℕ))
    → Funded start s last granted o
    → start ≤ last
    → granted * s.unit ≤ full s + (last - start) * s.refill
Funded-bound start last s granted none f h = rw f (omega arith)
Funded-bound start last s granted (some b) (inl f) h = rw f (omega arith)
Funded-bound start last s granted (some (current, stamp)) (inr f) h =
    omega (arith, f, income s.refill start last h, income s.refill stamp last f.1)

-- Between two times, a limiter grants a key, whatever was asked before and however long the bucket
-- has been idle, and whatever is asked for it and for other keys in between, at most the burst of
-- its capacity and what is refilled from the first time to the second, while the clock does not go
-- back.
pub grants_bounded_by_refill :
    (s : TokenBucketLimiter) (start end : ℕ) (requests : List Request) (key : Text)
    → IsOrdered start requests end
    → start ≤ end
    → let (_, log) = history requests s [] in
      total key log * s.unit ≤ s.capacity * s.unit + (end - start) * s.refill
grants_bounded_by_refill s start end requests key o h =
    let (s', log) = history requests s [] in
    let funds : Funds start end s' log =
      history-Funds start start requests end s [] (omega arith) o
        (λ k. unspent k (lookup k s.buckets)) in
    ground (
      arith,
      history_config requests s [],
      Funded-bound start end s' (total key log) (lookup key s'.buckets) (funds key) h,
    )
  where
    unspent : (k : Text) (b : Option (ℕ × ℕ)) → Funded start s start (total k []) b
    unspent k none = refl
    unspent k (some b) = inl refl

income_split :
    (refill stamp now later : ℕ)
    → stamp ≤ now
    → now ≤ later
    → (later - stamp) * refill ≡ (now - stamp) * refill + (later - now) * refill
income_split refill stamp now later a b =
    let e : later - stamp ≡ (now - stamp) + (later - now) = omega arith in
    omega (arith, ap (λ (t : ℕ). t * refill) e)

-- With no jitter the estimate of `seconds_until_token` is exact: for a key whose bucket was last
-- written by `now`, a request for one token at `later` is granted exactly if the refill since `now`
-- amounts to the estimate (which is measured in refill). The capacity is one token or more.
pub wait_is_exact :
    (draw : ℤ → ℤ → ℤ) (key : Text) (created now later : ℕ) (s : TokenBucketLimiter)
    → draw (pos 0) (pos 0) ≡ pos 0
    → s.unit ≤ full s
    → (bucket_of key created s).1 ≤ now
    → now ≤ later
    → (consume key 1 created later s).1
      ≡ leb (scaled_wait draw key created now (pos 0) (pos 0) s) ((later - now) * s.refill)
unfolding consume scaled_wait ◌+ℤ◌
wait_is_exact draw key created now later s d size a b =
    let stamp : ℕ = (bucket_of key created s).1 in
    rw d (ground (arith, income_split s.refill stamp now later a b))
