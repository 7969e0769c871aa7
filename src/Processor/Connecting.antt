-- ===== src/Processor/Connecting.antt =====
-- The loop of services/processor/main.py that connects the consumer to its broker.
use data_pipeline_async.Base.{
  ℕ, zero, suc, ◌+◌, ◌≤◌, ◌<◌, ◌≡◌, refl, ap, ◌∙◌, Bool, true, false, leb, if-true, if-false,
  Bool-cases, inl, inr, arith,
}
use data_pipeline_async.Processor.{Connection, retry_max_attempts, connect_from, connect}

-- From an attempt on, the attempts before `k` fail.
abbrev pub AllFail : (ℕ → Bool) → ℕ → ℕ → Type 0
AllFail starts from k = (j : ℕ) → from ≤ j → j < k → starts j ≡ false

abbrev ended_after : Bool → ℕ → Connection
ended_after up n = record { is_up = up; sleeps = n }

connect_from-up :
    (starts : ℕ → Bool) (attempt left sleeps k total : ℕ)
    → attempt + left ≡ retry_max_attempts + 1
    → attempt ≤ k
    → k ≤ retry_max_attempts
    → total + attempt ≡ sleeps + k
    → starts k ≡ true
    → AllFail starts attempt k
    → connect_from starts attempt left sleeps ≡ ended_after true total
unfolding connect_from
connect_from-up starts attempt zero sleeps k total room h h' sum up failing =
    absurd (omega (arith, room, h, h'))
connect_from-up starts attempt (suc left) sleeps k total room h h' sum up failing =
    elim (Bool-cases (leb k attempt)) [
      | inl reached ↦
          if-true (starts attempt) _ _ (ap starts (same reached) ∙ up)
          ∙ ap (ended_after true) (ground (arith, reached, h, sum))
      | inr before ↦
          if-false (starts attempt) _ _ (failing attempt (omega arith) (ground (arith, before)))
          ∙ if-false (leb retry_max_attempts attempt) _ _ (ground (arith, before, h'))
          ∙ connect_from-up starts (attempt + 1) left (sleeps + 1) k total (omega (arith, room))
              (ground (arith, before)) h' (omega (arith, sum)) up
              (λ j from below. failing j (omega (arith, from)) below)
    ]
  where
    same : leb k attempt ≡ true → attempt ≡ k
    same reached = ground (arith, reached, h)

connect_from-down :
    (starts : ℕ → Bool) (attempt left sleeps total : ℕ)
    → attempt + suc left ≡ retry_max_attempts + 1
    → total ≡ sleeps + left
    → AllFail starts attempt (retry_max_attempts + 1)
    → connect_from starts attempt (suc left) sleeps ≡ ended_after false total
unfolding connect_from
connect_from-down starts attempt zero sleeps total room sum failing =
    if-false (starts attempt) _ _ (failing attempt (omega arith) (omega (arith, room)))
    ∙ if-true (leb retry_max_attempts attempt) _ _ (ground (arith, room))
    ∙ ap (ended_after false) (omega (arith, sum))
connect_from-down starts attempt (suc left) sleeps total room sum failing =
    if-false (starts attempt) _ _ (failing attempt (omega arith) (omega (arith, room)))
    ∙ if-false (leb retry_max_attempts attempt) _ _ (ground (arith, room))
    ∙ connect_from-down starts (attempt + 1) left (sleeps + 1) total (omega (arith, room))
        (omega (arith, sum)) (λ j from below. failing j (omega (arith, from)) below)

-- If attempt `waits + 1` of at most 12 is the first at which the broker answers, the loop ends
-- connected, after that many sleeps.
pub connects_at_first :
    (starts : ℕ → Bool) (waits : ℕ)
    → waits < retry_max_attempts
    → starts (1 + waits) ≡ true
    → AllFail starts 1 (1 + waits)
    → connect starts ≡ record { is_up = true; sleeps = waits }
unfolding connect
connects_at_first starts waits h up failing =
    connect_from-up starts 1 retry_max_attempts 0 (1 + waits) waits refl (omega arith)
      (omega (arith, h)) (omega arith) up failing

-- If none of the 12 attempts succeeds, the loop raises after 11 sleeps.
pub gives_up_after_twelve :
    (starts : ℕ → Bool)
    → AllFail starts 1 (retry_max_attempts + 1)
    → connect starts ≡ record { is_up = false; sleeps = 11 }
unfolding connect
gives_up_after_twelve starts failing = connect_from-down starts 1 11 0 11 refl refl failing
