-- ===== src/Processor/Letters.antt =====
-- Which messages of services/processor/main.py become dead letters.
use data_pipeline_async.Base.{
  ℕ, ◌+◌, ◌≡◌, refl, ap, ◌∙◌, Bool, true, false, ◌||◌, Option, none, some, List, [], ◌∷◌, ◌++◌, leb,
  Text, nat_key, pair_key, ◌==◌, ==_refl, if-split, if-true, if-false, pair_beq_iff, Bool-cases,
  inl, inr, arith,
}
use data_pipeline_async.Base.Dict.{Dict, lookup, insert, lookup-insert, lookup-erase}
use data_pipeline_async.Processor.{
  Message, Decoded, Processed, done, value_error, attribute_error, process_message, Consumer,
  max_retries, new_consumer, key_of, attempt_of, settle_message, handle_value, handle, consume_all,
  Bytes,
}

-- Whether a message with the given partition and offset is delivered.
abbrev pub delivers : ℕ × ℕ → List (Message × Bool) → Bool
delivers k [] = false
delivers k ((m, _) ∷ rest) = (key_of m == k) || delivers k rest

abbrev pub IsDeliveredOnce : List (Message × Bool) → Type 0
IsDeliveredOnce [] = Unit
IsDeliveredOnce ((m, _) ∷ rest) = (delivers (key_of m) rest ≡ false) × IsDeliveredOnce rest

-- No message to come has a count.
abbrev IsUncounted : List (Message × Bool) → Dict (ℕ × ℕ) ℕ → Type 0
IsUncounted messages counts = (k : ℕ × ℕ) → delivers k messages ≡ true → lookup k counts ≡ none

settle-first :
    (decode : Bytes → Text) (sent : Bool) (m : Message) (raw : Bytes) (r : Processed) (c : Consumer)
    → (settle_message decode sent m raw 1 r c).dead_letters ≡ c.dead_letters
unfolding settle_message
settle-first decode sent m raw (done e) c = refl
settle-first decode sent m raw (value_error reason) c = refl
settle-first decode sent m raw attribute_error c = refl

-- The work on one message touches the counts of no other.
settle-other :
    (decode : Bytes → Text) (sent : Bool) (m : Message) (raw : Bytes) (attempt : ℕ) (r : Processed)
    (c : Consumer) (k : ℕ × ℕ)
    → (key_of m == k) ≡ false
    → lookup k (settle_message decode sent m raw attempt r c).retry_counts ≡ lookup k c.retry_counts
unfolding settle_message
settle-other decode sent m raw attempt (done e) c k other =
    lookup-erase (key_of m) k c.retry_counts ∙ rw other refl
settle-other decode sent m raw attempt (value_error reason) c k other =
    if-split {A = Consumer} (λ d. lookup k d.retry_counts ≡ lookup k c.retry_counts)
      (leb max_retries attempt) (λ _. lookup-erase (key_of m) k c.retry_counts ∙ rw other refl)
      (λ _. lookup-insert (key_of m) k attempt c.retry_counts ∙ rw other refl)
settle-other decode sent m raw attempt attribute_error c k other = refl

-- Another message is delivered later, if this one is not.
delivers-other :
    (k j : ℕ × ℕ) (rest : List (Message × Bool))
    → delivers k rest ≡ false
    → delivers j rest ≡ true
    → (k == j) ≡ false
delivers-other k j rest absent later = elim (Bool-cases (k == j)) [
  | inl same ↦
      absurd (ground (arith, absent, later, ap (λ i. delivers i rest) ((pair_beq_iff k j).0 same)))
  | inr other ↦ other
]

attempt_of-new :
    (m : Message) (counts : Dict (ℕ × ℕ) ℕ)
    → lookup (key_of m) counts ≡ none
    → attempt_of m counts ≡ 1
attempt_of-new m counts new = rw (attempt_of, new) refl

attempt_of-insert :
    (m : Message) (n : ℕ) (counts : Dict (ℕ × ℕ) ℕ)
    → attempt_of m (insert (key_of m) n counts) ≡ n + 1
attempt_of-insert m n counts = rw (attempt_of, found) refl
  where
    found : lookup (key_of m) (insert (key_of m) n counts) ≡ some n
    found = lookup-insert (key_of m) (key_of m) n counts ∙ if-true _ _ _ (==_refl (key_of m))

module _ (decode : Bytes → Text) (loads : Bytes → Decoded) where
  handle_bad :
      (m : Message) (raw : Bytes) (reason : Text) (sent : Bool) (attempt : ℕ) (c : Consumer)
      → m.value ≡ some raw
      → process_message (loads raw) ≡ value_error reason
      → attempt_of m c.retry_counts ≡ attempt
      → handle decode loads m sent c
        ≡ settle_message decode sent m raw attempt (value_error reason) c
  unfolding handle
  handle_bad m raw reason sent attempt c v bad e =
      ap (λ x. handle_value decode loads m sent x c) v
      ∙ ap (λ a. settle_message decode sent m raw a (process_message (loads raw)) c) e
      ∙ ap (λ r. settle_message decode sent m raw attempt r c) bad

  handle_value-other :
      (m : Message) (sent : Bool) (v : Option Bytes) (c : Consumer) (k : ℕ × ℕ)
      → (key_of m == k) ≡ false
      → lookup k (handle_value decode loads m sent v c).retry_counts ≡ lookup k c.retry_counts
  handle_value-other m sent none c k other = refl
  handle_value-other m sent (some raw) c k other =
      settle-other decode sent m raw (attempt_of m c.retry_counts) (process_message (loads raw)) c k
        other

  handle_value-first :
      (m : Message) (sent : Bool) (v : Option Bytes) (c : Consumer)
      → lookup (key_of m) c.retry_counts ≡ none
      → (handle_value decode loads m sent v c).dead_letters ≡ c.dead_letters
  handle_value-first m sent none c new = refl
  handle_value-first m sent (some raw) c new =
      let r = process_message (loads raw) in
      ap (λ a. (settle_message decode sent m raw a r c).dead_letters)
        (attempt_of-new m c.retry_counts new)
      ∙ settle-first decode sent m raw r c

  fresh_run :
      (messages : List (Message × Bool)) (c : Consumer)
      → IsDeliveredOnce messages
      → IsUncounted messages c.retry_counts
      → (consume_all decode loads messages c).dead_letters ≡ c.dead_letters
  unfolding consume_all handle
  fresh_run [] c once un = refl
  fresh_run ((m, sent) ∷ rest) c once un =
      if-split {A = Consumer} (λ d. d.dead_letters ≡ c.dead_letters) c.stopped (λ _. refl)
        (λ _.
          fresh_run rest (handle decode loads m sent c) once.1 (λ k later.
            handle_value-other m sent m.value c k (delivers-other (key_of m) k rest once.0 later)
            ∙ un k (ground (arith, later)))
          ∙ handle_value-first m sent m.value c
              (un (key_of m) (ground (arith, ==_refl (key_of m)))))

  -- If no two messages share their partition and offset, as when the broker delivers each message
  -- once, no message is ever forwarded to the dead-letter topic, whatever the messages hold.
  pub once_never_dead_letters :
      (messages : List (Message × Bool))
      → IsDeliveredOnce messages
      → (consume_all decode loads messages new_consumer).dead_letters ≡ []
  once_never_dead_letters messages once = fresh_run messages new_consumer once (λ k h. refl)

  -- A message that fails with a handled error and has no count is dead-lettered by its third
  -- delivery in a row and not before: if the sends succeed, one letter is sent, with the reason and
  -- the text that its bytes decode to with replacements, its count is cleared, and the counts of other messages are as before.
  pub third_delivery_dead_letters :
      (m : Message) (raw : Bytes) (reason : Text) (sent sent' : Bool) (c : Consumer)
      → m.value ≡ some raw
      → process_message (loads raw) ≡ value_error reason
      → lookup (key_of m) c.retry_counts ≡ none
      → let first = handle decode loads m sent c in
        let second = handle decode loads m sent' first in
        let third = handle decode loads m true second in
        (first.dead_letters ≡ c.dead_letters)
        × (second.dead_letters ≡ c.dead_letters)
        × (third.dead_letters
            ≡ c.dead_letters
              ++ record {
                source_partition = m.partition;
                source_offset = m.offset;
                reason = reason;
                original = decode raw;
              }
                ∷ [])
        × (lookup (key_of m) third.retry_counts ≡ none)
        × ((k : ℕ × ℕ)
            → (key_of m == k) ≡ false
            → lookup k third.retry_counts ≡ lookup k c.retry_counts)
  unfolding settle_message
  third_delivery_dead_letters m raw reason sent sent' c v bad new = (
    ap (λ d. d.dead_letters) first,
    ap (λ d. d.dead_letters) second,
    ap (λ d. d.dead_letters) third,
    ap (λ d. lookup (key_of m) d.retry_counts) third
        ∙ lookup-erase (key_of m) (key_of m) _
        ∙ if-true _ _ _ (==_refl (key_of m)),
    λ k other.
        ap (λ d. lookup k d.retry_counts) third
        ∙ lookup-erase (key_of m) k _
        ∙ if-false _ _ _ other
        ∙ lookup-insert (key_of m) k 2 _
        ∙ if-false _ _ _ other
        ∙ lookup-insert (key_of m) k 1 _
        ∙ if-false _ _ _ other,
  )
    where
      counted : ℕ → Dict (ℕ × ℕ) ℕ → Consumer
      counted n counts = record c { retry_counts = insert (key_of m) n counts }

      c1 : Consumer
      c1 = counted 1 c.retry_counts

      c2 : Consumer
      c2 = counted 2 c1.retry_counts

      first : handle decode loads m sent c ≡ c1
      first = handle_bad m raw reason sent 1 c v bad (attempt_of-new m c.retry_counts new)

      second : handle decode loads m sent' (handle decode loads m sent c) ≡ c2
      second =
          ap (handle decode loads m sent') first
          ∙ handle_bad m raw reason sent' 2 c1 v bad (attempt_of-insert m 1 c.retry_counts)

      third :
          handle decode loads m true (handle decode loads m sent' (handle decode loads m sent c))
          ≡ settle_message decode true m raw 3 (value_error reason) c2
      third =
          ap (handle decode loads m true) second
          ∙ handle_bad m raw reason true 3 c2 v bad (attempt_of-insert m 2 c1.retry_counts)

  consume_all-stopped :
      (messages : List (Message × Bool)) (c : Consumer)
      → c.stopped ≡ true
      → consume_all decode loads messages c ≡ c
  unfolding consume_all
  consume_all-stopped [] c off = refl
  consume_all-stopped ((m, sent) ∷ rest) c off = if-true c.stopped _ _ off

  -- No value at all, or JSON that is no object.
  abbrev pub IsNoObject : Option Bytes → Type 0
  IsNoObject none = Unit
  IsNoObject (some raw) = loads raw ≡ Decoded.not_dict

  handle_value-stops :
      (m : Message) (sent : Bool) (v : Option Bytes) (c : Consumer)
      → IsNoObject v
      → handle_value decode loads m sent v c ≡ record c { stopped = true }
  unfolding settle_message
  handle_value-stops m sent none c h = refl
  handle_value-stops m sent (some raw) c h =
      ap (λ d. settle_message decode sent m raw (attempt_of m c.retry_counts) (process_message d) c)
        h

  -- A message that has no value, or whose value is JSON but no object, ends a consumer that runs:
  -- neither it nor a message after it is processed, counted or dead-lettered.
  pub other_value_stops :
      (m : Message) (sent : Bool) (rest : List (Message × Bool)) (c : Consumer)
      → c.stopped ≡ false
      → IsNoObject m.value
      → consume_all decode loads ((m, sent) ∷ rest) c ≡ record c { stopped = true }
  unfolding consume_all handle
  other_value_stops m sent rest c on v =
      if-false c.stopped _ _ on
      ∙ ap (consume_all decode loads rest) (handle_value-stops m sent m.value c v)
      ∙ consume_all-stopped rest (record c { stopped = true }) refl
