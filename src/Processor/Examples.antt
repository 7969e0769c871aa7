-- ===== src/Processor/Examples.antt =====
-- Witnesses and tests of the consumer, with a decoder that reads the first byte.
use data_pipeline_async.Base.{
  ℕ, ◌≡◌, refl, true, false, none, some, [], ◌∷◌, eqb, ◌==◌, map, ltb, nat_key, pair_key, Text,
  if◌then◌else◌, arith,
}
use data_pipeline_async.Base.Dict.{lookup}
use data_pipeline_async.Processor.{
  Bytes, Message, Decoded, undecodable, event, not_dict, new_consumer, handle, consume_all, key_of,
}
use data_pipeline_async.Processor.Letters.{
  once_never_dead_letters, third_delivery_dead_letters, other_value_stops,
}
use data_pipeline_async.Processor.Order.{events_processed_in_order, events_of}

abbrev loads : Bytes → Decoded
loads [] = undecodable []
loads (c ∷ s) =
    if eqb c b'{'
    then event (some s) (some s)
    else (if eqb c b'[' then not_dict else undecodable [])

-- ASCII bytes for themselves, and the replacement character for any other.
abbrev decode : Bytes → Text
decode raw = map (λ c. if ltb c 128 then c else 65533) raw

abbrev good : Message
good = record { partition = 0; offset = 1; value = some (b'{' ∷ []) }

abbrev bad : Message
bad = record { partition = 0; offset = 2; value = some (255 ∷ []) }

abbrev list_value : Message
list_value = record { partition = 0; offset = 3; value = some (b'[' ∷ []) }

once_never_dead_letters_example :
    (consume_all decode loads ((good, true) ∷ (bad, true) ∷ []) new_consumer).dead_letters ≡ []
once_never_dead_letters_example =
    once_never_dead_letters decode loads ((good, true) ∷ (bad, true) ∷ []) (refl, (refl, tt))

third_delivery_dead_letters_example :
    let first = handle decode loads bad true new_consumer in
    let second = handle decode loads bad false first in
    let third = handle decode loads bad true second in
    (first.dead_letters ≡ [])
    × (second.dead_letters ≡ [])
    × (third.dead_letters
        ≡ record { source_partition = 0; source_offset = 2; reason = []; original = 65533 ∷ [] }
          ∷ [])
    × (lookup (0, 2) third.retry_counts ≡ none)
    × ((k : ℕ × ℕ) → (key_of bad == k) ≡ false → lookup k third.retry_counts ≡ none)
third_delivery_dead_letters_example =
    third_delivery_dead_letters decode loads bad (255 ∷ []) [] true false new_consumer refl refl
      refl

other_value_stops_example :
    consume_all decode loads ((list_value, true) ∷ (good, true) ∷ []) new_consumer
    ≡ record new_consumer { stopped = true }
other_value_stops_example =
    other_value_stops decode loads list_value true ((good, true) ∷ []) new_consumer refl refl

events_processed_in_order_example :
    ((consume_all decode loads ((bad, true) ∷ (good, true) ∷ []) new_consumer).processed
      ≡ events_of decode loads ((bad, true) ∷ (good, true) ∷ []))
    × ((consume_all decode loads ((bad, true) ∷ (good, true) ∷ []) new_consumer).stopped ≡ false)
events_processed_in_order_example =
    events_processed_in_order decode loads ((bad, true) ∷ (good, true) ∷ []) new_consumer refl
      (λ e. ground (arith, e), (λ e. ground (arith, e), tt))
