-- ===== src/Requests/Examples.antt =====
-- Witnesses of the validators, with lowering and parsing that know little.
use data_pipeline_async.Base.{
  ◌≤◌, ◌≡◌, refl, false, Option, none, some, [], ◌∷◌, map, length, eqb, Text, if◌then◌else◌, arith,
}
use data_pipeline_async.Records.{RecordRequest}
use data_pipeline_async.Requests.{
  Datetime, datetime, RawRequest, is_forbidden, source_min_length, source_max_length,
  tags_max_count, validate_request,
}
use data_pipeline_async.Requests.Checked.{raw_of, accepted_request, accepted_again}

-- The letter A alone is lowered.
abbrev lower : Text → Text
lower [] = []
lower (c ∷ s) = (if eqb c b'A' then b'a' else c) ∷ lower s

lower_idempotent : (t : Text) → lower (lower t) ≡ lower t
lower_idempotent [] = refl
lower_idempotent (c ∷ s) = ground (arith, lower_idempotent s)

abbrev parse : Text → Option Datetime
parse t = none

abbrev raw : RawRequest
raw = record {
  source = b'A' ∷ [];
  timestamp = some (datetime (record { clock = 40; tzinfo = none }));
  document = [];
  tags = (b'A' ∷ []) ∷ [];
}

abbrev clean : RecordRequest
clean = record { source = b'A' ∷ []; timestamp = 40; document = []; tags = (b'a' ∷ []) ∷ [] }

accepted_request_example :
    (clean.source ≡ raw.source)
    × (is_forbidden (lower clean.source) ≡ false)
    × (source_min_length ≤ length clean.source)
    × (length clean.source ≤ source_max_length)
    × (clean.timestamp ≤ 50)
    × (clean.tags ≡ map lower raw.tags)
    × (length clean.tags ≤ tags_max_count)
    × (clean.document ≡ raw.document)
unfolding validate_request
accepted_request_example = accepted_request lower parse 50 raw clean refl

accepted_again_example : validate_request lower parse 60 (raw_of clean) ≡ some clean
unfolding validate_request
accepted_again_example =
    accepted_again lower parse 50 60 raw clean lower_idempotent (omega arith) refl
