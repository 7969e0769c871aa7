-- ===== src/Requests.antt =====
-- The validators of RecordRequest and UpdateRecordRequest in ingestor/schemas.py. A ValidationError
-- is none. `str.lower` and pydantic's reading of a datetime from text are parameters.
pub mod Checked
mod Examples
use data_pipeline_async.Base.{
  ℕ, ◌≤◌, ◌≡◌, Bool, true, false, ◌&&◌, ◌||◌, Option, none, some, List, [], ◌∷◌, map, length, ltb,
  leb, Text, text_key, ◌==◌, if◌then◌else◌,
}
use data_pipeline_async.Base.Int.{ℤ}
use data_pipeline_async.Records.{RecordRequest}
use data_pipeline_async.Records.Crud.{UpdateRecordRequest}

-- A do block of validators ends at the first error.
infixl 5 ◌>>=◌
abbrev pub ◌>>=◌ {ℓ κ} : {A : Type ℓ} {B : Type κ} → Option A → (A → Option B) → Option B
none >>= f = none
some x >>= f = f x

abbrev pub source_min_length : ℕ
source_min_length = 1

abbrev pub source_max_length : ℕ
source_max_length = 255

abbrev pub tags_max_count : ℕ
tags_max_count = 10

-- A datetime: what its clock shows, and the offset of its zone, if it has one.
pub record Datetime : Type 0 where
  pub clock : ℕ
  pub tzinfo : Option ℤ

-- What a caller passes for the timestamp.
pub data Given : Type 0 where
  datetime : Datetime → Given
  text : Text → Given

pub record RawRequest : Type 0 where
  pub source : Text
  pub timestamp : Option Given
  pub document : Text
  pub tags : List Text

pub record RawUpdate : Type 0 where
  pub source : Option Text
  pub timestamp : Option Given
  pub document : Option Text
  pub tags : Option (List Text)

abbrev pub strip : Datetime → Datetime
strip d = record { clock = d.clock; tzinfo = none }

-- The validator before the parsing, which leaves text alone.
abbrev pub normalize_timestamp : Given → Given
normalize_timestamp (datetime d) = datetime (strip d)
normalize_timestamp (text t) = text t

-- The validator after it; what is stored has no zone.
abbrev pub not_in_future : ℕ → Datetime → Option ℕ
not_in_future now d = let v = strip d in if ltb now v.clock then none else some v.clock

abbrev localhost : Text
localhost = b'l' ∷ b'o' ∷ b'c' ∷ b'a' ∷ b'l' ∷ b'h' ∷ b'o' ∷ b's' ∷ b't' ∷ []

abbrev loopback_v4 : Text
loopback_v4 = b'1' ∷ b'2' ∷ b'7' ∷ b'.' ∷ b'0' ∷ b'.' ∷ b'0' ∷ b'.' ∷ b'1' ∷ []

abbrev loopback_v6 : Text
loopback_v6 = b':' ∷ b':' ∷ b'1' ∷ []

abbrev wildcard_v4 : Text
wildcard_v4 = b'0' ∷ b'.' ∷ b'0' ∷ b'.' ∷ b'0' ∷ b'.' ∷ b'0' ∷ []

abbrev wildcard_v6 : Text
wildcard_v6 = b':' ∷ b':' ∷ []

abbrev pub is_forbidden : Text → Bool
is_forbidden v =
    (v == localhost)
    || ((v == loopback_v4) || ((v == loopback_v6) || ((v == wildcard_v4) || (v == wildcard_v6))))

abbrev pub checked_timestamp : ℕ → Option Datetime → Option ℕ
checked_timestamp now none = none
checked_timestamp now (some d) = not_in_future now d

module _ (parse : Text → Option Datetime) where
  abbrev pub parsed : Given → Option Datetime
  parsed (datetime d) = some d
  parsed (text t) = parse t

  abbrev pub validate_timestamp : ℕ → Given → Option ℕ
  validate_timestamp now given = checked_timestamp now (parsed (normalize_timestamp given))

  -- A timestamp that is not given is the current time, which no validator sees.
  abbrev pub timestamp_or_now : ℕ → Option Given → Option ℕ
  timestamp_or_now now none = some now
  timestamp_or_now now (some given) = validate_timestamp now given

module _ (lower : Text → Text) where
  -- The length bounds of the field, then `source_not_localhost`.
  abbrev pub validate_source : Text → Option Text
  validate_source v =
      if leb source_min_length (length v) && leb (length v) source_max_length
      then (if is_forbidden (lower v) then none else some v)
      else none

  -- The bound of the field, then `lowercase_tags`.
  abbrev pub validate_tags : List Text → Option (List Text)
  validate_tags tags = if leb (length tags) tags_max_count then some (map lower tags) else none

-- A field of a partial update: absent, or validated.
abbrev pub optional {ℓ κ} :
    {A : Type ℓ} {B : Type κ} → (A → Option B) → Option A → Option (Option B)
optional check none = some none
optional check (some x) = check x >>= λ y. some (some y)

module _ (lower : Text → Text) (parse : Text → Option Datetime) where
  pub validate_request : ℕ → RawRequest → Option RecordRequest
  validate_request now raw = do
    source ← validate_source lower raw.source
    timestamp ← timestamp_or_now parse now raw.timestamp
    tags ← validate_tags lower raw.tags
    some (record { source = source; timestamp = timestamp; document = raw.document; tags = tags })

  pub validate_update : ℕ → RawUpdate → Option UpdateRecordRequest
  validate_update now raw = do
    source ← optional (validate_source lower) raw.source
    timestamp ← optional (validate_timestamp parse now) raw.timestamp
    tags ← optional (validate_tags lower) raw.tags
    some (record { source = source; timestamp = timestamp; document = raw.document; tags = tags })
