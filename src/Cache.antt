-- ===== src/Cache.antt =====
-- ingestor/cache.py: single records in Redis, under a key made of their id. The Redis server and the
-- JSON of pydantic are interfaces. Every error of theirs is caught and counted as a miss, so that a
-- failed command is a reply here.
pub mod Keys
pub mod InMemory
use data_pipeline_async.Base.{
  ℕ, ◌+◌, ◌≡◌, ◌⊎◌, Bool, true, Option, none, some, List, [], ◌∷◌, ◌++◌, Text,
}
use data_pipeline_async.Jobs.{decimal_digits}
use data_pipeline_async.Records.{Record}

-- `RecordResponse` of ingestor/schemas.py without the audit columns, and `model_validate` of a row.
pub record RecordResponse : Type 0 where
  pub id : ℕ
  pub source : Text
  pub timestamp : ℕ
  pub raw_data : Text
  pub tags : List Text
  pub processed : Bool
  pub deleted_at : Option ℕ

abbrev pub response_of : Record → RecordResponse
response_of r = record {
  id = r.id;
  source = r.source;
  timestamp = r.timestamp;
  raw_data = r.raw_data;
  tags = r.tags;
  processed = r.processed;
  deleted_at = r.deleted_at;
}

abbrev pub cache_ttl_record : ℕ
cache_ttl_record = 3600

abbrev pub key_prefix : Text
key_prefix = b'd' ∷ b'p' ∷ b':' ∷ b'r' ∷ b'e' ∷ b'c' ∷ b'o' ∷ b'r' ∷ b'd' ∷ b':' ∷ []

-- `CACHE_KEY_RECORD.format(record_id=…)`
abbrev pub cache_key : ℕ → Text
cache_key id = key_prefix ++ decimal_digits (id + 1) id

pub data Reply (A : Type 0) : Type 0 where
  replied : A → Reply A
  failed : Reply A

-- What the code relies on of Redis: `contents` is what the server holds. It may drop entries at any
-- time (they expire), and a command that fails may have been carried out or not.
pub record Redis : Type 1 where
  pub Conn : Type 0
  pub contents : Conn → Text → Option Text
  pub get : Text → Conn → Reply (Option Text)
  pub setex : Text → ℕ → Text → Conn → Conn × Bool
  pub delete : Text → Conn → Conn × Bool
  pub get_reads : (k v : Text) (c : Conn) → get k c ≡ replied (some v) → contents c k ≡ some v
  pub setex_keeps :
      (k v : Text) (ttl : ℕ) (c : Conn) (j w : Text)
      → contents (setex k ttl v c).0 j ≡ some w
      → (contents c j ≡ some w) ⊎ ((k ≡ j) × (v ≡ w))
  pub delete_keeps :
      (k : Text) (c : Conn) (j w : Text)
      → contents (delete k c).0 j ≡ some w
      → contents c j ≡ some w
  pub delete_removes :
      (k : Text) (c : Conn) → (delete k c).1 ≡ true → contents (delete k c).0 k ≡ none

-- `model_dump_json` and `model_validate_json`; an invalid text is an exception, caught as a miss.
pub record Codec : Type 0 where
  pub dump_json : RecordResponse → Text
  pub validate_json : Text → Option RecordResponse
  pub dump_validates : (r : RecordResponse) → validate_json (dump_json r) ≡ some r

module _ (redis : Redis) (codec : Codec) where
  open redis use {Conn, get, setex, delete}

  abbrev pub decoded : Reply (Option Text) → Option RecordResponse
  decoded failed = none
  decoded (replied none) = none
  decoded (replied (some json)) = codec.validate_json json

  -- The client is None before `connect_cache` and after `disconnect_cache`.
  unfoldable pub get_cached_record : ℕ → Option Conn → Option RecordResponse
  get_cached_record id none = none
  get_cached_record id (some c) = decoded (get (cache_key id) c)

  unfoldable pub set_cached_record : ℕ → RecordResponse → Option Conn → Option Conn
  set_cached_record id r none = none
  set_cached_record id r (some c) =
      some (setex (cache_key id) cache_ttl_record (codec.dump_json r) c).0

  unfoldable pub invalidate_record : ℕ → Option Conn → Option Conn
  invalidate_record id none = none
  invalidate_record id (some c) = some (delete (cache_key id) c).0
