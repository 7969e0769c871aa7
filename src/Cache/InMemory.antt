-- ===== src/Cache/InMemory.antt =====
-- A Redis server and a codec in memory, on which the theorems about cached reads are run.
use data_pipeline_async.Base.{
  ℕ, zero, suc, ◌≡◌, ◌⊎◌, refl, ap, Bool, true, false, Option, none, some, List, [], ◌∷◌, ◌++◌,
  length, ltb, take, drop, Text, text_key, text_beq_iff, if◌then◌else◌, arith,
}
use data_pipeline_async.Base.Dict.{Dict, lookup, insert, erase, lookup-insert, lookup-erase}
use data_pipeline_async.Cache.{RecordResponse, replied, failed, Redis, Codec}

pub insert_holds :
    (k v : Text) (c : Dict Text Text) (j w : Text)
    → lookup j (insert k v c) ≡ some w
    → (lookup j c ≡ some w) ⊎ ((k ≡ j) × (v ≡ w))
insert_holds k v c j w h = ground (arith, h, lookup-insert k j v c, text_beq_iff k j)

pub erase_holds :
    (k : Text) (c : Dict Text Text) (j w : Text)
    → lookup j (erase k c) ≡ some w
    → lookup j c ≡ some w
erase_holds k c j w h = ground (arith, h, lookup-erase k j c)

pub erase_removes : (k : Text) (c : Dict Text Text) → lookup k (erase k c) ≡ none
erase_removes k c = ground (arith, lookup-erase k k c, text_beq_iff k k)

pub replied_same : {a b : Option Text} → replied a ≡ replied b → a ≡ b
replied_same {a} {b} e = ap (λ r. elim r [ replied x ↦ x | failed ↦ a ]) e

abbrev pub memory_redis : Redis
memory_redis = record {
  Conn = Dict Text Text;
  contents = λ c k. lookup k c;
  get = λ k c. replied (lookup k c);
  setex = λ k ttl v c. (insert k v c, true);
  delete = λ k c. (erase k c, true);
  get_reads = λ k v c h. replied_same h;
  setex_keeps = λ k v ttl c j w h. insert_holds k v c j w h;
  delete_keeps = erase_holds;
  delete_removes = λ k c h. erase_removes k c;
}

-- Texts with their lengths in front.
abbrev pub put : Text → Text → Text
put t rest = length t ∷ t ++ rest

abbrev pub put_all : List Text → Text → Text
put_all [] rest = rest
put_all (t ∷ ts) rest = put t (put_all ts rest)

abbrev pub read : Text → Text × Text
read [] = ([], [])
read (n ∷ s) = (take n s, drop n s)

abbrev pub read_all : ℕ → Text → List Text
read_all zero s = []
read_all (suc n) s = (read s).0 ∷ read_all n (read s).1

abbrev flag : Bool → ℕ
flag b = if b then 1 else 0

abbrev optional : Option ℕ → ℕ
optional none = 0
optional (some t) = suc t

abbrev read_optional : ℕ → Option ℕ
read_optional zero = none
read_optional (suc t) = some t

abbrev dump : RecordResponse → Text
dump r =
    r.id
    ∷ r.timestamp
    ∷ flag r.processed
    ∷ optional r.deleted_at
    ∷ length r.tags
    ∷ put r.source (put r.raw_data (put_all r.tags []))

abbrev validate : Text → Option RecordResponse
validate (id ∷ timestamp ∷ processed ∷ deleted ∷ tags ∷ s) = some (record {
  id = id;
  source = (read s).0;
  timestamp = timestamp;
  raw_data = (read (read s).1).0;
  tags = read_all tags (read (read s).1).1;
  processed = ltb 0 processed;
  deleted_at = read_optional deleted;
})
validate _ = none

pub take-append : (t rest : Text) → take (length t) (t ++ rest) ≡ t
take-append [] rest = refl
take-append (c ∷ t) rest = ap (λ l. c ∷ l) (take-append t rest)

pub drop-append : (t rest : Text) → drop (length t) (t ++ rest) ≡ rest
drop-append [] rest = refl
drop-append (c ∷ t) rest = drop-append t rest

pub read_all-put_all : (ts : List Text) (rest : Text) → read_all (length ts) (put_all ts rest) ≡ ts
read_all-put_all [] rest = refl
read_all-put_all (t ∷ ts) rest =
    rw (take-append t (put_all ts rest), drop-append t (put_all ts rest), read_all-put_all ts rest)
      refl

read-flag : (b : Bool) → ltb 0 (flag b) ≡ b
read-flag true = refl
read-flag false = refl

read-optional : (o : Option ℕ) → read_optional (optional o) ≡ o
read-optional none = refl
read-optional (some t) = refl

pub validate-dump : (r : RecordResponse) → validate (dump r) ≡ some r
validate-dump r =
    let body = put r.raw_data (put_all r.tags []) in
    rw
      (
        take-append r.source body,
        drop-append r.source body,
        take-append r.raw_data (put_all r.tags []),
        drop-append r.raw_data (put_all r.tags []),
        read_all-put_all r.tags [],
        read-flag r.processed,
        read-optional r.deleted_at,
      )
      refl

abbrev pub memory_codec : Codec
memory_codec = record { dump_json = dump; validate_json = validate; dump_validates = validate-dump }
