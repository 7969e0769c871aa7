-- ===== src/Auth/InMemory.antt =====
-- A token format in place of PyJWT's, on which the theorems about tokens are run.
use data_pipeline_async.Base.{
  ℕ, zero, suc, ◌+◌, ◌*◌, ◌/◌, ◌≤◌, ◌<◌, ◌≡◌, refl, ap, ◌∙◌, Option, none, some, List, [], ◌∷◌,
  length, map, eqb, ltb, leb, Text, text_key, ◌==◌, ==_refl, if◌then◌else◌, if-true, if-false,
  arith,
}
use data_pipeline_async.Base.Dict.{lookup}
use data_pipeline_async.Cache.InMemory.{
  put, put_all, read, read_all, take-append, drop-append, read_all-put_all,
}
use data_pipeline_async.Auth.{
  Value, text, moment, iterable, null, other, Claims, Decoded, payload, expired_signature,
  invalid_signature, decode_error, invalid_token, iat_key, exp_key, Registered, Jwt, Settings,
}

-- Capital letters of ASCII are lowered.
abbrev pub lower : Text → Text
lower s = map (λ c. if ltb 64 c then (if ltb c 91 then c + 32 else c) else c) s

abbrev pub settings : Settings
settings = record {
  app_name = b'd' ∷ [];
  docs_username = none;
  docs_password = none;
  api_v1_bearer_token = some (b'k' ∷ b'e' ∷ b'y' ∷ []);
  token_expiry_hours = 24;
  jwt_secret = b's' ∷ [];
  jwt_expiry_minutes = 60;
}

-- What follows some texts.
abbrev pub after_all : ℕ → Text → Text
after_all zero s = s
after_all (suc n) s = after_all n (read s).1

abbrev pub put_value : Value → Text → Text
put_value (text t) rest = 0 ∷ put t rest
put_value (moment n) rest = 1 ∷ n ∷ rest
put_value (iterable ts) rest = 2 ∷ length ts ∷ put_all ts rest
put_value null rest = 3 ∷ rest
put_value other rest = 4 ∷ rest

abbrev pub read_number : Text → ℕ × Text
read_number [] = (0, [])
read_number (n ∷ s) = (n, s)

abbrev pub read_value : Text → Value × Text
read_value [] = (null, [])
read_value (tag ∷ s) =
    let (t, after_text) = read s in
    let (n, after_number) = read_number s in
    if eqb tag 0
    then (text t, after_text)
    else if eqb tag 1
    then (moment n, after_number)
    else if eqb tag 2
    then (iterable (read_all n after_number), after_all n after_number)
    else if eqb tag 3
    then (null, s)
    else (other, s)

abbrev pub put_claims : Claims → Text → Text
put_claims [] rest = rest
put_claims ((k, v) ∷ claims) rest = put k (put_value v (put_claims claims rest))

abbrev pub read_claims : ℕ → Text → Claims
read_claims zero s = []
read_claims (suc n) s =
    let (k, s') = read s in let (v, s'') = read_value s' in (k, v) ∷ read_claims n s''

pub read-put : (t rest : Text) → read (put t rest) ≡ (t, rest)
read-put t rest = rw (take-append t rest, drop-append t rest) refl

after_all-put_all : (ts : List Text) (rest : Text) → after_all (length ts) (put_all ts rest) ≡ rest
after_all-put_all [] rest = refl
after_all-put_all (t ∷ ts) rest =
    ap (λ s. after_all (length ts) s) (drop-append t (put_all ts rest)) ∙ after_all-put_all ts rest

read_value-put_value : (v : Value) (rest : Text) → read_value (put_value v rest) ≡ (v, rest)
read_value-put_value (text t) rest = ap (λ x. (text x.0, x.1)) (read-put t rest)
read_value-put_value (moment n) rest = refl
read_value-put_value (iterable ts) rest =
    rw (read_all-put_all ts rest, after_all-put_all ts rest) refl
read_value-put_value null rest = refl
read_value-put_value other rest = refl

read_claims-put_claims :
    (claims : Claims) (rest : Text) → read_claims (length claims) (put_claims claims rest) ≡ claims
read_claims-put_claims [] rest = refl
read_claims-put_claims ((k, v) ∷ claims) rest =
    let body = put_claims claims rest in
    ap
      (λ (x : Text × Text).
        (x.0, (read_value x.1).0) ∷ read_claims (length claims) (read_value x.1).1)
      (read-put k (put_value v body))
    ∙ ap (λ (x : Value × Text). (k, x.0) ∷ read_claims (length claims) x.1)
        (read_value-put_value v body)
    ∙ ap (λ c. (k, v) ∷ c) (read_claims-put_claims claims rest)

module _ (second : ℕ) where
  abbrev pub judge : ℕ → Claims → Option Value → Option Value → Decoded
  judge now claims (some (moment i)) (some (moment e)) =
      if ltb now i
      then invalid_token
      else if leb ((e / second) * second) now
      then expired_signature
      else payload claims
  judge now claims _ _ = decode_error

  abbrev pub judge_claims : ℕ → Claims → Decoded
  judge_claims now claims = judge now claims (lookup iat_key claims) (lookup exp_key claims)

  -- The secret in front of a token, and what it holds.
  abbrev pub decode_parts : ℕ → Text → Text × Text → Decoded
  decode_parts now secret (s, body) =
      let (n, entries) = read_number body in
      if s == secret then judge_claims now (read_claims n entries) else invalid_signature

  abbrev pub decode_text : ℕ → Text → Text → Decoded
  decode_text now token secret = decode_parts now secret (read token)

  abbrev pub encode_text : Claims → Text → Text
  encode_text claims secret = put secret (length claims ∷ put_claims claims [])

  decode-encode :
      (now : ℕ) (claims : Claims) (secret sub : Text) (i e : ℕ)
      → Registered claims sub i e
      → decode_text now (encode_text claims secret) secret
        ≡ judge now claims (some (moment i)) (some (moment e))
  decode-encode now claims secret sub i e (_, issued, expires, _, _, _) =
      ap (decode_parts now secret) (read-put secret (length claims ∷ put_claims claims []))
      ∙ if-true (secret == secret) _ _ (==_refl secret)
      ∙ ap (judge_claims now) (read_claims-put_claims claims [])
      ∙ ap (λ o. judge now claims o (lookup exp_key claims)) issued
      ∙ ap (judge now claims (some (moment i))) expires

  pub valid_text :
      (claims : Claims) (secret sub : Text) (i e now : ℕ)
      → Registered claims sub i e
      → i ≤ now
      → now < (e / second) * second
      → (p : Claims) × (decode_text now (encode_text claims secret) secret ≡ payload p)
        × ((k : Text) (ts : List Text)
            → lookup k claims ≡ some (iterable ts)
            → lookup k p ≡ some (iterable ts))
  valid_text claims secret sub i e now registered le valid = (
    claims,
    decode-encode now claims secret sub i e registered
        ∙ if-false (ltb now i) _ _ (ground (arith, le))
        ∙ if-false (leb ((e / second) * second) now) _ _ (ground (arith, valid)),
    λ k ts held. held,
  )

  pub expired_text :
      (claims : Claims) (secret sub : Text) (i e now : ℕ)
      → Registered claims sub i e
      → i ≤ now
      → (e / second) * second ≤ now
      → decode_text now (encode_text claims secret) secret ≡ expired_signature
  expired_text claims secret sub i e now registered le over =
      decode-encode now claims secret sub i e registered
      ∙ if-false (ltb now i) _ _ (ground (arith, le))
      ∙ if-true (leb ((e / second) * second) now) _ _ (ground (arith, over))

  abbrev pub memory_jwt : Jwt second
  memory_jwt = record {
    encode = encode_text;
    decode = decode_text;
    decode_valid = valid_text;
    decode_expired = expired_text;
  }
