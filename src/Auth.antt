-- ===== src/Auth.antt =====
-- ingestor/auth.py: sessions in a dict, the bearer token, JSON web tokens and the roles they carry.
-- `str.lower` and the jwt library are parameters. Clocks count ticks, `second` of which make one.
-- An `HTTPException` is its status code; a TypeError, or an error of the jwt library that is not
-- caught, reaches the framework as the status 500.
pub mod Lifetime
pub mod Bearer
pub mod InMemory
mod Values
mod Examples
use data_pipeline_async.Base.{
  ℕ, ◌+◌, ◌*◌, ◌/◌, ◌≤◌, ◌<◌, ◌≡◌, Bool, false, ◌||◌, Option, none, some, List, [], ◌∷◌, ◌++◌, map,
  ltb, Text, text_key, ◌==◌, if◌then◌else◌,
}
use data_pipeline_async.Base.Dict.{Dict, lookup, insert, erase}
pub use data_pipeline_async.Auth.Values.{
  Value, text, moment, iterable, null, other, Claims, Sessions, sub_key, iat_key, exp_key, iss_key,
  role_key, roles_key, scope_key, user_id_key, created_at_key, expires_at_key, viewer, writer,
  admin, bearer, public_name, write_scope, default_role, nbf_key, aud_key, jti_key, merge,
}
use data_pipeline_async.Base.Strings.{strip, partition}

pub record Settings : Type 0 where
  pub app_name : Text
  pub docs_username : Option Text
  pub docs_password : Option Text
  pub api_v1_bearer_token : Option Text
  pub token_expiry_hours : ℕ
  pub jwt_secret : Text
  pub jwt_expiry_minutes : ℕ

-- What a dependency of a route leads to.
pub data Verdict (A : Type 0) : Type 0 where
  admitted : A → Verdict A
  refused : (status : ℕ) → Verdict A

-- `verify_docs_credentials` where a user name and a password are configured.
abbrev pub check_credentials : Text → Text → Text × Text → Verdict (Text × Text)
check_credentials docs_username docs_password (username, password) =
    if username == docs_username
    then (if password == docs_password then admitted (username, password) else refused 403)
    else refused 403

pub verify_docs_credentials : Settings → Text × Text → Verdict (Text × Text)
verify_docs_credentials settings c = elim settings.docs_username [
  | none ↦ admitted c
  | some [] ↦ admitted c
  | some (x ∷ name) ↦ elim settings.docs_password [
    | none ↦ admitted c
    | some [] ↦ admitted c
    | some (y ∷ word) ↦ check_credentials (x ∷ name) (y ∷ word) c
  ]
]

-- The expiry of `verify_session`, by what the session holds under it.
abbrev pub check_expiry : ℕ → Text → Claims → Option Value → Sessions → Sessions × Verdict Claims
check_expiry now id session none store = (erase id store, refused 401)
check_expiry now id session (some null) store = (erase id store, refused 401)
check_expiry now id session (some (moment t)) store =
    if ltb t now then (erase id store, refused 401) else (store, admitted session)
check_expiry now id session (some (text _)) store = (store, refused 500)
check_expiry now id session (some (iterable _)) store = (store, refused 500)
check_expiry now id session (some other) store = (store, refused 500)

abbrev pub check_session : ℕ → Text → Option Claims → Sessions → Sessions × Verdict Claims
check_session now id none store = (store, refused 401)
check_session now id (some []) store = (store, refused 401)
check_session now id (some (x ∷ session)) store =
    check_expiry now id (x ∷ session) (lookup expires_at_key (x ∷ session)) store

pub verify_session : ℕ → Option Text → Sessions → Sessions × Verdict Claims
verify_session now none store = (store, refused 401)
verify_session now (some []) store = (store, refused 401)
verify_session now (some (c ∷ id)) store = check_session now (c ∷ id) (lookup (c ∷ id) store) store

abbrev pub new_session : Settings → ℕ → ℕ → Text → Text → Claims → Claims
new_session settings second now created user custom =
    merge
      ((user_id_key, text user)
        ∷ (role_key, text default_role)
        ∷ (created_at_key, text created)
        ∷ (expires_at_key, moment (now + settings.token_expiry_hours * (3600 * second)))
        ∷ [])
      custom

-- `create_session`: `session_id` is the text of a new UUID, `created` that of the second reading
-- of the clock.
pub create_session : Settings → ℕ → ℕ → Text → Text → Text → Claims → Sessions → Sessions
create_session settings second now session_id created user custom store =
    insert session_id (new_session settings second now created user custom) store

-- How `jwt.decode` ends.
pub data Decoded : Type 0 where
  payload : Claims → Decoded
  expired_signature invalid_signature decode_error : Decoded
  invalid_token : Decoded  -- any other InvalidTokenError

-- Claims that the library judges by their times alone.
abbrev pub Registered : Claims → Text → ℕ → ℕ → Type 0
Registered claims sub i e =
    (lookup sub_key claims ≡ some (text sub))
    × (lookup iat_key claims ≡ some (moment i))
    × (lookup exp_key claims ≡ some (moment e))
    × (lookup nbf_key claims ≡ none)
    × (lookup aud_key claims ≡ none)
    × (lookup jti_key claims ≡ none)

-- What the code relies on of PyJWT: a token that is read under the secret it was made with is a
-- payload from `iat` until the whole second of `exp`, and expired from then on.
pub record Jwt (second : ℕ) : Type 0 where
  pub encode : Claims → Text → Text
  pub decode : ℕ → Text → Text → Decoded
  pub decode_valid :
      (claims : Claims) (secret sub : Text) (i e now : ℕ)
      → Registered claims sub i e
      → i ≤ now
      → now < (e / second) * second
      → (p : Claims) × (decode now (encode claims secret) secret ≡ payload p)
        × ((k : Text) (ts : List Text)
            → lookup k claims ≡ some (iterable ts)
            → lookup k p ≡ some (iterable ts))
  pub decode_expired :
      (claims : Claims) (secret sub : Text) (i e now : ℕ)
      → Registered claims sub i e
      → i ≤ now
      → (e / second) * second ≤ now
      → decode now (encode claims secret) secret ≡ expired_signature

-- `x in xs`
abbrev pub holds : Text → List Text → Bool
holds x [] = false
holds x (y ∷ ys) = (y == x) || holds x ys

-- `required_roles & current_roles`
abbrev pub shares : List Text → List Text → Bool
shares [] current = false
shares (role ∷ required) current = holds role current || shares required current

module _ (lower : Text → Text) where
  -- The `set` of a role unless it is blank.
  abbrev pub role_of : Text → List Text
  role_of role = elim (strip role) [ [] ↦ [] | c ∷ s ↦ lower (c ∷ s) ∷ [] ]

  abbrev pub roles_of : List Text → List Text
  roles_of [] = []
  roles_of (role ∷ roles) = role_of role ++ roles_of roles

  abbrev pub normalize_roles : Option Value → List Text
  normalize_roles none = []
  normalize_roles (some null) = []
  normalize_roles (some (text role)) = role_of role
  normalize_roles (some (iterable roles)) = roles_of roles
  normalize_roles (some (moment _)) = []
  normalize_roles (some other) = []

  abbrev pub is_write_scope : Option Value → Bool
  is_write_scope none = false
  is_write_scope (some (text t)) = t == write_scope
  is_write_scope (some (moment _)) = false
  is_write_scope (some (iterable _)) = false
  is_write_scope (some null) = false
  is_write_scope (some other) = false

  -- The role of a write scope, where no role is given.
  abbrev pub or_scope : Option Value → List Text → List Text
  or_scope scope [] = if is_write_scope scope then writer ∷ [] else []
  or_scope scope (role ∷ roles) = role ∷ roles

  unfoldable pub extract_roles : Claims → List Text
  extract_roles claims =
      or_scope (lookup scope_key claims)
        (normalize_roles (lookup roles_key claims) ++ normalize_roles (lookup role_key claims))

  -- The verdict of a role guard, by that of the dependency it stands on.
  abbrev pub guarded : List Text → Verdict Claims → Verdict Claims
  guarded required (admitted claims) =
      if shares (map lower required) (extract_roles claims) then admitted claims else refused 403
  guarded required (refused status) = refused status

  unfoldable pub session_role_guard :
      List Text → ℕ → Option Text → Sessions → Sessions × Verdict Claims
  session_role_guard required now id store =
      let (store', verdict) = verify_session now id store in (store', guarded required verdict)

  abbrev pub check_token : Text → Text × Text → Verdict Text
  check_token token (scheme, credentials) =
      if lower scheme == bearer
      then (if credentials == token then admitted credentials else refused 403)
      else refused 401

  abbrev pub check_authorization : Text → Option Text → Verdict Text
  check_authorization token none = refused 401
  check_authorization token (some []) = refused 401
  check_authorization token (some (c ∷ header)) = check_token token (partition b' ' (c ∷ header))

  pub verify_bearer_token : Settings → Option Text → Verdict Text
  verify_bearer_token settings header = elim settings.api_v1_bearer_token [
    | none ↦ admitted public_name
    | some [] ↦ admitted public_name
    | some (c ∷ token) ↦ check_authorization (c ∷ token) header
  ]

module _ (lower : Text → Text) {second : ℕ} (jwt : Jwt second) (settings : Settings) where
  abbrev pub token_claims : ℕ → Text → Claims → Claims
  token_claims now sub custom =
      merge
        ((sub_key, text sub)
          ∷ (iat_key, moment now)
          ∷ (exp_key, moment (now + settings.jwt_expiry_minutes * (60 * second)))
          ∷ (iss_key, text settings.app_name)
          ∷ [])
        custom

  unfoldable pub create_jwt_token : ℕ → Text → Claims → Text
  create_jwt_token now sub custom = jwt.encode (token_claims now sub custom) settings.jwt_secret

  abbrev pub verdict_of : Decoded → Verdict Claims
  verdict_of (payload claims) = admitted claims
  verdict_of expired_signature = refused 401
  verdict_of invalid_signature = refused 401
  verdict_of decode_error = refused 401
  verdict_of invalid_token = refused 500

  abbrev pub read_token : ℕ → Text × Text → Verdict Claims
  read_token now (scheme, credentials) =
      if lower scheme == bearer
      then verdict_of (jwt.decode now credentials settings.jwt_secret)
      else refused 401

  unfoldable pub verify_jwt_token : ℕ → Option Text → Verdict Claims
  verify_jwt_token now none = refused 401
  verify_jwt_token now (some []) = refused 401
  verify_jwt_token now (some (c ∷ header)) = read_token now (partition b' ' (c ∷ header))

  unfoldable pub jwt_role_guard : List Text → ℕ → Option Text → Verdict Claims
  jwt_role_guard required now header = guarded lower required (verify_jwt_token now header)
