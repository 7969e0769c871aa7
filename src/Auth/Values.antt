-- ===== src/Auth/Values.antt =====
-- ingestor/auth.py: the values that sessions and tokens carry, the keys they stand under, and the
-- names of roles, schemes and scopes.
use data_pipeline_async.Base.{ℕ, List, [], ◌∷◌, Text, text_key}
use data_pipeline_async.Base.Dict.{Dict, insert}

-- A Python value in a session or in the claims of a token.
pub data Value : Type 0 where
  text : Text → Value
  moment : ℕ → Value
  iterable : List Text → Value  -- of the `str` of its elements
  null : Value
  other : Value  -- neither of these

abbrev pub Claims : Type 0
Claims = Dict Text Value

abbrev pub Sessions : Type 0
Sessions = Dict Text Claims

abbrev pub sub_key : Text
sub_key = b's' ∷ b'u' ∷ b'b' ∷ []

abbrev pub iat_key : Text
iat_key = b'i' ∷ b'a' ∷ b't' ∷ []

abbrev pub exp_key : Text
exp_key = b'e' ∷ b'x' ∷ b'p' ∷ []

abbrev pub iss_key : Text
iss_key = b'i' ∷ b's' ∷ b's' ∷ []

abbrev pub role_key : Text
role_key = b'r' ∷ b'o' ∷ b'l' ∷ b'e' ∷ []

abbrev pub roles_key : Text
roles_key = b'r' ∷ b'o' ∷ b'l' ∷ b'e' ∷ b's' ∷ []

abbrev pub scope_key : Text
scope_key = b's' ∷ b'c' ∷ b'o' ∷ b'p' ∷ b'e' ∷ []

abbrev pub user_id_key : Text
user_id_key = b'u' ∷ b's' ∷ b'e' ∷ b'r' ∷ b'_' ∷ b'i' ∷ b'd' ∷ []

abbrev pub created_at_key : Text
created_at_key = b'c' ∷ b'r' ∷ b'e' ∷ b'a' ∷ b't' ∷ b'e' ∷ b'd' ∷ b'_' ∷ b'a' ∷ b't' ∷ []

abbrev pub expires_at_key : Text
expires_at_key = b'e' ∷ b'x' ∷ b'p' ∷ b'i' ∷ b'r' ∷ b'e' ∷ b's' ∷ b'_' ∷ b'a' ∷ b't' ∷ []

abbrev pub viewer : Text
viewer = b'v' ∷ b'i' ∷ b'e' ∷ b'w' ∷ b'e' ∷ b'r' ∷ []

abbrev pub writer : Text
writer = b'w' ∷ b'r' ∷ b'i' ∷ b't' ∷ b'e' ∷ b'r' ∷ []

abbrev pub admin : Text
admin = b'a' ∷ b'd' ∷ b'm' ∷ b'i' ∷ b'n' ∷ []

abbrev pub bearer : Text
bearer = b'b' ∷ b'e' ∷ b'a' ∷ b'r' ∷ b'e' ∷ b'r' ∷ []

abbrev pub public_name : Text
public_name = b'p' ∷ b'u' ∷ b'b' ∷ b'l' ∷ b'i' ∷ b'c' ∷ []

abbrev pub write_scope : Text
write_scope =
    b'r' ∷ b'e' ∷ b'c' ∷ b'o' ∷ b'r' ∷ b'd' ∷ b's' ∷ b':' ∷ b'w' ∷ b'r' ∷ b'i' ∷ b't' ∷ b'e' ∷ []

abbrev pub default_role : Text
default_role = viewer

abbrev pub nbf_key : Text
nbf_key = b'n' ∷ b'b' ∷ b'f' ∷ []

abbrev pub aud_key : Text
aud_key = b'a' ∷ b'u' ∷ b'd' ∷ []

abbrev pub jti_key : Text
jti_key = b'j' ∷ b't' ∷ b'i' ∷ []

-- `{**base, **custom}`
abbrev pub merge : Claims → Claims → Claims
merge base [] = base
merge base ((k, v) ∷ custom) = merge (insert k v base) custom
