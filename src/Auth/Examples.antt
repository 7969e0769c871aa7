-- ===== src/Auth/Examples.antt =====
-- Witnesses of the sessions and the bearer token.
use data_pipeline_async.Base.{
  ◌+◌, ◌*◌, ◌≡◌, ◌↔◌, refl, some, [], ◌∷◌, leb, Text, text_key, if◌then◌else◌, arith,
}
use data_pipeline_async.Base.Dict.{lookup, erase}
use data_pipeline_async.Auth.{
  text, admitted, refused, writer, role_key, verify_bearer_token, verify_session, new_session,
  create_session,
}
use data_pipeline_async.Auth.InMemory.{lower, settings}
use data_pipeline_async.Auth.Bearer.{Bears, bearer_admits_exactly}
use data_pipeline_async.Auth.Lifetime.{session_lifetime}

abbrev key : Text
key = b'k' ∷ b'e' ∷ b'y' ∷ []

abbrev someone_else : Text
someone_else = b'2' ∷ []

abbrev header : Text
header = b'B' ∷ b'e' ∷ b'a' ∷ b'r' ∷ b'e' ∷ b'r' ∷ b' ' ∷ b'k' ∷ b'e' ∷ b'y' ∷ []

bearer_admits_exactly_example :
    (verify_bearer_token lower settings (some header) ≡ admitted key)
    ↔ (Bears lower key header × (key ≡ key))
bearer_admits_exactly_example =
    bearer_admits_exactly lower settings b'k' (b'e' ∷ b'y' ∷ []) header key refl

abbrev id : Text
id = b'1' ∷ []

session_lifetime_example :
    let session = new_session settings 1 100 [] (b'u' ∷ []) ((role_key, text writer) ∷ []) in
    let held = create_session settings 1 100 id [] (b'u' ∷ []) ((role_key, text writer) ∷ []) [] in
    let end = 100 + settings.token_expiry_hours * (3600 * 1) in
    (verify_session 500 (some id) held
      ≡ (if leb 500 end then (held, admitted session) else (erase id held, refused 401)))
    × (verify_session 99999 (some id) (erase id held) ≡ (erase id held, refused 401))
    × (lookup someone_else (verify_session 500 (some id) held).0 ≡ lookup someone_else [])
session_lifetime_example =
    session_lifetime settings 1 100 500 99999 b'1' [] [] (b'u' ∷ []) someone_else
      ((role_key, text writer) ∷ []) [] refl (λ e. ground (arith, e))
