-- ===== src/Auth/Lifetime.antt =====
-- How long the sessions and tokens of ingestor/auth.py admit.
use data_pipeline_async.Base.{
  ℕ, ◌+◌, ◌*◌, ◌≡◌, ◌≢◌, refl, sym, ap, ◌∙◌, Bool, not, true, false, none, some, [], ◌∷◌, leb, ltb,
  Text, text_key, text_beq_iff, ◌==◌, ==_refl, if◌then◌else◌, if-true, if-false, if-split,
  Bool-cases, inl, inr, arith,
}
use data_pipeline_async.Base.Dict.{lookup, insert, erase, lookup-insert, lookup-erase}
use data_pipeline_async.Auth.{
  moment, Claims, Sessions, Settings, Verdict, admitted, refused, expires_at_key, merge,
  check_expiry, check_session, verify_session, new_session, create_session,
}

lookup-merge :
    (k : Text) (base custom : Claims)
    → lookup k custom ≡ none
    → lookup k (merge base custom) ≡ lookup k base
lookup-merge k base [] h = refl
lookup-merge k base ((j, v) ∷ custom) h =
    ground (arith, h, lookup-insert j k v base, lookup-merge k (insert j v base) custom)

-- A session of given data that ends at a given time.
check_session-ends :
    (now e : ℕ) (id : Text) (session : Claims) (store : Sessions)
    → lookup expires_at_key session ≡ some (moment e)
    → check_session now id (some session) store
      ≡ (if leb now e then (store, admitted session) else (erase id store, refused 401))
check_session-ends now e id [] store h = absurd (ground (arith, h))
check_session-ends now e id (x ∷ session) store h =
    ap (λ o. check_expiry now id (x ∷ session) o store) h
    ∙ flipped (leb now e) (ltb e now) _ _ (ground arith)
  where
    flipped :
        {A : Type 0} (p q : Bool) (a b : A)
        → q ≡ not p
        → (if q then a else b) ≡ (if p then b else a)
    flipped true q a b h = rw h refl
    flipped false q a b h = rw h refl

-- A session whose extra data leaves the expiry alone is admitted with the data it was created with
-- until the configured hours are over; the first look after that is refused with 401 and deletes it,
-- as is every later one. Neither touches another session.
pub session_lifetime :
    (settings : Settings) (second now later again : ℕ) (c : ℕ) (id created user other : Text)
    (custom : Claims) (store : Sessions)
    → lookup expires_at_key custom ≡ none
    → other ≢ c ∷ id
    → let session = new_session settings second now created user custom in
      let held = create_session settings second now (c ∷ id) created user custom store in
      let end = now + settings.token_expiry_hours * (3600 * second) in
      (verify_session later (some (c ∷ id)) held
        ≡ (if leb later end then (held, admitted session) else (erase (c ∷ id) held, refused 401)))
      × (verify_session again (some (c ∷ id)) (erase (c ∷ id) held)
          ≡ (erase (c ∷ id) held, refused 401))
      × (lookup other (verify_session later (some (c ∷ id)) held).0 ≡ lookup other store)
unfolding create_session verify_session
session_lifetime settings second now later again c id created user other custom store plain ne = (
  looks,
  ap (λ o. check_session again (c ∷ id) o (erase (c ∷ id) held)) gone,
  ap (λ x. lookup other x.0) looks ∙ others,
)
  where
    session : Claims
    session = new_session settings second now created user custom

    held : Sessions
    held = insert (c ∷ id) session store

    end : ℕ
    end = now + settings.token_expiry_hours * (3600 * second)

    found : lookup (c ∷ id) held ≡ some session
    found =
        lookup-insert (c ∷ id) (c ∷ id) session store
        ∙ if-true ((c ∷ id) == (c ∷ id)) _ _ (==_refl (c ∷ id))

    gone : lookup (c ∷ id) (erase (c ∷ id) held) ≡ none
    gone =
        lookup-erase (c ∷ id) (c ∷ id) held ∙ if-true ((c ∷ id) == (c ∷ id)) _ _ (==_refl (c ∷ id))

    looks :
        check_session later (c ∷ id) (lookup (c ∷ id) held) held
        ≡ (if leb later end then (held, admitted session) else (erase (c ∷ id) held, refused 401))
    looks =
        ap (λ o. check_session later (c ∷ id) o held) found
        ∙ check_session-ends later end (c ∷ id) session held
            (lookup-merge expires_at_key _ custom plain)

    differ : ((c ∷ id) == other) ≡ false
    differ = elim (Bool-cases ((c ∷ id) == other)) [
      | inl same ↦ absurd (ne (sym ((text_beq_iff (c ∷ id) other).0 same)))
      | inr apart ↦ apart
    ]

    kept : lookup other held ≡ lookup other store
    kept = lookup-insert (c ∷ id) other session store ∙ if-false ((c ∷ id) == other) _ _ differ

    looked : Sessions × Verdict Claims
    looked = if leb later end then (held, admitted session) else (erase (c ∷ id) held, refused 401)

    others : lookup other looked.0 ≡ lookup other store
    others =
        if-split {A = Sessions × Verdict Claims} (λ x. lookup other x.0 ≡ lookup other store)
          (leb later end) (λ _. kept)
          (λ _. lookup-erase (c ∷ id) other held ∙ if-false ((c ∷ id) == other) _ _ differ ∙ kept)
