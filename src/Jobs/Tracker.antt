-- ===== src/Jobs/Tracker.antt =====
-- `IdempotencyKeyTracker` of libs/platform/retry.py.
use data_pipeline_async.Base.{
  ℕ, ◌+◌, ◌≤◌, ◌≡◌, refl, Bool, true, false, Option, none, some, List, [], ◌∷◌, leb, ltb, Text,
  text_key, text_beq_iff, ◌==◌, if◌then◌else◌, arith,
}
use data_pipeline_async.Base.Dict.{Dict, lookup, insert, erase, lookup-insert, lookup-erase}
use data_pipeline_async.Jobs.{
  IdempotencyKeyTracker, is_duplicate, mark_seen, expired_keys, erase_all, cleanup_expired,
}

-- Once a key has been marked, it counts as a duplicate exactly until its time to live has run out;
-- the answers for all other keys stay as they were.
pub mark_seen_remembers :
    (marked now : ℕ) (key other : Text) (t : IdempotencyKeyTracker)
    → (is_duplicate now other (mark_seen marked key t)).1
      ≡ (if key == other then leb now (marked + t.ttl_seconds) else (is_duplicate now other t).1)
unfolding is_duplicate mark_seen
mark_seen_remembers marked now key other t = ground (arith, lookup-insert key other marked t.seen)

-- No key stands twice in the dict.
abbrev pub IsDict : Dict Text ℕ → Type 0
IsDict [] = Unit
IsDict ((k, _) ∷ d) = (lookup k d ≡ none) × IsDict d

mark_seen-IsDict : (now : ℕ) (key : Text) (d : Dict Text ℕ) → IsDict d → IsDict (insert key now d)
mark_seen-IsDict now key [] h = (refl, tt)
mark_seen-IsDict now key ((k, at) ∷ d) h = ground (
  arith,
  mark_seen-IsDict now key d h.1,
  lookup-insert key k now d,
  text_beq_iff k key,
  text_beq_iff key k,
)

abbrev listed : Text → List Text → Bool
listed k [] = false
listed k (j ∷ js) = if j == k then true else listed k js

lookup-erase_all :
    (k : Text) (ks : List Text) (d : Dict Text ℕ)
    → lookup k (erase_all ks d) ≡ (if listed k ks then none else lookup k d)
lookup-erase_all k [] d = refl
lookup-erase_all k (j ∷ js) d =
    ground (arith, lookup-erase_all k js (erase j d), lookup-erase j k d)

-- In a dict the keys that are listed as expired are those whose entry is.
abbrev is_expired : ℕ → ℕ → Option ℕ → Bool
is_expired ttl now none = false
is_expired ttl now (some at) = ltb (at + ttl) now

listed-expired :
    (ttl now : ℕ) (k : Text) (d : Dict Text ℕ)
    → IsDict d
    → listed k (expired_keys ttl now d) ≡ is_expired ttl now (lookup k d)
listed-expired ttl now k [] h = refl
listed-expired ttl now k ((j, at) ∷ d) h =
    ground (arith, listed-expired ttl now k d h.1, text_beq_iff j k)

-- Removing the expired entries at `now` changes no answer that is given then or later.
pub cleanup_keeps_answers :
    (now later : ℕ) (key : Text) (t : IdempotencyKeyTracker)
    → IsDict t.seen
    → now ≤ later
    → (is_duplicate later key (cleanup_expired now t)).1 ≡ (is_duplicate later key t).1
unfolding is_duplicate cleanup_expired
cleanup_keeps_answers now later key t h le = ground (
  arith,
  lookup-erase_all key (expired_keys t.ttl_seconds now t.seen) t.seen,
  listed-expired t.ttl_seconds now key t.seen h,
)
