-- ===== src/Base/Strings.antt =====
-- The methods of Python's `str` that the code uses, on lists of code points.
use Prim.Native.Nat.{ℕ}
use mathlib.Core.Path.{◌≡◌, ap, ◌∙◌}
use mathlib.Core.Logic.{inl, inr}
use mathlib.Core.Bool.{Bool, false, ◌&&◌, ◌||◌}
use mathlib.Core.List.{List, [], ◌∷◌, ◌++◌}
use native.Mathlib.Omega.{arith}
use data_pipeline_async.Base.Tests.{eqb, leb, eqb_iff, Bool-cases, if◌then◌else◌}
use data_pipeline_async.Base.Keys.{Text, text_key}
use data_pipeline_async.Base.Lists.{All}

-- `str.isspace` of one character.
abbrev pub is_space : ℕ → Bool
is_space c =
    (leb 9 c && leb c 13)
    || ((leb 28 c && leb c 32)
        || (eqb c 133
            || (eqb c 160
                || (eqb c 5760
                    || ((leb 8192 c && leb c 8202)
                        || (eqb c 8232
                            || (eqb c 8233 || (eqb c 8239 || (eqb c 8287 || eqb c 12288)))))))))

abbrev pub lstrip : Text → Text
lstrip [] = []
lstrip (c ∷ s) = let rest = lstrip s in if is_space c then rest else c ∷ s

-- A character in front of a stripped end.
abbrev pub keep_unless_blank : ℕ → Text → Text
keep_unless_blank c [] = if is_space c then [] else c ∷ []
keep_unless_blank c (d ∷ s) = c ∷ d ∷ s

abbrev pub rstrip : Text → Text
rstrip [] = []
rstrip (c ∷ s) = keep_unless_blank c (rstrip s)

abbrev pub strip : Text → Text
strip s = rstrip (lstrip s)

-- The first and the last part of `s.partition(chr(d))`.
abbrev pub partition : ℕ → Text → Text × Text
partition d [] = ([], [])
partition d (c ∷ s) = let rest = partition d s in if eqb c d then ([], s) else (c ∷ rest.0, rest.1)

-- `s.split(chr(d))`
abbrev pub head_onto : ℕ → List Text → List Text
head_onto c [] = (c ∷ []) ∷ []
head_onto c (t ∷ ts) = (c ∷ t) ∷ ts

abbrev pub split : ℕ → Text → List Text
split d [] = [] ∷ []
split d (c ∷ s) = let rest = split d s in if eqb c d then [] ∷ rest else head_onto c rest

abbrev pub Lacks : ℕ → Text → Type 0
Lacks d s = All (λ c. eqb c d ≡ false) s

pub partition-joined : (d : ℕ) (s t : Text) → Lacks d s → partition d (s ++ d ∷ t) ≡ (s, t)
partition-joined d [] t h = ground (arith, eqb_iff d d)
partition-joined d (c ∷ s) t h = ground (
  arith,
  h.0,
  ap (λ p. p.0) (partition-joined d s t h.1),
  ap (λ p. p.1) (partition-joined d s t h.1),
)

-- A part after the separator that is not empty tells that there is one.
pub partition_splits :
    (d c : ℕ) (s t : Text)
    → (partition d s).1 ≡ c ∷ t
    → (s ≡ (partition d s).0 ++ d ∷ c ∷ t) × Lacks d (partition d s).0
partition_splits d c [] t e = absurd (ground (arith, e))
partition_splits d c (x ∷ s) t e = elim (Bool-cases (eqb x d)) [
  | inl same ↦
      let rest = rw same at e in
      rw same (ap (λ l. x ∷ l) rest ∙ ap (λ k. k ∷ c ∷ t) ((eqb_iff x d).0 same), tt)
  | inr differ ↦
      let (whole, lacks) = partition_splits d c s t (rw differ at e) in
      rw differ (ap (λ l. x ∷ l) whole, (differ, lacks))
]
