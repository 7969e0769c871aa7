-- ===== src/Cache/Keys.antt =====
-- The keys of ingestor/cache.py tell records apart.
use data_pipeline_async.Base.{
  ℕ, zero, suc, ◌+◌, ◌-◌, ◌*◌, ◌/◌, ◌%◌, ◌<◌, ◌≡◌, refl, sym, ap, ◌∙◌, [], ◌∷◌, ◌++◌, ltb, drop,
  Text, Bool-cases, inl, inr, arith,
}
use data_pipeline_async.Jobs.{decimal_digits}
use data_pipeline_async.Cache.{cache_key}

-- The number that a text of digits stands for, after a number already read.
abbrev value_from : ℕ → Text → ℕ
value_from acc [] = acc
value_from acc (c ∷ s) = value_from (acc * 10 + (c - 48)) s

value_from-last :
    (acc c : ℕ) (s : Text) → value_from acc (s ++ c ∷ []) ≡ value_from acc s * 10 + (c - 48)
value_from-last acc c [] = refl
value_from-last acc c (x ∷ s) = value_from-last (acc * 10 + (x - 48)) c s

value-decimal_digits : (fuel n : ℕ) → n < fuel → value_from 0 (decimal_digits fuel n) ≡ n
value-decimal_digits zero n h = absurd (omega arith)
value-decimal_digits (suc fuel) n h = elim (Bool-cases (ltb n 10)) [
  | inl small ↦ rw small (omega arith)
  | inr large ↦ rw large (
      omega (
        arith,
        value_from-last 0 (48 + n % 10) (decimal_digits fuel (n / 10)),
        value-decimal_digits fuel (n / 10) (ground (arith, large)),
      ))
]

-- Two records never share a cache key.
pub cache_key_injective : (i j : ℕ) → cache_key i ≡ cache_key j → i ≡ j
cache_key_injective i j e =
    sym (value-decimal_digits (i + 1) i (omega arith))
    ∙ ap (λ s. value_from 0 (drop 10 s)) e
    ∙ value-decimal_digits (j + 1) j (omega arith)
