-- ===== src/Base/Pairs.antt =====
-- Pairs as keys of a dict.
use mathlib.Core.Path.{◌≡◌}
use mathlib.Core.Logic.{◌↔◌}
use mathlib.Core.Bool.{Bool, true, ◌&&◌}
use native.Mathlib.Omega.{arith}
use data_pipeline_async.Base.Keys.{Key}

module _ {ℓ κ} {J : Type ℓ} {K : Type κ} ⦃left : Key J⦄ ⦃right : Key K⦄ where
  abbrev pub pair_beq : J × K → J × K → Bool
  pair_beq p q = left.same p.0 q.0 && right.same p.1 q.1

  pub pair_beq_iff : (p q : J × K) → (pair_beq p q ≡ true) ↔ (p ≡ q)
  pair_beq_iff p q = ground (arith, left.same_iff p.0 q.0, right.same_iff p.1 q.1)

  instance abbrev pub pair_key : Key (J × K)
  pair_key = record { same_iff = pair_beq_iff; same = pair_beq }
