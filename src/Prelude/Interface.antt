-- ===== src/Prelude/Interface.antt =====
-- Equality of keys as an interface, with one operator for every type that has an instance.
use bxtest.Prelude.Tests.{nat_beq, nat_beq_iff}
use Prim.Native.Nat.{ℕ}
use mathlib.Core.Path.{◌≡◌}
use mathlib.Core.Logic.{◌↔◌}
use mathlib.Core.Bool.{Bool, true}

pub record Eq {ℓ} (K : Type ℓ) : Type ℓ where
  pub beq : K → K → Bool
  -- what Go's `==` means on keys
  pub beq_iff : (i j : K) → (beq i j ≡ true) ↔ (i ≡ j)

instance abbrev pub nat_eq : Eq ℕ
nat_eq = record { beq = nat_beq; beq_iff = nat_beq_iff }

infix 50 ◌==◌
module _ {ℓ} {K : Type ℓ} ⦃e : Eq K⦄ where
  abbrev pub ◌==◌ : K → K → Bool
  ◌==◌ i j = e.beq i j
