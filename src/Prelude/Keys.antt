-- ===== src/Prelude/Keys.antt =====
-- Equality of keys: numbers and texts.
use mathlib.Core.Bool.{Bool, true, false, ◌&&◌}
use mathlib.Core.List.{[], ◌∷◌}
use mathlib.Core.Logic.{◌↔◌}
use mathlib.Core.Path.{◌≡◌, refl}
use native.Mathlib.Omega.{arith}
use Prim.Native.Nat.{ℕ}
use network_broker.Prelude.Tests.{nat_beq, nat_beq_iff}
use network_broker.Prelude.Lists.{Text}

pub record Key {ℓ} (K : Type ℓ) : Type ℓ where
  pub same : K → K → Bool
  pub same_iff : (k j : K) → (same k j ≡ true) ↔ (k ≡ j)

abbrev pub text_beq : Text → Text → Bool
text_beq [] [] = true
text_beq [] (b ∷ y) = false
text_beq (a ∷ x) [] = false
text_beq (a ∷ x) (b ∷ y) = nat_beq a b && text_beq x y

pub text_beq_iff : (x y : Text) → (text_beq x y ≡ true) ↔ (x ≡ y)
text_beq_iff [] [] = (λ _. refl, λ _. refl)
text_beq_iff [] (b ∷ y) = ground arith
text_beq_iff (a ∷ x) [] = ground arith
text_beq_iff (a ∷ x) (b ∷ y) = ground (arith, text_beq_iff x y)

instance abbrev pub nat_eq : Key ℕ
nat_eq = record { same = nat_beq; same_iff = nat_beq_iff }

instance abbrev pub text_eq : Key Text
text_eq = record { same = text_beq; same_iff = text_beq_iff }

infix 50 ◌==◌
abbrev pub ◌==◌ {ℓ} : {K : Type ℓ} ⦃key : Key K⦄ → K → K → Bool
◌==◌ ⦃key⦄ = key.same
