-- ===== src/Prelude/Eq.antt =====
-- Types with a Boolean equality: the keys of the maps.
use Prim.Native.Nat.{ℕ}
use mathlib.Core.Path.{◌≡◌, refl}
use mathlib.Core.Logic.{◌↔◌, ◌≢◌}
use mathlib.Core.Bool.{Bool, true, false, ◌&&◌}
use native.Mathlib.Omega.{arith}
use de_fi_lending_stellar_pa.Prelude.Tests.{◌==◌}

pub record Equality {ℓ} (A : Type ℓ) : Type ℓ where
  pub beq : A → A → Bool
  pub beq_iff : (a b : A) → (beq a b ≡ true) ↔ (a ≡ b)

abbrev pub eq {ℓ} : {A : Type ℓ} ⦃e : Equality A⦄ → A → A → Bool
eq ⦃e⦄ = e.beq

pub ==_iff : (a b : ℕ) → ((a == b) ≡ true) ↔ (a ≡ b)
==_iff a b = ground arith

instance abbrev pub nat_equality : Equality ℕ
nat_equality = record { beq = ◌==◌; beq_iff = ==_iff }

abbrev pub pair_beq : ℕ × ℕ → ℕ × ℕ → Bool
pair_beq p q = p.0 == q.0 && p.1 == q.1

pub pair_beq_iff : (a b : ℕ × ℕ) → (pair_beq a b ≡ true) ↔ (a ≡ b)
pair_beq_iff a b = ground arith

instance abbrev pub pair_equality : Equality (ℕ × ℕ)
pair_equality = record { beq = pair_beq; beq_iff = pair_beq_iff }

module _ {ℓ} {A : Type ℓ} ⦃e : Equality A⦄ where
  pub eq→≡ : (a b : A) → eq a b ≡ true → a ≡ b
  eq→≡ a b h = (e.beq_iff a b).0 h

  pub eq_refl : (a : A) → eq a a ≡ true
  eq_refl a = (e.beq_iff a a).1 refl

  pub eq-false : (a b : A) → a ≢ b → eq a b ≡ false
  eq-false a b h = ground (arith, (e.beq_iff a b).0)

  pub not_eq : (a b : A) → eq a b ≡ false → a ≢ b
  not_eq a b h p = ground (arith, (e.beq_iff a b).1 p)
