-- ===== src/Int/Product.antt =====
-- Products and quotients of integers that are not negative.
use de_fi_lending_stellar_pa.Prelude.{ℕ, ◌*◌, ◌/◌, ◌≡◌, arith}
use native.Mathlib.Nat.{mul-div_cancel}
use de_fi_lending_stellar_pa.Int.{ℤ, pos, negsuc, ◌*ℤ◌, ◌≤ℤ◌, quot, pos_part}

pub pos-*ℤ : (a b : ℕ) → pos a *ℤ pos b ≡ pos (a * b)
unfolding ◌*ℤ◌
pos-*ℤ a b = ground arith

pub pos_part-*ℤ : (a b : ℤ) → pos 0 ≤ℤ a → pos 0 ≤ℤ b → pos_part (a *ℤ b) ≡ pos_part a * pos_part b
unfolding ◌*ℤ◌
pos_part-*ℤ (pos a) (pos b) ha hb = ground arith
pos_part-*ℤ (pos a) (negsuc b) ha hb = absurd (omega arith)
pos_part-*ℤ (negsuc a) b ha hb = absurd (omega arith)

pub *ℤ_nonneg : (a b : ℤ) → pos 0 ≤ℤ a → pos 0 ≤ℤ b → pos 0 ≤ℤ a *ℤ b
unfolding ◌*ℤ◌
*ℤ_nonneg (pos a) (pos b) ha hb = ground arith
*ℤ_nonneg (pos a) (negsuc b) ha hb = absurd (omega arith)
*ℤ_nonneg (negsuc a) b ha hb = absurd (omega arith)

pub pos_part-quot :
    (a b : ℤ) → pos 0 ≤ℤ a → pos 0 ≤ℤ b → pos_part (quot a b) ≡ pos_part a / pos_part b
unfolding quot
pos_part-quot (pos a) (pos b) ha hb = ground arith
pos_part-quot (pos a) (negsuc b) ha hb = absurd (omega arith)
pos_part-quot (negsuc a) b ha hb = absurd (omega arith)

pub quot_nonneg : (a b : ℤ) → pos 0 ≤ℤ a → pos 0 ≤ℤ b → pos 0 ≤ℤ quot a b
unfolding quot
quot_nonneg (pos a) (pos b) ha hb = ground arith
quot_nonneg (pos a) (negsuc b) ha hb = absurd (omega arith)
quot_nonneg (negsuc a) b ha hb = absurd (omega arith)

-- Scaling by a positive index and back.
pub quot-*ℤ : (a i : ℤ) → pos 0 ≤ℤ a → pos 1 ≤ℤ i → quot (a *ℤ i) i ≡ a
unfolding quot ◌*ℤ◌
quot-*ℤ (pos a) (pos i) ha hi = ground (arith, mul-div_cancel a {n = i} (omega arith))
quot-*ℤ (pos a) (negsuc i) ha hi = absurd (omega arith)
quot-*ℤ (negsuc a) i ha hi = absurd (omega arith)

pub le-*ℤ : (a i : ℤ) → pos 0 ≤ℤ a → pos 1 ≤ℤ i → a ≤ℤ a *ℤ i
unfolding ◌*ℤ◌
le-*ℤ (pos a) (pos i) ha hi = grind arith
le-*ℤ (pos a) (negsuc i) ha hi = absurd (omega arith)
le-*ℤ (negsuc a) i ha hi = absurd (omega arith)
