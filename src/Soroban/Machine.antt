-- ===== src/Soroban/Machine.antt =====
-- Machine integers. The release profile sets `overflow-checks`, so an unchecked operator panics on
-- overflow as `checked_*().expect("overflow")` does. An `i128` is an integer in range, a `u32` or
-- `u64` a natural number in range.
use de_fi_lending_stellar_pa.Prelude.{
  ℕ, ◌+◌, ◌-◌, ◌*◌, ◌/◌, ◌%◌, ◌^◌, ◌<◌, ◌≤◌, ◌≡◌, Bool, true, arith, ltb, leb, ◌==◌, if◌then◌else◌,
}
use de_fi_lending_stellar_pa.Int.{
  ℤ, pos, negsuc, ◌+ℤ◌, ◌-ℤ◌, ◌*ℤ◌, quot, eqb_ℤ, leb_ℤ, pos_part, neg_part, ◌≤ℤ◌,
}
use de_fi_lending_stellar_pa.Soroban.Call.{Result, ok, err, overflow, division_by_zero}

unfoldable pub i128_limit : ℕ
i128_limit = 2 ^ 127

unfoldable pub u64_limit : ℕ
u64_limit = 2 ^ 64

unfoldable pub u32_limit : ℕ
u32_limit = 2 ^ 32

unfoldable pub u128_limit : ℕ
u128_limit = 2 ^ 128

unfoldable pub in_i128 : ℤ → Bool
unfolding i128_limit
in_i128 (pos n) = ltb n i128_limit
in_i128 (negsuc n) = ltb n i128_limit

abbrev pub i128 : ℤ → Result ℤ
i128 z = if in_i128 z then ok z else err overflow

abbrev pub add_i128 : ℤ → ℤ → Result ℤ
add_i128 a b = i128 (a +ℤ b)

abbrev pub sub_i128 : ℤ → ℤ → Result ℤ
sub_i128 a b = i128 (a -ℤ b)

abbrev pub mul_i128 : ℤ → ℤ → Result ℤ
mul_i128 a b = i128 (a *ℤ b)

abbrev pub div_i128 : ℤ → ℤ → Result ℤ
div_i128 a b = if eqb_ℤ b (pos 0) then err division_by_zero else i128 (quot a b)

-- `a.saturating_sub(b)` stops at the bounds.
unfoldable pub saturating_sub : ℤ → ℤ → ℤ
unfolding i128_limit
saturating_sub a b =
    if in_i128 (a -ℤ b)
    then a -ℤ b
    else if leb_ℤ (pos 0) (a -ℤ b)
    then pos (i128_limit - 1)
    else negsuc (i128_limit - 1)

-- `x as u64` keeps the low 64 bits of the two's complement.
unfoldable pub rem_u64 : ℤ → ℕ
unfolding u64_limit
rem_u64 (pos n) = n % u64_limit
rem_u64 (negsuc n) = u64_limit - 1 - n % u64_limit

abbrev u32 : ℕ → Result ℕ
u32 n = if ltb n u32_limit then ok n else err overflow

abbrev u64 : ℕ → Result ℕ
u64 n = if ltb n u64_limit then ok n else err overflow

abbrev pub add_u32 : ℕ → ℕ → Result ℕ
add_u32 a b = u32 (a + b)

abbrev pub sub_u32 : ℕ → ℕ → Result ℕ
sub_u32 a b = if leb b a then ok (a - b) else err overflow

abbrev pub mul_u32 : ℕ → ℕ → Result ℕ
mul_u32 a b = u32 (a * b)

abbrev pub div_u32 : ℕ → ℕ → Result ℕ
div_u32 a b = if b == 0 then err division_by_zero else ok (a / b)

abbrev pub add_u64 : ℕ → ℕ → Result ℕ
add_u64 a b = u64 (a + b)

abbrev pub mul_u64 : ℕ → ℕ → Result ℕ
mul_u64 a b = u64 (a * b)

abbrev pub div_u64 : ℕ → ℕ → Result ℕ
div_u64 a b = if b == 0 then err division_by_zero else ok (a / b)

-- `x as u128` and `x as i128` read the two's complement the other way.
unfoldable pub rem_u128 : ℤ → ℕ
unfolding u128_limit
rem_u128 (pos n) = n % u128_limit
rem_u128 (negsuc n) = u128_limit - 1 - n % u128_limit

unfoldable pub wrap_i128 : ℕ → ℤ
unfolding i128_limit u128_limit
wrap_i128 n = if ltb n i128_limit then pos n else negsuc (u128_limit - 1 - n)

abbrev pub mul_u128 : ℕ → ℕ → Result ℕ
mul_u128 a b = if ltb (a * b) u128_limit then ok (a * b) else err overflow

abbrev pub max_u32 : ℕ → ℕ → ℕ
max_u32 a b = if leb a b then b else a

-- What passes the check lies within the bounds of `i128`.
pub in_i128-bounds :
    (z : ℤ) → in_i128 z ≡ true → (pos_part z < i128_limit) × (neg_part z ≤ i128_limit)
unfolding in_i128 i128_limit
in_i128-bounds (pos n) h = ground arith
in_i128-bounds (negsuc n) h = ground arith

-- A number between 0 and an `i128` is an `i128`.
pub in_i128-between : (a b : ℤ) → in_i128 b ≡ true → pos 0 ≤ℤ a → a ≤ℤ b → in_i128 a ≡ true
unfolding in_i128 i128_limit
in_i128-between (pos a) (pos b) h p q = ground arith
in_i128-between (pos a) (negsuc b) h p q = absurd (omega arith)
in_i128-between (negsuc a) b h p q = absurd (omega arith)
