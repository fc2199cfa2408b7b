-- ===== src/Pool/Interest.antt =====
-- The borrow rate and the accrual of interest into the borrow index.
use de_fi_lending_stellar_pa.Prelude.{ℕ, ◌-◌, ◌*◌, ◌%◌, min, leb, if◌then◌else◌, nat_equality}
use de_fi_lending_stellar_pa.Int.{ℤ, pos, eqb_ℤ}
use de_fi_lending_stellar_pa.Map.{lookup, insert}
use de_fi_lending_stellar_pa.Soroban.{
  Symbol, Result, ok, ◌>>=◌, Env, unwrap_or, add_i128, mul_i128, div_i128, rem_u64, add_u32,
  sub_u32, mul_u32, div_u32, mul_u64, div_u64, max_u32, u32_limit,
}
use de_fi_lending_stellar_pa.Pool.State.{
  Pool, AssetConfig, asset_config, total_deposit, total_borrow, borrow_index, index_scale,
}

-- The share of the deposits that is lent out, in basis points: an `as u32` of a `u64` quotient.
unfoldable pub utilization : ℤ → ℤ → Result ℕ
utilization total_b total_d =
    if eqb_ℤ total_d (pos 0)
    then ok 0
    else (mul_u64 (min (rem_u64 total_b) (rem_u64 total_d)) 10_000 >>= λ scaled.
        div_u64 scaled (rem_u64 total_d) >>= λ u. ok (u % u32_limit))

-- The kinked rate at a utilisation.
unfoldable pub kinked_rate : AssetConfig → ℕ → Result ℕ
kinked_rate cfg u =
    if leb u cfg.kink_bps
    then (do
      slope ← mul_u32 cfg.slope1_bps u
      part ← div_u32 slope (max_u32 cfg.kink_bps 1)
      add_u32 cfg.base_rate_bps part)
    else (do
      base ← add_u32 cfg.base_rate_bps cfg.slope1_bps
      above ← sub_u32 u cfg.kink_bps
      slope ← mul_u32 cfg.slope2_bps above
      width ← sub_u32 10_000 cfg.kink_bps
      part ← div_u32 slope (max_u32 width 1)
      add_u32 base part)

unfoldable pub borrow_apy_bps : Symbol → Pool → Result ℕ
borrow_apy_bps asset s = do
  cfg ← asset_config asset s
  u ← utilization (total_borrow asset s) (total_deposit asset s)
  kinked_rate cfg u

-- The growth of the index over some ledgers at a rate.
unfoldable pub index_delta : ℕ → ℕ → Result ℤ
index_delta blocks apy = do
  numer ← mul_i128 (pos apy) (pos 5)
  over_blocks ← mul_i128 (pos blocks) numer
  scaled ← mul_i128 over_blocks index_scale
  div_i128 scaled (pos (10_000 * 31_536_000))

abbrev pub last_accrual : Env → Symbol → Pool → ℕ
last_accrual e asset s = unwrap_or (lookup asset s.last_accruals) e.sequence

unfoldable pub accrue_interest : Env → Symbol → Pool → Result Pool
accrue_interest e asset s =
    if eqb_ℤ (total_borrow asset s) (pos 0)
    then ok s
    else if leb e.sequence (last_accrual e asset s)
    then ok s
    else (do
      apy ← borrow_apy_bps asset s
      delta ← index_delta (e.sequence - last_accrual e asset s) apy
      index ← add_i128 (borrow_index asset s) delta
      ok (record s {
        borrow_indices = insert asset index s.borrow_indices;
        last_accruals = insert asset e.sequence s.last_accruals;
      }))
