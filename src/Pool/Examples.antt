-- ===== src/Pool/Examples.antt =====
-- Runs of the lending pool, and its theorems at concrete inputs.
use de_fi_lending_stellar_pa.Prelude.{
  ◌*◌, ◌/◌, ◌≤◌, ◌≡◌, refl, true, some, none, [], ◌∷◌, arith, nat_equality, pair_equality,
}
use de_fi_lending_stellar_pa.Int.{ℤ, pos, ◌+ℤ◌, ◌-ℤ◌, ◌*ℤ◌, ◌≤ℤ◌, ◌<ℤ◌, quot, pos_part}
use de_fi_lending_stellar_pa.Map.{lookup, insert}
use de_fi_lending_stellar_pa.Soroban.{
  Address, ok, err, Env, Transfer, in_i128, rem_u64, u32_limit, authorized, health_factor_too_low,
  insufficient_shares,
}
use de_fi_lending_stellar_pa.Pool.State.{
  Pool, AssetConfig, deployed, total_deposit, total_borrow, deposit_shares_total, deposit_shares_of,
  collateral_of, borrow_index, debt_of, owed, index_scale, move_tokens, asset_config,
  require_not_paused, collateral_deposited,
}
use de_fi_lending_stellar_pa.Pool.Interest.{
  accrue_interest, borrow_apy_bps, utilization, kinked_rate,
}
use de_fi_lending_stellar_pa.Pool.Supply.{
  supply, withdraw, supply_collateral, shares_for, amount_for,
}
use de_fi_lending_stellar_pa.Pool.Borrow.{
  borrow, borrow_internal, check_health, repay_internal, collect,
}
use de_fi_lending_stellar_pa.Pool.Shares.{
  NonNegativeTotals, with_virtual, supply_keeps_price, supply_withdraw_no_gain,
}
use de_fi_lending_stellar_pa.Pool.Debt.{borrow_forgets_interest, borrow_covered}
use de_fi_lending_stellar_pa.Pool.Phantom.{phantom_collateral_pays}

-- 1 is the admin, 5 and 6 are users, 9 is the pool, 8 the token contract of asset 20.
abbrev pub env : Env
env = record {
  signers = λ a. true;
  invoker = none;
  current = 9;
  sequence = 1000;
  timestamp = 5000;
  token_accepts = λ before t. true;
}

abbrev pub config : AssetConfig
config = record {
  asset = 20;
  collateral_vault = 3;
  oracle = 4;
  ltoken = 7;
  token_address = 8;
  base_rate_bps = 200;
  slope1_bps = 1_000;
  slope2_bps = 13_000;
  kink_bps = 8_000;
  reserve_factor_bps = 1_000;
  ltv_bps = 7_500;
}

abbrev open_pool : Pool
open_pool = record deployed {
  admin = some 1;
  asset_configs = (20, config) ∷ [];
  total_deposits = (20, pos 2_000_000) ∷ [];
  total_deposit_shares = (20, pos 2_000_000) ∷ [];
  total_borrows = (20, pos 0) ∷ [];
  borrow_indices = (20, index_scale) ∷ [];
  last_accruals = (20, 1000) ∷ [];
  deposit_shares = ((6, 20), pos 2_000_000) ∷ [];
  asset_list = some (20 ∷ []);
}

abbrev moved : Address → Address → ℤ → Transfer
moved from to n = record { token = 8; from = from; to = to; amount = n }

abbrev supplied : Pool
supplied = record open_pool {
  deposit_shares = ((6, 20), pos 2_000_000) ∷ ((5, 20), pos 300) ∷ [];
  total_deposit_shares = (20, pos 2_000_300) ∷ [];
  total_deposits = (20, pos 2_000_300) ∷ [];
  transfers = moved 5 9 (pos 300) ∷ [];
}

supply_runs : supply env 5 20 (pos 300) open_pool ≡ ok (supplied, pos 300)
unfolding supply require_not_paused accrue_interest move_tokens asset_config shares_for
    total_deposit deposit_shares_total total_borrow lookup insert in_i128 ◌+ℤ◌ ◌*ℤ◌ quot
supply_runs = refl

abbrev left : Pool
left = record supplied {
  deposit_shares = ((6, 20), pos 2_000_000) ∷ ((5, 20), pos 0) ∷ [];
  total_deposits = (20, pos 2_000_000) ∷ [];
  transfers = moved 9 5 (pos 300) ∷ moved 5 9 (pos 300) ∷ [];
}

withdraw_runs : withdraw env 5 20 (pos 300) supplied ≡ ok (left, pos 300)
unfolding withdraw require_not_paused accrue_interest move_tokens asset_config amount_for
    total_deposit deposit_shares_total total_borrow lookup insert in_i128 ◌+ℤ◌ ◌-ℤ◌ ◌*ℤ◌ quot
withdraw_runs = refl

withdraw_too_many : withdraw env 5 20 (pos 301) supplied ≡ err insufficient_shares
unfolding withdraw require_not_paused accrue_interest total_borrow lookup
withdraw_too_many = refl

open_totals : NonNegativeTotals 20 open_pool
unfolding total_deposit deposit_shares_total lookup
open_totals = record { deposit = omega arith; shares = omega arith }

supply_keeps_price_example :
    let t = with_virtual (deposit_shares_total 20 open_pool) in
    let d = with_virtual (total_deposit 20 open_pool) in
    (pos_part (pos 300) ≡ pos_part (pos 300) * t / d)
    × (d * with_virtual (deposit_shares_total 20 supplied)
        ≤ with_virtual (total_deposit 20 supplied) * t)
supply_keeps_price_example = supply_keeps_price env 5 20 (pos 300) open_pool open_totals supply_runs

supply_withdraw_no_gain_example : (pos 0 ≤ℤ pos 300) × (pos 300 ≤ℤ pos 300)
supply_withdraw_no_gain_example =
    supply_withdraw_no_gain env env 5 20 (pos 300) open_pool open_totals supply_runs withdraw_runs

-- User 5 owes 1,000 since the index was 1.0; it is 1.1 now.
abbrev indebted : Pool
indebted = record open_pool {
  total_borrows = (20, pos 1_000) ∷ [];
  borrow_indices = (20, pos 1_100_000_000_000_000_000) ∷ [];
  borrowers = ((5, 20), record { principal = pos 1_000; index = index_scale }) ∷ [];
  deposit_shares = ((6, 20), pos 2_000_000) ∷ ((5, 20), pos 5_000) ∷ [];
}

accrued_now : accrue_interest env 20 indebted ≡ ok indebted
unfolding accrue_interest total_borrow lookup
accrued_now = refl

owes_now : debt_of 5 20 indebted ≡ ok (pos 1_100)
unfolding debt_of owed borrow_index lookup in_i128 ◌*ℤ◌ quot
owes_now = refl

abbrev repaid_part : Pool
repaid_part = record indebted {
  borrowers = ((5, 20), record { principal = pos 700; index = pos 1_100_000_000_000_000_000 }) ∷ [];
  total_borrows = (20, pos 600) ∷ [];
  transfers = moved 6 9 (pos 400) ∷ [];
}

repay_runs : repay_internal env 6 5 20 (pos 400) indebted ≡ ok (repaid_part, pos 400)
unfolding repay_internal require_not_paused accrue_interest collect move_tokens asset_config owed
    borrow_index total_borrow lookup insert in_i128 ◌-ℤ◌ ◌*ℤ◌ quot
repay_runs = refl

abbrev borrowed_more : Pool
borrowed_more = record indebted {
  borrowers =
      ((5, 20), record { principal = pos 1_010; index = pos 1_100_000_000_000_000_000 }) ∷ [];
  total_borrows = (20, pos 1_010) ∷ [];
  transfers = moved 9 5 (pos 10) ∷ [];
}

borrow_internal_runs : borrow_internal env 5 20 (pos 10) true indebted ≡ ok borrowed_more
unfolding borrow_internal check_health collateral_of debt_of require_not_paused accrue_interest
    move_tokens asset_config owed borrow_index total_borrow lookup insert in_i128 ◌+ℤ◌ ◌*ℤ◌ quot
borrow_internal_runs = refl

borrow_forgets_interest_example :
    (debt_of 5 20 borrowed_more ≡ ok (pos 1_000 +ℤ pos 10))
    × (pos 1_000 +ℤ pos 10 <ℤ pos 1_100 +ℤ pos 10)
    × (total_borrow 20 borrowed_more ≡ total_borrow 20 indebted +ℤ pos 10)
unfolding borrow_index lookup in_i128 ◌+ℤ◌ ◌*ℤ◌
borrow_forgets_interest_example =
    borrow_forgets_interest env 5 20 (pos 10) (pos 1_100) true indebted indebted
      (record { principal = pos 1_000; index = index_scale }) borrow_internal_runs accrued_now refl
      owes_now (omega arith) (omega arith) (omega arith) refl

borrow_runs : borrow env 5 20 (pos 10) indebted ≡ ok borrowed_more
unfolding borrow
borrow_runs = borrow_internal_runs

borrow_covered_example :
    (authorized env 5 ≡ true) × (pos 1_100 +ℤ pos 10 ≤ℤ collateral_of 5 20 indebted)
borrow_covered_example =
    borrow_covered env 5 20 (pos 10) (pos 1_100) indebted indebted borrow_runs accrued_now owes_now
      (omega arith)

borrow_uncovered : borrow env 5 20 (pos 4_000) indebted ≡ err health_factor_too_low
unfolding borrow borrow_internal check_health collateral_of debt_of require_not_paused
    accrue_interest owed borrow_index total_borrow lookup in_i128 ◌+ℤ◌ ◌*ℤ◌ quot
borrow_uncovered = refl

borrow_apy_now : borrow_apy_bps 20 indebted ≡ ok 200
unfolding borrow_apy_bps asset_config utilization kinked_rate total_borrow total_deposit lookup
    rem_u64 u32_limit
borrow_apy_now = refl

rate_half : kinked_rate config 5_000 ≡ ok 825
unfolding kinked_rate u32_limit
rate_half = refl

rate_high : kinked_rate config 9_000 ≡ ok 7_700
unfolding kinked_rate u32_limit
rate_high = refl

abbrev phantom : Pool
phantom = record open_pool {
  deposit_shares = ((6, 20), pos 2_000_000) ∷ ((5, 20), pos 900) ∷ [];
  events = collateral_deposited 5 20 (pos 900) ∷ [];
}

phantom_booked : supply_collateral env 5 20 (pos 900) open_pool ≡ ok phantom
unfolding supply_collateral require_not_paused asset_config lookup insert in_i128 ◌+ℤ◌
phantom_booked = refl

abbrev drained : Pool
drained = record phantom {
  deposit_shares = ((6, 20), pos 2_000_000) ∷ ((5, 20), pos 0) ∷ [];
  total_deposits = (20, pos 1_999_100) ∷ [];
  transfers = moved 9 5 (pos 900) ∷ [];
}

phantom_paid : withdraw env 5 20 (pos 900) phantom ≡ ok (drained, pos 900)
unfolding withdraw require_not_paused accrue_interest move_tokens asset_config amount_for
    total_deposit deposit_shares_total total_borrow lookup insert in_i128 ◌+ℤ◌ ◌-ℤ◌ ◌*ℤ◌ quot
phantom_paid = refl

phantom_collateral_pays_example :
    (drained.transfers ≡ moved 9 5 (pos 900) ∷ [])
    × (amount_for (pos 900) (deposit_shares_total 20 open_pool) (total_deposit 20 open_pool)
        ≡ ok (pos 900))
    × (total_deposit 20 drained ≡ total_deposit 20 open_pool -ℤ pos 900)
    × (deposit_shares_of 5 20 drained ≡ deposit_shares_of 5 20 open_pool)
unfolding lookup
phantom_collateral_pays_example =
    phantom_collateral_pays env env 5 20 (pos 900) open_pool config refl refl phantom_booked
      phantom_paid
