-- ===== src/Pool/ReachExamples.antt =====
-- A history of the lending pool, with a failed call in it.
use de_fi_lending_stellar_pa.Prelude.{◌≡◌, refl, List, [], ◌∷◌, nat_equality, pair_equality}
use de_fi_lending_stellar_pa.Int.{pos, negsuc, ◌+ℤ◌, ◌-ℤ◌, ◌*ℤ◌, ◌≤ℤ◌, quot}
use de_fi_lending_stellar_pa.Map.{lookup, insert}
use de_fi_lending_stellar_pa.Soroban.{ok, Env, run, in_i128}
use de_fi_lending_stellar_pa.Pool.State.{
  Pool, deployed, initialize, add_asset, contains, listed, require_not_paused, asset_config,
  move_tokens, total_deposit, total_borrow, borrow_index, deposit_shares_total, collateral_of,
  debt_of, owed, index_scale,
}
use de_fi_lending_stellar_pa.Pool.Interest.{accrue_interest}
use de_fi_lending_stellar_pa.Pool.Supply.{
  supply, withdraw, supply_collateral, shares_for, amount_for,
}
use de_fi_lending_stellar_pa.Pool.Borrow.{
  borrow, borrow_internal, check_health, repay, repay_internal, collect,
}
use de_fi_lending_stellar_pa.Pool.Runs.{
  Op, invoke, initialize_op, add_asset_op, supply_op, supply_collateral_op, withdraw_op, borrow_op,
  repay_op,
}
use de_fi_lending_stellar_pa.Pool.Reach.{history_nonneg}
use de_fi_lending_stellar_pa.Pool.Examples.{env, config}

-- User 5 cannot withdraw the 6,000 shares of the sixth call.
abbrev calls : List (Env × Op)
calls =
    (env, initialize_op 1)
    ∷ (env, add_asset_op config)
    ∷ (env, supply_op 6 20 (pos 10_000))
    ∷ (env, supply_collateral_op 5 20 (pos 5_000))
    ∷ (env, borrow_op 5 20 (pos 1_000))
    ∷ (env, withdraw_op 5 20 (pos 6_000))
    ∷ (env, repay_op 5 20 (pos 300))
    ∷ []

abbrev lent : Pool
lent = run invoke calls deployed

debt_left : debt_of 5 20 lent ≡ ok (pos 700)
unfolding run invoke initialize add_asset contains listed require_not_paused asset_config
    move_tokens total_deposit total_borrow borrow_index deposit_shares_total collateral_of debt_of
    owed accrue_interest supply withdraw supply_collateral shares_for borrow borrow_internal
    check_health repay repay_internal collect lookup insert in_i128 ◌+ℤ◌ ◌-ℤ◌ ◌*ℤ◌ quot
debt_left = refl

history_nonneg_example :
    (pos 0 ≤ℤ collateral_of 5 20 lent) × (pos 0 ≤ℤ pos 700) × (index_scale ≤ℤ borrow_index 20 lent)
history_nonneg_example = history_nonneg calls 5 20 debt_left

-- 5,000,000 of collateral for which no token came in, withdrawn as shares.
abbrev phantom : List (Env × Op)
phantom =
    (env, initialize_op 1)
    ∷ (env, add_asset_op config)
    ∷ (env, supply_collateral_op 5 20 (pos 5_000_000))
    ∷ (env, withdraw_op 5 20 (pos 5_000_000))
    ∷ []

abbrev drained : Pool
drained = run invoke phantom deployed

total_below_zero : total_deposit 20 drained ≡ negsuc 4_999_999
unfolding run invoke initialize add_asset contains listed require_not_paused asset_config
    move_tokens total_deposit total_borrow deposit_shares_total accrue_interest withdraw amount_for
    supply_collateral lookup insert in_i128 ◌+ℤ◌ ◌-ℤ◌ ◌*ℤ◌ quot
total_below_zero = refl

-- The divisor is held at 1, and every unit buys 1,000,000 shares.
minted_below_zero : shares_for (pos 10) (pos 0) (negsuc 4_999_999) ≡ ok (pos 10_000_000)
unfolding shares_for in_i128 ◌+ℤ◌ ◌*ℤ◌ quot
minted_below_zero = refl
