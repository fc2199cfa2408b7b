-- ===== src/Liquidation/Examples.antt =====
-- A liquidation at concrete contracts: 4,000 of a debt of 10,000 against 12,000 of collateral.
use de_fi_lending_stellar_pa.Prelude.{
  ◌≡◌, refl, true, none, some, [], ◌∷◌, nat_equality, pair_equality, arith,
}
use de_fi_lending_stellar_pa.Int.{ℤ, pos, ◌+ℤ◌, ◌-ℤ◌, ◌*ℤ◌, quot, ◌≤ℤ◌}
use de_fi_lending_stellar_pa.Map.{lookup, insert}
use de_fi_lending_stellar_pa.Soroban.{
  Symbol, ok, err, Env, enter, in_i128, saturating_sub, authorized, exceeds_close_factor,
}
use de_fi_lending_stellar_pa.Vault.{
  Vault, deployed as new_vault, position, require_operator, move_tokens, seize,
}
use de_fi_lending_stellar_pa.Oracle.{
  Oracle, deployed as new_oracle, get_price, value_of, collect_median, collect_loop, report,
  push_price, is_fresh, median, exchange, exchange_sort,
}
use de_fi_lending_stellar_pa.Pool.State.{
  Pool, AssetConfig as PoolAsset, deployed as new_pool, index_scale, debt_of, owed, ltv_bps,
  asset_config, total_borrow, borrow_index, require_not_paused, require_operator as pool_operator,
  move_tokens as pool_transfer,
}
use de_fi_lending_stellar_pa.Pool.Interest.{accrue_interest}
use de_fi_lending_stellar_pa.Pool.Borrow.{repay_on_behalf, repay_internal, collect}
use de_fi_lending_stellar_pa.Liquidation.{
  LiquidationConfig, World, Seizure, liquidate, assess, settle, seizure, config, treasury,
  oracle_value, oracle_price, asset_ltv_bps, pool_debt_of, vault_position, pool_repay_on_behalf,
  vault_seize, bps_of, units_of, require_liquidatable, seize_fee,
}
use de_fi_lending_stellar_pa.Liquidation.Assessment.{IsDue}
use de_fi_lending_stellar_pa.Liquidation.Settlement.{liquidation_settles, liquidate-IsDue}

-- 70 is the engine, 71 the pool, 72 the vault, 73 the oracle and 74 the treasury; 5 owes asset 21 to
-- the pool and has asset 20 in the vault, and 6 liquidates.
abbrev env : Env
env = record {
  signers = λ a. true;
  invoker = none;
  current = 70;
  sequence = 1000;
  timestamp = 5000;
  token_accepts = λ before t. true;
}

abbrev prices : Oracle
prices = record new_oracle {
  admin = some 1;
  asset_configs =
      (20, record { asset = 20; heartbeat = 300; min_publishers = 1 })
      ∷ (21, record { asset = 21; heartbeat = 300; min_publishers = 1 })
      ∷ [];
  publisher_prices = ((20, 11), pos 10_000_000) ∷ ((21, 11), pos 10_000_000) ∷ [];
  publisher_updated = ((20, 11), 1000) ∷ ((21, 11), 1000) ∷ [];
  publishers = (11, true) ∷ [];
  publisher_list = (0, 11) ∷ [];
  publisher_list_len = some 1;
}

abbrev asset : Symbol → PoolAsset
asset x = record {
  asset = x;
  collateral_vault = 72;
  oracle = 73;
  ltoken = 7;
  token_address = 8;
  base_rate_bps = 200;
  slope1_bps = 1_000;
  slope2_bps = 13_000;
  kink_bps = 8_000;
  reserve_factor_bps = 1_000;
  ltv_bps = 8_000;
}

abbrev lent : Pool
lent = record new_pool {
  admin = some 1;
  skip_token_transfers = some true;
  operators = (70, true) ∷ [];
  asset_configs = (20, asset 20) ∷ (21, asset 21) ∷ [];
  total_borrows = (21, pos 10_000) ∷ [];
  borrow_indices = (21, index_scale) ∷ [];
  last_accruals = (21, 1000) ∷ [];
  borrowers = ((5, 21), record { principal = pos 10_000; index = index_scale }) ∷ [];
}

abbrev repaid : Pool
repaid = record lent {
  total_borrows = (21, pos 6_000) ∷ [];
  borrowers = ((5, 21), record { principal = pos 6_000; index = index_scale }) ∷ [];
}

abbrev held : Vault
held = record new_vault {
  admin = some 1;
  operators = (70, true) ∷ [];
  positions = ((5, 20), pos 12_000) ∷ [];
  totals = (20, pos 12_000) ∷ [];
}

abbrev taken : Vault
taken = record held {
  positions = ((5, 20), pos 7_800) ∷ ((6, 20), pos 4_160) ∷ ((74, 20), pos 40) ∷ [];
}

abbrev cfg : LiquidationConfig
cfg = record {
  pool = 71;
  vault = 72;
  oracle = 73;
  bonus_bps = 500;
  fee_bps = 2_000;
  close_factor_bps = 5_000;
}

abbrev before : World
before = record {
  engine = record { admin = some 1; config = some cfg; treasury = some 74 };
  pools = (71, lent) ∷ [];
  vaults = (72, held) ∷ [];
  oracles = (73, prices) ∷ [];
}

abbrev after : World
after = record before { pools = (71, repaid) ∷ []; vaults = (72, taken) ∷ [] }

liquidate_runs : liquidate env 6 5 21 20 (pos 4_000) before ≡ ok (after, pos 4_160)
unfolding liquidate assess settle seizure config treasury oracle_value oracle_price asset_ltv_bps
    pool_debt_of vault_position pool_repay_on_behalf vault_seize bps_of units_of
    require_liquidatable seize_fee position require_operator move_tokens seize get_price value_of
    collect_median collect_loop report push_price is_fresh median exchange exchange_sort debt_of
    owed ltv_bps asset_config total_borrow borrow_index require_not_paused pool_operator
    pool_transfer accrue_interest repay_on_behalf repay_internal collect lookup insert in_i128
    saturating_sub ◌+ℤ◌ ◌-ℤ◌ ◌*ℤ◌ quot
liquidate_runs = refl

liquidate_too_much : liquidate env 6 5 21 20 (pos 5_001) before ≡ err exceeds_close_factor
unfolding liquidate assess config oracle_value asset_ltv_bps pool_debt_of vault_position bps_of
    require_liquidatable position get_price value_of collect_median collect_loop report push_price
    is_fresh median exchange exchange_sort debt_of owed ltv_bps asset_config borrow_index lookup
    in_i128 ◌+ℤ◌ ◌-ℤ◌ ◌*ℤ◌ quot
liquidate_too_much = refl

liquidation_settles_example :
    (v : Vault) × (v' : Vault) × (fee : ℤ) × (lookup 72 before.vaults ≡ some v)
    × (lookup 72 after.vaults ≡ some v')
    × (pos 1 ≤ℤ pos 4_160)
    × (pos 0 ≤ℤ fee)
    × (pos 4_160 +ℤ fee ≤ℤ position 5 20 v)
    × (position 5 20 v' ≡ position 5 20 v -ℤ (pos 4_160 +ℤ fee))
    × (position 6 20 v' ≡ position 6 20 v +ℤ pos 4_160)
    × (position 74 20 v' ≡ position 74 20 v +ℤ fee)
unfolding config treasury
liquidation_settles_example =
    liquidation_settles env cfg 6 5 74 20 (λ q. omega (arith, q)) (λ q. omega (arith, q))
      (λ q. omega (arith, q)) 21 (pos 4_000) before refl refl liquidate_runs

liquidate-IsDue_example :
    (z : Seizure) × (p : Pool) × (p' : Pool) × (m : ℤ) × (authorized env 6 ≡ true)
    × (pos 4_160 ≡ z.seize_amount)
    × IsDue env cfg 5 21 20 (pos 4_000) before z
    × (lookup 71 before.pools ≡ some p)
    × (repay_on_behalf (enter env 71) 70 6 5 21 (pos 4_000) p ≡ ok (p', m))
    × (lookup 71 after.pools ≡ some p')
unfolding config
liquidate-IsDue_example = liquidate-IsDue env 6 5 21 20 (pos 4_000) before cfg refl liquidate_runs
