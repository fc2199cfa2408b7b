-- ===== src/Pool/Runs.antt =====
-- The entry points of the pool that change its storage, for histories.
use de_fi_lending_stellar_pa.Prelude.{Bool}
use de_fi_lending_stellar_pa.Int.{ℤ}
use de_fi_lending_stellar_pa.Soroban.{Address, Symbol, Result, ok, ◌>>=◌, Env}
use de_fi_lending_stellar_pa.Pool.State.{
  AssetConfig, Pool, initialize, add_asset, set_paused, add_operator, set_skip_token_transfers,
}
use de_fi_lending_stellar_pa.Pool.Interest.{accrue_interest}
use de_fi_lending_stellar_pa.Pool.Supply.{supply, withdraw, supply_collateral, withdraw_collateral}
use de_fi_lending_stellar_pa.Pool.Borrow.{borrow, borrow_raw, repay, repay_on_behalf}

pub data Op : Type 0 where
  initialize_op add_operator_op : Address → Op
  add_asset_op : AssetConfig → Op
  set_paused_op set_skip_op : Bool → Op
  accrue_interest_op : Symbol → Op
  supply_op withdraw_op supply_collateral_op withdraw_collateral_op : Address → Symbol → ℤ → Op
  borrow_op repay_op : Address → Symbol → ℤ → Op
  borrow_raw_op : Address → Address → Symbol → ℤ → Op
  repay_on_behalf_op : Address → Address → Address → Symbol → ℤ → Op

unfoldable pub invoke : Env → Op → Pool → Result Pool
invoke e (initialize_op a) s = initialize e a s
invoke e (add_operator_op a) s = add_operator e a s
invoke e (add_asset_op c) s = add_asset e c s
invoke e (set_paused_op to) s = set_paused e to s
invoke e (set_skip_op skip) s = set_skip_token_transfers e skip s
invoke e (accrue_interest_op x) s = accrue_interest e x s
invoke e (supply_op user x n) s = do (s', _) ← supply e user x n s; ok s'
invoke e (withdraw_op user x n) s = do (s', _) ← withdraw e user x n s; ok s'
invoke e (supply_collateral_op user x n) s = supply_collateral e user x n s
invoke e (withdraw_collateral_op user x n) s = do (s', _) ← withdraw_collateral e user x n s; ok s'
invoke e (borrow_op user x n) s = borrow e user x n s
invoke e (repay_op user x n) s = do (s', _) ← repay e user x n s; ok s'
invoke e (borrow_raw_op caller user x n) s = borrow_raw e caller user x n s
invoke e (repay_on_behalf_op op payer user x n) s = do
  (s', _) ← repay_on_behalf e op payer user x n s
  ok s'
