-- ===== src/Pool/Supply.antt =====
-- Supplying and withdrawing against shares, and the collateral entry points.
use de_fi_lending_stellar_pa.Prelude.{◌∷◌, nat_equality, pair_equality}
use de_fi_lending_stellar_pa.Int.{ℤ, pos, max_ℤ, ltb_ℤ}
use de_fi_lending_stellar_pa.Map.{insert}
use de_fi_lending_stellar_pa.Map.Sum.{amount_at}
use de_fi_lending_stellar_pa.Soroban.{
  Address, Symbol, Result, ok, ◌>>=◌, ◌>>◌, Env, panic_if, require_auth, require_positive, add_i128,
  sub_i128, mul_i128, div_i128, amount_not_positive, shares_not_positive, insufficient_shares,
  insufficient_collateral,
}
use de_fi_lending_stellar_pa.Pool.State.{
  Pool, collateral_deposited, collateral_withdrawn, require_not_paused, move_tokens, total_deposit,
  deposit_shares_total, asset_config, virtual_shares, virtual_deposit,
}
use de_fi_lending_stellar_pa.Pool.Interest.{accrue_interest}

-- The shares for an amount, given the totals.
unfoldable pub shares_for : ℤ → ℤ → ℤ → Result ℤ
shares_for amount total_shares total_d = do
  shares ← add_i128 total_shares virtual_shares
  scaled ← mul_i128 amount shares
  deposit ← add_i128 total_d virtual_deposit
  div_i128 scaled (max_ℤ deposit (pos 1))

-- The amount for some shares, given the totals.
unfoldable pub amount_for : ℤ → ℤ → ℤ → Result ℤ
amount_for shares total_shares total_d = do
  deposit ← add_i128 total_d virtual_deposit
  scaled ← mul_i128 shares deposit
  all_shares ← add_i128 total_shares virtual_shares
  div_i128 scaled (max_ℤ all_shares (pos 1))

unfoldable pub supply : Env → Address → Symbol → ℤ → Pool → Result (Pool × ℤ)
supply e user asset amount s = do
  require_auth e user
  require_not_paused s
  require_positive amount amount_not_positive
  accrued ← accrue_interest e asset s
  moved ← move_tokens e asset user e.current amount accrued
  minted ← shares_for amount (deposit_shares_total asset moved) (total_deposit asset moved)
  own ← add_i128 (amount_at (user, asset) moved.deposit_shares) minted
  total_shares ← add_i128 (deposit_shares_total asset moved) minted
  total ← add_i128 (total_deposit asset moved) amount
  ok (
    record moved {
      deposit_shares = insert (user, asset) own moved.deposit_shares;
      total_deposit_shares = insert asset total_shares moved.total_deposit_shares;
      total_deposits = insert asset total moved.total_deposits;
    },
    minted,
  )

unfoldable pub withdraw : Env → Address → Symbol → ℤ → Pool → Result (Pool × ℤ)
withdraw e user asset shares s = do
  require_auth e user
  require_not_paused s
  require_positive shares shares_not_positive
  accrued ← accrue_interest e asset s
  let own = amount_at (user, asset) accrued.deposit_shares
  panic_if (ltb_ℤ own shares) insufficient_shares
  amount ← amount_for shares (deposit_shares_total asset accrued) (total_deposit asset accrued)
  moved ← move_tokens e asset e.current user amount accrued
  left ← sub_i128 own shares
  total ← sub_i128 (total_deposit asset moved) amount
  ok (
    record moved {
      deposit_shares = insert (user, asset) left moved.deposit_shares;
      total_deposits = insert asset total moved.total_deposits;
    },
    amount,
  )

unfoldable pub supply_collateral : Env → Address → Symbol → ℤ → Pool → Result Pool
supply_collateral e user asset amount s = do
  require_auth e user
  require_not_paused s
  require_positive amount amount_not_positive
  _ ← asset_config asset s
  own ← add_i128 (amount_at (user, asset) s.deposit_shares) amount
  ok (record s {
    deposit_shares = insert (user, asset) own s.deposit_shares;
    events = collateral_deposited user asset amount ∷ s.events;
  })

unfoldable pub withdraw_collateral : Env → Address → Symbol → ℤ → Pool → Result (Pool × ℤ)
withdraw_collateral e user asset amount s = do
  require_auth e user
  require_not_paused s
  require_positive amount amount_not_positive
  let own = amount_at (user, asset) s.deposit_shares
  panic_if (ltb_ℤ own amount) insufficient_collateral
  left ← sub_i128 own amount
  ok (
    record s {
      deposit_shares = insert (user, asset) left s.deposit_shares;
      events = collateral_withdrawn user asset amount ∷ s.events;
    },
    amount,
  )
