-- ===== src/Controller/Lending.antt =====
-- The users' side of the controller: supplying and withdrawing collateral, borrowing against it and
-- repaying, each routed to the vault and the pool.
use de_fi_lending_stellar_pa.Prelude.{ℕ, min, ◌||◌, List, [], ◌∷◌, if◌then◌else◌, nat_equality}
use de_fi_lending_stellar_pa.Int.{ℤ, pos, ltb_ℤ, leb_ℤ}
use de_fi_lending_stellar_pa.Map.{lookup, insert}
use de_fi_lending_stellar_pa.Soroban.{
  Address, Symbol, Result, ok, ◌>>=◌, ◌>>◌, Env, enter, panic_if, expect, require_auth,
  require_positive, add_i128, sub_i128, mul_i128, amount_not_positive, health_factor_too_low,
  insufficient_collateral, no_such_contract,
}
use de_fi_lending_stellar_pa.Pool.State.{assets, debt_of, ltv_bps}
use de_fi_lending_stellar_pa.Pool.Supply as Supply
use de_fi_lending_stellar_pa.Pool.Borrow as Loans
use de_fi_lending_stellar_pa.Vault as Vault
use de_fi_lending_stellar_pa.Controller.{require_not_paused}
use de_fi_lending_stellar_pa.Controller.Deployment.{
  Deployment, supply_event, borrow_event, repay_event, withdraw_collateral_event, invoke_contract,
  invoke_view, lending_pool, collateral_vault, oracle, oracle_value_of,
}

abbrev pub max_ltv_bps : ℕ
max_ltv_bps = 7_500

unfoldable pub supply_collateral : Env → Address → Symbol → ℤ → Deployment → Result Deployment
supply_collateral e user asset amount d = do
  require_auth e user
  require_positive amount amount_not_positive
  require_not_paused d.controller
  pool ← lending_pool d.controller
  vault ← collateral_vault d.controller
  vaults ←
      invoke_contract d.vaults vault (Vault.deposit (enter e vault) e.current user asset amount)
  pools ← invoke_contract d.pools pool (Supply.supply_collateral (enter e pool) user asset amount)
  ok (record d {
    vaults = vaults;
    pools = pools;
    events = supply_event user asset amount ∷ d.events;
  })

-- `debt_value * 10_000 > collat_value * effective_ltv_bps`
unfoldable pub require_within_ltv : ℤ → ℤ → ℕ → Result (Unit {0})
require_within_ltv debt_value collat_value asset_ltv_bps = do
  owed ← mul_i128 debt_value (pos 10_000)
  allowed ← mul_i128 collat_value (pos (min asset_ltv_bps max_ltv_bps))
  panic_if (ltb_ℤ allowed owed) health_factor_too_low

-- The steps of `borrow` before anything moves.
unfoldable pub check_borrow :
    Env → Address → Symbol → ℤ → Symbol → ℤ → Deployment → Result (Unit {0})
check_borrow e user collateral_asset collateral_amount debt_asset borrow_amount d = do
  oracle_addr ← oracle d.controller
  pool ← lending_pool d.controller
  vault ← collateral_vault d.controller
  existing_collateral ←
      invoke_view d.vaults vault (λ v. ok (Vault.position user collateral_asset v))
  total_collateral ← add_i128 existing_collateral collateral_amount
  collat_value ← oracle_value_of e oracle_addr collateral_asset total_collateral d
  existing_debt ← invoke_view d.pools pool (debt_of user debt_asset)
  total_debt ← add_i128 existing_debt borrow_amount
  debt_value ← oracle_value_of e oracle_addr debt_asset total_debt d
  asset_ltv_bps ← invoke_view d.pools pool (ltv_bps collateral_asset)
  require_within_ltv debt_value collat_value asset_ltv_bps

unfoldable pub borrow : Env → Address → Symbol → ℤ → Symbol → ℤ → Deployment → Result Deployment
borrow e user collateral_asset collateral_amount debt_asset borrow_amount d = do
  require_auth e user
  panic_if (leb_ℤ borrow_amount (pos 0) || leb_ℤ collateral_amount (pos 0)) amount_not_positive
  require_not_paused d.controller
  check_borrow e user collateral_asset collateral_amount debt_asset borrow_amount d
  pool ← lending_pool d.controller
  vault ← collateral_vault d.controller
  vaults ←
      invoke_contract d.vaults vault
        (Vault.deposit (enter e vault) e.current user collateral_asset collateral_amount)
  pools ←
      invoke_contract d.pools pool
        (Loans.borrow_raw (enter e pool) e.current user debt_asset borrow_amount)
  ok (record d {
    vaults = vaults;
    pools = pools;
    events = borrow_event user collateral_asset debt_asset borrow_amount ∷ d.events;
  })

unfoldable pub repay : Env → Address → Symbol → ℤ → Deployment → Result (Deployment × ℤ)
repay e user asset amount d = do
  require_auth e user
  require_positive amount amount_not_positive
  require_not_paused d.controller
  pool ← lending_pool d.controller
  p ← expect (lookup pool d.pools) no_such_contract
  (p', repaid) ← Loans.repay (enter e pool) user asset amount p
  ok (
    record d {
      pools = insert pool p' d.pools;
      events = repay_event user asset amount repaid ∷ d.events;
    },
    repaid,
  )

-- The loop of `total_debt_value` over the pool's assets.
unfoldable pub add_debt_values :
    Env → Address → Address → Address → Deployment → ℤ → List Symbol → Result ℤ
add_debt_values e pool oracle_addr user d total [] = ok total
add_debt_values e pool oracle_addr user d total (asset ∷ rest) = do
  debt ← invoke_view d.pools pool (debt_of user asset)
  total' ←
      (if ltb_ℤ (pos 0) debt
        then (oracle_value_of e oracle_addr asset debt d >>= λ value. add_i128 total value)
        else ok total)
  add_debt_values e pool oracle_addr user d total' rest

unfoldable pub total_debt_value : Env → Address → Address → Address → Deployment → Result ℤ
total_debt_value e pool oracle_addr user d = do
  listed ← invoke_view d.pools pool (λ p. ok (assets p))
  add_debt_values e pool oracle_addr user d (pos 0) listed

-- The steps of `withdraw_collateral` before anything moves.
unfoldable pub check_withdraw : Env → Address → Symbol → ℤ → Deployment → Result (Unit {0})
check_withdraw e user collateral_asset amount d = do
  vault ← collateral_vault d.controller
  pool ← lending_pool d.controller
  oracle_addr ← oracle d.controller
  existing ← invoke_view d.vaults vault (λ v. ok (Vault.position user collateral_asset v))
  panic_if (ltb_ℤ existing amount) insufficient_collateral
  remaining ← sub_i128 existing amount
  asset_ltv_bps ← invoke_view d.pools pool (ltv_bps collateral_asset)
  remaining_value ← oracle_value_of e oracle_addr collateral_asset remaining d
  debt_value ← total_debt_value e pool oracle_addr user d
  require_within_ltv debt_value remaining_value asset_ltv_bps

unfoldable pub withdraw_collateral :
    Env → Address → Symbol → ℤ → Deployment → Result (Deployment × ℤ)
withdraw_collateral e user collateral_asset amount d = do
  require_auth e user
  require_positive amount amount_not_positive
  require_not_paused d.controller
  check_withdraw e user collateral_asset amount d
  vault ← collateral_vault d.controller
  vaults ←
      invoke_contract d.vaults vault
        (Vault.withdraw (enter e vault) e.current user collateral_asset amount)
  ok (
    record d {
      vaults = vaults;
      events = withdraw_collateral_event user collateral_asset amount ∷ d.events;
    },
    amount,
  )
