-- ===== src/Controller/Deployment.antt =====
-- The controller beside the contracts that it calls, `invoke_contract`, and the events and the
-- addresses that its entry points share.
use de_fi_lending_stellar_pa.Prelude.{ℕ, List, nat_equality}
use de_fi_lending_stellar_pa.Int.{ℤ}
use de_fi_lending_stellar_pa.Map.{Map, lookup, insert}
use de_fi_lending_stellar_pa.Soroban.{
  Address, Symbol, Result, ok, ◌>>=◌, Env, enter, expect, no_such_contract, wrapped_asset_not_set,
  lending_pool_not_set, collateral_vault_not_set, oracle_not_set,
}
use de_fi_lending_stellar_pa.Wrapped.{Token}
use de_fi_lending_stellar_pa.Pool.State.{Pool}
use de_fi_lending_stellar_pa.Vault.{Vault}
use de_fi_lending_stellar_pa.Oracle.{Oracle, value_of}
use de_fi_lending_stellar_pa.Controller.{Controller}

pub data Event : Type 0 where
  wrap_event : ℕ → ℕ → Address → ℤ → ℕ → ℕ → Event
  unwrap_event : Address → ℤ → ℕ → ℕ → ℕ → Event
  supply_event : Address → Symbol → ℤ → Event
  borrow_event : Address → Symbol → Symbol → ℤ → Event
  repay_event : Address → Symbol → ℤ → ℤ → Event
  withdraw_collateral_event : Address → Symbol → ℤ → Event

-- The controller's storage, the events that it has published, the latest first, and the other
-- contracts by their addresses.
pub record Deployment : Type 0 where
  pub controller : Controller
  pub events : List Event
  pub tokens : Map Address Token
  pub pools : Map Address Pool
  pub vaults : Map Address Vault
  pub oracles : Map Address Oracle

-- `env.invoke_contract(&callee, ..)` of a function that changes the callee's storage, or only reads.
abbrev pub invoke_contract :
    {S : Type 0} → Map Address S → Address → (S → Result S) → Result (Map Address S)
invoke_contract contracts callee call = do
  s ← expect (lookup callee contracts) no_such_contract
  s' ← call s
  ok (insert callee s' contracts)

abbrev pub invoke_view : {S A : Type 0} → Map Address S → Address → (S → Result A) → Result A
invoke_view contracts callee view = expect (lookup callee contracts) no_such_contract >>= view

unfoldable pub wrapped_asset : Controller → Result Address
wrapped_asset s = expect s.wrapped_asset wrapped_asset_not_set

unfoldable pub lending_pool : Controller → Result Address
lending_pool s = expect s.lending_pool lending_pool_not_set

unfoldable pub collateral_vault : Controller → Result Address
collateral_vault s = expect s.collateral_vault collateral_vault_not_set

unfoldable pub oracle : Controller → Result Address
oracle s = expect s.oracle oracle_not_set

unfoldable pub oracle_value_of : Env → Address → Symbol → ℤ → Deployment → Result ℤ
oracle_value_of e oracle asset amount d =
    invoke_view d.oracles oracle (value_of (enter e oracle) asset amount)
