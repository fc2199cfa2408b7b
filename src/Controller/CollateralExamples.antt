-- ===== src/Controller/CollateralExamples.antt =====
-- Collateral through the controller at concrete contracts.
use de_fi_lending_stellar_pa.Prelude.{
  ℕ, min, ◌≡◌, refl, true, some, [], ◌∷◌, nat_equality, pair_equality,
}
use de_fi_lending_stellar_pa.Int.{ℤ, pos, ◌+ℤ◌, ◌-ℤ◌, ◌*ℤ◌, quot, ◌≤ℤ◌}
use de_fi_lending_stellar_pa.Map.{lookup, insert}
use de_fi_lending_stellar_pa.Soroban.{Address, ok, in_i128}
use de_fi_lending_stellar_pa.Vault.{
  Vault, position, require_operator, move_tokens, deposit, withdraw,
}
use de_fi_lending_stellar_pa.Oracle.{
  get_price, value_of, collect_median, collect_loop, report, push_price, is_fresh, median, exchange,
  exchange_sort,
}
use de_fi_lending_stellar_pa.Pool.State.{
  Pool, debt_of, owed, ltv_bps, asset_config, assets, collateral_of, collateral_deposited,
  borrow_index, require_not_paused,
}
use de_fi_lending_stellar_pa.Pool.Supply.{supply_collateral as pool_collateral}
use de_fi_lending_stellar_pa.Controller.{require_not_paused as controller_not_paused}
use de_fi_lending_stellar_pa.Controller.Payload.{Host}
use de_fi_lending_stellar_pa.Controller.Deployment.{
  Deployment, supply_event, withdraw_collateral_event, lending_pool, collateral_vault, oracle,
  oracle_value_of,
}
use de_fi_lending_stellar_pa.Controller.Lending.{
  max_ltv_bps, require_within_ltv, check_withdraw, withdraw_collateral, total_debt_value,
  add_debt_values, supply_collateral,
}
use de_fi_lending_stellar_pa.Controller.Release.{withdraw_within_ltv}
use de_fi_lending_stellar_pa.Controller.Collateral.{withdrawn_collateral_stays}
use de_fi_lending_stellar_pa.Controller.Debts.{IsDebtValue, total_debt_value-IsDebtValue}
use de_fi_lending_stellar_pa.Controller.ExampleMarket.{env, idle, lent, empty, before, after}

abbrev surplus : Vault
surplus = record empty { positions = ((5, 20), pos 12_000) ∷ []; totals = (20, pos 12_000) ∷ [] }

abbrev covered : Deployment
covered = record after { vaults = (72, surplus) ∷ [] }

abbrev released : Deployment
released = record after { events = withdraw_collateral_event 5 20 (pos 2_000) ∷ after.events }

withdraw_runs : withdraw_collateral env 5 20 (pos 2_000) covered ≡ ok (released, pos 2_000)
unfolding withdraw_collateral check_withdraw require_within_ltv controller_not_paused lending_pool
    collateral_vault total_debt_value add_debt_values oracle oracle_value_of position
    require_operator move_tokens withdraw get_price value_of assets collect_median collect_loop
    report push_price is_fresh median exchange exchange_sort debt_of owed ltv_bps asset_config
    borrow_index lookup insert in_i128 ◌+ℤ◌ ◌-ℤ◌ ◌*ℤ◌ quot
withdraw_runs = refl

withdraw_within_ltv_example :
    (o pool vault : Address) × (p : Pool) × (v' : Vault) × (debt_value collat_value : ℤ) × (ltv : ℕ)
    × (covered.controller.oracle ≡ some o)
    × (covered.controller.lending_pool ≡ some pool)
    × (covered.controller.collateral_vault ≡ some vault)
    × (lookup pool released.pools ≡ some p)
    × (ltv_bps 20 p ≡ ok ltv)
    × (lookup vault released.vaults ≡ some v')
    × (oracle_value_of env o 20 (position 5 20 v') released ≡ ok collat_value)
    × (total_debt_value env pool o 5 released ≡ ok debt_value)
    × (debt_value *ℤ pos 10_000 ≤ℤ collat_value *ℤ pos (min ltv max_ltv_bps))
withdraw_within_ltv_example = withdraw_within_ltv env 5 20 (pos 2_000) covered withdraw_runs

debts_run : total_debt_value env 71 73 5 covered ≡ ok (pos 7_500)
unfolding total_debt_value add_debt_values oracle_value_of get_price value_of assets collect_median
    collect_loop report push_price is_fresh median exchange exchange_sort debt_of owed borrow_index
    lookup in_i128 ◌+ℤ◌ ◌*ℤ◌ quot
debts_run = refl

total_debt_value-IsDebtValue_example :
    IsDebtValue env 71 73 5 covered lent (assets lent) (pos 7_500)
unfolding lookup
total_debt_value-IsDebtValue_example =
    total_debt_value-IsDebtValue env 71 73 5 covered lent (pos 7_500) refl debts_run

abbrev host : Host
host = record {
  sha256 = λ message. message;
  ed25519_verify = λ key message sig. true;
  to_xdr = λ a. a ∷ [];
}

abbrev halted : Deployment
halted = record covered { controller = record covered.controller { is_paused = some true } }

abbrev supplied : Deployment
supplied = record before {
  events = supply_event 5 20 (pos 900) ∷ [];
  pools =
      (
        71,
        record idle {
          deposit_shares = ((5, 20), pos 900) ∷ [];
          events = collateral_deposited 5 20 (pos 900) ∷ [];
        },
      )
      ∷ [];
  vaults =
      (72, record empty { positions = ((5, 20), pos 900) ∷ []; totals = (20, pos 900) ∷ [] }) ∷ [];
}

supply_runs : supply_collateral env 5 20 (pos 900) before ≡ ok supplied
unfolding supply_collateral pool_collateral controller_not_paused lending_pool collateral_vault
    require_operator move_tokens deposit require_not_paused asset_config lookup insert in_i128 ◌+ℤ◌
supply_runs = refl

abbrev returned : Deployment
returned = record supplied {
  events = withdraw_collateral_event 5 20 (pos 900) ∷ supplied.events;
  vaults = (72, record empty { positions = ((5, 20), pos 0) ∷ []; totals = (20, pos 0) ∷ [] }) ∷ [];
}

return_runs : withdraw_collateral env 5 20 (pos 900) supplied ≡ ok (returned, pos 900)
unfolding withdraw_collateral check_withdraw require_within_ltv controller_not_paused lending_pool
    collateral_vault total_debt_value add_debt_values oracle oracle_value_of position
    require_operator move_tokens withdraw get_price value_of assets collect_median collect_loop
    report push_price is_fresh median exchange exchange_sort debt_of owed ltv_bps asset_config
    borrow_index lookup insert in_i128 ◌+ℤ◌ ◌-ℤ◌ ◌*ℤ◌ quot
return_runs = refl

withdrawn_collateral_stays_example :
    (pool vault : Address) × (p p'' : Pool) × (v v'' : Vault) × (lookup pool before.pools ≡ some p)
    × (lookup pool returned.pools ≡ some p'')
    × (lookup vault before.vaults ≡ some v)
    × (lookup vault returned.vaults ≡ some v'')
    × (position 5 20 v'' ≡ position 5 20 v)
    × (collateral_of 5 20 p'' ≡ collateral_of 5 20 p +ℤ pos 900)
withdrawn_collateral_stays_example =
    withdrawn_collateral_stays env env 5 20 (pos 900) before supply_runs return_runs
