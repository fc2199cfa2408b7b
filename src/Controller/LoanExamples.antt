-- ===== src/Controller/LoanExamples.antt =====
-- Loans through the controller at concrete contracts, at a price of 1.
use de_fi_lending_stellar_pa.Prelude.{
  ℕ, min, ◌≡◌, refl, some, [], ◌∷◌, nat_equality, pair_equality, arith,
}
use de_fi_lending_stellar_pa.Int.{ℤ, pos, ◌+ℤ◌, ◌-ℤ◌, ◌*ℤ◌, quot, ◌≤ℤ◌}
use de_fi_lending_stellar_pa.Map.{lookup, insert}
use de_fi_lending_stellar_pa.Soroban.{
  Address, ok, err, ◌>>=◌, in_i128, saturating_sub, health_factor_too_low,
}
use de_fi_lending_stellar_pa.Vault.{Vault, position, require_operator, move_tokens, deposit}
use de_fi_lending_stellar_pa.Oracle.{
  get_price, value_of, collect_median, collect_loop, report, push_price, is_fresh, median, exchange,
  exchange_sort,
}
use de_fi_lending_stellar_pa.Pool.State.{
  Pool, debt_of, owed, ltv_bps, asset_config, assets, total_borrow, borrow_index,
  require_not_paused, require_operator as pool_operator, move_tokens as pool_transfer,
}
use de_fi_lending_stellar_pa.Pool.Interest.{accrue_interest}
use de_fi_lending_stellar_pa.Pool.Borrow.{borrow_raw, borrow_internal, check_health}
use de_fi_lending_stellar_pa.Liquidation.{
  World, liquidate, config, assess, pool_debt_of, vault_position, oracle_value, asset_ltv_bps,
  require_liquidatable, bps_of, seizure, oracle_price, units_of,
}
use de_fi_lending_stellar_pa.Controller.FreshLoan.{fresh_loan_not_due}
use de_fi_lending_stellar_pa.Controller.Pausing.{Panics}
use de_fi_lending_stellar_pa.Controller.{require_not_paused as controller_not_paused}
use de_fi_lending_stellar_pa.Controller.Deployment.{
  lending_pool, collateral_vault, oracle, oracle_value_of,
}
use de_fi_lending_stellar_pa.Controller.Lending.{
  max_ltv_bps, require_within_ltv, check_borrow, borrow, check_withdraw, total_debt_value,
  add_debt_values,
}
use de_fi_lending_stellar_pa.Controller.Loan.{borrow_within_ltv, borrow_ignores_other_debt}
use de_fi_lending_stellar_pa.Controller.ExampleMarket.{idle, env, loan, lent, posted, before, after}

borrow_runs : borrow env 5 20 (pos 10_000) 21 (pos 7_500) before ≡ ok after
unfolding borrow check_borrow require_within_ltv controller_not_paused lending_pool collateral_vault
    oracle oracle_value_of position require_operator move_tokens deposit get_price value_of
    collect_median collect_loop report push_price is_fresh median exchange exchange_sort debt_of
    owed ltv_bps asset_config total_borrow borrow_index require_not_paused pool_operator
    pool_transfer accrue_interest borrow_raw borrow_internal check_health lookup insert in_i128 ◌+ℤ◌
    ◌-ℤ◌ ◌*ℤ◌ quot
borrow_runs = refl

-- One unit more than the cap of 75 % allows, although the asset's own loan-to-value is 80 %.
borrow_too_much : borrow env 5 20 (pos 10_000) 21 (pos 7_501) before ≡ err health_factor_too_low
unfolding borrow check_borrow require_within_ltv controller_not_paused lending_pool collateral_vault
    oracle oracle_value_of position get_price value_of collect_median collect_loop report push_price
    is_fresh median exchange exchange_sort debt_of owed ltv_bps asset_config borrow_index lookup
    in_i128 ◌+ℤ◌ ◌-ℤ◌ ◌*ℤ◌ quot
borrow_too_much = refl

-- The collateral that is fully borrowed against in asset 21 carries the same loan in asset 22.
second_loan : check_borrow env 5 20 (pos 1) 22 (pos 7_500) after ≡ ok tt
unfolding check_borrow require_within_ltv lending_pool collateral_vault oracle oracle_value_of
    position get_price value_of collect_median collect_loop report push_price is_fresh median
    exchange exchange_sort debt_of owed ltv_bps asset_config borrow_index lookup in_i128 ◌+ℤ◌ ◌-ℤ◌
    ◌*ℤ◌ quot
second_loan = refl

withdraw_refused : check_withdraw env 5 20 (pos 1) after ≡ err health_factor_too_low
unfolding check_withdraw require_within_ltv lending_pool collateral_vault total_debt_value
    add_debt_values oracle oracle_value_of position get_price value_of assets collect_median
    collect_loop report push_price is_fresh median exchange exchange_sort debt_of owed ltv_bps
    asset_config borrow_index lookup in_i128 ◌+ℤ◌ ◌-ℤ◌ ◌*ℤ◌ quot
withdraw_refused = refl

borrow_within_ltv_example :
    (o pool vault : Address) × (p : Pool) × (v' : Vault) × (debt debt_value collat_value : ℤ)
    × (ltv : ℕ) × (before.controller.oracle ≡ some o)
    × (before.controller.lending_pool ≡ some pool)
    × (before.controller.collateral_vault ≡ some vault)
    × (lookup pool before.pools ≡ some p)
    × (debt_of 5 21 p ≡ ok debt)
    × (ltv_bps 20 p ≡ ok ltv)
    × (lookup vault after.vaults ≡ some v')
    × (oracle_value_of env o 20 (position 5 20 v') after ≡ ok collat_value)
    × (oracle_value_of env o 21 (debt +ℤ pos 7_500) after ≡ ok debt_value)
    × (debt_value *ℤ pos 10_000 ≤ℤ collat_value *ℤ pos (min ltv max_ltv_bps))
borrow_within_ltv_example =
    borrow_within_ltv env 5 20 (pos 10_000) 21 (pos 7_500) before borrow_runs

-- The same check in asset 22, with and without the loan in asset 21.
borrow_ignores_other_debt_example :
    check_borrow env 5 20 (pos 1) 22 (pos 7_500) (record after {
      pools =
          insert 71
            (record lent { borrowers = insert (5, 21) (loan (pos 900_000)) lent.borrowers })
            after.pools;
    })
    ≡ check_borrow env 5 20 (pos 1) 22 (pos 7_500) after
unfolding lookup
borrow_ignores_other_debt_example =
    borrow_ignores_other_debt env 5 20 (pos 1) 22 21 (pos 7_500) after 71 lent (loan (pos 900_000))
      refl refl (λ same. absurd (omega arith))

-- The engine over the contracts after the loan.
abbrev world : World
world = record {
  engine = record {
    admin = some 1;
    config = some (record {
      pool = 71;
      vault = 72;
      oracle = 73;
      bonus_bps = 500;
      fee_bps = 2_000;
      close_factor_bps = 5_000;
    });
    treasury = some 74;
  };
  pools = after.pools;
  vaults = after.vaults;
  oracles = after.oracles;
}

fresh_loan_not_due_example : Panics (liquidate env 6 5 21 20 (pos 100) world)
unfolding lookup borrow_index config
fresh_loan_not_due_example =
    fresh_loan_not_due env env 5 6 20 (pos 10_000) 21 (pos 7_500) (pos 100) before idle world _
      borrow_runs refl refl refl refl refl (omega arith) refl refl refl refl refl

-- The user's 1,000 of asset 22 beside them.
abbrev beside : World
beside = record world {
  vaults =
      (
        72,
        record posted {
          positions = ((5, 20), pos 10_000) ∷ ((5, 22), pos 1_000) ∷ [];
          totals = (20, pos 10_000) ∷ (22, pos 1_000) ∷ [];
        },
      )
      ∷ [];
}

-- Against asset 22 alone the engine finds the same loan due at once.
due_beside :
    (config beside.engine >>= λ cfg. assess env cfg 5 21 22 (pos 100) beside)
    ≡ ok (record { seize_units_total = pos 105; fee_units = pos 1; seize_amount = pos 104 })
unfolding config assess pool_debt_of vault_position oracle_value asset_ltv_bps require_liquidatable
    bps_of seizure oracle_price units_of position get_price value_of collect_median collect_loop
    report push_price is_fresh median exchange exchange_sort debt_of owed ltv_bps asset_config
    borrow_index lookup in_i128 saturating_sub ◌+ℤ◌ ◌-ℤ◌ ◌*ℤ◌ quot
due_beside = refl
