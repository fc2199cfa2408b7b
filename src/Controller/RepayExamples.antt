-- ===== src/Controller/RepayExamples.antt =====
-- A repayment through the controller at concrete contracts.
use de_fi_lending_stellar_pa.Prelude.{◌≡◌, refl, [], ◌∷◌, nat_equality, pair_equality, arith}
use de_fi_lending_stellar_pa.Int.{pos, ◌-ℤ◌, ◌*ℤ◌, quot}
use de_fi_lending_stellar_pa.Map.{lookup, insert}
use de_fi_lending_stellar_pa.Soroban.{ok, enter, in_i128}
use de_fi_lending_stellar_pa.Pool.State.{
  Pool, debt_of, owed, total_borrow, borrow_index, require_not_paused, move_tokens as pool_transfer,
}
use de_fi_lending_stellar_pa.Pool.Interest.{accrue_interest}
use de_fi_lending_stellar_pa.Pool.Borrow.{repay as pool_repay, repay_internal, collect}
use de_fi_lending_stellar_pa.Controller.Repayment.{repay_settles_debt}
use de_fi_lending_stellar_pa.Pool.Effects.{taken}
use de_fi_lending_stellar_pa.Controller.{require_not_paused as controller_not_paused}
use de_fi_lending_stellar_pa.Controller.Deployment.{Deployment, repay_event, lending_pool}
use de_fi_lending_stellar_pa.Controller.Lending.{repay}
use de_fi_lending_stellar_pa.Controller.ExampleMarket.{env, loan, lent, after}

abbrev repaid : Pool
repaid = record lent {
  total_borrows = (21, pos 5_000) ∷ [];
  borrowers = ((5, 21), loan (pos 5_000)) ∷ [];
}

abbrev settled : Deployment
settled = record after {
  events = repay_event 5 21 (pos 2_500) (pos 2_500) ∷ after.events;
  pools = (71, repaid) ∷ [];
}

repay_runs : repay env 5 21 (pos 2_500) after ≡ ok (settled, pos 2_500)
unfolding repay controller_not_paused lending_pool pool_repay repay_internal collect
    require_not_paused accrue_interest owed borrow_index total_borrow pool_transfer lookup insert
    in_i128 ◌-ℤ◌ ◌*ℤ◌ quot
repay_runs = refl

-- Nothing accrues within a ledger.
settled_accrual : accrue_interest (enter env 71) 21 lent ≡ ok lent
unfolding accrue_interest total_borrow lookup
settled_accrual = refl

owes_now : debt_of 5 21 lent ≡ ok (pos 7_500)
unfolding debt_of owed borrow_index lookup in_i128 ◌*ℤ◌ quot
owes_now = refl

repay_settles_debt_example :
    (p' : Pool) × (settled.pools ≡ insert 71 p' after.pools)
    × (settled.oracles ≡ after.oracles)
    × (pos 2_500 ≡ taken (pos 7_500) (pos 2_500))
    × (debt_of 5 21 p' ≡ ok (pos 7_500 -ℤ pos 2_500))
    × (total_borrow 21 p' ≡ total_borrow 21 lent -ℤ pos 2_500)
    × (settled.vaults ≡ after.vaults)
    × (settled.tokens ≡ after.tokens)
    × (settled.controller ≡ after.controller)
unfolding lookup borrow_index in_i128 ◌-ℤ◌ ◌*ℤ◌
repay_settles_debt_example =
    repay_settles_debt env 5 21 (pos 2_500) (pos 7_500) after 71 lent lent repay_runs refl refl
      settled_accrual owes_now (omega arith) (omega arith) refl
