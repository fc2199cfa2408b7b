-- ===== src/Vault/Examples.antt =====
-- Runs of the vault, and its theorems at concrete inputs.
use de_fi_lending_stellar_pa.Prelude.{
  map, false, ◌≡◌, refl, true, some, List, [], ◌∷◌, arith, nat_equality, pair_equality,
}
use de_fi_lending_stellar_pa.Int.{ℤ, pos, negsuc, ◌+ℤ◌, ◌-ℤ◌, ◌≤ℤ◌}
use de_fi_lending_stellar_pa.Map.{lookup, insert}
use de_fi_lending_stellar_pa.Map.Sum.{in_asset, sum_where}
use de_fi_lending_stellar_pa.Soroban.{
  ok, err, Env, Transfer, in_i128, not_an_operator, amount_not_positive, insufficient_collateral,
}
use de_fi_lending_stellar_pa.Vault.{
  initialize, add_operator, set_token_address, Vault, deployed, require_operator, move_tokens,
  deposit, withdraw, seize, position, total_by_asset,
}
use de_fi_lending_stellar_pa.Vault.Conservation.{IsSound}
use de_fi_lending_stellar_pa.Vault.Ledger.{LedgerRun, ledger, outcomes, history_refines}
use de_fi_lending_stellar_pa.Vault.Reach.{
  Op, initialize_op, add_operator_op, set_token_address_op, deposit_op, withdraw_op, seize_op,
  history, history_balanced, invoke,
}

-- 1 is the admin, 2 the controller, 3 the liquidation contract, 5 and 6 are users, 8 is the token
-- contract of asset 20, and 9 is the vault.
abbrev env : Env
env = record {
  signers = λ a. true;
  invoker = some 2;
  current = 9;
  sequence = 100;
  timestamp = 500;
  token_accepts = λ before t. true;
}

abbrev ready : Vault
ready = record deployed {
  admin = some 1;
  operators = (2, true) ∷ (3, true) ∷ [];
  token_addresses = (20, 8) ∷ [];
}

abbrev paid : ℤ → Transfer
paid n = record { token = 8; from = 5; to = 9; amount = n }

abbrev funded : Vault
funded = record ready {
  positions = ((5, 20), pos 70) ∷ [];
  totals = (20, pos 70) ∷ [];
  transfers = paid (pos 70) ∷ [];
}

deposit_funds : deposit env 2 5 20 (pos 70) ready ≡ ok funded
unfolding deposit require_operator move_tokens lookup insert in_i128 ◌+ℤ◌
deposit_funds = refl

abbrev withdrawn : Vault
withdrawn = record funded {
  positions = ((5, 20), pos 40) ∷ [];
  totals = (20, pos 40) ∷ [];
  transfers = record { token = 8; from = 9; to = 5; amount = pos 30 } ∷ paid (pos 70) ∷ [];
}

withdraw_pays : withdraw env 2 5 20 (pos 30) funded ≡ ok withdrawn
unfolding withdraw require_operator move_tokens lookup insert in_i128 ◌-ℤ◌
withdraw_pays = refl

withdraw_too_much : withdraw env 2 5 20 (pos 71) funded ≡ err insufficient_collateral
unfolding withdraw require_operator lookup
withdraw_too_much = refl

deposit_negative : deposit env 2 5 20 (negsuc 3) funded ≡ err amount_not_positive
unfolding deposit require_operator lookup
deposit_negative = refl

deposit_by_stranger : deposit env 4 5 20 (pos 3) funded ≡ err not_an_operator
unfolding deposit require_operator lookup
deposit_by_stranger = refl

abbrev seized_vault : Vault
seized_vault = record funded {
  positions = ((5, 20), pos 45) ∷ ((6, 20), pos 25) ∷ [];
  transfers = record { token = 8; from = 9; to = 6; amount = pos 25 } ∷ paid (pos 70) ∷ [];
}

abbrev calls : List (Env × Op)
calls =
    (env, initialize_op 1)
    ∷ (env, add_operator_op 2)
    ∷ (env, set_token_address_op 20 8)
    ∷ (env, deposit_op 2 5 20 (pos 70))
    ∷ (env, withdraw_op 2 5 20 (pos 99))
    ∷ (env, seize_op 2 5 6 20 (pos 25))
    ∷ []

history_balanced_example :
    let s = history calls deployed in
    (sum_where (in_asset 20) s.positions ≡ total_by_asset 20 s)
    × (pos 0 ≤ℤ position 5 20 s)
    × (pos 0 ≤ℤ total_by_asset 20 s)
history_balanced_example = history_balanced calls 5 20

history_refines_example :
    LedgerRun (outcomes calls deployed) (ledger deployed) (ledger (history calls deployed))
history_refines_example = history_refines calls deployed

-- The withdrawal of more than the position is refused.
calls_accepted :
    map (λ o. o.1) (outcomes calls deployed) ≡ true ∷ true ∷ true ∷ true ∷ false ∷ true ∷ []
unfolding invoke initialize add_operator set_token_address deposit withdraw seize require_operator
    move_tokens lookup insert in_i128 ◌+ℤ◌ ◌-ℤ◌
calls_accepted = refl

funded-IsSound : IsSound funded
unfolding sum_where lookup ◌+ℤ◌
funded-IsSound = record { balanced = λ a. ground arith; non_negative = ground arith }
