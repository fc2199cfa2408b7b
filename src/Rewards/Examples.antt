-- ===== src/Rewards/Examples.antt =====
-- Runs of the rewards contract, and its theorems at concrete inputs.
use de_fi_lending_stellar_pa.Prelude.{
  ℕ, ◌≡◌, refl, true, none, some, List, [], ◌∷◌, nat_equality, pair_equality,
}
use de_fi_lending_stellar_pa.Int.{ℤ, pos, ◌+ℤ◌, ◌-ℤ◌, ◌*ℤ◌, quot, ◌≤ℤ◌}
use de_fi_lending_stellar_pa.Map.{lookup, insert}
use de_fi_lending_stellar_pa.Map.Sum.{amount_at, in_asset, sum_where}
use de_fi_lending_stellar_pa.Soroban.{ok, err, Env, in_i128, run, insufficient_stake}
use de_fi_lending_stellar_pa.Rewards.{
  Rewards, deployed, stake, unstake, claim, earned, update_reward, unit_gain, gathered,
  gathered_if_staked, total_accrued, shown_to, since_or_zero, pay_out, reward_per_token,
  total_staked, reward_rate, staked, claimed, scale,
}
use de_fi_lending_stellar_pa.Rewards.Stakes.{notified_in, claimed_in}
use de_fi_lending_stellar_pa.Rewards.Solvency.{
  Op, initialize_op, notify_op, stake_op, unstake_op, claim_op, invoke, history_solvent,
}

abbrev at_ledger : ℕ → Env
at_ledger sequence = record {
  signers = λ a. true;
  invoker = none;
  current = 7;
  sequence = sequence;
  timestamp = 500;
  token_accepts = λ before t. true;
}

abbrev calls : List (Env × Op)
calls =
    (at_ledger 90, initialize_op 1)
    ∷ (at_ledger 100, notify_op 1 20 (pos 120_960))
    ∷ (at_ledger 100, stake_op 5 20 (pos 10))
    ∷ (at_ledger 105, unstake_op 5 20 (pos 11))
    ∷ (at_ledger 110, claim_op 5 20)
    ∷ (at_ledger 120, unstake_op 5 20 (pos 4))
    ∷ []

history_solvent_example :
    let s = run invoke calls deployed in
    (sum_where (in_asset 20) s.stakes ≡ total_staked 20 s)
    × (amount_at 20 s.reward_pools +ℤ claimed_in 20 s.events ≡ notified_in 20 s.events)
    × (claimed_in 20 s.events ≤ℤ notified_in 20 s.events)
    × (pos 0 ≤ℤ amount_at (5, 20) s.stakes)
history_solvent_example = history_solvent calls 5 20

-- One unit of reward a ledger for ten staked units.
abbrev running : Rewards
running = record deployed {
  admin = some 1;
  totals = (20, pos 10) ∷ [];
  reward_pools = (20, pos 120_960) ∷ [];
  reward_rates = (20, scale) ∷ [];
  last_updates = (20, 100) ∷ [];
  stakes = ((5, 20), pos 10) ∷ [];
  paid = ((5, 20), pos 0) ∷ [];
  accrued = ((5, 20), pos 0) ∷ [];
}

abbrev updated : Rewards
updated = record running { last_updates = (20, 110) ∷ []; rewards_per_token = (20, scale) ∷ [] }

abbrev ten_earned : Rewards
ten_earned = record updated {
  reward_pools = (20, pos 120_950) ∷ [];
  paid = ((5, 20), scale) ∷ [];
  events = claimed 5 20 (pos 10) ∷ [];
}

earned_runs : earned (at_ledger 110) 5 20 running ≡ ok (updated, pos 10)
unfolding earned update_reward unit_gain shown_to since_or_zero reward_per_token total_staked
    reward_rate lookup insert in_i128 ◌+ℤ◌ ◌-ℤ◌ ◌*ℤ◌ quot
earned_runs = refl

claim_runs : claim (at_ledger 110) 5 20 running ≡ ok (ten_earned, pos 10)
unfolding claim update_reward unit_gain total_accrued gathered_if_staked gathered pay_out
    reward_per_token total_staked reward_rate lookup insert in_i128 ◌+ℤ◌ ◌-ℤ◌ ◌*ℤ◌ quot
claim_runs = refl

unstake_too_much : unstake (at_ledger 110) 5 20 (pos 11) running ≡ err insufficient_stake
unfolding unstake update_reward unit_gain reward_per_token total_staked reward_rate lookup insert
    in_i128 ◌+ℤ◌ ◌*ℤ◌ quot
unstake_too_much = refl

abbrev more_staked : Rewards
more_staked = record updated {
  totals = (20, pos 40) ∷ [];
  stakes = ((5, 20), pos 40) ∷ [];
  paid = ((5, 20), scale) ∷ [];
  accrued = ((5, 20), pos 10) ∷ [];
  events = staked 5 20 (pos 30) ∷ [];
}

stake_runs : stake (at_ledger 110) 5 20 (pos 30) running ≡ ok more_staked
unfolding stake update_reward unit_gain gathered_if_staked gathered reward_per_token total_staked
    reward_rate lookup insert in_i128 ◌+ℤ◌ ◌-ℤ◌ ◌*ℤ◌ quot
stake_runs = refl

earned_after : earned (at_ledger 110) 5 20 more_staked ≡ ok (more_staked, pos 10)
unfolding earned update_reward shown_to since_or_zero reward_per_token total_staked lookup insert
    in_i128 ◌+ℤ◌ ◌-ℤ◌ ◌*ℤ◌ quot
earned_after = refl

abbrev after_staking : ℤ
after_staking = pos 10

abbrev before_staking : ℤ
before_staking = pos 10
