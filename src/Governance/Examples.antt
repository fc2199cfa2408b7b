-- ===== src/Governance/Examples.antt =====
-- Runs of the governance contract, and its theorems at concrete inputs.
use de_fi_lending_stellar_pa.Prelude.{
  ℕ, ◌≡◌, refl, true, false, none, some, List, [], ◌∷◌, ◌&&◌, nat_equality, pair_equality, arith,
}
use de_fi_lending_stellar_pa.Int.{pos, ◌+ℤ◌, leb_ℤ}
use de_fi_lending_stellar_pa.Map.{lookup, insert}
use de_fi_lending_stellar_pa.Soroban.{
  ok, Env, in_i128, run, u32_limit, u64_limit, u128_limit, rem_u128, wrap_i128,
}
use de_fi_lending_stellar_pa.Governance.{
  Proposal, Governance, deployed, initialize, propose, vote, count_vote, execute, quorum,
  get_proposal, proposal_executed, vote_cast, proposal_created,
}
use de_fi_lending_stellar_pa.Governance.Tally.{tally}
use de_fi_lending_stellar_pa.Governance.Counting.{
  Op, propose_op, vote_op, execute_op, cancel_op, invoke, history_tallied,
}
use de_fi_lending_stellar_pa.Governance.Final.{ended_is_final, execute_at_once}

abbrev at_ledger : ℕ → Env
at_ledger sequence = record {
  signers = λ a. true;
  invoker = none;
  current = 7;
  sequence = sequence;
  timestamp = 500;
  token_accepts = λ before t. true;
}

abbrev opened : Governance
opened = record deployed {
  admin = some 1;
  governance_token = some 9;
  quorum_bps = some 500;
  voting_period = some 86_400;
  timelock_period = some 17_280;
  proposal_count = some 0;
}

opened_runs : initialize (at_ledger 10) 1 9 deployed ≡ ok opened
unfolding initialize
opened_runs = refl

abbrev first : Proposal
first = record {
  id = 1;
  proposer = 2;
  title = 3;
  description = 4;
  target = 5;
  calldata = 6 ∷ [];
  start_ledger = 20;
  end_ledger = 86_420;
  for_votes = pos 0;
  against_votes = pos 0;
  executed = false;
  cancelled = false;
}

abbrev calls : List (Env × Op)
calls =
    (at_ledger 20, propose_op 2 3 4 5 (6 ∷ []))
    ∷ (at_ledger 30, vote_op 11 1 true)
    ∷ (at_ledger 30, vote_op 11 1 true)
    ∷ (at_ledger 40, vote_op 12 1 true)
    ∷ (at_ledger 50, vote_op 13 1 false)
    ∷ (at_ledger 60, execute_op 1)
    ∷ (at_ledger 86_421, execute_op 1)
    ∷ []

abbrev passed : Proposal
passed = record first { for_votes = pos 2; against_votes = pos 1; executed = true }

calls_pass : get_proposal 1 (run invoke calls opened) ≡ ok passed
unfolding get_proposal run invoke propose vote count_vote execute quorum lookup insert ◌+ℤ◌
    u64_limit u32_limit in_i128 rem_u128 wrap_i128
calls_pass = refl

history_tallied_example :
    let s = run invoke calls opened in
    (passed.for_votes ≡ pos (tally true 1 s.votes))
    × (passed.against_votes ≡ pos (tally false 1 s.votes))
    × ((passed.executed && passed.cancelled) ≡ false)
    × ((passed.executed && leb_ℤ passed.for_votes passed.against_votes) ≡ false)
history_tallied_example =
    history_tallied (at_ledger 10) 1 9 opened calls 1 passed opened_runs calls_pass

abbrev later : List (Env × Op)
later = (at_ledger 86_430, cancel_op 1 1) ∷ (at_ledger 86_431, vote_op 14 1 false) ∷ []

ended_is_final_example : get_proposal 1 (run invoke later (run invoke calls opened)) ≡ ok passed
ended_is_final_example =
    ended_is_final (at_ledger 10) 1 9 opened calls later 1 passed opened_runs calls_pass refl

-- A proposal under vote.
abbrev proposed_once : Governance
proposed_once = record opened {
  proposals = (1, first) ∷ [];
  proposal_count = some 1;
  events = proposal_created 2 1 ∷ [];
}

abbrev voted_once : Governance
voted_once = record proposed_once {
  proposals = (1, record first { for_votes = pos 1 }) ∷ [];
  votes = ((1, 11), true) ∷ [];
  events = vote_cast 11 1 true ∷ proposal_created 2 1 ∷ [];
}

vote_runs : vote (at_ledger 30) 11 1 true proposed_once ≡ ok voted_once
unfolding vote count_vote lookup insert ◌+ℤ◌ in_i128
vote_runs = refl

execute_at_once_example :
    execute (at_ledger 86_421) 1 voted_once
    ≡ ok (record voted_once {
      proposals =
          insert 1 (record first { for_votes = pos 1; executed = true }) voted_once.proposals;
      events = proposal_executed 1 ∷ voted_once.events;
    })
unfolding get_proposal lookup u128_limit
execute_at_once_example =
    execute_at_once (at_ledger 86_421) 1 1 0 voted_once (record first { for_votes = pos 1 }) refl
      refl refl refl refl (omega arith) (omega arith) (omega arith) refl

-- The same before the initialisation.
abbrev early : Governance
early = record deployed {
  proposals = (1, record first { for_votes = pos 1 }) ∷ [];
  votes = ((1, 11), true) ∷ [];
  proposal_count = some 1;
}

abbrev restarted : Governance
restarted = record opened { proposals = early.proposals; votes = early.votes }

restarts : initialize (at_ledger 10) 1 9 early ≡ ok restarted
unfolding initialize
restarts = refl

abbrev replaced : Governance
replaced = record restarted {
  proposals = (1, first) ∷ [];
  proposal_count = some 1;
  events = proposal_created 2 1 ∷ [];
}

abbrev number : ℕ
number = 1

replaces : propose (at_ledger 20) 2 3 4 5 (6 ∷ []) restarted ≡ ok (replaced, number)
unfolding propose lookup insert u64_limit u32_limit
replaces = refl
