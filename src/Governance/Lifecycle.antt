-- ===== src/Governance/Lifecycle.antt =====
-- What each operation on proposals does when it succeeds, and that it keeps the counts right.
use de_fi_lending_stellar_pa.Prelude.{
  ℕ, ◌+◌, ◌<◌, ◌≤◌, ◌≡◌, Bool, true, false, none, some, List, arith, nat_equality, pair_equality,
  inl, inr, Option-cases,
}
use de_fi_lending_stellar_pa.Int.{pos, ◌+ℤ◌, ◌<ℤ◌}
use de_fi_lending_stellar_pa.Map.{lookup, insert}
use de_fi_lending_stellar_pa.Soroban.{Address, Symbol, ok, Env, unwrap_or, authorized}
use de_fi_lending_stellar_pa.Governance.{
  Proposal, Governance, propose, count_vote, vote, default_voting_period, execute, cancel,
}

-- What is stored for a new proposal.
abbrev pub proposed : Env → Address → Symbol → Symbol → Address → List ℕ → Governance → Proposal
proposed e proposer title description target calldata s = record {
  id = unwrap_or s.proposal_count 0 + 1;
  proposer = proposer;
  title = title;
  description = description;
  target = target;
  calldata = calldata;
  start_ledger = e.sequence;
  end_ledger = e.sequence + unwrap_or s.voting_period default_voting_period;
  for_votes = pos 0;
  against_votes = pos 0;
  executed = false;
  cancelled = false;
}

pub propose-effect :
    (e : Env) (proposer : Address) (title description : Symbol) (target : Address)
    (calldata : List ℕ) (s : Governance) {s' : Governance} {id : ℕ}
    → propose e proposer title description target calldata s ≡ ok (s', id)
    → (id ≡ unwrap_or s.proposal_count 0 + 1)
      × (s'.proposals
          ≡ insert id (proposed e proposer title description target calldata s) s.proposals)
      × (s'.votes ≡ s.votes)
      × (s'.proposal_count ≡ some id)
      × (s'.admin ≡ s.admin)
unfolding propose
propose-effect e proposer title description target calldata s h = ground arith

-- A proposal with one more vote.
abbrev pub polled : Bool → Proposal → Proposal
polled true p = record p { for_votes = p.for_votes +ℤ pos 1 }
polled false p = record p { against_votes = p.against_votes +ℤ pos 1 }

module _ (e : Env) (voter : Address) (id : ℕ) (b : Bool) (s : Governance) {s' : Governance} where
  pub vote-found : vote e voter id b s ≡ ok s' → (p : Proposal) × (lookup id s.proposals ≡ some p)
  unfolding vote
  vote-found h = elim (Option-cases (lookup id s.proposals)) [
    | inl missing ↦ absurd (ground arith)
    | inr (p, e) ↦ (p, e)
  ]

  pub vote-effect :
      (p : Proposal)
      → lookup id s.proposals ≡ some p
      → vote e voter id b s ≡ ok s'
      → (p.executed ≡ false)
        × (p.cancelled ≡ false)
        × (e.sequence ≤ p.end_ledger)
        × (lookup (id, voter) s.votes ≡ none)
        × (s'.votes ≡ insert (id, voter) b s.votes)
        × (s'.proposals ≡ insert id (polled b p) s.proposals)
        × (s'.proposal_count ≡ s.proposal_count)
        × (s'.admin ≡ s.admin)
  unfolding vote count_vote
  vote-effect p found h = ground arith

module _ (e : Env) (id : ℕ) (s : Governance) {s' : Governance} where
  pub execute-found : execute e id s ≡ ok s' → (p : Proposal) × (lookup id s.proposals ≡ some p)
  unfolding execute
  execute-found h = elim (Option-cases (lookup id s.proposals)) [
    | inl missing ↦ absurd (ground arith)
    | inr (p, e) ↦ (p, e)
  ]

  pub execute-effect :
      (p : Proposal)
      → lookup id s.proposals ≡ some p
      → execute e id s ≡ ok s'
      → (p.executed ≡ false)
        × (p.cancelled ≡ false)
        × (p.end_ledger < e.sequence)
        × (p.against_votes <ℤ p.for_votes)
        × (s'.votes ≡ s.votes)
        × (s'.proposals ≡ insert id (record p { executed = true }) s.proposals)
        × (s'.proposal_count ≡ s.proposal_count)
        × (s'.admin ≡ s.admin)
  unfolding execute
  execute-effect p found h = ground arith

module _ (e : Env) (caller : Address) (id : ℕ) (s : Governance) {s' : Governance} where
  pub cancel-found :
      cancel e caller id s ≡ ok s' → (p : Proposal) × (lookup id s.proposals ≡ some p)
  unfolding cancel
  cancel-found h = elim (Option-cases (lookup id s.proposals)) [
    | inl missing ↦ absurd (ground arith)
    | inr (p, e) ↦ (p, e)
  ]

  pub cancel-effect :
      (p : Proposal)
      → lookup id s.proposals ≡ some p
      → cancel e caller id s ≡ ok s'
      → (authorized e caller ≡ true)
        × (p.executed ≡ false)
        × (s'.votes ≡ s.votes)
        × (s'.proposals ≡ insert id (record p { cancelled = true }) s.proposals)
        × (s'.proposal_count ≡ s.proposal_count)
        × (s'.admin ≡ s.admin)
  unfolding cancel
  cancel-effect p found h = ground arith
