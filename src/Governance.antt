-- ===== src/Governance.antt =====
-- Governance (contracts/governance/soroban/src/lib.rs): proposals, votes, and their execution or
-- cancellation.
pub mod Tally
pub mod Lifecycle
pub mod Counting
pub mod Final
mod Examples
use de_fi_lending_stellar_pa.Prelude.{
  ℕ, ◌/◌, ◌==◌, ltb, leb, not, ◌&&◌, ◌||◌, Bool, true, false, Option, none, some, List, [], ◌∷◌,
  if◌then◌else◌, nat_equality, pair_equality,
}
use de_fi_lending_stellar_pa.Int.{ℤ, pos, leb_ℤ}
use de_fi_lending_stellar_pa.Map.{Map, lookup, insert}
use de_fi_lending_stellar_pa.Soroban.{
  Address, Symbol, Result, ok, err, ◌>>=◌, ◌>>◌, Env, panic_if, expect, unwrap_or, is_some,
  require_auth, add_i128, add_u32, add_u64, rem_u128, wrap_i128, mul_u128, already_initialized,
  proposal_not_found, voting_ended, proposal_not_active, already_voted, already_executed,
  proposal_cancelled, voting_still_active, quorum_not_reached, proposal_defeated, admin_not_set,
  only_proposer_or_admin,
}

abbrev pub default_voting_period : ℕ
default_voting_period = 86_400

abbrev pub default_timelock : ℕ
default_timelock = 17_280

abbrev pub default_quorum_bps : ℕ
default_quorum_bps = 500

-- `calldata` is a list of bytes.
pub record Proposal : Type 0 where
  pub id : ℕ
  pub proposer : Address
  pub title : Symbol
  pub description : Symbol
  pub target : Address
  pub calldata : List ℕ
  pub start_ledger : ℕ
  pub end_ledger : ℕ
  pub for_votes : ℤ
  pub against_votes : ℤ
  pub executed : Bool
  pub cancelled : Bool

pub data Event : Type 0 where
  proposal_created : Address → ℕ → Event
  vote_cast : Address → ℕ → Bool → Event
  proposal_executed proposal_was_cancelled : ℕ → Event

-- The keys of `DataKey`; `events` holds what was published, the latest first.
pub record Governance : Type 0 where
  pub admin : Option Address
  pub governance_token : Option Address
  pub proposal_count : Option ℕ
  pub proposals : Map ℕ Proposal
  pub votes : Map (ℕ × Address) Bool
  pub quorum_bps : Option ℕ
  pub voting_period : Option ℕ
  pub timelock_period : Option ℕ
  pub events : List Event

abbrev pub deployed : Governance
deployed = record {
  admin = none;
  governance_token = none;
  proposal_count = none;
  proposals = [];
  votes = [];
  quorum_bps = none;
  voting_period = none;
  timelock_period = none;
  events = [];
}

unfoldable pub initialize : Env → Address → Address → Governance → Result Governance
initialize e admin token s = do
  panic_if (is_some s.admin) already_initialized
  require_auth e admin
  ok (record s {
    admin = some admin;
    governance_token = some token;
    quorum_bps = some default_quorum_bps;
    voting_period = some default_voting_period;
    timelock_period = some default_timelock;
    proposal_count = some 0;
  })

unfoldable pub propose :
    Env → Address → Symbol → Symbol → Address → List ℕ → Governance → Result (Governance × ℕ)
propose e proposer title description target calldata s = do
  require_auth e proposer
  id ← add_u64 (unwrap_or s.proposal_count 0) 1
  end_ledger ← add_u32 e.sequence (unwrap_or s.voting_period default_voting_period)
  let proposal : Proposal = record {
    id = id;
    proposer = proposer;
    title = title;
    description = description;
    target = target;
    calldata = calldata;
    start_ledger = e.sequence;
    end_ledger = end_ledger;
    for_votes = pos 0;
    against_votes = pos 0;
    executed = false;
    cancelled = false;
  }
  ok (
    record s {
      proposals = insert id proposal s.proposals;
      proposal_count = some id;
      events = proposal_created proposer id ∷ s.events;
    },
    id,
  )

-- A vote weighs 1, for or against.
unfoldable pub count_vote : Bool → Proposal → Result Proposal
count_vote true p = do votes ← add_i128 p.for_votes (pos 1); ok (record p { for_votes = votes })
count_vote false p = do
  votes ← add_i128 p.against_votes (pos 1)
  ok (record p { against_votes = votes })

unfoldable pub vote : Env → Address → ℕ → Bool → Governance → Result Governance
vote e voter proposal_id support s = do
  require_auth e voter
  p ← expect (lookup proposal_id s.proposals) proposal_not_found
  panic_if (ltb p.end_ledger e.sequence) voting_ended
  panic_if (p.executed || p.cancelled) proposal_not_active
  panic_if (is_some (lookup (proposal_id, voter) s.votes)) already_voted
  counted ← count_vote support p
  ok (record s {
    votes = insert (proposal_id, voter) support s.votes;
    proposals = insert proposal_id counted s.proposals;
    events = vote_cast voter proposal_id support ∷ s.events;
  })

-- `(total_votes as u128 * quorum_bps as u128 / 10_000) as i128`
unfoldable pub quorum : ℤ → ℕ → Result ℤ
quorum total_votes quorum_bps = do
  scaled ← mul_u128 (rem_u128 total_votes) quorum_bps
  ok (wrap_i128 (scaled / 10_000))

unfoldable pub execute : Env → ℕ → Governance → Result Governance
execute e proposal_id s = do
  p ← expect (lookup proposal_id s.proposals) proposal_not_found
  panic_if p.executed already_executed
  panic_if p.cancelled proposal_cancelled
  panic_if (leb e.sequence p.end_ledger) voting_still_active
  total_votes ← add_i128 p.for_votes p.against_votes
  needed ← quorum total_votes (unwrap_or s.quorum_bps default_quorum_bps)
  panic_if (leb_ℤ p.for_votes needed) quorum_not_reached
  panic_if (leb_ℤ p.for_votes p.against_votes) proposal_defeated
  ok (record s {
    proposals = insert proposal_id (record p { executed = true }) s.proposals;
    events = proposal_executed proposal_id ∷ s.events;
  })

unfoldable pub cancel : Env → Address → ℕ → Governance → Result Governance
cancel e caller proposal_id s = do
  require_auth e caller
  p ← expect (lookup proposal_id s.proposals) proposal_not_found
  admin ← expect s.admin admin_not_set
  panic_if (not (caller == p.proposer) && not (caller == admin)) only_proposer_or_admin
  panic_if p.executed already_executed
  ok (record s {
    proposals = insert proposal_id (record p { cancelled = true }) s.proposals;
    events = proposal_was_cancelled proposal_id ∷ s.events;
  })

unfoldable pub get_proposal : ℕ → Governance → Result Proposal
get_proposal proposal_id s = expect (lookup proposal_id s.proposals) proposal_not_found

unfoldable pub proposal_count : Governance → ℕ
proposal_count s = unwrap_or s.proposal_count 0

unfoldable pub has_voted : Address → ℕ → Governance → Bool
has_voted voter proposal_id s = is_some (lookup (proposal_id, voter) s.votes)
