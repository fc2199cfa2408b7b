-- ===== src/Governance/Counting.antt =====
-- Every successful operation keeps the counts of the proposals right, so every history does.
use de_fi_lending_stellar_pa.Prelude.{
  ℕ, ◌≤◌, ◌≡◌, refl, Bool, true, false, none, some, List, [], arith, ◌&&◌, nat_equality,
  pair_equality,
}
use de_fi_lending_stellar_pa.Int.{pos, ◌+ℤ◌, leb_ℤ}
use de_fi_lending_stellar_pa.Map.{lookup, insert}
use de_fi_lending_stellar_pa.Soroban.{
  Address, Symbol, Result, ok, err, ◌>>=◌, Env, unwrap_or, run, run_invariant,
}
use de_fi_lending_stellar_pa.Governance.{
  Proposal, Governance, deployed, initialize, propose, vote, execute, cancel, get_proposal,
}
use de_fi_lending_stellar_pa.Governance.Tally.{
  tally, tally-insert, IsCounted, IsTallied, stored-IsTallied,
}
use de_fi_lending_stellar_pa.Governance.Lifecycle.{
  polled, propose-effect, vote-found, vote-effect, execute-found, execute-effect, cancel-found,
  cancel-effect,
}

module _ (s : Governance) (v : IsTallied s) where
  propose-IsTallied :
      (e : Env) (proposer : Address) (title description : Symbol) (target : Address)
      (calldata : List ℕ) {s' : Governance} {id : ℕ}
      → propose e proposer title description target calldata s ≡ ok (s', id)
      → IsTallied s'
  propose-IsTallied e proposer title description target calldata {s'} {id} h =
      let (number, ep, ev, ec, ea) =
        propose-effect e proposer title description target calldata s h in
      let new : lookup id s.proposals ≡ none = v.numbered id (omega arith) in
      stored-IsTallied s s' id _ ep ea (rw ec (omega arith)) (rw ec (omega arith))
        (λ j b other. rw ev refl)
        (record {
          for_counted = rw (ev, v.unpolled id true new) refl;
          against_counted = rw (ev, v.unpolled id false new) refl;
          one_end = refl;
          won = λ done. absurd (ground arith);
        })
        v

  -- A stored proposal's number is at most the count.
  number_le :
      (id : ℕ) (p : Proposal) → lookup id s.proposals ≡ some p → id ≤ unwrap_or s.proposal_count 0
  number_le id p found = ground (arith, v.numbered id)

  polled-IsCounted :
      (id : ℕ) (voter : Address) (b : Bool) (p : Proposal)
      → lookup (id, voter) s.votes ≡ none
      → p.executed ≡ false
      → IsCounted s.votes id p
      → IsCounted (insert (id, voter) b s.votes) id (polled b p)
  unfolding ◌+ℤ◌
  polled-IsCounted id voter true p new active c = record {
    for_counted =
        rw (c.for_counted, tally-insert true id (id, voter) true s.votes new) (ground arith);
    against_counted =
        rw (c.against_counted, tally-insert false id (id, voter) true s.votes new) (ground arith);
    one_end = c.one_end;
    won = λ done. absurd (ground arith);
  }
  polled-IsCounted id voter false p new active c = record {
    for_counted =
        rw (c.for_counted, tally-insert true id (id, voter) false s.votes new) (ground arith);
    against_counted =
        rw (c.against_counted, tally-insert false id (id, voter) false s.votes new) (ground arith);
    one_end = c.one_end;
    won = λ done. absurd (ground arith);
  }

  vote-IsTallied :
      (e : Env) (voter : Address) (id : ℕ) (b : Bool) {s' : Governance}
      → vote e voter id b s ≡ ok s'
      → IsTallied s'
  vote-IsTallied e voter id b {s'} h =
      let (p, found) = vote-found e voter id b s h in
      let (active, _, _, new, ev, ep, ec, ea) = vote-effect e voter id b s p found h in
      stored-IsTallied s s' id _ ep ea (rw ec (omega arith)) (rw ec (number_le id p found))
        (λ j b' other. rw ev (ground (arith, tally-insert b' j (id, voter) b s.votes new)))
        (rw ev (polled-IsCounted id voter b p new active (v.counted id p found))) v

  execute-IsTallied : (e : Env) (id : ℕ) {s' : Governance} → execute e id s ≡ ok s' → IsTallied s'
  execute-IsTallied e id {s'} h =
      let (p, found) = execute-found e id s h in
      let (_, running, _, majority, ev, ep, ec, ea) = execute-effect e id s p found h in
      let c = v.counted id p found in
      stored-IsTallied s s' id _ ep ea (rw ec (omega arith)) (rw ec (number_le id p found))
        (λ j b other. rw ev refl)
        (rw ev (record {
          for_counted = c.for_counted;
          against_counted = c.against_counted;
          one_end = running;
          won = λ done. majority;
        }))
        v

  cancel-IsTallied :
      (e : Env) (caller : Address) (id : ℕ) {s' : Governance}
      → cancel e caller id s ≡ ok s'
      → IsTallied s'
  cancel-IsTallied e caller id {s'} h =
      let (p, found) = cancel-found e caller id s h in
      let (_, pending, ev, ep, ec, ea) = cancel-effect e caller id s p found h in
      let c = v.counted id p found in
      stored-IsTallied s s' id _ ep ea (rw ec (omega arith)) (rw ec (number_le id p found))
        (λ j b other. rw ev refl)
        (rw ev (record {
          for_counted = c.for_counted;
          against_counted = c.against_counted;
          one_end = rw pending refl;
          won = λ done. absurd (ground arith);
        }))
        v

-- The entry points that change the storage.
pub data Op : Type 0 where
  initialize_op : Address → Address → Op
  propose_op : Address → Symbol → Symbol → Address → List ℕ → Op
  vote_op : Address → ℕ → Bool → Op
  execute_op : ℕ → Op
  cancel_op : Address → ℕ → Op

unfoldable pub invoke : Env → Op → Governance → Result Governance
invoke e (initialize_op admin token) s = initialize e admin token s
invoke e (propose_op a title description target calldata) s =
    propose e a title description target calldata s >>= λ (s', _). ok s'
invoke e (vote_op voter id support) s = vote e voter id support s
invoke e (execute_op id) s = execute e id s
invoke e (cancel_op caller id) s = cancel e caller id s

pub propose_inverted :
    (r : Result (Governance × ℕ)) {s' : Governance}
    → (r >>= λ (t, _). ok t) ≡ ok s'
    → (id : ℕ) × (r ≡ ok (s', id))
propose_inverted (ok (t, id)) h = (id, ground arith)
propose_inverted (err _) h = absurd (ground arith)

pub invoke-IsTallied :
    (e : Env) (op : Op) (s s' : Governance) → IsTallied s → invoke e op s ≡ ok s' → IsTallied s'
unfolding invoke initialize
invoke-IsTallied e (initialize_op admin token) s s' v h = absurd (ground (arith, v.opened))
invoke-IsTallied e (propose_op a title description target calldata) s s' v h =
    propose-IsTallied s v e a title description target calldata (propose_inverted _ h).1
invoke-IsTallied e (vote_op voter id b) s s' v h = vote-IsTallied s v e voter id b h
invoke-IsTallied e (execute_op id) s s' v h = execute-IsTallied s v e id h
invoke-IsTallied e (cancel_op caller id) s s' v h = cancel-IsTallied s v e caller id h

pub initialized-IsTallied :
    (e : Env) (admin token : Address) {s : Governance}
    → initialize e admin token deployed ≡ ok s
    → IsTallied s
unfolding initialize lookup tally
initialized-IsTallied e admin token {s} h =
    let nothing : s.proposals ≡ [] = ground arith in
    let unvoted : s.votes ≡ [] = ground arith in
    record {
      counted = λ id p stored. absurd (empty id p (rw nothing at stored));
      numbered = λ id far. rw nothing refl;
      unpolled = λ id b missing. rw unvoted refl;
      opened = ground arith;
    }
  where
    empty : (id : ℕ) (p : Proposal) → lookup id [] ≡ some p → ⊥
    empty id p stored = ground arith

-- Once the contract has been initialised right after its deployment, however it is called, the votes
-- that a stored proposal counts for and against it are the stored votes on it; no proposal is both
-- executed and cancelled; and an executed one has more votes for than against.
pub history_tallied :
    (e : Env) (admin token : Address) (s : Governance) (calls : List (Env × Op)) (id : ℕ)
    (p : Proposal)
    → initialize e admin token deployed ≡ ok s
    → get_proposal id (run invoke calls s) ≡ ok p
    → (p.for_votes ≡ pos (tally true id (run invoke calls s).votes))
      × (p.against_votes ≡ pos (tally false id (run invoke calls s).votes))
      × ((p.executed && p.cancelled) ≡ false)
      × ((p.executed && leb_ℤ p.for_votes p.against_votes) ≡ false)
unfolding get_proposal
history_tallied e admin token s calls id p opened read =
    let t = run invoke calls s in
    let v : IsTallied t =
      run_invariant invoke IsTallied invoke-IsTallied calls s
        (initialized-IsTallied e admin token opened) in
    let c = v.counted id p (ground arith) in
    (c.for_counted, c.against_counted, c.one_end, ground (arith, c.won))
