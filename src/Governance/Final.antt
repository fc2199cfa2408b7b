-- ===== src/Governance/Final.antt =====
-- What cannot be undone: an end of a proposal, and a vote. And how little an execution needs.
use de_fi_lending_stellar_pa.Prelude.{
  ℕ, ◌+◌, ◌*◌, ◌/◌, ◌%◌, ◌<◌, ◌≤◌, ◌≡◌, refl, Bool, true, false, some, List, ◌∷◌, arith, ◌||◌,
  nat_equality, pair_equality, inl, inr, ◌∙◌,
}
use de_fi_lending_stellar_pa.Int.{pos, ◌+ℤ◌}
use de_fi_lending_stellar_pa.Map.{lookup, insert, lookup-insert, lookup-insert_self}
use de_fi_lending_stellar_pa.Soroban.{
  Address, Symbol, ok, err, Env, unwrap_or, run, run_invariant, in_i128, Error, Result-cases,
  i128_limit, u128_limit, rem_u128, wrap_i128,
}
use de_fi_lending_stellar_pa.Governance.{
  Proposal, Governance, deployed, initialize, propose, vote, quorum, execute, get_proposal,
  has_voted, default_quorum_bps, proposal_executed,
}
use de_fi_lending_stellar_pa.Governance.Tally.{IsTallied}
use de_fi_lending_stellar_pa.Governance.Lifecycle.{
  proposed, propose-effect, vote-found, vote-effect, execute-found, execute-effect, cancel-found,
  cancel-effect,
}
use de_fi_lending_stellar_pa.Governance.Counting.{
  Op, initialize_op, propose_op, vote_op, execute_op, cancel_op, invoke, propose_inverted,
  invoke-IsTallied, initialized-IsTallied,
}

module _ (id : ℕ) (p : Proposal) (ended : (p.executed || p.cancelled) ≡ true) where
  keeps_ended :
      (e : Env) (op : Op) (s s' : Governance)
      → lookup id s.proposals ≡ some p
      → IsTallied s
      → invoke e op s ≡ ok s'
      → lookup id s'.proposals ≡ some p
  unfolding invoke initialize
  keeps_ended e (initialize_op admin token) s s' held v h = absurd (ground (arith, v.opened))
  keeps_ended e (propose_op a title description target calldata) s s' held v h =
      let (n, h') = propose_inverted _ h in
      let (number, ep, _, _, _) = propose-effect e a title description target calldata s h' in
      rw (ep, lookup-insert) (ground (arith, v.numbered id))
  keeps_ended e (vote_op voter j b) s s' held v h =
      let (q, found) = vote-found e voter j b s h in
      let (active, running, _, _, _, ep, _, _) = vote-effect e voter j b s q found h in
      rw (ep, lookup-insert) (ground arith)
  keeps_ended e (execute_op j) s s' held v h =
      let (q, found) = execute-found e j s h in
      let (active, running, _, _, _, ep, _, _) = execute-effect e j s q found h in
      rw (ep, lookup-insert) (ground arith)
  keeps_ended e (cancel_op caller j) s s' held v h =
      let (q, found) = cancel-found e caller j s h in
      let (_, active, _, ep, _, _) = cancel-effect e caller j s q found h in
      rw (ep, lookup-insert) (ground arith)

module _ (e : Env) (admin token : Address) (s : Governance) (before after : List (Env × Op))
    (id : ℕ) where
  -- In a contract that was initialised right after its deployment, a proposal that is executed or
  -- cancelled stays as it is, whatever is called later: its votes and its outcome are final.
  pub ended_is_final :
      (p : Proposal)
      → initialize e admin token deployed ≡ ok s
      → get_proposal id (run invoke before s) ≡ ok p
      → (p.executed || p.cancelled) ≡ true
      → get_proposal id (run invoke after (run invoke before s)) ≡ ok p
  unfolding get_proposal
  ended_is_final p opened read ended =
      let t = run invoke before s in
      let v : IsTallied t =
        run_invariant invoke IsTallied invoke-IsTallied before s
          (initialized-IsTallied e admin token opened) in
      let kept =
        run_invariant invoke (λ u. IsTallied u × (lookup id u.proposals ≡ some p))
          (λ e' op u u' (w, held) done.
            (invoke-IsTallied e' op u u' w done, keeps_ended id p ended e' op u u' held w done))
          after t (v, ground arith) in
      rw (kept.1) refl

module _ (id : ℕ) (voter : Address) where
  keeps_vote :
      (e : Env) (op : Op) (s s' : Governance)
      → has_voted voter id s ≡ true
      → invoke e op s ≡ ok s'
      → has_voted voter id s' ≡ true
  unfolding invoke initialize has_voted
  keeps_vote e (initialize_op admin token) s s' held h = ground arith
  keeps_vote e (propose_op a title description target calldata) s s' held h =
      let (n, h') = propose_inverted _ h in
      let (_, _, ev, _, _) = propose-effect e a title description target calldata s h' in rw ev held
  keeps_vote e (vote_op other j b) s s' held h =
      let (q, found) = vote-found e other j b s h in
      let (_, _, _, _, ev, _, _, _) = vote-effect e other j b s q found h in
      rw (ev, lookup-insert) (ground arith)
  keeps_vote e (execute_op j) s s' held h =
      let (q, found) = execute-found e j s h in
      let (_, _, _, _, ev, _, _, _) = execute-effect e j s q found h in rw ev held
  keeps_vote e (cancel_op caller j) s s' held h =
      let (q, found) = cancel-found e caller j s h in
      let (_, _, ev, _, _, _) = cancel-effect e caller j s q found h in rw ev held

  -- A voter has one vote on a proposal: once it is cast it stays recorded, and whatever is called in
  -- between, every further vote of theirs on it panics.
  one_vote_each :
      (e e' : Env) (b b' : Bool) (after : List (Env × Op)) (s : Governance) {s' : Governance}
      → vote e voter id b s ≡ ok s'
      → (has_voted voter id (run invoke after s') ≡ true)
        × (x : Error) × (vote e' voter id b' (run invoke after s') ≡ err x)
  one_vote_each e e' b b' after s {s'} h =
      let (q, found) = vote-found e voter id b s h in
      let (_, _, _, _, ev, _, _, _) = vote-effect e voter id b s q found h in
      let t = run invoke after s' in
      let cast : has_voted voter id s' ≡ true =
        unfold has_voted in rw (ev, lookup-insert_self) refl in
      let kept : has_voted voter id t ≡ true =
        run_invariant invoke (λ u. has_voted voter id u ≡ true) keeps_vote after s' cast in
      elim (Result-cases (vote e' voter id b' t)) [
        | inr (x, failed) ↦ (kept, x, failed)
        | inl (u, done) ↦
            let (q', found') = vote-found e' voter id b' t done in
            let (_, _, _, new, _, _, _, _) = vote-effect e' voter id b' t q' found' done in
            absurd (unfold has_voted in ground arith)
      ]

quorum_pos :
    (n bps : ℕ)
    → n * bps < u128_limit
    → n < u128_limit
    → quorum (pos n) bps ≡ ok (pos (n * bps / 10_000))
unfolding quorum rem_u128 wrap_i128 u128_limit i128_limit
quorum_pos n bps h h' =
    let fits : n % u128_limit ≡ n = omega arith in
    let small : n * bps / 10_000 < i128_limit = omega arith in rw fits (ground arith)

-- A proposal that is neither executed nor cancelled can be executed by anybody in the first ledger
-- after its voting period, whatever the timelock, as soon as more votes are for it than against. A
-- quorum of at most half is no further condition: it is measured in the votes cast, so a single vote
-- is enough.
pub execute_at_once :
    (e : Env) (id for against : ℕ) (s : Governance) (p : Proposal)
    → get_proposal id s ≡ ok p
    → p.executed ≡ false
    → p.cancelled ≡ false
    → p.for_votes ≡ pos for
    → p.against_votes ≡ pos against
    → against < for
    → (for + against) * 5_000 < u128_limit
    → unwrap_or s.quorum_bps default_quorum_bps ≤ 5_000
    → e.sequence ≡ p.end_ledger + 1
    → execute e id s
      ≡ ok (record s {
        proposals = insert id (record p { executed = true }) s.proposals;
        events = proposal_executed id ∷ s.events;
      })
unfolding u128_limit
execute_at_once e id for against s p read pending running ef ea majority small half now =
    let n = for + against in
    let q = unwrap_or s.quorum_bps default_quorum_bps in
    let le : n * q ≤ n * 5_000 = grind arith in
    let needed = quorum_pos n q (omega arith) (omega arith) in
    let low : n * q / 10_000 < for = omega arith in
    let found : lookup id s.proposals ≡ some p = unfold get_proposal in ground arith in
    let sum : pos for +ℤ pos against ≡ pos n = unfold ◌+ℤ◌ in ground arith in
    let inside : in_i128 (pos n) ≡ true = unfold in_i128 i128_limit in ground arith in
    unfold execute in
    rw found (rw (pending, running, ef, ea) (rw sum (rw inside (rw needed (ground arith)))))

-- Anybody can propose and vote before the initialisation, which sets the count back to 0: the next
-- proposal takes the number 1 again and replaces the one stored there, while the votes on that stay,
-- so its voters cannot vote on the new one.
initialize_restarts :
    (e e' : Env) (admin token proposer : Address) (title description : Symbol) (target : Address)
    (calldata : List ℕ) (s : Governance) {s' s'' : Governance} {id : ℕ}
    → initialize e admin token s ≡ ok s'
    → propose e' proposer title description target calldata s' ≡ ok (s'', id)
    → (id ≡ 1)
      × (get_proposal 1 s'' ≡ ok (proposed e' proposer title description target calldata s'))
      × ((voter : Address) → has_voted voter 1 s'' ≡ has_voted voter 1 s)
unfolding initialize get_proposal has_voted
initialize_restarts e e' admin token proposer title description target calldata s {s'} {s''} {id} h
      h' =
    let (number, ep, ev, _, _) =
      propose-effect e' proposer title description target calldata s' h' in
    let restarted : s'.proposal_count ≡ some 0 = ground arith in
    let same : s'.votes ≡ s.votes = ground arith in
    let first : id ≡ 1 = number ∙ rw restarted refl in
    (first, rw (ep, first, lookup-insert_self) refl, λ voter. rw (ev, same) refl)
