-- ===== src/Governance/Tally.antt =====
-- The votes that a proposal counts are the votes stored for it, through every history of calls.
use de_fi_lending_stellar_pa.Prelude.{
  ℕ, ◌+◌, ◌<◌, ◌≤◌, ◌≡◌, ◌≢◌, refl, Bool, true, false, none, some, [], ◌∷◌, arith, ◌&&◌, ◌==◌,
  if◌then◌else◌, nat_equality, pair_equality, not_eq, subst, Bool-cases, inl, inr,
}
use de_fi_lending_stellar_pa.Int.{pos, ◌<ℤ◌}
use de_fi_lending_stellar_pa.Map.{Map, lookup, insert, lookup-insert}
use de_fi_lending_stellar_pa.Soroban.{Address, unwrap_or, is_some}
use de_fi_lending_stellar_pa.Governance.{Proposal, Governance}

abbrev same_vote : Bool → Bool → Bool
same_vote true b = b
same_vote false true = false
same_vote false false = true

-- How many of the stored votes on a proposal are for it, or against it.
unfoldable pub tally : Bool → ℕ → Map (ℕ × Address) Bool → ℕ
tally support id [] = 0
tally support id ((k, b) ∷ votes) =
    let rest = tally support id votes in if k.0 == id && same_vote support b then 1 + rest else rest

pub tally-insert :
    (support : Bool) (id : ℕ) (k : ℕ × Address) (b : Bool) (votes : Map (ℕ × Address) Bool)
    → lookup k votes ≡ none
    → tally support id (insert k b votes)
      ≡ tally support id votes + (if k.0 == id && same_vote support b then 1 else 0)
unfolding tally lookup insert
tally-insert support id k b [] h = ground arith
tally-insert support id k b ((j, w) ∷ votes) h = ground (arith, tally-insert support id k b votes)

-- What holds of a stored proposal.
pub record IsCounted (votes : Map (ℕ × Address) Bool) (id : ℕ) (p : Proposal) : Type 0 where
  pub for_counted : p.for_votes ≡ pos (tally true id votes)
  pub against_counted : p.against_votes ≡ pos (tally false id votes)
  pub one_end : (p.executed && p.cancelled) ≡ false
  pub won : p.executed ≡ true → p.against_votes <ℤ p.for_votes

pub record IsTallied (s : Governance) : Type 0 where
  pub counted : (id : ℕ) (p : Proposal) → lookup id s.proposals ≡ some p → IsCounted s.votes id p
  pub numbered : (id : ℕ) → unwrap_or s.proposal_count 0 < id → lookup id s.proposals ≡ none
  pub unpolled : (id : ℕ) (b : Bool) → lookup id s.proposals ≡ none → tally b id s.votes ≡ 0
  pub opened : is_some s.admin ≡ true

IsCounted-same_tally :
    (votes votes' : Map (ℕ × Address) Bool) (id : ℕ) (p : Proposal)
    → ((b : Bool) → tally b id votes' ≡ tally b id votes)
    → IsCounted votes id p
    → IsCounted votes' id p
IsCounted-same_tally votes votes' id p same v = record {
  for_counted = rw (same true) v.for_counted;
  against_counted = rw (same false) v.against_counted;
  one_end = v.one_end;
  won = v.won;
}

-- A proposal is stored under the number `j`, with votes that changed on `j` at most.
module _ (s t : Governance) (j : ℕ) (p' : Proposal) (ep : t.proposals ≡ insert j p' s.proposals)
    (ea : t.admin ≡ s.admin) (le : unwrap_or s.proposal_count 0 ≤ unwrap_or t.proposal_count 0)
    (lj : j ≤ unwrap_or t.proposal_count 0)
    (same : (id : ℕ) (b : Bool) → j ≢ id → tally b id t.votes ≡ tally b id s.votes)
    (c : IsCounted t.votes j p') (v : IsTallied s) where
  stored_at :
      (id : ℕ) → lookup id t.proposals ≡ (if j == id then some p' else lookup id s.proposals)
  stored_at id = rw (ep, lookup-insert) refl

  stored-IsCounted :
      (id : ℕ) (p : Proposal) → lookup id t.proposals ≡ some p → IsCounted t.votes id p
  stored-IsCounted id p h = elim (Bool-cases (j == id)) [
    | inl hit ↦
        let here : p' ≡ p = ground (arith, stored_at id) in
        let there : j ≡ id = ground arith in
        subst (λ k. IsCounted t.votes k p) there (subst (IsCounted t.votes j) here c)
    | inr miss ↦
        let before : lookup id s.proposals ≡ some p = ground (arith, stored_at id) in
        IsCounted-same_tally s.votes t.votes id p (λ b. same id b (not_eq j id miss))
          (v.counted id p before)
  ]

  pub stored-IsTallied : IsTallied t
  stored-IsTallied = record {
    counted = stored-IsCounted;
    numbered = λ id far. ground (arith, stored_at id, v.numbered id);
    unpolled = λ id b h. elim (Bool-cases (j == id)) [
      | inl hit ↦ absurd (ground (arith, stored_at id))
      | inr miss ↦
          let before : lookup id s.proposals ≡ none = ground (arith, stored_at id) in
          rw (same id b (not_eq j id miss)) (v.unpolled id b before)
    ];
    opened = rw ea v.opened;
  }
