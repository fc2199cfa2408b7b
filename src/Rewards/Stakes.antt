-- ===== src/Rewards/Stakes.antt =====
-- What a successful call of each operation has written, and the sums over the published events.
use de_fi_lending_stellar_pa.Prelude.{
  ◌==◌, ◌≡◌, ◌⊎◌, List, [], ◌∷◌, arith, nat_equality, pair_equality, inl, inr, subst, sym,
}
use de_fi_lending_stellar_pa.Int.{ℤ, pos, ◌+ℤ◌, ◌-ℤ◌, ◌≤ℤ◌}
use de_fi_lending_stellar_pa.Map.{insert}
use de_fi_lending_stellar_pa.Map.Sum.{amount_at, selected}
use de_fi_lending_stellar_pa.Soroban.{Address, Symbol, ok, Env, Result-cases}
use de_fi_lending_stellar_pa.Rewards.{
  Rewards, Event, reward_notified, staked, unstaked, claimed, update_reward, notify_reward, stake,
  unstake, claim, pay_out, total_accrued, shown_to, earned, gathered, gathered_if_staked,
  reward_per_token,
}

-- What was notified for an asset, and what was claimed of it.
unfoldable pub notified_in : Symbol → List Event → ℤ
notified_in x [] = pos 0
notified_in x (reward_notified a n ∷ es) = selected (a == x) n +ℤ notified_in x es
notified_in x (staked _ _ _ ∷ es) = notified_in x es
notified_in x (unstaked _ _ _ ∷ es) = notified_in x es
notified_in x (claimed _ _ _ ∷ es) = notified_in x es

unfoldable pub claimed_in : Symbol → List Event → ℤ
claimed_in x [] = pos 0
claimed_in x (claimed _ a n ∷ es) = selected (a == x) n +ℤ claimed_in x es
claimed_in x (reward_notified _ _ ∷ es) = claimed_in x es
claimed_in x (staked _ _ _ ∷ es) = claimed_in x es
claimed_in x (unstaked _ _ _ ∷ es) = claimed_in x es

-- An accrual touches only the accumulated reward and its clock.
pub record SameStakes (s t : Rewards) : Type 0 where
  pub totals : t.totals ≡ s.totals
  pub pools : t.reward_pools ≡ s.reward_pools
  pub stakes : t.stakes ≡ s.stakes
  pub paid : t.paid ≡ s.paid
  pub accrued : t.accrued ≡ s.accrued
  pub events : t.events ≡ s.events

pub update_reward-SameStakes :
    (e : Env) (x : Symbol) (s : Rewards) {t : Rewards} → update_reward e x s ≡ ok t → SameStakes s t
unfolding update_reward
update_reward-SameStakes e x s {t} h = record {
  totals = ground arith;
  pools = ground arith;
  stakes = ground arith;
  paid = ground arith;
  accrued = ground arith;
  events = ground arith;
}

module _ (e : Env) (user : Address) (x : Symbol) (n : ℤ) (s : Rewards) {s' : Rewards} where
  pub stake-effect :
      stake e user x n s ≡ ok s'
      → (s'.stakes ≡ insert (user, x) (amount_at (user, x) s.stakes +ℤ n) s.stakes)
        × (s'.totals ≡ insert x (amount_at x s.totals +ℤ n) s.totals)
        × (s'.reward_pools ≡ s.reward_pools)
        × (s'.events ≡ staked user x n ∷ s.events)
        × (pos 1 ≤ℤ n)
  unfolding stake
  stake-effect h = elim (Result-cases (update_reward e x s)) [
    | inr (_, failed) ↦ absurd (ground arith)
    | inl (t, updated) ↦
        let b = update_reward-SameStakes e x s updated in
        elim (Result-cases (
          gathered_if_staked (amount_at (user, x) t.stakes) (reward_per_token x t)
            (amount_at (user, x) t.paid))) [
              | inr (_, failed) ↦ absurd (ground arith)
              | inl (fresh, counted) ↦ ground arith
            ]
  ]

  pub unstake-effect :
      unstake e user x n s ≡ ok s'
      → (s'.stakes ≡ insert (user, x) (amount_at (user, x) s.stakes -ℤ n) s.stakes)
        × (s'.totals ≡ insert x (amount_at x s.totals -ℤ n) s.totals)
        × (s'.reward_pools ≡ s.reward_pools)
        × (s'.events ≡ unstaked user x n ∷ s.events)
        × (pos 1 ≤ℤ n)
        × (n ≤ℤ amount_at (user, x) s.stakes)
  unfolding unstake
  unstake-effect h = elim (Result-cases (update_reward e x s)) [
    | inr (_, failed) ↦ absurd (ground arith)
    | inl (t, updated) ↦
        let b = update_reward-SameStakes e x s updated in
        elim (Result-cases (
          gathered (amount_at (user, x) t.stakes) (reward_per_token x t)
            (amount_at (user, x) t.paid))) [
              | inr (_, failed) ↦ absurd (ground arith)
              | inl (fresh, counted) ↦ ground arith
            ]
  ]

  pub notify_reward-effect :
      notify_reward e user x n s ≡ ok s'
      → (s'.stakes ≡ s.stakes)
        × (s'.totals ≡ s.totals)
        × (s'.reward_pools ≡ insert x (amount_at x s.reward_pools +ℤ n) s.reward_pools)
        × (s'.events ≡ reward_notified x n ∷ s.events)
        × (pos 1 ≤ℤ n)
  unfolding notify_reward
  notify_reward-effect h = elim (Result-cases (update_reward e x s)) [
    | inr (_, failed) ↦ absurd (ground arith)
    | inl (t, updated) ↦ let b = update_reward-SameStakes e x s updated in ground arith
  ]

module _ (e : Env) (user : Address) (x : Symbol) (s : Rewards) {s' : Rewards} {n : ℤ} where
  -- A claim pays nothing and changes no pool, or takes what it pays from the pool.
  pub claim-effect :
      claim e user x s ≡ ok (s', n)
      → (s'.stakes ≡ s.stakes)
        × (s'.totals ≡ s.totals)
        × (((n ≡ pos 0) × (s'.reward_pools ≡ s.reward_pools) × (s'.events ≡ s.events))
            ⊎ ((n ≤ℤ amount_at x s.reward_pools)
                × (s'.reward_pools ≡ insert x (amount_at x s.reward_pools -ℤ n) s.reward_pools)
                × (s'.events ≡ claimed user x n ∷ s.events)))
  unfolding claim pay_out
  claim-effect h = elim (Result-cases (update_reward e x s)) [
    | inr (_, failed) ↦ absurd (ground arith)
    | inl (t, updated) ↦
        let b = update_reward-SameStakes e x s updated in
        elim (Result-cases (total_accrued user x t)) [
          | inr (_, failed) ↦ absurd (ground arith)
          | inl (due, counted) ↦ ground arith
        ]
  ]

  pub earned-SameStakes : earned e user x s ≡ ok (s', n) → SameStakes s s'
  unfolding earned
  earned-SameStakes h = elim (Result-cases (update_reward e x s)) [
    | inr (_, failed) ↦ absurd (ground arith)
    | inl (t, updated) ↦
        let b = update_reward-SameStakes e x s updated in
        elim (Result-cases (shown_to user x t)) [
          | inr (_, failed) ↦ absurd (ground arith)
          | inl (shown, seen) ↦
              let same : s' ≡ t = ground arith in subst (SameStakes s) (sym same) b
        ]
  ]
