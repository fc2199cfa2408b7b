-- ===== src/Rewards/Solvency.antt =====
-- The stakes add up to the recorded total, and what was claimed and what is left in the pool add up
-- to what was notified, through every history of calls.
use de_fi_lending_stellar_pa.Prelude.{◌≡◌, refl, List, arith, nat_equality, pair_equality, inl, inr}
use de_fi_lending_stellar_pa.Int.{ℤ, pos, ◌+ℤ◌, ◌-ℤ◌, ◌≤ℤ◌, int_laws}
use de_fi_lending_stellar_pa.Map.{lookup, lookup-insert}
use de_fi_lending_stellar_pa.Map.Sum.{
  amount_at, in_asset, sum_where, NonNegative, insert-NonNegative, amount_at_nonneg,
}
use de_fi_lending_stellar_pa.Soroban.{Address, Symbol, Result, ok, err, Env, run, run_invariant}
use de_fi_lending_stellar_pa.Vault.Conservation.{books-add, books-sub}
use de_fi_lending_stellar_pa.Rewards.{
  Rewards, deployed, initialize, notify_reward, stake, unstake, claim, total_staked, earned,
}
use de_fi_lending_stellar_pa.Rewards.Stakes.{
  notified_in, claimed_in, stake-effect, unstake-effect, notify_reward-effect, claim-effect,
  SameStakes, earned-SameStakes,
}

pub record IsSound (s : Rewards) : Type 0 where
  pub balanced : (a : Symbol) → sum_where (in_asset a) s.stakes ≡ amount_at a s.totals
  pub non_negative : NonNegative s.stakes
  pub funded :
      (a : Symbol) → amount_at a s.reward_pools +ℤ claimed_in a s.events ≡ notified_in a s.events
  pub pools_nonneg : NonNegative s.reward_pools

module _ (e : Env) (user : Address) (x : Symbol) (n : ℤ) (s : Rewards) {s' : Rewards} where
  stake-IsSound : IsSound s → stake e user x n s ≡ ok s' → IsSound s'
  stake-IsSound v h =
      let (es, et, ep, ee, n1) = stake-effect e user x n s h in
      record {
        balanced = λ a. rw (es, et) (books-add a (user, x) n s.stakes s.totals (v.balanced a));
        non_negative = rw es (
            insert-NonNegative (user, x) _ s.stakes v.non_negative
              (omega (int_laws, amount_at_nonneg (user, x) s.stakes v.non_negative)));
        funded = λ a. rw (ep, ee) (unfold notified_in claimed_in in v.funded a);
        pools_nonneg = rw ep v.pools_nonneg;
      }

  unstake-IsSound : IsSound s → unstake e user x n s ≡ ok s' → IsSound s'
  unstake-IsSound v h =
      let (es, et, ep, ee, n1, enough) = unstake-effect e user x n s h in
      record {
        balanced = λ a. rw (es, et) (books-sub a (user, x) n s.stakes s.totals (v.balanced a));
        non_negative =
            rw es (insert-NonNegative (user, x) _ s.stakes v.non_negative (omega int_laws));
        funded = λ a. rw (ep, ee) (unfold notified_in claimed_in in v.funded a);
        pools_nonneg = rw ep v.pools_nonneg;
      }

  notify_reward-IsSound : IsSound s → notify_reward e user x n s ≡ ok s' → IsSound s'
  notify_reward-IsSound v h =
      let (es, et, ep, ee, n1) = notify_reward-effect e user x n s h in
      record {
        balanced = λ a. rw (es, et) (v.balanced a);
        non_negative = rw es v.non_negative;
        funded = λ a.
            rw (ep, ee)
              (unfold notified_in claimed_in in
                grind (
                  int_laws,
                  v.funded a,
                  lookup-insert x a (amount_at x s.reward_pools +ℤ n) s.reward_pools,
                ));
        pools_nonneg = rw ep (
            insert-NonNegative x _ s.reward_pools v.pools_nonneg
              (omega (int_laws, amount_at_nonneg x s.reward_pools v.pools_nonneg)));
      }

module _ (e : Env) (user : Address) (x : Symbol) (s : Rewards) {s' : Rewards} {n : ℤ} where
  claim-IsSound : IsSound s → claim e user x s ≡ ok (s', n) → IsSound s'
  claim-IsSound v h =
      let (es, et, cases) = claim-effect e user x s h in
      elim cases [
        | inl (_, ep, ee) ↦ record {
          balanced = λ a. rw (es, et) (v.balanced a);
          non_negative = rw es v.non_negative;
          funded = λ a. rw (ep, ee) (v.funded a);
          pools_nonneg = rw ep v.pools_nonneg;
        }
        | inr (enough, ep, ee) ↦ record {
          balanced = λ a. rw (es, et) (v.balanced a);
          non_negative = rw es v.non_negative;
          funded = λ a.
              rw (ep, ee)
                (unfold notified_in claimed_in in
                  grind (
                    int_laws,
                    v.funded a,
                    lookup-insert x a (amount_at x s.reward_pools -ℤ n) s.reward_pools,
                  ));
          pools_nonneg =
              rw ep (insert-NonNegative x _ s.reward_pools v.pools_nonneg (omega int_laws));
        }
      ]

same-IsSound : (s t : Rewards) → SameStakes s t → IsSound s → IsSound t
same-IsSound s t b v = record {
  balanced = λ a. rw (b.stakes, b.totals) (v.balanced a);
  non_negative = rw (b.stakes) v.non_negative;
  funded = λ a. rw (b.pools, b.events) (v.funded a);
  pools_nonneg = rw (b.pools) v.pools_nonneg;
}

-- The entry points that change the storage, `earned` among them.
pub data Op : Type 0 where
  initialize_op : Address → Op
  notify_op stake_op unstake_op : Address → Symbol → ℤ → Op
  claim_op earned_op : Address → Symbol → Op

abbrev state_of : Result (Rewards × ℤ) → Result Rewards
state_of (ok (s, _)) = ok s
state_of (err x) = err x

unfoldable pub invoke : Env → Op → Rewards → Result Rewards
invoke e (initialize_op admin) s = initialize e admin s
invoke e (notify_op admin x n) s = notify_reward e admin x n s
invoke e (stake_op user x n) s = stake e user x n s
invoke e (unstake_op user x n) s = unstake e user x n s
invoke e (claim_op user x) s = state_of (claim e user x s)
invoke e (earned_op user x) s = state_of (earned e user x s)

state_of-eq-ok :
    (r : Result (Rewards × ℤ)) {s' : Rewards} → state_of r ≡ ok s' → (n : ℤ) × (r ≡ ok (s', n))
state_of-eq-ok (ok (s, n)) h = (n, ground arith)
state_of-eq-ok (err _) h = absurd (ground arith)

invoke-IsSound :
    (e : Env) (op : Op) (s s' : Rewards) → IsSound s → invoke e op s ≡ ok s' → IsSound s'
unfolding invoke initialize
invoke-IsSound e (initialize_op admin) s s' v h =
    same-IsSound s s'
      (record {
        totals = ground arith;
        pools = ground arith;
        stakes = ground arith;
        paid = ground arith;
        accrued = ground arith;
        events = ground arith;
      })
      v
invoke-IsSound e (notify_op admin x n) s s' v h = notify_reward-IsSound e admin x n s v h
invoke-IsSound e (stake_op user x n) s s' v h = stake-IsSound e user x n s v h
invoke-IsSound e (unstake_op user x n) s s' v h = unstake-IsSound e user x n s v h
invoke-IsSound e (claim_op user x) s s' v h = claim-IsSound e user x s v (state_of-eq-ok _ h).1
invoke-IsSound e (earned_op user x) s s' v h =
    same-IsSound s s' (earned-SameStakes e user x s (state_of-eq-ok _ h).1) v

deployed-IsSound : IsSound deployed
unfolding sum_where lookup notified_in claimed_in ◌+ℤ◌
deployed-IsSound = record {
  balanced = λ a. refl;
  non_negative = tt;
  funded = λ a. refl;
  pools_nonneg = tt;
}

-- However the contract is called after its deployment, the recorded total of an asset is the sum of
-- the stakes in it; what was claimed and what is left in its pool are together what was notified; the
-- claims do not exceed what was notified; and no stake is negative.
pub history_solvent :
    (calls : List (Env × Op)) (user : Address) (a : Symbol)
    → let s = run invoke calls deployed in
      (sum_where (in_asset a) s.stakes ≡ total_staked a s)
      × (amount_at a s.reward_pools +ℤ claimed_in a s.events ≡ notified_in a s.events)
      × (claimed_in a s.events ≤ℤ notified_in a s.events)
      × (pos 0 ≤ℤ amount_at (user, a) s.stakes)
unfolding total_staked
history_solvent calls user a =
    let s = run invoke calls deployed in
    let v : IsSound s =
      run_invariant invoke IsSound invoke-IsSound calls deployed deployed-IsSound in
    let pool0 = amount_at_nonneg a s.reward_pools v.pools_nonneg in
    (
      v.balanced a,
      v.funded a,
      rw⁻¹ (v.funded a) (omega int_laws),
      amount_at_nonneg (user, a) s.stakes v.non_negative,
    )
