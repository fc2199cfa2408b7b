-- ===== src/Pool/Calls.antt =====
-- The calls of the pool against the invariant of Pool/Sound, entry point by entry point.
use de_fi_lending_stellar_pa.Prelude.{◌≡◌, Bool, true, false, arith, nat_equality, pair_equality}
use de_fi_lending_stellar_pa.Int.{ℤ, pos, ◌+ℤ◌, ◌-ℤ◌, ◌≤ℤ◌, int_laws}
use de_fi_lending_stellar_pa.Map.{Map, insert}
use de_fi_lending_stellar_pa.Map.Sum.{amount_at, NonNegative, insert-NonNegative, amount_at_nonneg}
use de_fi_lending_stellar_pa.Soroban.{Address, Symbol, ok, Env}
use de_fi_lending_stellar_pa.Pool.State.{
  Pool, AssetConfig, index_scale, initialize, add_asset, set_paused, add_operator,
  set_skip_token_transfers,
}
use de_fi_lending_stellar_pa.Pool.Interest.{accrue_interest}
use de_fi_lending_stellar_pa.Pool.Supply.{supply_collateral, withdraw_collateral}
use de_fi_lending_stellar_pa.Pool.Borrow.{borrow, borrow_raw, repay, repay_on_behalf}
use de_fi_lending_stellar_pa.Pool.Effects.{accrue_interest-SameBooks}
use de_fi_lending_stellar_pa.Pool.Sound.{IsSound, insert-IsGrown, accrue_interest-IsGrown}
use de_fi_lending_stellar_pa.Pool.Loans.{borrow_internal-IsSound, repay_internal-IsSound}

module _ (e : Env) (s : Pool) {s' : Pool} (v : IsSound s) where
  -- An operation that writes the share balances only.
  shares-IsSound :
      {m : Map (Address × Symbol) ℤ}
      → s'.deposit_shares ≡ m
      → NonNegative m
      → s'.total_deposit_shares ≡ s.total_deposit_shares
      → s'.borrowers ≡ s.borrowers
      → s'.borrow_indices ≡ s.borrow_indices
      → IsSound s'
  shares-IsSound own n0 total borrowers indices = record {
    shares = rw own n0;
    minted = rw total v.minted;
    loans = rw borrowers v.loans;
    indices = rw indices v.indices;
  }

  elsewhere-IsSound :
      s'.deposit_shares ≡ s.deposit_shares
      → s'.total_deposit_shares ≡ s.total_deposit_shares
      → s'.borrowers ≡ s.borrowers
      → s'.borrow_indices ≡ s.borrow_indices
      → IsSound s'
  elsewhere-IsSound own = shares-IsSound own v.shares

  pub initialize-IsSound : (admin : Address) → initialize e admin s ≡ ok s' → IsSound s'
  unfolding initialize
  initialize-IsSound admin h =
      elsewhere-IsSound (ground arith) (ground arith) (ground arith) (ground arith)

  pub add_operator-IsSound : (op : Address) → add_operator e op s ≡ ok s' → IsSound s'
  unfolding add_operator
  add_operator-IsSound op h =
      elsewhere-IsSound (ground arith) (ground arith) (ground arith) (ground arith)

  pub set_paused-IsSound : (to : Bool) → set_paused e to s ≡ ok s' → IsSound s'
  unfolding set_paused
  set_paused-IsSound to h =
      elsewhere-IsSound (ground arith) (ground arith) (ground arith) (ground arith)

  pub set_skip-IsSound : (skip : Bool) → set_skip_token_transfers e skip s ≡ ok s' → IsSound s'
  unfolding set_skip_token_transfers
  set_skip-IsSound skip h =
      elsewhere-IsSound (ground arith) (ground arith) (ground arith) (ground arith)

  pub add_asset-IsSound : (cfg : AssetConfig) → add_asset e cfg s ≡ ok s' → IsSound s'
  unfolding add_asset
  add_asset-IsSound cfg h =
      let own : s'.deposit_shares ≡ s.deposit_shares = ground arith in
      let total : s'.total_deposit_shares ≡ s.total_deposit_shares = ground arith in
      let borrowers : s'.borrowers ≡ s.borrowers = ground arith in
      let reset : s'.borrow_indices ≡ insert cfg.asset index_scale s.borrow_indices =
        ground arith in
      record {
        shares = rw own v.shares;
        minted = rw total v.minted;
        loans = rw borrowers v.loans;
        indices =
            rw reset
              (insert-IsGrown cfg.asset index_scale s.borrow_indices v.indices (omega arith));
      }

  pub accrue_interest-IsSound : (x : Symbol) → accrue_interest e x s ≡ ok s' → IsSound s'
  accrue_interest-IsSound x h =
      let b = accrue_interest-SameBooks e x s h in
      record {
        shares = rw (b.shares) v.shares;
        minted = rw (b.total_shares) v.minted;
        loans = rw (b.snapshots) v.loans;
        indices = accrue_interest-IsGrown e x s h v.indices;
      }

  pub supply_collateral-IsSound :
      (user : Address) (x : Symbol) (n : ℤ) → supply_collateral e user x n s ≡ ok s' → IsSound s'
  unfolding supply_collateral
  supply_collateral-IsSound user x n h =
      let n1 : pos 1 ≤ℤ n = ground arith in
      let o0 = amount_at_nonneg (user, x) s.deposit_shares v.shares in
      let own : s'.deposit_shares
          ≡ insert (user, x) (amount_at (user, x) s.deposit_shares +ℤ n) s.deposit_shares =
        ground arith in
      shares-IsSound own (insert-NonNegative (user, x) _ s.deposit_shares v.shares (omega int_laws))
        (ground arith) (ground arith) (ground arith)

  pub withdraw_collateral-IsSound :
      (user : Address) (x : Symbol) (n : ℤ) {m : ℤ}
      → withdraw_collateral e user x n s ≡ ok (s', m)
      → IsSound s'
  unfolding withdraw_collateral
  withdraw_collateral-IsSound user x n h =
      let enough : n ≤ℤ amount_at (user, x) s.deposit_shares = ground arith in
      let own : s'.deposit_shares
          ≡ insert (user, x) (amount_at (user, x) s.deposit_shares -ℤ n) s.deposit_shares =
        ground arith in
      shares-IsSound own (insert-NonNegative (user, x) _ s.deposit_shares v.shares (omega int_laws))
        (ground arith) (ground arith) (ground arith)

module _ (e : Env) (s : Pool) (v : IsSound s) where
  pub borrows-IsSound :
      (user : Address) (x : Symbol) (n : ℤ) {s' : Pool} → borrow e user x n s ≡ ok s' → IsSound s'
  unfolding borrow
  borrows-IsSound user x n h = borrow_internal-IsSound e user x n true s v (ground arith)

  pub borrow_raw-IsSound :
      (op user : Address) (x : Symbol) (n : ℤ) {s' : Pool}
      → borrow_raw e op user x n s ≡ ok s'
      → IsSound s'
  unfolding borrow_raw
  borrow_raw-IsSound op user x n h = borrow_internal-IsSound e user x n false s v (ground arith)

  pub repay-IsSound :
      (user : Address) (x : Symbol) (n : ℤ) {s' : Pool} {m : ℤ}
      → repay e user x n s ≡ ok (s', m)
      → IsSound s'
  unfolding repay
  repay-IsSound user x n {m = m} h =
      repay_internal-IsSound e user user x n s {m = m} v (ground arith)

  pub repay_on_behalf-IsSound :
      (op payer borrower : Address) (x : Symbol) (n : ℤ) {s' : Pool} {m : ℤ}
      → repay_on_behalf e op payer borrower x n s ≡ ok (s', m)
      → IsSound s'
  unfolding repay_on_behalf
  repay_on_behalf-IsSound op payer borrower x n {m = m} h =
      repay_internal-IsSound e payer borrower x n s {m = m} v (ground arith)
