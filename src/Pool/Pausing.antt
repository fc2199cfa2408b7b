-- ===== src/Pool/Pausing.antt =====
-- The pause switch of the pool.
use de_fi_lending_stellar_pa.Prelude.{◌≡◌, true, arith}
use de_fi_lending_stellar_pa.Int.{ℤ}
use de_fi_lending_stellar_pa.Soroban.{Address, Symbol, Result, err, Env, ok}
use de_fi_lending_stellar_pa.Pool.State.{Pool, is_paused, require_not_paused}
use de_fi_lending_stellar_pa.Pool.Supply.{supply, withdraw, supply_collateral, withdraw_collateral}
use de_fi_lending_stellar_pa.Pool.Borrow.{
  borrow, borrow_raw, borrow_internal, repay, repay_on_behalf, repay_internal,
}

-- The call panics.
abbrev pub Fails {ℓ} : {A : Type ℓ} → Result A → Type 0
Fails (ok _) = ⊥
Fails (err _) = Unit

-- While the pool is paused, every entry point that moves funds panics, whoever calls and with
-- whatever arguments: supply and withdraw, the collateral pair, both ways to borrow and both to repay.
paused_blocks :
    (e : Env) (op user payer : Address) (x : Symbol) (n : ℤ) (s : Pool)
    → is_paused s ≡ true
    → Fails (supply e user x n s)
      × Fails (withdraw e user x n s)
      × Fails (supply_collateral e user x n s)
      × Fails (withdraw_collateral e user x n s)
      × Fails (borrow e user x n s)
      × Fails (borrow_raw e op user x n s)
      × Fails (repay e user x n s)
      × Fails (repay_on_behalf e op payer user x n s)
unfolding is_paused require_not_paused supply withdraw supply_collateral withdraw_collateral borrow
    borrow_raw borrow_internal repay repay_on_behalf repay_internal
paused_blocks e op user payer x n s h = (
  ground arith,
  ground arith,
  ground arith,
  ground arith,
  ground arith,
  ground arith,
  ground arith,
  ground arith,
)
