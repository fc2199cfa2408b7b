-- ===== src/Pool/Reach.antt =====
-- Histories of the pool: the invariant after any of them, and what it says of debts and shares.
use de_fi_lending_stellar_pa.Prelude.{
  ◌≡◌, refl, sym, List, arith, nat_equality, pair_equality, inl, inr, Option-cases,
}
use de_fi_lending_stellar_pa.Int.{ℤ, pos, max_ℤ, ◌*ℤ◌, ◌≤ℤ◌, int_laws}
use de_fi_lending_stellar_pa.Int.Product.{*ℤ_nonneg, quot_nonneg}
use de_fi_lending_stellar_pa.Map.{Map, lookup}
use de_fi_lending_stellar_pa.Map.Sum.{amount_at_nonneg}
use de_fi_lending_stellar_pa.Soroban.{
  Address, Symbol, Result, ok, err, ◌>>=◌, Env, unwrap_or, run, run_invariant,
}
use de_fi_lending_stellar_pa.Pool.State.{
  Pool, BorrowerSnapshot, borrow_index, index_scale, owed, deployed, collateral_of, debt_of,
}
use de_fi_lending_stellar_pa.Pool.Supply.{supply, withdraw, withdraw_collateral}
use de_fi_lending_stellar_pa.Pool.Borrow.{repay, repay_on_behalf}
use de_fi_lending_stellar_pa.Pool.Sound.{IsOwing, IsSound, supply-IsSound, withdraw-IsSound}
use de_fi_lending_stellar_pa.Pool.Runs.{
  Op, invoke, initialize_op, add_operator_op, add_asset_op, set_paused_op, set_skip_op,
  accrue_interest_op, supply_op, withdraw_op, supply_collateral_op, withdraw_collateral_op,
  borrow_op, repay_op, borrow_raw_op, repay_on_behalf_op,
}
use de_fi_lending_stellar_pa.Pool.Calls.{
  initialize-IsSound, add_operator-IsSound, set_paused-IsSound, set_skip-IsSound, add_asset-IsSound,
  accrue_interest-IsSound, supply_collateral-IsSound, withdraw_collateral-IsSound, borrows-IsSound,
  borrow_raw-IsSound, repay-IsSound, repay_on_behalf-IsSound,
}

-- An operation with a result is sound if it is so for every result.
returned-IsSound :
    (r : Result (Pool × ℤ)) {s' : Pool}
    → ((t : Pool) (m : ℤ) → r ≡ ok (t, m) → IsSound t)
    → (do (t, _) ← r; ok t) ≡ ok s'
    → IsSound s'
returned-IsSound (ok (t, m)) {s'} sound h =
    let same : t ≡ s' = ground arith in rw (sym same) (sound t m refl)
returned-IsSound (err x) sound h = absurd (ground arith)

invoke-IsSound : (e : Env) (op : Op) (s s' : Pool) → IsSound s → invoke e op s ≡ ok s' → IsSound s'
unfolding invoke
invoke-IsSound e (initialize_op a) s s' v h = initialize-IsSound e s v a h
invoke-IsSound e (add_operator_op a) s s' v h = add_operator-IsSound e s v a h
invoke-IsSound e (add_asset_op c) s s' v h = add_asset-IsSound e s v c h
invoke-IsSound e (set_paused_op to) s s' v h = set_paused-IsSound e s v to h
invoke-IsSound e (set_skip_op skip) s s' v h = set_skip-IsSound e s v skip h
invoke-IsSound e (accrue_interest_op x) s s' v h = accrue_interest-IsSound e s v x h
invoke-IsSound e (supply_op u x n) s s' v h =
    returned-IsSound (supply e u x n s) (λ t m. supply-IsSound e u x n s v) h
invoke-IsSound e (withdraw_op u x n) s s' v h =
    returned-IsSound (withdraw e u x n s) (λ t m. withdraw-IsSound e u x n s v) h
invoke-IsSound e (supply_collateral_op u x n) s s' v h = supply_collateral-IsSound e s v u x n h
invoke-IsSound e (withdraw_collateral_op u x n) s s' v h =
    returned-IsSound (withdraw_collateral e u x n s)
      (λ t m. withdraw_collateral-IsSound e s v u x n) h
invoke-IsSound e (borrow_op u x n) s s' v h = borrows-IsSound e s v u x n h
invoke-IsSound e (repay_op u x n) s s' v h =
    returned-IsSound (repay e u x n s) (λ t m. repay-IsSound e s v u x n) h
invoke-IsSound e (borrow_raw_op op u x n) s s' v h = borrow_raw-IsSound e s v op u x n h
invoke-IsSound e (repay_on_behalf_op op payer u x n) s s' v h =
    returned-IsSound (repay_on_behalf e op payer u x n s)
      (λ t m. repay_on_behalf-IsSound e s v op payer u x n) h

deployed-IsSound : IsSound deployed
unfolding lookup
deployed-IsSound = record {
  shares = tt;
  minted = tt;
  loans = λ k snap h. absurd (ground arith);
  indices = λ x. omega arith;
}

owed_nonneg :
    (snap : BorrowerSnapshot) (idx : ℤ) {debt : ℤ}
    → owed snap idx ≡ ok debt
    → pos 0 ≤ℤ snap.principal
    → pos 0 ≤ℤ idx
    → pos 0 ≤ℤ debt
unfolding owed
owed_nonneg snap idx h p0 i0 =
    let scaled = *ℤ_nonneg snap.principal idx p0 i0 in
    let q = quot_nonneg (snap.principal *ℤ idx) (max_ℤ snap.index (pos 1)) scaled (ground arith) in
    ground arith

stored_nonneg :
    (k : Address × Symbol) (m : Map (Address × Symbol) BorrowerSnapshot)
    → IsOwing m
    → pos 0
      ≤ℤ (unwrap_or (lookup k m) (record { principal = pos 0; index = index_scale })).principal
stored_nonneg k m v = elim (Option-cases (lookup k m)) [
  | inl missing ↦ rw missing (omega arith)
  | inr (snap, stored) ↦ rw stored (v k snap stored)
]

-- However the pool is called after its deployment, with failed calls in between, nobody's share
-- balance and nobody's debt is negative, and the borrow index of every asset is at least one in its
-- scale.
pub history_nonneg :
    (calls : List (Env × Op)) (user : Address) (asset : Symbol) {debt : ℤ}
    → debt_of user asset (run invoke calls deployed) ≡ ok debt
    → let s = run invoke calls deployed in
      (pos 0 ≤ℤ collateral_of user asset s)
      × (pos 0 ≤ℤ debt)
      × (index_scale ≤ℤ borrow_index asset s)
unfolding collateral_of borrow_index debt_of
history_nonneg calls user asset h =
    let s = run invoke calls deployed in
    let v : IsSound s =
      run_invariant invoke IsSound invoke-IsSound calls deployed deployed-IsSound in
    let i1 = v.indices asset in
    (
      amount_at_nonneg (user, asset) s.deposit_shares v.shares,
      owed_nonneg _ _ h (stored_nonneg (user, asset) s.borrowers v.loans) (omega int_laws),
      i1,
    )
