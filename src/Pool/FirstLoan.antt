-- ===== src/Pool/FirstLoan.antt =====
-- A user's first loan in an asset: the debt it leaves, and what it keeps of the configuration.
use de_fi_lending_stellar_pa.Prelude.{
  ◌≡◌, refl, ◌∙◌, none, arith, nat_equality, pair_equality, inl, inr, false,
}
use de_fi_lending_stellar_pa.Int.{ℤ, pos, ◌+ℤ◌, ◌≤ℤ◌, int_laws}
use de_fi_lending_stellar_pa.Int.Product.{quot-*ℤ}
use de_fi_lending_stellar_pa.Map.{lookup, insert, lookup-insert_self}
use de_fi_lending_stellar_pa.Soroban.{Address, Symbol, Result-cases, ok, Env}
use de_fi_lending_stellar_pa.Pool.State.{
  Pool, debt_of, owed, ltv_bps, asset_config, borrow_index, move_tokens,
}
use de_fi_lending_stellar_pa.Pool.Interest.{accrue_interest}
use de_fi_lending_stellar_pa.Pool.Borrow.{borrow_raw, borrow_internal}
use de_fi_lending_stellar_pa.Pool.Effects.{borrow_internal-effect}
use de_fi_lending_stellar_pa.Pool.Phantom.{accrue_interest-settings}
use de_fi_lending_stellar_pa.Pool.Accrual.{accrue_interest_once}

-- A snapshot taken at the current index is owed in full.
owed_now-eq :
    (p i q : ℤ)
    → pos 0 ≤ℤ p
    → pos 1 ≤ℤ i
    → owed (record { principal = p; index = i }) i ≡ ok q
    → q ≡ p
unfolding owed
owed_now-eq p i q hp hi h = let back = quot-*ℤ p i hp hi in ground arith

move_tokens-configs :
    (e : Env) (y : Symbol) (m : ℤ) (from to : Address) (a : Pool) {t : Pool}
    → move_tokens e y from to m a ≡ ok t
    → t.asset_configs ≡ a.asset_configs
unfolding move_tokens
move_tokens-configs e y m from to a h = ground arith

module _ (e : Env) (op user : Address) (y : Symbol) (m : ℤ) (p : Pool) {p' : Pool} where
  borrow_raw-internal :
      borrow_raw e op user y m p ≡ ok p' → borrow_internal e user y m false p ≡ ok p'
  unfolding borrow_raw
  borrow_raw-internal h = ground arith

  -- What a first loan leaves as the debt.
  pub first_loan-debt :
      (q : ℤ)
      → borrow_raw e op user y m p ≡ ok p'
      → lookup (user, y) p.borrowers ≡ none
      → pos 1 ≤ℤ borrow_index y p
      → debt_of user y p' ≡ ok q
      → q ≡ m
  unfolding debt_of
  first_loan-debt q h first i1 owes =
      let (a, accrued, _, stored, _, same, n1) =
        borrow_internal-effect e user y m false p (borrow_raw-internal h) in
      let (grows, _, _) = accrue_interest_once e y p accrued in
      let fresh : p'.borrowers
          ≡ insert (user, y) (record { principal = pos 0 +ℤ m; index = borrow_index y a })
              p.borrowers =
        rw first at stored in
      let kept : borrow_index y p' ≡ borrow_index y a = unfold borrow_index in rw same refl in
      let now : owed (record { principal = pos 0 +ℤ m; index = borrow_index y a })
            (borrow_index y a)
          ≡ ok q =
        rw (kept, fresh, lookup-insert_self) at owes in
      owed_now-eq (pos 0 +ℤ m) (borrow_index y a) q (omega int_laws) (omega arith) now
      ∙ grind int_laws

  borrow_internal-configs :
      borrow_internal e user y m false p ≡ ok p' → p'.asset_configs ≡ p.asset_configs
  unfolding borrow_internal
  borrow_internal-configs h = elim (Result-cases (accrue_interest e y p)) [
    | inr (_, failed) ↦ absurd (ground arith)
    | inl (a, accrued) ↦ elim (Result-cases (move_tokens e y e.current user m a)) [
      | inr (_, failed) ↦ absurd (ground arith)
      | inl (t, moved) ↦
          let kept = (accrue_interest-settings e y p accrued).1 in
          let kept' = move_tokens-configs e y m e.current user a moved in ground arith
    ]
  ]

  pub borrow_raw-ltv :
      (x : Symbol) → borrow_raw e op user y m p ≡ ok p' → ltv_bps x p' ≡ ltv_bps x p
  unfolding ltv_bps asset_config
  borrow_raw-ltv x h = rw (borrow_internal-configs (borrow_raw-internal h)) refl

pub no_loan-debt :
    (user : Address) (y : Symbol) (p : Pool)
    → lookup (user, y) p.borrowers ≡ none
    → debt_of user y p ≡ ok (pos 0)
unfolding debt_of owed
no_loan-debt user y p first = rw first refl
