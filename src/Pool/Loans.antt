-- ===== src/Pool/Loans.antt =====
-- Loans and repayments against the invariant of Pool/Sound.
use de_fi_lending_stellar_pa.Prelude.{
  ◌≡◌, Bool, arith, nat_equality, pair_equality, inl, inr, Option-cases,
}
use de_fi_lending_stellar_pa.Int.{ℤ, pos, ◌-ℤ◌, ◌≤ℤ◌, int_laws}
use de_fi_lending_stellar_pa.Map.{Map, lookup}
use de_fi_lending_stellar_pa.Soroban.{Address, Symbol, ok, Env, Result-cases}
use de_fi_lending_stellar_pa.Pool.State.{
  Pool, BorrowerSnapshot, move_tokens, borrow_index, index_scale, owed,
}
use de_fi_lending_stellar_pa.Pool.Interest.{accrue_interest}
use de_fi_lending_stellar_pa.Pool.Borrow.{borrow_internal, collect, repay_internal}
use de_fi_lending_stellar_pa.Pool.Effects.{
  snapshot_or, with_loan, taken, accrue_interest-SameBooks, move_tokens-SameBooks,
  collect-SameBooks, borrow_internal-effect, repay_internal-effect,
}
use de_fi_lending_stellar_pa.Pool.Sound.{IsOwing, IsSound, insert-IsOwing, accrue_interest-IsGrown}

with_loan_nonneg :
    (n idx : ℤ) (k : Address × Symbol) (m : Map (Address × Symbol) BorrowerSnapshot)
    → IsOwing m
    → pos 1 ≤ℤ n
    → pos 0 ≤ℤ (with_loan n idx (lookup k m)).principal
with_loan_nonneg n idx k m v n1 = elim (Option-cases (lookup k m)) [
  | inl missing ↦ rw missing (omega int_laws)
  | inr (snap, stored) ↦ rw stored (omega (int_laws, v k snap stored))
]

left_nonneg : (debt n : ℤ) → pos 0 ≤ℤ debt -ℤ taken debt n
unfolding ◌-ℤ◌
left_nonneg debt n = ground arith

module _ (e : Env) (user : Address) (x : Symbol) (n : ℤ) (check : Bool) (s : Pool) {s' : Pool} where
  borrow_internal-shares :
      borrow_internal e user x n check s ≡ ok s'
      → (s'.deposit_shares ≡ s.deposit_shares) × (s'.total_deposit_shares ≡ s.total_deposit_shares)
  unfolding borrow_internal
  borrow_internal-shares h = elim (Result-cases (accrue_interest e x s)) [
    | inr (_, failed) ↦ absurd (ground arith)
    | inl (a, accrued) ↦
        let b = accrue_interest-SameBooks e x s accrued in
        elim (Result-cases (move_tokens e x e.current user n a)) [
          | inr (_, failed) ↦ absurd (ground arith)
          | inl (t, moved) ↦
              let c = move_tokens-SameBooks e x e.current user n a moved in
              (ground arith, ground arith)
        ]
  ]

  pub borrow_internal-IsSound : IsSound s → borrow_internal e user x n check s ≡ ok s' → IsSound s'
  borrow_internal-IsSound v h =
      let (a, accrued, _, borrowers, _, indices, n1) =
        borrow_internal-effect e user x n check s h in
      let (own, total) = borrow_internal-shares h in
      record {
        shares = rw own v.shares;
        minted = rw total v.minted;
        loans = rw borrowers (
            insert-IsOwing (user, x) _ s.borrowers v.loans
              (with_loan_nonneg n (borrow_index x a) (user, x) s.borrowers v.loans n1));
        indices = rw indices (accrue_interest-IsGrown e x s accrued v.indices);
      }

module _ (e : Env) (payer borrower : Address) (x : Symbol) (n : ℤ) (s : Pool) {s' : Pool}
    {m : ℤ} where
  repay_internal-shares :
      repay_internal e payer borrower x n s ≡ ok (s', m)
      → (s'.deposit_shares ≡ s.deposit_shares) × (s'.total_deposit_shares ≡ s.total_deposit_shares)
  unfolding repay_internal
  repay_internal-shares h = elim (Result-cases (accrue_interest e x s)) [
    | inr (_, failed) ↦ absurd (ground arith)
    | inl (a, accrued) ↦
        let b = accrue_interest-SameBooks e x s accrued in
        let snap = snapshot_or index_scale (lookup (borrower, x) a.borrowers) in
        elim (Result-cases (owed snap (borrow_index x a))) [
          | inr (_, failed) ↦ absurd (ground arith)
          | inl (debt, owes) ↦ elim (Result-cases (collect e x payer (taken debt n) a)) [
            | inr (_, failed) ↦ absurd (ground arith)
            | inl (t, moved) ↦
                let c = collect-SameBooks e x payer (taken debt n) a moved in
                (ground arith, ground arith)
          ]
        ]
  ]

  pub repay_internal-IsSound :
      IsSound s → repay_internal e payer borrower x n s ≡ ok (s', m) → IsSound s'
  repay_internal-IsSound v h =
      let (a, debt, accrued, _, paid, borrowers, _, indices, n1) =
        repay_internal-effect e payer borrower x n s h in
      let (own, total) = repay_internal-shares h in
      record {
        shares = rw own v.shares;
        minted = rw total v.minted;
        loans =
            rw (borrowers, paid)
              (insert-IsOwing (borrower, x) _ s.borrowers v.loans (left_nonneg debt n));
        indices = rw indices (accrue_interest-IsGrown e x s accrued v.indices);
      }
