-- ===== src/Pool/Effects.antt =====
-- What a successful call of each pool operation has written, in terms of the storage before it.
use de_fi_lending_stellar_pa.Prelude.{
  ◌≡◌, Bool, Option, arith, nat_equality, pair_equality, if◌then◌else◌, inl, inr,
}
use de_fi_lending_stellar_pa.Int.{ℤ, pos, ◌+ℤ◌, ◌-ℤ◌, ◌≤ℤ◌, leb_ℤ}
use de_fi_lending_stellar_pa.Map.{lookup, insert}
use de_fi_lending_stellar_pa.Map.Sum.{amount_at}
use de_fi_lending_stellar_pa.Soroban.{Address, Symbol, ok, Env, unwrap_or, Result-cases}
use de_fi_lending_stellar_pa.Pool.State.{
  Pool, BorrowerSnapshot, move_tokens, total_deposit, total_borrow, deposit_shares_total,
  borrow_index, owed, index_scale,
}
use de_fi_lending_stellar_pa.Pool.Interest.{accrue_interest}
use de_fi_lending_stellar_pa.Pool.Supply.{shares_for, amount_for, supply, withdraw}
use de_fi_lending_stellar_pa.Pool.Borrow.{check_health, borrow_internal, collect, repay_internal}

-- Two storages with the same books, apart from the index and the clock of the interest.
pub record SameBooks (s t : Pool) : Type 0 where
  pub deposits : t.total_deposits ≡ s.total_deposits
  pub borrows : t.total_borrows ≡ s.total_borrows
  pub shares : t.deposit_shares ≡ s.deposit_shares
  pub total_shares : t.total_deposit_shares ≡ s.total_deposit_shares
  pub snapshots : t.borrowers ≡ s.borrowers

pub accrue_interest-SameBooks :
    (e : Env) (x : Symbol) (s : Pool) {t : Pool} → accrue_interest e x s ≡ ok t → SameBooks s t
unfolding accrue_interest
accrue_interest-SameBooks e x s h = ground arith

pub accrue_interest-transfers :
    (e : Env) (x : Symbol) (s : Pool) {t : Pool}
    → accrue_interest e x s ≡ ok t
    → t.transfers ≡ s.transfers
unfolding accrue_interest
accrue_interest-transfers e x s h = ground arith

pub move_tokens-SameBooks :
    (e : Env) (x : Symbol) (from to : Address) (n : ℤ) (s : Pool) {t : Pool}
    → move_tokens e x from to n s ≡ ok t
    → SameBooks s t
unfolding move_tokens
move_tokens-SameBooks e x from to n s h = ground arith

pub move_tokens-index :
    (e : Env) (x : Symbol) (from to : Address) (n : ℤ) (s : Pool) {t : Pool}
    → move_tokens e x from to n s ≡ ok t
    → t.borrow_indices ≡ s.borrow_indices
unfolding move_tokens
move_tokens-index e x from to n s h = ground arith

pub collect-SameBooks :
    (e : Env) (x : Symbol) (payer : Address) (n : ℤ) (s : Pool) {t : Pool}
    → collect e x payer n s ≡ ok t
    → SameBooks s t × (t.borrow_indices ≡ s.borrow_indices)
unfolding collect move_tokens
collect-SameBooks e x payer n s h = ground arith

module _ (e : Env) (user : Address) (x : Symbol) (n : ℤ) (s : Pool) {s' : Pool} {m : ℤ} where
  pub supply-effect :
      supply e user x n s ≡ ok (s', m)
      → (shares_for n (deposit_shares_total x s) (total_deposit x s) ≡ ok m)
        × (s'.deposit_shares
            ≡ insert (user, x) (amount_at (user, x) s.deposit_shares +ℤ m) s.deposit_shares)
        × (s'.total_deposit_shares
            ≡ insert x (deposit_shares_total x s +ℤ m) s.total_deposit_shares)
        × (s'.total_deposits ≡ insert x (total_deposit x s +ℤ n) s.total_deposits)
        × (pos 1 ≤ℤ n)
  unfolding supply deposit_shares_total total_deposit
  supply-effect h = elim (Result-cases (accrue_interest e x s)) [
    | inr (_, failed) ↦ absurd (ground arith)
    | inl (a, accrued) ↦ elim (Result-cases (move_tokens e x user e.current n a)) [
      | inr (_, failed) ↦ absurd (ground arith)
      | inl (t, moved) ↦
          let b = accrue_interest-SameBooks e x s accrued in
          let c = move_tokens-SameBooks e x user e.current n a moved in ground arith
    ]
  ]

  pub withdraw-effect :
      withdraw e user x n s ≡ ok (s', m)
      → (amount_for n (deposit_shares_total x s) (total_deposit x s) ≡ ok m)
        × (s'.deposit_shares
            ≡ insert (user, x) (amount_at (user, x) s.deposit_shares -ℤ n) s.deposit_shares)
        × (s'.total_deposit_shares ≡ s.total_deposit_shares)
        × (s'.total_deposits ≡ insert x (total_deposit x s -ℤ m) s.total_deposits)
        × (pos 1 ≤ℤ n)
        × (n ≤ℤ amount_at (user, x) s.deposit_shares)
  unfolding withdraw deposit_shares_total total_deposit
  withdraw-effect h = elim (Result-cases (accrue_interest e x s)) [
    | inr (_, failed) ↦ absurd (ground arith)
    | inl (a, accrued) ↦
        let b = accrue_interest-SameBooks e x s accrued in
        elim (Result-cases (amount_for n (deposit_shares_total x a) (total_deposit x a))) [
          | inr (_, failed) ↦ absurd (ground arith)
          | inl (paid, priced) ↦ elim (Result-cases (move_tokens e x e.current user paid a)) [
            | inr (_, failed) ↦ absurd (ground arith)
            | inl (t, moved) ↦
                let c = move_tokens-SameBooks e x e.current user paid a moved in ground arith
          ]
        ]
  ]

abbrev pub snapshot_or : ℤ → Option BorrowerSnapshot → BorrowerSnapshot
snapshot_or idx stored = unwrap_or stored (record { principal = pos 0; index = idx })

-- The snapshot that a loan of a further amount writes.
abbrev pub with_loan : ℤ → ℤ → Option BorrowerSnapshot → BorrowerSnapshot
with_loan n idx stored = record { principal = (snapshot_or idx stored).principal +ℤ n; index = idx }

module _ (e : Env) (user : Address) (x : Symbol) (n : ℤ) (check : Bool) (s : Pool) {s' : Pool} where
  pub borrow_internal-effect :
      borrow_internal e user x n check s ≡ ok s'
      → (a : Pool) × (accrue_interest e x s ≡ ok a)
        × (check_health check user x n a ≡ ok tt)
        × (s'.borrowers
            ≡ insert
                (user, x)
                (with_loan n (borrow_index x a) (lookup (user, x) s.borrowers))
                s.borrowers)
        × (s'.total_borrows ≡ insert x (total_borrow x s +ℤ n) s.total_borrows)
        × (s'.borrow_indices ≡ a.borrow_indices)
        × (pos 1 ≤ℤ n)
  unfolding borrow_internal total_borrow borrow_index
  borrow_internal-effect h = elim (Result-cases (accrue_interest e x s)) [
    | inr (_, failed) ↦ absurd (ground arith)
    | inl (a, accrued) ↦
        let b = accrue_interest-SameBooks e x s accrued in
        elim (Result-cases (move_tokens e x e.current user n a)) [
          | inr (_, failed) ↦ absurd (ground arith)
          | inl (t, moved) ↦
              let c = move_tokens-SameBooks e x e.current user n a moved in
              let i = move_tokens-index e x e.current user n a moved in
              (a, accrued, ground arith, ground arith, ground arith, ground arith, ground arith)
        ]
  ]

-- What a repayment of at most `n` takes from a debt.
abbrev pub taken : ℤ → ℤ → ℤ
taken debt n = if leb_ℤ debt n then debt else n

module _ (e : Env) (payer borrower : Address) (x : Symbol) (n : ℤ) (s : Pool) {s' : Pool}
    {m : ℤ} where
  pub repay_internal-effect :
      repay_internal e payer borrower x n s ≡ ok (s', m)
      → (a : Pool) × (debt : ℤ) × (accrue_interest e x s ≡ ok a)
        × (owed (snapshot_or index_scale (lookup (borrower, x) s.borrowers)) (borrow_index x a)
            ≡ ok debt)
        × (m ≡ taken debt n)
        × (s'.borrowers
            ≡ insert
                (borrower, x)
                (record { principal = debt -ℤ m; index = borrow_index x a })
                s.borrowers)
        × (s'.total_borrows ≡ insert x (total_borrow x s -ℤ m) s.total_borrows)
        × (s'.borrow_indices ≡ a.borrow_indices)
        × (pos 1 ≤ℤ n)
  unfolding repay_internal total_borrow borrow_index
  repay_internal-effect h = elim (Result-cases (accrue_interest e x s)) [
    | inr (_, failed) ↦ absurd (ground arith)
    | inl (a, accrued) ↦
        let b = accrue_interest-SameBooks e x s accrued in
        let snap = snapshot_or index_scale (lookup (borrower, x) a.borrowers) in
        elim (Result-cases (owed snap (borrow_index x a))) [
          | inr (_, failed) ↦ absurd (ground arith)
          | inl (debt, owes) ↦ elim (Result-cases (collect e x payer (taken debt n) a)) [
            | inr (_, failed) ↦ absurd (ground arith)
            | inl (t, moved) ↦
                let c = collect-SameBooks e x payer (taken debt n) a moved in
                (
                  a,
                  debt,
                  accrued,
                  ground arith,
                  ground arith,
                  ground arith,
                  ground arith,
                  ground arith,
                  ground arith,
                )
          ]
        ]
  ]
