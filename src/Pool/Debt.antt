-- ===== src/Pool/Debt.antt =====
-- Debts: what a loan and a repayment write, and what they keep.
use de_fi_lending_stellar_pa.Prelude.{
  ◌≡◌, sym, ◌∙◌, Bool, true, some, arith, nat_equality, pair_equality,
}
use de_fi_lending_stellar_pa.Int.{ℤ, pos, ◌+ℤ◌, ◌-ℤ◌, ◌*ℤ◌, ◌≤ℤ◌, ◌<ℤ◌, int_laws}
use de_fi_lending_stellar_pa.Int.Product.{quot-*ℤ, le-*ℤ}
use de_fi_lending_stellar_pa.Map.{Map, lookup, insert, lookup-insert_self}
use de_fi_lending_stellar_pa.Soroban.{Address, Symbol, ok, Env, in_i128, authorized}
use de_fi_lending_stellar_pa.Soroban.Machine.{in_i128-between}
use de_fi_lending_stellar_pa.Pool.State.{
  Pool, BorrowerSnapshot, borrow_index, debt_of, owed, index_scale, total_borrow, collateral_of,
}
use de_fi_lending_stellar_pa.Pool.Interest.{accrue_interest}
use de_fi_lending_stellar_pa.Pool.Borrow.{borrow, borrow_internal, check_health, repay_internal}
use de_fi_lending_stellar_pa.Pool.Effects.{
  snapshot_or, taken, borrow_internal-effect, repay_internal-effect, accrue_interest-SameBooks,
  SameBooks,
}
use de_fi_lending_stellar_pa.Pool.Accrual.{accrue_interest_once}

-- A snapshot taken at the current index is worth its principal.
owed_now :
    (p i : ℤ)
    → pos 0 ≤ℤ p
    → pos 1 ≤ℤ i
    → in_i128 (p *ℤ i) ≡ true
    → owed (record { principal = p; index = i }) i ≡ ok p
unfolding owed
owed_now p i hp hi fits =
    let back = quot-*ℤ p i hp hi in
    let small = in_i128-between p (p *ℤ i) fits hp (le-*ℤ p i hp hi) in ground arith

-- The debt that a written snapshot stands for, if the index is the one it was written at.
debt_of-written :
    (k : Address) (x : Symbol) (p : ℤ) (a t : Pool) (m : Map (Address × Symbol) BorrowerSnapshot)
    → t.borrowers ≡ insert (k, x) (record { principal = p; index = borrow_index x a }) m
    → t.borrow_indices ≡ a.borrow_indices
    → pos 0 ≤ℤ p
    → pos 1 ≤ℤ borrow_index x a
    → in_i128 (p *ℤ borrow_index x a) ≡ true
    → debt_of k x t ≡ ok p
unfolding debt_of borrow_index
debt_of-written k x p a t m stored same hp hi fits =
    rw (stored, lookup-insert_self, same) (owed_now p (borrow_index x a) hp hi fits)

ok-injective {ℓ} : {A : Type ℓ} {a b : A} → ok a ≡ ok b → a ≡ b
ok-injective h = cc

debt_of-SameBooks :
    (k : Address) (x : Symbol) (s a : Pool)
    → SameBooks s a
    → owed (snapshot_or index_scale (lookup (k, x) s.borrowers)) (borrow_index x a) ≡ debt_of k x a
unfolding debt_of
debt_of-SameBooks k x s a b = rw b.snapshots

taken_bounds :
    (debt n : ℤ)
    → pos 0 ≤ℤ debt
    → pos 1 ≤ℤ n
    → (pos 0 ≤ℤ debt -ℤ taken debt n) × (taken debt n ≤ℤ n) × (taken debt n ≤ℤ debt)
unfolding ◌-ℤ◌
taken_bounds debt n h1 h2 = ground arith

-- A repayment by whoever pays takes the smaller of the amount and the debt after the accrual. The
-- borrower then owes exactly the rest, the recorded loans fall by what was taken, and nothing is
-- taken beyond the debt or the amount.
pub repay_settles :
    (e : Env) (payer borrower : Address) (x : Symbol) (n debt : ℤ) (s a : Pool) {s' : Pool} {m : ℤ}
    → repay_internal e payer borrower x n s ≡ ok (s', m)
    → accrue_interest e x s ≡ ok a
    → debt_of borrower x a ≡ ok debt
    → pos 0 ≤ℤ debt
    → pos 1 ≤ℤ borrow_index x s
    → in_i128 ((debt -ℤ m) *ℤ borrow_index x a) ≡ true
    → (m ≡ taken debt n)
      × (debt_of borrower x s' ≡ ok (debt -ℤ m))
      × (total_borrow x s' ≡ total_borrow x s -ℤ m)
      × (m ≤ℤ n)
      × (m ≤ℤ debt)
unfolding total_borrow
repay_settles e payer borrower x n debt s a {s'} {m} h accrued owes d0 i1 fits =
    let (a', debt', accrued', owes', takes, stored, loans, same, n1) =
      repay_internal-effect e payer borrower x n s h in
    let here : a' ≡ a = ok-injective (sym accrued' ∙ accrued) in
    let there : owed (snapshot_or index_scale (lookup (borrower, x) s.borrowers)) (borrow_index x a)
        ≡ ok debt' =
      rw here at owes' in
    let what : debt' ≡ debt = ok-injective (
      sym there
      ∙ debt_of-SameBooks borrower x s a (accrue_interest-SameBooks e x s accrued)
      ∙ owes) in
    let m_eq : m ≡ taken debt n = rw what at takes in
    let (rest0, le_n, le_debt) = taken_bounds debt n d0 n1 in
    let (grows, _, _) = accrue_interest_once e x s accrued in
    (
      m_eq,
      debt_of-written borrower x (debt -ℤ m) a s' s.borrowers (rw (here, what) at stored)
          (rw here at same) (rw m_eq rest0) (omega arith) fits,
      rw (loans, lookup-insert_self),
      rw m_eq le_n,
      rw m_eq le_debt,
    )

-- A further loan writes the stored principal plus the amount at the current index: the interest that
-- the earlier loan has gathered, `debt - principal`, is no longer owed.
pub borrow_forgets_interest :
    (e : Env) (user : Address) (x : Symbol) (n debt : ℤ) (check : Bool) (s a : Pool)
    (snap : BorrowerSnapshot) {s' : Pool}
    → borrow_internal e user x n check s ≡ ok s'
    → accrue_interest e x s ≡ ok a
    → lookup (user, x) s.borrowers ≡ some snap
    → debt_of user x a ≡ ok debt
    → pos 0 ≤ℤ snap.principal
    → snap.principal <ℤ debt
    → pos 1 ≤ℤ borrow_index x s
    → in_i128 ((snap.principal +ℤ n) *ℤ borrow_index x a) ≡ true
    → (debt_of user x s' ≡ ok (snap.principal +ℤ n))
      × (snap.principal +ℤ n <ℤ debt +ℤ n)
      × (total_borrow x s' ≡ total_borrow x s +ℤ n)
unfolding total_borrow
borrow_forgets_interest e user x n debt check s a snap {s'} h accrued known owes p0 more i1 fits =
    let (a', accrued', _, stored, loans, same, n1) = borrow_internal-effect e user x n check s h in
    let here : a' ≡ a = ok-injective (sym accrued' ∙ accrued) in
    let (grows, _, _) = accrue_interest_once e x s accrued in
    (
      debt_of-written user x (snap.principal +ℤ n) a s' s.borrowers (rw (here, known) at stored)
          (rw here at same) (omega (int_laws, p0, n1)) (omega arith) fits,
      omega int_laws,
      rw (loans, lookup-insert_self),
    )

check_health-covers :
    (user : Address) (x : Symbol) (n debt : ℤ) (a : Pool)
    → check_health true user x n a ≡ ok tt
    → debt_of user x a ≡ ok debt
    → pos 0 ≤ℤ debt
    → pos 1 ≤ℤ n
    → debt +ℤ n ≤ℤ collateral_of user x a
unfolding check_health
check_health-covers user x n debt a h owes d0 n1 = grind int_laws

-- A user who borrows directly has signed, and holds collateral in the same asset for the whole debt,
-- interest and the new amount included.
pub borrow_covered :
    (e : Env) (user : Address) (x : Symbol) (n debt : ℤ) (s a : Pool) {s' : Pool}
    → borrow e user x n s ≡ ok s'
    → accrue_interest e x s ≡ ok a
    → debt_of user x a ≡ ok debt
    → pos 0 ≤ℤ debt
    → (authorized e user ≡ true) × (debt +ℤ n ≤ℤ collateral_of user x s)
unfolding borrow collateral_of
borrow_covered e user x n debt s a {s'} h accrued owes d0 =
    let signed : authorized e user ≡ true = ground arith in
    let inner : borrow_internal e user x n true s ≡ ok s' = ground arith in
    let (a', accrued', healthy, _, _, _, n1) = borrow_internal-effect e user x n true s inner in
    let here : a' ≡ a = ok-injective (sym accrued' ∙ accrued) in
    let covered = check_health-covers user x n debt a (rw here at healthy) owes d0 n1 in
    let books = accrue_interest-SameBooks e x s accrued in (signed, rw books.shares at covered)
