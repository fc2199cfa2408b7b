-- ===== src/Controller/Repayment.antt =====
-- `repay` of the controller: what the pool has booked afterwards.
use de_fi_lending_stellar_pa.Prelude.{
  ◌≡◌, refl, inl, inr, true, some, ◌∷◌, arith, nat_equality, pair_equality,
}
use de_fi_lending_stellar_pa.Int.{ℤ, pos, ◌-ℤ◌, ◌*ℤ◌, ◌≤ℤ◌}
use de_fi_lending_stellar_pa.Map.{lookup, insert}
use de_fi_lending_stellar_pa.Soroban.{
  Address, Symbol, Result-cases, ok, Env, enter, in_i128, authorized,
}
use de_fi_lending_stellar_pa.Pool.State.{Pool, debt_of, borrow_index, total_borrow}
use de_fi_lending_stellar_pa.Pool.Interest.{accrue_interest}
use de_fi_lending_stellar_pa.Pool.Borrow as Loans
use de_fi_lending_stellar_pa.Pool.Effects.{taken}
use de_fi_lending_stellar_pa.Pool.Debt.{repay_settles}
use de_fi_lending_stellar_pa.Controller.Deployment.{Deployment, lending_pool, repay_event}
use de_fi_lending_stellar_pa.Controller.Lending.{repay}

repay-internal :
    (e : Env) (user : Address) (x : Symbol) (n : ℤ) (p : Pool) {p' : Pool} {r : ℤ}
    → Loans.repay e user x n p ≡ ok (p', r)
    → (authorized e user ≡ true) × (Loans.repay_internal e user user x n p ≡ ok (p', r))
unfolding Loans.repay
repay-internal e user x n p h = (ground arith, ground arith)

repay-at :
    (e : Env) (user : Address) (x : Symbol) (n : ℤ) (d : Deployment) {d' : Deployment} {r : ℤ}
    (pool : Address) (p : Pool)
    → repay e user x n d ≡ ok (d', r)
    → d.controller.lending_pool ≡ some pool
    → lookup pool d.pools ≡ some p
    → (p' : Pool) × (Loans.repay (enter e pool) user x n p ≡ ok (p', r))
      × (d'.pools ≡ insert pool p' d.pools)
      × (d'.oracles ≡ d.oracles)
      × (d'.vaults ≡ d.vaults)
      × (d'.tokens ≡ d.tokens)
      × (d'.controller ≡ d.controller)
unfolding repay lending_pool
repay-at e user x n d {d'} {r} pool p h at_pool found =
    elim (Result-cases (Loans.repay (enter e pool) user x n p)) [
      | inr (_, failed) ↦ absurd (ground arith)
      | inl ((p', paid), done) ↦
          let same : paid ≡ r = ground arith in
          let after : d' ≡ record d {
            pools = insert pool p' d.pools;
            events = repay_event user x n r ∷ d.events;
          } =
            ground arith in
          (
            p',
            rw same at done,
            rw after refl,
            rw after refl,
            rw after refl,
            rw after refl,
            rw after refl,
          )
    ]

-- If the user's debt after the accrual is not negative, the asset's borrow index is at least 1 before
-- it, and the rest of the debt times the index fits in an i128: a repayment through the controller
-- takes the smaller of the amount and the debt, and returns it. The user then owes the pool exactly
-- the rest, the pool's recorded loans fall by what was taken, and no other pool, no vault, no token,
-- no oracle and nothing of the controller's storage has changed.
pub repay_settles_debt :
    (e : Env) (user : Address) (x : Symbol) (n debt : ℤ) (d : Deployment) {d' : Deployment} {r : ℤ}
    (pool : Address) (p a : Pool)
    → repay e user x n d ≡ ok (d', r)
    → d.controller.lending_pool ≡ some pool
    → lookup pool d.pools ≡ some p
    → accrue_interest (enter e pool) x p ≡ ok a
    → debt_of user x a ≡ ok debt
    → pos 0 ≤ℤ debt
    → pos 1 ≤ℤ borrow_index x p
    → in_i128 ((debt -ℤ r) *ℤ borrow_index x a) ≡ true
    → (p' : Pool) × (d'.pools ≡ insert pool p' d.pools)
      × (d'.oracles ≡ d.oracles)
      × (r ≡ taken debt n)
      × (debt_of user x p' ≡ ok (debt -ℤ r))
      × (total_borrow x p' ≡ total_borrow x p -ℤ r)
      × (d'.vaults ≡ d.vaults)
      × (d'.tokens ≡ d.tokens)
      × (d'.controller ≡ d.controller)
repay_settles_debt e user x n debt d pool p a h at_pool found accrued owes d0 i1 fits =
    let (p', repaid, pools, oracles, vaults, tokens, controller) =
      repay-at e user x n d pool p h at_pool found in
    let (_, inner) = repay-internal (enter e pool) user x n p repaid in
    let (takes, rest, loans, _, _) =
      repay_settles (enter e pool) user user x n debt p a inner accrued owes d0 i1 fits in
    (p', pools, oracles, takes, rest, loans, vaults, tokens, controller)
