-- ===== src/Controller/Loan.antt =====
-- `borrow` of the controller: what its check guarantees after the call, and what it does not look at.
use de_fi_lending_stellar_pa.Prelude.{
  ℕ, min, ◌≡◌, ◌≢◌, refl, ap, ◌∙◌, some, arith, nat_equality, pair_equality, inl, inr,
}
use de_fi_lending_stellar_pa.Int.{ℤ, pos, ◌+ℤ◌, ◌*ℤ◌, ◌≤ℤ◌}
use de_fi_lending_stellar_pa.Map.{Map, lookup, insert, lookup-insert_self, lookup-insert_ne}
use de_fi_lending_stellar_pa.Soroban.{Address, Symbol, Result-cases, ok, Env, enter}
use de_fi_lending_stellar_pa.Vault.{Vault, position}
use de_fi_lending_stellar_pa.Vault.Effects.{deposit-effect}
use de_fi_lending_stellar_pa.Pool.State.{
  Pool, BorrowerSnapshot, debt_of, ltv_bps, borrow_index, asset_config,
}
use de_fi_lending_stellar_pa.Controller.Deployment.{
  Deployment, lending_pool, collateral_vault, oracle, oracle_value_of,
}
use de_fi_lending_stellar_pa.Controller.Lending.{check_borrow, borrow, max_ltv_bps}
use de_fi_lending_stellar_pa.Controller.Effects.{borrow-effect}
use de_fi_lending_stellar_pa.Controller.Ltv.{require_within_ltv-bound, oracle_value_of-same}

module _ (e : Env) (user : Address) (x : Symbol) (n : ℤ) (d : Deployment) where
  check_borrow-callees :
      (y : Symbol) (m : ℤ)
      → check_borrow e user x n y m d ≡ ok tt
      → (o pool vault : Address) × (p : Pool) × (v : Vault) × (d.controller.oracle ≡ some o)
        × (d.controller.lending_pool ≡ some pool)
        × (d.controller.collateral_vault ≡ some vault)
        × (lookup pool d.pools ≡ some p)
        × (lookup vault d.vaults ≡ some v)
  unfolding check_borrow oracle lending_pool collateral_vault
  check_borrow-callees y m h = ground arith

  -- The values that the check of a loan compares.
  pub record IsValued (y : Symbol) (m : ℤ) (o : Address) (p : Pool) (v : Vault) : Type 0 where
    pub debt : ℤ
    pub debt_value : ℤ
    pub collat_value : ℤ
    pub ltv : ℕ
    pub debt_read : debt_of user y p ≡ ok debt
    pub ltv_read : ltv_bps x p ≡ ok ltv
    pub collat_valued : oracle_value_of e o x (position user x v +ℤ n) d ≡ ok collat_value
    pub debt_valued : oracle_value_of e o y (debt +ℤ m) d ≡ ok debt_value
    pub covered : debt_value *ℤ pos 10_000 ≤ℤ collat_value *ℤ pos (min ltv max_ltv_bps)

  pub check_borrow-IsValued :
      (y : Symbol) (m : ℤ) (o pool vault : Address) (p : Pool) (v : Vault)
      → check_borrow e user x n y m d ≡ ok tt
      → d.controller.oracle ≡ some o
      → d.controller.lending_pool ≡ some pool
      → d.controller.collateral_vault ≡ some vault
      → lookup pool d.pools ≡ some p
      → lookup vault d.vaults ≡ some v
      → IsValued y m o p v
  unfolding check_borrow oracle lending_pool collateral_vault
  check_borrow-IsValued y m o pool vault p v h ho hp hv fp fv =
      elim (Result-cases (oracle_value_of e o x (position user x v +ℤ n) d)) [
        | inr (_, failed) ↦ absurd (ground arith)
        | inl (collat_value, collat_valued) ↦ elim (Result-cases (debt_of user y p)) [
          | inr (_, failed) ↦ absurd (ground arith)
          | inl (debt, debt_read) ↦ elim (Result-cases (oracle_value_of e o y (debt +ℤ m) d)) [
            | inr (_, failed) ↦ absurd (ground arith)
            | inl (debt_value, debt_valued) ↦ elim (Result-cases (ltv_bps x p)) [
              | inr (_, failed) ↦ absurd (ground arith)
              | inl (ltv, ltv_read) ↦ record {
                debt = debt;
                debt_value = debt_value;
                collat_value = collat_value;
                ltv = ltv;
                debt_read = debt_read;
                ltv_read = ltv_read;
                collat_valued = collat_valued;
                debt_valued = debt_valued;
                covered = require_within_ltv-bound debt_value collat_value ltv (ground arith);
              }
            ]
          ]
        ]
      ]

-- After a loan the whole position in the collateral, at the oracle's price and the asset's
-- loan-to-value of at most 75 %, covers the debt in the borrowed asset with the new loan.
pub borrow_within_ltv :
    (e : Env) (user : Address) (x : Symbol) (n : ℤ) (y : Symbol) (m : ℤ) (d : Deployment)
    {d' : Deployment}
    → borrow e user x n y m d ≡ ok d'
    → (o pool vault : Address) × (p : Pool) × (v' : Vault) × (debt debt_value collat_value : ℤ)
      × (ltv : ℕ) × (d.controller.oracle ≡ some o)
      × (d.controller.lending_pool ≡ some pool)
      × (d.controller.collateral_vault ≡ some vault)
      × (lookup pool d.pools ≡ some p)
      × (debt_of user y p ≡ ok debt)
      × (ltv_bps x p ≡ ok ltv)
      × (lookup vault d'.vaults ≡ some v')
      × (oracle_value_of e o x (position user x v') d' ≡ ok collat_value)
      × (oracle_value_of e o y (debt +ℤ m) d' ≡ ok debt_value)
      × (debt_value *ℤ pos 10_000 ≤ℤ collat_value *ℤ pos (min ltv max_ltv_bps))
borrow_within_ltv e user x n y m d {d'} h =
    let (pool, vault, p, p', v, v', checked, at_pool, at_vault, fp, fv, deposited, lent, done) =
      borrow-effect e user n d x y m h in
    let (o, _, _, _, _, at_o, _, _, _, _) = check_borrow-callees e user x n d y m checked in
    let z : IsValued e user x n d y m o p v =
      check_borrow-IsValued e user x n d y m o pool vault p v checked at_o at_pool at_vault fp fv in
    let (positions, _, _, _) = deposit-effect (enter e vault) e.current user x n v deposited in
    let oracles : d'.oracles ≡ d.oracles = rw done refl in
    let held : position user x v' ≡ position user x v +ℤ n =
      unfold position in rw (positions, lookup-insert_self) refl in
    (
      o,
      pool,
      vault,
      p,
      v',
      z.debt,
      z.debt_value,
      z.collat_value,
      z.ltv,
      at_o,
      at_pool,
      at_vault,
      fp,
      z.debt_read,
      z.ltv_read,
      rw (done, lookup-insert_self) refl,
      oracle_value_of-same e d d' oracles o x _ ∙ rw held z.collat_valued,
      oracle_value_of-same e d d' oracles o y _ ∙ z.debt_valued,
      z.covered,
    )

-- What the check of a loan reads of the pool.
check_borrow-reads :
    (e : Env) (user : Address) (x : Symbol) (n : ℤ) (y : Symbol) (m : ℤ) (d : Deployment)
    (pool : Address) (p p' : Pool)
    → d.controller.lending_pool ≡ some pool
    → lookup pool d.pools ≡ some p
    → debt_of user y p' ≡ debt_of user y p
    → ltv_bps x p' ≡ ltv_bps x p
    → check_borrow e user x n y m (record d { pools = insert pool p' d.pools })
      ≡ check_borrow e user x n y m d
unfolding check_borrow lending_pool oracle_value_of
check_borrow-reads e user x n y m d pool p p' at_pool found debt ltv =
    rw (at_pool, lookup-insert_self pool p' d.pools, found, debt, ltv) refl

debt_of-other :
    (user : Address) (y other : Symbol) (p : Pool) (snap : BorrowerSnapshot)
    → other ≢ y
    → debt_of user y (record p { borrowers = insert (user, other) snap p.borrowers })
      ≡ debt_of user y p
unfolding debt_of borrow_index
debt_of-other user y other p snap differ =
    rw
      (lookup-insert_ne (user, other) (user, y) snap p.borrowers
        (λ same. differ (ap (λ k. k.1) same)))
      refl

ltv_bps-other :
    (x : Symbol) (p : Pool) (loans : Map (Address × Symbol) BorrowerSnapshot)
    → ltv_bps x (record p { borrowers = loans }) ≡ ltv_bps x p
unfolding ltv_bps asset_config
ltv_bps-other x p loans = refl

-- The check of a loan never looks at a debt in another asset: whatever the user owes there, the check
-- answers the same, so one collateral backs a loan in each asset.
pub borrow_ignores_other_debt :
    (e : Env) (user : Address) (x : Symbol) (n : ℤ) (y other : Symbol) (m : ℤ) (d : Deployment)
    (pool : Address) (p : Pool) (snap : BorrowerSnapshot)
    → d.controller.lending_pool ≡ some pool
    → lookup pool d.pools ≡ some p
    → other ≢ y
    → check_borrow e user x n y m (record d {
      pools = insert pool (record p { borrowers = insert (user, other) snap p.borrowers }) d.pools;
    })
      ≡ check_borrow e user x n y m d
borrow_ignores_other_debt e user x n y other m d pool p snap at_pool found differ =
    check_borrow-reads e user x n y m d pool p _ at_pool found
      (debt_of-other user y other p snap differ) (ltv_bps-other x p _)
