-- ===== src/Controller/FreshLoan.antt =====
-- The controller's check of a loan against the liquidation engine's, in one collateral asset.
use de_fi_lending_stellar_pa.Prelude.{
  ◌≡◌, refl, sym, ap, ◌∙◌, none, some, arith, nat_equality, pair_equality, inl, inr,
}
use de_fi_lending_stellar_pa.Int.{ℤ, pos, ◌+ℤ◌, ◌≤ℤ◌, int_laws}
use de_fi_lending_stellar_pa.Map.{lookup, insert, lookup-insert_self}
use de_fi_lending_stellar_pa.Soroban.{
  Address, Symbol, Result-cases, ok, Env, enter, expect, no_such_contract,
}
use de_fi_lending_stellar_pa.Vault.{Vault, position, deposit}
use de_fi_lending_stellar_pa.Oracle.{Oracle, value_of, get_price, collect_median}
use de_fi_lending_stellar_pa.Pool.State.{Pool, debt_of, ltv_bps, borrow_index}
use de_fi_lending_stellar_pa.Pool.Borrow.{borrow_raw}
use de_fi_lending_stellar_pa.Liquidation.{
  World, LiquidationConfig, Seizure, liquidate, config, oracle_value, pool_debt_of, vault_position,
  asset_ltv_bps,
}
use de_fi_lending_stellar_pa.Liquidation.Assessment.{IsDue}
use de_fi_lending_stellar_pa.Liquidation.Settlement.{liquidate-IsDue}
use de_fi_lending_stellar_pa.Controller.Deployment.{
  Deployment, oracle_value_of, lending_pool, collateral_vault,
}
use de_fi_lending_stellar_pa.Controller.Lending.{borrow, check_borrow}
use de_fi_lending_stellar_pa.Controller.Ltv.{>>=-cong}
use de_fi_lending_stellar_pa.Controller.Loan.{IsValued, check_borrow-IsValued}
use de_fi_lending_stellar_pa.Vault.Effects.{deposit-effect}
use de_fi_lending_stellar_pa.Controller.Pausing.{Panics}
use de_fi_lending_stellar_pa.Pool.FirstLoan.{no_loan-debt, first_loan-debt, borrow_raw-ltv}

-- A price depends on the ledger's sequence only, not on who asks.
value_of-same :
    (e e' : Env) (x : Symbol) (n : ℤ) (o : Oracle)
    → e'.sequence ≡ e.sequence
    → value_of e' x n o ≡ value_of e x n o
unfolding value_of get_price collect_median
value_of-same e e' x n o seq = rw seq refl

-- The engine and the controller read the same value of the oracle.
oracle_value-agrees :
    (e e' : Env) (o : Address) (x : Symbol) (n : ℤ) (d : Deployment) (w : World)
    → w.oracles ≡ d.oracles
    → e'.sequence ≡ e.sequence
    → oracle_value e' o x n w ≡ oracle_value_of e o x n d
unfolding oracle_value oracle_value_of
oracle_value-agrees e e' o x n d w same seq =
    >>=-cong _ _ _ _ (ap (λ m. expect (lookup o m) no_such_contract) same)
      (λ s. value_of-same (enter e o) (enter e' o) x n s seq)

ok-eq : {A : Type 0} {a b : A} → ok a ≡ ok b → a ≡ b
ok-eq h = cc

module _ (e e' : Env) (cfg : LiquidationConfig) (user : Address) (x y : Symbol) (n m amount : ℤ)
    (d : Deployment) (w : World) (p p' : Pool) (v v' : Vault) (zz : Seizure) where
  valued_not_due :
      IsValued e user x n d y m cfg.oracle p v
      → IsDue e' cfg user y x amount w zz
      → w.oracles ≡ d.oracles
      → e'.sequence ≡ e.sequence
      → lookup cfg.pool w.pools ≡ some p'
      → lookup cfg.vault w.vaults ≡ some v'
      → position user x v' ≡ position user x v +ℤ n
      → ltv_bps x p' ≡ ltv_bps x p
      → debt_of user y p ≡ ok (pos 0)
      → ((q : ℤ) → debt_of user y p' ≡ ok q → q ≡ m)
      → ⊥
  unfolding pool_debt_of vault_position asset_ltv_bps
  valued_not_due z due oracles seq fp fv held ltv none_yet first =
      let owes : debt_of user y p' ≡ ok due.outstanding = rw fp at due.debt_read in
      let holds : due.held ≡ position user x v +ℤ n = sym (ok-eq (rw fv at due.held_read)) ∙ held in
      let ratio : due.ltv ≡ z.ltv = ok-eq (sym (rw fp at due.ltv_read) ∙ ltv ∙ z.ltv_read) in
      let nothing : z.debt ≡ pos 0 = ok-eq (sym z.debt_read ∙ none_yet) in
      let loan : due.outstanding ≡ z.debt +ℤ m =
        first due.outstanding owes ∙ rw nothing (grind int_laws) in
      let worth : due.coll_value ≡ z.collat_value = ok-eq (
        sym due.coll_valued
        ∙ rw holds (oracle_value-agrees e e' cfg.oracle x (position user x v +ℤ n) d w oracles seq)
        ∙ z.collat_valued) in
      let owed : due.debt_value ≡ z.debt_value = ok-eq (
        sym due.debt_valued
        ∙ rw loan (oracle_value-agrees e e' cfg.oracle y (z.debt +ℤ m) d w oracles seq)
        ∙ z.debt_valued) in
      let under = rw (worth, owed, ratio) at due.under_water in
      absurd (omega (arith, under, z.covered))

-- What a loan does to the contracts at known addresses.
borrow-at :
    (e : Env) (user : Address) (x : Symbol) (n : ℤ) (y : Symbol) (m : ℤ) (d : Deployment)
    {d' : Deployment} (pool vault : Address) (p : Pool)
    → d.controller.lending_pool ≡ some pool
    → d.controller.collateral_vault ≡ some vault
    → lookup pool d.pools ≡ some p
    → borrow e user x n y m d ≡ ok d'
    → (p' : Pool) × (v v' : Vault) × (check_borrow e user x n y m d ≡ ok tt)
      × (lookup vault d.vaults ≡ some v)
      × (deposit (enter e vault) e.current user x n v ≡ ok v')
      × (borrow_raw (enter e pool) e.current user y m p ≡ ok p')
      × (d'.pools ≡ insert pool p' d.pools)
      × (d'.vaults ≡ insert vault v' d.vaults)
      × (d'.oracles ≡ d.oracles)
unfolding borrow lending_pool collateral_vault
borrow-at e user x n y m d pool vault p at_pool at_vault found h = ground arith

-- If an asset's borrow index is at least 1, a user's first loan in it through the controller
-- cannot be liquidated against the collateral asset that it was given for, in the same ledger and
-- with the pools, vaults and oracles as the loan left them: whoever tries, for whatever amount,
-- through an engine with the controller's pool, vault and oracle, the call panics.
pub fresh_loan_not_due :
    (e e' : Env) (user liquidator : Address) (x : Symbol) (n : ℤ) (y : Symbol) (m amount : ℤ)
    (d : Deployment) {d' : Deployment} (p : Pool) (w : World) (cfg : LiquidationConfig)
    → borrow e user x n y m d ≡ ok d'
    → d.controller.lending_pool ≡ some cfg.pool
    → d.controller.collateral_vault ≡ some cfg.vault
    → d.controller.oracle ≡ some cfg.oracle
    → lookup cfg.pool d.pools ≡ some p
    → lookup (user, y) p.borrowers ≡ none
    → pos 1 ≤ℤ borrow_index y p
    → config w.engine ≡ ok cfg
    → w.pools ≡ d'.pools
    → w.vaults ≡ d'.vaults
    → w.oracles ≡ d'.oracles
    → e'.sequence ≡ e.sequence
    → Panics (liquidate e' liquidator user y x amount w)
fresh_loan_not_due e e' user liquidator x n y m amount d p w cfg h at_pool at_vault at_oracle found
      first i1 configured pools vaults oracles seq =
    elim (Result-cases (liquidate e' liquidator user y x amount w)) [
      | inr panic ↦ panic
      | inl ((w', got), done) ↦
          let (zz, _, _, _, _, _, due, _, _, _) =
            liquidate-IsDue e' liquidator user y x amount w cfg configured done in
          let (p', v, v', checked, fv, deposited, lent, pools', vaults', oracles') =
            borrow-at e user x n y m d cfg.pool cfg.vault p at_pool at_vault found h in
          let z =
            check_borrow-IsValued e user x n d y m cfg.oracle cfg.pool cfg.vault p v checked
              at_oracle at_pool at_vault found fv in
          let held : position user x v' ≡ position user x v +ℤ n =
            let (positions, _, _, _) =
              deposit-effect (enter e cfg.vault) e.current user x n v deposited in
            unfold position in rw (positions, lookup-insert_self) refl in
          absurd (
            valued_not_due e e' cfg user x y n m amount d w p p' v v' zz z due (oracles ∙ oracles')
              seq (rw (pools ∙ pools', lookup-insert_self) refl)
              (rw (vaults ∙ vaults', lookup-insert_self) refl) held
              (borrow_raw-ltv (enter e cfg.pool) e.current user y m p x lent)
              (no_loan-debt user y p first)
              (λ q. first_loan-debt (enter e cfg.pool) e.current user y m p q lent first i1))
    ]
